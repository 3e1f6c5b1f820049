-- ===== src/Task/Calls.antt =====
-- The operations of task/task.c. `none` stands for a walk that meets a null pointer or does not
-- come back. The words that `create_task` puts on a new stack, and the switch of the contexts and
-- of the address spaces, are not in the state.
use yoz_os.Base.{
  ℕ, zero, suc, ◌+◌, ◌-◌, ◌%◌, ◌^◌, ◌==◌, ◌&&◌, ◌||◌, not, leb, ltb, if◌then◌else◌, Bool, true,
  false, Option, none, some, List, is_some,
}
use yoz_os.Memory.Frames.{alloc_frame, frame_size}
use yoz_os.Task.Store.{
  unused, ready, running, blocked, exited, is_ready, is_running, is_exited, is_unused, Task, Tasks,
  main_task, idle_task, max_tasks, task_table, set_task, set_state, set_next, points_to,
}

-- One round for each of the 18 tasks, and one more.
abbrev pub ring_fuel : ℕ
ring_fuel = 19

-- The loop of `add_task`: the last task of the ring of `list`.
unfoldable pub find_last : (fuel list last : ℕ) → Tasks → Option ℕ
find_last zero list last s = none
find_last (suc fuel) list last s = elim (s.tasks last).next [
  | none ↦ none
  | some n ↦ let rest = find_last fuel list n s in if n == list then some last else rest
]

-- `add_task` with the last task of the ring of `list`.
unfoldable pub add_behind : (t list : ℕ) → Tasks → Option ℕ → Option Tasks
add_behind t list s none = none
add_behind t list s (some last) = some (set_next (set_next s t (some list)) last (some t))

unfoldable pub add_to : (t : ℕ) → Tasks → (list : Option ℕ) → Option Tasks
unfolding add_behind
add_to t s none = none
add_to t s (some list) = add_behind t list s (find_last ring_fuel list list s)

unfoldable pub add_task : ℕ → Tasks → Option Tasks
unfolding add_to
add_task t s = add_to t s s.task_list

-- `name`: the bytes behind the pointer. `kernel_space` is the result of `kernel_address_space()`.
unfoldable pub create_task : (kernel_space t : ℕ) → List ℕ → Tasks → Tasks
create_task kernel_space t name s =
    let (frame, frames) = alloc_frame s.frames in
    let created : Task = record {
      id = s.next_task_id;
      name = name;
      state = ready;
      esp = (frame + frame_size + 2 ^ 32 - 28) % 2 ^ 32;
      user_process = 0;
      address_space = kernel_space;
      next = none;
    } in
    set_task (record s { frames = frames; next_task_id = (s.next_task_id + 1) % 2 ^ 32 }) t created

-- `scheduler_init`.
unfoldable pub scheduler_init : (kernel_space : ℕ) → (main idle : List ℕ) → Tasks → Option Tasks
unfolding create_task add_task
scheduler_init kernel_space main idle s =
    let main_now : Task = record {
      id = s.next_task_id;
      name = main;
      state = running;
      esp = 0;
      user_process = 0;
      address_space = kernel_space;
      next = some main_task;
    } in
    let begun : Tasks = record (set_task s main_task main_now) {
      next_task_id = (s.next_task_id + 1) % 2 ^ 32;
      current = some main_task;
      task_list = some main_task;
    } in
    elim (add_task idle_task (create_task kernel_space idle_task idle begun))
      as (λ _. Option Tasks) [ none ↦ none | some s' ↦ some (record s' { scheduler_ready = true }) ]

-- The loop of `schedule`.
unfoldable pub find_ready : (fuel current next : ℕ) → Tasks → Option ℕ
find_ready zero current next s = none
find_ready (suc fuel) current next s =
    let rest = elim (s.tasks next).next as (λ _. Option ℕ) [
      | none ↦ none
      | some n ↦ find_ready fuel current n s
    ] in
    if next == current || is_ready (s.tasks next).state then some next else rest

-- The switch from `prev` to `next`.
unfoldable pub run_next : (prev next : ℕ) → Tasks → Tasks
run_next prev next s =
    let stopped = if is_running (s.tasks prev).state then set_state s prev ready else s in
    let started = set_state stopped next running in
    if is_ready (s.tasks next).state then record started { current = some next } else s

-- `schedule` with the task that its loop finds.
unfoldable pub switch_to : (prev : ℕ) → Tasks → Option ℕ → Option Tasks
unfolding run_next
switch_to prev s none = none
switch_to prev s (some next) = some (run_next prev next s)

-- With the task behind the current one.
unfoldable pub schedule_from : (prev : ℕ) → Tasks → (next : Option ℕ) → Option Tasks
unfolding switch_to
schedule_from prev s none = none
schedule_from prev s (some n) = switch_to prev s (find_ready ring_fuel prev n s)

-- With the current task.
unfoldable pub schedule_at : Tasks → (current : Option ℕ) → Option Tasks
unfolding schedule_from
schedule_at s none = some s
schedule_at s (some prev) = schedule_from prev s (s.tasks prev).next

unfoldable pub schedule : Tasks → Option Tasks
unfolding schedule_at
schedule s = if not s.scheduler_ready then some s else schedule_at s s.current

-- `task_exit` up to its call of `schedule`, which does not come back.
unfoldable pub task_exit : Tasks → Option Tasks
unfolding schedule
task_exit s = elim s.current as (λ _. Option Tasks) [
  | none ↦ none
  | some t ↦ schedule (set_state s t exited)
]

-- A task of the table as `task_remove` and `task_reap_exited` leave it; `name` is "unused".
abbrev pub cleared : (name : List ℕ) → Task → Task
cleared name t = record t {
  next = none;
  state = unused;
  name = name;
  user_process = 0;
  address_space = 0;
  esp = 0;
}

-- The loop of `task_remove`.
unfoldable pub remove_loop :
    (fuel list target prev : ℕ) → Option ℕ → (name : List ℕ) → Tasks → Option Tasks
remove_loop zero list target prev t name s = none
remove_loop (suc fuel) list target prev none name s = none
remove_loop (suc fuel) list target prev (some t) name s =
    let unlinked = set_next s prev (s.tasks t).next in
    let found = set_task unlinked t (cleared name (unlinked.tasks t)) in
    let rest = remove_loop fuel list target t (s.tasks t).next name s in
    if t == list then some s else if t == target then some found else rest

-- `task_remove` of a task, with `task_list`.
unfoldable pub remove_from :
    (target : ℕ) → (name : List ℕ) → Tasks → (list : Option ℕ) → Option Tasks
remove_from target name s none = some s
remove_from target name s (some list) =
    let loop = remove_loop ring_fuel list target list (s.tasks list).next name s in
    if target == list || points_to s.current target then some s else loop

-- `target`: none for the null pointer.
unfoldable pub task_remove : Option ℕ → (name : List ℕ) → Tasks → Option Tasks
unfolding remove_from
task_remove none name s = some s
task_remove (some target) name s = remove_from target name s s.task_list

unfoldable pub task_from_table : ℕ → Bool
task_from_table t = leb task_table t && ltb t (task_table + max_tasks)

-- What `task_reap_exited` does to a task that it unlinks.
unfoldable pub reap : (prev t : ℕ) → (name : List ℕ) → Tasks → Tasks
unfolding task_from_table
reap prev t name s =
    let unlinked = set_next s prev (s.tasks t).next in
    let a = if points_to unlinked.task_a t then none else unlinked.task_a in
    let b = if points_to unlinked.task_b t then none else unlinked.task_b in
    let no_test = not (is_some a) && not (is_some b) in
    let noted : Tasks = record unlinked {
      task_a = a;
      task_b = b;
      task_test_started = if no_test then false else unlinked.task_test_started;
    } in
    let freed = set_task noted t (cleared name (noted.tasks t)) in
    if task_from_table t then freed else set_next noted t none

-- The loop of `task_reap_exited`.
unfoldable pub reap_loop : (fuel list prev : ℕ) → Option ℕ → (name : List ℕ) → Tasks → Option Tasks
unfolding reap
reap_loop zero list prev t name s = none
reap_loop (suc fuel) list prev none name s = none
reap_loop (suc fuel) list prev (some t) name s =
    let reaped = reap prev t name s in
    let after_reap = reap_loop fuel list prev (reaped.tasks prev).next name reaped in
    let after_keep = reap_loop fuel list t (s.tasks t).next name s in
    let dead = not (t == idle_task) && not (points_to s.current t) && is_exited (s.tasks t).state in
    if t == list then some s else if dead then after_reap else after_keep

unfoldable pub task_reap_exited : (name : List ℕ) → Tasks → Option Tasks
task_reap_exited name s = elim s.task_list as (λ _. Option Tasks) [
  | none ↦ some s
  | some list ↦ reap_loop ring_fuel list list (s.tasks list).next name s
]

-- The loop of `task_alloc`; `reserved` is the name of the task.
unfoldable pub alloc_task : (rounds t : ℕ) → (reserved : List ℕ) → Tasks → Option ℕ × Tasks
alloc_task zero t reserved s = (none, s)
alloc_task (suc rounds) t reserved s =
    let taken : Task = record (s.tasks t) { state = blocked; name = reserved; next = none } in
    let rest = alloc_task rounds (t + 1) reserved s in
    if is_unused (s.tasks t).state then (some t, set_task s t taken) else rest

unfoldable pub task_alloc : (reserved : List ℕ) → Tasks → Option ℕ × Tasks
unfolding alloc_task
task_alloc reserved s = alloc_task max_tasks task_table reserved s

-- `spawn_task`: the task, and the state; `none` if `add_task` does not return.
unfoldable pub spawn_task :
    (kernel_space : ℕ) → (reserved name : List ℕ) → Tasks → Option (Option ℕ × Tasks)
unfolding task_alloc create_task add_task
spawn_task kernel_space reserved name s =
    let (task, s') = task_alloc reserved s in
    elim task as (λ _. Option (Option ℕ × Tasks)) [
      | none ↦ some (none, s')
      | some t ↦
          elim (add_task t (create_task kernel_space t name s'))
            as (λ _. Option (Option ℕ × Tasks)) [ none ↦ none | some s'' ↦ some (some t, s'') ]
    ]

unfoldable pub task_kill : Option ℕ → Tasks → Bool × Tasks
task_kill none s = (false, s)
task_kill (some t) s =
    if points_to s.current t
    then (false, s)
    else if is_exited (s.tasks t).state || is_unused (s.tasks t).state
    then (false, s)
    else (true, set_state s t exited)

unfoldable pub task_set_user_process : Option ℕ → ℕ → Tasks → Tasks
task_set_user_process none process s = s
task_set_user_process (some t) process s =
    set_task s t (record (s.tasks t) { user_process = process })

unfoldable pub task_set_address_space : Option ℕ → ℕ → Tasks → Tasks
task_set_address_space none space s = s
task_set_address_space (some t) space s =
    set_task s t (record (s.tasks t) { address_space = space })
