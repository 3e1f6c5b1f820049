-- ===== src/User/Ends.antt =====
-- How a user process of cpu/user_mode.c ends, and what `user_waitpid_status` tells of it.
use yoz_os.Base.{
  ℕ, ◌<◌, ◌≡◌, ◌≢◌, refl, sym, ap, ◌∙◌, arith, Bool, true, false, Bool-cases, inl, inr, Option,
  none, some, get_or, set, length, get_or-set_self, get_or-set_ne, set-set, if◌then◌else◌,
  Option-cases,
}
use yoz_os.Fat.Volume.{Volume}
use yoz_os.Task.Store.{Tasks}
use yoz_os.Task.Calls.{task_kill}
use yoz_os.User.Store.{
  ProcessState, unused, ready, running, exited, failed, killed, Process, Machine, no_process,
  process_at, set_process, is_unused_process, is_dead, exit_killed,
}
use yoz_os.User.Table.{
  user_process_close_fds, close_from, mark_killed, user_process_find_pid, waitpid_found,
  user_waitpid_status, after_kill, kill_task, kill_found, user_process_kill_pid,
}
use yoz_os.User.Found.{find_pid-IsFound, find_pid-set}

-- The state of a process behind its end, by its pid and its exit code.
pub record EndsAs (i code : ℕ) (m m' : Machine) : Type 0 where
  pub process : Process
  pub table : m'.processes ≡ set m.processes i process
  pub dead : is_dead process.state ≡ true
  pub pid : process.pid ≡ (process_at m i).pid
  pub exit_code : process.exit_code ≡ code

is_dead-used : (p : Process) → is_dead p.state ≡ true → is_unused_process p.state ≡ false
is_dead-used p h = dead-used p.state h
  where
    dead-used : (s : ProcessState) → is_dead s ≡ true → is_unused_process s ≡ false
    dead-used unused h = absurd cc
    dead-used ready h = refl
    dead-used running h = refl
    dead-used exited h = refl
    dead-used failed h = refl
    dead-used killed h = refl

-- The search finds the process that ended.
pub EndsAs-found :
    (pid i code : ℕ) (m m' : Machine)
    → user_process_find_pid pid m ≡ some i
    → EndsAs i code m m'
    → (user_process_find_pid pid m' ≡ some i)
      × (is_dead (process_at m' i).state ≡ true)
      × ((process_at m' i).exit_code ≡ code)
EndsAs-found pid i code m m' e h =
    let f = find_pid-IsFound pid i m e in
    let used = is_dead-used h.process h.dead ∙ sym f.used in
    let at : process_at m' i ≡ h.process =
      ap (λ ps. get_or ps i no_process) h.table
      ∙ get_or-set_self m.processes i h.process no_process f.in_table in
    (
      find_pid-set pid i m m' h.process h.table (record { used = used; pid = h.pid }) ∙ e,
      ap (λ (p : Process). is_dead p.state) at ∙ h.dead,
      ap (λ (p : Process). p.exit_code) at ∙ h.exit_code,
    )

-- The status of a process that ended is its exit code.
pub EndsAs-waitpid :
    (pid i code : ℕ) (m m' : Machine)
    → user_process_find_pid pid m ≡ some i
    → EndsAs i code m m'
    → user_waitpid_status pid m' ≡ code
unfolding user_waitpid_status
EndsAs-waitpid pid i code m m' e h =
    let (found, dead, exit_code) = EndsAs-found pid i code m m' e h in
    ap (waitpid_found m') found ∙ rw dead exit_code

-- The status of every other pid is as before.
pub EndsAs-others :
    (pid i code : ℕ) (m m' : Machine)
    → user_process_find_pid pid m ≡ some i
    → EndsAs i code m m'
    → (other : ℕ) → other ≢ pid
    → user_waitpid_status other m' ≡ user_waitpid_status other m
unfolding user_waitpid_status
EndsAs-others pid i code m m' e h other ne =
    let f = find_pid-IsFound pid i m e in
    let used = is_dead-used h.process h.dead ∙ sym f.used in
    let same = find_pid-set other i m m' h.process h.table (record { used = used; pid = h.pid }) in
    ap (waitpid_found m') same ∙ elim (Option-cases (user_process_find_pid other m)) [
      | inl n ↦ rw n refl
      | inr (j, g) ↦
          let apart : i ≢ j = λ q. ne (
            sym (find_pid-IsFound other j m g).has_pid
            ∙ ap (λ k. (process_at m k).pid) (sym q)
            ∙ f.has_pid) in
          let at : process_at m' j ≡ process_at m j =
            ap (λ ps. get_or ps j no_process) h.table
            ∙ get_or-set_ne m.processes i j h.process no_process apart in
          rw g (ap (λ (p : Process). if is_dead p.state then p.exit_code else 0xfffffffc) at)
    ]

code_differs : (m m' : Machine) (a b : ℕ) → a ≢ b → ¬ ◌≡◌ {A = ℕ × Machine} (a, m) (b, m')
code_differs m m' a b ne e = ne (ap (λ (x : ℕ × Machine). x.0) e)

module _ (v : Volume) where
  -- A process that is marked as dead, with its descriptors closed.
  pub close-EndsAs :
      (i code : ℕ) (m : Machine) (p : Process)
      → i < length m.processes
      → is_dead p.state ≡ true
      → p.pid ≡ (process_at m i).pid
      → p.exit_code ≡ code
      → EndsAs i code m (user_process_close_fds v i (set_process m i p))
  unfolding user_process_close_fds
  close-EndsAs i code m p h dead pid e =
      let fds = (close_from v 5 3 (process_at (set_process m i p) i).fds m.vfs).0 in
      record {
        process = record p { fds = fds };
        table =
            ap (λ (x : Process). set (set m.processes i p) i (record x { fds = fds }))
              (get_or-set_self m.processes i p no_process h)
            ∙ set-set m.processes i p (record p { fds = fds });
        dead = dead;
        pid = pid;
        exit_code = e;
      }

  after_kill-EndsAs :
      (i : ℕ) (m m' : Machine) (o : Bool × Tasks)
      → i < length m.processes
      → after_kill v i m o ≡ (1, m')
      → EndsAs i exit_killed m m'
  unfolding after_kill
  after_kill-EndsAs i m m' (false, tasks) h e =
      absurd (code_differs (record m { tasks = tasks }) m' 3 1 (omega arith) e)
  after_kill-EndsAs i m m' (true, tasks) h e =
      let r =
        close-EndsAs i exit_killed (record m { tasks = tasks }) (mark_killed (process_at m i)) h
          refl refl refl in
      let same : (after_kill v i m (true, tasks)).1 ≡ m' = ap (λ (x : ℕ × Machine). x.1) e in
      record {
        process = r.process;
        table = ap (λ (x : Machine). x.processes) (sym same) ∙ r.table;
        dead = r.dead;
        pid = r.pid;
        exit_code = r.exit_code;
      }

  kill_task-EndsAs :
      (i : ℕ) (m m' : Machine) (o : Option ℕ)
      → i < length m.processes
      → kill_task v i m o ≡ (1, m')
      → EndsAs i exit_killed m m'
  unfolding kill_task
  kill_task-EndsAs i m m' none h e = absurd (code_differs m m' 3 1 (omega arith) e)
  kill_task-EndsAs i m m' (some t) h e = after_kill-EndsAs i m m' (task_kill (some t) m.tasks) h e

  kill_found-EndsAs :
      (m m' : Machine) (i : ℕ)
      → i < length m.processes
      → kill_found v m (some i) ≡ (1, m')
      → EndsAs i exit_killed m m'
  unfolding kill_found
  kill_found-EndsAs m m' i h e = elim (Bool-cases (is_dead (process_at m i).state)) [
    | inl t ↦ absurd (code_differs m m' 2 1 (omega arith) (rw t at e))
    | inr t ↦
        let e' : kill_task v i m (process_at m i).task ≡ (1, m') = rw t at e in
        kill_task-EndsAs i m m' (process_at m i).task h e'
  ]

-- Right after `user_process_kill_pid` has killed a process, the status of its pid is
-- USER_EXIT_KILLED, that of every other pid is as before, and the same call made again finds the
-- process dead and changes nothing.
pub user_process_kill_pid-waitpid :
    (v : Volume) (pid : ℕ) (m m' : Machine)
    → user_process_kill_pid v pid m ≡ (1, m')
    → (user_waitpid_status pid m' ≡ exit_killed)
      × ((other : ℕ) → other ≢ pid → user_waitpid_status other m' ≡ user_waitpid_status other m)
      × (user_process_kill_pid v pid m' ≡ (2, m'))
unfolding user_process_kill_pid
user_process_kill_pid-waitpid v pid m m' e = elim (Option-cases (user_process_find_pid pid m)) [
  | inl n ↦ absurd (code_differs m m' 0 1 (omega arith) (sym (ap (kill_found v m) n) ∙ e))
  | inr (i, f) ↦
      let e' : kill_found v m (some i) ≡ (1, m') = sym (ap (kill_found v m) f) ∙ e in
      let r = kill_found-EndsAs v m m' i (find_pid-IsFound pid i m f).in_table e' in
      let (found, dead, _) = EndsAs-found pid i exit_killed m m' f r in
      (
        EndsAs-waitpid pid i exit_killed m m' f r,
        EndsAs-others pid i exit_killed m m' f r,
        ap (kill_found v m') found ∙ rw dead refl,
      )
]
