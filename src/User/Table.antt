-- ===== src/User/Table.antt =====
-- The process table of cpu/user_mode.c. What the calls print is not in the state.
use yoz_os.Base.{
  ℕ, zero, suc, ◌+◌, ◌-◌, ◌%◌, ◌^◌, ◌==◌, if◌then◌else◌, Bool, true, false, Option, none, some,
  List, [], ◌∷◌, get_or, set,
}
use yoz_os.Fat.Volume.{Volume}
use yoz_os.Memory.Paging.{Paging, Space, user}
use yoz_os.Memory.Paging.Spaces.{free_some, address_space_destroy}
use yoz_os.Task.Store.{Tasks, points_to}
use yoz_os.Task.Calls.{task_kill}
use yoz_os.Vfs.Files.{Vfs}
use yoz_os.Vfs.Calls.{vfs_close}
use yoz_os.User.Store.{
  Fd, Process, Machine, unused, ready, exited, failed, killed, is_unused_process, is_dead,
  is_vfs_fd, no_fd, process_at, set_process, set_paging, set_vfs, max_user_processes, max_fds,
  first_file, exit_killed,
}

-- The loop of `user_process_alloc`: the first process that is not in use.
unfoldable pub free_process : (i : ℕ) → List Process → Option ℕ
free_process i [] = none
free_process i (p ∷ ps) =
    let rest = free_process (i + 1) ps in if is_unused_process p.state then some i else rest

abbrev pub take_process : Machine → Option ℕ → Option ℕ × Machine
take_process m none = (none, m)
take_process m (some i) = (some i, set_process m i (record (process_at m i) { state = ready }))

unfoldable pub user_process_alloc : Machine → Option ℕ × Machine
unfolding free_process
user_process_alloc m = take_process m (free_process 0 m.processes)

-- The loop of `user_process_find_pid`.
unfoldable pub pid_from : (i pid : ℕ) → List Process → Option ℕ
pid_from i pid [] = none
pid_from i pid (p ∷ ps) =
    let rest = pid_from (i + 1) pid ps in
    if is_unused_process p.state then rest else if p.pid == pid then some i else rest

unfoldable pub user_process_find_pid : (pid : ℕ) → Machine → Option ℕ
unfolding pid_from
user_process_find_pid pid m = pid_from 0 pid m.processes

unfoldable pub user_process_assign_pid : (i : ℕ) → Machine → Machine
user_process_assign_pid i m =
    let p = process_at m i in
    let numbered = set_process m i (record p { pid = m.next_user_pid }) in
    if p.pid == 0 then record numbered { next_user_pid = (m.next_user_pid + 1) % 2 ^ 32 } else m

abbrev pub mark_exited : (code : ℕ) → Process → Process
mark_exited code p = record p { state = exited; exit_code = code }

abbrev pub mark_failed : (code : ℕ) → Process → Process
mark_failed code p = record p { state = failed; exit_code = code }

abbrev pub mark_killed : Process → Process
mark_killed p = record p { state = killed; exit_code = exit_killed }

-- The frames of a list that are not 0 go back.
unfoldable pub free_frames : List ℕ → Paging → Paging
free_frames [] s = s
free_frames (f ∷ fs) s = free_frames fs (free_some f s)

-- The frames of a process go back.
abbrev pub free_process_frames : Process → Paging → Paging
free_process_frames p s =
    free_frames p.elf_frames (free_frames p.image_frames (free_some p.user_stack_frame s))

-- `&user_spaces[a]`, where there is one.
abbrev pub space_of : Option ℕ → Option Space
space_of none = none
space_of (some a) = some (user a)

abbrev pub cleared_process : Process → Process
cleared_process p = record p {
  state = unused;
  name = [];
  pid = 0;
  parent_pid = 0;
  task = none;
  program = none;
  user_stack_frame = 0;
  image_frames = [];
  elf_frames = [];
}

module _ (v : Volume) where
  -- The descriptors behind the close of those of files, and the open files.
  abbrev pub close_fd : Fd → Vfs → Vfs
  close_fd fd s = if is_vfs_fd fd.type then (vfs_close v fd.vfs_handle s).1 else s

  unfoldable pub close_from : (rounds i : ℕ) → List Fd → Vfs → List Fd × Vfs
  close_from zero i fds s = (fds, s)
  close_from (suc rounds) i fds s =
      close_from rounds (i + 1) (set fds i no_fd) (close_fd (get_or fds i no_fd) s)

  -- `user_process_close_fds`.
  unfoldable pub user_process_close_fds : (i : ℕ) → Machine → Machine
  unfolding close_from
  user_process_close_fds i m =
      let p = process_at m i in
      let (fds, s) = close_from (max_fds - first_file) first_file p.fds m.vfs in
      set_process (set_vfs m s) i (record p { fds = fds })

  unfoldable pub user_process_clear : (i : ℕ) → Machine → Machine
  unfolding free_frames user_process_close_fds
  user_process_clear i m =
      let p = process_at m i in
      let freed = set_paging m (free_process_frames p m.paging) in
      let closed = user_process_close_fds i (set_process freed i (cleared_process p)) in
      let destroyed =
        set_paging closed (address_space_destroy (space_of p.address_space) closed.paging) in
      set_process destroyed i (record (process_at closed i) { address_space = none; exit_code = 0 })

  -- A round of `user_process_reap`.
  unfoldable pub reap_one : (i : ℕ) → Machine → Machine
  unfolding user_process_clear
  reap_one i m =
      let reaped = user_process_clear i m in
      if points_to m.current i then m else if is_dead (process_at m i).state then reaped else m

  unfoldable pub reap_from : (rounds i : ℕ) → Machine → Machine
  unfolding reap_one
  reap_from zero i m = m
  reap_from (suc rounds) i m = reap_from rounds (i + 1) (reap_one i m)

  unfoldable pub user_process_reap : Machine → Machine
  unfolding reap_from
  user_process_reap m = reap_from max_user_processes 0 m

  -- USER_REAP_OK, USER_REAP_NOT_FOUND and USER_REAP_RUNNING, which is -1.
  unfoldable pub reap_found : Machine → Option ℕ → ℕ × Machine
  unfolding user_process_clear
  reap_found m none = (0, m)
  reap_found m (some i) =
      let reaped = user_process_clear i m in
      if points_to m.current i
      then (2 ^ 32 - 1, m)
      else if is_dead (process_at m i).state
      then (1, reaped)
      else (2 ^ 32 - 1, m)

  unfoldable pub user_process_reap_pid : (pid : ℕ) → Machine → ℕ × Machine
  unfolding reap_found
  user_process_reap_pid pid m = reap_found m (user_process_find_pid pid m)

  -- The end of `user_process_kill_pid`, behind `task_kill`: USER_KILL_OK or USER_KILL_NO_TASK.
  unfoldable pub after_kill : (i : ℕ) → Machine → Bool × Tasks → ℕ × Machine
  unfolding user_process_close_fds
  after_kill i m (false, tasks) = (3, record m { tasks = tasks })
  after_kill i m (true, tasks) =
      let m' : Machine = record m { tasks = tasks } in
      (1, user_process_close_fds i (set_process m' i (mark_killed (process_at m i))))

  unfoldable pub kill_task : (i : ℕ) → Machine → (task : Option ℕ) → ℕ × Machine
  unfolding after_kill
  kill_task i m none = (3, m)
  kill_task i m (some t) = after_kill i m (task_kill (some t) m.tasks)

  unfoldable pub kill_found : Machine → Option ℕ → ℕ × Machine
  unfolding kill_task
  kill_found m none = (0, m)
  kill_found m (some i) =
      let p = process_at m i in if is_dead p.state then (2, m) else kill_task i m p.task

  unfoldable pub user_process_kill_pid : (pid : ℕ) → Machine → ℕ × Machine
  unfolding kill_found
  user_process_kill_pid pid m = kill_found m (user_process_find_pid pid m)

-- USER_WAIT_OK, USER_WAIT_NOT_FOUND and USER_WAIT_RUNNING, which is -1.
abbrev pub wait_found : Machine → Option ℕ → ℕ
wait_found m none = 0
wait_found m (some i) = if is_dead (process_at m i).state then 1 else 2 ^ 32 - 1

unfoldable pub user_process_wait_pid : (pid : ℕ) → Machine → ℕ
user_process_wait_pid pid m = wait_found m (user_process_find_pid pid m)

-- USER_WAITPID_NOT_FOUND and USER_WAITPID_RUNNING.
abbrev pub waitpid_found : Machine → Option ℕ → ℕ
waitpid_found m none = 0xffffffff
waitpid_found m (some i) =
    let p = process_at m i in if is_dead p.state then p.exit_code else 0xfffffffc

unfoldable pub user_waitpid_status : (pid : ℕ) → Machine → ℕ
user_waitpid_status pid m = waitpid_found m (user_process_find_pid pid m)

abbrev pub pid_of : Machine → Option ℕ → ℕ
pid_of m none = 0
pid_of m (some i) = (process_at m i).pid

unfoldable pub user_current_pid : Machine → ℕ
user_current_pid m = pid_of m m.current

abbrev pub ppid_of : Machine → Option ℕ → ℕ
ppid_of m none = 0
ppid_of m (some i) = (process_at m i).parent_pid

unfoldable pub user_current_ppid : Machine → ℕ
user_current_ppid m = ppid_of m m.current
