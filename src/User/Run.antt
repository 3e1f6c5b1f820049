-- ===== src/User/Run.antt =====
-- How a user process of cpu/user_mode.c starts, runs and ends. `user_context_save` returns twice, so
-- a run is two steps: `begin_process` up to the entry of the program, and `resume_process` from
-- `user_context_restore` on. The stack that an interrupt takes and the switch to the user mode are
-- assembly. The addresses of the two test programs that are linked into the kernel are a parameter.
use yoz_os.Base.{ℕ, ◌+◌, ◌-◌, ◌==◌, if◌then◌else◌, true, false, Option, none, some, List, [], ◌∷◌}
use yoz_os.Disk.{add32}
use yoz_os.Fat.Volume.{Volume}
use yoz_os.Memory.Paging.{Paging, Space, address_space_mark_user_range}
use yoz_os.User.Store.{Region, Program, Machine, running, process_at, set_process, exit_fault}
use yoz_os.User.Table.{space_of, user_process_close_fds, mark_exited, mark_failed}
use yoz_os.User.Fds.{keyboard_clear_line}

-- `prepare_user_program`: the pages of the regions are the user's.
unfoldable pub prepare_user_program : Option Space → List Region → Paging → Option Paging
prepare_user_program a [] s = some s
prepare_user_program a (r ∷ rs) s = elim (address_space_mark_user_range a r.start r.len s) [
  | none ↦ none
  | some s' ↦ prepare_user_program a rs s'
]

-- `run_user_program` up to `enter_user_mode`, which does not return.
unfoldable pub enter_program : Machine → Option Paging → Option Machine
enter_program m none = none
enter_program m (some s) =
    some (record (keyboard_clear_line m) { paging = s; user_owns_keyboard = true })

-- A process with a space and a program, ready to run.
unfoldable pub begin_with : (i space : ℕ) → Program → Machine → Option Machine
unfolding prepare_user_program enter_program
begin_with i space program m =
    let p = process_at m i in
    let entered : Program = record program { stack_top = p.stack_entry } in
    let started = set_process m i (record p { state = running; program = some entered }) in
    let m' : Machine = record started { current = some i } in
    enter_program m' (prepare_user_program (space_of (some space)) program.regions m'.paging)

-- The start of `run_user_process`; a process has its program before its task runs. One without a
-- space is marked as failed, and does not run.
unfoldable pub begin_process : (i : ℕ) → Machine → Option Machine
unfolding begin_with
begin_process i m =
    let p = process_at m i in
    elim p.address_space as (λ _. Option Machine) [
      | none ↦ some (set_process m i (mark_failed 1 p))
      | some space ↦ elim p.program as (λ _. Option Machine) [
        | none ↦ none
        | some program ↦ begin_with i space program m
      ]
    ]

-- The end of `run_user_process` with the code of the process.
unfoldable pub finish_process : (i code : ℕ) → Machine → Machine
finish_process i code m =
    let p = process_at m i in
    let marked = if code == exit_fault then mark_failed exit_fault p else mark_exited code p in
    set_process m i marked

-- `run_user_program` where `user_context_save` returns 0, for a process that runs already.
unfoldable pub enter_again : Option Space → Machine → Option Program → Option Machine
unfolding prepare_user_program enter_program
enter_again a m none = none
enter_again a m (some program) = enter_program m (prepare_user_program a program.regions m.paging)

-- `run_user_process` from `user_context_restore(ret)` on, where `user_context_save` returns `ret`:
-- where that is 0, the program starts again.
unfoldable pub resume_process : Volume → (i ret : ℕ) → Machine → Option Machine
unfolding finish_process enter_again
resume_process v i ret m =
    let restored : Machine = record m { user_owns_keyboard = false } in
    let closed = user_process_close_fds v i (finish_process i (ret - 1) restored) in
    let p = process_at m i in
    let ended : Machine = record closed { current = none } in
    if ret == 0 then enter_again (space_of p.address_space) m p.program else some ended

-- `user_context_restore(ret)`: there is one saved context, that of the run which called
-- `user_context_save` last. `run_user_process` makes its process the current one right before, and
-- none is current once a run has returned; there is then no context to go back to.
unfoldable pub user_context_restore : Volume → (ret : ℕ) → Machine → Option Machine
user_context_restore v ret m = elim m.current as (λ _. Option Machine) [
  | none ↦ none
  | some i ↦ resume_process v i ret m
]

unfoldable pub user_exit_current : Volume → (code : ℕ) → Machine → Option Machine
user_exit_current v code m = user_context_restore v (add32 code 1) m

unfoldable pub user_fault_current : Volume → Machine → Option Machine
user_fault_current v m =
    let failed = elim m.current as (λ _. Machine) [
      | none ↦ m
      | some c ↦ set_process m c (mark_failed exit_fault (process_at m c))
    ] in
    user_context_restore v (exit_fault + 1) failed
