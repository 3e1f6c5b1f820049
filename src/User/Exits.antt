-- ===== src/User/Exits.antt =====
-- The exit of a user process of cpu/user_mode.c.
use yoz_os.Base.{
  ℕ, ◌+◌, ◌-◌, ◌^◌, ◌<◌, ◌≡◌, ◌≢◌, refl, ap, ◌∙◌, arith, ◌==◌, true, false, Bool-cases, inl, inr,
  Option, none, some, List, [], ◌∷◌, All, length, if◌then◌else◌,
}
use yoz_os.Disk.{add32}
use yoz_os.Fat.Volume.{Volume}
use yoz_os.Memory.Paging.{Space, Paging}
use yoz_os.Memory.Paging.Pages.{address_space_mark_user_range-ends}
use yoz_os.User.Fds.{keyboard_clear_line}
use yoz_os.User.Allowed.{IsWordRegion}
use yoz_os.User.Store.{
  Region, Program, Process, Machine, process_at, set_process, is_dead, exit_fault,
}
use yoz_os.User.Table.{
  user_process_close_fds, space_of, mark_failed, mark_exited, user_process_find_pid,
  user_waitpid_status,
}
use yoz_os.User.Run.{
  enter_program, enter_again, prepare_user_program, finish_process, resume_process,
  user_context_restore, user_exit_current,
}
use yoz_os.User.Found.{find_pid-IsFound}
use yoz_os.User.Ends.{EndsAs, close-EndsAs, EndsAs-waitpid, EndsAs-others}

-- The mark of the end of a process, by its code.
abbrev marked : (code : ℕ) → Process → Process
marked code p = if code == exit_fault then mark_failed exit_fault p else mark_exited code p

marked-dead : (code : ℕ) (p : Process) → is_dead (marked code p).state ≡ true
marked-dead code p = elim (Bool-cases (code == exit_fault)) [
  | inl t ↦ rw t refl
  | inr t ↦ rw t refl
]

marked-pid : (code : ℕ) (p : Process) → (marked code p).pid ≡ p.pid
marked-pid code p = elim (Bool-cases (code == exit_fault)) [ inl t ↦ rw t refl | inr t ↦ rw t refl ]

marked-code : (code : ℕ) (p : Process) → (marked code p).exit_code ≡ code
marked-code code p = elim (Bool-cases (code == exit_fault)) [
  | inl t ↦ rw t (ground arith)
  | inr t ↦ rw t refl
]

module _ (v : Volume) where
  resume-EndsAs :
      (i code : ℕ) (m : Machine)
      → i < length m.processes
      → (m' : Machine) × (resume_process v i (code + 1) m ≡ some m')
        × EndsAs i code m m'
        × (m'.current ≡ none)
  unfolding resume_process finish_process
  resume-EndsAs i code m h =
      let restored : Machine = record m { user_owns_keyboard = false } in
      let p = process_at m i in
      let closed = user_process_close_fds v i (set_process restored i (marked code p)) in
      let r =
        close-EndsAs v i code restored (marked code p) h (marked-dead code p) (marked-pid code p)
          (marked-code code p) in
      (
        record closed { current = none },
        (let (z, e) : ((code + 1 == 0) ≡ false) × (code + 1 - 1 ≡ code) =
              (ground arith, omega arith) in
            rw (z, e) refl),
        record {
          process = r.process;
          table = r.table;
          dead = r.dead;
          pid = r.pid;
          exit_code = r.exit_code;
        },
        refl,
      )

-- With one context saved, the process that an exit ends is the current one.
restore-resume :
    (v : Volume) (i ret : ℕ) (m : Machine)
    → m.current ≡ some i
    → user_context_restore v ret m ≡ resume_process v i ret m
unfolding user_context_restore
restore-resume v i ret m e = rw e refl

-- A process that exits, while it is the current one, with a code below 2 ^ 32 - 1 ends: the call
-- returns to the kernel, the status that its parent waits for is the code, the status of every
-- other pid is as before, and no process is current.
pub user_exit_current-waitpid :
    (v : Volume) (pid i code : ℕ) (m : Machine)
    → m.current ≡ some i
    → user_process_find_pid pid m ≡ some i
    → code < 2 ^ 32 - 1
    → (m' : Machine) × (user_exit_current v code m ≡ some m')
      × (user_waitpid_status pid m' ≡ code)
      × ((other : ℕ) → other ≢ pid → user_waitpid_status other m' ≡ user_waitpid_status other m)
      × (m'.current ≡ none)
unfolding user_exit_current
user_exit_current-waitpid v pid i code m running f h =
    let (m', e, r, c) = resume-EndsAs v i code m (find_pid-IsFound pid i m f).in_table in
    let same : add32 code 1 ≡ code + 1 = omega arith in
    (
      m',
      restore-resume v i (add32 code 1) m running ∙ rw same e,
      EndsAs-waitpid pid i code m m' f r,
      EndsAs-others pid i code m m' f r,
      c,
    )

prepare_user_program-ends :
    (a : Option Space) (rs : List Region) (s : Paging)
    → All IsWordRegion rs
    → (s' : Paging) × (prepare_user_program a rs s ≡ some s')
unfolding prepare_user_program
prepare_user_program-ends a [] s w = (s, refl)
prepare_user_program-ends a (r ∷ rs) s w =
    let (s', e) = address_space_mark_user_range-ends a r.start r.len s w.0.0 w.0.1 in
    let (s'', e') = prepare_user_program-ends a rs s' w.1 in (s'', rw (prepare_user_program, e) e')

-- A process that exits, while it is the current one, with the code 2 ^ 32 - 1 does not end:
-- `code + 1` is 0, for which `run_user_program` enters the program again. The process table and the
-- current process stay as they are.
pub user_exit_current-again :
    (v : Volume) (i : ℕ) (m : Machine) (program : Program)
    → m.current ≡ some i
    → (process_at m i).program ≡ some program
    → All IsWordRegion program.regions
    → (m' : Machine) × (user_exit_current v (2 ^ 32 - 1) m ≡ some m')
      × (m'.processes ≡ m.processes)
      × (m'.current ≡ m.current)
unfolding user_exit_current resume_process enter_again enter_program
user_exit_current-again v i m program running e w =
    let a = space_of (process_at m i).address_space in
    let (s, p) = prepare_user_program-ends a program.regions m.paging w in
    (
      record (keyboard_clear_line m) { paging = s; user_owns_keyboard = true },
      restore-resume v i 0 m running ∙ (ap (enter_again a m) e ∙ ap (enter_program m) p),
      refl,
      refl,
    )
