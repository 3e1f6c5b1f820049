-- ===== src/User/Builtin.antt =====
-- The test programs of cpu/user_mode.c that are linked into the kernel. Where the linker puts them is
-- a parameter.
use yoz_os.Base.{
  ℕ, ◌+◌, if◌then◌else◌, Bool, true, false, Option, none, some, List, [], ◌∷◌, is_some,
}
use yoz_os.Fat.Volume.{Volume}
use yoz_os.Memory.Frames.{frame_size}
use yoz_os.User.Store.{
  Region, Program, Machine, stack_top_addr, region_read, region_write, region_exec, and_next_call,
}
use yoz_os.User.Table.{user_process_alloc, user_process_assign_pid, user_process_clear}
use yoz_os.User.Stack.{user_process_set_args}
use yoz_os.User.Image.{stack_region}
use yoz_os.User.Start.{init_process, change_process, give_stack, spawn_for}

-- The symbols of cpu/user_test.h: where a program starts, and its data with their lengths.
pub record Symbols : Type 0 where
  pub test_main : ℕ
  pub msg : ℕ
  pub msg_len : ℕ
  pub bad_ptr_msg : ℕ
  pub bad_ptr_msg_len : ℕ
  pub input_buf : ℕ
  pub input_buf_len : ℕ
  pub prompt : ℕ
  pub prompt_len : ℕ
  pub got_msg : ℕ
  pub got_msg_len : ℕ
  pub fault_main : ℕ
  pub fault_msg : ℕ
  pub fault_len : ℕ

abbrev read_only : (start len : ℕ) → Region
read_only start len = record { start = start; len = len; flags = region_read }

abbrev code : (start : ℕ) → Region
code start = record { start = start; len = frame_size; flags = region_read + region_exec }

-- `build_builtin_user_test_program`.
unfoldable pub user_test_program : Symbols → Program
user_test_program a = record {
  entry = a.test_main;
  stack_top = stack_top_addr;
  regions =
      code a.test_main
      ∷ read_only a.msg a.msg_len
      ∷ read_only a.bad_ptr_msg a.bad_ptr_msg_len
      ∷ record { start = a.input_buf; len = a.input_buf_len; flags = region_read + region_write }
      ∷ read_only a.prompt a.prompt_len
      ∷ read_only a.got_msg a.got_msg_len
      ∷ stack_region
      ∷ [];
}

-- `build_builtin_user_fault_program`.
unfoldable pub user_fault_program : Symbols → Program
user_fault_program a = record {
  entry = a.fault_main;
  stack_top = stack_top_addr;
  regions = code a.fault_main ∷ read_only a.fault_msg a.fault_len ∷ stack_region ∷ [];
}

-- `init_user_test_process` and `init_user_fault_process`.
unfoldable pub init_test_process : (i : ℕ) → (name : List ℕ) → Program → Machine → Machine
init_test_process i name program m =
    user_process_assign_pid i
      (change_process i (user_process_set_args name []) (init_process i name (some program) m))

module _ (v : Volume) where
  -- `start_user_test_task` and `start_user_fault_task` from `pending` on. A task that could not be
  -- made leaves nothing pending.
  unfoldable pub spawn_pending :
      (i : ℕ) → (set_pending : Option ℕ → Machine → Machine) → Machine → Option (Bool × Machine)
  spawn_pending i set_pending m = elim (spawn_for v i (set_pending (some i) m)) [
    | none ↦ none
    | some r ↦ some (if r.0 then (true, r.1) else (false, set_pending none r.1))
  ]

  abbrev pub clear_unless : (i : ℕ) → Option (Bool × Machine) → Option (Bool × Machine)
  clear_unless i none = none
  clear_unless i (some (true, m)) = some (true, m)
  clear_unless i (some (false, m)) = some (false, user_process_clear v i m)

  unfoldable pub start_test :
      (name : List ℕ)
      → Program
      → (set_pending : Option ℕ → Machine → Machine) → Option ℕ × Machine
      → Option (Bool × Machine)
  unfolding spawn_pending init_test_process
  start_test name program set_pending (none, m) = some (false, m)
  start_test name program set_pending (some i, m) = clear_unless i (
      and_next_call (give_stack v i (init_test_process i name program m))
        λ m'. spawn_pending i set_pending m')

  abbrev pub set_pending_test : Option ℕ → Machine → Machine
  set_pending_test pending m = record m { pending_test = pending }

  abbrev pub set_pending_fault : Option ℕ → Machine → Machine
  set_pending_fault pending m = record m { pending_fault = pending }

  -- `name`: "user_test".
  unfoldable pub start_user_test_task :
      Symbols → (name : List ℕ) → Machine → Option (Bool × Machine)
  unfolding start_test
  start_user_test_task a name m =
      let started = start_test name (user_test_program a) set_pending_test (user_process_alloc m) in
      if is_some m.pending_test then some (false, m) else started

  -- `name`: "user_fault".
  unfoldable pub start_user_fault_task :
      Symbols → (name : List ℕ) → Machine → Option (Bool × Machine)
  unfolding start_test
  start_user_fault_task a name m =
      let started =
        start_test name (user_fault_program a) set_pending_fault (user_process_alloc m) in
      if is_some m.pending_fault then some (false, m) else started
