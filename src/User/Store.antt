-- ===== src/User/Store.antt =====
-- The state of cpu/user_mode.c with the parts of the kernel that it calls. A `char *` is the list of
-- its bytes. A pointer to process `i` of the table is the number `i`, in a task `i + 1`, as 0 is the
-- null pointer there; a pointer to a program is the program.
use yoz_os.Base.{
  ℕ, ◌-◌, ◌^◌, Bool, true, false, Option, none, some, List, [], get_or, set, replicate,
}
use yoz_os.Memory.Paging.{Paging}
use yoz_os.Vfs.Files.{
  Vfs, vfs_invalid, vfs_not_found, vfs_no_space, vfs_io, vfs_unsupported, Reply, value, error,
  negative,
}
use yoz_os.Task.Store.{Tasks}

-- USER_FD_TYPE.
pub data FdType : Type 0 where
  fd_unused fd_stdin fd_stdout fd_stderr fd_vfs : FdType

-- `user_fd_t`; the handle is a u32, as fs/vfs.c takes it.
pub record Fd : Type 0 where
  pub type : FdType
  pub vfs_handle : ℕ

-- `user_region_t`.
pub record Region : Type 0 where
  pub start : ℕ
  pub len : ℕ
  pub flags : ℕ

-- `user_process_state_t`.
pub data ProcessState : Type 0 where
  unused ready running exited failed killed : ProcessState

-- `user_program_t`; `region_count` is the length of the list.
pub record Program : Type 0 where
  pub entry : ℕ
  pub stack_top : ℕ
  pub regions : List Region

-- `user_process_t`; the counts of frames, regions and arguments are the lengths of the lists. The
-- space is the number of one of `user_spaces`.
pub record Process : Type 0 where
  pub name : List ℕ
  pub pid : ℕ
  pub parent_pid : ℕ
  pub task : Option ℕ
  pub program : Option Program
  pub user_stack_frame : ℕ
  pub address_space : Option ℕ
  pub state : ProcessState
  pub exit_code : ℕ
  pub image_frames : List ℕ
  pub elf_frames : List ℕ
  pub elf_regions : List Region
  pub fds : List Fd
  pub cwd : List ℕ
  pub argv : List (List ℕ)
  pub stack_entry : ℕ

-- `line_ready` and `line_buffer` are those of drivers/keyboard.c, which the shell or the user
-- process owns. `screen`: what processes have printed.
pub record Machine : Type 0 where
  pub paging : Paging
  pub vfs : Vfs
  pub tasks : Tasks
  pub processes : List Process
  pub current : Option ℕ
  pub next_user_pid : ℕ
  pub pending_test : Option ℕ
  pub pending_fault : Option ℕ
  pub line_ready : Bool
  pub line_buffer : List ℕ
  pub user_owns_keyboard : Bool
  pub screen : List ℕ

-- MAX_USER_PROCESSES, USER_MAX_FDS, USER_FD_FIRST_FILE.
abbrev pub max_user_processes : ℕ
max_user_processes = 8

abbrev pub max_fds : ℕ
max_fds = 8

abbrev pub first_file : ℕ
first_file = 3

-- USER_STACK_TOP, USER_EXIT_FAULT, USER_EXIT_KILLED.
abbrev pub stack_top_addr : ℕ
stack_top_addr = 0x80000

abbrev pub exit_fault : ℕ
exit_fault = 0xfffffffe

abbrev pub exit_killed : ℕ
exit_killed = 0xfffffffd

-- USER_REGION_READ, USER_REGION_WRITE, USER_REGION_EXEC.
abbrev pub region_read : ℕ
region_read = 1

abbrev pub region_write : ℕ
region_write = 2

abbrev pub region_exec : ℕ
region_exec = 4

-- A descriptor that is not in use, with the handle -1.
abbrev pub no_fd : Fd
no_fd = record { type = fd_unused; vfs_handle = 2 ^ 32 - 1 }

-- A process with every field 0.
abbrev pub no_process : Process
no_process = record {
  name = [];
  pid = 0;
  parent_pid = 0;
  task = none;
  program = none;
  user_stack_frame = 0;
  address_space = none;
  state = unused;
  exit_code = 0;
  image_frames = [];
  elf_frames = [];
  elf_regions = [];
  fds = replicate max_fds (record { type = fd_unused; vfs_handle = 0 });
  cwd = [];
  argv = [];
  stack_entry = 0;
}

-- `&user_process_table[i]`.
abbrev pub process_at : Machine → ℕ → Process
process_at m i = get_or m.processes i no_process

abbrev pub set_process : Machine → ℕ → Process → Machine
set_process m i p = record m { processes = set m.processes i p }

abbrev pub set_paging : Machine → Paging → Machine
set_paging m s = record m { paging = s }

abbrev pub set_vfs : Machine → Vfs → Machine
set_vfs m s = record m { vfs = s }

-- A step behind one that may fail: it is made only where that one succeeded.
abbrev pub and_next : Bool × Machine → (Machine → Bool × Machine) → Bool × Machine
and_next (false, m) k = (false, m)
and_next (true, m) k = k m

-- The same for steps that may not return.
abbrev pub and_next_call :
    Option (Bool × Machine) → (Machine → Option (Bool × Machine)) → Option (Bool × Machine)
and_next_call none k = none
and_next_call (some (false, m)) k = some (false, m)
and_next_call (some (true, m)) k = k m

abbrev pub is_unused_process : ProcessState → Bool
is_unused_process unused = true
is_unused_process ready = false
is_unused_process running = false
is_unused_process exited = false
is_unused_process failed = false
is_unused_process killed = false

-- `user_process_is_dead`.
abbrev pub is_dead : ProcessState → Bool
is_dead unused = false
is_dead ready = false
is_dead running = false
is_dead exited = true
is_dead failed = true
is_dead killed = true

abbrev pub is_free_fd : FdType → Bool
is_free_fd fd_unused = true
is_free_fd fd_stdin = false
is_free_fd fd_stdout = false
is_free_fd fd_stderr = false
is_free_fd fd_vfs = false

abbrev pub is_vfs_fd : FdType → Bool
is_vfs_fd fd_unused = false
is_vfs_fd fd_stdin = false
is_vfs_fd fd_stdout = false
is_vfs_fd fd_stderr = false
is_vfs_fd fd_vfs = true

-- `user_error`, by the USER_ERR codes: an error code as a u32.
abbrev pub user_error : ℕ → ℕ
user_error err = 0xffffffff - (err - 1)

abbrev pub err_inval : ℕ
err_inval = 1

abbrev pub err_not_found : ℕ
err_not_found = 2

abbrev pub err_no_space : ℕ
err_no_space = 3

abbrev pub err_io : ℕ
err_io = 4

abbrev pub err_unsupported : ℕ
err_unsupported = 5

abbrev pub err_badf : ℕ
err_badf = 6

-- `user_is_error`, with USER_ERROR_BASE.
abbrev pub user_error_base : ℕ
user_error_base = 0xffffff00

-- `user_error_from_vfs`.
unfoldable pub user_error_from_vfs : Reply → ℕ
user_error_from_vfs (value n) = n
user_error_from_vfs (error vfs_invalid) = user_error err_inval
user_error_from_vfs (error vfs_not_found) = user_error err_not_found
user_error_from_vfs (error vfs_no_space) = user_error err_no_space
user_error_from_vfs (error vfs_io) = user_error err_io
user_error_from_vfs (error vfs_unsupported) = user_error err_unsupported
user_error_from_vfs (negative word) = user_error err_io
