-- ===== src/User/Start.antt =====
-- The calls of cpu/user_mode.c that make a process: from a flat binary, from an ELF file, and the
-- two test programs that are linked into the kernel, whose addresses are a parameter.
use yoz_os.Base.{
  ℕ, zero, suc, ◌+◌, ◌-◌, ◌==◌, not, ltb, if◌then◌else◌, Bool, true, false, Option, none, some,
  List, [], ◌∷◌, is_some,
}
use yoz_os.Disk.{Buffer, memory_set}
use yoz_os.Fat.Volume.{Volume}
use yoz_os.Fat.Read.{ReadResult, fat_read_file}
use yoz_os.Elf.{elf32_header_ok, elf32_program_headers_ok}
use yoz_os.Memory.Paging.{set_frames, set_ram}
use yoz_os.Memory.Paging.Spaces.{address_space_create_user}
use yoz_os.Task.Store.{Tasks}
use yoz_os.Task.Calls.{spawn_task, task_set_user_process, task_set_address_space}
use yoz_os.User.Store.{
  Program, Process, Machine, ready, no_process, process_at, set_process, set_paging, and_next_call,
}
use yoz_os.User.Table.{user_process_alloc, user_process_assign_pid, user_process_clear}
use yoz_os.User.Fds.{init_fds}
use yoz_os.User.Stack.{user_process_set_args}
use yoz_os.User.Image.{
  load_addr, load_max_bytes, loaded_program, user_binary_header_ok, user_process_map_stack,
  user_process_map_loaded_image, user_process_build_initial_stack,
}
use yoz_os.User.Segments.{user_map_elf_segments}

-- `&kernel_space` and `&user_spaces[a]`, as the tasks have them.
abbrev pub kernel_pointer : ℕ
kernel_pointer = 1

abbrev pub space_pointer : Option ℕ → ℕ
space_pointer none = 0
space_pointer (some a) = a + 2

-- `*process = (user_process_t){...}` with `address_space_create_user()`, and the calls behind it that
-- set the descriptors and the directory.
unfoldable pub init_process : (i : ℕ) → (name : List ℕ) → Option Program → Machine → Machine
init_process i name program m =
    let (space, s) = address_space_create_user m.paging in
    let p : Process = record no_process {
      name = name;
      program = program;
      address_space = space;
      state = ready;
      fds = init_fds;
      cwd = b'/' ∷ [];
    } in
    set_process (set_paging m s) i p

-- `user_process_set_name`: at most 15 bytes of the name.
unfoldable pub take_name : (room : ℕ) → List ℕ → List ℕ
take_name zero cs = []
take_name (suc room) [] = []
take_name (suc room) (c ∷ cs) = c ∷ take_name room cs

abbrev pub user_process_set_name : List ℕ → Process → Process
user_process_set_name name p = record p { name = take_name 15 name }

abbrev pub change_process : (i : ℕ) → (Process → Process) → Machine → Machine
change_process i f m = set_process m i (f (process_at m i))

-- A task that was made for process `i` is linked with it.
abbrev pub link_task : (i task : ℕ) → Machine → Tasks → Machine
link_task i task m tasks =
    let p = process_at m i in
    let linked =
      task_set_address_space (some task) (space_pointer p.address_space)
        (task_set_user_process (some task) (i + 1) tasks) in
    let m' : Machine = record m { tasks = linked; paging = set_frames m.paging tasks.frames } in
    set_process m' i (record p { task = some task })

module _ (v : Volume) where
  -- Where a step failed, the process is cleared.
  abbrev pub or_clear : (i : ℕ) → Option (Bool × Machine) → Option (Bool × Machine)
  or_clear i none = none
  or_clear i (some (true, m)) = some (true, m)
  or_clear i (some (false, m)) = some (false, user_process_clear v i m)

  unfoldable pub after_spawn :
      (i : ℕ) → Machine → Option (Option ℕ × Tasks) → Option (Bool × Machine)
  after_spawn i m none = none
  after_spawn i m (some (none, tasks)) =
      some (false, record m { tasks = tasks; paging = set_frames m.paging tasks.frames })
  after_spawn i m (some (some task, tasks)) = some (true, link_task i task m tasks)

  -- `spawn_task` and what follows it. The frames are one state with those of the spaces.
  unfoldable pub spawn_for : (i : ℕ) → Machine → Option (Bool × Machine)
  unfolding after_spawn
  spawn_for i m =
      let tasks : Tasks = record m.tasks { frames = m.paging.frames } in
      after_spawn i m (spawn_task kernel_pointer [] (process_at m i).name tasks)

  -- The space and the stack of a process, which every start needs.
  unfoldable pub give_stack : (i : ℕ) → Machine → Option (Bool × Machine)
  give_stack i m =
      let stacked =
        and_next_call (some (user_process_map_stack i m))
          λ m'. some (user_process_build_initial_stack i m') in
      if not (is_some (process_at m i).address_space) then some (false, m) else stacked

  -- A process for a file, with its name and its arguments.
  abbrev pub file_process : (i : ℕ) → (name args : List ℕ) → Option Program → Machine → Machine
  file_process i name args program m = change_process i (user_process_set_args name args) (
      change_process i (user_process_set_name name)
        (user_process_assign_pid i (init_process i [] program m)))

  -- `run_user_file` with a process.
  unfoldable pub start_file :
      (name args : List ℕ) → (loaded_len entry : ℕ) → Option ℕ × Machine → Option (Bool × Machine)
  start_file name args loaded_len entry (none, m) = some (false, m)
  start_file name args loaded_len entry (some i, m) =
      let m' = file_process i name args (some (loaded_program loaded_len entry)) m in
      or_clear i (
        and_next_call (give_stack i m') λ m1.
          and_next_call (some (user_process_map_loaded_image i load_addr loaded_len m1))
            λ m2. spawn_for i m2)

  -- The memory from USER_LOAD_ADDR on as a block, and its write.
  abbrev pub load_block : Buffer → Buffer
  load_block ram i = ram (load_addr + i)

  abbrev pub set_load_block : Buffer → Buffer → Buffer
  set_load_block ram b a = if ltb a load_addr then ram a else b (a - load_addr)

  unfoldable pub start_loaded :
      (name args : List ℕ)
      → (loaded_len : ℕ) → Machine
      → (entry : Option ℕ) → Option (Bool × Machine)
  unfolding start_file
  start_loaded name args loaded_len m none = some (false, m)
  start_loaded name args loaded_len m (some entry) =
      start_file name args loaded_len entry (user_process_alloc m)

  -- `run_user_file` behind the read of the file.
  unfoldable pub after_load :
      (name args : List ℕ) → Machine → Option ReadResult → Option (Bool × Machine)
  unfolding start_loaded
  after_load name args m none = none
  after_load name args m (some r) =
      let m' = set_paging m (set_ram m.paging (set_load_block m.paging.ram r.dst)) in
      if not r.success
      then some (false, m')
      else if r.out_len == 0
      then some (false, m')
      else start_loaded name args r.out_len m' (user_binary_header_ok r.dst r.out_len)

  -- Whether it succeeded, and the machine.
  unfoldable pub run_user_file : (name args : List ℕ) → Machine → Option (Bool × Machine)
  unfolding after_load
  run_user_file name args m =
      let ram = memory_set m.paging.ram load_addr 0 load_max_bytes in
      let m' = set_paging m (set_ram m.paging ram) in
      after_load name args m'
        (fat_read_file v name (some (load_block ram)) load_max_bytes m.vfs.disk)

  -- `run_user_elf_file` with a process.
  unfoldable pub start_elf :
      (name args : List ℕ)
      → (image : Buffer) → (len : ℕ) → Option ℕ × Machine
      → Option (Bool × Machine)
  start_elf name args image len (none, m) = some (false, m)
  start_elf name args image len (some i, m) =
      let m' = file_process i name args none m in
      or_clear i (
        and_next_call (give_stack i m')
          λ m1. and_next_call (user_map_elf_segments i image len m1) λ m2. spawn_for i m2)

  abbrev pub elf_ok : (image : Buffer) → (len : ℕ) → Bool
  elf_ok image len =
      if not (elf32_header_ok (some image) len)
      then false
      else elf32_program_headers_ok (some image) len

  unfoldable pub after_elf_load :
      (name args : List ℕ) → Machine → Option ReadResult → Option (Bool × Machine)
  unfolding start_elf
  after_elf_load name args m none = none
  after_elf_load name args m (some r) =
      if not r.success
      then some (false, m)
      else if not (elf_ok r.dst r.out_len)
      then some (false, m)
      else start_elf name args r.dst r.out_len (user_process_alloc m)

  -- `elf_load_buf`, cleared before each load, so that its bytes are not part of the state.
  abbrev pub zero_block : Buffer
  zero_block i = 0

  unfoldable pub run_user_elf_file : (name args : List ℕ) → Machine → Option (Bool × Machine)
  unfolding after_elf_load
  run_user_elf_file name args m =
      after_elf_load name args m (fat_read_file v name (some zero_block) load_max_bytes m.vfs.disk)

  -- `user_check_elf_file` with a process: it is cleared in any case.
  unfoldable pub check_mapped : (i : ℕ) → Option (Bool × Machine) → Option (Bool × Machine)
  check_mapped i none = none
  check_mapped i (some (ok, m)) = some (ok, user_process_clear v i m)

  unfoldable pub check_elf :
      (image : Buffer) → (len : ℕ) → Option ℕ × Machine → Option (Bool × Machine)
  unfolding check_mapped
  check_elf image len (none, m) = some (false, m)
  check_elf image len (some i, m) =
      let m' =
        user_process_assign_pid i
          (init_process i (b'E' ∷ b'L' ∷ b'F' ∷ b'T' ∷ b'E' ∷ b'S' ∷ b'T' ∷ []) none m) in
      check_mapped i (
        if not (is_some (process_at m' i).address_space)
        then some (false, m')
        else user_map_elf_segments i image len m')

  unfoldable pub after_check_load : Machine → Option ReadResult → Option (Bool × Machine)
  unfolding check_elf
  after_check_load m none = none
  after_check_load m (some r) =
      if not r.success
      then some (false, m)
      else if not (elf_ok r.dst r.out_len)
      then some (false, m)
      else check_elf r.dst r.out_len (user_process_alloc m)

  unfoldable pub user_check_elf_file : (name : List ℕ) → Machine → Option (Bool × Machine)
  unfolding after_check_load
  user_check_elf_file name m =
      after_check_load m (fat_read_file v name (some zero_block) load_max_bytes m.vfs.disk)
