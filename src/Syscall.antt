-- ===== src/Syscall.antt =====
-- cpu/syscall.c: the system calls of a user process. The gate of the interrupt is assembly. Each
-- call gets its number and three u32, and leaves a u32 and the machine; `none` stands for a call
-- that does not return.
pub mod Same
pub mod Protects
pub mod Dispatch
use yoz_os.Base.{
  ℕ, zero, suc, ◌+◌, ◌-◌, ◌%◌, ◌^◌, ◌==◌, ◌||◌, not, ltb, if◌then◌else◌, Bool, true, false, Option,
  none, some, List, [], ◌∷◌, ◌++◌,
}
use yoz_os.Disk.{Buffer, get8, put8, put32, add32}
use yoz_os.Fat.Volume.{Volume}
use yoz_os.Vfs.Calls.{Stat}
use yoz_os.Vfs.Flags.{max_path}
use yoz_os.Task.Store.{Tasks}
use yoz_os.Task.Calls.{schedule}
use yoz_os.User.Store.{Machine, user_error, err_inval, err_unsupported, region_read, region_write}
use yoz_os.User.Access.{user_memory_ok, user_block, store_user}
use yoz_os.User.Table.{
  user_process_kill_pid, user_waitpid_status, user_current_pid, user_current_ppid,
}
use yoz_os.User.Fds.{
  UserRead, block_bytes, copy_line, keyboard_clear_line, user_fd_open_current, user_fd_read_current,
  user_fd_write_current, user_fd_close_current, user_fd_lseek_current, user_stat_path,
}
use yoz_os.User.Run.{user_exit_current}

-- MAX_USER_STRING and MAX_USER_BUFFER.
abbrev pub max_user_string : ℕ
max_user_string = 256

abbrev pub max_user_buffer : ℕ
max_user_buffer = 256

-- A test that may not return, with what is done where it holds and where it does not.
abbrev pub when_ok {ℓ} : {A : Type ℓ} → Option Bool → (yes_then no_then : Option A) → Option A
when_ok none yes_then no_then = none
when_ok (some true) yes_then no_then = yes_then
when_ok (some false) yes_then no_then = no_then

-- The byte behind a user pointer.
abbrev pub user_byte : Machine → (addr : ℕ) → ℕ
user_byte m addr = get8 (user_block m addr) 0

-- The loop of `user_cstring_ok`.
unfoldable pub cstring_from : (rounds i ptr : ℕ) → Machine → Option Bool
cstring_from zero i ptr m = some false
cstring_from (suc rounds) i ptr m =
    let addr = add32 ptr i in
    let rest = cstring_from rounds (i + 1) ptr m in
    if ltb addr ptr
    then some false
    else when_ok (user_memory_ok addr 1 region_read m)
        (if user_byte m addr == 0 then some true else rest) (some false)

unfoldable pub user_cstring_ok : (ptr : ℕ) → Machine → Option Bool
unfolding cstring_from
user_cstring_ok ptr m =
    when_ok (user_memory_ok ptr 1 region_read m) (cstring_from max_user_string 0 ptr m) (some false)

-- The string at a pointer, if its end is among the first `rounds` bytes from `i` on.
unfoldable pub string_at : (rounds i ptr : ℕ) → Machine → Option (List ℕ)
string_at zero i ptr m = none
string_at (suc rounds) i ptr m =
    let c = user_byte m (add32 ptr i) in
    let rest = string_at rounds (i + 1) ptr m in
    if c == 0 then some [] else elim rest [ none ↦ none | some cs ↦ some (c ∷ cs) ]

-- A call that refuses.
abbrev pub refuse_call : ℕ → Machine → Option (ℕ × Machine)
refuse_call e m = some (user_error e, m)

-- What is done with the string of `copy_user_cstring`, which takes at most VFS_MAX_PATH bytes.
unfoldable pub with_path :
    (List ℕ → Option (ℕ × Machine)) → Machine → Option (List ℕ) → Option (ℕ × Machine)
with_path k m none = refuse_call err_inval m
with_path k m (some path) = k path

unfoldable pub with_cstring :
    (ptr : ℕ) → (List ℕ → Option (ℕ × Machine)) → Machine → Option (ℕ × Machine)
unfolding user_cstring_ok string_at with_path
with_cstring ptr k m =
    when_ok (user_cstring_ok ptr m) (with_path k m (string_at max_path 0 ptr m))
      (refuse_call err_inval m)

abbrev pub print_bytes : List ℕ → Machine → Machine
print_bytes cs m = record m { screen = m.screen ++ cs }

-- SYS_STRING_WRITE.
abbrev pub print_string : Machine → Option (List ℕ) → Option (ℕ × Machine)
print_string m none = some (0, m)
print_string m (some cs) = some (0, print_bytes cs m)

unfoldable pub sys_string_write : (ptr : ℕ) → Machine → Option (ℕ × Machine)
unfolding user_cstring_ok
sys_string_write ptr m =
    when_ok (user_cstring_ok ptr m) (print_string m (string_at max_user_string 0 ptr m))
      (refuse_call err_inval m)

-- SYS_WRITE_BUFFER.
unfoldable pub sys_write_buffer : (ptr len : ℕ) → Machine → Option (ℕ × Machine)
sys_write_buffer ptr len m =
    if ltb max_user_buffer len
    then refuse_call err_inval m
    else when_ok (user_memory_ok ptr len region_read m)
        (some (0, print_bytes (block_bytes 0 len (user_block m ptr)) m)) (refuse_call err_inval m)

-- SYS_READ_LINE: the line with the byte 0 behind it.
unfoldable pub take_line : (ptr len : ℕ) → Machine → ℕ × Machine
take_line ptr len m =
    let (i, b) = copy_line 0 (len - 1) m.line_buffer (user_block m ptr) in
    (i, keyboard_clear_line (store_user ptr (put8 b i 0) (i + 1) m))

unfoldable pub sys_read_line : (ptr len : ℕ) → Machine → Option (ℕ × Machine)
unfolding take_line
sys_read_line ptr len m =
    if len == 0 || ltb 256 len
    then refuse_call err_inval m
    else when_ok (user_memory_ok ptr len region_write m)
        (if m.line_ready then some (take_line ptr len m) else some (0, m)) (refuse_call err_inval m)

-- SYS_YIELD.
unfoldable pub sys_yield : Machine → Option Tasks → Option (ℕ × Machine)
sys_yield m none = none
sys_yield m (some tasks) = some (0, record m { tasks = tasks })

-- A user pointer as the calls on descriptors take it: the null one has no block.
abbrev pub user_pointer : Machine → (ptr : ℕ) → Option Buffer
user_pointer m ptr = if ptr == 0 then none else some (user_block m ptr)

-- SYS_READ behind the read: the block goes back to the memory.
unfoldable pub after_sys_read : (ptr len : ℕ) → UserRead → Option (ℕ × Machine)
after_sys_read ptr len none = none
after_sys_read ptr len (some (r, b, m)) = some (r, if ptr == 0 then m else store_user ptr b len m)

-- SYS_STAT behind `user_stat_path`: the two words of `user_stat_t`.
unfoldable pub after_sys_stat : (ptr : ℕ) → Machine → ℕ × Option Stat → Option (ℕ × Machine)
after_sys_stat ptr m (r, none) = some (r, m)
after_sys_stat ptr m (r, some st) =
    some (r, store_user ptr (put32 (put32 (user_block m ptr) 0 st.size) 4 st.type) 8 m)

module _ (v : Volume) where
  -- SYS_EXIT: the context of the run of the current process is the one that was saved last.
  unfoldable pub sys_exit : (code : ℕ) → Machine → Option (ℕ × Machine)
  sys_exit code m = elim (user_exit_current v code m) [ none ↦ none | some m' ↦ some (0, m') ]

  unfoldable pub sys_open : (ptr flags : ℕ) → Machine → Option (ℕ × Machine)
  unfolding with_cstring
  sys_open ptr flags m = with_cstring ptr (λ path. user_fd_open_current v path flags m) m

  unfoldable pub sys_read : (fd ptr len : ℕ) → Machine → Option (ℕ × Machine)
  unfolding after_sys_read
  sys_read fd ptr len m =
      if ltb max_user_buffer len
      then refuse_call err_inval m
      else when_ok (user_memory_ok ptr len region_write m)
          (after_sys_read ptr len (user_fd_read_current v fd (user_pointer m ptr) len m))
          (refuse_call err_inval m)

  unfoldable pub sys_write : (fd ptr len : ℕ) → Machine → Option (ℕ × Machine)
  sys_write fd ptr len m =
      if ltb max_user_buffer len
      then refuse_call err_inval m
      else when_ok (user_memory_ok ptr len region_read m)
          (user_fd_write_current v fd (user_pointer m ptr) len m) (refuse_call err_inval m)

  -- SYS_STAT with the path.
  unfoldable pub stat_to : (out : ℕ) → Machine → List ℕ → Option (ℕ × Machine)
  unfolding after_sys_stat
  stat_to out m name =
      when_ok (user_memory_ok out 8 region_write m)
        (if out == 0
          then refuse_call err_inval m
          else after_sys_stat out m (user_stat_path v name m))
        (refuse_call err_inval m)

  unfoldable pub sys_stat : (path out : ℕ) → Machine → Option (ℕ × Machine)
  unfolding with_cstring stat_to
  sys_stat path out m = with_cstring path (stat_to out m) m

  unfoldable pub syscall_handler : (num arg1 arg2 arg3 : ℕ) → Machine → Option (ℕ × Machine)
  unfolding sys_exit sys_yield sys_open sys_read sys_write sys_stat sys_string_write
      sys_write_buffer sys_read_line
  syscall_handler num arg1 arg2 arg3 m =
      if num == 1
      then some (0, print_bytes (arg1 % 256 ∷ []) m)
      else if num == 2
      then sys_exit arg1 m
      else if num == 3
      then sys_string_write arg1 m
      else if num == 4
      then sys_write_buffer arg1 arg2 m
      else if num == 5
      then sys_read_line arg1 arg2 m
      else if num == 6
      then sys_yield m (schedule m.tasks)
      else if num == 7
      then some (user_current_pid m, m)
      else if num == 8
      then some (user_waitpid_status arg1 m, m)
      else if num == 9
      then some (user_current_ppid m, m)
      else if num == 10
      then some (user_process_kill_pid v arg1 m)
      else if num == 11
      then sys_open arg1 arg2 m
      else if num == 12
      then sys_read arg1 arg2 arg3 m
      else if num == 13
      then user_fd_close_current v arg1 m
      else if num == 14
      then sys_write arg1 arg2 arg3 m
      else if num == 15
      then sys_stat arg1 arg2 m
      else if num == 16
      then user_fd_lseek_current v arg1 arg2 arg3 m
      else refuse_call err_unsupported m
