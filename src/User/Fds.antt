-- ===== src/User/Fds.antt =====
-- The descriptors of the current process of cpu/user_mode.c: the calls that read and write.
use yoz_os.Base.{
  ℕ, zero, suc, ◌+◌, ◌-◌, ◌^◌, ◌==◌, ◌&&◌, ◌||◌, not, ltb, leb, if◌then◌else◌, false, Option, none,
  some, List, [], ◌∷◌, ◌++◌, get_or, set, replicate, is_some,
}
use yoz_os.Disk.{Buffer, get8, put8}
use yoz_os.Fat.Volume.{Volume}
use yoz_os.Fat.Read.{block}
use yoz_os.Vfs.Files.{Vfs, Reply, value, error, negative}
use yoz_os.Vfs.Calls.{
  Stat, stat_type_dir, vfs_open_at, vfs_read, vfs_write, vfs_close, vfs_lseek, vfs_stat_at,
}
use yoz_os.User.Store.{
  FdType, Fd, fd_unused, fd_stdin, fd_stdout, fd_stderr, fd_vfs, Machine, is_free_fd, is_vfs_fd,
  no_fd, process_at, set_process, set_vfs, max_fds, first_file, user_error, err_inval, err_no_space,
  err_badf, user_error_from_vfs,
}

-- `user_process_init_fds`.
abbrev pub init_fds : List Fd
init_fds =
    record { type = fd_stdin; vfs_handle = 2 ^ 32 - 1 }
    ∷ record { type = fd_stdout; vfs_handle = 2 ^ 32 - 1 }
    ∷ record { type = fd_stderr; vfs_handle = 2 ^ 32 - 1 }
    ∷ replicate (max_fds - first_file) no_fd

-- The loop of `user_fd_find_free`, with `rounds` descriptors left from `i` on.
unfoldable pub free_fd_from : (rounds i : ℕ) → List Fd → Option ℕ
free_fd_from zero i fds = none
free_fd_from (suc rounds) i fds =
    let rest = free_fd_from rounds (i + 1) fds in
    if is_free_fd (get_or fds i no_fd).type then some i else rest

unfoldable pub user_fd_find_free : List Fd → Option ℕ
unfolding free_fd_from
user_fd_find_free fds = free_fd_from (max_fds - first_file) first_file fds

-- A call with its result, a u32, and the machine; `none` for one that does not return.
abbrev pub UserCall : Type 0
UserCall = Machine → Option (ℕ × Machine)

abbrev pub set_fd : Machine → (i fd : ℕ) → Fd → Machine
set_fd m i fd x = let p = process_at m i in set_process m i (record p { fds = set p.fds fd x })

-- `user_fd_open_current` behind `vfs_open_at`.
unfoldable pub after_open : (i fd : ℕ) → Machine → Option (Reply × Vfs) → Option (ℕ × Machine)
after_open i fd m none = none
after_open i fd m (some (error e, s)) = some (user_error_from_vfs (error e), set_vfs m s)
after_open i fd m (some (negative word, s)) =
    some (user_error_from_vfs (negative word), set_vfs m s)
after_open i fd m (some (value h, s)) =
    some (fd, set_fd (set_vfs m s) i fd (record { type = fd_vfs; vfs_handle = h }))

-- What the calls do with a reply and the open files.
unfoldable pub after_vfs : Machine → Option (Reply × Vfs) → Option (ℕ × Machine)
after_vfs m none = none
after_vfs m (some (r, s)) = some (user_error_from_vfs r, set_vfs m s)

-- `user_fd_close_current` behind `vfs_close`.
unfoldable pub after_close : (i fd : ℕ) → Machine → Reply × Vfs → ℕ × Machine
after_close i fd m (error e, s) = (user_error_from_vfs (error e), set_vfs m s)
after_close i fd m (negative word, s) = (user_error_from_vfs (negative word), set_vfs m s)
after_close i fd m (value _, s) = (0, set_fd (set_vfs m s) i fd no_fd)

-- The bytes of the line that fit, and how many they are.
unfoldable pub copy_line : (i len : ℕ) → List ℕ → Buffer → ℕ × Buffer
copy_line i len [] dst = (i, dst)
copy_line i len (c ∷ cs) dst =
    let rest = copy_line (i + 1) len cs (put8 dst i c) in if ltb i len then rest else (i, dst)

-- `keyboard_clear_line`.
abbrev pub keyboard_clear_line : Machine → Machine
keyboard_clear_line m = record m { line_ready = false; line_buffer = [] }

-- The bytes of a block, as `print_char` gets them.
unfoldable pub block_bytes : (i n : ℕ) → Buffer → List ℕ
block_bytes i zero b = []
block_bytes i (suc n) b = get8 b i ∷ block_bytes (i + 1) n b

abbrev pub print_block : Buffer → (len : ℕ) → Machine → Machine
print_block b len m = record m { screen = m.screen ++ block_bytes 0 len b }

-- What a read returns, the block that it wrote and the machine.
abbrev pub UserRead : Type 0
UserRead = Option (ℕ × Buffer × Machine)

unfoldable pub after_vfs_read : Machine → Option (Reply × Buffer × Vfs) → UserRead
after_vfs_read m none = none
after_vfs_read m (some (r, b, s)) = some (user_error_from_vfs r, b, set_vfs m s)

unfoldable pub read_stdin : Buffer → (len : ℕ) → Machine → ℕ × Buffer × Machine
unfolding copy_line
read_stdin dst len m =
    let (n, b) = copy_line 0 len m.line_buffer dst in
    if len == 0 || not m.line_ready then (0, dst, m) else (n, b, keyboard_clear_line m)

module _ (v : Volume) where
  unfoldable pub open_in :
      (i : ℕ) → (path : List ℕ) → (flags : ℕ) → Machine → Option ℕ → Option (ℕ × Machine)
  unfolding after_open
  open_in i path flags m none = some (user_error err_no_space, m)
  open_in i path flags m (some fd) =
      after_open i fd m (vfs_open_at v (process_at m i).cwd path flags m.vfs)

  unfoldable pub open_for :
      (path : List ℕ) → (flags : ℕ) → Machine → Option ℕ → Option (ℕ × Machine)
  unfolding open_in
  open_for path flags m none = some (user_error err_inval, m)
  open_for path flags m (some i) = open_in i path flags m (user_fd_find_free (process_at m i).fds)

  unfoldable pub user_fd_open_current : (path : List ℕ) → (flags : ℕ) → UserCall
  unfolding open_for
  user_fd_open_current path flags m = open_for path flags m m.current

  -- A descriptor is an `int`: as a u32, the negative ones are above `max_fds` too.
  abbrev pub with_fd {ℓ} :
      {A : Type ℓ} → (fd : ℕ) → (none_for : ℕ → A) → Machine → (Fd → ℕ → A) → Option ℕ → A
  with_fd fd none_for m k none = none_for err_inval
  with_fd fd none_for m k (some i) =
      if leb max_fds fd then none_for err_badf else k (get_or (process_at m i).fds fd no_fd) i

  unfoldable pub read_fd : Fd → (dst : Option Buffer) → (len : ℕ) → Machine → FdType → UserRead
  unfolding after_vfs_read read_stdin
  read_fd e dst len m fd_stdin = some (read_stdin (block dst) len m)
  read_fd e dst len m fd_vfs = after_vfs_read m (vfs_read v e.vfs_handle dst len m.vfs)
  read_fd e dst len m fd_unused = some (user_error err_badf, block dst, m)
  read_fd e dst len m fd_stdout = some (user_error err_badf, block dst, m)
  read_fd e dst len m fd_stderr = some (user_error err_badf, block dst, m)

  unfoldable pub user_fd_read_current :
      (fd : ℕ) → (dst : Option Buffer) → (len : ℕ) → Machine → UserRead
  unfolding read_fd
  user_fd_read_current fd dst len m =
      let refuse : ℕ → UserRead = λ e. some (user_error e, block dst, m) in
      let read : Fd → ℕ → UserRead = λ e _.
        if not (is_some dst) && ltb 0 len then refuse err_inval else read_fd e dst len m e.type in
      with_fd fd refuse m read m.current

  unfoldable pub write_fd :
      Fd → (src : Option Buffer) → (len : ℕ) → Machine → FdType → Option (ℕ × Machine)
  unfolding after_vfs
  write_fd e src len m fd_stdout = some (len, print_block (block src) len m)
  write_fd e src len m fd_stderr = some (len, print_block (block src) len m)
  write_fd e src len m fd_vfs = after_vfs m (vfs_write v e.vfs_handle src len m.vfs)
  write_fd e src len m fd_unused = some (user_error err_badf, m)
  write_fd e src len m fd_stdin = some (user_error err_badf, m)

  -- A call that refuses with an error leaves the machine as it is.
  abbrev pub refuse_user : Machine → ℕ → Option (ℕ × Machine)
  refuse_user m e = some (user_error e, m)

  unfoldable pub user_fd_write_current : (fd : ℕ) → (src : Option Buffer) → (len : ℕ) → UserCall
  unfolding write_fd
  user_fd_write_current fd src len m =
      let write : Fd → ℕ → Option (ℕ × Machine) = λ e _.
        if not (is_some src) && ltb 0 len
        then refuse_user m err_inval
        else write_fd e src len m e.type in
      with_fd fd (refuse_user m) m write m.current

  unfoldable pub user_fd_close_current : (fd : ℕ) → UserCall
  unfolding after_close
  user_fd_close_current fd m =
      let close : Fd → ℕ → Option (ℕ × Machine) = λ e i.
        if not (is_vfs_fd e.type)
        then refuse_user m err_badf
        else some (after_close i fd m (vfs_close v e.vfs_handle m.vfs)) in
      with_fd fd (refuse_user m) m close m.current

  unfoldable pub user_fd_lseek_current : (fd offset whence : ℕ) → UserCall
  unfolding after_vfs
  user_fd_lseek_current fd offset whence m =
      let seek : Fd → ℕ → Option (ℕ × Machine) = λ e _.
        if not (is_vfs_fd e.type)
        then refuse_user m err_badf
        else after_vfs m (some (vfs_lseek v e.vfs_handle offset whence m.vfs)) in
      with_fd fd (refuse_user m) m seek m.current

  -- `user_stat_path` behind `vfs_stat_at`: the result, and what goes to `out`.
  unfoldable pub after_stat : Reply × Option Stat → ℕ × Option Stat
  after_stat (error e, st) = (user_error_from_vfs (error e), none)
  after_stat (negative word, st) = (user_error_from_vfs (negative word), none)
  after_stat (value _, none) = (0, none)
  after_stat (value _, some st) =
      let type = if st.type == stat_type_dir then 2 else 1 in
      (0, some (record { size = st.size; type = type }))

  unfoldable pub stat_for : (path : List ℕ) → Machine → Option ℕ → ℕ × Option Stat
  unfolding after_stat
  stat_for path m none = (user_error err_inval, none)
  stat_for path m (some i) =
      let st : Stat = record { size = 0; type = 0 } in
      after_stat (vfs_stat_at v (process_at m i).cwd path (some st) m.vfs)

  -- `out` is not null: the result, and the two words that are written to it, if any.
  unfoldable pub user_stat_path : (path : List ℕ) → Machine → ℕ × Option Stat
  unfolding stat_for
  user_stat_path path m = stat_for path m m.current
