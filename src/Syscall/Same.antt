-- ===== src/Syscall/Same.antt =====
-- The system calls of cpu/syscall.c that leave the memory and the address spaces alone.
use yoz_os.Base.{
  ℕ, ◌≡◌, refl, ◌==◌, ◌&&◌, ◌||◌, leb, ltb, not, is_some, Bool, true, false, Option, none, some,
  List, get_or, if-keeps,
}
use yoz_os.Disk.{Buffer}
use yoz_os.Fat.Volume.{Volume}
use yoz_os.Fat.Read.{block}
use yoz_os.Vfs.Files.{Vfs, Reply, value, error, negative}
use yoz_os.Vfs.Calls.{vfs_open_at, vfs_read, vfs_write, vfs_close, vfs_lseek}
use yoz_os.Memory.Paging.{Paging}
use yoz_os.Task.Store.{Tasks}
use yoz_os.Task.Calls.{task_kill}
use yoz_os.User.Store.{
  FdType, Fd, fd_unused, fd_stdin, fd_stdout, fd_stderr, fd_vfs, Machine, process_at, is_dead,
  is_vfs_fd, no_fd, max_fds, user_error, err_inval, err_badf,
}
use yoz_os.User.Table.{
  user_process_close_fds, after_kill, kill_task, kill_found, user_process_find_pid,
  user_process_kill_pid,
}
use yoz_os.User.Fds.{
  UserRead, after_open, after_vfs, after_close, after_vfs_read, read_stdin, open_in, open_for,
  user_fd_find_free, user_fd_open_current, read_fd, user_fd_read_current, write_fd,
  user_fd_write_current, user_fd_close_current, user_fd_lseek_current, with_fd, refuse_user,
  copy_line, keyboard_clear_line,
}

-- Where the call returns, the memory and the address spaces are those of `s`.
abbrev pub SamePaging : Paging → Option (ℕ × Machine) → Type 0
SamePaging s none = Unit {0}
SamePaging s (some (r, m)) = m.paging ≡ s

abbrev pub SamePagingRead : Paging → UserRead → Type 0
SamePagingRead s none = Unit {0}
SamePagingRead s (some (r, b, m)) = m.paging ≡ s

abbrev refuse_read : Option Buffer → Machine → ℕ → UserRead
refuse_read dst m e = some (user_error e, block dst, m)

module _ (v : Volume) where
  pub after_open-SamePaging :
      (i fd : ℕ) (m : Machine) (o : Option (Reply × Vfs))
      → SamePaging m.paging (after_open i fd m o)
  unfolding after_open
  after_open-SamePaging i fd m none = tt
  after_open-SamePaging i fd m (some (error e, s)) = refl
  after_open-SamePaging i fd m (some (negative word, s)) = refl
  after_open-SamePaging i fd m (some (value h, s)) = refl

  after_vfs-SamePaging :
      (m : Machine) (o : Option (Reply × Vfs)) → SamePaging m.paging (after_vfs m o)
  unfolding after_vfs
  after_vfs-SamePaging m none = tt
  after_vfs-SamePaging m (some (r, s)) = refl

  after_close-SamePaging :
      (i fd : ℕ) (m : Machine) (o : Reply × Vfs) → SamePaging m.paging (some (after_close i fd m o))
  unfolding after_close
  after_close-SamePaging i fd m (error e, s) = refl
  after_close-SamePaging i fd m (negative word, s) = refl
  after_close-SamePaging i fd m (value x, s) = refl

  after_vfs_read-SamePaging :
      (m : Machine) (o : Option (Reply × Buffer × Vfs))
      → SamePagingRead m.paging (after_vfs_read m o)
  unfolding after_vfs_read
  after_vfs_read-SamePaging m none = tt
  after_vfs_read-SamePaging m (some (r, b, s)) = refl

  open_in-SamePaging :
      (i : ℕ) (path : List ℕ) (flags : ℕ) (m : Machine) (o : Option ℕ)
      → SamePaging m.paging (open_in v i path flags m o)
  unfolding open_in
  open_in-SamePaging i path flags m none = refl
  open_in-SamePaging i path flags m (some fd) =
      after_open-SamePaging i fd m (vfs_open_at v (process_at m i).cwd path flags m.vfs)

  open_for-SamePaging :
      (path : List ℕ) (flags : ℕ) (m : Machine) (o : Option ℕ)
      → SamePaging m.paging (open_for v path flags m o)
  unfolding open_for
  open_for-SamePaging path flags m none = refl
  open_for-SamePaging path flags m (some i) =
      open_in-SamePaging i path flags m (user_fd_find_free (process_at m i).fds)

  pub user_fd_open_current-SamePaging :
      (path : List ℕ) (flags : ℕ) (m : Machine)
      → SamePaging m.paging (user_fd_open_current v path flags m)
  unfolding user_fd_open_current
  user_fd_open_current-SamePaging path flags m = open_for-SamePaging path flags m m.current

  -- A call on a descriptor refuses, or does what it does with the descriptor.
  with_fd-keeps {ℓ κ} :
      {A : Type ℓ} (P : A → Type κ) (fd : ℕ) (refused : ℕ → A) (m : Machine) (k : Fd → ℕ → A)
      → ((e : ℕ) → P (refused e))
      → ((f : Fd) (i : ℕ) → P (k f i))
      → (current : Option ℕ) → P (with_fd v fd refused m k current)
  with_fd-keeps P fd refused m k p q none = p err_inval
  with_fd-keeps P fd refused m k p q (some i) =
      if-keeps P (leb max_fds fd) (refused err_badf) (k (get_or (process_at m i).fds fd no_fd) i)
        (p err_badf) (q (get_or (process_at m i).fds fd no_fd) i)

  read_fd-SamePaging :
      (e : Fd) (dst : Option Buffer) (len : ℕ) (m : Machine) (type : FdType)
      → SamePagingRead m.paging (read_fd v e dst len m type)
  unfolding read_fd read_stdin
  read_fd-SamePaging e dst len m fd_stdin =
      if-keeps (λ (x : ℕ × Buffer × Machine). x.2.paging ≡ m.paging) (len == 0 || not m.line_ready)
        (0, block dst, m)
        (
          (copy_line 0 len m.line_buffer (block dst)).0,
          (copy_line 0 len m.line_buffer (block dst)).1,
          keyboard_clear_line m,
        )
        refl refl
  read_fd-SamePaging e dst len m fd_vfs =
      after_vfs_read-SamePaging m (vfs_read v e.vfs_handle dst len m.vfs)
  read_fd-SamePaging e dst len m fd_unused = refl
  read_fd-SamePaging e dst len m fd_stdout = refl
  read_fd-SamePaging e dst len m fd_stderr = refl

  pub user_fd_read_current-SamePaging :
      (fd : ℕ) (dst : Option Buffer) (len : ℕ) (m : Machine)
      → SamePagingRead m.paging (user_fd_read_current v fd dst len m)
  unfolding user_fd_read_current
  user_fd_read_current-SamePaging fd dst len m =
      with_fd-keeps (SamePagingRead m.paging) fd (refuse_read dst m) m _ (λ e. refl)
        (λ f i.
          if-keeps (SamePagingRead m.paging) (not (is_some dst) && ltb 0 len)
            (refuse_read dst m err_inval) _ refl (read_fd-SamePaging f dst len m f.type))
        m.current

  write_fd-SamePaging :
      (e : Fd) (src : Option Buffer) (len : ℕ) (m : Machine) (type : FdType)
      → SamePaging m.paging (write_fd v e src len m type)
  unfolding write_fd
  write_fd-SamePaging e src len m fd_stdout = refl
  write_fd-SamePaging e src len m fd_stderr = refl
  write_fd-SamePaging e src len m fd_vfs =
      after_vfs-SamePaging m (vfs_write v e.vfs_handle src len m.vfs)
  write_fd-SamePaging e src len m fd_unused = refl
  write_fd-SamePaging e src len m fd_stdin = refl

  pub user_fd_write_current-SamePaging :
      (fd : ℕ) (src : Option Buffer) (len : ℕ) (m : Machine)
      → SamePaging m.paging (user_fd_write_current v fd src len m)
  unfolding user_fd_write_current
  user_fd_write_current-SamePaging fd src len m =
      with_fd-keeps (SamePaging m.paging) fd (refuse_user v m) m _ (λ e. refl)
        (λ f i.
          if-keeps (SamePaging m.paging) (not (is_some src) && ltb 0 len)
            (refuse_user v m err_inval) _ refl (write_fd-SamePaging f src len m f.type))
        m.current

  pub user_fd_close_current-SamePaging :
      (fd : ℕ) (m : Machine) → SamePaging m.paging (user_fd_close_current v fd m)
  unfolding user_fd_close_current
  user_fd_close_current-SamePaging fd m =
      with_fd-keeps (SamePaging m.paging) fd (refuse_user v m) m _ (λ e. refl)
        (λ f i.
          if-keeps (SamePaging m.paging) (not (is_vfs_fd f.type)) (refuse_user v m err_badf)
            (some (after_close i fd m (vfs_close v f.vfs_handle m.vfs))) refl
            (after_close-SamePaging i fd m (vfs_close v f.vfs_handle m.vfs)))
        m.current

  pub user_fd_lseek_current-SamePaging :
      (fd offset whence : ℕ) (m : Machine)
      → SamePaging m.paging (user_fd_lseek_current v fd offset whence m)
  unfolding user_fd_lseek_current
  user_fd_lseek_current-SamePaging fd offset whence m =
      with_fd-keeps (SamePaging m.paging) fd (refuse_user v m) m _ (λ e. refl)
        (λ f i.
          if-keeps (SamePaging m.paging) (not (is_vfs_fd f.type)) (refuse_user v m err_badf)
            (after_vfs m (some (vfs_lseek v f.vfs_handle offset whence m.vfs))) refl
            (after_vfs-SamePaging m (some (vfs_lseek v f.vfs_handle offset whence m.vfs))))
        m.current

  after_kill-SamePaging :
      (i : ℕ) (m : Machine) (o : Bool × Tasks) → (after_kill v i m o).1.paging ≡ m.paging
  unfolding after_kill user_process_close_fds
  after_kill-SamePaging i m (false, tasks) = refl
  after_kill-SamePaging i m (true, tasks) = refl

  kill_task-SamePaging :
      (i : ℕ) (m : Machine) (o : Option ℕ) → (kill_task v i m o).1.paging ≡ m.paging
  unfolding kill_task
  kill_task-SamePaging i m none = refl
  kill_task-SamePaging i m (some t) = after_kill-SamePaging i m (task_kill (some t) m.tasks)

  kill_found-SamePaging : (m : Machine) (o : Option ℕ) → (kill_found v m o).1.paging ≡ m.paging
  unfolding kill_found
  kill_found-SamePaging m none = refl
  kill_found-SamePaging m (some i) =
      if-keeps (λ (x : ℕ × Machine). x.1.paging ≡ m.paging) (is_dead (process_at m i).state) (2, m)
        (kill_task v i m (process_at m i).task) refl
        (kill_task-SamePaging i m (process_at m i).task)

  pub user_process_kill_pid-SamePaging :
      (pid : ℕ) (m : Machine) → (user_process_kill_pid v pid m).1.paging ≡ m.paging
  unfolding user_process_kill_pid
  user_process_kill_pid-SamePaging pid m = kill_found-SamePaging m (user_process_find_pid pid m)
