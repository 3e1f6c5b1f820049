-- ===== src/Syscall/Protects.antt =====
-- Which bytes of the memory the system calls of cpu/syscall.c leave alone.
use yoz_os.Base.{
  ℕ, zero, suc, ◌+◌, ◌-◌, ◌<◌, ◌≤◌, ◌≡◌, ◌≢◌, refl, ap, ◌∙◌, arith, ◌==◌, ◌||◌, ltb, Bool, true,
  false, Bool-cases, inl, inr, Option, none, some, List, [], ◌∷◌, if◌then◌else◌, if-keeps,
}
use yoz_os.Disk.{Buffer, get8, put8, put32, add32}
use yoz_os.Fat.Volume.{Volume}
use yoz_os.Vfs.Calls.{Stat}
use yoz_os.Vfs.Flags.{max_path}
use yoz_os.Memory.Paging.{Paging}
use yoz_os.Task.Store.{Tasks}
use yoz_os.User.Store.{Machine, region_write, region_read, err_inval}
use yoz_os.User.Access.{user_memory_ok, physical, user_block, store_bytes, store_user}
use yoz_os.User.Fds.{
  UserRead, block_bytes, copy_line, user_fd_open_current, user_fd_read_current,
  user_fd_write_current, user_stat_path,
}
use yoz_os.Syscall.{
  max_user_buffer, max_user_string, when_ok, user_cstring_ok, string_at, refuse_call, with_path,
  with_cstring, print_bytes, print_string, sys_string_write, sys_write_buffer, take_line,
  sys_read_line, sys_yield, user_pointer, after_sys_read, after_sys_stat, sys_open, sys_read,
  sys_write, stat_to, sys_stat,
}
use yoz_os.Syscall.Same.{
  SamePaging, SamePagingRead, user_fd_open_current-SamePaging, user_fd_read_current-SamePaging,
  user_fd_write_current-SamePaging,
}

-- A byte of the memory behind no address that the current process may write to.
abbrev pub IsProtected : Machine → (a : ℕ) → Type 0
IsProtected m a =
    (ptr len i : ℕ)
    → user_memory_ok ptr len region_write m ≡ some true
    → i < len
    → a ≢ physical m.paging (add32 ptr i)

-- Where the call returns, the byte `a` is what it is in `ram`.
abbrev pub Keeps : (ram : Buffer) → (a : ℕ) → Option (ℕ × Machine) → Type 0
Keeps ram a none = Unit {0}
Keeps ram a (some (r, m)) = get8 m.paging.ram a ≡ get8 ram a

SamePaging-Keeps :
    (s : Paging) (a : ℕ) (o : Option (ℕ × Machine)) → SamePaging s o → Keeps s.ram a o
SamePaging-Keeps s a none h = tt
SamePaging-Keeps s a (some (r, m)) h = ap (λ (x : Paging). get8 x.ram a) h

get8-store_bytes :
    (s : Paging) (ptr : ℕ) (b : Buffer) (n a : ℕ)
    → ((i : ℕ) → i < n → a ≢ physical s (add32 ptr i))
    → get8 (store_bytes s ptr b n) a ≡ get8 s.ram a
unfolding store_bytes
get8-store_bytes s ptr b zero a h = refl
get8-store_bytes s ptr b (suc n) a h =
    put8-ne (store_bytes s ptr b n) (physical s (add32 ptr n)) (get8 b n) a (h n (omega arith))
    ∙ get8-store_bytes s ptr b n a (λ i q. h i (omega arith))
  where
    put8-ne : (b : Buffer) (i v a : ℕ) → a ≢ i → get8 (put8 b i v) a ≡ get8 b a
    put8-ne b i v a ne = ground arith

when_ok-keeps {ℓ κ} :
    {A : Type ℓ} (P : Option A → Type κ) (t : Option Bool) (x y : Option A)
    → P none
    → (t ≡ some true → P x)
    → P y
    → P (when_ok t x y)
when_ok-keeps P none x y n p q = n
when_ok-keeps P (some true) x y n p q = p refl
when_ok-keeps P (some false) x y n p q = q

copy_line-le : (i len : ℕ) (cs : List ℕ) (dst : Buffer) → i ≤ len → (copy_line i len cs dst).0 ≤ len
unfolding copy_line
copy_line-le i len [] dst h = h
copy_line-le i len (c ∷ cs) dst h = elim (Bool-cases (ltb i len)) [
  | inl t ↦ rw t (copy_line-le (i + 1) len cs (put8 dst i c) (ground arith))
  | inr t ↦ rw t h
]

module _ (v : Volume) (m : Machine) (a : ℕ) (protected : IsProtected m a) where
  abbrev pub Kept : Option (ℕ × Machine) → Type 0
  Kept o = Keeps m.paging.ram a o

  pub same : (o : Option (ℕ × Machine)) → SamePaging m.paging o → Kept o
  same o h = SamePaging-Keeps m.paging a o h

  -- A write of bytes through a pointer that was checked.
  stored :
      (ptr len n : ℕ) (b : Buffer)
      → user_memory_ok ptr len region_write m ≡ some true
      → n ≤ len
      → get8 (store_bytes m.paging ptr b n) a ≡ get8 m.paging.ram a
  stored ptr len n b e h =
      get8-store_bytes m.paging ptr b n a (λ i q. protected ptr len i e (omega arith))

  pub sys_read_line-Kept : (ptr len : ℕ) → Kept (sys_read_line ptr len m)
  unfolding sys_read_line take_line store_user
  sys_read_line-Kept ptr len = elim (Bool-cases (len == 0 || ltb 256 len)) [
    | inl t ↦ rw t refl
    | inr t ↦ rw t (
        when_ok-keeps Kept (user_memory_ok ptr len region_write m)
          (if m.line_ready then some (take_line ptr len m) else some (0, m))
          (refuse_call err_inval m) tt
          (λ e.
            if-keeps Kept m.line_ready (some (take_line ptr len m)) (some (0, m))
              (stored ptr len ((copy_line 0 (len - 1) m.line_buffer (user_block m ptr)).0 + 1) _ e (
                let l = copy_line-le 0 (len - 1) m.line_buffer (user_block m ptr) (omega arith) in
                ground (arith, l)))
              refl)
          refl)
  ]

  after_sys_read-Kept :
      (ptr len : ℕ) (o : UserRead)
      → user_memory_ok ptr len region_write m ≡ some true
      → SamePagingRead m.paging o
      → Kept (after_sys_read ptr len o)
  unfolding after_sys_read store_user
  after_sys_read-Kept ptr len none e h = tt
  after_sys_read-Kept ptr len (some (r, b, m')) e h = elim (Bool-cases (ptr == 0)) [
    | inl t ↦ rw t (ap (λ (x : Paging). get8 x.ram a) h)
    | inr t ↦ rw t (
        ap (λ (x : Paging). get8 (store_bytes x ptr b len) a) h
        ∙ stored ptr len len b e (omega arith))
  ]

  pub sys_read-Kept : (fd ptr len : ℕ) → Kept (sys_read v fd ptr len m)
  unfolding sys_read
  sys_read-Kept fd ptr len =
      if-keeps Kept (ltb max_user_buffer len) (refuse_call err_inval m)
        (when_ok (user_memory_ok ptr len region_write m)
          (after_sys_read ptr len (user_fd_read_current v fd (user_pointer m ptr) len m))
          (refuse_call err_inval m))
        refl
        (when_ok-keeps Kept (user_memory_ok ptr len region_write m)
          (after_sys_read ptr len (user_fd_read_current v fd (user_pointer m ptr) len m))
          (refuse_call err_inval m) tt
          (λ e.
            after_sys_read-Kept ptr len (user_fd_read_current v fd (user_pointer m ptr) len m) e
              (user_fd_read_current-SamePaging v fd (user_pointer m ptr) len m))
          refl)

  pub sys_write-Kept : (fd ptr len : ℕ) → Kept (sys_write v fd ptr len m)
  unfolding sys_write
  sys_write-Kept fd ptr len =
      if-keeps Kept (ltb max_user_buffer len) (refuse_call err_inval m)
        (when_ok (user_memory_ok ptr len region_read m)
          (user_fd_write_current v fd (user_pointer m ptr) len m) (refuse_call err_inval m))
        refl
        (when_ok-keeps Kept (user_memory_ok ptr len region_read m)
          (user_fd_write_current v fd (user_pointer m ptr) len m) (refuse_call err_inval m) tt
          (λ e.
            same (user_fd_write_current v fd (user_pointer m ptr) len m)
              (user_fd_write_current-SamePaging v fd (user_pointer m ptr) len m))
          refl)

  print_string-Kept : (o : Option (List ℕ)) → Kept (print_string m o)
  print_string-Kept none = refl
  print_string-Kept (some cs) = refl

  pub sys_string_write-Kept : (ptr : ℕ) → Kept (sys_string_write ptr m)
  unfolding sys_string_write
  sys_string_write-Kept ptr =
      when_ok-keeps Kept (user_cstring_ok ptr m)
        (print_string m (string_at max_user_string 0 ptr m)) (refuse_call err_inval m) tt
        (λ e. print_string-Kept (string_at max_user_string 0 ptr m)) refl

  pub sys_write_buffer-Kept : (ptr len : ℕ) → Kept (sys_write_buffer ptr len m)
  unfolding sys_write_buffer
  sys_write_buffer-Kept ptr len =
      if-keeps Kept (ltb max_user_buffer len) (refuse_call err_inval m)
        (when_ok (user_memory_ok ptr len region_read m)
          (some (0, print_bytes (block_bytes 0 len (user_block m ptr)) m))
          (refuse_call err_inval m))
        refl
        (when_ok-keeps Kept (user_memory_ok ptr len region_read m)
          (some (0, print_bytes (block_bytes 0 len (user_block m ptr)) m)) (refuse_call err_inval m)
          tt (λ e. refl) refl)

  with_path-Kept :
      (k : List ℕ → Option (ℕ × Machine)) (o : Option (List ℕ))
      → ((path : List ℕ) → Kept (k path))
      → Kept (with_path k m o)
  unfolding with_path
  with_path-Kept k none h = refl
  with_path-Kept k (some path) h = h path

  with_cstring-Kept :
      (ptr : ℕ) (k : List ℕ → Option (ℕ × Machine))
      → ((path : List ℕ) → Kept (k path))
      → Kept (with_cstring ptr k m)
  unfolding with_cstring
  with_cstring-Kept ptr k h =
      when_ok-keeps Kept (user_cstring_ok ptr m) (with_path k m (string_at max_path 0 ptr m))
        (refuse_call err_inval m) tt (λ e. with_path-Kept k (string_at max_path 0 ptr m) h) refl

  pub sys_open-Kept : (ptr flags : ℕ) → Kept (sys_open v ptr flags m)
  unfolding sys_open
  sys_open-Kept ptr flags =
      with_cstring-Kept ptr (λ path. user_fd_open_current v path flags m)
        (λ path.
          same (user_fd_open_current v path flags m)
            (user_fd_open_current-SamePaging v path flags m))

  after_sys_stat-Kept :
      (out : ℕ) (o : ℕ × Option Stat)
      → user_memory_ok out 8 region_write m ≡ some true
      → Kept (after_sys_stat out m o)
  unfolding after_sys_stat store_user
  after_sys_stat-Kept out (r, none) e = refl
  after_sys_stat-Kept out (r, some st) e =
      stored out 8 8 (put32 (put32 (user_block m out) 0 st.size) 4 st.type) e (omega arith)

  stat_to-Kept : (out : ℕ) (name : List ℕ) → Kept (stat_to v out m name)
  unfolding stat_to
  stat_to-Kept out name =
      when_ok-keeps Kept (user_memory_ok out 8 region_write m)
        (if out == 0
          then refuse_call err_inval m
          else after_sys_stat out m (user_stat_path v name m))
        (refuse_call err_inval m) tt
        (λ e.
          if-keeps Kept (out == 0) (refuse_call err_inval m)
            (after_sys_stat out m (user_stat_path v name m)) refl
            (after_sys_stat-Kept out (user_stat_path v name m) e))
        refl

  pub sys_stat-Kept : (path out : ℕ) → Kept (sys_stat v path out m)
  unfolding sys_stat
  sys_stat-Kept path out = with_cstring-Kept path (stat_to v out m) (stat_to-Kept out)

  pub sys_yield-Kept : (o : Option Tasks) → Kept (sys_yield m o)
  unfolding sys_yield
  sys_yield-Kept none = tt
  sys_yield-Kept (some tasks) = refl
