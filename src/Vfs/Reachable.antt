-- ===== src/Vfs/Reachable.antt =====
-- The states that the calls of fs/vfs.c reach.
use yoz_os.Base.{
  ℕ, ◌≡◌, inl, inr, arith, ltb, leb, ◌&&◌, not, Bool-cases, Option, none, some, List, is_some,
  subst,
}
use yoz_os.Disk.{Disk, Buffer, add32}
use yoz_os.Fat.Outcome.{Outcome, ok, err, stuck}
use yoz_os.Fat.Volume.{Volume}
use yoz_os.Fat.Read.{ReadResult, fat_stat_file}
use yoz_os.Vfs.Files.{OpenFile, Vfs, Reply, vfs_init, file_at, set_disk, max_open_files}
use yoz_os.Vfs.Calls.{
  with_file, vfs_open_at, after_read, read_open, vfs_read, vfs_close, after_write, write_open,
  vfs_write, seek_base, seek_from, vfs_lseek,
}
use yoz_os.Vfs.Invariant.{
  IsFile, IsVfs, vfs_init-IsVfs, set_file-IsVfs, file_at-IsFile, set_disk-IsVfs, Keeps, KeepsRead,
  moved-IsFile, written-IsFile,
}
use yoz_os.Vfs.Opening.{vfs_open_at-Keeps}

module _ (v : Volume) where
  after_read-Keeps :
      (h : ℕ) (f : OpenFile) (s : Vfs) (o : Option ReadResult)
      → IsFile f
      → IsVfs s
      → KeepsRead (after_read v h f s o)
  unfolding after_read
  after_read-Keeps h f s none p i = tt
  after_read-Keeps h f s (some r) p i = elim (Bool-cases r.success) [
    | inl t ↦ rw t (
        set_file-IsVfs s h _ (moved-IsFile f f.size (add32 f.offset r.out_len) f.first_cluster p) i)
    | inr t ↦ rw t i
  ]

  read_open-Keeps :
      (h : ℕ) (dst : Option Buffer) (len : ℕ) (f : OpenFile) (s : Vfs)
      → IsFile f
      → IsVfs s
      → KeepsRead (read_open v h dst len f s)
  unfolding read_open
  read_open-Keeps h dst len f s p i = elim (Bool-cases f.readable) [
    | inr t ↦ simp t i
    | inl t ↦ elim (Bool-cases (leb f.size f.offset)) [
      | inl u ↦ simp (t, u) i
      | inr u ↦ simp (t, u) (after_read-Keeps h f s _ p i)
    ]
  ]

  with_file-rule :
      {A : Type 0} (P : A → Type 0) (h : ℕ) (closed : A) (k : OpenFile → A) (s : Vfs)
      → P closed
      → P (k (file_at s h))
      → P (with_file v h closed k s)
  with_file-rule P h closed k s p q = elim (Bool-cases (leb max_open_files h)) [
    | inl t ↦ rw t p
    | inr t ↦ elim (Bool-cases (file_at s h).used) [ inl u ↦ rw (t, u) q | inr u ↦ rw (t, u) p ]
  ]

  vfs_read-Keeps :
      (h : ℕ) (dst : Option Buffer) (len : ℕ) (s : Vfs)
      → IsVfs s
      → KeepsRead (vfs_read v h dst len s)
  unfolding vfs_read
  vfs_read-Keeps h dst len s i = elim (Bool-cases (not (is_some dst) && ltb 0 len)) [
    | inl t ↦ rw t i
    | inr t ↦ rw t (
        with_file-rule KeepsRead h _ (λ f. read_open v h dst len f s) s i
          (read_open-Keeps h dst len _ s (file_at-IsFile s h i) i))
  ]

  vfs_close-IsVfs : (h : ℕ) (s : Vfs) → IsVfs s → IsVfs (vfs_close v h s).1
  unfolding vfs_close
  vfs_close-IsVfs h s i = elim (Bool-cases (leb max_open_files h)) [
    | inl t ↦ rw t i
    | inr t ↦ rw t (set_file-IsVfs s h _ (λ u. absurd (ground (arith, u))) i)
  ]

  after_write-Keeps :
      (h len : ℕ) (f : OpenFile) (s : Vfs) (o : Outcome (Unit {0}))
      → IsFile f
      → IsVfs s
      → Keeps (after_write v h len f s o)
  unfolding after_write
  after_write-Keeps h len f s stuck p i = tt
  after_write-Keeps h len f s (err e d) p i = set_disk-IsVfs s d i
  after_write-Keeps h len f s (ok x d) p i =
      set_file-IsVfs (set_disk s d) h _ (written-IsFile v f (fat_stat_file v f.name d) len p)
        (set_disk-IsVfs s d i)

  write_open-Keeps :
      (h : ℕ) (src : Option Buffer) (len : ℕ) (f : OpenFile) (s : Vfs)
      → IsFile f
      → IsVfs s
      → Keeps (write_open v h src len f s)
  unfolding write_open
  write_open-Keeps h src len f s p i = elim (Bool-cases f.writable) [
    | inr t ↦ simp t i
    | inl t ↦ simp t (after_write-Keeps h len f s _ p i)
  ]

  vfs_write-Keeps :
      (h : ℕ) (src : Option Buffer) (len : ℕ) (s : Vfs) → IsVfs s → Keeps (vfs_write v h src len s)
  unfolding vfs_write
  vfs_write-Keeps h src len s i = elim (Bool-cases (not (is_some src) && ltb 0 len)) [
    | inl t ↦ rw t i
    | inr t ↦ rw t (
        with_file-rule Keeps h _ (λ f. write_open v h src len f s) s i
          (write_open-Keeps h src len _ s (file_at-IsFile s h i) i))
  ]

  seek_from-IsVfs :
      (h offset : ℕ) (f : OpenFile) (s : Vfs) (o : Option ℕ)
      → IsFile f
      → IsVfs s
      → IsVfs (seek_from v h offset f s o).1
  unfolding seek_from
  seek_from-IsVfs h offset f s none p i = i
  seek_from-IsVfs h offset f s (some base) p i = elim (Bool-cases (ltb (add32 base offset) base)) [
    | inl t ↦ rw t i
    | inr t ↦
        rw t (set_file-IsVfs s h _ (moved-IsFile f f.size (add32 base offset) f.first_cluster p) i)
  ]

  vfs_lseek-IsVfs :
      (h offset whence : ℕ) (s : Vfs) → IsVfs s → IsVfs (vfs_lseek v h offset whence s).1
  unfolding vfs_lseek
  vfs_lseek-IsVfs h offset whence s i =
      with_file-rule (λ (r : Reply × Vfs). IsVfs r.1) h _
        (λ f. seek_from v h offset f s (seek_base v f whence)) s i
        (seek_from-IsVfs h offset _ s _ (file_at-IsFile s h i) i)

  -- The calls that change the state, one after the other, from the start on the disk `d`.
  pub data Reachable (d : Disk) : Vfs → Type 0 where
    starts : Reachable d (vfs_init d)
    opens :
        {s s' : Vfs}
        → Reachable d s
        → (cwd path : List ℕ) (flags : ℕ) (r : Reply)
        → vfs_open_at v cwd path flags s ≡ some (r, s')
        → Reachable d s'
    reads :
        {s s' : Vfs}
        → Reachable d s
        → (h : ℕ) (dst : Option Buffer) (len : ℕ) (r : Reply) (b : Buffer)
        → vfs_read v h dst len s ≡ some (r, b, s')
        → Reachable d s'
    writes :
        {s s' : Vfs}
        → Reachable d s
        → (h : ℕ) (src : Option Buffer) (len : ℕ) (r : Reply)
        → vfs_write v h src len s ≡ some (r, s')
        → Reachable d s'
    closes : {s : Vfs} → Reachable d s → (h : ℕ) → Reachable d (vfs_close v h s).1
    seeks :
        {s : Vfs}
        → Reachable d s
        → (h offset whence : ℕ) → Reachable d (vfs_lseek v h offset whence s).1

  -- In every state that the calls reach, the table has 16 files, and each that is in use was
  -- opened with valid flags, is readable and writable as they say, and has a name of at most 63 bytes.
  pub Reachable-IsVfs : (d : Disk) (s : Vfs) → Reachable d s → IsVfs s
  Reachable-IsVfs d _ starts = vfs_init-IsVfs d
  Reachable-IsVfs d _ (opens r cwd path flags x e) =
      subst Keeps e (vfs_open_at-Keeps v cwd path flags _ (Reachable-IsVfs d _ r))
  Reachable-IsVfs d _ (reads r h dst len x b e) =
      subst KeepsRead e (vfs_read-Keeps h dst len _ (Reachable-IsVfs d _ r))
  Reachable-IsVfs d _ (writes r h src len x e) =
      subst Keeps e (vfs_write-Keeps h src len _ (Reachable-IsVfs d _ r))
  Reachable-IsVfs d _ (closes r h) = vfs_close-IsVfs h _ (Reachable-IsVfs d _ r)
  Reachable-IsVfs d _ (seeks r h offset whence) =
      vfs_lseek-IsVfs h offset whence _ (Reachable-IsVfs d _ r)
