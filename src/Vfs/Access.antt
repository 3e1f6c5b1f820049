-- ===== src/Vfs/Access.antt =====
-- What the open files of fs/vfs.c let a caller do.
use yoz_os.Base.{
  ℕ, ◌+◌, ◌-◌, ◌*◌, ◌^◌, ◌≤◌, ◌<◌, ◌≡◌, refl, sym, ap, ◌∙◌, inl, inr, arith, ltb, leb, ◌&&◌, not,
  has_flag, true, false, Bool-cases, Option, some, List, length, is_some, min, get_or-set_self,
  get_or-set_ne, ◌⊎◌, dec_lt, Bool, if-keeps, ◌==◌, ◌≢◌,
}
use yoz_os.Disk.{Disk, Buffer, get8, add32}
use yoz_os.Fat.Volume.{Volume, cluster_bytes}
use yoz_os.Fat.Volume.Bounds.{IsVolume}
use yoz_os.Fat.Entry.{attr_dir}
use yoz_os.Fat.Table.Release.{IsChain}
use yoz_os.Fat.Read.{FileInfo, ReadResult, block, fat_stat_file, fat_read_file_at}
use yoz_os.Fat.Read.Loop.{Stores}
use yoz_os.Fat.Read.Content.{fat_read_file_at-Reads}
use yoz_os.Vfs.Flags.{access_mode, o_rdonly, o_create, flags_readable, flags_writable}
use yoz_os.Vfs.Files.{
  OpenFile, Vfs, Reply, vfs_invalid, value, error, negative, int_reply, empty_file, file_at,
  set_file,
}
use yoz_os.Vfs.Calls.{
  after_read, read_open, vfs_read, write_open, vfs_write, with_file, seek_base, seek_from,
  vfs_lseek,
}
use yoz_os.Vfs.Invariant.{IsVfs, file_at-IsFile}
use yoz_os.Vfs.Reachable.{Reachable, Reachable-IsVfs}

-- The replies below 0.
abbrev pub is_negative : Reply → Bool
is_negative (value n) = false
is_negative (error e) = true
is_negative (negative word) = true

int_reply-near : (n : ℕ) → n < 2 ^ 31 → int_reply n ≡ value n
unfolding int_reply
int_reply-near n h = let t : ltb n (2 ^ 31) ≡ true = ground arith in rw t refl

int_reply-far : (n : ℕ) → 2 ^ 31 ≤ n → is_negative (int_reply n) ≡ true
unfolding int_reply
int_reply-far n h =
    let t : ltb n (2 ^ 31) ≡ false = ground arith in
    rw t (
      if-keeps (λ r. is_negative r ≡ true) (n == 2 ^ 32 - 1) _ _ refl
        (if-keeps (λ r. is_negative r ≡ true) (n == 2 ^ 32 - 2) _ _ refl
          (if-keeps (λ r. is_negative r ≡ true) (n == 2 ^ 32 - 3) _ _ refl
            (if-keeps (λ r. is_negative r ≡ true) (n == 2 ^ 32 - 4) _ _ refl
              (if-keeps (λ r. is_negative r ≡ true) (n == 2 ^ 32 - 5) _ _ refl refl)))))

module _ (v : Volume) where
  closed-or_open :
      {A : Type 0} (P : A → Type 0) (h : ℕ) (closed : A) (k : OpenFile → A) (s : Vfs)
      → P closed
      → ((file_at s h).used ≡ true → P (k (file_at s h)))
      → P (with_file v h closed k s)
  closed-or_open P h closed k s p q = elim (Bool-cases (leb 16 h)) [
    | inl t ↦ rw t p
    | inr t ↦ elim (Bool-cases (file_at s h).used) [ inl u ↦ rw (t, u) (q u) | inr u ↦ rw (t, u) p ]
  ]

  -- In every state that is reached, a write to a handle that was opened read-only is refused and
  -- changes neither the disk nor the table.
  pub vfs_write-read_only :
      (d : Disk) (s : Vfs) (h : ℕ) (src : Option Buffer) (len : ℕ)
      → Reachable v d s
      → access_mode (file_at s h).flags ≡ o_rdonly
      → vfs_write v h src len s ≡ some (error vfs_invalid, s)
  unfolding vfs_write write_open flags_writable
  vfs_write-read_only d s h src len r mode = elim (Bool-cases (not (is_some src) && ltb 0 len)) [
    | inl t ↦ rw t refl
    | inr t ↦ rw t (
        closed-or_open (λ x. x ≡ some (error vfs_invalid, s)) h _ (λ f. write_open v h src len f s)
          s refl go)
  ]
    where
      go :
          (file_at s h).used ≡ true
          → write_open v h src len (file_at s h) s ≡ some (error vfs_invalid, s)
      go u =
          let w = (file_at-IsFile s h (Reachable-IsVfs v d s r) u).writes in
          let off : (file_at s h).writable ≡ false = w ∙ ground arith in simp off refl

  -- In every state that is reached, a read of a handle that was opened with USER_O_RDONLY and
  -- USER_O_CREATE is refused, and changes neither the state nor the block.
  pub vfs_read-created :
      (d : Disk) (s : Vfs) (h : ℕ) (dst : Option Buffer) (len : ℕ)
      → Reachable v d s
      → (file_at s h).flags ≡ o_rdonly + o_create
      → vfs_read v h dst len s ≡ some (error vfs_invalid, block dst, s)
  unfolding vfs_read read_open flags_readable
  vfs_read-created d s h dst len r mode = elim (Bool-cases (not (is_some dst) && ltb 0 len)) [
    | inl t ↦ rw t refl
    | inr t ↦ rw t (
        closed-or_open (λ x. x ≡ some (error vfs_invalid, block dst, s)) h _
          (λ f. read_open v h dst len f s) s refl go)
  ]
    where
      go :
          (file_at s h).used ≡ true
          → read_open v h dst len (file_at s h) s ≡ some (error vfs_invalid, block dst, s)
      go u =
          let w = (file_at-IsFile s h (Reachable-IsVfs v d s r) u).reads in
          let off : (file_at s h).readable ≡ false = w ∙ ground arith in simp off refl

  with_file_open :
      {A : Type 0} (h : ℕ) (closed : A) (k : OpenFile → A) (s : Vfs)
      → h < 16
      → (file_at s h).used ≡ true
      → with_file v h closed k s ≡ k (file_at s h)
  with_file_open h closed k s below used =
      let inside : leb 16 h ≡ false = ground arith in rw (inside, used) refl

  module _ (h len : ℕ) (dst : Buffer) (f : OpenFile) (s : Vfs) (readable : f.readable ≡ true) where
    read_open-done :
        leb f.size f.offset ≡ true → read_open v h (some dst) len f s ≡ some (value 0, dst, s)
    unfolding read_open
    read_open-done t = simp (readable, t) refl

    read_open-found :
        (r : ReadResult)
        → leb f.size f.offset ≡ false
        → fat_read_file_at v f.name f.offset (some dst) len s.disk ≡ some r
        → r.success ≡ true
        → read_open v h (some dst) len f s
          ≡ some (
            int_reply r.out_len,
            r.dst,
            set_file s h (record f { offset = add32 f.offset r.out_len }),
          )
    unfolding read_open after_read
    read_open-found r t e success = simp (readable, t, e, success) refl

  -- The result of a read of `len` bytes through the handle `h` of a file that holds `file`.
  pub record ReadsOn (s : Vfs) (h len : ℕ) (file dst b : Buffer) (s' : Vfs) (n : ℕ) : Type 0 where
    pub count : n ≡ min len ((file_at s h).size - (file_at s h).offset)
    pub bytes : (i : ℕ) → i < n → get8 b i ≡ get8 file ((file_at s h).offset + i)
    pub rest : (i : ℕ) → n ≤ i → get8 b i ≡ get8 dst i
    pub moved : (file_at s' h).offset ≡ (file_at s h).offset + n
    pub kept : s'.disk ≡ s.disk

  -- On a well-formed volume, a read through an open, readable handle of a file that is found with
  -- the size that the handle has, and whose chain holds its bytes, returns, as an `int`, the number of bytes that
  -- are asked for and left behind the offset, copies just these from the offset on, and moves the
  -- offset behind them.
  pub vfs_read-ReadsOn :
      IsVolume v
      → (s : Vfs) (h : ℕ) (info : FileInfo) (cs : List ℕ) (file dst : Buffer) (len : ℕ) → IsVfs s
      → h < 16
      → (file_at s h).used ≡ true
      → (file_at s h).readable ≡ true
      → fat_stat_file v (file_at s h).name s.disk ≡ some info
      → has_flag info.attr attr_dir ≡ false
      → info.size ≡ (file_at s h).size
      → info.size < 2 ^ 32
      → IsChain v s.disk info.first_cluster cs
      → info.size ≤ length cs * cluster_bytes v
      → Stores v s.disk cs 0 info.size file
      → (n : ℕ) × (b : Buffer) × (s' : Vfs) × (vfs_read v h (some dst) len s
          ≡ some (int_reply n, b, s'))
        × ReadsOn s h len file dst b s' n
  unfolding vfs_read int_reply
  vfs_read-ReadsOn hv s h info cs file dst len i small used readable found plain same fits chain
        long st =
      let f = file_at s h in
      let open_handle = with_file_open h _ (λ f. read_open v h (some dst) len f s) s small used in
      elim (Bool-cases (leb f.size f.offset)) [
        | inl t ↦ (
          0,
          dst,
          s,
          open_handle ∙ read_open-done h len dst f s readable t,
          record {
            count = ground arith;
            bytes = λ j q. absurd (omega arith);
            rest = λ j q. refl;
            moved = omega arith;
            kept = refl;
          },
        )
        | inr t ↦
            let (r, e, reads) =
              fat_read_file_at-Reads v hv f.name info cs file dst f.offset len s.disk found plain
                chain long st in
            let g : OpenFile = record f { offset = add32 f.offset r.out_len } in
            let exact : add32 f.offset r.out_len ≡ f.offset + r.out_len =
              ground (arith, reads.count) in
            (
              r.out_len,
              r.dst,
              set_file s h g,
              open_handle ∙ read_open-found h len dst f s readable r t e reads.success,
              record {
                count = reads.count ∙ rw same refl;
                bytes = reads.bytes;
                rest = reads.rest;
                moved =
                    ap (λ (x : OpenFile). x.offset)
                      (get_or-set_self s.open_files h g empty_file (omega (arith, i.entries)))
                    ∙ exact;
                kept = refl;
              },
            )
      ]

  -- A seek to `target` through a handle: the offset of its file is there, and nothing else changes.
  pub record SeeksTo (s : Vfs) (h target : ℕ) (r : Reply) (s' : Vfs) : Type 0 where
    pub file : file_at s' h ≡ record (file_at s h) { offset = target }
    pub others : (j : ℕ) → j ≢ h → file_at s' j ≡ file_at s j
    pub disk : s'.disk ≡ s.disk
    pub near : target < 2 ^ 31 → r ≡ value target
    pub far : 2 ^ 31 ≤ target → is_negative r ≡ true

  seek_from-SeeksTo :
      (s : Vfs) (h offset base : ℕ)
      → length s.open_files ≡ 16
      → h < 16
      → base + offset < 2 ^ 32
      → SeeksTo s h
          (base + offset)
          (seek_from v h offset (file_at s h) s (some base)).0
          (seek_from v h offset (file_at s h) s (some base)).1
  unfolding seek_from
  seek_from-SeeksTo s h offset base sixteen below fits =
      let exact : add32 base offset ≡ base + offset = omega arith in
      let up : ltb (base + offset) base ≡ false = ground arith in
      let g : OpenFile = record (file_at s h) { offset = base + offset } in
      let at = get_or-set_self s.open_files h g empty_file (omega arith) in
      rw (exact, up)
        (record {
          file = at;
          others = λ j ne. get_or-set_ne s.open_files h j g empty_file (λ e. ne (sym e));
          disk = refl;
          near = int_reply-near (base + offset);
          far = int_reply-far (base + offset);
        })

  -- A seek on a handle in use whose base and offset are u32: where the sum fits 32 bits, the offset
  -- of the file is the sum, and nothing else changes; the reply is the sum below 2 ^ 31, and
  -- negative, as an error is, from there on. Where the sum does not fit, the seek is refused and
  -- changes nothing.
  pub vfs_lseek-cases :
      (s : Vfs) (h offset whence base : ℕ)
      → length s.open_files ≡ 16
      → h < 16
      → (file_at s h).used ≡ true
      → seek_base v (file_at s h) whence ≡ some base
      → base < 2 ^ 32
      → offset < 2 ^ 32
      → ((base + offset < 2 ^ 32)
          × SeeksTo s h
              (base + offset)
              (vfs_lseek v h offset whence s).0
              (vfs_lseek v h offset whence s).1)
        ⊎ ((2 ^ 32 ≤ base + offset) × (vfs_lseek v h offset whence s ≡ (error vfs_invalid, s)))
  unfolding vfs_lseek
  vfs_lseek-cases s h offset whence base sixteen below used e b o =
      rw
        (
          with_file_open h (error vfs_invalid, s)
              (λ f. seek_from v h offset f s (seek_base v f whence)) s below used,
          e,
        )
        (elim (dec_lt (base + offset) (2 ^ 32)) [
          | yes fits ↦ inl (fits, seek_from-SeeksTo s h offset base sixteen below fits)
          | no over ↦
              let down : ltb (add32 base offset) base ≡ true = ground arith in
              inr (omega arith, rw (seek_from, down) refl)
        ])
