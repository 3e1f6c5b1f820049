-- ===== src/Vfs/Calls.antt =====
-- The calls of fs/vfs.c. A handle is a u32: the negative ones are those from 2 ^ 31 on.
use yoz_os.Base.{
  ℕ, ◌&&◌, true, false, not, Option, none, some, List, [], ◌∷◌, ltb, leb, ◌==◌, if◌then◌else◌,
  has_flag, is_some,
}
use yoz_os.Disk.{Buffer, add32}
use yoz_os.Fat.Outcome.{
  invalid, exists, not_found, no_space, too_big, not_empty, Outcome, ok, err, stuck,
}
use yoz_os.Fat.Volume.{Volume}
use yoz_os.Fat.Entry.{attr_dir}
use yoz_os.Fat.Read.{FileInfo, ReadResult, block, fat_stat_file, fat_read_file_at}
use yoz_os.Fat.Create.{fat_create_file}
use yoz_os.Fat.Write.{fat_write_file}
use yoz_os.Fat.Patch.{fat_write_file_at}
use yoz_os.Fat.Append.{fat_append_file}
use yoz_os.Vfs.Flags.{
  o_create, o_trunc, o_append, flags_readable, flags_writable, vfs_flags_valid, resolve_simple_path,
  is_root_path,
}
use yoz_os.Vfs.Files.{
  OpenFile, Vfs, vfs_invalid, vfs_not_found, vfs_no_space, vfs_io, vfs_unsupported, Reply, value,
  error, int_reply, Call, refuse, max_open_files, file_at, set_file, set_disk, find_free_handle,
}

-- `vfs_stat_t`.
pub record Stat : Type 0 where
  pub size : ℕ
  pub type : ℕ

abbrev pub stat_type_file : ℕ
stat_type_file = 1

abbrev pub stat_type_dir : ℕ
stat_type_dir = 2

-- What a read returns, the block that it wrote and the state.
abbrev pub ReadCall : Type 0
ReadCall = Vfs → Option (Reply × Buffer × Vfs)

module _ (v : Volume) where
  -- The file of a handle that is taken; `closed` for the other handles.
  abbrev pub with_file : {A : Type 0} → ℕ → A → (OpenFile → A) → Vfs → A
  with_file h closed k s =
      let f = file_at s h in
      if leb max_open_files h then closed else if not f.used then closed else k f

  -- The file as `vfs_open_at` leaves it in the table.
  abbrev pub opened : List ℕ → ℕ → FileInfo → OpenFile
  opened name flags info = record {
    used = true;
    name = name;
    size = info.size;
    offset = if has_flag flags o_append then info.size else 0;
    first_cluster = info.first_cluster;
    flags = flags;
    readable = flags_readable flags;
    writable = flags_writable flags;
  }

  -- `fat_stat_file` clears the block that it fills, also where it finds nothing.
  abbrev pub stat_or_cleared : Option FileInfo → FileInfo
  stat_or_cleared none = record { size = 0; first_cluster = 0; attr = 0 }
  stat_or_cleared (some info) = info

  -- The end of `vfs_open_at`: the file is in the table.
  abbrev pub enter_file : (h : ℕ) → List ℕ → (flags : ℕ) → FileInfo → Vfs → Reply × Vfs
  enter_file h name flags info s = (value h, set_file s h (opened name flags info))

  -- `vfs_open_at` behind the call that truncates the file.
  unfoldable pub after_truncate :
      (h : ℕ) → List ℕ → (flags : ℕ) → Vfs → Outcome (Unit {0}) → Option (Reply × Vfs)
  after_truncate h name flags s stuck = none
  after_truncate h name flags s (err e d) = refuse vfs_io (set_disk s d)
  after_truncate h name flags s (ok _ d) =
      some (enter_file h name flags (stat_or_cleared (fat_stat_file v name d)) (set_disk s d))

  -- `vfs_open_at` from the test for a directory on.
  unfoldable pub open_found : (h : ℕ) → List ℕ → (flags : ℕ) → FileInfo → Call
  unfolding after_truncate
  open_found h name flags info s =
      if has_flag info.attr attr_dir
      then refuse vfs_unsupported s
      else if has_flag flags o_trunc
      then after_truncate h name flags s (fat_write_file v name none 0 s.disk)
      else some (enter_file h name flags info s)

  -- `vfs_open_at` with the file created.
  unfoldable pub open_created :
      (h : ℕ) → List ℕ → (flags : ℕ) → Vfs → Option FileInfo → Option (Reply × Vfs)
  unfolding open_found
  open_created h name flags s none = refuse vfs_not_found s
  open_created h name flags s (some info) = open_found h name flags info s

  -- `vfs_open_at` behind the call that creates the file, which may report that it exists.
  unfoldable pub after_create :
      (h : ℕ) → List ℕ → (flags : ℕ) → Vfs → Outcome (Unit {0}) → Option (Reply × Vfs)
  unfolding open_created
  after_create h name flags s stuck = none
  after_create h name flags s (ok _ d) =
      open_created h name flags (set_disk s d) (fat_stat_file v name d)
  after_create h name flags s (err exists d) =
      open_created h name flags (set_disk s d) (fat_stat_file v name d)
  after_create h name flags s (err invalid d) = refuse vfs_invalid (set_disk s d)
  after_create h name flags s (err not_found d) = refuse vfs_invalid (set_disk s d)
  after_create h name flags s (err no_space d) = refuse vfs_invalid (set_disk s d)
  after_create h name flags s (err too_big d) = refuse vfs_invalid (set_disk s d)
  after_create h name flags s (err not_empty d) = refuse vfs_invalid (set_disk s d)

  -- `vfs_open_at` with a handle and what the first `fat_stat_file` finds.
  unfoldable pub open_stat :
      (h : ℕ) → List ℕ → (flags : ℕ) → Vfs → Option FileInfo → Option (Reply × Vfs)
  unfolding open_found after_create
  open_stat h name flags s (some info) = open_found h name flags info s
  open_stat h name flags s none =
      if has_flag flags o_create
      then after_create h name flags s (fat_create_file v name s.disk)
      else refuse vfs_not_found s

  unfoldable pub vfs_open_at : (cwd path : List ℕ) → (flags : ℕ) → Call
  unfolding open_stat
  vfs_open_at cwd path flags s =
      if not (vfs_flags_valid flags)
      then refuse vfs_invalid s
      else elim (resolve_simple_path cwd path) [
        | none ↦ refuse vfs_invalid s
        | some name ↦ elim (find_free_handle s) [
          | none ↦ refuse vfs_no_space s
          | some h ↦ open_stat h name flags s (fat_stat_file v name s.disk)
        ]
      ]

  unfoldable pub vfs_open : (path : List ℕ) → (flags : ℕ) → Call
  vfs_open path flags = vfs_open_at (b'/' ∷ []) path flags

  -- `vfs_read` behind the read of the file.
  unfoldable pub after_read :
      (h : ℕ) → OpenFile → Vfs → Option ReadResult → Option (Reply × Buffer × Vfs)
  after_read h f s none = none
  after_read h f s (some r) =
      let moved : OpenFile = record f { offset = add32 f.offset r.out_len } in
      if r.success
      then some (int_reply r.out_len, r.dst, set_file s h moved)
      else some (error vfs_not_found, r.dst, s)

  unfoldable pub read_open : (h : ℕ) → Option Buffer → ℕ → OpenFile → ReadCall
  unfolding after_read
  read_open h dst len f s =
      if not f.readable
      then some (error vfs_invalid, block dst, s)
      else if leb f.size f.offset
      then some (value 0, block dst, s)
      else after_read h f s (fat_read_file_at v f.name f.offset dst len s.disk)

  unfoldable pub vfs_read : (h : ℕ) → Option Buffer → ℕ → ReadCall
  unfolding read_open
  vfs_read h dst len s =
      let closed : Option (Reply × Buffer × Vfs) = some (error vfs_invalid, block dst, s) in
      if not (is_some dst) && ltb 0 len
      then closed
      else with_file h closed (λ f. read_open h dst len f s) s

  unfoldable pub vfs_close : ℕ → Vfs → Reply × Vfs
  vfs_close h s =
      let f = file_at s h in
      if leb max_open_files h
      then (error vfs_invalid, s)
      else (value 0, set_file s h (record f { used = false }))

  -- `out`: the block behind the pointer, `none` for the null one.
  unfoldable pub vfs_stat_at : (cwd path : List ℕ) → Option Stat → Vfs → Reply × Option Stat
  vfs_stat_at cwd path none s = (error vfs_invalid, none)
  vfs_stat_at cwd path (some out) s =
      let cleared : Stat = record { size = 0; type = 0 } in
      let root : Stat = record { size = 0; type = stat_type_dir } in
      if is_root_path cwd path
      then (value 0, some root)
      else elim (resolve_simple_path cwd path) as (λ _. Reply × Option Stat) [
        | none ↦ (error vfs_invalid, some cleared)
        | some name ↦ elim (fat_stat_file v name s.disk) [
          | none ↦ (error vfs_not_found, some cleared)
          | some info ↦
              let type = if has_flag info.attr attr_dir then stat_type_dir else stat_type_file in
              (value 0, some (record { size = info.size; type = type }))
        ]
      ]

  unfoldable pub vfs_stat : (path : List ℕ) → Option Stat → Vfs → Reply × Option Stat
  vfs_stat path out s = vfs_stat_at (b'/' ∷ []) path out s

  -- The file behind a write of `len` bytes.
  abbrev pub written : OpenFile → Option FileInfo → (len : ℕ) → OpenFile
  written f info len =
      let at_end : OpenFile → OpenFile = λ g. record g { offset = g.size } in
      let moved : OpenFile → OpenFile = λ g. record g { offset = add32 g.offset len } in
      let grown : OpenFile = elim info [
        | none ↦ f
        | some i ↦ record f { size = i.size; first_cluster = i.first_cluster }
      ] in
      if has_flag f.flags o_append then at_end grown else moved grown

  -- `vfs_write` behind the write of the file.
  unfoldable pub after_write :
      (h len : ℕ) → OpenFile → Vfs → Outcome (Unit {0}) → Option (Reply × Vfs)
  after_write h len f s stuck = none
  after_write h len f s (err e d) = refuse vfs_io (set_disk s d)
  after_write h len f s (ok _ d) =
      some (int_reply len, set_file (set_disk s d) h (written f (fat_stat_file v f.name d) len))

  unfoldable pub write_open : (h : ℕ) → Option Buffer → ℕ → OpenFile → Call
  unfolding after_write
  write_open h src len f s =
      let append = fat_append_file v f.name src len s.disk in
      let patch = fat_write_file_at v f.name f.offset src len s.disk in
      if not f.writable
      then refuse vfs_invalid s
      else after_write h len f s (if has_flag f.flags o_append then append else patch)

  unfoldable pub vfs_write : (h : ℕ) → Option Buffer → ℕ → Call
  unfolding write_open
  vfs_write h src len s =
      if not (is_some src) && ltb 0 len
      then refuse vfs_invalid s
      else with_file h (refuse vfs_invalid s) (λ f. write_open h src len f s) s

  -- `base` of `vfs_lseek`, by USER_SEEK_SET, USER_SEEK_CUR and USER_SEEK_END.
  abbrev pub seek_base : OpenFile → (whence : ℕ) → Option ℕ
  seek_base f whence =
      if whence == 0
      then some 0
      else if whence == 1
      then some f.offset
      else if whence == 2
      then some f.size
      else none

  -- `vfs_lseek` from its base on.
  unfoldable pub seek_from : (h offset : ℕ) → OpenFile → Vfs → Option ℕ → Reply × Vfs
  seek_from h offset f s none = (error vfs_invalid, s)
  seek_from h offset f s (some base) =
      let new_offset = add32 base offset in
      let moved : OpenFile = record f { offset = new_offset } in
      if ltb new_offset base
      then (error vfs_invalid, s)
      else (int_reply new_offset, set_file s h moved)

  unfoldable pub vfs_lseek : (h offset whence : ℕ) → Vfs → Reply × Vfs
  unfolding seek_from
  vfs_lseek h offset whence s =
      with_file h (error vfs_invalid, s) (λ f. seek_from h offset f s (seek_base f whence)) s
