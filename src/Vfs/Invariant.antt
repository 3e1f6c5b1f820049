-- ===== src/Vfs/Invariant.antt =====
-- What holds of the table of fs/vfs.c in every state that its calls reach.
use yoz_os.Base.{
  ℕ, zero, suc, ◌≤◌, ◌<◌, ◌≡◌, ◌∙◌, inl, inr, arith, ◌==◌, ◌&&◌, has_flag, true, Bool-cases, Option,
  none, some, Option-cases, List, [], ◌∷◌, length, All, All-set, All-get_or, All-replicate,
  length-set, length-replicate,
}
use yoz_os.Disk.{Disk, Buffer, add32}
use yoz_os.Fat.Volume.{Volume}
use yoz_os.Fat.Read.{FileInfo}
use yoz_os.Vfs.Flags.{
  o_append, flags_readable, flags_writable, vfs_flags_valid, is_nil, path_start, copy_path,
  resolve_simple_path,
}
use yoz_os.Vfs.Files.{OpenFile, Vfs, Reply, empty_file, vfs_init, file_at, set_file, set_disk}
use yoz_os.Vfs.Calls.{written}

-- A file of the table that is in use was opened with valid flags, which say whether it is readable
-- and writable, and under a name that fits the buffer.
pub record IsOpen (f : OpenFile) : Type 0 where
  pub valid : vfs_flags_valid f.flags ≡ true
  pub reads : f.readable ≡ flags_readable f.flags
  pub writes : f.writable ≡ flags_writable f.flags
  pub fits : length f.name < 64

abbrev pub IsFile : OpenFile → Type 0
IsFile f = f.used ≡ true → IsOpen f

-- The table has its 16 files, and each is free or open.
pub record IsVfs (s : Vfs) : Type 0 where
  pub entries : length s.open_files ≡ 16
  pub files : All IsFile s.open_files

pub vfs_init-IsVfs : (d : Disk) → IsVfs (vfs_init d)
unfolding vfs_init
vfs_init-IsVfs d = record {
  entries = length-replicate 16 empty_file;
  files = All-replicate IsFile 16 empty_file (λ e. ground arith);
}

pub set_file-IsVfs : (s : Vfs) (h : ℕ) (f : OpenFile) → IsFile f → IsVfs s → IsVfs (set_file s h f)
set_file-IsVfs s h f p i = record {
  entries = length-set s.open_files h f ∙ i.entries;
  files = All-set IsFile s.open_files h f i.files p;
}

pub file_at-IsFile : (s : Vfs) (h : ℕ) → IsVfs s → IsFile (file_at s h)
file_at-IsFile s h i = All-get_or IsFile s.open_files h empty_file i.files (λ e. ground arith)

pub set_disk-IsVfs : (s : Vfs) (d : Disk) → IsVfs s → IsVfs (set_disk s d)
set_disk-IsVfs s d i = record { entries = i.entries; files = i.files }

copy_path-fits : (room : ℕ) (path out : List ℕ) → copy_path room path ≡ some out → length out ≤ room
unfolding copy_path
copy_path-fits room [] out e = ground (arith, e)
copy_path-fits zero (c ∷ cs) out e = cc
copy_path-fits (suc room) (c ∷ cs) out e = elim (Bool-cases (c == b'/' && is_nil cs)) [
  | inl t ↦ let h = rw t at e in cc
  | inr t ↦ elim (Option-cases (copy_path room cs)) [
    | inl n ↦ let h = rw (t, n) at e in cc
    | inr (rest, m) ↦ let h = rw (t, m) at e in ground (arith, h, copy_path-fits room cs rest m)
  ]
]

-- The simple name of a path fits the buffer of the file.
pub resolve_simple_path-fits :
    (cwd path name : List ℕ) → resolve_simple_path cwd path ≡ some name → length name < 64
unfolding resolve_simple_path
resolve_simple_path-fits cwd path name e =
    let go = copy_path-fits 63 (path_start path) name in ground (arith, go, e)

-- The state that a call leaves, where it returns.
abbrev pub Keeps : Option (Reply × Vfs) → Type 0
Keeps none = Unit {0}
Keeps (some (r, s)) = IsVfs s

abbrev pub KeepsRead : Option (Reply × Buffer × Vfs) → Type 0
KeepsRead none = Unit {0}
KeepsRead (some (r, b, s)) = IsVfs s

-- A change of the offset, the size and the cluster of a file keeps it open as it was.
pub moved-IsFile :
    (f : OpenFile) (size offset first_cluster : ℕ)
    → IsFile f
    → IsFile (record f { size = size; offset = offset; first_cluster = first_cluster })
moved-IsFile f size offset first_cluster p u = record {
  valid = (p u).valid;
  reads = (p u).reads;
  writes = (p u).writes;
  fits = (p u).fits;
}

pub written-IsFile :
    (v : Volume) (f : OpenFile) (info : Option FileInfo) (len : ℕ)
    → IsFile f
    → IsFile (written v f info len)
written-IsFile v f none len p = elim (Bool-cases (has_flag f.flags o_append)) [
  | inl t ↦ rw t (moved-IsFile f f.size f.size f.first_cluster p)
  | inr t ↦ rw t (moved-IsFile f f.size (add32 f.offset len) f.first_cluster p)
]
written-IsFile v f (some i) len p = elim (Bool-cases (has_flag f.flags o_append)) [
  | inl t ↦ rw t (moved-IsFile f i.size i.size i.first_cluster p)
  | inr t ↦ rw t (moved-IsFile f i.size (add32 f.offset len) i.first_cluster p)
]
