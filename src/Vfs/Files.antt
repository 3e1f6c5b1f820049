-- ===== src/Vfs/Files.antt =====
-- The state of fs/vfs.c, and how its calls end.
use yoz_os.Base.{
  ℕ, ◌+◌, Bool, false, Option, none, some, List, [], ◌∷◌, if◌then◌else◌, get_or, set, replicate,
  ltb, ◌==◌, ◌-◌, ◌^◌,
}
use yoz_os.Disk.{Disk}

-- VFS_MAX_OPEN_FILES.
abbrev pub max_open_files : ℕ
max_open_files = 16

-- `vfs_file_t`.
pub record OpenFile : Type 0 where
  pub used : Bool
  pub name : List ℕ
  pub size : ℕ
  pub offset : ℕ
  pub first_cluster : ℕ
  pub flags : ℕ
  pub readable : Bool
  pub writable : Bool

-- `open_files`, and the disk below.
pub record Vfs : Type 0 where
  pub open_files : List OpenFile
  pub disk : Disk

-- The VFS_ERR codes.
pub data VfsError : Type 0 where
  vfs_invalid vfs_not_found vfs_no_space vfs_io vfs_unsupported : VfsError

-- What a call returns, an `int`: a number that is not negative, an error code, or another negative
-- number, given by its word.
pub data Reply : Type 0 where
  value : ℕ → Reply
  error : VfsError → Reply
  negative : (word : ℕ) → Reply

-- A u32 that is returned as an `int`: from 2 ^ 31 on it is negative, and the last five are the
-- error codes.
unfoldable pub int_reply : ℕ → Reply
int_reply n =
    if ltb n (2 ^ 31)
    then value n
    else if n == 2 ^ 32 - 1
    then error vfs_invalid
    else if n == 2 ^ 32 - 2
    then error vfs_not_found
    else if n == 2 ^ 32 - 3
    then error vfs_no_space
    else if n == 2 ^ 32 - 4
    then error vfs_io
    else if n == 2 ^ 32 - 5
    then error vfs_unsupported
    else negative n

-- A call with its reply and the state that it leaves; `none` for one that does not return.
abbrev pub Call : Type 0
Call = Vfs → Option (Reply × Vfs)

-- The reply of a call that changes nothing.
abbrev pub refuse : VfsError → Call
refuse e s = some (error e, s)

abbrev pub empty_file : OpenFile
empty_file = record {
  used = false;
  name = [];
  size = 0;
  offset = 0;
  first_cluster = 0;
  flags = 0;
  readable = false;
  writable = false;
}

unfoldable pub vfs_init : Disk → Vfs
vfs_init d = record { open_files = replicate max_open_files empty_file; disk = d }

-- `&open_files[handle]`.
abbrev pub file_at : Vfs → ℕ → OpenFile
file_at s h = get_or s.open_files h empty_file

abbrev pub set_file : Vfs → ℕ → OpenFile → Vfs
set_file s h f = record s { open_files = set s.open_files h f }

abbrev pub set_disk : Vfs → Disk → Vfs
set_disk s d = record s { disk = d }

unfoldable pub free_handle_from : ℕ → List OpenFile → Option ℕ
free_handle_from h [] = none
free_handle_from h (f ∷ fs) =
    let rest = free_handle_from (h + 1) fs in if f.used then rest else some h

unfoldable pub find_free_handle : Vfs → Option ℕ
unfolding free_handle_from
find_free_handle s = free_handle_from 0 s.open_files
