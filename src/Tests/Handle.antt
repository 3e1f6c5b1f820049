-- ===== src/Tests/Handle.antt =====
-- The theorems on the open files at the small volume.
use yoz_os.Base.{ℕ, ◌+◌, ◌<◌, ◌≤◌, ◌^◌, ◌≡◌, ◌⊎◌, refl, arith, true, some, List, [], ◌∷◌, replicate}
use yoz_os.Disk.{Buffer}
use yoz_os.Vfs.Flags.{
  vfs_flags_valid, flags_readable, flags_writable, resolve_simple_path, path_start, copy_path,
  skip_dots,
}
use yoz_os.Vfs.Files.{
  OpenFile, Vfs, value, error, int_reply, vfs_invalid, empty_file, vfs_init, find_free_handle,
  free_handle_from,
}
use yoz_os.Vfs.Calls.{vfs_open_at, open_stat, open_found, vfs_read, vfs_lseek}
use yoz_os.Vfs.Invariant.{IsVfs}
use yoz_os.Vfs.Reachable.{Reachable, starts, opens, Reachable-IsVfs}
use yoz_os.Vfs.Handles.{Opens, vfs_open_at-Opens}
use yoz_os.Vfs.Access.{ReadsOn, vfs_read-created, vfs_read-ReadsOn, vfs_lseek-cases, SeeksTo}
use yoz_os.Tests.Data.{
  volume, volume-IsVolume, disk, name_a, info_a, stat_a, clusters_a, clusters_a-IsChain,
  clusters_a-Stores, counting,
}

abbrev file_a : (flags : ℕ) → OpenFile
file_a flags = record {
  used = true;
  name = name_a;
  size = 600;
  offset = 0;
  first_cluster = 2;
  flags = flags;
  readable = flags_readable flags;
  writable = flags_writable flags;
}

-- The state after the file A was opened at the handle 0.
abbrev opened_a : (flags : ℕ) → Vfs
opened_a flags = record { open_files = file_a flags ∷ replicate 15 empty_file; disk = disk }

abbrev root : List ℕ
root = b'/' ∷ []

opens_a : vfs_open_at volume root name_a 0 (vfs_init disk) ≡ some (value 0, opened_a 0)
unfolding vfs_open_at vfs_flags_valid resolve_simple_path path_start copy_path skip_dots
    find_free_handle free_handle_from vfs_init open_stat open_found
opens_a = rw stat_a refl

opens_a_create : vfs_open_at volume root name_a 4 (vfs_init disk) ≡ some (value 0, opened_a 4)
unfolding vfs_open_at vfs_flags_valid resolve_simple_path path_start copy_path skip_dots
    find_free_handle free_handle_from vfs_init open_stat open_found
opens_a_create = rw stat_a refl

reachable_a : Reachable volume disk (opened_a 0)
reachable_a = opens starts root name_a 0 (value 0) opens_a

reachable_a_create : Reachable volume disk (opened_a 4)
reachable_a_create = opens starts root name_a 4 (value 0) opens_a_create

Reachable-IsVfs_example : IsVfs (opened_a 0)
Reachable-IsVfs_example = Reachable-IsVfs volume disk (opened_a 0) reachable_a

vfs_open_at-Opens_example : Opens (vfs_init disk) (vfs_open_at volume root name_a 0 (vfs_init disk))
vfs_open_at-Opens_example = vfs_open_at-Opens volume root name_a 0 (vfs_init disk)

vfs_read-created_example :
    vfs_read volume 0 (some counting) 5 (opened_a 4)
    ≡ some (error vfs_invalid, counting, opened_a 4)
vfs_read-created_example =
    vfs_read-created volume disk (opened_a 4) 0 (some counting) 5 reachable_a_create refl

readable_a : flags_readable 0 ≡ true
unfolding flags_readable
readable_a = refl

vfs_read-ReadsOn_example :
    (n : ℕ) × (b : Buffer) × (s' : Vfs) × (vfs_read volume 0 (some (λ _. 0)) 40 (opened_a 0)
      ≡ some (int_reply n, b, s'))
    × ReadsOn volume (opened_a 0) 0 40 counting (λ _. 0) b s' n
vfs_read-ReadsOn_example =
    vfs_read-ReadsOn volume volume-IsVolume (opened_a 0) 0 info_a clusters_a counting (λ _. 0) 40
      (Reachable-IsVfs volume disk (opened_a 0) reachable_a) (omega arith) refl readable_a stat_a
      refl refl (omega arith) clusters_a-IsChain (omega arith) clusters_a-Stores

vfs_lseek-cases_example :
    ((600 + 4 < 2 ^ 32)
      × SeeksTo volume
          (opened_a 0)
          0
          604
          (vfs_lseek volume 0 4 2 (opened_a 0)).0
          (vfs_lseek volume 0 4 2 (opened_a 0)).1)
    ⊎ ((2 ^ 32 ≤ 600 + 4) × (vfs_lseek volume 0 4 2 (opened_a 0) ≡ (error vfs_invalid, opened_a 0)))
vfs_lseek-cases_example =
    vfs_lseek-cases volume (opened_a 0) 0 4 2 600 refl (omega arith) refl refl (omega arith)
      (omega arith)
