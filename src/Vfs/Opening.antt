-- ===== src/Vfs/Opening.antt =====
-- `vfs_open_at` keeps the table of fs/vfs.c as its invariant says.
use yoz_os.Base.{
  ℕ, ◌<◌, ◌≡◌, refl, inl, inr, has_flag, true, Bool-cases, Option, none, some, Option-cases, List,
  length,
}
use yoz_os.Fat.Outcome.{
  invalid, exists, not_found, no_space, too_big, not_empty, Outcome, ok, err, stuck,
}
use yoz_os.Fat.Volume.{Volume}
use yoz_os.Fat.Entry.{attr_dir}
use yoz_os.Fat.Read.{FileInfo, fat_stat_file}
use yoz_os.Fat.Create.{fat_create_file}
use yoz_os.Vfs.Flags.{o_create, o_trunc, vfs_flags_valid, resolve_simple_path}
use yoz_os.Vfs.Files.{Vfs, set_disk, find_free_handle}
use yoz_os.Vfs.Calls.{
  enter_file, stat_or_cleared, after_truncate, open_found, open_created, after_create, open_stat,
  vfs_open_at,
}
use yoz_os.Vfs.Invariant.{IsVfs, set_file-IsVfs, set_disk-IsVfs, resolve_simple_path-fits, Keeps}

module _ (v : Volume) where
  module _ (h : ℕ) (name : List ℕ) (flags : ℕ) (valid : vfs_flags_valid flags ≡ true)
      (fits : length name < 64) where
    enter_file-IsVfs :
        (info : FileInfo) (s : Vfs) → IsVfs s → IsVfs (enter_file v h name flags info s).1
    enter_file-IsVfs info s i =
        set_file-IsVfs s h _
          (λ u. record { valid = valid; reads = refl; writes = refl; fits = fits }) i

    after_truncate-Keeps :
        (s : Vfs) (o : Outcome (Unit {0})) → IsVfs s → Keeps (after_truncate v h name flags s o)
    unfolding after_truncate
    after_truncate-Keeps s stuck i = tt
    after_truncate-Keeps s (err e d) i = set_disk-IsVfs s d i
    after_truncate-Keeps s (ok x d) i =
        enter_file-IsVfs (stat_or_cleared v (fat_stat_file v name d)) (set_disk s d)
          (set_disk-IsVfs s d i)

    open_found-Keeps :
        (info : FileInfo) (s : Vfs) → IsVfs s → Keeps (open_found v h name flags info s)
    unfolding open_found
    open_found-Keeps info s i = elim (Bool-cases (has_flag info.attr attr_dir)) [
      | inl t ↦ rw t i
      | inr t ↦ elim (Bool-cases (has_flag flags o_trunc)) [
        | inl u ↦ rw (t, u) (after_truncate-Keeps s _ i)
        | inr u ↦ rw (t, u) (enter_file-IsVfs info s i)
      ]
    ]

    open_created-Keeps :
        (s : Vfs) (o : Option FileInfo) → IsVfs s → Keeps (open_created v h name flags s o)
    unfolding open_created
    open_created-Keeps s none i = i
    open_created-Keeps s (some info) i = open_found-Keeps info s i

    after_create-Keeps :
        (s : Vfs) (o : Outcome (Unit {0})) → IsVfs s → Keeps (after_create v h name flags s o)
    unfolding after_create
    after_create-Keeps s stuck i = tt
    after_create-Keeps s (ok x d) i =
        open_created-Keeps (set_disk s d) (fat_stat_file v name d) (set_disk-IsVfs s d i)
    after_create-Keeps s (err exists d) i =
        open_created-Keeps (set_disk s d) (fat_stat_file v name d) (set_disk-IsVfs s d i)
    after_create-Keeps s (err invalid d) i = set_disk-IsVfs s d i
    after_create-Keeps s (err not_found d) i = set_disk-IsVfs s d i
    after_create-Keeps s (err no_space d) i = set_disk-IsVfs s d i
    after_create-Keeps s (err too_big d) i = set_disk-IsVfs s d i
    after_create-Keeps s (err not_empty d) i = set_disk-IsVfs s d i

    open_stat-Keeps :
        (s : Vfs) (o : Option FileInfo) → IsVfs s → Keeps (open_stat v h name flags s o)
    unfolding open_stat
    open_stat-Keeps s (some info) i = open_found-Keeps info s i
    open_stat-Keeps s none i = elim (Bool-cases (has_flag flags o_create)) [
      | inl t ↦ rw t (after_create-Keeps s (fat_create_file v name s.disk) i)
      | inr t ↦ rw t i
    ]

  pub vfs_open_at-Keeps :
      (cwd path : List ℕ) (flags : ℕ) (s : Vfs) → IsVfs s → Keeps (vfs_open_at v cwd path flags s)
  unfolding vfs_open_at
  vfs_open_at-Keeps cwd path flags s i = elim (Bool-cases (vfs_flags_valid flags)) [
    | inr t ↦ rw t i
    | inl t ↦ elim (Option-cases (resolve_simple_path cwd path)) [
      | inl n ↦ rw (t, n) i
      | inr (name, n) ↦ elim (Option-cases (find_free_handle s)) [
        | inl m ↦ rw (t, n, m) i
        | inr (h, m) ↦
            rw (t, n, m)
              (open_stat-Keeps h name flags t (resolve_simple_path-fits cwd path name n) s
                (fat_stat_file v name s.disk) i)
      ]
    ]
  ]
