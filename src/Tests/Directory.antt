-- ===== src/Tests/Directory.antt =====
-- The theorems on directories and paths at the small volume.
use yoz_os.Base.{
  ℕ, ◌+◌, ◌<◌, ◌^◌, ◌≡◌, ◌∙◌, refl, sym, subst, arith, false, some, none, Option, [], ◌∷◌, length,
}
use yoz_os.Disk.{ata_read}
use yoz_os.Fat.Name.{name_to_83, to_upper}
use yoz_os.Fat.Entry.{is_skippable_entry, name_matches, bytes_match, is_directory}
use yoz_os.Fat.Dir.{DirRef, Slot, root_dir, dir_find_in_region, dir_find_in_ref}
use yoz_os.Fat.Dir.Find.{FindMeans, dir_find_in_region-means}
use yoz_os.Fat.Dir.Same.{IsEntry}
use yoz_os.Fat.Dir.Keep.{KeepsDirs-refl, region_start, region_count, found_inside}
use yoz_os.Fat.Table.{fat_set_entry}
use yoz_os.Fat.Table.Frame.{fat_set_entry-other}
use yoz_os.Fat.Path.{entered, enter_dir, resolve_parent_run, resolve_parent_dir}
use yoz_os.Fat.Path.Ends.{resolve_parent_dir-ends}
use yoz_os.Fat.Path.Dirs.{
  Reach, at_root, below, SameRegion, enter_slot, enter_dir-slot, resolve_parent_dir-same,
}
use yoz_os.Vfs.Flags.{resolve_simple_path, path_start, copy_path, skip_dots}
use yoz_os.Tests.Data.{volume, volume-IsVolume, disk, root_sector, name_a}

dir_find_in_region-means_example :
    FindMeans (name_to_83 name_a) disk 3 1 (dir_find_in_region 1 3 disk (name_to_83 name_a))
dir_find_in_region-means_example =
    dir_find_in_region-means 1 3 disk (name_to_83 name_a) (omega arith)

root_sector-IsEntry : IsEntry root_sector 0 (name_to_83 name_a)
unfolding is_skippable_entry name_matches bytes_match name_to_83 to_upper
root_sector-IsEntry = record { place = omega arith; counts = refl; named = refl }

eleven : length (name_to_83 name_a) ≡ 11
unfolding name_to_83 to_upper
eleven = refl

-- `/A/B` runs into the file A.
resolve_parent_dir-ends_example :
    resolve_parent_run volume disk (b'/' ∷ b'A' ∷ b'/' ∷ b'B' ∷ [])
    ≡ some (resolve_parent_dir volume disk (b'/' ∷ b'A' ∷ b'/' ∷ b'B' ∷ []))
resolve_parent_dir-ends_example =
    resolve_parent_dir-ends volume disk (b'/' ∷ b'A' ∷ b'/' ∷ b'B' ∷ [])

plain : (i : ℕ) → i < 16 → is_directory root_sector i ≡ false
unfolding is_directory
plain i q = ground arith

not_entered :
    (o : Option Slot)
    → ((s : Slot) → o ≡ some s → (s.lba ≡ 3) × (s.idx < 16))
    → (dir : DirRef) → (enter_slot volume disk o ≡ entered dir)
    → ⊥
unfolding enter_slot ata_read
not_entered none at dir e = cc
not_entered (some s) at dir e = let (l, q) = at s refl in let h = rw (l, plain s.idx q) at e in cc

pub only_root : (dir : DirRef) → Reach volume disk dir → dir ≡ root_dir
only_root _ at_root = refl
only_root _ (below {dir} {dir'} r name e) =
    let same = only_root dir r in
    let here : enter_dir volume disk root_dir name ≡ entered dir' =
      subst (λ x. enter_dir volume disk x name ≡ entered dir') same e in
    absurd (
      not_entered (dir_find_in_ref volume root_dir disk (name_to_83 name)) at dir'
        (sym (enter_dir-slot volume disk root_dir name) ∙ here))
  where
    at :
        (s : Slot)
        → dir_find_in_ref volume root_dir disk (name_to_83 name) ≡ some s
        → (s.lba ≡ 3) × (s.idx < 16)
    at s f =
        let (k, q, l, i) = found_inside volume root_dir disk (name_to_83 name) s (omega arith) f in
        (omega (arith, l), i)

small_root :
    (dir : DirRef)
    → Reach volume disk dir
    → region_start volume dir + region_count volume dir < 2 ^ 32
small_root dir r = rw (only_root dir r) (omega arith)

same_root :
    (dir : DirRef)
    → Reach volume disk dir
    → SameRegion volume disk (fat_set_entry volume disk 4 7) dir
same_root dir r = rw (only_root dir r) λ k q.
    let first : k ≡ 0 = omega arith in
    let other : ata_read (fat_set_entry volume disk 4 7) 3 ≡ ata_read disk 3 =
      fat_set_entry-other volume volume-IsVolume disk 4 7 3 (omega arith)
        (omega arith, omega arith) in
    rw (first, other) (KeepsDirs-refl (ata_read disk 3))

resolve_parent_dir-same_example :
    resolve_parent_dir volume (fat_set_entry volume disk 4 7) name_a
    ≡ resolve_parent_dir volume disk name_a
resolve_parent_dir-same_example =
    resolve_parent_dir-same volume disk (fat_set_entry volume disk 4 7) small_root same_root name_a

simple_a : resolve_simple_path (b'/' ∷ []) (b'.' ∷ b'/' ∷ b'A' ∷ []) ≡ some name_a
unfolding resolve_simple_path path_start copy_path skip_dots
simple_a = refl
