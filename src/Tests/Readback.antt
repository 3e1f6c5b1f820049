-- ===== src/Tests/Readback.antt =====
-- The write of the file A at the small volume, and its read.
use yoz_os.Base.{ℕ, ◌≡◌, ◌<◌, ◌⊎◌, refl, arith, inl, some, false}
use yoz_os.Disk.{Disk, Buffer, ata_read}
use yoz_os.Fat.Outcome.{ok, err, no_space}
use yoz_os.Fat.Name.{name_to_83, to_upper, name_is_valid_83, name_loop, is_valid_name_char}
use yoz_os.Fat.Entry.{is_directory, is_end_entry, is_skippable_entry, name_matches}
use yoz_os.Fat.Table.{count_free_clusters}
use yoz_os.Fat.Dir.{DirRef, root_dir, dir_find_in_ref, dir_find_in_region, find_in_sector}
use yoz_os.Fat.Path.{
  resolved, resolve_parent_dir, resolve_parent_run, path_next_component, resolve_loop,
}
use yoz_os.Fat.Path.Dirs.{Reach}
use yoz_os.Fat.Read.{ReadResult, fat_stat_file, fat_read_file_at}
use yoz_os.Fat.Read.Content.{Reads}
use yoz_os.Fat.Write.{clusters_for, fat_write_file}
use yoz_os.Fat.Write.Alloc.{SameTable}
use yoz_os.Fat.Write.Readback.{IsPlaced, fat_write_file-fat_read_file_at}
use yoz_os.Tests.Data.{
  volume, volume-IsVolume, disk, name_a, slot_a, clusters_a, clusters_a-IsChain, counting,
}
use yoz_os.Tests.Directory.{only_root}
use yoz_os.Tests.Content.{used_a}

path_a : resolve_parent_dir volume disk name_a ≡ resolved root_dir name_a
unfolding resolve_parent_dir resolve_parent_run path_next_component resolve_loop name_is_valid_83
    name_loop is_valid_name_char
path_a = refl

found_a : dir_find_in_ref volume root_dir disk (name_to_83 name_a) ≡ some slot_a
unfolding dir_find_in_ref dir_find_in_region find_in_sector is_end_entry is_skippable_entry
    name_matches ata_read name_to_83 to_upper
found_a = refl

plain_a : is_directory (ata_read disk 3) 0 ≡ false
unfolding is_directory ata_read
plain_a = refl

disk-IsPlaced : (dir : DirRef) → Reach volume disk dir → IsPlaced volume volume-IsVolume disk dir
disk-IsPlaced dir r = rw (only_root dir r) (inl refl)

fat_write_file-fat_read_file_at_example :
    ((d' : Disk) × (first : ℕ) × (fat_write_file volume name_a (some counting) 700 disk ≡ ok tt d')
      × (fat_stat_file volume name_a d'
          ≡ some (record { size = 700; first_cluster = first; attr = 0x20 }))
      × ((offset count : ℕ) (dst : Buffer)
          → (r : ReadResult) × (fat_read_file_at volume name_a offset (some dst) count d' ≡ some r)
            × Reads 700 offset count counting dst r))
    ⊎ ((d' : Disk) × (fat_write_file volume name_a (some counting) 700 disk ≡ err no_space d')
        × (count_free_clusters volume disk < clusters_for volume 700)
        × SameTable volume disk d')
unfolding ata_read
fat_write_file-fat_read_file_at_example =
    fat_write_file-fat_read_file_at volume volume-IsVolume name_a name_a root_dir slot_a counting
      700 disk path_a found_a plain_a (omega arith) (omega arith) clusters_a disk-IsPlaced
      clusters_a-IsChain used_a
