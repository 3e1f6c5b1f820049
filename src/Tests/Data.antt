-- ===== src/Tests/Data.antt =====
-- A small volume, and a disk that holds the file A of 600 bytes in the clusters 2 and 3.
use yoz_os.Base.{
  ℕ, ◌/◌, ◌≡◌, refl, arith, ◌==◌, ◌||◌, leb, ltb, ◌&&◌, if◌then◌else◌, some, List, [], ◌∷◌,
}
use yoz_os.Disk.{Disk, Buffer, ata_read}
use yoz_os.Fat.Volume.{Volume}
use yoz_os.Fat.Dir.{Slot}
use yoz_os.Fat.Volume.Bounds.{IsVolume}
use yoz_os.Fat.Read.{FileInfo, fat_stat_file}
use yoz_os.Fat.Path.{resolve_parent_dir, resolve_parent_run, path_next_component, resolve_loop}
use yoz_os.Fat.Name.{name_is_valid_83, name_loop, is_valid_name_char, name_to_83, to_upper}
use yoz_os.Fat.Dir.{dir_find_in_ref, dir_find_in_region, find_in_sector}
use yoz_os.Fat.Entry.{is_end_entry, is_skippable_entry, name_matches}
use yoz_os.Fat.Table.{fat_entry}
use yoz_os.Fat.Table.Release.{IsChain}
use yoz_os.Fat.Read.Loop.{Stores}

abbrev pub volume : Volume
volume = record {
  fat_start = 1;
  root_start = 3;
  root_sectors = 1;
  data_start = 4;
  sectors_per_fat = 1;
  sec_per_clus = 1;
  num_fats = 2;
}

pub volume-IsVolume : IsVolume volume
volume-IsVolume = record {
  fat_start_lt = omega arith;
  copies = omega arith;
  num_fats_lt = omega arith;
  sectors_per_fat_le = omega arith;
  sectors = omega arith;
  sec_per_clus_lt = omega arith;
  root_after_fats = omega arith;
  root_sectors_lt = omega arith;
  data_after_root = omega arith;
}

abbrev pub table_sector : Buffer
table_sector i = if i == 4 then 3 else if i == 6 || i == 7 then 255 else 0

abbrev pub root_sector : Buffer
root_sector i =
    if i == 0
    then b'A'
    else if leb 1 i && ltb i 11
    then b' '
    else if i == 11
    then 0x20
    else if i == 26
    then 2
    else if i == 28
    then 88
    else if i == 29
    then 2
    else 0

abbrev pub counting : Buffer
counting i = i

abbrev pub disk : Disk
disk l = if l == 1 || l == 2 then table_sector else if l == 3 then root_sector else counting

abbrev pub name_a : List ℕ
name_a = b'A' ∷ []

abbrev pub info_a : FileInfo
info_a = record { size = 600; first_cluster = 2; attr = 0x20 }

pub stat_a : fat_stat_file volume name_a disk ≡ some info_a
unfolding fat_stat_file resolve_parent_dir resolve_parent_run path_next_component name_is_valid_83
    name_loop is_valid_name_char resolve_loop dir_find_in_ref dir_find_in_region find_in_sector
    is_end_entry ata_read is_skippable_entry name_matches name_to_83 to_upper
stat_a = refl

abbrev pub clusters_a : List ℕ
clusters_a = 2 ∷ 3 ∷ []

pub clusters_a-IsChain : IsChain volume disk 2 clusters_a
unfolding fat_entry ata_read
clusters_a-IsChain = (
  refl,
  omega arith,
  omega arith,
  omega arith,
  (refl, omega arith, omega arith, omega arith, refl),
)

pub clusters_a-Stores : Stores volume disk clusters_a 0 600 counting
unfolding ata_read
clusters_a-Stores = (
  λ j q r. let first : j / 512 ≡ 0 = omega arith in rw first (omega arith),
  (λ j q r. let first : j / 512 ≡ 0 = omega arith in rw first (omega arith), tt),
)

-- The entry of the file.
abbrev pub slot_a : Slot
slot_a = record { lba = 3; idx = 0 }
