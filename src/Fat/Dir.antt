-- ===== src/Fat/Dir.antt =====
-- Directories: the search for a name and for a free slot, and the write of an entry.
pub mod Fill
pub mod Find
pub mod Same
pub mod Keep
use yoz_os.Base.{
  ℕ, zero, suc, ◌+◌, ◌*◌, Bool, true, false, not, ◌&&◌, ◌||◌, Option, none, some, List, [], ◌∷◌,
  ltb, ◌==◌, if◌then◌else◌,
}
use yoz_os.Disk.{
  Disk, Buffer, put8, put16, put32, memory_copy, memory_set, add32, ata_read, ata_write,
}
use yoz_os.Fat.Volume.{Volume, cluster_lba}
use yoz_os.Fat.Entry.{
  entry_name, is_end_entry, is_skippable_entry, is_dot_entry, is_dotdot_entry, name_matches,
  name_bytes,
}

-- `fat_dir_ref_t`.
pub record DirRef : Type 0 where
  pub is_root : Bool
  pub cluster : ℕ

abbrev pub root_dir : DirRef
root_dir = record { is_root = true; cluster = 0 }

unfoldable pub same_dir_ref : DirRef → DirRef → Bool
same_dir_ref a b = (if a.is_root then b.is_root else not b.is_root) && (a.cluster == b.cluster)

-- Where an entry lies: its sector and its index there.
pub record Slot : Type 0 where
  pub lba : ℕ
  pub idx : ℕ

-- What the search sees of one sector.
pub data Scan : Type 0 where
  ended absent : Scan
  found : ℕ → Scan

-- The entries `i`, `i + 1`, … of a sector, `rounds` of them.
unfoldable pub find_in_sector : (rounds i : ℕ) → Buffer → List ℕ → Scan
find_in_sector zero i e name83 = absent
find_in_sector (suc rounds) i e name83 =
    let rest = find_in_sector rounds (i + 1) e name83 in
    if is_end_entry e i
    then ended
    else if is_skippable_entry e i
    then rest
    else if name_matches e i name83
    then found i
    else rest

unfoldable pub dir_find_in_region : (sector_count start_lba : ℕ) → Disk → List ℕ → Option Slot
dir_find_in_region zero lba d name83 = none
dir_find_in_region (suc count) lba d name83 =
    let rest = dir_find_in_region count (add32 lba 1) d name83 in
    elim (find_in_sector 16 0 (ata_read d lba) name83) [
      | ended ↦ none
      | absent ↦ rest
      | found i ↦ some (record { lba = lba; idx = i })
    ]

unfoldable pub free_in_sector : (rounds i : ℕ) → Buffer → Option ℕ
free_in_sector zero i e = none
free_in_sector (suc rounds) i e =
    let rest = free_in_sector rounds (i + 1) e in
    let first = entry_name e i 0 in if (first == 0x00) || (first == 0xe5) then some i else rest

unfoldable pub find_free_slot_in_region : (sector_count start_lba : ℕ) → Disk → Option Slot
find_free_slot_in_region zero lba d = none
find_free_slot_in_region (suc count) lba d =
    let rest = find_free_slot_in_region count (add32 lba 1) d in
    elim (free_in_sector 16 0 (ata_read d lba)) [
      | none ↦ rest
      | some i ↦ some (record { lba = lba; idx = i })
    ]

-- The fields of the entry `i`, after all 32 bytes are set to 0.
unfoldable pub fill_entry : Buffer → ℕ → List ℕ → (first_cluster size attr : ℕ) → Buffer
fill_entry e i name83 first_cluster size attr =
    let cleared = memory_set e (32 * i) 0 32 in
    let named = memory_copy (name_bytes name83) 0 cleared (32 * i) 11 in
    let with_attr = put8 named (32 * i + 0x0b) attr in
    let with_cluster = put16 with_attr (32 * i + 0x1a) first_cluster in
    put32 with_cluster (32 * i + 0x1c) size

unfoldable pub dir_write_entry : Slot → List ℕ → (first_cluster size attr : ℕ) → Disk → Disk
dir_write_entry s name83 first_cluster size attr d =
    ata_write d s.lba (fill_entry (ata_read d s.lba) s.idx name83 first_cluster size attr)

-- What `dir_cluster_is_empty` sees of one sector: `found` an entry that counts.
unfoldable pub occupied_in_sector : (rounds i : ℕ) → Buffer → Scan
occupied_in_sector zero i e = absent
occupied_in_sector (suc rounds) i e =
    let rest = occupied_in_sector rounds (i + 1) e in
    if is_end_entry e i
    then ended
    else if is_skippable_entry e i
    then rest
    else if is_dot_entry e i || is_dotdot_entry e i
    then rest
    else found i

unfoldable pub region_is_empty : (sector_count start_lba : ℕ) → Disk → Bool
region_is_empty zero lba d = true
region_is_empty (suc count) lba d =
    let rest = region_is_empty count (add32 lba 1) d in
    elim (occupied_in_sector 16 0 (ata_read d lba)) [
      | ended ↦ true
      | absent ↦ rest
      | found i ↦ false
    ]

module _ (v : Volume) where
  unfoldable pub dir_find : Disk → List ℕ → Option Slot
  dir_find d name83 = dir_find_in_region v.root_sectors v.root_start d name83

  unfoldable pub dir_find_in_cluster : ℕ → Disk → List ℕ → Option Slot
  dir_find_in_cluster cluster d name83 =
      dir_find_in_region v.sec_per_clus (cluster_lba v cluster) d name83

  unfoldable pub dir_find_in_ref : DirRef → Disk → List ℕ → Option Slot
  unfolding dir_find dir_find_in_cluster
  dir_find_in_ref dir d name83 =
      if dir.is_root then dir_find d name83 else dir_find_in_cluster dir.cluster d name83

  unfoldable pub find_dir_free_slot : Disk → Option Slot
  find_dir_free_slot d = find_free_slot_in_region v.root_sectors v.root_start d

  unfoldable pub find_free_slot_in_cluster : ℕ → Disk → Option Slot
  find_free_slot_in_cluster cluster d =
      find_free_slot_in_region v.sec_per_clus (cluster_lba v cluster) d

  unfoldable pub find_free_slot_in_ref : DirRef → Disk → Option Slot
  unfolding find_dir_free_slot find_free_slot_in_cluster
  find_free_slot_in_ref dir d =
      if dir.is_root then find_dir_free_slot d else find_free_slot_in_cluster dir.cluster d

  unfoldable pub dir_cluster_is_empty : ℕ → Disk → Bool
  dir_cluster_is_empty cluster d =
      if ltb cluster 2 then false else region_is_empty v.sec_per_clus (cluster_lba v cluster) d
