-- ===== src/Fat/Create.antt =====
-- The operations of fs/fat.c on directory entries: create, mkdir, delete, rename and rmdir.
use yoz_os.Base.{
  ℕ, zero, suc, ◌*◌, ◌%◌, ◌^◌, Bool, not, List, [], ◌∷◌, ◌==◌, if◌then◌else◌, is_some,
}
use yoz_os.Disk.{Disk, Buffer, put8, add32, memory_copy, memory_set, ata_read, ata_write}
use yoz_os.Fat.Outcome.{
  invalid, exists, not_found, no_space, ok, err, Cmd, pure, reads, writes, or_fail, fail_if, ◌>>=◌,
  ◌>>◌,
}
use yoz_os.Fat.Volume.{Volume, last_mark, cluster_lba}
use yoz_os.Fat.Name.{name_to_83}
use yoz_os.Fat.Entry.{
  entry_first_cluster, attr_dir, is_directory, dot_name, dotdot_name, name_bytes,
}
use yoz_os.Fat.Table.{fat_set_entry, fat_find_free, free_chain}
use yoz_os.Fat.Dir.{
  DirRef, same_dir_ref, Slot, dir_find_in_ref, find_free_slot_in_ref, dir_write_entry,
  dir_cluster_is_empty,
}
use yoz_os.Fat.Path.{resolved, failed, resolve_parent_dir}

-- The deleted mark of an entry's first byte.
abbrev pub deleted_mark : ℕ
deleted_mark = 0xe5

-- `memory_set(empty, 0, 512)`.
abbrev pub empty_sector : Buffer
empty_sector = memory_set (λ _. 0) 0 0 512

-- The sectors `lba`, `lba + 1`, … of a new directory, `rounds` of them.
unfoldable pub clear_sectors : (rounds lba : ℕ) → Disk → Disk
clear_sectors zero lba d = d
clear_sectors (suc rounds) lba d = clear_sectors rounds (add32 lba 1) (ata_write d lba empty_sector)

-- `e[idx].name[0] = 0xE5` and the write of the sector.
unfoldable pub mark_deleted : Slot → Buffer → Disk → Disk
mark_deleted s e d = ata_write d s.lba (put8 e (32 * s.idx) deleted_mark)

module _ (v : Volume) where
  -- The parent directory and the last component of a path, or the error.
  abbrev pub resolve : List ℕ → Cmd (DirRef × List ℕ)
  resolve path d = elim (resolve_parent_dir v d path) [
    | resolved parent leaf ↦ ok (parent, leaf) d
    | failed e ↦ err e d
  ]

  -- The slot of an entry that the directory has, or FAT_ERR_NOT_FOUND.
  abbrev pub find_entry : DirRef → List ℕ → Cmd Slot
  find_entry parent n83 = do
    found ← reads (λ d. dir_find_in_ref v parent d n83)
    or_fail found not_found

  -- A free slot for a name that the directory does not have.
  abbrev pub find_new_slot : DirRef → List ℕ → Cmd Slot
  find_new_slot parent n83 = do
    found ← reads (λ d. dir_find_in_ref v parent d n83)
    fail_if (is_some found) exists
    free ← reads (find_free_slot_in_ref v parent)
    or_fail free no_space

  unfoldable pub fat_create_file : List ℕ → Cmd (Unit {0})
  fat_create_file name = do
    (parent, leaf) ← resolve name
    let n83 = name_to_83 leaf
    s ← find_new_slot parent n83
    writes (dir_write_entry s n83 0 0 0x20)

  -- `u16 clus = fat_find_free()`, and FAT_ERR_NO_SPACE at 0.
  abbrev pub alloc_cluster : Cmd ℕ
  alloc_cluster = do
    clus ← reads (λ d. fat_find_free v d % 2 ^ 16)
    fail_if (clus == 0) no_space
    pure clus

  unfoldable pub fat_mkdir : List ℕ → Cmd (Unit {0})
  unfolding clear_sectors
  fat_mkdir name = do
    (parent, leaf) ← resolve name
    let n83 = name_to_83 leaf
    s ← find_new_slot parent n83
    clus ← alloc_cluster
    writes (λ d. fat_set_entry v d clus last_mark)
    let data_lba = cluster_lba v clus
    writes (clear_sectors v.sec_per_clus data_lba)
    let parent_cluster = if parent.is_root then 0 else parent.cluster
    writes (dir_write_entry (record { lba = data_lba; idx = 0 }) dot_name clus 0 attr_dir)
    writes
        (dir_write_entry (record { lba = data_lba; idx = 1 }) dotdot_name parent_cluster 0 attr_dir)
    writes (dir_write_entry s n83 clus 0 attr_dir)

  unfoldable pub fat_delete_file : List ℕ → Cmd (Unit {0})
  unfolding mark_deleted
  fat_delete_file path = do
    (parent, leaf) ← resolve path
    s ← find_entry parent (name_to_83 leaf)
    e ← reads (λ d. ata_read d s.lba)
    fail_if (is_directory e s.idx) invalid
    writes (λ d. free_chain v d (entry_first_cluster e s.idx))
    writes (mark_deleted s e)

  unfoldable pub fat_rename_file : (old_path new_path : List ℕ) → Cmd (Unit {0})
  fat_rename_file old_path new_path = do
    (old_parent, old_leaf) ← resolve old_path
    (new_parent, new_leaf) ← resolve new_path
    fail_if (not (same_dir_ref old_parent new_parent)) invalid
    let new83 = name_to_83 new_leaf
    s ← find_entry old_parent (name_to_83 old_leaf)
    taken ← reads (λ d. dir_find_in_ref v old_parent d new83)
    fail_if (is_some taken) exists
    e ← reads (λ d. ata_read d s.lba)
    fail_if (is_directory e s.idx) invalid
    writes (λ d. ata_write d s.lba (memory_copy (name_bytes new83) 0 e (32 * s.idx) 11))

  -- `leaf[0] == '.'`.
  abbrev starts_with_dot : List ℕ → Bool
  starts_with_dot [] = Bool.false
  starts_with_dot (c ∷ cs) = c == b'.'

  unfoldable pub fat_rmdir : List ℕ → Cmd (Unit {0})
  unfolding mark_deleted
  fat_rmdir path = do
    (parent, leaf) ← resolve path
    fail_if (starts_with_dot leaf) invalid
    s ← find_entry parent (name_to_83 leaf)
    e ← reads (λ d. ata_read d s.lba)
    fail_if (not (is_directory e s.idx)) invalid
    let clus = entry_first_cluster e s.idx
    empty ← reads (dir_cluster_is_empty v clus)
    fail_if (not empty) no_space
    writes (λ d. free_chain v d clus)
    writes (mark_deleted s e)
