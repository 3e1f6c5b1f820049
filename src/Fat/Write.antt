-- ===== src/Fat/Write.antt =====
-- `fat_write_file` of fs/fat.c.
pub mod Alloc
pub mod Link
pub mod Content
pub mod Sectors
pub mod Place
pub mod Store
pub mod Readback
use yoz_os.Base.{
  ℕ, zero, suc, ◌+◌, ◌-◌, ◌*◌, ◌/◌, ◌%◌, ◌^◌, ◌&&◌, ◌||◌, Bool, not, Option, none, some, List, [],
  ◌∷◌, ◌++◌, ltb, leb, ◌==◌, if◌then◌else◌, is_some, length,
}
use yoz_os.Disk.{Disk, Buffer, get16, put32, add32, memory_copy, memory_set, ata_read, ata_write}
use yoz_os.Fat.Outcome.{
  Error, invalid, no_space, too_big, Outcome, ok, err, stuck, Cmd, pure, fail, reads, writes,
  or_fail, or_stuck, fail_if, ◌>>=◌, ◌>>◌,
}
use yoz_os.Fat.Volume.{
  Volume, max_file_bytes, max_chain_clusters, end_of_chain, last_mark, cluster_lba, cluster_bytes,
}
use yoz_os.Fat.Name.{name_to_83}
use yoz_os.Fat.Entry.{entry_first_cluster, entry_size, set_entry_size, is_directory}
use yoz_os.Fat.Table.{
  fat_entry, fat_set_entry, fat_find_free, count_free_clusters, free_chain, last_cluster,
}
use yoz_os.Fat.Dir.{DirRef, Slot, dir_write_entry}
use yoz_os.Fat.Read.{block}
use yoz_os.Fat.Create.{resolve, find_entry, alloc_cluster}

-- `(len + cluster_bytes - 1) / cluster_bytes`, in u32.
abbrev pub clusters_for : Volume → ℕ → ℕ
clusters_for v len = ((len + cluster_bytes v + 2 ^ 32 - 1) % 2 ^ 32) / cluster_bytes v

-- `len < 512 ? len : 512`, for any limit.
abbrev pub at_most : ℕ → ℕ → ℕ
at_most limit len = if ltb len limit then len else limit

-- The loop of `fat_write_file` over the sectors of a cluster: the offset reached, and the disk.
unfoldable pub write_sectors : (rounds lba : ℕ) → Buffer → (len offset : ℕ) → Disk → ℕ × Disk
write_sectors zero lba src len offset d = (offset, d)
write_sectors (suc rounds) lba src len offset d =
    let chunk = at_most 512 (len - offset) in
    let buff = memory_copy src offset (memory_set (λ _. 0) 0 0 512) 0 chunk in
    let rest = write_sectors rounds (add32 lba 1) src len (offset + chunk) (ata_write d lba buff) in
    if offset == len then (offset, d) else rest

module _ (v : Volume) where
  unfoldable pub release : List ℕ → Disk → Disk
  release [] d = d
  release (c ∷ cs) d = release cs (fat_set_entry v d c 0)

  -- The allocation loop of `fat_write_file`, `rounds` clusters behind those of `chain`.
  unfoldable pub alloc_chain : (rounds : ℕ) → (chain : List ℕ) → Cmd (List ℕ)
  unfolding release
  alloc_chain zero chain d = ok chain d
  alloc_chain (suc rounds) chain d =
      let clus = fat_find_free v d % 2 ^ 16 in
      let rest = alloc_chain rounds (chain ++ clus ∷ []) (fat_set_entry v d clus last_mark) in
      if clus == 0 then err no_space (release chain d) else rest

  unfoldable pub link_chain : List ℕ → Disk → Disk
  link_chain [] d = d
  link_chain (c ∷ []) d = fat_set_entry v d c last_mark
  link_chain (c ∷ next ∷ cs) d = link_chain (next ∷ cs) (fat_set_entry v d c next)

  unfoldable pub write_clusters : List ℕ → Buffer → (len offset : ℕ) → Disk → Disk
  write_clusters [] src len offset d = d
  write_clusters (c ∷ cs) src len offset d =
      let (offset', d') = write_sectors v.sec_per_clus (cluster_lba v c) src len offset d in
      write_clusters cs src len offset' d'

  abbrev pub head_or_zero : List ℕ → ℕ
  head_or_zero [] = 0
  head_or_zero (c ∷ cs) = c

  -- The part of `fat_write_file` behind its checks, for a length that is not 0.
  unfoldable pub store_file : Slot → List ℕ → (old_clus : ℕ) → Buffer → ℕ → Cmd (Unit {0})
  unfolding alloc_chain link_chain write_clusters
  store_file s n83 old_clus src len d =
      if cluster_bytes v == 0
      then stuck
      else (do
        let needed = clusters_for v len
        fail_if (ltb max_chain_clusters needed) too_big
        chain ← alloc_chain needed []
        writes (link_chain chain)
        writes (write_clusters chain src len 0)
        writes (λ d. free_chain v d old_clus)
        writes (dir_write_entry s n83 (head_or_zero chain) len 0x20))
          d

  unfoldable pub fat_write_file : List ℕ → Option Buffer → ℕ → Cmd (Unit {0})
  unfolding store_file
  fat_write_file name src len = do
    fail_if (ltb 0 len && not (is_some src)) invalid
    (parent, leaf) ← resolve v name
    let n83 = name_to_83 leaf
    s ← find_entry v parent n83
    fail_if (ltb max_file_bytes len) too_big
    e ← reads (λ d. ata_read d s.lba)
    fail_if (is_directory e s.idx) invalid
    let old_clus = entry_first_cluster e s.idx
    let clear = do writes (λ d. free_chain v d old_clus); writes (dir_write_entry s n83 0 0 0x20)
    if len == 0 then clear else store_file s n83 old_clus (block src) len
