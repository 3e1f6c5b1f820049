-- ===== src/Fat/Patch.antt =====
-- `fat_write_file_at` of fs/fat.c.
use yoz_os.Base.{
  ℕ, zero, suc, ◌+◌, ◌-◌, ◌/◌, ◌%◌, ◌^◌, ◌&&◌, ◌||◌, not, Option, none, some, List, ltb, leb, ◌==◌,
  if◌then◌else◌, is_some,
}
use yoz_os.Disk.{Disk, Buffer, add32, memory_copy, ata_read, ata_write}
use yoz_os.Fat.Outcome.{
  invalid, no_space, too_big, Outcome, ok, err, stuck, Cmd, pure, reads, writes, or_fail, or_stuck,
  fail_if, ◌>>=◌, ◌>>◌,
}
use yoz_os.Fat.Volume.{Volume, max_file_bytes, end_of_chain, last_mark, cluster_lba, cluster_bytes}
use yoz_os.Fat.Name.{name_to_83}
use yoz_os.Fat.Entry.{entry_first_cluster, entry_size, set_entry_size, is_directory}
use yoz_os.Fat.Table.{fat_entry, fat_set_entry, fat_find_free, count_free_clusters, last_cluster}
use yoz_os.Fat.Dir.{Slot}
use yoz_os.Fat.Read.{block}
use yoz_os.Fat.Create.{resolve, find_entry}
use yoz_os.Fat.Write.{clusters_for, at_most, fat_write_file}

-- The variables of the loops that write behind an offset.
pub record Writer : Type 0 where
  pub byte_in_sector : ℕ
  pub remaining : ℕ
  pub src_offset : ℕ
  pub disk : Disk

-- One sector that keeps its other bytes.
unfoldable pub patch_sector : Buffer → ℕ → Writer → Writer
patch_sector src lba w =
    let chunk = at_most (512 - w.byte_in_sector) w.remaining in
    let sector = memory_copy src w.src_offset (ata_read w.disk lba) w.byte_in_sector chunk in
    record {
      byte_in_sector = 0;
      remaining = w.remaining - chunk;
      src_offset = w.src_offset + chunk;
      disk = ata_write w.disk lba sector;
    }

-- The sectors `lba`, `lba + 1`, … while bytes remain, `rounds` at most.
unfoldable pub each_sector : (ℕ → Writer → Writer) → (rounds lba : ℕ) → Writer → Writer
each_sector put zero lba w = w
each_sector put (suc rounds) lba w =
    let rest = each_sector put rounds (add32 lba 1) (put lba w) in
    if ltb 0 w.remaining then rest else w

module _ (v : Volume) where
  -- `rounds` new clusters behind `last`: the new last one.
  unfoldable pub extend_chain : (rounds last : ℕ) → Cmd ℕ
  extend_chain zero last d = ok last d
  extend_chain (suc rounds) last d =
      let clus = fat_find_free v d % 2 ^ 16 in
      let d' = fat_set_entry v (fat_set_entry v d last clus) clus last_mark in
      let rest = extend_chain rounds clus d' in if clus == 0 then err no_space d else rest

  -- The cluster `rounds` links behind `cluster`.
  unfoldable pub walk_chain : (rounds cluster : ℕ) → Disk → Option ℕ
  walk_chain zero cluster d = some cluster
  walk_chain (suc rounds) cluster d =
      let next = fat_entry v d cluster in
      let rest = walk_chain rounds next d in
      if ltb next 2 || leb end_of_chain next then none else rest

  -- The write loop of `fat_write_file_at`, from sector `first` of `cluster` on.
  unfoldable pub patch_clusters :
      (fuel : ℕ) → Buffer → (cluster first : ℕ) → Writer → Outcome (Unit {0})
  unfolding each_sector patch_sector
  patch_clusters zero src cluster first w = stuck
  patch_clusters (suc fuel) src cluster first w =
      let lba = add32 (cluster_lba v cluster) first in
      let w' = each_sector (patch_sector src) (v.sec_per_clus - first) lba w in
      let next = fat_entry v w'.disk cluster in
      let rest = patch_clusters fuel src next 0 w' in
      if w'.remaining == 0
      then ok tt w'.disk
      else if leb end_of_chain next
      then err invalid w'.disk
      else rest

  -- `e[idx].size = size` and the write of the sector, which was read before the data was written.
  unfoldable pub store_size : Slot → Buffer → ℕ → Disk → Disk
  store_size s e size d = ata_write d s.lba (set_entry_size e s.idx size)

  -- More clusters for a file of `old_size` bytes that gets `new_size`.
  unfoldable pub grow_chain : (first_cluster old_size new_size : ℕ) → Cmd (Unit {0})
  unfolding extend_chain
  grow_chain first_cluster old_size new_size d =
      let old_cluster = clusters_for v old_size in
      let new_cluster = clusters_for v new_size in
      let extra = new_cluster - old_cluster in
      let grow : Cmd (Unit {0}) = do
        free ← reads (count_free_clusters v)
        fail_if (ltb free extra) no_space
        last ← (λ d. or_stuck (last_cluster v d first_cluster) d)
        _ ← extend_chain extra last
        pure tt
      in if ltb old_cluster new_cluster then grow d else ok tt d

  -- The part of `fat_write_file_at` behind its checks.
  unfoldable pub patch_file :
      Slot → Buffer → (first_cluster old_size offset : ℕ) → Buffer → ℕ → Cmd (Unit {0})
  unfolding grow_chain walk_chain patch_clusters store_size
  patch_file s e first_cluster old_size offset src len d =
      let bytes = cluster_bytes v in
      let new_size = offset + len in
      let offset_in_cluster = offset % bytes in
      if bytes == 0
      then stuck
      else (do
        grow_chain first_cluster old_size new_size
        found ← reads (walk_chain (offset / bytes) first_cluster)
        current ← or_fail found invalid
        (λ d. patch_clusters (suc len) src current (offset_in_cluster / 512) (record {
          byte_in_sector = offset_in_cluster % 512;
          remaining = len;
          src_offset = 0;
          disk = d;
        }))
        writes (λ d. if ltb old_size new_size then store_size s e new_size d else d))
          d

  unfoldable pub fat_write_file_at : List ℕ → ℕ → Option Buffer → ℕ → Cmd (Unit {0})
  unfolding patch_file fat_write_file
  fat_write_file_at name offset src len d =
      let write = do
        (parent, leaf) ← resolve v name
        s ← find_entry v parent (name_to_83 leaf)
        e ← reads (λ d. ata_read d s.lba)
        fail_if (is_directory e s.idx) invalid
        let first_cluster = entry_first_cluster e s.idx
        let old_size = entry_size e s.idx
        fail_if (ltb old_size offset) invalid
        let new_size = add32 offset len
        fail_if (ltb new_size offset) too_big
        fail_if (ltb max_file_bytes new_size) too_big
        let fresh = fail_if (not (offset == 0)) invalid >> fat_write_file v name src len
        let patch = patch_file s e first_cluster old_size offset (block src) len
        if first_cluster == 0 then fresh else patch
      in if ltb 0 len && not (is_some src)
        then err invalid d
        else if len == 0
        then ok tt d
        else write d
