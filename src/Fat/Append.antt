-- ===== src/Fat/Append.antt =====
-- `fat_append_file` of fs/fat.c.
use yoz_os.Base.{
  ℕ, zero, suc, ◌+◌, ◌-◌, ◌/◌, ◌%◌, ◌^◌, ◌&&◌, not, Option, List, ltb, ◌==◌, if◌then◌else◌, is_some,
}
use yoz_os.Disk.{Buffer, add32, memory_copy, memory_set, ata_read, ata_write}
use yoz_os.Fat.Outcome.{
  invalid, no_space, too_big, Outcome, ok, err, stuck, Cmd, pure, reads, writes, or_stuck, fail_if,
  ◌>>=◌, ◌>>◌,
}
use yoz_os.Fat.Volume.{Volume, max_file_bytes, last_mark, cluster_lba, cluster_bytes}
use yoz_os.Fat.Name.{name_to_83}
use yoz_os.Fat.Entry.{entry_first_cluster, entry_size, is_directory}
use yoz_os.Fat.Table.{fat_set_entry, fat_find_free, count_free_clusters, last_cluster}
use yoz_os.Fat.Dir.{Slot}
use yoz_os.Fat.Read.{block}
use yoz_os.Fat.Create.{resolve, find_entry}
use yoz_os.Fat.Write.{clusters_for, at_most, fat_write_file}
use yoz_os.Fat.Patch.{Writer, patch_sector, each_sector, extend_chain, store_size}

-- One sector that is cleared first.
unfoldable pub fill_sector : Buffer → ℕ → Writer → Writer
fill_sector src lba w =
    let chunk = at_most 512 w.remaining in
    let sector = memory_copy src w.src_offset (memory_set (λ _. 0) 0 0 512) 0 chunk in
    record {
      byte_in_sector = w.byte_in_sector;
      remaining = w.remaining - chunk;
      src_offset = w.src_offset + chunk;
      disk = ata_write w.disk lba sector;
    }

module _ (v : Volume) where
  -- The first loop of `fat_append_file`, over the sectors of the cluster `cluster` from `first` on.
  unfoldable pub append_tail : Buffer → (cluster first : ℕ) → Writer → Writer
  unfolding each_sector patch_sector
  append_tail src cluster first w =
      each_sector (patch_sector src) (v.sec_per_clus - first) (add32 (cluster_lba v cluster) first)
        w

  -- The second: new clusters while bytes remain.
  unfoldable pub append_clusters : (fuel : ℕ) → Buffer → (cluster : ℕ) → Writer → Outcome (Unit {0})
  unfolding each_sector fill_sector
  append_clusters zero src cluster w = stuck
  append_clusters (suc fuel) src cluster w =
      let clus = fat_find_free v w.disk % 2 ^ 16 in
      let d' = fat_set_entry v (fat_set_entry v w.disk cluster clus) clus last_mark in
      let w' =
        each_sector (fill_sector src) v.sec_per_clus (cluster_lba v clus)
          (record w { disk = d' }) in
      let rest = append_clusters fuel src clus w' in
      if w.remaining == 0 then ok tt w.disk else if clus == 0 then err no_space w.disk else rest

  -- The clusters that an append needs beyond those that the file has.
  abbrev pub extra_clusters : (old_size append_len : ℕ) → ℕ
  extra_clusters old_size append_len =
      let offset_in_cluster = old_size % cluster_bytes v in
      let free_in_tail =
        if offset_in_cluster == 0 then 0 else cluster_bytes v - offset_in_cluster in
      if ltb free_in_tail append_len then clusters_for v (append_len - free_in_tail) else 0

  -- The part of `fat_append_file` behind its checks.
  unfoldable pub extend_file :
      Slot → Buffer → (first_cluster old_size : ℕ) → Buffer → ℕ → Cmd (Unit {0})
  unfolding extend_chain append_tail append_clusters store_size
  extend_file s e first_cluster old_size src len d =
      let offset_in_cluster = old_size % cluster_bytes v in
      if cluster_bytes v == 0
      then stuck
      else (do
        free ← reads (count_free_clusters v)
        fail_if (ltb free (extra_clusters old_size len)) no_space
        last ← (λ d. or_stuck (last_cluster v d first_cluster) d)
        current ← extend_chain v (if offset_in_cluster == 0 then 1 else 0) last
        (λ d.
            let w = append_tail src current (offset_in_cluster / 512) (record {
              byte_in_sector = offset_in_cluster % 512;
              remaining = len;
              src_offset = 0;
              disk = d;
            }) in
            append_clusters (suc len) src current w)
        writes (store_size v s e (old_size + len)))
          d

  unfoldable pub fat_append_file : List ℕ → Option Buffer → ℕ → Cmd (Unit {0})
  unfolding extend_file fat_write_file
  fat_append_file name src append_len = do
    fail_if (ltb 0 append_len && not (is_some src)) invalid
    (parent, leaf) ← resolve v name
    s ← find_entry v parent (name_to_83 leaf)
    e ← reads (λ d. ata_read d s.lba)
    fail_if (is_directory e s.idx) invalid
    let first_cluster = entry_first_cluster e s.idx
    let old_size = entry_size e s.idx
    let new_size = add32 old_size append_len
    fail_if (ltb new_size old_size) too_big
    let fresh = fat_write_file v name src append_len
    let extend = extend_file s e first_cluster old_size (block src) append_len
    let write =
        fail_if (ltb max_file_bytes new_size) too_big
        >> (if first_cluster == 0 then fresh else extend)
    if append_len == 0 then pure tt else write
