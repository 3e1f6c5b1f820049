-- ===== src/Fat/Table.antt =====
-- The file allocation table: its entries, the search for a free one, and the release of a chain.
pub mod Entries
pub mod Free
pub mod Chain
pub mod Release
pub mod Frame
use yoz_os.Base.{
  ℕ, zero, suc, ◌+◌, ◌-◌, ◌*◌, ◌/◌, ◌%◌, ◌^◌, ◌&&◌, Option, none, some, ltb, leb, ◌==◌,
  if◌then◌else◌, or_default,
}
use yoz_os.Disk.{Disk, get16, put16, ata_read, ata_write}
use yoz_os.Fat.Volume.{Volume, end_of_chain, total_slots}

-- One round for each u16 cluster and one to see the end.
abbrev pub chain_fuel : ℕ
chain_fuel = 65537

module _ (v : Volume) where
  unfoldable pub fat_entry : Disk → ℕ → ℕ
  fat_entry d cluster =
      let off = cluster * 2 in get16 (ata_read d (v.fat_start + off / 512)) (2 * ((off % 512) / 2))

  -- The copies `k`, `k + 1`, … of the FAT, `copies` of them.
  unfoldable pub set_copies : (copies k : ℕ) → Disk → (cluster value : ℕ) → Disk
  set_copies zero k d cluster value = d
  set_copies (suc copies) k d cluster value =
      let off = cluster * 2 in
      let lba = v.fat_start + k * v.sectors_per_fat + off / 512 in
      set_copies copies (k + 1)
        (ata_write d lba (put16 (ata_read d lba) (2 * ((off % 512) / 2)) value)) cluster value

  unfoldable pub fat_set_entry : Disk → (cluster value : ℕ) → Disk
  fat_set_entry d cluster value = set_copies v.num_fats 0 d cluster value

  -- The search among the clusters `c`, `c + 1`, …, `rounds` of them; 0 if none is free.
  unfoldable pub find_free_from : (rounds c : ℕ) → Disk → ℕ
  find_free_from zero c d = 0
  find_free_from (suc rounds) c d =
      let rest = find_free_from rounds (c + 1) d in if fat_entry d c == 0 then c else rest

  unfoldable pub fat_find_free : Disk → ℕ
  fat_find_free d = find_free_from (total_slots v - 2) 2 d

  unfoldable pub count_free_from : (rounds c : ℕ) → Disk → ℕ
  count_free_from zero c d = 0
  count_free_from (suc rounds) c d =
      (if fat_entry d c == 0 then 1 else 0) + count_free_from rounds (c + 1) d

  unfoldable pub count_free_clusters : Disk → ℕ
  count_free_clusters d = count_free_from (total_slots v - 2) 2 d

  -- The loop of `free_chain`; `none` if the fuel runs out.
  unfoldable pub free_chain_loop : (fuel first_cluster : ℕ) → Disk → Option Disk
  free_chain_loop zero first_cluster d = none
  free_chain_loop (suc fuel) first_cluster d =
      let rest =
        free_chain_loop fuel (fat_entry d first_cluster) (fat_set_entry d first_cluster 0) in
      if ltb first_cluster end_of_chain && leb 2 first_cluster then rest else some d

  unfoldable pub free_chain : Disk → ℕ → Disk
  free_chain d first_cluster = or_default d (free_chain_loop chain_fuel first_cluster d)

  -- The walk to the last cluster, which two callers write out; `none` if the chain is cyclic.
  unfoldable pub last_cluster_loop : (fuel last next : ℕ) → Disk → Option ℕ
  last_cluster_loop zero last next d = none
  last_cluster_loop (suc fuel) last next d =
      let rest = last_cluster_loop fuel next (fat_entry d next) d in
      if ltb next end_of_chain then rest else some last

  unfoldable pub last_cluster : Disk → ℕ → Option ℕ
  last_cluster d first_cluster =
      last_cluster_loop chain_fuel first_cluster (fat_entry d first_cluster) d
