-- ===== src/Fat/Read.antt =====
-- The reads of fs/fat.c: `fat_stat_file`, `fat_read_file_at` and `fat_read_file`.
pub mod Loop
pub mod Content
use yoz_os.Base.{
  ℕ, zero, suc, ◌+◌, ◌-◌, ◌&&◌, Bool, true, false, Option, none, some, List, ltb, leb, ◌==◌,
  if◌then◌else◌, is_some, not,
}
use yoz_os.Disk.{Disk, Buffer, get8, put8, add32, ata_read}
use yoz_os.Fat.Volume.{Volume, end_of_chain, cluster_lba}
use yoz_os.Fat.Name.{name_to_83}
use yoz_os.Fat.Entry.{entry_attr, entry_first_cluster, entry_size, attr_dir}
use yoz_os.Fat.Table.{fat_entry}
use yoz_os.Fat.Dir.{dir_find_in_ref}
use yoz_os.Fat.Path.{resolved, failed, resolve_parent_dir}
use yoz_os.Base.{has_flag}

-- `fat_file_info_t`.
pub record FileInfo : Type 0 where
  pub size : ℕ
  pub first_cluster : ℕ
  pub attr : ℕ

-- The block behind a pointer; the code reads and writes none behind a null one.
abbrev pub block : Option Buffer → Buffer
block none = λ _. 0
block (some b) = b

-- The variables of the read loops.
pub record Reader : Type 0 where
  pub file_pos : ℕ
  pub copied : ℕ
  pub dst : Buffer

-- What a read returns: its result, `*out_len`, and the block that it wrote.
pub record ReadResult : Type 0 where
  pub success : Bool
  pub out_len : ℕ
  pub dst : Buffer

module _ (size offset wanted : ℕ) where
  -- The body of the innermost loop.
  unfoldable pub read_byte : Buffer → ℕ → Reader → Reader
  read_byte bytes i s =
      let skipped : Reader = record s { file_pos = s.file_pos + 1 } in
      let taken : Reader = record {
        file_pos = s.file_pos + 1;
        copied = s.copied + 1;
        dst = put8 s.dst s.copied (get8 bytes i);
      } in
      if leb offset s.file_pos then taken else skipped

  unfoldable pub read_bytes : (rounds i : ℕ) → Buffer → Reader → Reader
  unfolding read_byte
  read_bytes zero i bytes s = s
  read_bytes (suc rounds) i bytes s =
      let s' = read_byte bytes i s in
      let rest = read_bytes rounds (i + 1) bytes s' in
      if ltb s.copied wanted then (if leb size s'.file_pos then s' else rest) else s

  unfoldable pub read_sectors : (rounds lba : ℕ) → Disk → Reader → Reader
  read_sectors zero lba d s = s
  read_sectors (suc rounds) lba d s =
      let rest = read_sectors rounds (add32 lba 1) d (read_bytes 512 0 (ata_read d lba) s) in
      if ltb s.copied wanted then rest else s

  unfoldable pub read_clusters : Volume → (fuel cluster : ℕ) → Disk → Reader → Option Reader
  read_clusters v zero cluster d s = none
  read_clusters v (suc fuel) cluster d s =
      let s' = read_sectors v.sec_per_clus (cluster_lba v cluster) d s in
      let rest = read_clusters v fuel (fat_entry v d cluster) d s' in
      if ltb cluster end_of_chain && ltb s.copied wanted then rest else some s

module _ (v : Volume) where
  unfoldable pub fat_stat_file : List ℕ → Disk → Option FileInfo
  fat_stat_file name d = elim (resolve_parent_dir v d name) [
    | failed e ↦ none
    | resolved parent leaf ↦ elim (dir_find_in_ref v parent d (name_to_83 leaf)) [
      | none ↦ none
      | some s ↦
          let e = ata_read d s.lba in
          some (record {
            size = entry_size e s.idx;
            first_cluster = entry_first_cluster e s.idx;
            attr = entry_attr e s.idx;
          })
    ]
  ]

  abbrev pub read_failed : Option Buffer → ReadResult
  read_failed dst = record { success = false; out_len = 0; dst = block dst }

  -- The part of `fat_read_file_at` behind its checks; `none` if the loop does not end.
  unfoldable pub read_found : FileInfo → ℕ → Option Buffer → ℕ → Disk → Option ReadResult
  read_found info offset dst len d =
      let available = info.size - offset in
      let wanted = if ltb len available then len else available in
      let start : Reader = record { file_pos = 0; copied = 0; dst = block dst } in
      elim (read_clusters info.size offset wanted v (suc (offset + wanted)) info.first_cluster d
        start) [
          | none ↦ none
          | some s ↦ some (record { success = s.copied == wanted; out_len = s.copied; dst = s.dst })
        ]

  unfoldable pub fat_read_file_at : List ℕ → ℕ → Option Buffer → ℕ → Disk → Option ReadResult
  unfolding read_found
  fat_read_file_at name offset dst len d =
      if not (is_some dst) && ltb 0 len
      then some (read_failed dst)
      else elim (fat_stat_file name d) [
        | none ↦ some (read_failed dst)
        | some info ↦
            if has_flag info.attr attr_dir
            then some (read_failed dst)
            else if leb info.size offset
            then some (record { success = true; out_len = 0; dst = block dst })
            else read_found info offset dst len d
      ]

  unfoldable pub fat_read_file : List ℕ → Option Buffer → ℕ → Disk → Option ReadResult
  fat_read_file name dst max_len d = elim (fat_stat_file name d) [
    | none ↦ some (read_failed dst)
    | some info ↦
        if ltb max_len info.size
        then some (read_failed dst)
        else fat_read_file_at name 0 dst info.size d
  ]
