-- ===== src/Fat/Volume.antt =====
-- The static variables of fs/fat.c that `fs_init` sets from the boot sector, and where the
-- clusters lie.
pub mod Bounds
pub mod Bpb
pub mod Init
use yoz_os.Base.{ℕ, ◌+◌, ◌-◌, ◌*◌, ◌/◌, ◌%◌, ◌^◌, Option, none, some, Bool, ◌==◌, if◌then◌else◌}
use yoz_os.Disk.{Disk, get8, get16, add32, ata_read}

pub record Volume : Type 0 where
  pub fat_start : ℕ
  pub root_start : ℕ
  pub root_sectors : ℕ
  pub data_start : ℕ
  pub sectors_per_fat : ℕ
  pub sec_per_clus : ℕ
  pub num_fats : ℕ

abbrev pub max_file_bytes : ℕ
max_file_bytes = 8192

abbrev pub max_chain_clusters : ℕ
max_chain_clusters = max_file_bytes / 512

-- The first mark of an end of chain, and the mark that is written.
abbrev pub end_of_chain : ℕ
end_of_chain = 0xfff8

abbrev pub last_mark : ℕ
last_mark = 0xffff

-- `none` is the divide error at a boot sector with no bytes per sector.
unfoldable pub fs_init : Disk → Option Volume
fs_init d =
    let b = ata_read d 0 in
    let bytes_per_sector = get16 b 0x0b in
    let reserved_sectors = get16 b 0x0e in
    let num_fats = get8 b 0x10 in
    let root_entries = get16 b 0x11 in
    let sectors_per_fat = get16 b 0x16 in
    let root_start = reserved_sectors + num_fats * sectors_per_fat in
    let root_sectors = (root_entries * 32 + bytes_per_sector - 1) / bytes_per_sector in
    if bytes_per_sector == 0
    then none
    else some (record {
      fat_start = reserved_sectors;
      root_start = root_start;
      root_sectors = root_sectors;
      data_start = root_start + root_sectors;
      sectors_per_fat = sectors_per_fat;
      sec_per_clus = get8 b 0x0d;
      num_fats = num_fats;
    })

-- `data_start + (cluster - 2) * sec_per_clus`, the product an int, the sum a u32.
abbrev pub cluster_lba : Volume → ℕ → ℕ
cluster_lba v cluster =
    (v.data_start + 2 ^ 32 + cluster * v.sec_per_clus - 2 * v.sec_per_clus) % 2 ^ 32

abbrev pub cluster_bytes : Volume → ℕ
cluster_bytes v = v.sec_per_clus * 512

-- The number of entries of a FAT copy.
abbrev pub total_slots : Volume → ℕ
total_slots v = v.sectors_per_fat * 512 / 2
