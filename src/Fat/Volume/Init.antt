-- ===== src/Fat/Volume/Init.antt =====
-- The volume that `fs_init` of fs/fat.c sets up.
use yoz_os.Base.{ℕ, ◌+◌, ◌*◌, ◌^◌, ◌<◌, ◌≤◌, arith, dec_lt}
use yoz_os.Fat.Volume.{Volume}
use yoz_os.Fat.Volume.Bounds.{IsVolume, mul-suc-le}
use yoz_os.Fat.Volume.Bpb.{Bpb, IsBpb, Describes}

root_sectors_small :
    (entries b q : ℕ) → entries < 65536 → 0 < b → q * b < entries * 32 + b → q < 2 ^ 22
root_sectors_small entries b q e p few = elim (dec_lt (2 ^ 21) q) [
  | no short ↦ omega arith
  | yes more ↦ absurd (omega (arith, few, mul-suc-le (2 ^ 21) q b more))
]

-- A structure with a copy of the FAT, at most 255 sectors in it and a sector in a cluster describes
-- a well-formed volume.
pub Describes-IsVolume :
    (x : Bpb) (v : Volume)
    → IsBpb x
    → Describes x v
    → 0 < x.bytes_per_sector
    → 0 < x.num_fats
    → x.sectors_per_fat ≤ 255
    → 0 < x.sectors_per_cluster
    → IsVolume v
Describes-IsVolume x v widths h some_bytes copies short sectors = record {
  fat_start_lt = omega (arith, h.fat_start, widths.reserved_sectors);
  copies = omega (arith, h.num_fats);
  num_fats_lt = omega (arith, h.num_fats, widths.num_fats);
  sectors_per_fat_le = omega (arith, h.sectors_per_fat);
  sectors = omega (arith, h.sec_per_clus);
  sec_per_clus_lt = omega (arith, h.sec_per_clus, widths.sectors_per_cluster);
  root_after_fats = rw (h.fat_start, h.num_fats, h.sectors_per_fat) h.root_start;
  root_sectors_lt =
      root_sectors_small x.root_entries x.bytes_per_sector v.root_sectors widths.root_entries
        some_bytes h.root_fewest;
  data_after_root = h.data_start;
}
