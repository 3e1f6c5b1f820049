-- ===== src/Tests/Boot.antt =====
-- The volume that a boot sector describes.
use yoz_os.Base.{
  ℕ, zero, suc, ◌%◌, All, ◌≡◌, refl, arith, some, List, [], ◌∷◌, get_or, replicate, ◌<◌,
}
use yoz_os.Disk.{Disk, ata_read}
use yoz_os.Fat.Volume.{Volume, fs_init}
use yoz_os.Fat.Volume.Bounds.{IsVolume}
use yoz_os.Fat.Volume.Bpb.{Bpb, IsBpb, StartsWith, Describes, bpb_bytes, fs_init-Describes}
use yoz_os.Fat.Volume.Init.{Describes-IsVolume}
use yoz_os.Tests.Data.{volume}

abbrev formatted : Bpb
formatted = record {
  jump = 0xeb ∷ 0x3c ∷ 0x90 ∷ [];
  oem = replicate 8 0x20;
  bytes_per_sector = 512;
  sectors_per_cluster = 1;
  reserved_sectors = 1;
  num_fats = 2;
  root_entries = 16;
  total_sectors = 0x1234;
  media_descriptor = 0xf8;
  sectors_per_fat = 1;
}

abbrev boot_disk : Disk
boot_disk l i = get_or (bpb_bytes formatted) i 0

boots : fs_init boot_disk ≡ some volume
unfolding fs_init ata_read
boots = refl

formatted-IsBpb : IsBpb formatted
formatted-IsBpb = record {
  jump = refl;
  oem = refl;
  bytes_per_sector = omega arith;
  sectors_per_cluster = omega arith;
  reserved_sectors = omega arith;
  num_fats = omega arith;
  root_entries = omega arith;
  sectors_per_fat = omega arith;
}

bytes_small : (xs : List ℕ) (k : ℕ) → All (λ c. c < 256) xs → get_or xs k 0 % 256 ≡ get_or xs k 0
bytes_small [] k h = refl
bytes_small (x ∷ xs) zero h = omega (arith, h.0)
bytes_small (x ∷ xs) (suc k) h = bytes_small xs k h.1

formatted-small : All (λ c. c < 256) (bpb_bytes formatted)
formatted-small = omega arith

boot_disk-StartsWith : StartsWith boot_disk formatted
unfolding ata_read
boot_disk-StartsWith k h = bytes_small (bpb_bytes formatted) k formatted-small

fs_init-Describes_example : (v : Volume) × (fs_init boot_disk ≡ some v) × Describes formatted v
fs_init-Describes_example =
    fs_init-Describes boot_disk formatted formatted-IsBpb boot_disk-StartsWith (omega arith)

volume-IsVolume_again : IsVolume volume
volume-IsVolume_again =
    let d : Describes formatted volume = record {
      fat_start = refl;
      num_fats = refl;
      sectors_per_fat = refl;
      sec_per_clus = refl;
      root_start = refl;
      root_holds = omega arith;
      root_fewest = omega arith;
      data_start = refl;
    } in
    Describes-IsVolume formatted volume formatted-IsBpb d (omega arith) (omega arith) (omega arith)
      (omega arith)
