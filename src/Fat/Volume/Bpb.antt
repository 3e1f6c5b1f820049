-- ===== src/Fat/Volume/Bpb.antt =====
-- The packed `bpb_t` of fs/fat.h in the boot sector, and what `fs_init` of fs/fat.c takes from it.
use yoz_os.Base.{
  ℕ, zero, suc, ◌+◌, ◌-◌, ◌*◌, ◌/◌, ◌%◌, ◌<◌, ◌≤◌, ◌≡◌, refl, ◌∙◌, arith, ◌==◌, false, some, List,
  [], ◌∷◌, ◌++◌, length, length-append, get_or,
}
use native.Mathlib.Nat.{div-add-mod'}
use yoz_os.Disk.{Disk, Buffer, get8, get16, ata_read}
use yoz_os.Fat.Volume.{Volume, fs_init}

-- `bpb_t`, in the order of its fields.
pub record Bpb : Type 0 where
  pub jump : List ℕ
  pub oem : List ℕ
  pub bytes_per_sector : ℕ
  pub sectors_per_cluster : ℕ
  pub reserved_sectors : ℕ
  pub num_fats : ℕ
  pub root_entries : ℕ
  pub total_sectors : ℕ
  pub media_descriptor : ℕ
  pub sectors_per_fat : ℕ

-- The widths of the fields.
pub record IsBpb (x : Bpb) : Type 0 where
  pub jump : length x.jump ≡ 3
  pub oem : length x.oem ≡ 8
  pub bytes_per_sector : x.bytes_per_sector < 65536
  pub sectors_per_cluster : x.sectors_per_cluster < 256
  pub reserved_sectors : x.reserved_sectors < 65536
  pub num_fats : x.num_fats < 256
  pub root_entries : x.root_entries < 65536
  pub sectors_per_fat : x.sectors_per_fat < 65536

-- A u16 in memory, and the fields behind `oem`, packed.
abbrev le16 : ℕ → List ℕ → List ℕ
le16 n bytes = (n % 256) ∷ (n / 256) ∷ bytes

abbrev numbers : Bpb → List ℕ
numbers x = le16 x.bytes_per_sector (
    x.sectors_per_cluster
    ∷ le16 x.reserved_sectors (
        x.num_fats
        ∷ le16 x.root_entries
            (le16 x.total_sectors (x.media_descriptor ∷ le16 x.sectors_per_fat []))))

abbrev pub bpb_bytes : Bpb → List ℕ
bpb_bytes x = (x.jump ++ x.oem) ++ numbers x

-- The first sector of the disk starts with the 24 bytes of the structure.
abbrev pub StartsWith : Disk → Bpb → Type 0
StartsWith d x = (k : ℕ) → k < 24 → get8 (ata_read d 0) k ≡ get_or (bpb_bytes x) k 0

-- The regions that the structure describes: the reserved sectors, the copies of the FAT, the fewest
-- sectors that hold the entries of the root directory, of 32 bytes each, and the data.
pub record Describes (x : Bpb) (v : Volume) : Type 0 where
  pub fat_start : v.fat_start ≡ x.reserved_sectors
  pub num_fats : v.num_fats ≡ x.num_fats
  pub sectors_per_fat : v.sectors_per_fat ≡ x.sectors_per_fat
  pub sec_per_clus : v.sec_per_clus ≡ x.sectors_per_cluster
  pub root_start : v.root_start ≡ x.reserved_sectors + x.num_fats * x.sectors_per_fat
  pub root_holds : x.root_entries * 32 ≤ v.root_sectors * x.bytes_per_sector
  pub root_fewest : v.root_sectors * x.bytes_per_sector < x.root_entries * 32 + x.bytes_per_sector
  pub data_start : v.data_start ≡ v.root_start + v.root_sectors

get_or-append_behind :
    (xs ys : List ℕ) (i k d : ℕ) → i ≡ length xs + k → get_or (xs ++ ys) i d ≡ get_or ys k d
get_or-append_behind [] ys i k d e = let same : i ≡ k = omega (arith, e) in rw same refl
get_or-append_behind (x ∷ xs) ys zero k d e = absurd (omega (arith, e))
get_or-append_behind (x ∷ xs) ys (suc i) k d e = get_or-append_behind xs ys i k d (omega (arith, e))

module _ (d : Disk) (x : Bpb) (widths : IsBpb x) (there : StartsWith d x) where
  number_at : (k : ℕ) → k < 13 → get8 (ata_read d 0) (11 + k) ≡ get_or (numbers x) k 0
  number_at k h =
      there (11 + k) (omega arith)
      ∙ get_or-append_behind (x.jump ++ x.oem) (numbers x) (11 + k) k 0
          (omega (arith, length-append x.jump x.oem, widths.jump, widths.oem))

  abbrev b : Buffer
  b = ata_read d 0

  bytes_at : get16 b 0x0b ≡ x.bytes_per_sector
  bytes_at =
      omega (arith, number_at 0 (omega arith), number_at 1 (omega arith), widths.bytes_per_sector)

  cluster_at : get8 b 0x0d ≡ x.sectors_per_cluster
  cluster_at = number_at 2 (omega arith)

  reserved_at : get16 b 0x0e ≡ x.reserved_sectors
  reserved_at =
      omega (arith, number_at 3 (omega arith), number_at 4 (omega arith), widths.reserved_sectors)

  fats_at : get8 b 0x10 ≡ x.num_fats
  fats_at = number_at 5 (omega arith)

  entries_at : get16 b 0x11 ≡ x.root_entries
  entries_at =
      omega (arith, number_at 6 (omega arith), number_at 7 (omega arith), widths.root_entries)

  fat_size_at : get16 b 0x16 ≡ x.sectors_per_fat
  fat_size_at =
      omega (arith, number_at 11 (omega arith), number_at 12 (omega arith), widths.sectors_per_fat)

-- On a disk whose first sector starts with a `bpb_t` that has bytes in a sector, `fs_init` returns,
-- and its variables are the fields and the regions that the structure describes.
pub fs_init-Describes :
    (d : Disk) (x : Bpb)
    → IsBpb x
    → StartsWith d x
    → 0 < x.bytes_per_sector
    → (v : Volume) × (fs_init d ≡ some v) × Describes x v
unfolding fs_init
fs_init-Describes d x widths there some_bytes =
    let q = (x.root_entries * 32 + x.bytes_per_sector - 1) / x.bytes_per_sector in
    let parts = div-add-mod' (x.root_entries * 32 + x.bytes_per_sector - 1) x.bytes_per_sector in
    let divides : (x.bytes_per_sector == 0) ≡ false = ground arith in
    let v : Volume = record {
      fat_start = x.reserved_sectors;
      root_start = x.reserved_sectors + x.num_fats * x.sectors_per_fat;
      root_sectors = q;
      data_start = x.reserved_sectors + x.num_fats * x.sectors_per_fat + q;
      sectors_per_fat = x.sectors_per_fat;
      sec_per_clus = x.sectors_per_cluster;
      num_fats = x.num_fats;
    } in
    (
      v,
      rw
          (
            bytes_at d x widths there,
            cluster_at d x widths there,
            reserved_at d x widths there,
            fats_at d x widths there,
            entries_at d x widths there,
            fat_size_at d x widths there,
            divides,
          )
          refl,
      record {
        fat_start = refl;
        num_fats = refl;
        sectors_per_fat = refl;
        sec_per_clus = refl;
        root_start = refl;
        root_holds = omega (arith, parts, rest);
        root_fewest = omega (arith, parts);
        data_start = refl;
      },
    )
  where
    rest : (x.root_entries * 32 + x.bytes_per_sector - 1) % x.bytes_per_sector < x.bytes_per_sector
    rest = omega arith
