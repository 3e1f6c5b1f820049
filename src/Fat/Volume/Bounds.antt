-- ===== src/Fat/Volume/Bounds.antt =====
-- The ranges of the variables of fs/fat.c.
use yoz_os.Base.{ℕ, ◌+◌, ◌-◌, ◌*◌, ◌^◌, ◌≤◌, ◌<◌, ◌≡◌, ◌≢◌, ap, ◌∙◌, ◌⊎◌, inl, inr, dec_lt, arith}
use yoz_os.Fat.Volume.{Volume, cluster_lba}

-- What the code relies on: the widths of the boot sector's fields, at least one copy of the FAT
-- and one sector in a cluster, a table with fewer entries than the first end mark, and the regions one behind the other.
pub record IsVolume (v : Volume) : Type 0 where
  pub fat_start_lt : v.fat_start < 65536
  pub copies : 0 < v.num_fats
  pub num_fats_lt : v.num_fats < 256
  pub sectors_per_fat_le : v.sectors_per_fat ≤ 255
  pub sectors : 0 < v.sec_per_clus
  pub sec_per_clus_lt : v.sec_per_clus < 256
  pub root_after_fats : v.root_start ≡ v.fat_start + v.num_fats * v.sectors_per_fat
  pub root_sectors_lt : v.root_sectors < 2 ^ 22
  pub data_after_root : v.data_start ≡ v.root_start + v.root_sectors

pub mul-lt : (k n s m : ℕ) → k < n → s < m → k * s ≤ n * m
mul-lt k n s m p q = grind arith

-- The first block of the data lies within the 28 bits that the driver addresses.
pub data_start_lt : {v : Volume} → IsVolume v → v.data_start < 2 ^ 25
data_start_lt {v} h =
    omega (arith, mul-lt v.num_fats 256 v.sectors_per_fat 65536 h.num_fats_lt (omega arith))

-- Cluster `c` begins `c - 2` clusters behind the first, without a wrap.
pub cluster_lba_lem :
    {v : Volume} (c : ℕ)
    → IsVolume v
    → 2 ≤ c
    → c < 65536
    → (cluster_lba v c ≡ v.data_start + (c - 2) * v.sec_per_clus)
      × (cluster_lba v c + v.sec_per_clus < 2 ^ 27)
cluster_lba_lem {v} c h low high =
    let size = mul-lt c 65536 v.sec_per_clus 256 high h.sec_per_clus_lt in
    let less : c * v.sec_per_clus ≡ (c - 2) * v.sec_per_clus + 2 * v.sec_per_clus =
      let e : c ≡ c - 2 + 2 = omega arith in ap (λ k. k * v.sec_per_clus) e ∙ omega arith in
    (
      omega (arith, data_start_lt h, size, less),
      omega (arith, data_start_lt h, size, less, h.sec_per_clus_lt),
    )

pub mul-suc-le : (a b s : ℕ) → a < b → a * s + s ≤ b * s
mul-suc-le a b s h = grind arith

-- The sectors of two clusters are apart.
pub clusters_apart :
    {v : Volume} (c c' k : ℕ)
    → IsVolume v
    → 2 ≤ c
    → c < 65536
    → 2 ≤ c'
    → c' < 65536
    → c ≢ c'
    → k < v.sec_per_clus
    → (cluster_lba v c + k < cluster_lba v c')
      ⊎ (cluster_lba v c' + v.sec_per_clus ≤ cluster_lba v c + k)
clusters_apart {v} c c' k h l u l' u' ne q =
    let here = (cluster_lba_lem c h l u).0 in
    let there = (cluster_lba_lem c' h l' u').0 in
    elim (dec_lt c c') [
      | yes below ↦
          inl (omega (arith, here, there, mul-suc-le (c - 2) (c' - 2) v.sec_per_clus (omega arith)))
      | no above ↦
          inr (omega (arith, here, there, mul-suc-le (c' - 2) (c - 2) v.sec_per_clus (omega arith)))
    ]
