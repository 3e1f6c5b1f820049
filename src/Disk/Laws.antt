-- ===== src/Disk/Laws.antt =====
-- What a read sees of a write: bytes and words of a buffer, copies, and sectors of the drive.
use yoz_os.Base.{
  ℕ, zero, suc, ◌+◌, ◌-◌, ◌%◌, ◌^◌, ◌<◌, ◌≡◌, ◌≢◌, refl, arith, ◌==◌, ltb, leb, ◌&&◌, if◌then◌else◌,
}
use yoz_os.Disk.Memory.{Buffer, get8, get16, get32, put8, put16, put32, memory_copy, memory_set}
use yoz_os.Disk.Drive.{Disk, lba_mod, ata_read, ata_write}

module _ (b : Buffer) (i : ℕ) where
  pub get8-lt : get8 b i < 256
  get8-lt = omega arith

  pub get16-lt : get16 b i < 65536
  get16-lt = omega arith

  pub get32-lt : get32 b i < 2 ^ 32
  get32-lt = omega arith

  pub get16-put16_self : (v : ℕ) → v < 65536 → get16 (put16 b i v) i ≡ v
  get16-put16_self v h = ground arith

  pub get16-put16_ne : (j v : ℕ) → j ≢ i → j + 1 ≢ i → j ≢ i + 1 → get16 (put16 b i v) j ≡ get16 b j
  get16-put16_ne j v p q r = ground arith

  pub get32-put32_self : (v : ℕ) → v < 2 ^ 32 → get32 (put32 b i v) i ≡ v
  get32-put32_self v h = ground arith

-- A copy writes the bytes asked for, and no other.
pub get8-memory_copy :
    (s : Buffer) (from : ℕ) (b : Buffer) (to n j : ℕ)
    → get8 (memory_copy s from b to n) j
      ≡ (if leb to j && ltb j (to + n) then get8 s (from + (j - to)) else get8 b j)
unfolding memory_copy
get8-memory_copy s from b to zero j = ground arith
get8-memory_copy s from b to (suc n) j = ground (arith, get8-memory_copy s from b to n j, step)
  where
    step : j ≡ to + n → get8 s (from + (j - to)) ≡ get8 s (from + n)
    step e = rw e (let h : to + n - to ≡ n = omega arith in rw h)

pub get8-memory_set :
    (b : Buffer) (to v n j : ℕ)
    → get8 (memory_set b to v n) j ≡ (if leb to j && ltb j (to + n) then v % 256 else get8 b j)
unfolding memory_set
get8-memory_set b to v zero j = ground arith
get8-memory_set b to v (suc n) j = ground (arith, get8-memory_set (put8 b to v) (to + 1) v n j)

pub ata_read-write :
    (d : Disk) (lba : ℕ) (b : Buffer) (l : ℕ)
    → ata_read (ata_write d lba b) l ≡ (if l % lba_mod == lba % lba_mod then b else ata_read d l)
unfolding ata_read ata_write
ata_read-write d lba b l = refl
