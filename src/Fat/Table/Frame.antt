-- ===== src/Fat/Table/Frame.antt =====
-- The writes to the FAT leave every sector behind it alone, and writes behind it leave the FAT.
use yoz_os.Base.{
  ℕ, zero, suc, ◌+◌, ◌*◌, ◌/◌, ◌%◌, ◌≤◌, ◌<◌, ◌≡◌, refl, ap, ◌∙◌, arith, ◌==◌, ltb, leb, ◌&&◌, true,
  false, List, [], ◌∷◌,
}
use yoz_os.Disk.{Disk, get16, put16, lba_mod, ata_read, ata_write, ata_read-write}
use yoz_os.Fat.Volume.{Volume, total_slots, end_of_chain}
use yoz_os.Fat.Volume.Bounds.{IsVolume, mul-suc-le}
use yoz_os.Fat.Table.{fat_entry, set_copies, fat_set_entry, free_chain}
use yoz_os.Fat.Table.Chain.{free_chain_lem}
use yoz_os.Fat.Table.Release.{IsChain, IsChain-set, not-mem-IsChain}

module _ (v : Volume) (h : IsVolume v) where
  -- A block behind the FAT.
  abbrev pub BehindFat : ℕ → Type 0
  BehindFat l = (v.root_start ≤ l) × (l < lba_mod)

  set_copies-other :
      (n k : ℕ) (d : Disk) (c value l : ℕ)
      → k + n ≤ v.num_fats
      → c < total_slots v
      → BehindFat l
      → ata_read (set_copies v n k d c value) l ≡ ata_read d l
  unfolding set_copies
  set_copies-other zero k d c value l p q b = refl
  set_copies-other (suc n) k d c value l p q b =
      let lba = v.fat_start + k * v.sectors_per_fat + c * 2 / 512 in
      let buff = put16 (ata_read d lba) (2 * ((c * 2 % 512) / 2)) value in
      let before : lba < v.root_start =
        omega (arith, mul-suc-le k v.num_fats v.sectors_per_fat (omega arith), h.root_after_fats) in
      let other : (l % lba_mod == lba % lba_mod) ≡ false = ground arith in
      set_copies-other n (k + 1) (ata_write d lba buff) c value l (omega arith) q b
      ∙ (ata_read-write d lba buff l ∙ rw other)

  -- `fat_set_entry` writes only in the FAT.
  pub fat_set_entry-other :
      (d : Disk) (c value l : ℕ)
      → c < total_slots v
      → BehindFat l
      → ata_read (fat_set_entry v d c value) l ≡ ata_read d l
  unfolding fat_set_entry
  fat_set_entry-other d c value l q b = set_copies-other v.num_fats 0 d c value l (omega arith) q b

  -- On a well-formed volume, `free_chain` on a chain that ends and stays in the table leaves every
  -- sector from the root directory on as it was.
  pub free_chain-other :
      (cs : List ℕ) (d : Disk) (c l : ℕ)
      → IsChain v d c cs
      → BehindFat l
      → ata_read (free_chain v d c) l ≡ ata_read d l
  free_chain-other [] d c l p b = rw (free_chain_lem v h.copies d c, p)
  free_chain-other (x ∷ xs) d c l p b =
      let go : (ltb c end_of_chain && leb 2 c) ≡ true = ground arith in
      let rest =
        IsChain-set v h d c 0 (fat_entry v d c) xs p.3 (omega arith) (not-mem-IsChain v d c x xs p)
          p.4 in
      rw (free_chain_lem v h.copies d c, go)
        (free_chain-other xs (fat_set_entry v d c 0) (fat_entry v d c) l rest b
          ∙ fat_set_entry-other d c 0 l p.3 b)

  -- The table is read from the FAT alone.
  pub fat_entry-frame :
      (d d' : Disk) (c : ℕ)
      → c < total_slots v
      → ((l : ℕ) → l < v.root_start → ata_read d' l ≡ ata_read d l)
      → fat_entry v d' c ≡ fat_entry v d c
  unfolding fat_entry
  fat_entry-frame d d' c q same =
      ap (λ b. get16 b (2 * ((c * 2 % 512) / 2)))
        (same (v.fat_start + c * 2 / 512)
          (omega (arith, mul-suc-le 0 v.num_fats v.sectors_per_fat h.copies, h.root_after_fats)))

  pub IsChain-frame :
      (d d' : Disk) (c : ℕ) (cs : List ℕ)
      → ((x : ℕ) → x < total_slots v → fat_entry v d' x ≡ fat_entry v d x)
      → IsChain v d c cs
      → IsChain v d' c cs
  IsChain-frame d d' c [] same p = p
  IsChain-frame d d' c (x ∷ xs) same p =
      (p.0, p.1, p.2, p.3, rw (same c p.3) (IsChain-frame d d' (fat_entry v d c) xs same p.4))
