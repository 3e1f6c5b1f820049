-- ===== src/Fat/Table/Entries.antt =====
-- What `fat_set_entry` changes in the copies of the FAT.
use yoz_os.Base.{
  ℕ, zero, suc, ◌+◌, ◌*◌, ◌/◌, ◌%◌, ◌≤◌, ◌<◌, ◌≡◌, ap, arith, ◌==◌, ltb, leb, ◌&&◌, if◌then◌else◌,
}
use yoz_os.Disk.{
  Disk, get16, put16, lba_mod, ata_read, ata_write, ata_read-write, get16-put16_self,
  get16-put16_ne,
}
use yoz_os.Fat.Volume.{Volume, total_slots}
use yoz_os.Fat.Volume.Bounds.{IsVolume, mul-lt}
use yoz_os.Fat.Table.{fat_entry, set_copies, fat_set_entry}

-- Two blocks in the copies of the FAT are one only if they have the same place in the same copy.
copy_unique : (k k' s a b : ℕ) → a < s → b < s → k * s + a ≡ k' * s + b → k ≡ k'
copy_unique k k' s a b p q e = grind arith

module _ (v : Volume) where
  -- The block of an entry in the copy `k`.
  abbrev pub entry_lba : (k cluster : ℕ) → ℕ
  entry_lba k cluster = v.fat_start + k * v.sectors_per_fat + cluster * 2 / 512

  abbrev pub entry_off : ℕ → ℕ
  entry_off cluster = 2 * ((cluster * 2 % 512) / 2)

  -- The entry in the copy `k` of the FAT; the code reads copy 0.
  unfoldable pub copy_entry : Disk → (k cluster : ℕ) → ℕ
  copy_entry d k cluster = get16 (ata_read d (entry_lba k cluster)) (entry_off cluster)

  pub fat_entry-copy : (d : Disk) (c : ℕ) → fat_entry v d c ≡ copy_entry d 0 c
  unfolding fat_entry copy_entry
  fat_entry-copy d c = ap (λ lba. get16 (ata_read d lba) (entry_off c)) (omega arith)

  module _ (h : IsVolume v) where
    lba_small : (k c : ℕ) → k < 256 → c < total_slots v → entry_lba k c < lba_mod
    lba_small k c p q =
        omega (arith, mul-lt k 256 v.sectors_per_fat 65536 p (omega (arith, h.sectors_per_fat_le)))

    write_copy :
        (d : Disk) (k k' c c' value : ℕ)
        → k < 256
        → k' < 256
        → c < total_slots v
        → c' < total_slots v
        → value < 65536
        → let lba = entry_lba k c in
          copy_entry (ata_write d lba (put16 (ata_read d lba) (entry_off c) value)) k' c'
          ≡ (if (k == k') && (c == c') then value else copy_entry d k' c')
    unfolding copy_entry
    write_copy d k k' c c' value p p' q q' small =
        rw (ata_read-write d (entry_lba k c) _ (entry_lba k' c')) (
          ground (
            arith,
            lba_small k c p q,
            lba_small k' c' p' q',
            copy_unique k k' v.sectors_per_fat (c * 2 / 512) (c' * 2 / 512),
            get16-put16_self (ata_read d (entry_lba k c)) (entry_off c) value,
            get16-put16_ne (ata_read d (entry_lba k c)) (entry_off c) (entry_off c') value,
          ))

    set_copies-copy :
        (d : Disk) (n k k' c c' value : ℕ)
        → k + n ≤ 256
        → k' < 256
        → c < total_slots v
        → c' < total_slots v
        → value < 65536
        → copy_entry (set_copies v n k d c value) k' c'
          ≡ (if leb k k' && (ltb k' (k + n) && (c == c')) then value else copy_entry d k' c')
    unfolding set_copies
    set_copies-copy d zero k k' c c' value p p' q q' small = ground arith
    set_copies-copy d (suc n) k k' c c' value p p' q q' small = ground (
      arith,
      write_copy d k k' c c' value (omega arith) p' q q' small,
      set_copies-copy
          (ata_write d (entry_lba k c) (put16 (ata_read d (entry_lba k c)) (entry_off c) value)) n
          (k + 1) k' c c' value (omega arith) p' q q' small,
    )

    -- On a well-formed volume, `fat_set_entry` of a cluster of the table and a u16 value sets the
    -- entry in every copy of the FAT, and no other entry of the table.
    pub copy_entry-fat_set_entry :
        (d : Disk) (k c c' value : ℕ)
        → k < v.num_fats
        → c < total_slots v
        → c' < total_slots v
        → value < 65536
        → copy_entry (fat_set_entry v d c value) k c'
          ≡ (if c == c' then value else copy_entry d k c')
    unfolding fat_set_entry
    copy_entry-fat_set_entry d k c c' value p q q' small =
        ground (
          arith,
          set_copies-copy d v.num_fats 0 k c c' value (omega arith) (omega arith) q q' small,
        )

    -- On a well-formed volume, what `fat_entry` reads after `fat_set_entry` of a cluster of the table
    -- and a u16 value: the value at its cluster, and what it read
    -- before at any other cluster of the table.
    pub fat_entry-fat_set_entry :
        (d : Disk) (c c' value : ℕ)
        → c < total_slots v
        → c' < total_slots v
        → value < 65536
        → fat_entry v (fat_set_entry v d c value) c' ≡ (if c == c' then value else fat_entry v d c')
    fat_entry-fat_set_entry d c c' value q q' small = ground (
      arith,
      fat_entry-copy d c',
      fat_entry-copy (fat_set_entry v d c value) c',
      copy_entry-fat_set_entry d 0 c c' value h.copies q q' small,
    )
