-- ===== src/Fat/Table/Chain.antt =====
-- `free_chain` ends on every table, cyclic ones too, and frees the clusters of the chain.
use yoz_os.Base.{
  ℕ, zero, suc, ◌+◌, ◌*◌, ◌/◌, ◌%◌, ◌≤◌, ◌<◌, ◌≡◌, ◌≢◌, refl, sym, ap, ◌∙◌, inl, inr, arith, ◌==◌,
  ltb, leb, ◌&&◌, if◌then◌else◌, Bool-cases, ==_iff, some, some_inj, some-or_default,
}
use yoz_os.Disk.{Disk, put16, ata_read, ata_write}
use yoz_os.Fat.Volume.{Volume, end_of_chain}
use yoz_os.Fat.Table.{fat_entry, set_copies, fat_set_entry, free_chain_loop, chain_fuel, free_chain}
use yoz_os.Fat.Table.Entries.{entry_off}

module _ (v : Volume) where
  pub fat_entry-lt : (d : Disk) (c : ℕ) → fat_entry v d c < 65536
  unfolding fat_entry
  fat_entry-lt d c = omega arith

  free_chain_loop-stop :
      (fuel : ℕ) (d : Disk) (c : ℕ) → 0 < fuel → c < 2 → free_chain_loop v fuel c d ≡ some d
  unfolding free_chain_loop
  free_chain_loop-stop zero d c p q = absurd (omega arith)
  free_chain_loop-stop (suc fuel) d c p q = ground arith

  -- More fuel does not change the result.
  free_chain_loop-suc :
      (fuel c : ℕ) (d : Disk) {r : Disk}
      → free_chain_loop v fuel c d ≡ some r
      → free_chain_loop v (suc fuel) c d ≡ some r
  unfolding free_chain_loop
  free_chain_loop-suc zero c d e = cc
  free_chain_loop-suc (suc fuel) c d e = elim (Bool-cases (ltb c end_of_chain && leb 2 c)) [
    | inl t ↦ rw t (free_chain_loop-suc fuel (fat_entry v d c) (fat_set_entry v d c 0) (rw t at e))
    | inr t ↦ rw t (rw t at e)
  ]

  free_chain_loop-step :
      (fuel c : ℕ) (d : Disk)
      → free_chain_loop v (suc fuel) c d ≡ (
          if ltb c end_of_chain && leb 2 c
          then free_chain_loop v fuel (fat_entry v d c) (fat_set_entry v d c 0)
          else some d)
  unfolding free_chain_loop
  free_chain_loop-step fuel c d = refl

  -- Writes of 0 clear words and change no other, wherever they fall.
  write_zero :
      (d : Disk) (lba c c' : ℕ)
      → fat_entry v d c' ≡ 0
      → fat_entry v (ata_write d lba (put16 (ata_read d lba) (entry_off v c) 0)) c' ≡ 0
  unfolding fat_entry ata_read ata_write
  write_zero d lba c c' e = ground arith

  set_copies-keeps_zero :
      (n k : ℕ) (d : Disk) (c c' : ℕ)
      → fat_entry v d c' ≡ 0
      → fat_entry v (set_copies v n k d c 0) c' ≡ 0
  unfolding set_copies
  set_copies-keeps_zero zero k d c c' e = e
  set_copies-keeps_zero (suc n) k d c c' e =
      let lba = v.fat_start + k * v.sectors_per_fat + c * 2 / 512 in
      set_copies-keeps_zero n (k + 1)
        (ata_write d lba (put16 (ata_read d lba) (2 * ((c * 2 % 512) / 2)) 0)) c c'
        (write_zero d lba c c' e)

  -- The release of an entry clears no other entry's 0.
  clear-keeps_zero :
      (d : Disk) (c c' : ℕ) → fat_entry v d c' ≡ 0 → fat_entry v (fat_set_entry v d c 0) c' ≡ 0
  unfolding fat_set_entry
  clear-keeps_zero d c c' e = set_copies-keeps_zero v.num_fats 0 d c c' e

  first_copy_zero :
      (d : Disk) (c : ℕ)
      → let lba = v.fat_start + 0 * v.sectors_per_fat + c * 2 / 512 in
        fat_entry v (ata_write d lba (put16 (ata_read d lba) (2 * ((c * 2 % 512) / 2)) 0)) c ≡ 0
  unfolding fat_entry ata_read ata_write
  first_copy_zero d c = ground arith

  -- With a copy of the FAT at hand, the entry that is released reads 0.
  clear_self : (n : ℕ) (d : Disk) (c : ℕ) → 0 < n → fat_entry v (set_copies v n 0 d c 0) c ≡ 0
  unfolding set_copies
  clear_self zero d c p = absurd (omega arith)
  clear_self (suc n) d c p = set_copies-keeps_zero n (0 + 1) _ c c (first_copy_zero d c)

  -- The entries that are not 0 among the first `n`.
  used_below : ℕ → Disk → ℕ
  used_below zero d = 0
  used_below (suc n) d = (if fat_entry v d n == 0 then 0 else 1) + used_below n d

  used_below-le : (n : ℕ) (d : Disk) → used_below n d ≤ n
  unfolding used_below
  used_below-le zero d = omega arith
  used_below-le (suc n) d = ground (arith, used_below-le n d)

  used_below_mono :
      (n : ℕ) (d : Disk) (c : ℕ) → used_below n (fat_set_entry v d c 0) ≤ used_below n d
  unfolding used_below
  used_below_mono zero d c = omega arith
  used_below_mono (suc n) d c = ground (arith, used_below_mono n d c, clear-keeps_zero d c n)

  module _ (copies : 0 < v.num_fats) where
    -- The release of a used entry takes one from their number.
    used_below-clear :
        (n : ℕ) (d : Disk) (c : ℕ)
        → c < n
        → fat_entry v d c ≢ 0
        → used_below n (fat_set_entry v d c 0) < used_below n d
    unfolding used_below fat_set_entry
    used_below-clear zero d c p ne = absurd (omega arith)
    used_below-clear (suc n) d c p ne = elim (Bool-cases (c == n)) [
      | inl e ↦ ground (
        arith,
        used_below_mono n d c,
        clear_self v.num_fats d c copies,
        ap (fat_entry v d) ((==_iff c n).0 e),
        ap (fat_entry v (fat_set_entry v d c 0)) ((==_iff c n).0 e),
      )
      | inr e ↦ ground (arith, used_below-clear n d c, clear-keeps_zero d c n)
    ]

    free_chain_loop-total :
        (fuel : ℕ) (d : Disk) (c : ℕ)
        → used_below end_of_chain d + 2 ≤ fuel
        → (d' : Disk) × (free_chain_loop v fuel c d ≡ some d')
    unfolding free_chain_loop
    free_chain_loop-total zero d c p = absurd (omega arith)
    free_chain_loop-total (suc fuel) d c p = elim (Bool-cases (ltb c end_of_chain && leb 2 c)) [
      | inr e ↦ (d, rw e)
      | inl e ↦ rw e (elim (Bool-cases (fat_entry v d c == 0)) [
        | inl z ↦
            rw ((==_iff (fat_entry v d c) 0).0 z)
              (fat_set_entry v d c 0, free_chain_loop-stop fuel _ 0 (omega arith) (omega arith))
        | inr u ↦
            free_chain_loop-total fuel (fat_set_entry v d c 0) (fat_entry v d c)
              (omega (arith, used_below-clear end_of_chain d c (ground arith) (ground arith)))
      ])
    ]

    -- With at least one copy of the FAT, the fuel of `free_chain` is enough on every disk: the loop
    -- ends, also along a cycle.
    pub free_chain-ends :
        (d : Disk) (c : ℕ) → free_chain_loop v chain_fuel c d ≡ some (free_chain v d c)
    unfolding free_chain
    free_chain-ends d c =
        some-or_default d _
          (free_chain_loop-total chain_fuel d c (omega (arith, used_below-le end_of_chain d))).1

    -- `free_chain` is its loop: one round releases the cluster and goes on at the next one.
    pub free_chain_lem :
        (d : Disk) (c : ℕ)
        → free_chain v d c ≡ (
            if ltb c end_of_chain && leb 2 c
            then free_chain v (fat_set_entry v d c 0) (fat_entry v d c)
            else d)
    free_chain_lem d c =
        let whole = sym (free_chain_loop-suc chain_fuel c d (free_chain-ends d c)) in
        let step = whole ∙ free_chain_loop-step chain_fuel c d in
        elim (Bool-cases (ltb c end_of_chain && leb 2 c)) [
          | inl t ↦
              rw t (
                some_inj (rw t at step ∙ free_chain-ends (fat_set_entry v d c 0) (fat_entry v d c)))
          | inr t ↦ rw t (some_inj (rw t at step))
        ]
