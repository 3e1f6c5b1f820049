-- ===== src/Fat/Write/Sectors.antt =====
-- The allocation and the links of `fat_write_file` write only in the FAT.
use yoz_os.Base.{
  ℕ, zero, suc, ◌%◌, ◌^◌, ◌<◌, ◌≡◌, refl, ◌∙◌, inl, inr, arith, ◌==◌, List, [], ◌∷◌, ◌++◌, All,
  All-append_one, false,
}
use yoz_os.Disk.{Disk, ata_read}
use yoz_os.Fat.Outcome.{Outcome, ok, err, stuck}
use yoz_os.Fat.Volume.{Volume, total_slots, last_mark}
use yoz_os.Fat.Volume.Bounds.{IsVolume}
use yoz_os.Fat.Table.{fat_set_entry, fat_find_free}
use yoz_os.Fat.Table.Free.{fat_find_free_lem}
use yoz_os.Fat.Table.Frame.{BehindFat, fat_set_entry-other}
use yoz_os.Fat.Write.{release, alloc_chain, link_chain}

module _ (v : Volume) (h : IsVolume v) (l : ℕ) (behind : BehindFat v h l) where
  -- The call leaves the sector `l` of the disk `d`.
  abbrev pub KeepsSector : Disk → Outcome (List ℕ) → Type 0
  KeepsSector d (ok a d') = ata_read d' l ≡ ata_read d l
  KeepsSector d (err e d') = ata_read d' l ≡ ata_read d l
  KeepsSector d stuck = Unit {0}

  abbrev InTable : List ℕ → Type 0
  InTable cs = All (λ x. x < total_slots v) cs

  release-other : (cs : List ℕ) (d : Disk) → InTable cs → ata_read (release v cs d) l ≡ ata_read d l
  unfolding release
  release-other [] d a = refl
  release-other (x ∷ xs) d a =
      release-other xs (fat_set_entry v d x 0) a.1 ∙ fat_set_entry-other v h d x 0 l a.0 behind

  pub link_chain-other :
      (cs : List ℕ) (d : Disk) → InTable cs → ata_read (link_chain v cs d) l ≡ ata_read d l
  unfolding link_chain
  link_chain-other [] d a = refl
  link_chain-other (x ∷ []) d a = fat_set_entry-other v h d x last_mark l a.0 behind
  link_chain-other (x ∷ y ∷ cs) d a =
      link_chain-other (y ∷ cs) (fat_set_entry v d x y) a.1
      ∙ fat_set_entry-other v h d x y l a.0 behind

  pub alloc_chain-other :
      (n : ℕ) (chain : List ℕ) (d d0 : Disk)
      → InTable chain
      → ata_read d l ≡ ata_read d0 l
      → KeepsSector d0 (alloc_chain v n chain d)
  unfolding alloc_chain
  alloc_chain-other zero chain d d0 a e = e
  alloc_chain-other (suc n) chain d d0 a e = elim (fat_find_free_lem v d) [
    | inl (z, _) ↦ rw z (release-other chain d a ∙ e)
    | inr f ↦
        let x = fat_find_free v d in
        let inside : x < total_slots v = omega (arith, f.low, f.high) in
        let whole : x % 2 ^ 16 ≡ x = omega (arith, f.high, h.sectors_per_fat_le) in
        let some_cluster : (x == 0) ≡ false = ground (arith, f.low) in
        rw (whole, some_cluster)
          (alloc_chain-other n (chain ++ x ∷ []) (fat_set_entry v d x last_mark) d0
            (All-append_one (λ y. y < total_slots v) chain x a inside)
            (fat_set_entry-other v h d x last_mark l inside behind ∙ e))
  ]
