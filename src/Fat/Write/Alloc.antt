-- ===== src/Fat/Write/Alloc.antt =====
-- The allocation of `fat_write_file`: what a success allocates, and that a failure gives all back.
use yoz_os.Base.{
  ℕ, zero, suc, ◌+◌, ◌-◌, ◌%◌, ◌^◌, ◌≤◌, ◌<◌, ◌≡◌, refl, ◌⊎◌, inl, inr, arith, ◌==◌, if◌then◌else◌,
  false, Bool-cases, List, [], ◌∷◌, ◌++◌, mem, length, All, IsDistinct, mem-append, length-append,
  IsDistinct-append_one, All-append_one, All-mem,
}
use yoz_os.Disk.{Disk}
use yoz_os.Fat.Outcome.{ok, err, no_space}
use yoz_os.Fat.Volume.{Volume, total_slots, last_mark}
use yoz_os.Fat.Volume.Bounds.{IsVolume}
use yoz_os.Fat.Table.{fat_entry, fat_set_entry, fat_find_free, count_free_clusters}
use yoz_os.Fat.Table.Entries.{fat_entry-fat_set_entry}
use yoz_os.Fat.Table.Free.{
  FirstFree, fat_find_free_lem, count_free_clusters-zero_iff, count_free_clusters-set,
}
use yoz_os.Fat.Write.{release, alloc_chain}

module _ (v : Volume) where
  -- A cluster of the table that is free on the disk.
  abbrev pub IsFree : Disk → ℕ → Type 0
  IsFree d x = (2 ≤ x) × (x < total_slots v) × (fat_entry v d x ≡ 0)

  -- `d'` is the disk `d` with the free clusters of `chain` marked as used, and with the count of
  -- free ones down by their number.
  pub record Allocated (d : Disk) (chain : List ℕ) (d' : Disk) : Type 0 where
    pub each : All (IsFree d) chain
    pub distinct : IsDistinct chain
    pub marked :
        (c : ℕ)
        → c < total_slots v
        → fat_entry v d' c ≡ (if mem c chain then last_mark else fat_entry v d c)
    pub count : count_free_clusters v d ≡ count_free_clusters v d' + length chain

  -- The two disks hold the same table.
  abbrev pub SameTable : Disk → Disk → Type 0
  SameTable d d' = (c : ℕ) → c < total_slots v → fat_entry v d' c ≡ fat_entry v d c

  module _ (h : IsVolume v) where
    Allocated-step :
        (d d' : Disk) (chain : List ℕ) (x : ℕ)
        → Allocated d chain d'
        → FirstFree v d' (total_slots v - 2) 2 x
        → Allocated d (chain ++ x ∷ []) (fat_set_entry v d' x last_mark)
    Allocated-step d d' chain x a f =
        let inside : x < total_slots v = omega (arith, f.low, f.high) in
        let new : mem x chain ≡ false = ground (arith, a.marked x inside, f.free) in
        let was_free : fat_entry v d x ≡ 0 = ground (arith, a.marked x inside, f.free) in
        record {
          each = All-append_one (IsFree d) chain x a.each (f.low, inside, was_free);
          distinct = IsDistinct-append_one chain x a.distinct new;
          marked = λ c p. ground (
            arith,
            fat_entry-fat_set_entry v h d' x c last_mark inside p (omega arith),
            a.marked c p,
            mem-append c chain (x ∷ []),
          );
          count = omega (
            arith,
            a.count,
            count_free_clusters-set v h d' x last_mark f.low inside f.free (omega arith)
                (omega arith),
            length-append chain (x ∷ []),
          );
        }

    fat_entry-release :
        (cs : List ℕ) (d : Disk) (c : ℕ)
        → All (λ x. x < total_slots v) cs
        → c < total_slots v
        → fat_entry v (release v cs d) c ≡ (if mem c cs then 0 else fat_entry v d c)
    unfolding release
    fat_entry-release [] d c a p = refl
    fat_entry-release (x ∷ xs) d c a p = ground (
      arith,
      fat_entry-release xs (fat_set_entry v d x 0) c a.1 p,
      fat_entry-fat_set_entry v h d x c 0 a.0 p (omega arith),
    )

    All-below : (d : Disk) (cs : List ℕ) → All (IsFree d) cs → All (λ x. x < total_slots v) cs
    All-below d [] a = tt
    All-below d (x ∷ xs) a = (a.0.1, All-below d xs a.1)

    release-SameTable :
        (d d' : Disk) (chain : List ℕ) → Allocated d chain d' → SameTable d (release v chain d')
    release-SameTable d d' chain a c p = elim (Bool-cases (mem c chain)) [
      | inl e ↦ ground (
        arith,
        fat_entry-release chain d' c (All-below d chain a.each) p,
        (All-mem (IsFree d) chain c a.each e).2,
      )
      | inr e ↦
          ground (arith, fat_entry-release chain d' c (All-below d chain a.each) p, a.marked c p)
    ]

    alloc_chain_from :
        (n : ℕ) (d d' : Disk) (chain : List ℕ)
        → Allocated d chain d'
        → ((all : List ℕ) × (e : Disk) × (alloc_chain v n chain d' ≡ ok all e)
            × (length all ≡ length chain + n)
            × Allocated d all e)
          ⊎ ((e : Disk) × (alloc_chain v n chain d' ≡ err no_space e)
              × (count_free_clusters v d < length chain + n)
              × SameTable d e)
    unfolding alloc_chain
    alloc_chain_from zero d d' chain a = inl (chain, d', refl, omega arith, a)
    alloc_chain_from (suc n) d d' chain a = elim (fat_find_free_lem v d') [
      | inl (z, _) ↦
          let none_left = (count_free_clusters-zero_iff v d').1 z in
          rw z (
            inr (
              release v chain d',
              refl,
              omega (arith, a.count, none_left),
              release-SameTable d d' chain a,
            ))
      | inr f ↦
          let x = fat_find_free v d' in
          let whole : x % 2 ^ 16 ≡ x = omega (arith, f.high, h.sectors_per_fat_le) in
          let some_cluster : (x == 0) ≡ false = ground (arith, f.low) in
          rw (whole, some_cluster)
            (elim (alloc_chain_from n d (fat_set_entry v d' x last_mark) (chain ++ x ∷ [])
              (Allocated-step d d' chain x a f)) [
                | inl (all, e, r, l, b) ↦
                    inl (all, e, r, omega (arith, l, length-append chain (x ∷ [])), b)
                | inr (e, r, l, same) ↦
                    inr (e, r, omega (arith, l, length-append chain (x ∷ [])), same)
              ])
    ]

    -- On a well-formed volume, the allocation loop of `fat_write_file` succeeds or gives everything back: a success has
    -- the number of clusters asked for, all distinct and free before, which it marks as used with
    -- no other change to the table; a failure means that fewer clusters than that were free, and
    -- leaves the table as it was.
    pub alloc_chain_lem :
        (n : ℕ) (d : Disk)
        → ((chain : List ℕ) × (d' : Disk) × (alloc_chain v n [] d ≡ ok chain d')
            × (length chain ≡ n)
            × Allocated d chain d')
          ⊎ ((d' : Disk) × (alloc_chain v n [] d ≡ err no_space d')
              × (count_free_clusters v d < n)
              × SameTable d d')
    alloc_chain_lem n d =
        let start : Allocated d [] d = record {
          each = tt;
          distinct = tt;
          marked = λ c p. refl;
          count = omega arith;
        } in
        elim (alloc_chain_from n d d [] start) [
          | inl (chain, e, r, l, a) ↦ inl (chain, e, r, omega (arith, l), a)
          | inr (e, r, l, same) ↦ inr (e, r, omega (arith, l), same)
        ]
