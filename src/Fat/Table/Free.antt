-- ===== src/Fat/Table/Free.antt =====
-- The search for a free cluster, and the count of the free ones.
use yoz_os.Base.{
  ℕ, zero, suc, ◌+◌, ◌-◌, ◌≤◌, ◌<◌, ◌≡◌, ◌≢◌, refl, ◌↔◌, ◌⊎◌, inl, inr, arith, ◌==◌, ltb, leb, ◌&&◌,
  if◌then◌else◌, Bool-cases, ==_iff,
}
use yoz_os.Disk.{Disk}
use yoz_os.Fat.Volume.{Volume, total_slots}
use yoz_os.Fat.Volume.Bounds.{IsVolume}
use yoz_os.Fat.Table.{
  fat_entry, fat_set_entry, find_free_from, fat_find_free, count_free_from, count_free_clusters,
}
use yoz_os.Fat.Table.Entries.{fat_entry-fat_set_entry}

module _ (v : Volume) where
  -- None of the clusters `c`, …, `c + n - 1` is free.
  abbrev pub NoneFree : Disk → (n c : ℕ) → Type 0
  NoneFree d n c = (i : ℕ) → c ≤ i → i < c + n → fat_entry v d i ≢ 0

  -- `r` is the first free cluster of `c`, …, `c + n - 1`.
  pub record FirstFree (d : Disk) (n c r : ℕ) : Type 0 where
    pub low : c ≤ r
    pub high : r < c + n
    pub free : fat_entry v d r ≡ 0
    pub first : (i : ℕ) → c ≤ i → i < r → fat_entry v d i ≢ 0

  find_free_from_lem :
      (d : Disk) (n c : ℕ)
      → ((find_free_from v n c d ≡ 0) × NoneFree d n c) ⊎ FirstFree d n c (find_free_from v n c d)
  unfolding find_free_from
  find_free_from_lem d zero c = inl (refl, λ i p q. absurd (omega arith))
  find_free_from_lem d (suc n) c = elim (Bool-cases (fat_entry v d c == 0)) [
    | inl e ↦ rw e (
        inr (record {
          low = omega arith;
          high = omega arith;
          free = (==_iff _ _).0 e;
          first = λ i p q. absurd (omega arith);
        }))
    | inr e ↦ rw e (elim (find_free_from_lem d n (c + 1)) [
      | inl (z, all) ↦ inl (z, λ i p q. ground (arith, all i))
      | inr f ↦ inr (record {
        low = omega arith;
        high = omega arith;
        free = f.free;
        first = λ i p q. ground (arith, f.first i);
      })
    ])
  ]

  -- `fat_find_free` returns the first free cluster of the table from cluster 2 on, and 0 exactly
  -- if the table has none.
  pub fat_find_free_lem :
      (d : Disk)
      → ((fat_find_free v d ≡ 0) × NoneFree d (total_slots v - 2) 2)
        ⊎ FirstFree d (total_slots v - 2) 2 (fat_find_free v d)
  unfolding fat_find_free
  fat_find_free_lem d = find_free_from_lem d (total_slots v - 2) 2

  count_free_from-zero : (d : Disk) (n c : ℕ) → count_free_from v n c d ≡ 0 → NoneFree d n c
  unfolding count_free_from
  count_free_from-zero d zero c e i p q = absurd (omega arith)
  count_free_from-zero d (suc n) c e i p q = elim (Bool-cases (c == i)) [
    | inl h ↦ ground arith
    | inr h ↦ ground (arith, count_free_from-zero d n (c + 1) (ground arith) i)
  ]

  NoneFree-count_free_from : (d : Disk) (n c : ℕ) → NoneFree d n c → count_free_from v n c d ≡ 0
  unfolding count_free_from
  NoneFree-count_free_from d zero c all = refl
  NoneFree-count_free_from d (suc n) c all = ground (
    arith,
    all c,
    NoneFree-count_free_from d n (c + 1) (λ i p q. all i (omega arith) (omega arith)),
  )

  -- `count_free_clusters` is 0 exactly if `fat_find_free` finds none.
  pub count_free_clusters-zero_iff :
      (d : Disk) → (count_free_clusters v d ≡ 0) ↔ (fat_find_free v d ≡ 0)
  unfolding count_free_clusters
  count_free_clusters-zero_iff d = elim (fat_find_free_lem d) [
    | inl (z, all) ↦ (λ _. z, λ _. NoneFree-count_free_from d (total_slots v - 2) 2 all)
    | inr f ↦ (
      λ e. absurd (count_free_from-zero d _ 2 e (fat_find_free v d) f.low f.high f.free),
      λ e. absurd (omega (arith, f.low)),
    )
  ]

  module _ (h : IsVolume v) where
    count_free_from-set :
        (d : Disk) (n c x value : ℕ)
        → x < total_slots v
        → c + n ≤ total_slots v
        → fat_entry v d x ≡ 0
        → value < 65536
        → value ≢ 0
        → count_free_from v n c d
          ≡ count_free_from v n c (fat_set_entry v d x value)
            + (if leb c x && ltb x (c + n) then 1 else 0)
    unfolding count_free_from
    count_free_from-set d zero c x value p q e small ne = ground arith
    count_free_from-set d (suc n) c x value p q e small ne = ground (
      arith,
      fat_entry-fat_set_entry v h d x c value p (omega arith) small,
      count_free_from-set d n (c + 1) x value p (omega arith) e small ne,
    )

    -- On a well-formed volume, a u16 mark other than 0 in a free entry of the table takes one from the count of `count_free_clusters`.
    pub count_free_clusters-set :
        (d : Disk) (x value : ℕ)
        → 2 ≤ x
        → x < total_slots v
        → fat_entry v d x ≡ 0
        → value < 65536
        → value ≢ 0
        → count_free_clusters v d ≡ count_free_clusters v (fat_set_entry v d x value) + 1
    unfolding count_free_clusters
    count_free_clusters-set d x value low p e small ne =
        ground
          (arith, count_free_from-set d (total_slots v - 2) 2 x value p (omega arith) e small ne)
