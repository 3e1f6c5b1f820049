-- ===== src/Fat/Table/Release.antt =====
-- `free_chain` on a chain that ends: which entries it clears.
use yoz_os.Base.{
  ℕ, ◌≤◌, ◌<◌, ◌≡◌, refl, subst, inl, inr, arith, ◌==◌, ltb, leb, ◌&&◌, if◌then◌else◌, true, false,
  Bool-cases, List, [], ◌∷◌, mem, length, IsDistinct,
}
use yoz_os.Disk.{Disk}
use yoz_os.Fat.Volume.{Volume, total_slots, end_of_chain}
use yoz_os.Fat.Volume.Bounds.{IsVolume}
use yoz_os.Fat.Table.{fat_entry, fat_set_entry, free_chain}
use yoz_os.Fat.Table.Entries.{fat_entry-fat_set_entry}
use yoz_os.Fat.Table.Chain.{free_chain_lem}

module _ (v : Volume) where
  -- The clusters `cs` are linked in the table from `c` on, and the last link is no cluster.
  abbrev pub IsChain : Disk → ℕ → List ℕ → Type 0
  IsChain d c [] = (ltb c end_of_chain && leb 2 c) ≡ false
  IsChain d c (x ∷ xs) =
      (x ≡ c) × (2 ≤ c) × (c < end_of_chain) × (c < total_slots v) × IsChain d (fat_entry v d c) xs

  length-IsChain :
      (d : Disk) (c : ℕ) (xs ys : List ℕ) → IsChain d c xs → IsChain d c ys → length xs ≡ length ys
  length-IsChain d c [] [] p q = refl
  length-IsChain d c [] (y ∷ ys) p q = ground arith
  length-IsChain d c (x ∷ xs) [] p q = ground arith
  length-IsChain d c (x ∷ xs) (y ∷ ys) p q =
      omega (arith, length-IsChain d (fat_entry v d c) xs ys p.4 q.4)

  -- A cluster of the chain heads a chain that is no longer.
  tail-IsChain :
      (d : Disk) (a c : ℕ) (xs : List ℕ)
      → IsChain d c xs
      → mem a xs ≡ true
      → (ys : List ℕ) × IsChain d a ys × (length ys ≤ length xs)
  tail-IsChain d a c [] p m = cc
  tail-IsChain d a c (x ∷ xs) p m = elim (Bool-cases (a == x)) [
    | inl e ↦
        let same : c ≡ a = ground arith in
        (x ∷ xs, subst (λ b. IsChain d b (x ∷ xs)) same p, omega arith)
    | inr e ↦
        let (ys, q, l) = tail-IsChain d a (fat_entry v d c) xs p.4 (ground arith) in
        (ys, q, omega arith)
  ]

  -- A chain that ends does not come back to its first cluster.
  pub not-mem-IsChain : (d : Disk) (c x : ℕ) (xs : List ℕ) → IsChain d c (x ∷ xs) → mem c xs ≡ false
  not-mem-IsChain d c x xs p = elim (Bool-cases (mem c xs)) [
    | inr e ↦ e
    | inl e ↦
        let (ys, q, l) = tail-IsChain d c (fat_entry v d c) xs p.4 e in
        absurd (omega (arith, length-IsChain d c (x ∷ xs) ys p q))
  ]

  -- No cluster stands twice in a chain that ends.
  pub IsChain-IsDistinct : (d : Disk) (c : ℕ) (cs : List ℕ) → IsChain d c cs → IsDistinct cs
  IsChain-IsDistinct d c [] p = tt
  IsChain-IsDistinct d c (x ∷ xs) p =
      (ground (arith, not-mem-IsChain d c x xs p), IsChain-IsDistinct d (fat_entry v d c) xs p.4)

  module _ (h : IsVolume v) where
    pub IsChain-set :
        (d : Disk) (a value c : ℕ) (xs : List ℕ)
        → a < total_slots v
        → value < 65536
        → mem a xs ≡ false
        → IsChain d c xs
        → IsChain (fat_set_entry v d a value) c xs
    IsChain-set d a value c [] p small m q = q
    IsChain-set d a value c (x ∷ xs) p small m q =
        let next : fat_entry v (fat_set_entry v d a value) c ≡ fat_entry v d c =
          ground (arith, fat_entry-fat_set_entry v h d a c value p q.3 small) in
        (
          q.0,
          q.1,
          q.2,
          q.3,
          rw next (IsChain-set d a value (fat_entry v d c) xs p small (ground arith) q.4),
        )

    -- On a well-formed volume, `free_chain` on a chain that ends clears the entries of the chain, and
    -- no other entry of the table.
    pub fat_entry-free_chain :
        (d : Disk) (c : ℕ) (cs : List ℕ) (c' : ℕ)
        → IsChain d c cs
        → c' < total_slots v
        → fat_entry v (free_chain v d c) c' ≡ (if mem c' cs then 0 else fat_entry v d c')
    fat_entry-free_chain d c [] c' p q = rw (free_chain_lem v h.copies d c, p)
    fat_entry-free_chain d c (x ∷ xs) c' p q =
        let go : (ltb c end_of_chain && leb 2 c) ≡ true = ground arith in
        let rest =
          IsChain-set d c 0 (fat_entry v d c) xs p.3 (omega arith) (not-mem-IsChain d c x xs p)
            p.4 in
        rw (free_chain_lem v h.copies d c, go)
          (ground (
            arith,
            fat_entry-free_chain (fat_set_entry v d c 0) (fat_entry v d c) xs c' rest q,
            fat_entry-fat_set_entry v h d c c' 0 p.3 q (omega arith),
          ))
