-- ===== src/Fat/Write/Place.antt =====
-- Where the sector of a directory entry and the clusters of a new chain lie on the disk.
use yoz_os.Base.{
  ℕ, ◌+◌, ◌-◌, ◌*◌, ◌/◌, ◌%◌, ◌^◌, ◌<◌, ◌≤◌, ◌≡◌, ◌≢◌, ◌⊎◌, inl, inr, arith, List, [], ◌∷◌, mem,
  All, true, ℕ_discrete, dec_lt,
}
use native.Mathlib.Nat.{mod-lt, div-add-mod'}
use yoz_os.Disk.{Disk}
use yoz_os.Fat.Volume.{Volume, total_slots, cluster_lba, cluster_bytes}
use yoz_os.Fat.Volume.Bounds.{IsVolume, data_start_lt, cluster_lba_lem, clusters_apart, mul-suc-le}
use yoz_os.Fat.Table.{fat_entry}
use yoz_os.Fat.Table.Release.{IsChain}
use yoz_os.Fat.Table.Frame.{BehindFat}
use yoz_os.Fat.Write.{clusters_for}
use yoz_os.Fat.Write.Alloc.{IsFree}
use yoz_os.Fat.Write.Link.{IsCluster}
use yoz_os.Fat.Write.Content.{OutsideAll, IsDataCluster}

module _ (v : Volume) where
  -- The chain goes on as long as the entries of its own clusters stay.
  pub IsChain-cong_mem :
      (d d' : Disk) (c : ℕ) (cs : List ℕ)
      → ((x : ℕ) → x < total_slots v → mem x cs ≡ true → fat_entry v d' x ≡ fat_entry v d x)
      → IsChain v d c cs
      → IsChain v d' c cs
  IsChain-cong_mem d d' c [] same p = p
  IsChain-cong_mem d d' c (x ∷ xs) same p =
      let here : mem c (x ∷ xs) ≡ true = ground (arith, p.0) in
      (
        p.0,
        p.1,
        p.2,
        p.3,
        rw (same c p.3 here)
            (IsChain-cong_mem d d' (fat_entry v d c) xs (λ y q m. same y q (ground arith)) p.4),
      )

  module _ (h : IsVolume v) where
    -- The clusters for a length are enough for it, and at least one.
    pub clusters_for-enough :
        (len : ℕ)
        → 0 < len
        → len < 2 ^ 31
        → (0 < clusters_for v len) × (len ≤ clusters_for v len * cluster_bytes v)
    clusters_for-enough len some_bytes small =
        let b = cluster_bytes v in
        let sum = (len + b + 2 ^ 32 - 1) % 2 ^ 32 in
        let exact : sum ≡ len + b - 1 = omega (arith, h.sectors, h.sec_per_clus_lt) in
        let parts = div-add-mod' sum b in
        let rest = mod-lt sum {m = b} (omega (arith, h.sectors)) in
        let enough : len ≤ sum / b * b = omega (arith, exact, parts, rest) in
        let positive : 0 < sum / b = elim (ℕ_discrete (sum / b) 0) [
          | yes e ↦ absurd (let none_held = rw e at enough in omega arith)
          | no ne ↦ omega arith
        ] in
        (positive, enough)

    -- No length that the code takes needs more clusters than the chain has space for.
    pub clusters_for-le : (len : ℕ) → len ≤ 8192 → clusters_for v len ≤ 16
    clusters_for-le len small =
        let b = cluster_bytes v in
        let sum = (len + b + 2 ^ 32 - 1) % 2 ^ 32 in
        let exact : sum ≤ len + b - 1 = omega (arith, h.sectors, h.sec_per_clus_lt) in
        let parts = div-add-mod' sum b in
        elim (dec_lt 16 (sum / b)) [
          | no few ↦ omega arith
          | yes more ↦
              absurd (omega (arith, exact, parts, mul-suc-le 16 (sum / b) b more, h.sectors))
        ]

    pub IsFree-IsCluster : (d : Disk) (cs : List ℕ) → All (IsFree v d) cs → All (IsCluster v) cs
    IsFree-IsCluster d [] a = tt
    IsFree-IsCluster d (x ∷ xs) a =
        ((a.0.0, omega (arith, a.0.1, h.sectors_per_fat_le), a.0.1), IsFree-IsCluster d xs a.1)

    pub IsFree-IsDataCluster :
        (d : Disk) (cs : List ℕ) → All (IsFree v d) cs → All (IsDataCluster v h) cs
    IsFree-IsDataCluster d [] a = tt
    IsFree-IsDataCluster d (x ∷ xs) a =
        ((a.0.0, omega (arith, a.0.1, h.sectors_per_fat_le)), IsFree-IsDataCluster d xs a.1)

    pub IsFree-inside :
        (d : Disk) (cs : List ℕ) → All (IsFree v d) cs → All (λ x. x < total_slots v) cs
    IsFree-inside d [] a = tt
    IsFree-inside d (x ∷ xs) a = (a.0.1, IsFree-inside d xs a.1)

    -- A sector of the root directory, or of a cluster that is in use.
    abbrev pub IsDirSector : Disk → ℕ → Type 0
    IsDirSector d l =
        ((v.root_start ≤ l) × (l < v.data_start))
        ⊎ ((c : ℕ) × (k : ℕ) × IsCluster v c
            × (fat_entry v d c ≢ 0)
            × (k < v.sec_per_clus)
            × (l ≡ cluster_lba v c + k))

    pub IsDirSector-BehindFat : (d : Disk) (l : ℕ) → IsDirSector d l → BehindFat v h l
    IsDirSector-BehindFat d l (inl (a, b)) = (a, omega (arith, data_start_lt h))
    IsDirSector-BehindFat d l (inr (c, k, i, u, q, e)) =
        let at = cluster_lba_lem c h i.0 (omega (arith, i.1)) in
        (omega (arith, at.0, h.data_after_root), omega (arith, at.1))

    -- Blocks in front of the data lie in no cluster.
    pub low-OutsideAll :
        (d : Disk) (cs : List ℕ) (l : ℕ)
        → All (IsDataCluster v h) cs
        → l < v.data_start
        → OutsideAll v h cs l
    low-OutsideAll d [] l a q = tt
    low-OutsideAll d (x ∷ xs) l a q =
        (inl (omega (arith, (cluster_lba_lem x h a.0.0 a.0.1).0)), low-OutsideAll d xs l a.1 q)

    -- The sector of a directory lies in no cluster that is free.
    pub IsDirSector-OutsideAll :
        (d : Disk) (cs : List ℕ) (l : ℕ)
        → IsDirSector d l
        → All (IsFree v d) cs
        → OutsideAll v h cs l
    IsDirSector-OutsideAll d [] l p a = tt
    IsDirSector-OutsideAll d (x ∷ xs) l (inl (r, q)) a =
        low-OutsideAll d (x ∷ xs) l (IsFree-IsDataCluster d (x ∷ xs) a) q
    IsDirSector-OutsideAll d (x ∷ xs) l (inr (c, k, i, u, q, e)) a =
        let ne : c ≢ x = λ z. u (let w = a.0.2 in rw z w) in
        (
          rw e (
              clusters_apart c x k h i.0 (omega (arith, i.1)) a.0.0
                (omega (arith, a.0.1, h.sectors_per_fat_le)) ne q),
          IsDirSector-OutsideAll d xs l (inr (c, k, i, u, q, e)) a.1,
        )

    -- The sectors of distinct clusters, seen from one of them.
    pub cluster-BehindFat :
        (x k : ℕ) → IsDataCluster v h x → k < v.sec_per_clus → BehindFat v h (cluster_lba v x + k)
    cluster-BehindFat x k a q =
        let at = cluster_lba_lem x h a.0 a.1 in
        (omega (arith, at.0, h.data_after_root), omega (arith, at.1))
