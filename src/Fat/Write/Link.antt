-- ===== src/Fat/Write/Link.antt =====
-- `link_chain` makes a list of distinct clusters a chain of the table.
use yoz_os.Base.{
  ℕ, ◌≤◌, ◌<◌, ◌≡◌, refl, arith, ◌&&◌, ltb, leb, false, List, [], ◌∷◌, mem, All, IsDistinct,
}
use yoz_os.Disk.{Disk}
use yoz_os.Fat.Volume.{Volume, total_slots, last_mark, end_of_chain}
use yoz_os.Fat.Volume.Bounds.{IsVolume}
use yoz_os.Fat.Table.{fat_entry, fat_set_entry}
use yoz_os.Fat.Table.Entries.{fat_entry-fat_set_entry}
use yoz_os.Fat.Table.Release.{IsChain}
use yoz_os.Fat.Write.{link_chain}

module _ (v : Volume) where
  -- A number of a cluster of the table.
  abbrev pub IsCluster : ℕ → Type 0
  IsCluster x = (2 ≤ x) × (x < end_of_chain) × (x < total_slots v)

  module _ (h : IsVolume v) where
    -- The entries of no other cluster change.
    pub fat_entry-link_chain_other :
        (cs : List ℕ) (d : Disk) (c : ℕ)
        → All IsCluster cs
        → c < total_slots v
        → mem c cs ≡ false
        → fat_entry v (link_chain v cs d) c ≡ fat_entry v d c
    unfolding link_chain
    fat_entry-link_chain_other [] d c a p m = refl
    fat_entry-link_chain_other (x ∷ []) d c a p m =
        ground (arith, fat_entry-fat_set_entry v h d x c last_mark a.0.2 p (omega arith))
    fat_entry-link_chain_other (x ∷ y ∷ cs) d c a p m = ground (
      arith,
      fat_entry-link_chain_other (y ∷ cs) (fat_set_entry v d x y) c a.1 p,
      fat_entry-fat_set_entry v h d x c y a.0.2 p (omega arith),
    )

    -- On a well-formed volume, the links that `fat_write_file` writes make distinct clusters of the
    -- table a chain that begins at the first, has them in this order, and ends.
    pub link_chain-IsChain :
        (x : ℕ) (cs : List ℕ) (d : Disk)
        → All IsCluster (x ∷ cs)
        → IsDistinct (x ∷ cs)
        → IsChain v (link_chain v (x ∷ cs) d) x (x ∷ cs)
    unfolding link_chain
    link_chain-IsChain x [] d a u = (refl, a.0.0, a.0.1, a.0.2, last)
      where
        last :
            (ltb (fat_entry v (fat_set_entry v d x last_mark) x) end_of_chain
              && leb 2 (fat_entry v (fat_set_entry v d x last_mark) x))
            ≡ false
        last = ground (arith, fat_entry-fat_set_entry v h d x x last_mark a.0.2 a.0.2 (omega arith))
    link_chain-IsChain x (y ∷ cs) d a u =
        let d1 = fat_set_entry v d x y in
        let next : fat_entry v (link_chain v (y ∷ cs) d1) x ≡ y = ground (
          arith,
          fat_entry-link_chain_other (y ∷ cs) d1 x a.1 a.0.2 u.0,
          fat_entry-fat_set_entry v h d x x y a.0.2 a.0.2 (omega arith),
        ) in
        (refl, a.0.0, a.0.1, a.0.2, rw next (link_chain-IsChain y cs d1 a.1 u.1))
