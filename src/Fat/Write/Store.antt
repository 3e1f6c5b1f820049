-- ===== src/Fat/Write/Store.antt =====
-- `fat_write_file` behind its checks: the file that it leaves.
use yoz_os.Base.{
  ℕ, ◌+◌, ◌*◌, ◌%◌, ◌^◌, ◌<◌, ◌≤◌, ◌≡◌, ◌≢◌, refl, ap, ◌∙◌, ◌⊎◌, inl, inr, arith, ◌==◌, ltb,
  if◌then◌else◌, List, [], ◌∷◌, mem, length, All, All-mem, Bool-cases, true, false, subst,
}
use yoz_os.Disk.{Disk, Buffer, lba_mod, ata_read, ata_read-write}
use yoz_os.Fat.Outcome.{ok, err, no_space}
use yoz_os.Fat.Volume.{Volume, total_slots, max_chain_clusters, cluster_lba, cluster_bytes}
use yoz_os.Fat.Volume.Bounds.{IsVolume, data_start_lt}
use yoz_os.Fat.Entry.{entry_attr, entry_first_cluster, entry_size}
use yoz_os.Fat.Table.{fat_entry, free_chain, count_free_clusters}
use yoz_os.Fat.Table.Release.{IsChain, fat_entry-free_chain}
use yoz_os.Fat.Table.Frame.{BehindFat, free_chain-other, fat_entry-frame}
use yoz_os.Fat.Dir.{Slot, dir_write_entry, fill_entry}
use yoz_os.Fat.Dir.Fill.{
  entry_attr-fill_entry, entry_first_cluster-fill_entry, entry_size-fill_entry,
}
use yoz_os.Fat.Read.Loop.{Stores}
use yoz_os.Fat.Write.{
  clusters_for, alloc_chain, link_chain, write_clusters, head_or_zero, store_file,
}
use yoz_os.Fat.Write.Alloc.{IsFree, Allocated, SameTable, alloc_chain_lem}
use yoz_os.Fat.Write.Link.{fat_entry-link_chain_other, link_chain-IsChain}
use yoz_os.Fat.Write.Content.{
  OutsideAll, IsDataCluster, Stores-frame, write_clusters-other, write_clusters-Stores,
}
use yoz_os.Fat.Write.Sectors.{KeepsSector, link_chain-other, alloc_chain-other}
use yoz_os.Fat.Write.Place.{
  IsChain-cong_mem, clusters_for-enough, clusters_for-le, IsFree-IsCluster, IsFree-IsDataCluster,
  IsFree-inside, IsDirSector, IsDirSector-BehindFat, low-OutsideAll, IsDirSector-OutsideAll,
  cluster-BehindFat,
}

module _ (v : Volume) (h : IsVolume v) where
  -- The disk `d'` holds the new file: its bytes in a chain of clusters that were free, which the
  -- entry in the slot names with the size; the clusters `old` of the file before are free; and
  -- nothing else changes.
  pub record Stored (d : Disk) (s : Slot) (n83 old : List ℕ) (src : Buffer) (len : ℕ)
      (chain : List ℕ) (d' : Disk) : Type 0 where
    pub fresh : All (IsFree v d) chain
    pub long : len ≤ length chain * cluster_bytes v
    pub linked : IsChain v d' (head_or_zero v chain) chain
    pub bytes : Stores v d' chain 0 len src
    pub sector :
        ata_read d' s.lba ≡ fill_entry (ata_read d s.lba) s.idx n83 (head_or_zero v chain) len 0x20
    pub size : entry_size (ata_read d' s.lba) s.idx ≡ len
    pub first : entry_first_cluster (ata_read d' s.lba) s.idx ≡ head_or_zero v chain
    pub attr : entry_attr (ata_read d' s.lba) s.idx ≡ 0x20
    pub table :
        (c : ℕ)
        → c < total_slots v
        → mem c chain ≡ false
        → fat_entry v d' c ≡ (if mem c old then 0 else fat_entry v d c)
    pub others :
        (l : ℕ)
        → BehindFat v h l
        → l ≢ s.lba
        → OutsideAll v h chain l
        → ata_read d' l ≡ ata_read d l

  module _ (d : Disk) (s : Slot) (old : List ℕ) (src : Buffer) (len : ℕ) (x : ℕ) (xs : List ℕ)
      (d1 : Disk) (a : Allocated v d (x ∷ xs) d1)
      (kept : (l : ℕ) → BehindFat v h l → ata_read d1 l ≡ ata_read d l) (old_clus : ℕ)
      (was : IsChain v d old_clus old) (used : (c : ℕ) → mem c old ≡ true → fat_entry v d c ≢ 0)
      (place : IsDirSector v h d s.lba) (n83 : List ℕ) where
    abbrev chain : List ℕ
    chain = x ∷ xs

    abbrev d2 : Disk
    d2 = link_chain v chain d1

    abbrev d3 : Disk
    d3 = write_clusters v chain src len 0 d2

    abbrev d4 : Disk
    d4 = free_chain v d3 old_clus

    clusters : All (IsDataCluster v h) chain
    clusters = IsFree-IsDataCluster v h d chain a.each

    -- A cluster of the old file is none of the new ones.
    apart : (c : ℕ) → mem c old ≡ true → mem c chain ≡ false
    apart c m = elim (Bool-cases (mem c chain)) [
      | inr e ↦ e
      | inl e ↦ absurd (used c m (All-mem (IsFree v d) chain c a.each e).2)
    ]

    apart_new : (c : ℕ) → mem c chain ≡ true → mem c old ≡ false
    apart_new c m = elim (Bool-cases (mem c old)) [ inr e ↦ e | inl e ↦ ground (arith, apart c e) ]

    table3 : (c : ℕ) → c < total_slots v → fat_entry v d3 c ≡ fat_entry v d2 c
    table3 c q = fat_entry-frame v h d2 d3 c q λ l low.
        write_clusters-other v h chain src len 0 d2 l clusters
          (omega (arith, data_start_lt h, h.data_after_root))
          (low-OutsideAll v h d chain l clusters (omega (arith, h.data_after_root)))

    table_kept :
        (c : ℕ) → c < total_slots v → mem c chain ≡ false → fat_entry v d3 c ≡ fat_entry v d c
    table_kept c q m =
        let two =
          fat_entry-link_chain_other v h chain d1 c (IsFree-IsCluster v h d chain a.each) q m in
        let one = a.marked c q in table3 c q ∙ two ∙ ground (arith, one, m)

    old3 : IsChain v d3 old_clus old
    old3 = IsChain-cong_mem v d d3 old_clus old (λ c q m. table_kept c q (apart c m)) was

    abbrev d5 : Disk
    d5 = dir_write_entry s n83 x len 0x20 d4

    behind : BehindFat v h s.lba
    behind = IsDirSector-BehindFat v h d s.lba place

    outside : OutsideAll v h chain s.lba
    outside = IsDirSector-OutsideAll v h d chain s.lba place a.each

    read5 : (l : ℕ) → l < lba_mod → l ≢ s.lba → ata_read d5 l ≡ ata_read d4 l
    unfolding dir_write_entry
    read5 l q ne =
        let away : (l % lba_mod == s.lba % lba_mod) ≡ false = ground (arith, behind.1) in
        ata_read-write d4 s.lba (fill_entry (ata_read d4 s.lba) s.idx n83 x len 0x20) l
        ∙ rw away refl

    entry5 : ata_read d5 s.lba ≡ fill_entry (ata_read d4 s.lba) s.idx n83 x len 0x20
    unfolding dir_write_entry
    entry5 =
        let here : (s.lba % lba_mod == s.lba % lba_mod) ≡ true = ground arith in
        ata_read-write d4 s.lba (fill_entry (ata_read d4 s.lba) s.idx n83 x len 0x20) s.lba
        ∙ rw here refl

    table5 :
        (c : ℕ) → c < total_slots v → fat_entry v d5 c ≡ (if mem c old then 0 else fat_entry v d3 c)
    table5 c q =
        fat_entry-frame v h d4 d5 c q
          (λ l low. read5 l (omega (arith, behind.1, behind.0)) (λ e. omega (arith, behind.0)))
        ∙ fat_entry-free_chain v h d3 old_clus old c old3 q

    linked5 : IsChain v d5 x chain
    linked5 =
        IsChain-cong_mem v d2 d5 x chain (λ c q m. table5 c q ∙ (rw (apart_new c m) (table3 c q)))
          (link_chain-IsChain v h x xs d1 (IsFree-IsCluster v h d chain a.each) a.distinct)

    later : (l : ℕ) → BehindFat v h l → l ≢ s.lba → ata_read d5 l ≡ ata_read d3 l
    later l b ne = read5 l b.1 ne ∙ free_chain-other v h old d3 old_clus l old3 b

    sectors_kept :
        (cs : List ℕ)
        → All (IsDataCluster v h) cs
        → OutsideAll v h cs s.lba
        → All
            (λ c.
              (k : ℕ)
              → k < v.sec_per_clus
              → ata_read d5 (cluster_lba v c + k) ≡ ata_read d3 (cluster_lba v c + k))
            cs
    sectors_kept [] i o = tt
    sectors_kept (c ∷ cs) i o = (
      λ k q.
          later (cluster_lba v c + k) (cluster-BehindFat v h c k i.0 q)
            (λ e. elim o.0 [ inl low ↦ omega arith | inr high ↦ omega arith ]),
      sectors_kept cs i.1 o.1,
    )

    bytes5 : Stores v d5 chain 0 len src
    bytes5 =
        Stores-frame v h d3 d5 chain 0 len src (sectors_kept chain clusters outside)
          (write_clusters-Stores v h chain src len 0 d2 clusters a.distinct (omega arith))

    others5 :
        (l : ℕ)
        → BehindFat v h l
        → l ≢ s.lba
        → OutsideAll v h chain l
        → ata_read d5 l ≡ ata_read d l
    others5 l b ne o =
        later l b ne
        ∙ write_clusters-other v h chain src len 0 d2 l clusters b.1 o
        ∙ link_chain-other v h l b chain d1 (IsFree-inside v h d chain a.each)
        ∙ kept l b

    before : ata_read d4 s.lba ≡ ata_read d s.lba
    before =
        free_chain-other v h old d3 old_clus s.lba old3 behind
        ∙ write_clusters-other v h chain src len 0 d2 s.lba clusters behind.1 outside
        ∙ link_chain-other v h s.lba behind chain d1 (IsFree-inside v h d chain a.each)
        ∙ kept s.lba behind

    stored :
        len < 2 ^ 32 → len ≤ length chain * cluster_bytes v → Stored d s n83 old src len chain d5
    stored fits long = record {
      fresh = a.each;
      long = long;
      linked = linked5;
      bytes = bytes5;
      sector = entry5 ∙ ap (λ e. fill_entry e s.idx n83 x len 0x20) before;
      size = rw entry5 (entry_size-fill_entry (ata_read d4 s.lba) s.idx n83 x len 0x20 fits);
      first =
          rw entry5
            (entry_first_cluster-fill_entry (ata_read d4 s.lba) s.idx n83 x len 0x20 clusters.0.1);
      attr = rw entry5 (entry_attr-fill_entry (ata_read d4 s.lba) s.idx n83 x len 0x20);
      table = λ c q m. table5 c q ∙ ap (λ e. if mem c old then 0 else e) (table_kept c q m);
      others = others5;
    }

  module _ (s : Slot) (n83 : List ℕ) (old_clus : ℕ) (src : Buffer) (len : ℕ) (d : Disk)
      (sized : (cluster_bytes v == 0) ≡ false)
      (fits : ltb max_chain_clusters (clusters_for v len) ≡ false) where
    store_file-ok :
        (chain : List ℕ) (d1 : Disk)
        → alloc_chain v (clusters_for v len) [] d ≡ ok chain d1
        → store_file v s n83 old_clus src len d
          ≡ ok tt (
              dir_write_entry s n83
                (head_or_zero v chain)
                len
                0x20
                (free_chain v (write_clusters v chain src len 0 (link_chain v chain d1)) old_clus))
    unfolding store_file
    store_file-ok chain d1 e = rw (sized, fits, e) refl

    store_file-err :
        (d1 : Disk)
        → alloc_chain v (clusters_for v len) [] d ≡ err no_space d1
        → store_file v s n83 old_clus src len d ≡ err no_space d1
    unfolding store_file
    store_file-err d1 e = rw (sized, fits, e) refl

  -- On a well-formed volume, take a file whose entry lies in the root directory or in a cluster in
  -- use, and whose old chain ends and has no entry 0, and 1 to 8192 new bytes. `fat_write_file`
  -- behind its checks returns. On success the new bytes lie in a chain of clusters that were free,
  -- in order, the entry has its first cluster and the length, the old clusters are free, and no
  -- other entry of the table and no other sector behind the FAT changes. Else it reports
  -- FAT_ERR_NO_SPACE, fewer clusters are free than needed, and the table is as it was.
  pub store_file-Stored :
      (s : Slot) (n83 : List ℕ) (old_clus : ℕ) (old : List ℕ) (src : Buffer) (len : ℕ) (d : Disk)
      → 0 < len
      → len ≤ 8192
      → IsChain v d old_clus old
      → ((c : ℕ) → mem c old ≡ true → fat_entry v d c ≢ 0)
      → IsDirSector v h d s.lba
      → ((chain : List ℕ) × (d' : Disk) × (store_file v s n83 old_clus src len d ≡ ok tt d')
          × Stored d s n83 old src len chain d')
        ⊎ ((d' : Disk) × (store_file v s n83 old_clus src len d ≡ err no_space d')
            × (count_free_clusters v d < clusters_for v len)
            × SameTable v d d')
  store_file-Stored s n83 old_clus old src len d some_bytes small was used place =
      let (positive, enough) = clusters_for-enough v h len some_bytes (omega arith) in
      let sized : (cluster_bytes v == 0) ≡ false = ground (arith, h.sectors) in
      let fits : ltb max_chain_clusters (clusters_for v len) ≡ false =
        ground (arith, clusters_for-le v h len small) in
      elim (alloc_chain_lem v h (clusters_for v len) d) [
        | inr (d1, e, few, same) ↦
            inr (d1, store_file-err s n83 old_clus src len d sized fits d1 e, few, same)
        | inl ([], d1, e, l, a) ↦ absurd (omega arith)
        | inl (x ∷ xs, d1, e, l, a) ↦
            let kept : (b : ℕ) → BehindFat v h b → ata_read d1 b ≡ ata_read d b = λ b q.
              subst (KeepsSector v h b q d) e
                (alloc_chain-other v h b q (clusters_for v len) [] d d tt refl) in
            inl (
              x ∷ xs,
              _,
              store_file-ok s n83 old_clus src len d sized fits (x ∷ xs) d1 e,
              stored d s old src len x xs d1 a kept old_clus was used place n83 (omega arith)
                  (rw l enough),
            )
      ]
