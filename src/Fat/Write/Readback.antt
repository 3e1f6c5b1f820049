-- ===== src/Fat/Write/Readback.antt =====
-- A file that `fat_write_file` has written, as `fat_stat_file` and `fat_read_file_at` see it.
use yoz_os.Base.{
  ℕ, ◌+◌, ◌^◌, ◌<◌, ◌≤◌, ◌≡◌, ◌≢◌, refl, sym, ap, ◌∙◌, ◌⊎◌, inl, inr, arith, ◌==◌, ◌&&◌, ltb,
  if◌then◌else◌, Bool, true, false, some, List, mem, length, ℕ_discrete, subst,
}
use yoz_os.Disk.{Disk, Buffer, ata_read}
use yoz_os.Fat.Outcome.{Outcome, Cmd, ok, err, invalid, too_big, no_space, fail_if, and_then}
use yoz_os.Fat.Create.{resolve, find_entry}
use yoz_os.Fat.Volume.{Volume, max_file_bytes}
use yoz_os.Fat.Volume.Bounds.{IsVolume, data_start_lt, cluster_lba_lem}
use yoz_os.Fat.Name.{name_to_83}
use yoz_os.Fat.Name.Laws.{length-name_to_83}
use yoz_os.Fat.Entry.{is_directory, entry_first_cluster}
use yoz_os.Fat.Table.{fat_entry, count_free_clusters}
use yoz_os.Fat.Table.Release.{IsChain}
use yoz_os.Fat.Dir.{DirRef, Slot, dir_find_in_ref}
use yoz_os.Fat.Dir.Find.{hits_at, FindMeans, IsFirstHit, dir_find_in_region-means}
use yoz_os.Fat.Dir.Same.{IsEntry}
use yoz_os.Fat.Dir.Keep.{
  KeepsDirs-refl, fill_entry-KeepsDirs, region_start, region_count, dir_find_in_ref-region,
  found_inside,
}
use yoz_os.Fat.Path.{resolved, resolve_parent_dir}
use yoz_os.Fat.Path.Dirs.{Reach, SameRegion, dir_find_in_ref-SameRegion, resolve_parent_dir-same}
use yoz_os.Fat.Path.Reached.{resolve_parent_dir-Reach}
use yoz_os.Fat.Read.{FileInfo, ReadResult, fat_stat_file, fat_read_file_at}
use yoz_os.Fat.Read.Content.{Reads, fat_read_file_at-Reads}
use yoz_os.Fat.Write.{clusters_for, head_or_zero, store_file, fat_write_file}
use yoz_os.Fat.Write.Alloc.{SameTable}
use yoz_os.Fat.Write.Link.{IsCluster}
use yoz_os.Fat.Write.Place.{IsDirSector, IsDirSector-BehindFat, IsDirSector-OutsideAll}
use yoz_os.Fat.Write.Store.{Stored, store_file-Stored}

-- What follows a call that succeeds.
and_then-ok :
    {A B : Type 0} (o : Outcome A) (k : A → Cmd B) {a : A} {d : Disk}
    → o ≡ ok a d
    → and_then o k ≡ k a d
and_then-ok o k e = ap (λ o. and_then o k) e

if_false :
    {A : Type 0} {t : Bool} (then_run else_run : Cmd A) (d : Disk)
    → t ≡ false
    → (if t then then_run else else_run) d ≡ else_run d
if_false then_run else_run d e = ap (λ t. (if t then then_run else else_run) d) e

module _ (v : Volume) (h : IsVolume v) where
  -- The directory is the root, or its cluster is one of the table and in use.
  abbrev pub IsPlaced : Disk → DirRef → Type 0
  IsPlaced d dir =
      (dir.is_root ≡ true)
      ⊎ ((dir.is_root ≡ false) × IsCluster v dir.cluster × (fat_entry v d dir.cluster ≢ 0))

  region-small :
      (d : Disk) (dir : DirRef) → IsPlaced d dir → region_start v dir + region_count v dir < 2 ^ 32
  region-small d dir (inl r) = rw r (omega (arith, data_start_lt h, h.data_after_root))
  region-small d dir (inr (r, i, u)) =
      rw r (omega (arith, (cluster_lba_lem dir.cluster h i.0 (omega (arith, i.1))).1))

  region-IsDirSector :
      (d : Disk) (dir : DirRef) (k : ℕ)
      → IsPlaced d dir
      → k < region_count v dir
      → IsDirSector v h d (region_start v dir + k)
  region-IsDirSector d dir k (inl r) q =
      let q' : k < v.root_sectors = rw r at q in
      rw r (inl (omega arith, omega (arith, h.data_after_root)))
  region-IsDirSector d dir k (inr (r, i, u)) q =
      let q' : k < v.sec_per_clus = rw r at q in rw r (inr (dir.cluster, k, i, u, q', refl))

  found-IsEntry :
      (d : Disk) (dir : DirRef) (n : List ℕ) (s : Slot)
      → IsPlaced d dir
      → dir_find_in_ref v dir d n ≡ some s
      → IsEntry (ata_read d s.lba) s.idx n
  unfolding hits_at
  found-IsEntry d dir n s place e =
      let small = region-small d dir place in
      let (k, q, at, idx) = found_inside v dir d n s small e in
      let first : IsFirstHit n d (region_start v dir) (region_count v dir) s =
        subst (FindMeans n d (region_start v dir) (region_count v dir))
          (sym (dir_find_in_ref-region v dir d n) ∙ e)
          (dir_find_in_region-means (region_count v dir) (region_start v dir) d n small) in
      record { place = idx; counts = ground (arith, first.hit); named = ground (arith, first.hit) }

  module _ (d d' : Disk) (s : Slot) (n83 old : List ℕ) (src : Buffer) (len : ℕ) (chain : List ℕ)
      (st : Stored v h d s n83 old src len chain d') (entry : IsEntry (ata_read d s.lba) s.idx n83)
      (eleven : length n83 ≡ 11) (plain : is_directory (ata_read d s.lba) s.idx ≡ false) where
    -- Every directory looks as before.
    stored-SameRegion : (dir : DirRef) → IsPlaced d dir → SameRegion v d d' dir
    stored-SameRegion dir place k q =
        let l = region_start v dir + k in
        let here = region-IsDirSector d dir k place q in
        elim (ℕ_discrete l s.lba) [
          | yes e ↦
              let keeps =
                fill_entry-KeepsDirs (ata_read d s.lba) s.idx n83 (head_or_zero v chain) len entry
                  eleven plain in
              rw (e, st.sector) keeps
          | no ne ↦
              let same =
                st.others l (IsDirSector-BehindFat v h d l here) ne
                  (IsDirSector-OutsideAll v h d chain l here st.fresh) in
              rw same (KeepsDirs-refl (ata_read d l))
        ]

    abbrev new_info : FileInfo
    new_info = record { size = len; first_cluster = head_or_zero v chain; attr = 0x20 }

    stored-stat :
        (name leaf : List ℕ) (parent : DirRef)
        → ((dir : DirRef) → Reach v d dir → IsPlaced d dir)
        → resolve_parent_dir v d name ≡ resolved parent leaf
        → n83 ≡ name_to_83 leaf
        → dir_find_in_ref v parent d (name_to_83 leaf) ≡ some s
        → fat_stat_file v name d' ≡ some new_info
    unfolding fat_stat_file
    stored-stat name leaf parent placed path is_name found =
        let same =
          resolve_parent_dir-same v d d' (λ dir r. region-small d dir (placed dir r))
            (λ dir r. stored-SameRegion dir (placed dir r)) name in
        let reach = resolve_parent_dir-Reach v d name parent leaf path in
        let place = placed parent reach in
        let again =
          dir_find_in_ref-SameRegion v d d' parent (name_to_83 leaf)
            (omega (arith, length-name_to_83 leaf)) (region-small d parent place)
            (stored-SameRegion parent place) in
        rw (fat_stat_file, same ∙ path, again ∙ found, st.size, st.first, st.attr) refl

  module _ (name leaf : List ℕ) (parent : DirRef) (s : Slot) (src : Buffer) (len : ℕ) (d : Disk)
      (path : resolve_parent_dir v d name ≡ resolved parent leaf)
      (found : dir_find_in_ref v parent d (name_to_83 leaf) ≡ some s)
      (plain : is_directory (ata_read d s.lba) s.idx ≡ false) (some_bytes : 0 < len)
      (small : len ≤ 8192) where
    fat_write_file-step :
        fat_write_file v name (some src) len d
        ≡ store_file v s (name_to_83 leaf) (entry_first_cluster (ata_read d s.lba) s.idx) src len d
    unfolding fat_write_file
    fat_write_file-step =
        let no_null : (ltb 0 len && false) ≡ false = ground arith in
        let fits : ltb max_file_bytes len ≡ false = ground arith in
        let bytes : (len == 0) ≡ false = ground arith in
        let at_parent : resolve v name d ≡ ok (parent, leaf) d = rw (resolve, path) refl in
        let at_entry : find_entry v parent (name_to_83 leaf) d ≡ ok s d =
          rw (find_entry, found) refl in
        and_then-ok _ _ (ap (λ t. fail_if t invalid d) no_null)
        ∙ and_then-ok _ _ at_parent
        ∙ and_then-ok _ _ at_entry
        ∙ and_then-ok _ _ (ap (λ t. fail_if t too_big d) fits)
        ∙ and_then-ok _ _ (ap (λ t. fail_if t invalid d) plain)
        ∙ if_false _ _ d bytes

    -- On a well-formed volume where every directory that a path reaches is the root or has its
    -- cluster in the table and in use, take the path of a file that is found and is no directory,
    -- whose chain ends and has no entry 0, and 1 to 8192 bytes. `fat_write_file` returns. Either
    -- it succeeds, and then `fat_stat_file` reports a file of that length, and each read by
    -- `fat_read_file_at` ends and gives the bytes written; or it reports FAT_ERR_NO_SPACE, fewer
    -- clusters are free than needed, and the table is as it was.
    pub fat_write_file-fat_read_file_at :
        (old : List ℕ)
        → ((dir : DirRef) → Reach v d dir → IsPlaced d dir)
        → IsChain v d (entry_first_cluster (ata_read d s.lba) s.idx) old
        → ((c : ℕ) → mem c old ≡ true → fat_entry v d c ≢ 0)
        → ((d' : Disk) × (first : ℕ) × (fat_write_file v name (some src) len d ≡ ok tt d')
            × (fat_stat_file v name d'
                ≡ some (record { size = len; first_cluster = first; attr = 0x20 }))
            × ((offset count : ℕ) (dst : Buffer)
                → (r : ReadResult) × (fat_read_file_at v name offset (some dst) count d' ≡ some r)
                  × Reads len offset count src dst r))
          ⊎ ((d' : Disk) × (fat_write_file v name (some src) len d ≡ err no_space d')
              × (count_free_clusters v d < clusters_for v len)
              × SameTable v d d')
    fat_write_file-fat_read_file_at old placed was used =
        let n83 = name_to_83 leaf in
        let place = placed parent (resolve_parent_dir-Reach v d name parent leaf path) in
        let (k, q, at, idx) = found_inside v parent d n83 s (region-small d parent place) found in
        let sector : IsDirSector v h d s.lba =
          subst (IsDirSector v h d) (sym at) (region-IsDirSector d parent k place q) in
        let entry = found-IsEntry d parent n83 s place found in
        elim (store_file-Stored v h s n83 (entry_first_cluster (ata_read d s.lba) s.idx) old src len
          d some_bytes small was used sector) [
            | inr (d', e, few, same) ↦ inr (d', fat_write_file-step ∙ e, few, same)
            | inl (chain, d', e, st) ↦
                let stat =
                  stored-stat d d' s n83 old src len chain st entry (length-name_to_83 leaf) plain
                    name leaf parent placed path refl found in
                inl (
                  d',
                  head_or_zero v chain,
                  fat_write_file-step ∙ e,
                  stat,
                  λ offset count dst.
                      fat_read_file_at-Reads v h name _ chain src dst offset count d' stat refl
                        st.linked st.long st.bytes,
                )
          ]
