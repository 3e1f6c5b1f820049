-- ===== src/Fat/Dir/Keep.antt =====
-- Sectors with the same subdirectories, and the regions of a directory on disks that hold such.
use yoz_os.Base.{
  ℕ, ◌+◌, ◌*◌, ◌/◌, ◌^◌, ◌<◌, ◌≡◌, ◌≢◌, refl, sym, ap, ◌∙◌, arith, true, false, if◌then◌else◌, List,
  length, some, ℕ_discrete, subst,
}
use yoz_os.Disk.{Disk, Buffer, get8}
use yoz_os.Fat.Volume.{Volume, cluster_lba}
use yoz_os.Fat.Entry.{entry_first_cluster, is_directory}
use yoz_os.Fat.Dir.{DirRef, Slot, dir_find_in_region, dir_find_in_ref, fill_entry}
use yoz_os.Fat.Dir.Fill.{get8-fill_entry_other, entry_attr-fill_entry}
use yoz_os.Fat.Dir.Find.{IsFirstHit, FindMeans, dir_find_in_region-means}
use yoz_os.Fat.Dir.Same.{SameSector, SameSector-refl, IsEntry, fill_entry-SameSector}

-- Neither a search nor a step into a subdirectory tells the sectors apart.
pub record KeepsDirs (e e' : Buffer) : Type 0 where
  pub same : SameSector e e'
  pub kinds : (j : ℕ) → j < 16 → is_directory e' j ≡ is_directory e j
  pub links :
      (j : ℕ)
      → j < 16
      → is_directory e j ≡ true
      → entry_first_cluster e' j ≡ entry_first_cluster e j

pub KeepsDirs-refl : (e : Buffer) → KeepsDirs e e
KeepsDirs-refl e = record { same = SameSector-refl e; kinds = λ j q. refl; links = λ j q t. refl }

module _ (e : Buffer) (i : ℕ) (n : List ℕ) (first_cluster size : ℕ) (is : IsEntry e i n)
    (eleven : length n ≡ 11) (file : is_directory e i ≡ false) where
  abbrev e' : Buffer
  e' = fill_entry e i n first_cluster size 0x20

  other : (j k : ℕ) → j ≢ i → k < 32 → get8 e' (32 * j + k) ≡ get8 e (32 * j + k)
  other j k ne q = get8-fill_entry_other e i n first_cluster size 0x20 (32 * j + k) (ground arith)

  kind_here : is_directory e' i ≡ false
  unfolding is_directory
  kind_here = rw (entry_attr-fill_entry e i n first_cluster size 0x20)

  kind_other : (j : ℕ) → j ≢ i → is_directory e' j ≡ is_directory e j
  unfolding is_directory
  kind_other j ne = rw (other j 0x0b ne (omega arith))

  -- The write of a file's entry under its own name keeps the subdirectories.
  pub fill_entry-KeepsDirs : KeepsDirs e e'
  fill_entry-KeepsDirs = record {
    same = fill_entry-SameSector e i n first_cluster size is eleven;
    kinds = λ j q. elim (ℕ_discrete j i) [
      | yes s ↦ rw s (kind_here ∙ sym file)
      | no ne ↦ kind_other j ne
    ];
    links = λ j q t. elim (ℕ_discrete j i) [
      | yes s ↦ let h : is_directory e i ≡ true = rw s at t in ground arith
      | no ne ↦
          let low = other j 0x1a ne (omega arith) in
          let high : get8 e' (32 * j + 0x1a + 1) ≡ get8 e (32 * j + 0x1a + 1) =
            ap (get8 e') (omega arith)
            ∙ other j 0x1b ne (omega arith)
            ∙ ap (get8 e) (omega arith) in
          rw (low, high)
    ];
  }

module _ (v : Volume) where
  -- The blocks of a directory.
  abbrev pub region_start : DirRef → ℕ
  region_start dir = if dir.is_root then v.root_start else cluster_lba v dir.cluster

  abbrev pub region_count : DirRef → ℕ
  region_count dir = if dir.is_root then v.root_sectors else v.sec_per_clus

  pub dir_find_in_ref-region :
      (dir : DirRef) (d : Disk) (n : List ℕ)
      → dir_find_in_ref v dir d n ≡ dir_find_in_region (region_count dir) (region_start dir) d n
  unfolding dir_find_in_ref
  dir_find_in_ref-region dir d n = ground arith

  -- A slot that is found lies in the directory.
  pub found_inside :
      (dir : DirRef) (d : Disk) (n : List ℕ) (s : Slot)
      → region_start dir + region_count dir < 2 ^ 32
      → dir_find_in_ref v dir d n ≡ some s
      → (k : ℕ) × (k < region_count dir) × (s.lba ≡ region_start dir + k) × (s.idx < 16)
  found_inside dir d n s small e =
      let means =
        subst (FindMeans n d (region_start dir) (region_count dir))
          (sym (dir_find_in_ref-region dir d n) ∙ e)
          (dir_find_in_region-means (region_count dir) (region_start dir) d n small) in
      let hit : IsFirstHit n d (region_start dir) (region_count dir) s = means in
      (
        hit.pos / 16,
        omega (arith, hit.inside),
        ap (λ t. t.lba) hit.place,
        omega (arith, ap (λ (t : Slot). t.idx) hit.place),
      )
