-- ===== src/Tests/Content.antt =====
-- The theorems on the bytes of files at the small volume.
use yoz_os.Base.{◌≡◌, refl, arith, some, inl, [], ◌∷◌}
use yoz_os.Disk.{Disk, ata_read}
use yoz_os.Fat.Read.{ReadResult, fat_read_file_at}
use yoz_os.Fat.Read.Loop.{Stores}
use yoz_os.Fat.Read.Content.{Reads, fat_read_file_at-Reads}
use yoz_os.Fat.Write.{write_clusters, clusters_for, store_file}
use yoz_os.Fat.Write.Alloc.{SameTable}
use yoz_os.Fat.Write.Store.{Stored, store_file-Stored}
use yoz_os.Fat.Outcome.{ok, err, no_space}
use yoz_os.Fat.Name.{name_to_83}
use yoz_os.Fat.Table.{fat_entry, count_free_clusters}
use yoz_os.Tests.Data.{slot_a}
use yoz_os.Base.{◌≢◌, ◌⊎◌, Bool-cases, ◌==◌, mem, subst, true, ℕ, List, ◌<◌, inr}
use yoz_os.Fat.Write.Content.{write_clusters-Stores}
use yoz_os.Tests.Data.{
  volume, volume-IsVolume, disk, name_a, info_a, stat_a, clusters_a, clusters_a-IsChain,
  clusters_a-Stores, counting,
}

fat_read_file_at-Reads_example :
    (r : ReadResult) × (fat_read_file_at volume name_a 500 (some (λ _. 0)) 40 disk ≡ some r)
    × Reads 600 500 40 counting (λ _. 0) r
fat_read_file_at-Reads_example =
    fat_read_file_at-Reads volume volume-IsVolume name_a info_a clusters_a counting (λ _. 0) 500 40
      disk stat_a refl clusters_a-IsChain (omega arith) clusters_a-Stores

write_clusters-Stores_example :
    Stores volume
      (write_clusters volume (5 ∷ 9 ∷ []) counting 700 0 disk)
      (5 ∷ 9 ∷ [])
      0
      700
      counting
write_clusters-Stores_example =
    write_clusters-Stores volume volume-IsVolume (5 ∷ 9 ∷ []) counting 700 0 disk
      ((omega arith, omega arith), ((omega arith, omega arith), tt)) (refl, (refl, tt))
      (omega arith)

linked_a : fat_entry volume disk 2 ≡ 3
unfolding fat_entry ata_read
linked_a = refl

ended_a : fat_entry volume disk 3 ≡ 0xffff
unfolding fat_entry ata_read
ended_a = refl

pub used_a : (c : ℕ) → mem c clusters_a ≡ true → fat_entry volume disk c ≢ 0
used_a c m e = elim (Bool-cases (c == 2)) [
  | inl t ↦
      let same : c ≡ 2 = ground arith in
      let at = subst (λ x. fat_entry volume disk x ≡ 0) same e in omega (arith, linked_a)
  | inr t ↦
      let same : c ≡ 3 = ground arith in
      let at = subst (λ x. fat_entry volume disk x ≡ 0) same e in omega (arith, ended_a)
]

store_file-Stored_example :
    ((chain : List ℕ) × (d' : Disk) × (store_file volume slot_a
          (name_to_83 name_a)
          2
          counting
          700
          disk
        ≡ ok tt d')
      × Stored volume volume-IsVolume disk slot_a
          (name_to_83 name_a)
          clusters_a
          counting
          700
          chain
          d')
    ⊎ ((d' : Disk) × (store_file volume slot_a (name_to_83 name_a) 2 counting 700 disk
          ≡ err no_space d')
        × (count_free_clusters volume disk < clusters_for volume 700)
        × SameTable volume disk d')
store_file-Stored_example =
    store_file-Stored volume volume-IsVolume slot_a (name_to_83 name_a) 2 clusters_a counting 700
      disk (omega arith) (omega arith) clusters_a-IsChain used_a (inl (omega arith, omega arith))
