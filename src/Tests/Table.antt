-- ===== src/Tests/Table.antt =====
-- The theorems on the FAT at the small volume.
use yoz_os.Base.{ℕ, ◌<◌, ◌≡◌, ◌⊎◌, refl, arith, some, length, List, [], ◌∷◌}
use yoz_os.Disk.{ata_read}
use yoz_os.Fat.Outcome.{ok, err, no_space}
use yoz_os.Fat.Table.{fat_entry, count_free_clusters, free_chain_loop, free_chain, chain_fuel}
use yoz_os.Fat.Table.Chain.{free_chain-ends}
use yoz_os.Fat.Table.Release.{IsChain, fat_entry-free_chain}
use yoz_os.Fat.Write.{alloc_chain, link_chain}
use yoz_os.Fat.Write.Alloc.{Allocated, SameTable, alloc_chain_lem}
use yoz_os.Fat.Write.Link.{link_chain-IsChain}
use yoz_os.Tests.Data.{volume, volume-IsVolume, disk, clusters_a, clusters_a-IsChain}

free_4 : fat_entry volume disk 4 ≡ 0
unfolding fat_entry ata_read
free_4 = refl

free_chain-ends_example : free_chain_loop volume chain_fuel 2 disk ≡ some (free_chain volume disk 2)
free_chain-ends_example = free_chain-ends volume volume-IsVolume.copies disk 2

fat_entry-free_chain_example : fat_entry volume (free_chain volume disk 2) 3 ≡ 0
fat_entry-free_chain_example =
    fat_entry-free_chain volume volume-IsVolume disk 2 clusters_a 3 clusters_a-IsChain (omega arith)

alloc_chain_lem_example :
    ((chain : List ℕ) × (d' : _) × (alloc_chain volume 2 [] disk ≡ ok chain d')
      × (length chain ≡ 2)
      × Allocated volume disk chain d')
    ⊎ ((d' : _) × (alloc_chain volume 2 [] disk ≡ err no_space d')
        × (count_free_clusters volume disk < 2)
        × SameTable volume disk d')
alloc_chain_lem_example = alloc_chain_lem volume volume-IsVolume 2 disk

link_chain-IsChain_example : IsChain volume (link_chain volume (5 ∷ 9 ∷ []) disk) 5 (5 ∷ 9 ∷ [])
link_chain-IsChain_example =
    link_chain-IsChain volume volume-IsVolume 5 (9 ∷ []) disk
      ((omega arith, omega arith, omega arith), ((omega arith, omega arith, omega arith), tt))
      (refl, (refl, tt))
