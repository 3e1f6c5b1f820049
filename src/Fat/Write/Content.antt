-- ===== src/Fat/Write/Content.antt =====
-- The data that `fat_write_file` writes: where it lies, and that no other sector changes.
use yoz_os.Base.{
  ℕ, zero, suc, ◌+◌, ◌-◌, ◌*◌, ◌/◌, ◌%◌, ◌≤◌, ◌<◌, ◌≡◌, refl, ap, ◌∙◌, ◌⊎◌, inl, inr, arith, ◌==◌,
  true, false, Bool-cases, List, [], ◌∷◌, mem, All, IsDistinct, min, dec_lt,
}
use yoz_os.Disk.{
  Disk, Buffer, get8, lba_mod, ata_read, ata_write, ata_read-write, memory_copy, memory_set,
  get8-memory_copy, add32,
}
use yoz_os.Fat.Volume.{Volume, cluster_lba, cluster_bytes}
use yoz_os.Fat.Volume.Bounds.{IsVolume, cluster_lba_lem, clusters_apart}
use yoz_os.Fat.Read.Loop.{Stores}
use yoz_os.Fat.Write.{at_most, write_sectors, write_clusters}

abbrev chunk_at : Buffer → (len offset : ℕ) → Buffer
chunk_at src len offset =
    memory_copy src offset (memory_set (λ _. 0) 0 0 512) 0 (at_most 512 (len - offset))

chunk_byte :
    (src : Buffer) (len offset j : ℕ)
    → j < 512
    → offset + j < len
    → get8 (chunk_at src len offset) j ≡ get8 src (offset + j)
chunk_byte src len offset j p q = ground (
  arith,
  get8-memory_copy src offset (memory_set (λ _. 0) 0 0 512) 0 (at_most 512 (len - offset)) j,
)

write_sectors-offset :
    (n lba : ℕ) (src : Buffer) (len offset : ℕ) (d : Disk)
    → offset ≤ len
    → (write_sectors n lba src len offset d).0 ≡ min (offset + n * 512) len
unfolding write_sectors
write_sectors-offset zero lba src len offset d h = omega arith
write_sectors-offset (suc n) lba src len offset d h = ground (
  arith,
  write_sectors-offset n (add32 lba 1) src len (offset + at_most 512 (len - offset))
      (ata_write d lba (chunk_at src len offset)),
)

-- The block `l` is none of the `n` blocks from `lba` on.
abbrev pub Outside : (lba n l : ℕ) → Type 0
Outside lba n l = (l < lba) ⊎ (lba + n ≤ l)

write_sectors-other :
    (n lba : ℕ) (src : Buffer) (len offset : ℕ) (d : Disk) (l : ℕ)
    → lba + n < lba_mod
    → l < lba_mod
    → Outside lba n l
    → ata_read (write_sectors n lba src len offset d).1 l ≡ ata_read d l
unfolding write_sectors
write_sectors-other zero lba src len offset d l h q o = refl
write_sectors-other (suc n) lba src len offset d l h q o =
    let next : add32 lba 1 ≡ lba + 1 = omega arith in
    let out : Outside (lba + 1) n l = omega arith in
    let d1 = ata_write d lba (chunk_at src len offset) in
    let other : (l % lba_mod == lba % lba_mod) ≡ false = ground arith in
    let same : ata_read d1 l ≡ ata_read d l =
      ata_read-write d lba (chunk_at src len offset) l ∙ rw other in
    rw next (elim (Bool-cases (offset == len)) [
      | inl t ↦ rw t
      | inr t ↦ rw t (
          write_sectors-other n (lba + 1) src len (offset + at_most 512 (len - offset)) d1 l
            (omega arith) q out
          ∙ same)
    ])

write_sectors-bytes :
    (n lba : ℕ) (src : Buffer) (len offset : ℕ) (d : Disk) (j : ℕ)
    → lba + n < lba_mod
    → j < n * 512
    → offset + j < len
    → get8 (ata_read (write_sectors n lba src len offset d).1 (lba + j / 512)) (j % 512)
      ≡ get8 src (offset + j)
unfolding write_sectors
write_sectors-bytes zero lba src len offset d j h p q = absurd (omega arith)
write_sectors-bytes (suc n) lba src len offset d j h p q =
    let next : add32 lba 1 ≡ lba + 1 = omega arith in
    let go : (offset == len) ≡ false = ground arith in
    let d1 = ata_write d lba (chunk_at src len offset) in
    let reached = offset + at_most 512 (len - offset) in
    rw (next, go)
      (elim (dec_lt j 512) [
        | yes first ↦
            let block : lba + j / 512 ≡ lba = omega arith in
            let place : j % 512 ≡ j = omega arith in
            let hit : (lba % lba_mod == lba % lba_mod) ≡ true = ground arith in
            let sector : ata_read d1 lba ≡ chunk_at src len offset =
              ata_read-write d lba (chunk_at src len offset) lba ∙ rw hit in
            let kept =
              write_sectors-other n (lba + 1) src len reached d1 lba (omega arith) (omega arith)
                (inl (omega arith)) in
            rw (block, place, kept, sector) (chunk_byte src len offset j first q)
        | no later ↦
            let block : lba + j / 512 ≡ lba + 1 + (j - 512) / 512 = omega arith in
            let place : j % 512 ≡ (j - 512) % 512 = omega arith in
            let full : reached ≡ offset + 512 = ground arith in
            let from : offset + 512 + (j - 512) ≡ offset + j = omega arith in
            rw (block, place, full)
              (write_sectors-bytes n (lba + 1) src len (offset + 512) d1 (j - 512) (omega arith)
                  (omega arith) (omega arith)
                ∙ ap (get8 src) from)
      ])

pub Stores-past :
    (v : Volume) (d : Disk) (cs : List ℕ) (p limit : ℕ) (file : Buffer)
    → limit ≤ p
    → Stores v d cs p limit file
Stores-past v d [] p limit file h = tt
Stores-past v d (c ∷ cs) p limit file h =
    (λ j q r. absurd (omega arith), Stores-past v d cs _ limit file (omega arith))

module _ (v : Volume) (h : IsVolume v) where
  -- A cluster number that the arithmetic on blocks takes.
  abbrev pub IsDataCluster : ℕ → Type 0
  IsDataCluster c = (2 ≤ c) × (c < 65536)

  abbrev pub OutsideAll : List ℕ → ℕ → Type 0
  OutsideAll cs l = All (λ c. Outside (cluster_lba v c) v.sec_per_clus l) cs

  -- Disks with the same sectors in the clusters hold the same bytes there.
  pub Stores-frame :
      (d d' : Disk) (cs : List ℕ) (p limit : ℕ) (file : Buffer)
      → All
          (λ c.
            (k : ℕ)
            → k < v.sec_per_clus
            → ata_read d' (cluster_lba v c + k) ≡ ata_read d (cluster_lba v c + k))
          cs
      → Stores v d cs p limit file
      → Stores v d' cs p limit file
  Stores-frame d d' [] p limit file same st = tt
  Stores-frame d d' (c ∷ cs) p limit file same st = (
    λ j q r. rw (same.0 (j / 512) (omega arith)) (st.0 j q r),
    Stores-frame d d' cs _ limit file same.1 st.1,
  )

  -- On a well-formed volume, the write loops of `fat_write_file` leave every block that the driver
  -- addresses and that lies outside the clusters written, u16 numbers from 2 on, as it was.
  pub write_clusters-other :
      (cs : List ℕ) (src : Buffer) (len offset : ℕ) (d : Disk) (l : ℕ)
      → All IsDataCluster cs
      → l < lba_mod
      → OutsideAll cs l
      → ata_read (write_clusters v cs src len offset d) l ≡ ata_read d l
  unfolding write_clusters
  write_clusters-other [] src len offset d l a q o = refl
  write_clusters-other (c ∷ cs) src len offset d l a q o =
      write_clusters-other cs src len _ _ l a.1 q o.1
      ∙ write_sectors-other v.sec_per_clus (cluster_lba v c) src len offset d l
          (omega (arith, (cluster_lba_lem c h a.0.0 a.0.1).1)) q o.0

  OutsideAll-apart :
      (c k : ℕ) (cs : List ℕ)
      → IsDataCluster c
      → k < v.sec_per_clus
      → All IsDataCluster cs
      → mem c cs ≡ false
      → OutsideAll cs (cluster_lba v c + k)
  OutsideAll-apart c k [] a q b m = tt
  OutsideAll-apart c k (x ∷ cs) a q b m = (
    clusters_apart c x k h a.0 a.1 b.0.0 b.0.1 (ground arith) q,
    OutsideAll-apart c k cs a q b.1 (ground arith),
  )

  -- On a well-formed volume, after the write loops of `fat_write_file` distinct clusters, u16
  -- numbers from 2 on, hold the bytes of the source from the offset up to the length, in the order
  -- of the list.
  pub write_clusters-Stores :
      (cs : List ℕ) (src : Buffer) (len offset : ℕ) (d : Disk)
      → All IsDataCluster cs
      → IsDistinct cs
      → offset ≤ len
      → Stores v (write_clusters v cs src len offset d) cs offset len src
  unfolding write_clusters
  write_clusters-Stores [] src len offset d a u l = tt
  write_clusters-Stores (c ∷ cs) src len offset d a u l =
      let lba = cluster_lba v c in
      let small = (cluster_lba_lem c h a.0.0 a.0.1).1 in
      let d1 = (write_sectors v.sec_per_clus lba src len offset d).1 in
      let reached = (write_sectors v.sec_per_clus lba src len offset d).0 in
      let at : reached ≡ min (offset + v.sec_per_clus * 512) len =
        write_sectors-offset v.sec_per_clus lba src len offset d l in
      (
        λ j q r.
            let kept =
              write_clusters-other cs src len reached d1 (lba + j / 512) a.1 (omega (arith, small))
                (OutsideAll-apart c (j / 512) cs a.0 (omega arith) a.1 u.0) in
            rw kept (
              write_sectors-bytes v.sec_per_clus lba src len offset d j (omega (arith, small))
                (omega arith) r),
        elim (dec_lt (offset + cluster_bytes v) len) [
          | yes more ↦
              let same : offset + cluster_bytes v ≡ reached = omega (arith, at) in
              rw same (write_clusters-Stores cs src len reached d1 a.1 u.1 (omega (arith, at)))
          | no last ↦ Stores-past v _ cs _ len src (omega arith)
        ],
      )
