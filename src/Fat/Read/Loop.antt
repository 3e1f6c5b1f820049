-- ===== src/Fat/Read/Loop.antt =====
-- The loops of `fat_read_file_at`: on a chain that is long enough they end, and copy the bytes
-- asked for.
use yoz_os.Base.{
  ℕ, zero, suc, ◌+◌, ◌-◌, ◌*◌, ◌/◌, ◌%◌, ◌^◌, ◌≤◌, ◌<◌, ◌≡◌, refl, sym, ap, ◌∙◌, inl, inr, arith,
  ◌&&◌, ltb, leb, true, false, Bool-cases, List, [], ◌∷◌, length, some, min, dec_lt,
}
use yoz_os.Disk.{Disk, Buffer, get8, add32, ata_read}
use yoz_os.Fat.Volume.{Volume, end_of_chain, cluster_lba, cluster_bytes}
use yoz_os.Fat.Volume.Bounds.{IsVolume, cluster_lba_lem}
use yoz_os.Fat.Table.{fat_entry}
use yoz_os.Fat.Table.Release.{IsChain}
use yoz_os.Fat.Read.{Reader, read_byte, read_bytes, read_sectors, read_clusters}

-- The clusters `cs` hold the bytes of `file` from the position `p` on, as far as those before
-- `limit` go.
abbrev pub Stores : Volume → Disk → List ℕ → (p limit : ℕ) → Buffer → Type 0
Stores v d [] p limit file = Unit {0}
Stores v d (c ∷ cs) p limit file =
    ((j : ℕ)
      → j < cluster_bytes v
      → p + j < limit
      → get8 (ata_read d (cluster_lba v c + j / 512)) (j % 512) ≡ get8 file (p + j))
    × Stores v d cs (p + cluster_bytes v) limit file

module _ (size offset wanted : ℕ) (v : Volume) where
  -- The loop stops as soon as everything is copied.
  pub read_clusters-done :
      (fuel c : ℕ) (d : Disk) (s : Reader)
      → 0 < fuel
      → s.copied ≡ wanted
      → read_clusters size offset wanted v fuel c d s ≡ some s
  unfolding read_clusters
  read_clusters-done zero c d s p e = absurd (omega arith)
  read_clusters-done (suc fuel) c d s p e = ground arith

module _ (size offset wanted : ℕ) (file dst : Buffer) where
  -- The position behind the last byte that is asked for.
  abbrev pub end_pos : ℕ
  end_pos = offset + wanted

  -- The reader is at the position `p` of the file, has copied what it has to up to there, and has
  -- written nowhere else in the block `dst`.
  pub record ReadTo (p : ℕ) (s : Reader) : Type 0 where
    pub at : s.file_pos ≡ p
    pub count : s.copied ≡ p - offset
    pub bytes : (i : ℕ) → i < s.copied → get8 s.dst i ≡ get8 file (offset + i)
    pub rest : (i : ℕ) → s.copied ≤ i → get8 s.dst i ≡ get8 dst i

  read_byte-ReadTo :
      (b : Buffer) (i p : ℕ) (s : Reader)
      → get8 b i ≡ get8 file p
      → ReadTo p s
      → ReadTo (p + 1) (read_byte size offset wanted b i s)
  unfolding read_byte
  read_byte-ReadTo b i p s e r = record {
    at = ground (arith, r.at);
    count = ground (arith, r.at, r.count);
    bytes = λ k q. elim (Bool-cases (leb offset s.file_pos)) [
      | inl t ↦
          let here : k ≡ s.copied → get8 file (offset + k) ≡ get8 b i =
            λ same. ap (get8 file) (ground (arith, r.at, r.count)) ∙ sym e in
          ground (arith, r.bytes k, here)
      | inr t ↦ ground (arith, r.bytes k)
    ];
    rest = λ k q. ground (arith, r.rest k);
  }

  module _ (some_bytes : 0 < wanted) (inside : offset + wanted ≤ size) where
    read_bytes-ReadTo :
        (n i p q : ℕ) (b : Buffer) (s : Reader)
        → ((j : ℕ) → j < n → p + j < end_pos → get8 b (i + j) ≡ get8 file (p + j))
        → p ≤ end_pos
        → q ≡ min (p + n) end_pos
        → ReadTo p s
        → ReadTo q (read_bytes size offset wanted n i b s)
    unfolding read_bytes
    read_bytes-ReadTo zero i p q b s e l m r = let same : q ≡ p = omega arith in rw same r
    read_bytes-ReadTo (suc n) i p q b s e l m r = elim (Bool-cases (ltb s.copied wanted)) [
      | inr t ↦ let same : q ≡ p = ground (arith, r.count) in rw (t, same) r
      | inl t ↦
          let here : p < end_pos = ground (arith, r.count) in
          let byte : get8 b i ≡ get8 file p =
            ap (get8 b) (omega arith)
            ∙ e 0 (omega arith) (omega arith)
            ∙ ap (get8 file) (omega arith) in
          let step = read_byte-ReadTo b i p s byte r in
          rw t (elim (Bool-cases (leb size (read_byte size offset wanted b i s).file_pos)) [
            | inl u ↦ let same : q ≡ p + 1 = ground (arith, step.at) in rw (u, same) step
            | inr u ↦ rw u (
                read_bytes-ReadTo n (i + 1) (p + 1) q b (read_byte size offset wanted b i s)
                  (λ j lt in_file.
                    ap (get8 b) (omega arith)
                    ∙ e (suc j) (omega arith) (omega arith)
                    ∙ ap (get8 file) (omega arith))
                  (omega arith) (omega arith) step)
          ])
    ]

    read_sectors-ReadTo :
        (n lba p q : ℕ) (d : Disk) (s : Reader)
        → lba + n < 2 ^ 32
        → ((j : ℕ)
            → j < n * 512
            → p + j < end_pos
            → get8 (ata_read d (lba + j / 512)) (j % 512) ≡ get8 file (p + j))
        → p ≤ end_pos
        → q ≡ min (p + n * 512) end_pos
        → ReadTo p s
        → ReadTo q (read_sectors size offset wanted n lba d s)
    unfolding read_sectors
    read_sectors-ReadTo zero lba p q d s small e l m r = let same : q ≡ p = omega arith in rw same r
    read_sectors-ReadTo (suc n) lba p q d s small e l m r =
        elim (Bool-cases (ltb s.copied wanted)) [
          | inr t ↦ let same : q ≡ p = ground (arith, r.count) in rw (t, same) r
          | inl t ↦
              let next : add32 lba 1 ≡ lba + 1 = omega arith in
              let sector : Buffer = ata_read d lba in
              let step =
                read_bytes-ReadTo 512 0 p (min (p + 512) end_pos) sector s
                  (λ j lt in_file.
                    let block : lba ≡ lba + j / 512 = omega arith in
                    let place : 0 + j ≡ j % 512 = omega arith in
                    rw place
                      (ap (λ b. get8 (ata_read d b) (j % 512)) block ∙ e j (omega arith) in_file))
                  l refl r in
              rw (t, next)
                (read_sectors-ReadTo n (lba + 1) (min (p + 512) end_pos) q d _ (omega arith)
                  (λ j lt in_file.
                    let block : lba + 1 + j / 512 ≡ lba + (512 + j) / 512 = omega arith in
                    let place : j % 512 ≡ (512 + j) % 512 = omega arith in
                    let from : p + (512 + j) ≡ min (p + 512) end_pos + j = omega arith in
                    rw (block, place)
                      (e (512 + j) (omega arith) (omega arith) ∙ ap (get8 file) from))
                  (omega arith) (omega arith) step)
        ]

    module _ (v : Volume) (h : IsVolume v) where
      -- From the position `p` on, with the clusters `cs` ahead, the loop ends behind the last byte
      -- that is asked for.
      pub read_clusters-ReadTo :
          (cs : List ℕ) (fuel c p : ℕ) (d : Disk) (s : Reader)
          → IsChain v d c cs
          → Stores v d cs p end_pos file
          → end_pos ≤ p + length cs * cluster_bytes v
          → p ≤ end_pos
          → end_pos - p < fuel
          → ReadTo p s
          → (s' : Reader) × (read_clusters size offset wanted v fuel c d s ≡ some s')
            × ReadTo end_pos s'
      unfolding read_clusters
      read_clusters-ReadTo cs zero c p d s chain st long l enough r = absurd (omega arith)
      read_clusters-ReadTo [] (suc fuel) c p d s chain st long l enough r =
          let same : p ≡ end_pos = omega arith in
          let full : ltb s.copied wanted ≡ false = ground (arith, r.count) in
          (s, ground arith, rw same at r)
      read_clusters-ReadTo (x ∷ cs) (suc fuel) c p d s chain st long l enough r =
          elim (Bool-cases (ltb s.copied wanted)) [
            | inr t ↦
                let same : p ≡ end_pos = ground (arith, r.count) in (s, ground arith, rw same at r)
            | inl t ↦
                let here : p < end_pos = ground (arith, r.count) in
                let go : (ltb c end_of_chain && ltb s.copied wanted) ≡ true =
                  ground (arith, chain.2) in
                let small = (cluster_lba_lem c h chain.1 (omega (arith, chain.2))).1 in
                let step =
                  read_sectors-ReadTo v.sec_per_clus (cluster_lba v c) p
                    (min (p + cluster_bytes v) end_pos) d s (omega (arith, small))
                    (λ j lt in_file.
                      ap (λ y. get8 (ata_read d (cluster_lba v y + j / 512)) (j % 512))
                        (sym chain.0)
                      ∙ st.0 j lt in_file)
                    l refl r in
                rw go (elim (dec_lt (p + cluster_bytes v) end_pos) [
                  | no last ↦
                      let same : min (p + cluster_bytes v) end_pos ≡ end_pos = omega arith in
                      let done = rw same at step in
                      (
                        _,
                        read_clusters-done size offset wanted v fuel _ d _ (omega arith)
                            (omega (arith, done.count)),
                        done,
                      )
                  | yes more ↦
                      let same : min (p + cluster_bytes v) end_pos ≡ p + cluster_bytes v =
                        omega arith in
                      read_clusters-ReadTo cs fuel (fat_entry v d c) (p + cluster_bytes v) d _
                        chain.4 st.1 (omega arith) (omega arith) (omega (arith, h.sectors))
                        (rw same at step)
                ])
          ]
