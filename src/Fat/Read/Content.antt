-- ===== src/Fat/Read/Content.antt =====
-- What `fat_read_file_at` returns for a file whose chain holds its bytes.
use yoz_os.Base.{
  ℕ, ◌+◌, ◌-◌, ◌*◌, ◌≤◌, ◌<◌, ◌≡◌, refl, arith, inl, inr, ltb, leb, true, false, Bool-cases, List,
  [], ◌∷◌, length, some, min, has_flag, suc, if◌then◌else◌, ℕ_discrete,
}
use yoz_os.Disk.{Disk, Buffer, get8}
use yoz_os.Fat.Volume.{Volume, cluster_bytes}
use yoz_os.Fat.Volume.Bounds.{IsVolume}
use yoz_os.Fat.Entry.{attr_dir}
use yoz_os.Fat.Table.Release.{IsChain}
use yoz_os.Fat.Read.{
  FileInfo, Reader, ReadResult, fat_stat_file, read_found, fat_read_file_at, read_clusters,
}
use yoz_os.Fat.Read.Loop.{Stores, ReadTo, read_clusters-done, read_clusters-ReadTo}

pub Stores-mono :
    (v : Volume) (d : Disk) (cs : List ℕ) (p limit less : ℕ) (file : Buffer)
    → less ≤ limit
    → Stores v d cs p limit file
    → Stores v d cs p less file
Stores-mono v d [] p limit less file h st = tt
Stores-mono v d (c ∷ cs) p limit less file h st =
    (λ j q r. st.0 j q (omega arith), Stores-mono v d cs _ limit less file h st.1)

-- The result `r` of a read at `offset` of `len` bytes, into the block `dst`, of a file of `size`
-- bytes.
pub record Reads (size offset len : ℕ) (file dst : Buffer) (r : ReadResult) : Type 0 where
  pub success : r.success ≡ true
  pub count : r.out_len ≡ min len (size - offset)
  pub bytes : (i : ℕ) → i < r.out_len → get8 r.dst i ≡ get8 file (offset + i)
  pub rest : (i : ℕ) → r.out_len ≤ i → get8 r.dst i ≡ get8 dst i

-- The loops have copied all of the `wanted` bytes.
record Copied (offset wanted : ℕ) (file dst : Buffer) (s : Reader) : Type 0 where
  all : s.copied ≡ wanted
  bytes : (i : ℕ) → i < s.copied → get8 s.dst i ≡ get8 file (offset + i)
  rest : (i : ℕ) → s.copied ≤ i → get8 s.dst i ≡ get8 dst i

abbrev start : Buffer → Reader
start dst = record { file_pos = 0; copied = 0; dst = dst }

module _ (v : Volume) (h : IsVolume v) where
  read_clusters-Copied :
      (size first_cluster : ℕ) (cs : List ℕ) (file dst : Buffer) (offset wanted : ℕ) (d : Disk)
      → IsChain v d first_cluster cs
      → size ≤ length cs * cluster_bytes v
      → Stores v d cs 0 size file
      → offset + wanted ≤ size
      → (s : Reader) × (read_clusters size offset wanted v
            (suc (offset + wanted))
            first_cluster
            d
            (start dst)
          ≡ some s)
        × Copied offset wanted file dst s
  read_clusters-Copied size first_cluster cs file dst offset wanted d chain long st within =
      elim (ℕ_discrete wanted 0) [
        | yes e ↦ (
          start dst,
          read_clusters-done size offset wanted v (suc (offset + wanted)) first_cluster d
              (start dst) (omega arith) (omega arith),
          record { all = omega arith; bytes = λ i q. absurd (omega arith); rest = λ i q. refl },
        )
        | no ne ↦
            let begin : ReadTo size offset wanted file dst 0 (start dst) = record {
              at = refl;
              count = omega arith;
              bytes = λ i q. absurd (omega arith);
              rest = λ i q. refl;
            } in
            let (s, e, r) =
              read_clusters-ReadTo size offset wanted file dst (omega arith) within v h cs
                (suc (offset + wanted)) first_cluster 0 d (start dst) chain
                (Stores-mono v d cs 0 size (offset + wanted) file within st) (omega arith)
                (omega arith) (omega arith) begin in
            (s, e, record { all = omega (arith, r.count); bytes = r.bytes; rest = r.rest })
      ]

  read_found-Reads :
      (info : FileInfo) (cs : List ℕ) (file dst : Buffer) (offset len : ℕ) (d : Disk)
      → IsChain v d info.first_cluster cs
      → info.size ≤ length cs * cluster_bytes v
      → Stores v d cs 0 info.size file
      → offset < info.size
      → (r : ReadResult) × (read_found v info offset (some dst) len d ≡ some r)
        × Reads info.size offset len file dst r
  unfolding read_found
  read_found-Reads info cs file dst offset len d chain long st below =
      let wanted = if ltb len (info.size - offset) then len else info.size - offset in
      let least : wanted ≡ min len (info.size - offset) = ground arith in
      let (s, e, c) =
        read_clusters-Copied info.size info.first_cluster cs file dst offset wanted d chain long st
          (omega (arith, least)) in
      rw (e, read_found)
        (
          _,
          refl,
          record {
            success = ground (arith, c.all);
            count = omega (arith, c.all, least);
            bytes = c.bytes;
            rest = c.rest;
          },
        )

  -- On a well-formed volume, a read of a file, not a directory, that is found and whose chain holds
  -- its bytes ends and succeeds. It copies the bytes from the
  -- offset on, as many as are asked for and the file has, and writes nowhere else in the block.
  pub fat_read_file_at-Reads :
      (name : List ℕ) (info : FileInfo) (cs : List ℕ) (file dst : Buffer) (offset len : ℕ)
      (d : Disk)
      → fat_stat_file v name d ≡ some info
      → has_flag info.attr attr_dir ≡ false
      → IsChain v d info.first_cluster cs
      → info.size ≤ length cs * cluster_bytes v
      → Stores v d cs 0 info.size file
      → (r : ReadResult) × (fat_read_file_at v name offset (some dst) len d ≡ some r)
        × Reads info.size offset len file dst r
  unfolding fat_read_file_at
  fat_read_file_at-Reads name info cs file dst offset len d found plain chain long st =
      elim (Bool-cases (leb info.size offset)) [
        | inl t ↦
            rw (found, plain, t)
              (
                _,
                refl,
                record {
                  success = refl;
                  count = ground arith;
                  bytes = λ i q. absurd (omega arith);
                  rest = λ i q. refl;
                },
              )
        | inr t ↦
            rw (found, plain, t)
              (read_found-Reads info cs file dst offset len d chain long st (ground arith))
      ]
