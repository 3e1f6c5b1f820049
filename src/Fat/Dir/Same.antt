-- ===== src/Fat/Dir/Same.antt =====
-- Sectors that a search does not tell apart, and the write of an entry under the name that it has.
use yoz_os.Base.{
  ℕ, zero, suc, ◌+◌, ◌-◌, ◌*◌, ◌^◌, ◌≤◌, ◌<◌, ◌≡◌, ◌≢◌, refl, sym, ap, ◌∙◌, arith, true, false,
  List, [], ◌∷◌, length, ℕ_discrete, subst,
}
use yoz_os.Disk.{Disk, Buffer, get8, add32, ata_read}
use yoz_os.Fat.Entry.{
  entry_name, is_end_entry, is_skippable_entry, bytes_match, name_matches, name_bytes,
}
use yoz_os.Fat.Dir.{find_in_sector, dir_find_in_region, fill_entry}
use yoz_os.Fat.Dir.Fill.{get8-fill_entry_other, entry_name-fill_entry, entry_attr-fill_entry}
use yoz_os.Fat.Dir.Find.{dir_find_in_region-step}

-- The search sees the same in entry `i` of both sectors.
pub record SameEntry (e e' : Buffer) (i : ℕ) : Type 0 where
  pub ended : is_end_entry e' i ≡ is_end_entry e i
  pub skipped : is_skippable_entry e' i ≡ is_skippable_entry e i
  pub named : (n : List ℕ) → length n ≤ 11 → name_matches e' i n ≡ name_matches e i n

abbrev pub SameSector : Buffer → Buffer → Type 0
SameSector e e' = (i : ℕ) → i < 16 → SameEntry e e' i

bytes_match-cong :
    (e e' : Buffer) (at : ℕ) (n : List ℕ)
    → ((k : ℕ) → at ≤ k → k < at + length n → get8 e' k ≡ get8 e k)
    → bytes_match e' at n ≡ bytes_match e at n
unfolding bytes_match
bytes_match-cong e e' at [] same = refl
bytes_match-cong e e' at (c ∷ cs) same =
    let rest = bytes_match-cong e e' (at + 1) cs (λ k p q. same k (omega arith) (omega arith)) in
    ground (arith, same at, rest)

SameEntry-bytes :
    (e e' : Buffer) (i : ℕ)
    → ((k : ℕ) → k < 11 → entry_name e' i k ≡ entry_name e i k)
    → is_skippable_entry e' i ≡ is_skippable_entry e i
    → SameEntry e e' i
unfolding is_end_entry name_matches
SameEntry-bytes e e' i same skip = record {
  ended = rw (same 0 (omega arith));
  skipped = skip;
  named = λ n short. bytes_match-cong e e' (32 * i) n λ k p q.
      let at : k ≡ 32 * i + (k - 32 * i) = omega arith in rw at (same (k - 32 * i) (omega arith));
}

pub SameSector-refl : (e : Buffer) → SameSector e e
SameSector-refl e i q = record { ended = refl; skipped = refl; named = λ n short. refl }

find_in_sector-cong :
    (rounds i : ℕ) (e e' : Buffer) (n : List ℕ)
    → i + rounds ≡ 16
    → length n ≤ 11
    → SameSector e e'
    → find_in_sector rounds i e' n ≡ find_in_sector rounds i e n
unfolding find_in_sector
find_in_sector-cong zero i e e' n q short same = refl
find_in_sector-cong (suc rounds) i e e' n q short same =
    let here = same i (omega arith) in
    rw (
      here.ended,
      here.skipped,
      here.named n short,
      find_in_sector-cong rounds (i + 1) e e' n (omega arith) short same,
    )

-- Disks whose sectors of the region look the same to the search give the same result.
pub dir_find_in_region-cong :
    (count lba : ℕ) (d d' : Disk) (n : List ℕ)
    → lba + count < 2 ^ 32
    → length n ≤ 11
    → ((k : ℕ) → k < count → SameSector (ata_read d (lba + k)) (ata_read d' (lba + k)))
    → dir_find_in_region count lba d' n ≡ dir_find_in_region count lba d n
unfolding dir_find_in_region
dir_find_in_region-cong zero lba d d' n h short same = refl
dir_find_in_region-cong (suc count) lba d d' n h short same =
    let next : add32 lba 1 ≡ lba + 1 = omega arith in
    let first : SameSector (ata_read d lba) (ata_read d' lba) =
      subst (λ l. SameSector (ata_read d l) (ata_read d' l)) (omega arith) (same 0 (omega arith)) in
    let rest = dir_find_in_region-cong count (lba + 1) d d' n (omega arith) short λ k q.
      subst (λ l. SameSector (ata_read d l) (ata_read d' l)) (omega arith)
        (same (k + 1) (omega arith)) in
    dir_find_in_region-step count lba d' n
    ∙ (rw
        (
          find_in_sector-cong 16 0 (ata_read d lba) (ata_read d' lba) n refl short first,
          next,
          rest,
          ← next,
        )
        (sym (dir_find_in_region-step count lba d n)))

-- The entry `i` of the sector `e` is one that the search can return for the name.
pub record IsEntry (e : Buffer) (i : ℕ) (n : List ℕ) : Type 0 where
  pub place : i < 16
  pub counts : is_skippable_entry e i ≡ false
  pub named : name_matches e i n ≡ true

bytes_match-get8 :
    (e : Buffer) (at : ℕ) (n : List ℕ) (k : ℕ)
    → bytes_match e at n ≡ true
    → k < length n
    → get8 e (at + k) ≡ get8 (name_bytes n) k
unfolding bytes_match name_bytes
bytes_match-get8 e at [] k m q = absurd (omega arith)
bytes_match-get8 e at (c ∷ cs) zero m q =
    let h : get8 e at ≡ c = ground arith in ap (get8 e) (omega arith) ∙ h ∙ omega (arith, h)
bytes_match-get8 e at (c ∷ cs) (suc k) m q =
    ap (get8 e) (omega arith) ∙ bytes_match-get8 e (at + 1) cs k (ground arith) (omega arith)

module _ (e : Buffer) (i : ℕ) (n : List ℕ) (first_cluster size : ℕ) (is : IsEntry e i n)
    (eleven : length n ≡ 11) where
  abbrev rewritten : Buffer
  rewritten = fill_entry e i n first_cluster size 0x20

  rewritten-name : (k : ℕ) → k < 11 → entry_name rewritten i k ≡ entry_name e i k
  unfolding name_matches
  rewritten-name k q =
      entry_name-fill_entry e i n first_cluster size 0x20 k q
      ∙ sym (bytes_match-get8 e (32 * i) n k is.named (omega arith))

  rewritten-counts : is_skippable_entry rewritten i ≡ false
  unfolding is_skippable_entry
  rewritten-counts = ground (
    arith,
    is.counts,
    rewritten-name 0 (omega arith),
    entry_attr-fill_entry e i n first_cluster size 0x20,
  )

  -- The write of another entry's bytes leaves the entry `j` as it is.
  rewritten-other : (j k : ℕ) → j ≢ i → k < 32 → get8 rewritten (32 * j + k) ≡ get8 e (32 * j + k)
  rewritten-other j k ne q =
      get8-fill_entry_other e i n first_cluster size 0x20 (32 * j + k) (ground arith)

  rewritten-skip_other : (j : ℕ) → j ≢ i → is_skippable_entry rewritten j ≡ is_skippable_entry e j
  unfolding is_skippable_entry
  rewritten-skip_other j ne =
      rw (rewritten-other j 0 ne (omega arith), rewritten-other j 0x0b ne (omega arith))

  -- An entry that counts, written again under its own name of 11 bytes as a file with any cluster
  -- and size, leaves a sector that looks the same to every search.
  pub fill_entry-SameSector : SameSector e rewritten
  fill_entry-SameSector j q = elim (ℕ_discrete j i) [
    | yes same ↦
        rw same (SameEntry-bytes e rewritten i rewritten-name (rewritten-counts ∙ sym is.counts))
    | no ne ↦
        SameEntry-bytes e rewritten j (λ k p. rewritten-other j k ne (omega arith))
          (rewritten-skip_other j ne)
  ]
