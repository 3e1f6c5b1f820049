-- ===== src/Fat/Dir/Find.antt =====
-- The search for a name in a directory: what it finds, and what it does not depend on.
use yoz_os.Base.{
  ℕ, zero, suc, ◌+◌, ◌-◌, ◌*◌, ◌/◌, ◌%◌, ◌^◌, ◌≤◌, ◌<◌, ◌≡◌, refl, sym, ap, ◌∙◌, inl, inr, arith,
  ◌==◌, ◌&&◌, not, Bool, true, false, Bool-cases, List, Option, none, some, dec_lt, subst,
}
use mathlib.Core.Bool.{false≢true}
use yoz_os.Disk.{Disk, Buffer, add32, ata_read}
use yoz_os.Fat.Entry.{is_end_entry, is_skippable_entry, name_matches}
use yoz_os.Fat.Dir.{Slot, Scan, ended, absent, found, find_in_sector, dir_find_in_region}

-- The entry counts, and has the name.
abbrev pub hits : List ℕ → Buffer → ℕ → Bool
hits n e i = not (is_skippable_entry e i) && name_matches e i n

-- Entry `p` of the region that begins at `lba`, counted over all its sectors.
abbrev pub slot_at : (lba p : ℕ) → Slot
slot_at lba p = record { lba = lba + p / 16; idx = p % 16 }

unfoldable pub ends_at : Disk → Slot → Bool
ends_at d s = is_end_entry (ata_read d s.lba) s.idx

unfoldable pub hits_at : List ℕ → Disk → Slot → Bool
hits_at n d s = hits n (ata_read d s.lba) s.idx

-- `i` is the first entry from `from` on that has the name, and no end mark stands up to it.
record SectorHit (n : List ℕ) (e : Buffer) (from i : ℕ) : Type 0 where
  low : from ≤ i
  high : i < 16
  hit : hits n e i ≡ true
  open_to : (j : ℕ) → from ≤ j → j ≤ i → is_end_entry e j ≡ false
  first : (j : ℕ) → from ≤ j → j < i → hits n e j ≡ false

-- What a scan of the entries from `from` on means.
abbrev ScanMeans : List ℕ → Buffer → ℕ → Scan → Type 0
ScanMeans n e from ended =
    (i : ℕ) × (from ≤ i)
    × (i < 16)
    × (is_end_entry e i ≡ true)
    × ((j : ℕ) → from ≤ j → j < i → hits n e j ≡ false)
ScanMeans n e from absent =
    ((j : ℕ) → from ≤ j → j < 16 → hits n e j ≡ false)
    × ((j : ℕ) → from ≤ j → j < 16 → is_end_entry e j ≡ false)
ScanMeans n e from (found i) = SectorHit n e from i

-- One entry that neither ends the directory nor has the name goes before a scan.
extend_scan :
    (n : List ℕ) (e : Buffer) (i : ℕ) (s : Scan)
    → i < 16
    → is_end_entry e i ≡ false
    → hits n e i ≡ false
    → ScanMeans n e (i + 1) s
    → ScanMeans n e i s
extend_scan n e i ended q open_here miss m = (
  m.0,
  omega arith,
  omega arith,
  m.3,
  λ j a b. elim (Bool-cases (i == j)) [
    | inl t ↦ let same : j ≡ i = ground arith in rw same miss
    | inr t ↦ m.4 j (ground arith) b
  ],
)
extend_scan n e i absent q open_here miss m = (
  λ j a b. elim (Bool-cases (i == j)) [
    | inl t ↦ let same : j ≡ i = ground arith in rw same miss
    | inr t ↦ m.0 j (ground arith) b
  ],
  λ j a b. elim (Bool-cases (i == j)) [
    | inl t ↦ let same : j ≡ i = ground arith in rw same open_here
    | inr t ↦ m.1 j (ground arith) b
  ],
)
extend_scan n e i (found k) q open_here miss m = record {
  low = omega (arith, m.low);
  high = m.high;
  hit = m.hit;
  open_to = λ j a b. elim (Bool-cases (i == j)) [
    | inl t ↦ let same : j ≡ i = ground arith in rw same open_here
    | inr t ↦ m.open_to j (ground arith) b
  ];
  first = λ j a b. elim (Bool-cases (i == j)) [
    | inl t ↦ let same : j ≡ i = ground arith in rw same miss
    | inr t ↦ m.first j (ground arith) b
  ];
}

find_in_sector-means :
    (rounds i : ℕ) (e : Buffer) (n : List ℕ)
    → i + rounds ≡ 16
    → ScanMeans n e i (find_in_sector rounds i e n)
unfolding find_in_sector
find_in_sector-means zero i e n q = (λ j a b. absurd (omega arith), λ j a b. absurd (omega arith))
find_in_sector-means (suc rounds) i e n q =
    let rest = find_in_sector-means rounds (i + 1) e n (omega arith) in
    elim (Bool-cases (is_end_entry e i)) [
      | inl t ↦ rw t (i, omega arith, omega arith, t, λ j a b. absurd (omega arith))
      | inr t ↦ elim (Bool-cases (is_skippable_entry e i)) [
        | inl u ↦ rw (t, u) (extend_scan n e i _ (omega arith) t (rw u) rest)
        | inr u ↦ elim (Bool-cases (name_matches e i n)) [
          | inr w ↦ rw (t, u, w) (extend_scan n e i _ (omega arith) t (rw (u, w)) rest)
          | inl w ↦
              rw (t, u, w)
                (record {
                  low = omega arith;
                  high = omega arith;
                  hit = rw (u, w);
                  open_to = λ j a b. let same : j ≡ i = omega arith in rw same t;
                  first = λ j a b. absurd (omega arith);
                })
        ]
      ]
    ]

ends_at-first :
    (d : Disk) (lba q : ℕ) → q < 16 → ends_at d (slot_at lba q) ≡ is_end_entry (ata_read d lba) q
unfolding ends_at
ends_at-first d lba q h =
    let sector : lba + q / 16 ≡ lba = omega arith in
    let place : q % 16 ≡ q = omega arith in rw (sector, place)

hits_at-first :
    (n : List ℕ) (d : Disk) (lba q : ℕ)
    → q < 16
    → hits_at n d (slot_at lba q) ≡ hits n (ata_read d lba) q
unfolding hits_at
hits_at-first n d lba q h =
    let sector : lba + q / 16 ≡ lba = omega arith in
    let place : q % 16 ≡ q = omega arith in rw (sector, place)

slot_at-first : (lba q : ℕ) → q < 16 → slot_at lba q ≡ record { lba = lba; idx = q }
slot_at-first lba q h = ground arith

slot_at-next : (lba q : ℕ) → 16 ≤ q → slot_at lba q ≡ slot_at (lba + 1) (q - 16)
slot_at-next lba q h = ground arith

-- The slot is the first of the region with the name, and no end mark stands up to it.
pub record IsFirstHit (n : List ℕ) (d : Disk) (lba count : ℕ) (s : Slot) : Type 0 where
  pub pos : ℕ
  pub inside : pos < 16 * count
  pub place : s ≡ slot_at lba pos
  pub hit : hits_at n d s ≡ true
  pub open_to : (q : ℕ) → q ≤ pos → ends_at d (slot_at lba q) ≡ false
  pub first : (q : ℕ) → q < pos → hits_at n d (slot_at lba q) ≡ false

-- What the result of a search in a region of `count` sectors means: for none, that an end mark
-- stands before, or at, every entry with the name.
abbrev pub FindMeans : List ℕ → Disk → (lba count : ℕ) → Option Slot → Type 0
FindMeans n d lba count none =
    (p : ℕ)
    → p < 16 * count
    → hits_at n d (slot_at lba p) ≡ true
    → (q : ℕ) × (q ≤ p) × (ends_at d (slot_at lba q) ≡ true)
FindMeans n d lba count (some s) = IsFirstHit n d lba count s

-- A sector without the name and without an end mark goes before a search.
extend_find :
    (n : List ℕ) (d : Disk) (lba count : ℕ) (r : Option Slot)
    → ScanMeans n (ata_read d lba) 0 absent
    → FindMeans n d (lba + 1) count r
    → FindMeans n d lba (suc count) r
extend_find n d lba count none m rest = λ p q hit. elim (dec_lt p 16) [
  | yes here ↦
      let miss = m.0 p (omega arith) here in
      let hit' = sym (hits_at-first n d lba p here) ∙ hit in absurd (false≢true (sym miss ∙ hit'))
  | no later ↦
      let hit' = subst (λ t. hits_at n d t ≡ true) (slot_at-next lba p (omega arith)) hit in
      let (k, below, end) = rest (p - 16) (omega arith) hit' in
      let e : slot_at lba (k + 16) ≡ slot_at (lba + 1) k =
        slot_at-next lba (k + 16) (omega arith) ∙ ap (slot_at (lba + 1)) (omega arith) in
      (k + 16, omega arith, ap (ends_at d) e ∙ end)
]
extend_find n d lba count (some s) m rest = record {
  pos = rest.pos + 16;
  inside = omega (arith, rest.inside);
  place =
      rest.place
      ∙ sym (slot_at-next lba (rest.pos + 16) (omega arith) ∙ ap (slot_at (lba + 1)) (omega arith));
  hit = rest.hit;
  open_to = λ q b. elim (dec_lt q 16) [
    | yes here ↦ ends_at-first d lba q here ∙ m.1 q (omega arith) here
    | no later ↦
        ap (ends_at d) (slot_at-next lba q (omega arith)) ∙ rest.open_to (q - 16) (omega arith)
  ];
  first = λ q b. elim (dec_lt q 16) [
    | yes here ↦ hits_at-first n d lba q here ∙ m.0 q (omega arith) here
    | no later ↦
        ap (hits_at n d) (slot_at-next lba q (omega arith)) ∙ rest.first (q - 16) (omega arith)
  ];
}

abbrev pub after_scan : ℕ → Option Slot → Scan → Option Slot
after_scan lba rest ended = none
after_scan lba rest absent = rest
after_scan lba rest (found i) = some (record { lba = lba; idx = i })

after_scan-means :
    (n : List ℕ) (d : Disk) (lba count : ℕ) (rest : Option Slot) (s : Scan)
    → ScanMeans n (ata_read d lba) 0 s
    → FindMeans n d (lba + 1) count rest
    → FindMeans n d lba (suc count) (after_scan lba rest s)
after_scan-means n d lba count rest ended m r = λ p q hit. elim (dec_lt p m.0) [
  | yes before ↦
      let miss = m.4 p (omega arith) before in
      let hit' = sym (hits_at-first n d lba p (omega (arith, m.2))) ∙ hit in
      absurd (false≢true (sym miss ∙ hit'))
  | no past ↦ (m.0, omega arith, ends_at-first d lba m.0 m.2 ∙ m.3)
]
after_scan-means n d lba count rest absent m r = extend_find n d lba count rest m r
after_scan-means n d lba count rest (found i) m r = record {
  pos = i;
  inside = omega (arith, m.high);
  place = sym (slot_at-first lba i m.high);
  hit =
      ap (hits_at n d) (sym (slot_at-first lba i m.high)) ∙ hits_at-first n d lba i m.high ∙ m.hit;
  open_to = λ q b. ends_at-first d lba q (omega (arith, m.high)) ∙ m.open_to q (omega arith) b;
  first = λ q b. hits_at-first n d lba q (omega (arith, m.high)) ∙ m.first q (omega arith) b;
}

pub dir_find_in_region-step :
    (count lba : ℕ) (d : Disk) (n : List ℕ)
    → dir_find_in_region (suc count) lba d n
      ≡ after_scan lba
          (dir_find_in_region count (add32 lba 1) d n)
          (find_in_sector 16 0 (ata_read d lba) n)
unfolding dir_find_in_region
dir_find_in_region-step count lba d n = go (find_in_sector 16 0 (ata_read d lba) n) refl
  where
    go :
        (s : Scan)
        → find_in_sector 16 0 (ata_read d lba) n ≡ s
        → dir_find_in_region (suc count) lba d n
          ≡ after_scan lba (dir_find_in_region count (add32 lba 1) d n) s
    go ended e = rw (e, dir_find_in_region)
    go absent e = rw (e, dir_find_in_region)
    go (found i) e = rw (e, dir_find_in_region)

-- The search in a region below block 2 ^ 32 returns the first entry that counts and has the name, if no end mark
-- stands up to it; it returns none only if an end mark stands before, or at, each such entry.
pub dir_find_in_region-means :
    (count lba : ℕ) (d : Disk) (n : List ℕ)
    → lba + count < 2 ^ 32
    → FindMeans n d lba count (dir_find_in_region count lba d n)
unfolding dir_find_in_region
dir_find_in_region-means zero lba d n h = λ p q hit. absurd (omega arith)
dir_find_in_region-means (suc count) lba d n h =
    let next : add32 lba 1 ≡ lba + 1 = omega arith in
    subst (FindMeans n d lba (suc count)) (sym (dir_find_in_region-step count lba d n)) (
      after_scan-means n d lba count (dir_find_in_region count (add32 lba 1) d n)
        (find_in_sector 16 0 (ata_read d lba) n) (find_in_sector-means 16 0 (ata_read d lba) n refl)
        (rw next (dir_find_in_region-means count (lba + 1) d n (omega arith))))
