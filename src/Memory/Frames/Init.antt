-- ===== src/Memory/Frames/Init.antt =====
-- The frames that are free after `init_frames` of memory/frame_alloc.c.
use yoz_os.Base.{
  ℕ, zero, suc, ◌+◌, ◌-◌, ◌*◌, ◌/◌, ◌%◌, ◌^◌, ◌<◌, ◌≤◌, ◌≡◌, ◌↔◌, refl, ap, ◌∙◌, arith, ◌⊎◌, inl,
  inr, ◌&&◌, ltb, leb, if◌then◌else◌, true, false, Bool, Bool-cases, List, [], ◌∷◌, All,
}
use yoz_os.Memory.Frames.{
  Bitmap, has_bit, test_frame, clear_frame, E820Entry, first_frame, end_frame, is_usable, usable,
  clear_frames, clear_entries, all_used, init_frames, num_frames,
}
use yoz_os.Memory.Frames.Bits.{test_frame-clear_frame}

-- The frame `g` lies in memory that the entry says is usable, above the first MiB.
abbrev pub InEntry : ℕ → E820Entry → Type 0
InEntry g e =
    (e.type ≡ usable)
    × (0x100000 ≤ e.base)
    × (e.base ≤ g * 4096)
    × (g * 4096 + 4096 ≤ e.base + e.length)

abbrev pub InSome : ℕ → List E820Entry → Type 0
InSome g [] = ⊥
InSome g (e ∷ es) = InEntry g e ⊎ InSome g es

-- The entry ends below 8 TiB.
abbrev pub IsSmall : E820Entry → Type 0
IsSmall e = e.base + e.length < 2 ^ 43

ones : ℕ → ℕ
ones zero = 0
ones (suc n) = 1 + 2 * ones n

has_bit-ones : (n k : ℕ) → k < n → has_bit (ones n) k ≡ true
unfolding has_bit ones
has_bit-ones zero k q = absurd (omega arith)
has_bit-ones (suc n) zero q = ground arith
has_bit-ones (suc n) (suc k) q =
    let half : (1 + 2 * ones n) / 2 ≡ ones n = omega arith in
    rw half (has_bit-ones n k (omega arith))

test_frame-all_used : (b : Bitmap) (g : ℕ) → g < num_frames → test_frame (all_used b) g ≡ true
unfolding test_frame ones
test_frame-all_used b g q =
    let inside : ltb (g / 32) 1024 ≡ true = ground arith in
    rw inside (has_bit-ones 32 (g % 32) (omega arith))

test_frame-clear_frames :
    (rounds f : ℕ) (b : Bitmap) (g : ℕ)
    → test_frame (clear_frames rounds f b) g
      ≡ (if leb f g && ltb g (f + rounds) then false else test_frame b g)
unfolding clear_frames
test_frame-clear_frames zero f b g = ground arith
test_frame-clear_frames (suc rounds) f b g =
    let rest = test_frame-clear_frames rounds (f + 1) (clear_frame b f) g in
    let here = test_frame-clear_frame b f g in ground (arith, rest, here)

-- The frames that an entry frees.
abbrev freed : ℕ → E820Entry → Bool
freed g e = is_usable e && leb (first_frame e) g && ltb g (end_frame e)

freed-InEntry :
    (g : ℕ) (e : E820Entry) → g < num_frames → IsSmall e → (freed g e ≡ true) ↔ InEntry g e
freed-InEntry g e q small =
    let first : first_frame e ≡ (e.base + 4095) / 4096 = omega arith in
    let end : (((e.base + e.length) % 2 ^ 64) / 2 ^ 12) % 2 ^ 32 ≡ (e.base + e.length) / 4096 =
      omega arith in
    rw (first, end) (ground arith)

clear_entry_lem :
    (e : E820Entry) (b : Bitmap) (g : ℕ)
    → test_frame
        (if is_usable e then clear_frames (end_frame e - first_frame e) (first_frame e) b else b)
        g
      ≡ (if freed g e then false else test_frame b g)
clear_entry_lem e b g = elim (Bool-cases (is_usable e)) [
  | inr t ↦ rw t refl
  | inl t ↦ rw t (
      test_frame-clear_frames (end_frame e - first_frame e) (first_frame e) b g
      ∙ ap (λ t. if t then false else test_frame b g) (ground arith))
]

clear_entries_lem :
    (es : List E820Entry) (b : Bitmap) (g : ℕ)
    → g < num_frames
    → All IsSmall es
    → (test_frame (clear_entries es b) g ≡ false) ↔ (InSome g es ⊎ (test_frame b g ≡ false))
unfolding clear_entries
clear_entries_lem [] b g q small = (λ t. inr t, λ s. elim s [ inl x ↦ absurd x | inr t ↦ t ])
clear_entries_lem (e ∷ es) b g q small =
    let b' =
      if is_usable e then clear_frames (end_frame e - first_frame e) (first_frame e) b else b in
    let rest = clear_entries_lem es b' g q small.1 in
    let here = freed-InEntry g e q small.0 in
    let one = clear_entry_lem e b g in
    (
      λ t. elim (rest.0 t) [
        | inl x ↦ inl (inr x)
        | inr u ↦ elim (Bool-cases (freed g e)) [
          | inl f ↦ inl (inl (here.0 f))
          | inr f ↦ inr (ground (arith, one, u, f))
        ]
      ],
      λ s. rest.1 (elim s [
        | inl x ↦ elim x [
          | inl y ↦ let f = here.1 y in inr (ground (arith, one, f))
          | inr y ↦ inl y
        ]
        | inr u ↦ inr (ground (arith, one, u))
      ]),
    )

-- Where no entry of the memory map ends above 8 TiB, a frame of the bitmap is free after
-- `init_frames` just if all its bytes lie in one usable entry that begins above the first MiB.
pub init_frames-free_iff :
    (es : List E820Entry) (b : Bitmap) (g : ℕ)
    → g < num_frames
    → All IsSmall es
    → (test_frame (init_frames es b) g ≡ false) ↔ InSome g es
unfolding init_frames
init_frames-free_iff es b g q small =
    let iff = clear_entries_lem es (all_used b) g q small in
    let used = test_frame-all_used b g q in
    (
      λ t. elim (iff.0 t) [ inl x ↦ x | inr u ↦ absurd (ground (arith, used, u)) ],
      λ x. iff.1 (inl x),
    )
