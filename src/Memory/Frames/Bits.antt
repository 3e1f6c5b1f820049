-- ===== src/Memory/Frames/Bits.antt =====
-- One bit of the bitmap of memory/frame_alloc.c, set, cleared and tested.
use yoz_os.Base.{
  ℕ, zero, suc, ◌+◌, ◌*◌, ◌/◌, ◌%◌, ◌≡◌, refl, sym, ap, ◌∙◌, arith, ◌==◌, if◌then◌else◌, true,
  false, Bool, ℕ_discrete,
}
use yoz_os.Memory.Frames.{
  Bitmap, has_bit, or_bit, and_not_bit, set_word, set_frame, clear_frame, test_frame,
}

has_bit-or_bit : (w k j : ℕ) → has_bit (or_bit w k) j ≡ (if j == k then true else has_bit w j)
unfolding has_bit or_bit
has_bit-or_bit w zero zero = ground arith
has_bit-or_bit w zero (suc j) =
    let half : (w / 2 * 2 + 1) / 2 ≡ w / 2 = omega arith in
    let high : (suc j == 0) ≡ false = ground arith in rw (half, high) refl
has_bit-or_bit w (suc k) zero = ground arith
has_bit-or_bit w (suc k) (suc j) =
    let half : (w % 2 + 2 * or_bit (w / 2) k) / 2 ≡ or_bit (w / 2) k = omega arith in
    let same : (suc j == suc k) ≡ (j == k) = ground arith in
    rw (half, same) (has_bit-or_bit (w / 2) k j)

has_bit-and_not_bit :
    (w k j : ℕ) → has_bit (and_not_bit w k) j ≡ (if j == k then false else has_bit w j)
unfolding has_bit and_not_bit
has_bit-and_not_bit w zero zero = ground arith
has_bit-and_not_bit w zero (suc j) =
    let half : w / 2 * 2 / 2 ≡ w / 2 = omega arith in
    let high : (suc j == 0) ≡ false = ground arith in rw (half, high) refl
has_bit-and_not_bit w (suc k) zero = ground arith
has_bit-and_not_bit w (suc k) (suc j) =
    let half : (w % 2 + 2 * and_not_bit (w / 2) k) / 2 ≡ and_not_bit (w / 2) k = omega arith in
    let same : (suc j == suc k) ≡ (j == k) = ground arith in
    rw (half, same) (has_bit-and_not_bit (w / 2) k j)

module _ (b : Bitmap) (f : ℕ) where
  set_word_lem :
      (w g : ℕ) (to : Bool)
      → has_bit w (g % 32) ≡ (if g % 32 == f % 32 then to else has_bit (b (f / 32)) (g % 32))
      → has_bit (set_word b (f / 32) w (g / 32)) (g % 32)
        ≡ (if g == f then to else has_bit (b (g / 32)) (g % 32))
  set_word_lem w g to e = elim (ℕ_discrete (g / 32) (f / 32)) [
    | no ne ↦
        let word : (g / 32 == f / 32) ≡ false = ground arith in
        let other : (g == f) ≡ false = ground arith in rw (word, other) refl
    | yes s ↦
        let word : (g / 32 == f / 32) ≡ true = ground arith in
        let bit : (g == f) ≡ (g % 32 == f % 32) = ground arith in
        rw (word, bit)
          (e ∙ ap (λ i. if g % 32 == f % 32 then to else has_bit (b i) (g % 32)) (sym s))
  ]

  -- `set` marks its frame as used and leaves the others.
  pub test_frame-set_frame :
      (g : ℕ) → test_frame (set_frame b f) g ≡ (if g == f then true else test_frame b g)
  unfolding test_frame set_frame
  test_frame-set_frame g =
      set_word_lem (or_bit (b (f / 32)) (f % 32)) g true
        (has_bit-or_bit (b (f / 32)) (f % 32) (g % 32))

  pub test_frame-clear_frame :
      (g : ℕ) → test_frame (clear_frame b f) g ≡ (if g == f then false else test_frame b g)
  unfolding test_frame clear_frame
  test_frame-clear_frame g =
      set_word_lem (and_not_bit (b (f / 32)) (f % 32)) g false
        (has_bit-and_not_bit (b (f / 32)) (f % 32) (g % 32))
