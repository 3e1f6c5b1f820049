-- ===== src/Memory/Words.antt =====
-- The `|` of two u32, by its digits, and what a test of a bit sees of it.
use native.Mathlib.Nat.{pow-suc}
use yoz_os.Base.{ℕ, zero, suc, ◌+◌, ◌*◌, ◌/◌, ◌%◌, ◌^◌, ◌<◌, ◌≡◌, ap, arith, ltb, if◌then◌else◌}

-- `a | b` in the lowest `width` digits.
unfoldable pub or_bits : (width a b : ℕ) → ℕ
or_bits zero a b = 0
or_bits (suc width) a b =
    (if ltb 0 (a % 2 + b % 2) then 1 else 0) + 2 * or_bits width (a / 2) (b / 2)

unfoldable pub or32 : ℕ → ℕ → ℕ
unfolding or_bits
or32 a b = or_bits 32 a b

pub or_bits-zero : (width a : ℕ) → a < 2 ^ width → or_bits width a 0 ≡ a
unfolding or_bits
or_bits-zero zero a h = omega arith
or_bits-zero (suc width) a h = ground (arith, or_bits-zero width (a / 2))

pub or_bits-lt : (width a b : ℕ) → or_bits width a b < 2 ^ width
unfolding or_bits
or_bits-lt zero a b = omega arith
or_bits-lt (suc width) a b = ground (arith, or_bits-lt width (a / 2) (b / 2))

half_power : (q k : ℕ) → q * 2 ^ suc k / 2 ≡ q * 2 ^ k
half_power q k = omega (arith, ap (λ (t : ℕ). q * t) (pow-suc 2 k))

-- `a | b` of two fields that do not meet is their sum.
pub or_bits-fields :
    (k width q r : ℕ)
    → r < 2 ^ k
    → q < 2 ^ width
    → or_bits (k + width) (q * 2 ^ k) r ≡ q * 2 ^ k + r
unfolding or_bits
or_bits-fields zero width q r h w =
    let (z, e, m) : (0 + width ≡ width) × (r ≡ 0) × (q * 1 ≡ q) =
      (omega arith, omega arith, omega arith) in
    rw (z, e, m) (omega (arith, or_bits-zero width q))
or_bits-fields (suc k) width q r h w =
    let z : suc k + width ≡ suc (k + width) = omega arith in
    rw (z, or_bits, half_power q k, or_bits-fields k width q (r / 2) (omega (arith, pow-suc 2 k)) w)
      (ground (arith, half_power q k, pow-suc 2 k, even q k))
  where
    even : (q k : ℕ) → q * 2 ^ suc k % 2 ≡ 0
    even q k = omega (arith, ap (λ (t : ℕ). q * t) (pow-suc 2 k))

or_bits-even : (width a b : ℕ) → or_bits (suc width) a (b * 2) ≡ a % 2 + 2 * or_bits width (a / 2) b
unfolding or_bits
or_bits-even width a b =
    let e : b * 2 / 2 ≡ b = omega arith in
    rw e (let z : b * 2 % 2 ≡ 0 = omega arith in ground arith)

or_bits-one : (width a : ℕ) → a < 2 ^ suc width → or_bits (suc width) a 1 ≡ a / 2 * 2 + 1
unfolding or_bits
or_bits-one width a h = ground (arith, or_bits-zero width (a / 2), pow-suc 2 width)

-- `a | 1`, `a | 2` and `a | 4`.
pub or32-one : (a : ℕ) → a < 2 ^ 32 → or32 a 1 ≡ a / 2 * 2 + 1
unfolding or32
or32-one a h = or_bits-one 31 a h

pub or32-two : (a : ℕ) → a < 2 ^ 32 → or32 a 2 ≡ a / 4 * 4 + 2 + a % 2
unfolding or32
or32-two a h = omega (arith, or_bits-even 31 a 1, or_bits-one 30 (a / 2) (omega arith))

pub or32-four : (a : ℕ) → a < 2 ^ 32 → or32 a 4 ≡ a / 8 * 8 + 4 + a % 4
unfolding or32
or32-four a h = omega (
  arith,
  or_bits-even 31 a 2,
  or_bits-even 30 (a / 2) 1,
  or_bits-one 29 (a / 2 / 2) (omega arith),
)

-- `a | f`, where `a` is the address of a page and `f` lies below it.
pub or32-fields : (q f : ℕ) → q < 2 ^ 20 → f < 4096 → or32 (q * 4096) f ≡ q * 4096 + f
unfolding or32
or32-fields q f h w = or_bits-fields 12 20 q f w h
