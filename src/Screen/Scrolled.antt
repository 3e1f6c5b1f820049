-- ===== src/Screen/Scrolled.antt =====
-- What the loops of `handle_scrolling` of drivers/screen.c leave in the video memory.
use yoz_os.Base.{
  ℕ, zero, suc, ◌+◌, ◌-◌, ◌*◌, ◌<◌, ◌≤◌, ◌≡◌, refl, ◌∙◌, arith, ◌&&◌, leb, ltb, if◌then◌else◌,
  Bool-cases, inl, inr,
}
use yoz_os.Disk.{Buffer, get8, put8}
use yoz_os.Screen.{copy_cells, move_rows, blank_cells, get_screen_offset}

-- A row is copied to a place in front of it.
pub get8-copy_cells :
    (n from to : ℕ) (v : Buffer) (x : ℕ)
    → to + n ≤ from
    → get8 (copy_cells n from to v) x
      ≡ (if leb to x && ltb x (to + n) then get8 v (from + (x - to)) else get8 v x)
unfolding copy_cells
get8-copy_cells zero from to v x h = ground arith
get8-copy_cells (suc n) from to v x h = ground (
  arith,
  get8-copy_cells n (from + 1) (to + 1) (put8 v to (get8 v from)) x (omega arith),
  first,
  later,
)
  where
    first : x ≡ to → get8 v (from + (x - to)) ≡ get8 v from
    first e = let i : from + (x - to) ≡ from = omega (arith, e) in rw i refl

    later : to + 1 ≤ x → get8 v (from + (x - to)) ≡ get8 v (from + 1 + (x - (to + 1)))
    later l = let i : from + (x - to) ≡ from + 1 + (x - (to + 1)) = omega (arith, l) in rw i refl

pub get8-blank_cells :
    (n to : ℕ) (v : Buffer) (x : ℕ)
    → get8 (blank_cells n to v) x ≡ (if leb to x && ltb x (to + n) then 0 else get8 v x)
unfolding blank_cells
get8-blank_cells zero to v x = ground arith
get8-blank_cells (suc n) to v x = ground (arith, get8-blank_cells n (to + 1) (put8 v to 0) x)

-- A row is moved up by one.
module _ (i : ℕ) (v : Buffer) (positive : 1 ≤ i) where
  abbrev moved_row : Buffer
  moved_row = copy_cells 160 (get_screen_offset 0 i) (get_screen_offset 0 (i - 1)) v

  get8-moved_row :
      (x : ℕ)
      → get8 moved_row x
        ≡ (if leb (160 * (i - 1)) x && ltb x (160 * i) then get8 v (x + 160) else get8 v x)
  get8-moved_row x =
      get8-copy_cells 160 (get_screen_offset 0 i) (get_screen_offset 0 (i - 1)) v x (omega arith)
      ∙ ground (arith, here)
    where
      here :
          160 * (i - 1) ≤ x
          → get8 v (get_screen_offset 0 i + (x - get_screen_offset 0 (i - 1))) ≡ get8 v (x + 160)
      here l =
          let e : get_screen_offset 0 i + (x - get_screen_offset 0 (i - 1)) ≡ x + 160 =
            omega (arith, l) in
          rw e refl

  moved_row-below : (y : ℕ) → 160 * i ≤ y → get8 moved_row y ≡ get8 v y
  moved_row-below y l = get8-moved_row y ∙ ground arith

-- The two parts of the rows that move, the first row and those behind it.
meet :
    (i n x p q r t : ℕ)
    → 1 ≤ i
    → p ≡ (if leb (160 * (i - 1)) x && ltb x (160 * i) then r else t)
    → (160 * i ≤ x → q ≡ r)
    → (if leb (160 * (i + 1 - 1)) x && ltb x (160 * (i + 1 - 1 + n)) then q else p)
      ≡ (if leb (160 * (i - 1)) x && ltb x (160 * (i - 1 + suc n)) then r else t)
meet i n x p q r t h e f = elim (Bool-cases (leb (160 * i) x)) [
  | inl l ↦ let g : 160 * i ≤ x = ground arith in rw (e, f g) (ground arith)
  | inr l ↦ let g : x < 160 * i = ground arith in rw e (ground arith)
]

-- The rows from `i` on move up by one.
pub get8-move_rows :
    (n i : ℕ) (v : Buffer) (x : ℕ)
    → 1 ≤ i
    → get8 (move_rows n i v) x
      ≡ (if leb (160 * (i - 1)) x && ltb x (160 * (i - 1 + n)) then get8 v (x + 160) else get8 v x)
unfolding move_rows
get8-move_rows zero i v x h = ground arith
get8-move_rows (suc n) i v x h =
    get8-move_rows n (i + 1) (moved_row i v h) x (omega arith)
    ∙ meet i n x (get8 (moved_row i v h) x) (get8 (moved_row i v h) (x + 160)) (get8 v (x + 160))
        (get8 v x) h (get8-moved_row i v h x) below
  where
    below : 160 * i ≤ x → get8 (moved_row i v h) (x + 160) ≡ get8 v (x + 160)
    below l = moved_row-below i v h (x + 160) (omega (arith, l))
