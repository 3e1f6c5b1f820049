-- ===== src/Screen/Drawn.antt =====
-- The calls of drivers/screen.c one after another stay on the screen.
use yoz_os.Base.{
  ℕ, zero, suc, ◌+◌, ◌-◌, ◌<◌, ◌≤◌, ◌≡◌, ◌≢◌, refl, ◌∙◌, arith, ◌==◌, ltb, if◌then◌else◌, true,
  false, Bool-cases, inl, inr, none, some, List, [], ◌∷◌,
}
use yoz_os.Disk.{get8}
use yoz_os.Screen.{
  Screen, Place, get_screen_offset, max_cols, max_rows, get_cursor, set_cursor, offset_at,
  print_char, print_chars, print_at, print, println, clear_cols, clear_rows, clear_screen,
  print_backspace, get_offset_row, get_offset_col, white_on_black,
}
use yoz_os.Screen.Shown.{
  screen_bytes, next_offset, shown_byte, attribute_of, print_char-Shown, offset_at-half,
}

-- The cursor is on the screen, and the bytes behind the screen are as they were.
abbrev pub Inside : Screen → Screen → Type 0
Inside s s' =
    (get_cursor s' < screen_bytes) × ((x : ℕ) → screen_bytes ≤ x → get8 s'.video x ≡ get8 s.video x)

pub Inside-trans : (s s' s'' : Screen) → Inside s s' → Inside s' s'' → Inside s s''
Inside-trans s s' s'' a b = (b.0, λ x h. b.1 x h ∙ a.1 x h)

pub ltb-true : {a b : ℕ} → ltb a b ≡ true → a < b
ltb-true h = ground arith

pub ltb-false : {a b : ℕ} → ltb a b ≡ false → b ≤ a
ltb-false h = ground arith

behind_scroll :
    (r p : ℕ) {q x : ℕ}
    → screen_bytes ≤ x
    → p ≡ q
    → (if ltb x (screen_bytes - 160) then r else if ltb x screen_bytes then 0 else p) ≡ q
behind_scroll r p l e = ground arith

pub print_char-Inside :
    (c : ℕ) (p : Place) (a : ℕ) (s : Screen)
    → offset_at p s < screen_bytes
    → Inside s (print_char c p a s)
print_char-Inside c p a s h =
    let shown = print_char-Shown c p a s h in
    let (k, half) = offset_at-half p s in
    let near : next_offset c (offset_at p s) < screen_bytes + 160 = ground arith in
    let behind : (x : ℕ)
        → screen_bytes ≤ x
        → shown_byte c (attribute_of a) (offset_at p s) s.video x ≡ get8 s.video x =
      λ x l. ground (arith, half) in
    elim (Bool-cases (ltb (next_offset c (offset_at p s)) screen_bytes)) [
      | inl t ↦
          let low : next_offset c (offset_at p s) < screen_bytes = ltb-true t in
          let (e, f) = shown.fits low in (omega (arith, e, low), λ x l. f x ∙ behind x l)
      | inr t ↦
          let high : screen_bytes ≤ next_offset c (offset_at p s) = ltb-false t in
          let (e, f) = shown.scrolls high in
          (
            omega (arith, e, near, high),
            λ x l.
                f x
                ∙ behind_scroll (shown_byte c (attribute_of a) (offset_at p s) s.video (x + 160))
                    (shown_byte c (attribute_of a) (offset_at p s) s.video x) l (behind x l),
          )
    ]

-- The places with a column and a row of the screen; none is the cursor.
abbrev pub OnScreen : Place → Type 0
OnScreen none = Unit {0}
OnScreen (some (col, row)) = (col < max_cols) × (row < max_rows)

offset_at-lt :
    (p : Place) (s : Screen)
    → OnScreen p
    → get_cursor s < screen_bytes
    → offset_at p s < screen_bytes
unfolding offset_at
offset_at-lt none s o h = h
offset_at-lt (some (col, row)) s o h = omega (arith, o.0, o.1)

print_chars-Inside :
    (message : List ℕ) (p : Place) (s : Screen)
    → OnScreen p
    → get_cursor s < screen_bytes
    → Inside s (print_chars message p s)
unfolding print_chars
print_chars-Inside [] p s o h = (h, λ x l. refl)
print_chars-Inside (c ∷ cs) p s o h =
    let first = print_char-Inside c p white_on_black s (offset_at-lt p s o h) in
    let s' = print_char c p white_on_black s in
    Inside-trans s s' (print_chars cs p s') first (print_chars-Inside cs p s' o first.0)

pub print_at-Inside :
    (message : List ℕ) (p : Place) (s : Screen)
    → OnScreen p
    → get_cursor s < screen_bytes
    → Inside s (print_at message p s)
unfolding print_at
print_at-Inside message none s o h = print_chars-Inside message none s o h
print_at-Inside message (some (col, row)) s o h =
    print_chars-Inside message (some (col, row)) (set_cursor (get_screen_offset col row) s) o
      (omega (arith, o.0, o.1))

clear_cols-Inside :
    (rounds col row : ℕ) (s : Screen)
    → col + rounds ≤ max_cols
    → row < max_rows
    → get_cursor s < screen_bytes
    → Inside s (clear_cols rounds col row s)
unfolding clear_cols
clear_cols-Inside zero col row s a b h = (h, λ x l. refl)
clear_cols-Inside (suc rounds) col row s a b h =
    let first =
      print_char-Inside b' ' (some (col, row)) white_on_black s
        (offset_at-lt (some (col, row)) s (omega arith, b) h) in
    let s' = print_char b' ' (some (col, row)) white_on_black s in
    Inside-trans s s' (clear_cols rounds (col + 1) row s') first
      (clear_cols-Inside rounds (col + 1) row s' (omega arith) b first.0)

clear_rows-Inside :
    (rounds row : ℕ) (s : Screen)
    → row + rounds ≤ max_rows
    → get_cursor s < screen_bytes
    → Inside s (clear_rows rounds row s)
unfolding clear_rows
clear_rows-Inside zero row s a h = (h, λ x l. refl)
clear_rows-Inside (suc rounds) row s a h =
    let first = clear_cols-Inside max_cols 0 row s (omega arith) (omega arith) h in
    let s' = clear_cols max_cols 0 row s in
    Inside-trans s s' (clear_rows rounds (row + 1) s') first
      (clear_rows-Inside rounds (row + 1) s' (omega arith) first.0)

clear_screen-Inside : (s : Screen) → get_cursor s < screen_bytes → Inside s (clear_screen s)
unfolding clear_screen
clear_screen-Inside s h = (omega arith, (clear_rows-Inside max_rows 0 s (omega arith) h).1)

pub get_cursor-print_backspace :
    (s : Screen)
    → get_cursor s < screen_bytes
    → get_cursor s ≢ 0
    → get_cursor (print_backspace s) ≡ get_cursor s - 2
unfolding print_backspace
get_cursor-print_backspace s h there =
    let t : (get_cursor s == 0) ≡ false = ground arith in rw t (omega arith)

pub print_backspace-Inside :
    (s : Screen) → get_cursor s < screen_bytes → get_cursor s ≢ 0 → Inside s (print_backspace s)
unfolding print_backspace
print_backspace-Inside s h there =
    let offset = get_cursor s - 2 in
    let row = get_offset_row offset in
    let col = get_offset_col offset in
    let t : (get_cursor s == 0) ≡ false = ground arith in
    let on : OnScreen (some (col, row)) = (omega arith, omega arith) in
    let blank =
      print_char-Inside b' ' (some (col, row)) white_on_black s
        (offset_at-lt (some (col, row)) s on h) in
    rw t (omega arith, blank.1)

-- The screens that calls of the driver make of a screen.
pub data Drawn (s : Screen) : Screen → Type 0 where
  starts : Drawn s s
  prints :
      {t : Screen}
      → Drawn s t
      → (message : List ℕ) (p : Place) → OnScreen p
      → Drawn s (print_at message p t)
  prints_line : {t : Screen} → Drawn s t → (message : List ℕ) → Drawn s (println message t)
  clears : {t : Screen} → Drawn s t → Drawn s (clear_screen t)
  erases : {t : Screen} → Drawn s t → get_cursor t ≢ 0 → Drawn s (print_backspace t)

println-Inside :
    (message : List ℕ) (s : Screen) → get_cursor s < screen_bytes → Inside s (println message s)
unfolding println print
println-Inside message s h =
    let first = print_at-Inside message none s tt h in
    let s' = print_at message none s in
    Inside-trans s s' (print_at (b'\n' ∷ []) none s') first
      (print_at-Inside (b'\n' ∷ []) none s' tt first.0)

-- Whatever is printed, cleared or erased, one call after another, the cursor stays on the screen,
-- and no byte behind the video memory of the screen is written, if the cursor was on the screen
-- at the start, all places that are given are on the screen, and nothing is erased in front of
-- the first cell.
pub Drawn-Inside : (s s' : Screen) → get_cursor s < screen_bytes → Drawn s s' → Inside s s'
Drawn-Inside s s' h starts = (h, λ x l. refl)
Drawn-Inside s s' h (prints {t} d message p o) =
    let r = Drawn-Inside s t h d in Inside-trans s t s' r (print_at-Inside message p t o r.0)
Drawn-Inside s s' h (prints_line {t} d message) =
    let r = Drawn-Inside s t h d in Inside-trans s t s' r (println-Inside message t r.0)
Drawn-Inside s s' h (clears {t} d) =
    let r = Drawn-Inside s t h d in Inside-trans s t s' r (clear_screen-Inside t r.0)
Drawn-Inside s s' h (erases {t} d there) =
    let r = Drawn-Inside s t h d in Inside-trans s t s' r (print_backspace-Inside t r.0 there)
