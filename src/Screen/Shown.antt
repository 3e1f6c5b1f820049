-- ===== src/Screen/Shown.antt =====
-- What `print_char` of drivers/screen.c shows.
use yoz_os.Base.{
  ℕ, ◌+◌, ◌-◌, ◌*◌, ◌/◌, ◌%◌, ◌^◌, ◌<◌, ◌≤◌, ◌≡◌, refl, ◌∙◌, arith, ◌==◌, ◌&&◌, leb, ltb,
  if◌then◌else◌, true, false, Bool-cases, inl, inr, none, some,
}
use yoz_os.Disk.{Buffer, get8}
use yoz_os.Screen.{
  Screen, Place, move_rows, scroll_up, handle_scrolling, get_screen_offset, max_cols, max_rows,
  get_cursor, set_cursor, put_cell, offset_at, after_scroll, print_char, white_on_black,
}
use yoz_os.Screen.Scrolled.{get8-move_rows, get8-blank_cells}

-- The bytes of the screen.
abbrev pub screen_bytes : ℕ
screen_bytes = 4000

abbrev pub scrolled_byte : Buffer → ℕ → ℕ
scrolled_byte v x =
    if ltb x (screen_bytes - 160)
    then get8 v (x + 160)
    else if ltb x screen_bytes
    then 0
    else get8 v x

rows_end :
    (x p r t : ℕ)
    → p ≡ (if leb (160 * (1 - 1)) x && ltb x (160 * (1 - 1 + 24)) then r else t)
    → (if leb (get_screen_offset 0 24) x && ltb x (get_screen_offset 0 24 + 160) then 0 else p)
      ≡ (if ltb x (screen_bytes - 160) then r else if ltb x screen_bytes then 0 else t)
rows_end x p r t e = ground arith

-- Every row moves up, and the last one is blank.
pub get8-scroll_up : (v : Buffer) (x : ℕ) → get8 (scroll_up v) x ≡ scrolled_byte v x
unfolding scroll_up
get8-scroll_up v x =
    get8-blank_cells 160 (get_screen_offset 0 24) (move_rows 24 1 v) x
    ∙ rows_end x (get8 (move_rows 24 1 v) x) (get8 v (x + 160)) (get8 v x)
        (get8-move_rows 24 1 v x (omega arith))

pub handle_scrolling-down :
    (offset : ℕ) (v : Buffer)
    → screen_bytes ≤ offset
    → handle_scrolling offset v ≡ (offset - 160, scroll_up v)
unfolding handle_scrolling
handle_scrolling-down offset v h =
    let t : ltb offset (max_rows * max_cols * 2) ≡ false = ground arith in rw t refl

pub handle_scrolling-same :
    (offset : ℕ) (v : Buffer) → offset < screen_bytes → handle_scrolling offset v ≡ (offset, v)
unfolding handle_scrolling
handle_scrolling-same offset v h =
    let t : ltb offset (max_rows * max_cols * 2) ≡ true = ground arith in rw t refl

-- The offset behind a character at `offset`, before the screen scrolls.
abbrev pub next_offset : (character offset : ℕ) → ℕ
next_offset character offset = if character == b'\n' then (offset / 160 + 1) * 160 else offset + 2

-- A byte of the screen with the character at `offset`, before the screen scrolls.
abbrev pub shown_byte : (character attribute offset : ℕ) → Buffer → ℕ → ℕ
shown_byte character attribute offset v x =
    if character == b'\n'
    then get8 v x
    else if x == offset
    then character % 256
    else if x == offset + 1
    then attribute % 256
    else get8 v x

-- The screen with a character at `offset`.
pub record Shown (character attribute offset : ℕ) (s s' : Screen) : Type 0 where
  pub fits :
      next_offset character offset < screen_bytes
      → (get_cursor s' ≡ next_offset character offset)
        × ((x : ℕ) → get8 s'.video x ≡ shown_byte character attribute offset s.video x)
  pub scrolls :
      screen_bytes ≤ next_offset character offset
      → (get_cursor s' ≡ next_offset character offset - 160)
        × ((x : ℕ)
            → get8 s'.video x ≡ (
                if ltb x (screen_bytes - 160)
                then shown_byte character attribute offset s.video (x + 160)
                else if ltb x screen_bytes
                then 0
                else shown_byte character attribute offset s.video x))

-- A cursor in reach of the two registers.
get_cursor-set_cursor : (k : ℕ) (s : Screen) → k < 65536 → get_cursor (set_cursor (k * 2) s) ≡ k * 2
get_cursor-set_cursor k s h = omega arith

-- The part of `print_char` behind the character.
after_scroll-Shown :
    (character attribute offset k : ℕ) (v : Buffer) (s : Screen)
    → k < 3000
    → next_offset character offset ≡ k * 2
    → ((x : ℕ) → get8 v x ≡ shown_byte character attribute offset s.video x)
    → Shown character attribute offset s (after_scroll s (handle_scrolling (k * 2) v))
after_scroll-Shown character attribute offset k v s near next bytes = record {
  fits = λ h.
      let e = handle_scrolling-same (k * 2) v (omega (arith, next, h)) in
      rw (e, next) (get_cursor-set_cursor k s (omega arith), bytes);
  scrolls = λ h.
      let e = handle_scrolling-down (k * 2) v (omega (arith, next, h)) in
      let half : k * 2 - 160 ≡ (k - 80) * 2 = omega arith in
      rw (e, next, half)
        (
          get_cursor-set_cursor (k - 80) s (omega arith),
          λ x. get8-scroll_up v x ∙ rw (bytes x, bytes (x + 160)) refl,
        );
}

put_cell_byte :
    (character attribute offset : ℕ) (v : Buffer) (x : ℕ)
    → get8 (put_cell character attribute offset v) x ≡ (
        if x == offset
        then character % 256
        else if x == offset + 1
        then attribute % 256
        else get8 v x)
put_cell_byte character attribute offset v x = ground arith

pub offset_at-half : (p : Place) (s : Screen) → (k : ℕ) × (offset_at p s ≡ k * 2)
unfolding offset_at
offset_at-half none s = (s.cursor_high * 2 ^ 8 + s.cursor_low, refl)
offset_at-half (some (col, row)) s = (row * max_cols + col, refl)

abbrev pub attribute_of : ℕ → ℕ
attribute_of attribute_byte = if attribute_byte == 0 then white_on_black else attribute_byte

-- A character goes to its place, or to the cursor if none is given, with its attribute, and the
-- cursor goes behind it; a line feed only moves the cursor to the start of the next row. If the
-- cursor would leave the screen, all rows move up, the last row is blank, and the cursor moves up
-- with them. No other byte changes.
pub print_char-Shown :
    (character : ℕ) (p : Place) (attribute_byte : ℕ) (s : Screen)
    → offset_at p s < screen_bytes
    → Shown character
        (attribute_of attribute_byte)
        (offset_at p s)
        s
        (print_char character p attribute_byte s)
unfolding print_char
print_char-Shown character p attribute_byte s h =
    let offset = offset_at p s in
    let attribute = attribute_of attribute_byte in
    let (k, half) = offset_at-half p s in
    elim (Bool-cases (character == b'\n')) [
      | inl t ↦
          let next : next_offset character offset ≡ (offset / 160 * 80 + 80) * 2 = ground arith in
          let place : get_screen_offset (max_cols - 1) (offset / (2 * max_cols)) + 2
              ≡ (offset / 160 * 80 + 80) * 2 =
            omega arith in
          rw (t, place)
            (after_scroll-Shown character attribute offset (offset / 160 * 80 + 80) s.video s
              (omega arith) next (λ x. rw t refl))
      | inr t ↦
          let next : next_offset character offset ≡ (k + 1) * 2 = ground arith in
          let place : offset + 2 ≡ (k + 1) * 2 = omega (arith, half) in
          rw (t, place)
            (after_scroll-Shown character attribute offset (k + 1)
              (put_cell character attribute offset s.video) s (omega (arith, half)) next
              (λ x. rw t (put_cell_byte character attribute offset s.video x)))
    ]
