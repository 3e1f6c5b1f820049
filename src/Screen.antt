-- ===== src/Screen.antt =====
-- The text screen: drivers/screen.c.
use yoz_os.Base.{
  ℕ, zero, suc, ◌+◌, ◌-◌, ◌*◌, ◌/◌, ◌%◌, ◌^◌, ◌==◌, ltb, if◌then◌else◌, Bool, true, false, Option,
  none, some, List, [], ◌∷◌,
}
use yoz_os.Disk.{Buffer, get8, put8}
pub mod Scrolled
pub mod Shown
pub mod Drawn

-- MAX_ROWS, MAX_COLS, WHITE_ON_BLACK.
abbrev pub max_rows : ℕ
max_rows = 25

abbrev pub max_cols : ℕ
max_cols = 80

abbrev pub white_on_black : ℕ
white_on_black = 0x0f

-- The video memory from VIDEO_ADDRESS on, and the registers 14 and 15 of the display, which keep
-- the byte that was written last.
pub record Screen : Type 0 where
  pub cursor_high : ℕ
  pub cursor_low : ℕ
  pub video : Buffer

abbrev pub get_screen_offset : (col row : ℕ) → ℕ
get_screen_offset col row = (row * max_cols + col) * 2

abbrev pub get_cursor : Screen → ℕ
get_cursor s = (s.cursor_high * 2 ^ 8 + s.cursor_low) * 2

abbrev pub set_cursor : (offset : ℕ) → Screen → Screen
set_cursor offset s = record s {
  cursor_high = offset / 2 / 2 ^ 8 % 256;
  cursor_low = offset / 2 % 256;
}

-- The loops of `handle_scrolling`: the bytes of a row, the rows from `i` on, and the blanks.
unfoldable pub copy_cells : (rounds : ℕ) → (from to : ℕ) → Buffer → Buffer
copy_cells zero from to v = v
copy_cells (suc rounds) from to v = copy_cells rounds (from + 1) (to + 1) (put8 v to (get8 v from))

unfoldable pub move_rows : (rounds : ℕ) → (i : ℕ) → Buffer → Buffer
unfolding copy_cells
move_rows zero i v = v
move_rows (suc rounds) i v =
    move_rows rounds (i + 1)
      (copy_cells (max_cols * 2) (get_screen_offset 0 i) (get_screen_offset 0 (i - 1)) v)

unfoldable pub blank_cells : (rounds : ℕ) → (to : ℕ) → Buffer → Buffer
blank_cells zero to v = v
blank_cells (suc rounds) to v = blank_cells rounds (to + 1) (put8 v to 0)

unfoldable pub scroll_up : Buffer → Buffer
unfolding move_rows blank_cells
scroll_up v =
    blank_cells (max_cols * 2) (get_screen_offset 0 (max_rows - 1)) (move_rows (max_rows - 1) 1 v)

unfoldable pub handle_scrolling : (offset : ℕ) → Buffer → ℕ × Buffer
handle_scrolling offset v =
    if ltb offset (max_rows * max_cols * 2)
    then (offset, v)
    else (offset - 2 * max_cols, scroll_up v)

-- A place on the screen; none where `col` or `row` is negative.
abbrev pub Place : Type 0
Place = Option (ℕ × ℕ)

unfoldable pub offset_at : Place → Screen → ℕ
offset_at none s = get_cursor s
offset_at (some (col, row)) s = get_screen_offset col row

-- The cell that a character is put in.
abbrev pub put_cell : (character attribute offset : ℕ) → Buffer → Buffer
put_cell character attribute offset v = put8 (put8 v offset character) (offset + 1) attribute

abbrev pub after_scroll : Screen → ℕ × Buffer → Screen
after_scroll s (offset, v) = set_cursor offset (record s { video = v })

unfoldable pub print_char : (character : ℕ) → Place → (attribute_byte : ℕ) → Screen → Screen
unfolding offset_at handle_scrolling
print_char character at_place attribute_byte s =
    let attribute = if attribute_byte == 0 then white_on_black else attribute_byte in
    let offset = offset_at at_place s in
    if character == b'\n'
    then after_scroll s
        (handle_scrolling (get_screen_offset (max_cols - 1) (offset / (2 * max_cols)) + 2) s.video)
    else after_scroll s
        (handle_scrolling (offset + 2) (put_cell character attribute offset s.video))

unfoldable pub print_chars : (message : List ℕ) → Place → Screen → Screen
unfolding print_char
print_chars [] at_place s = s
print_chars (c ∷ cs) at_place s = print_chars cs at_place (print_char c at_place white_on_black s)

unfoldable pub print_at : (message : List ℕ) → Place → Screen → Screen
unfolding print_chars
print_at message none s = print_chars message none s
print_at message (some (col, row)) s =
    print_chars message (some (col, row)) (set_cursor (get_screen_offset col row) s)

unfoldable pub print : (message : List ℕ) → Screen → Screen
unfolding print_at
print message s = print_at message none s

unfoldable pub println : (message : List ℕ) → Screen → Screen
unfolding print
println message s = print (b'\n' ∷ []) (print message s)

-- The loops of `clear_screen`: the columns of a row, and the rows.
unfoldable pub clear_cols : (rounds : ℕ) → (col row : ℕ) → Screen → Screen
unfolding print_char
clear_cols zero col row s = s
clear_cols (suc rounds) col row s =
    clear_cols rounds (col + 1) row (print_char b' ' (some (col, row)) white_on_black s)

unfoldable pub clear_rows : (rounds : ℕ) → (row : ℕ) → Screen → Screen
unfolding clear_cols
clear_rows zero row s = s
clear_rows (suc rounds) row s = clear_rows rounds (row + 1) (clear_cols max_cols 0 row s)

unfoldable pub clear_screen : Screen → Screen
unfolding clear_rows
clear_screen s = set_cursor (get_screen_offset 0 0) (clear_rows max_rows 0 s)

abbrev pub get_offset_row : (offset : ℕ) → ℕ
get_offset_row offset = offset / (2 * max_cols)

abbrev pub get_offset_col : (offset : ℕ) → ℕ
get_offset_col offset = (offset - get_offset_row offset * 2 * max_cols) / 2

-- In front of the first cell the offset is -2: the column is -1, so that the blank goes to the
-- cursor, and the registers get the bytes of -1.
unfoldable pub print_backspace : Screen → Screen
unfolding print_char
print_backspace s =
    let offset = get_cursor s - 2 in
    let row = get_offset_row offset in
    let col = get_offset_col offset in
    let blank = print_char b' ' (some (col, row)) white_on_black s in
    let blank_here = print_char b' ' none white_on_black s in
    if get_cursor s == 0
    then record blank_here { cursor_high = 255; cursor_low = 255 }
    else set_cursor (get_screen_offset col row) blank
