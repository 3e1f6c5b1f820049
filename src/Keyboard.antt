-- ===== src/Keyboard.antt =====
-- The keys and the line of drivers/keyboard.c, with `append` and `backspace` of kernel/string.c.
use yoz_os.Base.{
  ℕ, zero, suc, ◌==◌, ltb, not, if◌then◌else◌, Bool, true, false, none, List, [], ◌∷◌, ◌++◌, get_or,
  length,
}
use yoz_os.Screen.{Screen, white_on_black, print, print_char, print_backspace}
pub mod Typed

-- BACKSPACE, ENTER, SC_MAX.
abbrev pub backspace_key : ℕ
backspace_key = 0x0e

abbrev pub enter_key : ℕ
enter_key = 0x1c

abbrev pub sc_max : ℕ
sc_max = 57

abbrev pub sc_ascii : List ℕ
sc_ascii =
    b'?' ∷ b'?' ∷ b'1' ∷ b'2' ∷ b'3' ∷ b'4' ∷ b'5' ∷ b'6' ∷ b'7' ∷ b'8' ∷ b'9' ∷ b'0' ∷ b'-' ∷ b'='
    ∷ b'?' ∷ b'?' ∷ b'Q' ∷ b'W' ∷ b'E' ∷ b'R' ∷ b'T' ∷ b'Y' ∷ b'U' ∷ b'I' ∷ b'O' ∷ b'P' ∷ b'['
    ∷ b']' ∷ b'?' ∷ b'?' ∷ b'A' ∷ b'S' ∷ b'D' ∷ b'F' ∷ b'G' ∷ b'H' ∷ b'J' ∷ b'K' ∷ b'L' ∷ b';'
    ∷ 0x27 ∷ b'`' ∷ b'?' ∷ 0x5c ∷ b'Z' ∷ b'X' ∷ b'C' ∷ b'V' ∷ b'B' ∷ b'N' ∷ b'M' ∷ b',' ∷ b'.'
    ∷ b'/' ∷ b'?' ∷ b'?' ∷ b'?' ∷ b' ' ∷ []

-- The buffers as strings, and the screen that the keys are shown on.
pub record Keyboard : Type 0 where
  pub key_buffer : List ℕ
  pub line_buffer : List ℕ
  pub line_ready : Bool
  pub screen : Screen

abbrev pub append : List ℕ → ℕ → List ℕ
append s n = s ++ (n ∷ [])

-- Of a string that is not empty.
unfoldable pub backspace : List ℕ → List ℕ
backspace [] = []
backspace (c ∷ []) = []
backspace (c ∷ next ∷ cs) = c ∷ backspace (next ∷ cs)

-- The branches of `keyboard_callback`.
unfoldable pub erase_key : Keyboard → Keyboard
unfolding backspace
erase_key k =
    if ltb 0 (length k.key_buffer)
    then record k { key_buffer = backspace k.key_buffer; screen = print_backspace k.screen }
    else k

unfoldable pub enter_line : Keyboard → Keyboard
enter_line k =
    let shown = print (b'\n' ∷ []) k.screen in
    if k.line_ready
    then record k { key_buffer = []; screen = shown }
    else record { key_buffer = []; line_buffer = k.key_buffer; line_ready = true; screen = shown }

unfoldable pub type_letter : (letter : ℕ) → Keyboard → Keyboard
type_letter letter k = record k {
  key_buffer = append k.key_buffer letter;
  screen = print_char letter none white_on_black k.screen;
}

unfoldable pub keyboard_callback : (scancode : ℕ) → Keyboard → Keyboard
keyboard_callback scancode k =
    if ltb sc_max scancode
    then k
    else if scancode == backspace_key
    then erase_key k
    else if scancode == enter_key
    then enter_line k
    else type_letter (get_or sc_ascii scancode 0) k

-- One interrupt after another.
unfoldable pub keyboard_callbacks : (scancodes : List ℕ) → Keyboard → Keyboard
keyboard_callbacks [] k = k
keyboard_callbacks (c ∷ cs) k = keyboard_callbacks cs (keyboard_callback c k)
