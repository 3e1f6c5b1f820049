-- ===== src/Tests/Display.antt =====
-- The theorems on the screen at a screen with the cursor in the last cell.
use yoz_os.Base.{ℕ, ◌+◌, ◌≤◌, ◌≡◌, refl, arith, none, List, ◌∷◌, [], length, false}
use yoz_os.Screen.{Screen, offset_at, print_char, print_at, print_backspace}
use yoz_os.Keyboard.{
  Keyboard, backspace_key, enter_key, keyboard_callbacks, keyboard_callback, erase_key, enter_line,
  type_letter, backspace,
}
use yoz_os.Keyboard.Typed.{keyboard_callbacks-Inside}
use yoz_os.Screen.Shown.{Shown, attribute_of, print_char-Shown}
use yoz_os.Screen.Drawn.{Inside, starts, prints, erases, Drawn-Inside}

abbrev last_cell : Screen
last_cell = record { cursor_high = 7; cursor_low = 0xcf; video = λ x. 0x20 }

print_char-Shown_example :
    Shown b'x'
      (attribute_of 0)
      (offset_at none last_cell)
      last_cell
      (print_char b'x' none 0 last_cell)
unfolding offset_at
print_char-Shown_example = print_char-Shown b'x' none 0 last_cell (omega arith)

abbrev drawn : Screen
drawn = print_at (b'o' ∷ b'k' ∷ b'\n' ∷ []) none (print_backspace last_cell)

Drawn-Inside_example : Inside last_cell drawn
Drawn-Inside_example =
    Drawn-Inside last_cell drawn (omega arith)
      (prints (erases starts (λ e. absurd (omega (arith, e)))) (b'o' ∷ b'k' ∷ b'\n' ∷ []) none tt)

abbrev idle_keyboard : Keyboard
idle_keyboard = record { key_buffer = []; line_buffer = []; line_ready = false; screen = last_cell }

abbrev pressed : List ℕ
pressed = 0x1e ∷ 0x30 ∷ backspace_key ∷ 0x2e ∷ enter_key ∷ []

entered : (keyboard_callbacks pressed idle_keyboard).line_buffer ≡ b'A' ∷ b'C' ∷ []
unfolding keyboard_callbacks keyboard_callback erase_key enter_line type_letter backspace
entered = refl

keyboard_callbacks-Inside_example :
    (length (keyboard_callbacks pressed idle_keyboard).key_buffer + 1 ≤ 1024)
    × Inside last_cell (keyboard_callbacks pressed idle_keyboard).screen
keyboard_callbacks-Inside_example =
    keyboard_callbacks-Inside pressed idle_keyboard refl (omega arith) (omega arith)
