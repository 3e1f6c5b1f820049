-- ===== src/Keyboard/Typed.antt =====
-- What the keys of drivers/keyboard.c do to the buffer and the screen.
use yoz_os.Base.{
  ℕ, suc, ◌+◌, ◌-◌, ◌*◌, ◌<◌, ◌≤◌, ◌≡◌, ◌≢◌, refl, arith, ◌==◌, ltb, if◌then◌else◌, if-keeps, true,
  Bool-cases, inl, inr, none, List, [], ◌∷◌, get_or, length, length-append,
}
use yoz_os.Screen.{
  Screen, get_cursor, white_on_black, print, print_char, print_backspace, print_at, offset_at,
}
use yoz_os.Screen.Shown.{screen_bytes, next_offset, print_char-Shown}
use yoz_os.Screen.Drawn.{
  Inside, Inside-trans, print_char-Inside, print_at-Inside, print_backspace-Inside,
  get_cursor-print_backspace, ltb-true, ltb-false,
}
use yoz_os.Keyboard.{
  Keyboard, sc_max, sc_ascii, backspace_key, enter_key, backspace, erase_key, enter_line,
  type_letter, keyboard_callback, keyboard_callbacks,
}

-- A buffer that fits with the byte 0, has at most `n` letters, and whose letters all stand in
-- front of the cursor.
record Typing (s : Screen) (n : ℕ) (k : Keyboard) : Type 0 where
  inside : Inside s k.screen
  few : length k.key_buffer ≤ n
  shown : 2 * length k.key_buffer ≤ get_cursor k.screen

length-backspace : (s : List ℕ) → length (backspace s) ≡ length s - 1
unfolding backspace
length-backspace [] = refl
length-backspace (c ∷ []) = refl
length-backspace (c ∷ next ∷ cs) = omega (arith, length-backspace (next ∷ cs))

erase_key-Typing :
    (s : Screen) (n : ℕ) (k : Keyboard) → Typing s n k → Typing s (suc n) (erase_key k)
unfolding erase_key
erase_key-Typing s n k t = elim (Bool-cases (ltb 0 (length k.key_buffer))) [
  | inr e ↦ rw e (record { inside = t.inside; few = omega (arith, t.few); shown = t.shown })
  | inl e ↦
      let some_letter : 0 < length k.key_buffer = ground arith in
      let there : get_cursor k.screen ≢ 0 = λ z. absurd (omega (arith, z, t.shown)) in
      let back = get_cursor-print_backspace k.screen t.inside.0 there in
      rw e (record {
        inside =
            Inside-trans s k.screen (print_backspace k.screen) t.inside
              (print_backspace-Inside k.screen t.inside.0 there);
        few = omega (arith, length-backspace k.key_buffer, t.few);
        shown = omega (arith, length-backspace k.key_buffer, t.shown, back);
      })
]

print_char_ahead :
    (c n : ℕ) (s : Screen)
    → get_cursor s < screen_bytes
    → 2 * n ≤ get_cursor s
    → n < 1023
    → 2 * (n + 1) ≤ get_cursor (print_char c none white_on_black s)
unfolding offset_at
print_char_ahead c n s h l m =
    let shown = print_char-Shown c none white_on_black s h in
    let next : 2 * (n + 1) ≤ next_offset c (get_cursor s) = ground arith in
    elim (Bool-cases (ltb (next_offset c (get_cursor s)) screen_bytes)) [
      | inl t ↦
          let (e, f) =
            shown.fits (let q : next_offset c (get_cursor s) < screen_bytes = ltb-true t in q) in
          omega (arith, e, next)
      | inr t ↦
          let high : screen_bytes ≤ next_offset c (get_cursor s) = ltb-false t in
          let (e, f) = shown.scrolls high in omega (arith, e, high)
    ]

type_letter-Typing :
    (s : Screen) (n letter : ℕ) (k : Keyboard)
    → n < 1023
    → Typing s n k
    → Typing s (suc n) (type_letter letter k)
unfolding type_letter offset_at
type_letter-Typing s n letter k m t =
    let more = length-append k.key_buffer (letter ∷ []) in
    record {
      inside =
          Inside-trans s k.screen (print_char letter none white_on_black k.screen) t.inside
            (print_char-Inside letter none white_on_black k.screen t.inside.0);
      few = omega (arith, more, t.few);
      shown = omega (
        arith,
        more,
        print_char_ahead letter (length k.key_buffer) k.screen t.inside.0 t.shown
            (omega (arith, t.few)),
      );
    }

enter_line-Typing :
    (s : Screen) (n : ℕ) (k : Keyboard) → Typing s n k → Typing s (suc n) (enter_line k)
unfolding enter_line print
enter_line-Typing s n k t =
    let shown = print_at (b'\n' ∷ []) none k.screen in
    let inside =
      Inside-trans s k.screen shown t.inside
        (print_at-Inside (b'\n' ∷ []) none k.screen tt t.inside.0) in
    if-keeps (Typing s (suc n)) k.line_ready (record k { key_buffer = []; screen = shown })
      (record { key_buffer = []; line_buffer = k.key_buffer; line_ready = true; screen = shown })
      (record { inside = inside; few = omega arith; shown = omega arith })
      (record { inside = inside; few = omega arith; shown = omega arith })

keyboard_callback-Typing :
    (s : Screen) (n scancode : ℕ) (k : Keyboard)
    → n < 1023
    → Typing s n k
    → Typing s (suc n) (keyboard_callback scancode k)
unfolding keyboard_callback
keyboard_callback-Typing s n scancode k m t =
    let P = Typing s (suc n) in
    let letter = type_letter (get_or sc_ascii scancode 0) k in
    let entered = if scancode == enter_key then enter_line k else letter in
    let erased = if scancode == backspace_key then erase_key k else entered in
    if-keeps P (ltb sc_max scancode) k erased
      (record { inside = t.inside; few = omega (arith, t.few); shown = t.shown })
      (if-keeps P (scancode == backspace_key) (erase_key k) entered (erase_key-Typing s n k t) (
        if-keeps P (scancode == enter_key) (enter_line k) letter (enter_line-Typing s n k t)
          (type_letter-Typing s n (get_or sc_ascii scancode 0) k m t)))

keyboard_callbacks-Typing :
    (s : Screen) (n : ℕ) (scancodes : List ℕ) (k : Keyboard)
    → n + length scancodes ≤ 1023
    → Typing s n k
    → Typing s (n + length scancodes) (keyboard_callbacks scancodes k)
unfolding keyboard_callbacks
keyboard_callbacks-Typing s n [] k m t = record {
  inside = t.inside;
  few = omega (arith, t.few);
  shown = t.shown;
}
keyboard_callbacks-Typing s n (c ∷ cs) k m t =
    let r =
      keyboard_callbacks-Typing s (suc n) cs (keyboard_callback c k) (omega arith)
        (keyboard_callback-Typing s n c k (omega arith) t) in
    record { inside = r.inside; few = omega (arith, r.few); shown = r.shown }

-- From an empty key buffer and a cursor on the screen, whatever up to 1023 keys are pressed,
-- letters, BACKSPACE and ENTER in any order, the key buffer fits in its 1024 bytes with the byte
-- 0, the cursor stays on the screen, and no byte behind the video memory of the screen is written.
pub keyboard_callbacks-Inside :
    (scancodes : List ℕ) (k : Keyboard)
    → k.key_buffer ≡ []
    → get_cursor k.screen < screen_bytes
    → length scancodes ≤ 1023
    → (length (keyboard_callbacks scancodes k).key_buffer + 1 ≤ 1024)
      × Inside k.screen (keyboard_callbacks scancodes k).screen
keyboard_callbacks-Inside scancodes k e h m =
    let start : Typing k.screen 0 k = record {
      inside = (h, λ x l. refl);
      few = rw e (omega arith);
      shown = rw e (omega arith);
    } in
    let r = keyboard_callbacks-Typing k.screen 0 scancodes k (omega arith) start in
    (omega (arith, r.few), r.inside)
