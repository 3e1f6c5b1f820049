-- ===== src/User/Words.antt =====
-- The words that `user_process_build_initial_stack` of cpu/user_mode.c pushes.
use yoz_os.Base.{
  ℕ, ◌+◌, ◌-◌, ◌*◌, ◌^◌, ◌<◌, ◌≤◌, ◌≡◌, refl, ◌∙◌, arith, List, [], ◌∷◌, ◌++◌, length, All, subst,
}
use yoz_os.Disk.{Buffer, get8, get32, get32-put32_self}
use yoz_os.User.Stack.{StackState, stack_base, push_word, push_pointers}

-- Where the frame has the byte of a stack address.
abbrev pub place : (frame x : ℕ) → ℕ
place frame x = frame + (x - stack_base)

-- The bytes from `low` on are the same.
abbrev pub SameAbove : (frame low : ℕ) → Buffer → Buffer → Type 0
SameAbove frame low ram ram' =
    (x : ℕ) → low ≤ x → get8 ram' (place frame x) ≡ get8 ram (place frame x)

pub SameAbove-trans :
    (frame low low' : ℕ) (a b c : Buffer)
    → low' ≤ low
    → SameAbove frame low a b
    → SameAbove frame low' b c
    → SameAbove frame low a c
SameAbove-trans frame low low' a b c h p q x l = q x (omega arith) ∙ p x l

pub get32-SameAbove :
    (frame low p : ℕ) (a b : Buffer)
    → stack_base ≤ p
    → low ≤ p
    → SameAbove frame low a b
    → get32 b (place frame p) ≡ get32 a (place frame p)
get32-SameAbove frame low p a b base h s = omega (
  arith,
  s p h,
  byte (p + 1) (place frame p + 1) (omega arith) (omega arith),
  byte (p + 2) (place frame p + 2) (omega arith) (omega arith),
  byte (p + 3) (place frame p + 2 + 1) (omega arith) (omega arith),
)
  where
    byte : (x y : ℕ) → low ≤ x → place frame x ≡ y → get8 b y ≡ get8 a y
    byte x y l e = subst (λ (z : ℕ). get8 b z ≡ get8 a z) e (s x l)

-- The words of a list from `p` on.
abbrev pub WordsAt : (frame p : ℕ) → Buffer → List ℕ → Type 0
WordsAt frame p ram [] = Unit {0}
WordsAt frame p ram (w ∷ ws) = (get32 ram (place frame p) ≡ w) × WordsAt frame (p + 4) ram ws

pub WordsAt-SameAbove :
    (frame low p : ℕ) (a b : Buffer) (ws : List ℕ)
    → stack_base ≤ p
    → low ≤ p
    → SameAbove frame low a b
    → WordsAt frame p a ws
    → WordsAt frame p b ws
WordsAt-SameAbove frame low p a b [] base h s w = tt
WordsAt-SameAbove frame low p a b (x ∷ ws) base h s w = (
  get32-SameAbove frame low p a b base h s ∙ w.0,
  WordsAt-SameAbove frame low (p + 4) a b ws (omega arith) (omega arith) s w.1,
)

module _ (frame w : ℕ) (st : StackState) (room : stack_base + 4 ≤ st.sp) where
  pub push_word-SameAbove : SameAbove frame st.sp st.ram (push_word frame w st).ram
  push_word-SameAbove x h = ground arith

  pub get32-push_word :
      w < 2 ^ 32 → get32 (push_word frame w st).ram (place frame (push_word frame w st).sp) ≡ w
  get32-push_word h = get32-put32_self st.ram (place frame (st.sp - 4)) w h

-- The words of a list were pushed one by one, from the last to the first.
pub record Pushed (frame : ℕ) (ws : List ℕ) (st st' : StackState) : Type 0 where
  pub sp : st'.sp + 4 * length ws ≡ st.sp
  pub above : SameAbove frame st.sp st.ram st'.ram
  pub pushed_words : WordsAt frame st'.sp st'.ram ws

pub added_none : (frame : ℕ) (st : StackState) → Pushed frame [] st st
added_none frame st = record { sp = omega arith; above = λ x h. refl; pushed_words = tt }

pub push_word-Pushed :
    (frame w : ℕ) (ws : List ℕ) (st st' : StackState)
    → stack_base + 4 ≤ st'.sp
    → w < 2 ^ 32
    → Pushed frame ws st st'
    → Pushed frame (w ∷ ws) st (push_word frame w st')
push_word-Pushed frame w ws st st' fits small r =
    let e : st'.sp ≡ st'.sp - 4 + 4 = omega arith in
    record {
      sp = omega (arith, r.sp);
      above =
          SameAbove-trans frame st.sp st'.sp st.ram st'.ram (push_word frame w st').ram
            (omega (arith, r.sp)) r.above (push_word-SameAbove frame w st' fits);
      pushed_words = (
        get32-push_word frame w st' fits small,
        subst (λ (q : ℕ). WordsAt frame q (push_word frame w st').ram ws) e
            (WordsAt-SameAbove frame st'.sp st'.sp st'.ram (push_word frame w st').ram ws
              (omega arith) (omega arith) (push_word-SameAbove frame w st' fits) r.pushed_words),
      );
    }

pub push_pointers-Pushed :
    (frame : ℕ) (ws vs : List ℕ) (st0 st : StackState)
    → stack_base + 4 * length ws ≤ st.sp
    → All (λ w. w < 2 ^ 32) ws
    → Pushed frame vs st0 st
    → Pushed frame (ws ++ vs) st0 (push_pointers frame ws st)
      × ((push_pointers frame ws st).sp + 4 * length ws ≡ st.sp)
unfolding push_pointers
push_pointers-Pushed frame [] vs st0 st room small r = (r, omega arith)
push_pointers-Pushed frame (w ∷ ws) vs st0 st room small r =
    let (r', e) = push_pointers-Pushed frame ws vs st0 st (omega arith) small.1 r in
    (
      push_word-Pushed frame w (ws ++ vs) st0 (push_pointers frame ws st) (omega (arith, e)) small.0
          r',
      omega (arith, e),
    )
