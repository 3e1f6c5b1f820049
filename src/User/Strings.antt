-- ===== src/User/Strings.antt =====
-- The strings that `user_process_build_initial_stack` of cpu/user_mode.c pushes.
use yoz_os.Base.{
  ℕ, suc, ◌+◌, ◌-◌, ◌*◌, ◌^◌, ◌<◌, ◌≤◌, ◌≡◌, refl, ap, ◌∙◌, arith, ◌&&◌, leb, ltb, true, false,
  List, [], ◌∷◌, length, All,
}
use yoz_os.Disk.{Buffer, get8, memory_copy, get8-memory_copy}
use yoz_os.User.Store.{stack_top_addr}
use yoz_os.User.Stack.{StackState, stack_base, string_block, push_strings, reverse_onto, arg_max}
use yoz_os.User.Words.{place, SameAbove}

-- The string, with the byte 0 behind it, at a stack address.
abbrev pub StringAt : (frame p : ℕ) → Buffer → List ℕ → Type 0
StringAt frame p ram cs =
    (k : ℕ) → k ≤ length cs → get8 ram (place frame (p + k)) ≡ get8 (string_block cs) k

-- The pointers of a list point to the strings of the other, from `low` up.
abbrev pub StringsAt : (frame low : ℕ) → Buffer → List ℕ → List (List ℕ) → Type 0
StringsAt frame low ram [] [] = Unit {0}
StringsAt frame low ram [] (a ∷ args) = ⊥
StringsAt frame low ram (p ∷ ps) [] = ⊥
StringsAt frame low ram (p ∷ ps) (a ∷ args) =
    (low ≤ p) × (p < stack_top_addr) × StringAt frame p ram a × StringsAt frame low ram ps args

pub StringsAt-SameAbove :
    (frame low low' : ℕ) (a b : Buffer) (ps : List ℕ) (args : List (List ℕ))
    → low' ≤ low
    → SameAbove frame low a b
    → StringsAt frame low a ps args
    → StringsAt frame low' b ps args
StringsAt-SameAbove frame low low' a b [] [] l s t = tt
StringsAt-SameAbove frame low low' a b [] (x ∷ args) l s t = absurd t
StringsAt-SameAbove frame low low' a b (p ∷ ps) [] l s t = absurd t
StringsAt-SameAbove frame low low' a b (p ∷ ps) (x ∷ args) l s t = (
  omega (arith, t.0),
  t.1,
  λ k q. s (p + k) (omega (arith, t.0)) ∙ t.2 k q,
  StringsAt-SameAbove frame low low' a b ps args l s t.3,
)

pub StringsAt-words :
    (frame low : ℕ) (ram : Buffer) (ps : List ℕ) (args : List (List ℕ))
    → StringsAt frame low ram ps args
    → All (λ w. w < 2 ^ 32) ps × (length ps ≡ length args)
StringsAt-words frame low ram [] [] t = (tt, refl)
StringsAt-words frame low ram [] (x ∷ args) t = absurd t
StringsAt-words frame low ram (p ∷ ps) [] t = absurd t
StringsAt-words frame low ram (p ∷ ps) (x ∷ args) t =
    let (w, e) = StringsAt-words frame low ram ps args t.3 in ((omega (arith, t.1), w), ap suc e)

-- A string is copied below the others.
module _ (frame sp : ℕ) (ram : Buffer) (cs : List ℕ)
    (room : stack_base + (length cs + 1) ≤ sp) where
  abbrev len : ℕ
  len = length cs + 1

  abbrev copied : Buffer
  copied = memory_copy (string_block cs) 0 ram (place frame (sp - len)) len

  copied-SameAbove : SameAbove frame sp ram copied
  copied-SameAbove x h =
      get8-memory_copy (string_block cs) 0 ram (place frame (sp - len)) len (place frame x)
      ∙ ground arith

  copied-StringAt : StringAt frame (sp - len) copied cs
  copied-StringAt k h =
      get8-memory_copy (string_block cs) 0 ram (place frame (sp - len)) len
        (place frame (sp - len + k))
      ∙ (let index : 0 + (place frame (sp - len + k) - place frame (sp - len)) ≡ k = omega arith in
          let inside : (leb (place frame (sp - len)) (place frame (sp - len + k))
                && ltb (place frame (sp - len + k)) (place frame (sp - len) + len))
              ≡ true =
            ground arith in
          rw (inside, index) refl)

-- The strings from `sp` on, with their pointers, for the arguments that are pushed.
abbrev pub Holds : (frame : ℕ) → StackState → List (List ℕ) → Type 0
Holds frame st args = (st.sp ≤ stack_top_addr) × StringsAt frame st.sp st.ram st.string_ptrs args

pub push_strings-Holds :
    (frame : ℕ) (todo : List (List ℕ)) (st : StackState) (args : List (List ℕ))
    → All (λ a. length a < arg_max) todo
    → stack_base + 128 + 64 * length todo ≤ st.sp
    → Holds frame st args
    → (st' : StackState) × (push_strings frame todo st ≡ (true, st'))
      × (stack_base + 128 ≤ st'.sp)
      × Holds frame st' (reverse_onto todo args)
unfolding push_strings
push_strings-Holds frame [] st args short room h = (st, refl, omega arith, h)
push_strings-Holds frame (arg ∷ todo) st args short room h =
    let n = length arg + 1 in
    let ram = memory_copy (string_block arg) 0 st.ram (place frame (st.sp - n)) n in
    let st1 : StackState = record {
      sp = st.sp - n;
      ram = ram;
      string_ptrs = (st.sp - n) ∷ st.string_ptrs;
    } in
    let fits : stack_base + n ≤ st.sp = omega (arith, short.0) in
    let h1 : Holds frame st1 (arg ∷ args) = (
      omega (arith, h.0),
      (
        omega arith,
        omega (arith, h.0),
        copied-StringAt frame st.sp st.ram arg fits,
        StringsAt-SameAbove frame st.sp (st.sp - n) st.ram ram st.string_ptrs args (omega arith)
            (copied-SameAbove frame st.sp st.ram arg fits) h.1,
      ),
    ) in
    let (st', e, r, g) =
      push_strings-Holds frame todo st1 (arg ∷ args) short.1 (omega (arith, short.0)) h1 in
    let t : ltb st.sp (stack_base + n) ≡ false = ground arith in (st', rw t e, r, g)
