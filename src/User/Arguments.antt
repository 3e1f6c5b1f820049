-- ===== src/User/Arguments.antt =====
-- What a program of cpu/user_mode.c finds on its first stack.
use yoz_os.Base.{
  ℕ, zero, suc, ◌+◌, ◌-◌, ◌*◌, ◌/◌, ◌%◌, ◌<◌, ◌≤◌, ◌≡◌, ◌≢◌, refl, ◌∙◌, arith, ◌==◌, ltb, true,
  false, List, [], ◌∷◌, ◌++◌, length, All, subst,
}
use yoz_os.Disk.{Buffer}
use yoz_os.User.Store.{stack_top_addr}
use yoz_os.User.Stack.{
  StackState, stack_base, max_args, arg_max, push_word, push_pointers, push_frame, build_words,
  build_stack, reverse_onto, copy_arg, user_process_copy_arg, words, take_word, skip_blanks,
  set_args,
}
use yoz_os.User.Words.{WordsAt, Pushed, push_pointers-Pushed, push_word-Pushed, added_none}
use mathlib.Core.List.{append-nil}
use yoz_os.User.Strings.{StringsAt, StringsAt-SameAbove, StringsAt-words, push_strings-Holds, Holds}

-- The stack that `main(argc, argv, envp)` finds at `sp`: `argc`, `argv` and `envp`, the array of
-- the pointers with a null behind it, an empty `envp`, and above them the strings.
pub record Arguments (frame sp : ℕ) (ram : Buffer) (argv : List (List ℕ)) : Type 0 where
  pub pointers : List ℕ
  pub frame_words :
      WordsAt frame sp ram
        (length argv ∷ (sp + 12) ∷ (sp + 12 + 4 * length argv + 4) ∷ (pointers ++ (0 ∷ 0 ∷ [])))
  pub strings : StringsAt frame (sp + 12 + 4 * length argv + 8) ram pointers argv
  pub inside : (stack_base ≤ sp) × (sp % 4 ≡ 0)

module _ (frame : ℕ) (argv : List (List ℕ)) (st : StackState) (few : length argv ≤ max_args)
    (room : stack_base + 64 ≤ st.sp) (top : st.sp ≤ stack_top_addr) (aligned : st.sp % 4 ≡ 0)
    (strings : StringsAt frame st.sp st.ram st.string_ptrs argv) where
  abbrev nulls : StackState
  nulls = push_word frame 0 (push_word frame 0 st)

  nulls-Pushed : Pushed frame (0 ∷ 0 ∷ []) st nulls
  nulls-Pushed =
      push_word-Pushed frame 0 (0 ∷ []) st (push_word frame 0 st) (omega arith) (omega arith)
        (push_word-Pushed frame 0 [] st st (omega arith) (omega arith) (added_none frame st))

  push_frame-Arguments :
      Arguments frame
        (push_frame frame (length argv) st).sp
        (push_frame frame (length argv) st).ram
        argv
  unfolding push_frame
  push_frame-Arguments =
      let (small, count) = StringsAt-words frame st.sp st.ram st.string_ptrs argv strings in
      let s3 = push_pointers frame st.string_ptrs nulls in
      let (r3, e3) =
        push_pointers-Pushed frame st.string_ptrs (0 ∷ 0 ∷ []) st nulls (omega (arith, count)) small
          nulls-Pushed in
      let ws = st.string_ptrs ++ (0 ∷ 0 ∷ []) in
      let s4 = push_word frame (st.sp - 4) s3 in
      let s5 = push_word frame s3.sp s4 in
      let s6 = push_word frame (length argv) s5 in
      let r4 =
        push_word-Pushed frame (st.sp - 4) ws st s3 (omega (arith, count, e3)) (omega arith) r3 in
      let r5 =
        push_word-Pushed frame s3.sp ((st.sp - 4) ∷ ws) st s4 (omega (arith, count, e3))
          (omega (arith, e3)) r4 in
      let r6 =
        push_word-Pushed frame (length argv) (s3.sp ∷ (st.sp - 4) ∷ ws) st s5
          (omega (arith, count, e3)) (omega arith) r5 in
      let e12 : s3.sp ≡ s6.sp + 12 = omega (arith, count, e3) in
      let envp : st.sp - 4 ≡ s6.sp + 12 + 4 * length argv + 4 = omega (arith, count, e3) in
      record {
        pointers = st.string_ptrs;
        frame_words =
            subst (λ (x : ℕ). WordsAt frame s6.sp s6.ram (length argv ∷ (s6.sp + 12) ∷ x ∷ ws)) envp
              (subst (λ (x : ℕ). WordsAt frame s6.sp s6.ram (length argv ∷ x ∷ (st.sp - 4) ∷ ws))
                e12 r6.pushed_words);
        strings =
            StringsAt-SameAbove frame st.sp (s6.sp + 12 + 4 * length argv + 8) st.ram s6.ram
              st.string_ptrs argv (omega (arith, count, e3)) r6.above strings;
        inside = (omega (arith, count, e3), omega (arith, count, e3));
      }

-- The reverse of a reverse.
reverse_onto_twice :
    (xs ys zs : List (List ℕ)) → reverse_onto (reverse_onto xs ys) zs ≡ reverse_onto ys (xs ++ zs)
reverse_onto_twice [] ys zs = refl
reverse_onto_twice (x ∷ xs) ys zs = reverse_onto_twice xs (x ∷ ys) zs

length-reverse_onto : (xs ys : List (List ℕ)) → length (reverse_onto xs ys) ≡ length xs + length ys
length-reverse_onto [] ys = omega arith
length-reverse_onto (x ∷ xs) ys = omega (arith, length-reverse_onto xs (x ∷ ys))

reverse_onto-All :
    (P : List ℕ → Type 0) (xs ys : List (List ℕ)) → All P xs → All P ys → All P (reverse_onto xs ys)
reverse_onto-All P [] ys p q = q
reverse_onto-All P (x ∷ xs) ys p q = reverse_onto-All P xs (x ∷ ys) p.1 (p.0, q)

-- The part behind the strings, with the stack pointer rounded down.
build_words-Arguments :
    (frame : ℕ) (argv : List (List ℕ)) (st : StackState)
    → length argv ≤ max_args
    → stack_base + 128 ≤ st.sp
    → Holds frame st argv
    → ((build_words frame (length argv) (true, st)).0 ≡ true)
      × Arguments frame
          (build_words frame (length argv) (true, st)).1.sp
          (build_words frame (length argv) (true, st)).1.ram
          argv
unfolding build_words
build_words-Arguments frame argv st few room h =
    let st' : StackState = record st { sp = st.sp / 4 * 4 } in
    let fits : ltb st'.sp (stack_base + 12 + (length argv + 1) * 4 + 4) ≡ false = ground arith in
    let there : StringsAt frame st'.sp st'.ram st'.string_ptrs argv =
      StringsAt-SameAbove frame st.sp st'.sp st.ram st.ram st.string_ptrs argv (omega arith)
        (λ x l. refl) h.1 in
    rw fits (
      refl,
      push_frame-Arguments frame argv st' few (omega arith) (omega (arith, h.0)) (omega arith)
          there,
    )

pub build_stack-Arguments :
    (frame : ℕ) (argv : List (List ℕ)) (ram : Buffer)
    → frame ≢ 0
    → length argv ≤ max_args
    → All (λ a. length a < arg_max) argv
    → ((build_stack frame argv ram).0 ≡ true)
      × Arguments frame (build_stack frame argv ram).1.sp (build_stack frame argv ram).1.ram argv
unfolding build_stack
build_stack-Arguments frame argv ram there few short =
    let start : StackState = record { sp = stack_top_addr; ram = ram; string_ptrs = [] } in
    let count = length-reverse_onto argv [] in
    let (st, e, room, h) =
      push_strings-Holds frame (reverse_onto argv []) start []
        (reverse_onto-All (λ a. length a < arg_max) argv [] short tt) (omega (arith, count))
        (omega arith, tt) in
    let back : reverse_onto (reverse_onto argv []) [] ≡ argv =
      reverse_onto_twice argv [] [] ∙ append-nil argv in
    let a : (frame == 0) ≡ false = ground arith in
    let b : ltb max_args (length argv) ≡ false = ground arith in
    rw (a, b, e)
      (build_words-Arguments frame argv st few room
        (subst (λ (l : List (List ℕ)). Holds frame st l) back h))

-- The arguments of a command line.
length-copy_arg : (room : ℕ) (cs : List ℕ) → length (copy_arg room cs) ≤ room
unfolding copy_arg
length-copy_arg zero cs = omega arith
length-copy_arg (suc room) [] = omega arith
length-copy_arg (suc room) (c ∷ cs) = omega (arith, length-copy_arg room cs)

-- At most `room` arguments, each of them with its end in `arg_max` bytes.
abbrev Few : ℕ → List (List ℕ) → Type 0
Few room argv = (length argv ≤ room) × All (λ a. length a < arg_max) argv

words_from :
    (room : ℕ) (args l : List ℕ)
    → skip_blanks args ≡ l
    → ((rest : List ℕ) → Few room (words room rest))
    → Few (suc room) (words (suc room) args)
unfolding words user_process_copy_arg
words_from room args [] e others = rw (e, words) (omega arith, tt)
words_from room args (c ∷ cs) e others =
    let (word, rest) = take_word (c ∷ cs) in
    let (n, short) = others rest in
    rw (e, words) (omega (arith, n), (omega (arith, length-copy_arg (arg_max - 1) word), short))

words-Few : (room : ℕ) (args : List ℕ) → Few room (words room args)
unfolding words
words-Few zero args = (omega arith, tt)
words-Few (suc room) args = words_from room args (skip_blanks args) refl (words-Few room)

-- For every program and every command line, the first stack of a process that has a frame for it
-- is built: at the stack pointer that it returns, which is in the frame and a multiple of 4, lie
-- the number of the arguments, the address of their pointers and that of an empty `envp`, then the
-- pointers with a null behind them, and each pointer is the address of its argument with the byte
-- 0, above these words.
pub build_stack-set_args :
    (frame : ℕ) (program args : List ℕ) (ram : Buffer)
    → frame ≢ 0
    → ((build_stack frame (set_args program args) ram).0 ≡ true)
      × Arguments frame
          (build_stack frame (set_args program args) ram).1.sp
          (build_stack frame (set_args program args) ram).1.ram
          (set_args program args)
unfolding set_args user_process_copy_arg
build_stack-set_args frame program args ram there =
    let (n, short) = words-Few (max_args - 1) args in
    build_stack-Arguments frame (set_args program args) ram there (omega (arith, n))
      (omega (arith, length-copy_arg (arg_max - 1) program), short)
