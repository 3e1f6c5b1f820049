-- ===== src/User/Stack.antt =====
-- The arguments of a process of cpu/user_mode.c, and the stack that it starts with.
use yoz_os.Base.{
  ℕ, zero, suc, ◌+◌, ◌-◌, ◌*◌, ◌/◌, ◌==◌, ltb, if◌then◌else◌, Bool, true, false, List, [], ◌∷◌,
  get_or, length,
}
use yoz_os.Disk.{Buffer, put32, memory_copy}
use yoz_os.Memory.Frames.{frame_size}
use yoz_os.User.Store.{Process, stack_top_addr}

-- USER_MAX_ARGS, USER_ARG_MAX.
abbrev pub max_args : ℕ
max_args = 8

abbrev pub arg_max : ℕ
arg_max = 64

-- The loop of `user_process_copy_arg`: at most `room` bytes.
unfoldable pub copy_arg : (room : ℕ) → List ℕ → List ℕ
copy_arg zero cs = []
copy_arg (suc room) [] = []
copy_arg (suc room) (c ∷ cs) = c ∷ copy_arg room cs

unfoldable pub user_process_copy_arg : List ℕ → List ℕ
unfolding copy_arg
user_process_copy_arg src = copy_arg (arg_max - 1) src

-- The inner loops of `user_process_set_args`: blanks, and a word with what follows it.
unfoldable pub skip_blanks : List ℕ → List ℕ
skip_blanks [] = []
skip_blanks (c ∷ cs) = let rest = skip_blanks cs in if c == b' ' then rest else c ∷ cs

abbrev pub push_front : ℕ → List ℕ × List ℕ → List ℕ × List ℕ
push_front c (word, rest) = (c ∷ word, rest)

unfoldable pub take_word : List ℕ → List ℕ × List ℕ
take_word [] = ([], [])
take_word (c ∷ cs) =
    let rest = take_word cs in if c == b' ' then ([], c ∷ cs) else push_front c rest

-- The outer loop, with room for `room` arguments more.
unfoldable pub words : (room : ℕ) → List ℕ → List (List ℕ)
unfolding skip_blanks take_word user_process_copy_arg
words zero args = []
words (suc room) args = elim (skip_blanks args) [
  | [] ↦ []
  | c ∷ cs ↦
      let (word, rest) = take_word (c ∷ cs) in
      let others = words room rest in user_process_copy_arg word ∷ others
]

-- `argv` of `user_process_set_args`; a null pointer is the empty string.
unfoldable pub set_args : (program args : List ℕ) → List (List ℕ)
unfolding words user_process_copy_arg
set_args program args = user_process_copy_arg program ∷ words (max_args - 1) args

unfoldable pub user_process_set_args : (program args : List ℕ) → Process → Process
unfolding set_args
user_process_set_args program args p = record p {
  argv = set_args program args;
  stack_entry = stack_top_addr;
}

-- USER_STACK_TOP - FRAME_SIZE.
abbrev pub stack_base : ℕ
stack_base = stack_top_addr - frame_size

-- `sp`, the memory, and the pointers to the strings from argument `i` on.
pub record StackState : Type 0 where
  pub sp : ℕ
  pub ram : Buffer
  pub string_ptrs : List ℕ

-- A string with the byte 0 at its end.
abbrev pub string_block : List ℕ → Buffer
string_block cs i = get_or cs i 0

-- The first loop of `user_process_build_initial_stack`; `args` are the arguments from the last to
-- the first.
unfoldable pub push_strings : (frame : ℕ) → (args : List (List ℕ)) → StackState → Bool × StackState
push_strings frame [] st = (true, st)
push_strings frame (arg ∷ args) st =
    let len = length arg + 1 in
    let sp = st.sp - len in
    let ram = memory_copy (string_block arg) 0 st.ram (frame + (sp - stack_base)) len in
    let pushed : StackState = record { sp = sp; ram = ram; string_ptrs = sp ∷ st.string_ptrs } in
    let rest = push_strings frame args pushed in
    if ltb st.sp (stack_base + len) then (false, st) else rest

-- `sp -= 4`, and a word there.
abbrev pub push_word : (frame w : ℕ) → StackState → StackState
push_word frame w st = record st {
  sp = st.sp - 4;
  ram = put32 st.ram (frame + (st.sp - 4 - stack_base)) w;
}

-- The second loop: the pointers, from the last to the first.
unfoldable pub push_pointers : (frame : ℕ) → List ℕ → StackState → StackState
push_pointers frame [] st = st
push_pointers frame (w ∷ ws) st = push_word frame w (push_pointers frame ws st)

-- The words below the strings: from the end of `envp` to `argc`.
unfoldable pub push_frame : (frame argc : ℕ) → StackState → StackState
unfolding push_pointers
push_frame frame argc st =
    let envp = push_word frame 0 st in
    let argv = push_pointers frame st.string_ptrs (push_word frame 0 envp) in
    push_word frame argc (push_word frame argv.sp (push_word frame envp.sp argv))

abbrev pub reverse_onto : List (List ℕ) → List (List ℕ) → List (List ℕ)
reverse_onto [] ys = ys
reverse_onto (x ∷ xs) ys = reverse_onto xs (x ∷ ys)

-- The part behind the first loop.
unfoldable pub build_words : (frame argc : ℕ) → Bool × StackState → Bool × StackState
unfolding push_frame
build_words frame argc (false, st) = (false, st)
build_words frame argc (true, st) =
    let aligned : StackState = record st { sp = st.sp / 4 * 4 } in
    if ltb aligned.sp (stack_base + 12 + (argc + 1) * 4 + 4)
    then (false, aligned)
    else (true, push_frame frame argc aligned)

-- `user_process_build_initial_stack` on the stack in `frame`; a process has at most `max_args`
-- arguments. The first part of the result tells whether it succeeds, with `sp` for `stack_entry`.
unfoldable pub build_stack : (frame : ℕ) → (argv : List (List ℕ)) → Buffer → Bool × StackState
unfolding push_strings build_words
build_stack frame argv ram =
    let start : StackState = record { sp = stack_top_addr; ram = ram; string_ptrs = [] } in
    if frame == 0
    then (false, start)
    else if ltb max_args (length argv)
    then (false, start)
    else build_words frame (length argv) (push_strings frame (reverse_onto argv []) start)
