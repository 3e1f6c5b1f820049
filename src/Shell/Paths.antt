-- ===== src/Shell/Paths.antt =====
-- What `shell_resolve_path` of shell/shell.c makes of a path.
use yoz_os.Base.{
  ℕ, ◌-◌, ◌<◌, ◌≤◌, ◌≡◌, refl, ◌∙◌, arith, ◌||◌, ltb, leb, if◌then◌else◌, Bool, true, false,
  Bool-cases, inl, inr, Option, none, some, List, [], ◌∷◌, ◌++◌, length, length-append,
}
use mathlib.Core.List.{append-nil, append_assoc}
use yoz_os.Vfs.Flags.{max_path, is_string, is_nil, starts_with_dots}
use yoz_os.Shell.{put_bytes, put_input, starts_with_slash, refused, shell_resolve_path}

-- A path that fits in VFS_MAX_PATH bytes with the byte 0.
abbrev pub fitting : List ℕ → Option (List ℕ)
fitting path = if ltb (length path) max_path then some path else none

-- The path that the input means in the directory.
abbrev pub full_path : (cwd input : List ℕ) → List ℕ
full_path cwd input =
    if starts_with_slash input
    then input
    else if ltb 1 (length cwd)
    then cwd ++ (b'/' ∷ input)
    else cwd ++ input

put_bytes-fitting :
    (src out : List ℕ) → length out < max_path → put_bytes src out ≡ fitting (out ++ src)
unfolding put_bytes
put_bytes-fitting [] out h =
    let e : out ++ [] ≡ out = append-nil out in
    let t : ltb (length out) max_path ≡ true = ground arith in rw (e, t) refl
put_bytes-fitting (c ∷ cs) out h = elim (Bool-cases (leb (max_path - 1) (length out))) [
  | inl t ↦
      let long : max_path - 1 ≤ length out = ground arith in
      let f : ltb (length (out ++ (c ∷ cs))) max_path ≡ false =
        ground (arith, length-append out (c ∷ cs)) in
      rw (t, f) refl
  | inr t ↦
      let short : length out < max_path - 1 = ground arith in
      let ih = put_bytes-fitting cs (out ++ (c ∷ [])) (omega (arith, length-append out (c ∷ []))) in
      rw (t, ih, append_assoc out (c ∷ []) cs) refl
]

put_input-fitting :
    (cwd input : List ℕ)
    → length cwd < max_path
    → put_input input (some cwd)
      ≡ fitting (if ltb 1 (length cwd) then cwd ++ (b'/' ∷ input) else cwd ++ input)
unfolding put_input
put_input-fitting cwd input h = elim (Bool-cases (ltb 1 (length cwd))) [
  | inr t ↦ rw t (put_bytes-fitting input cwd h)
  | inl t ↦ elim (Bool-cases (leb (max_path - 1) (length cwd))) [
    | inl f ↦
        let long : max_path - 1 ≤ length cwd = ground arith in
        let g : ltb (length (cwd ++ (b'/' ∷ input))) max_path ≡ false =
          ground (arith, length-append cwd (b'/' ∷ input)) in
        rw (t, f, g) refl
    | inr f ↦
        let short : length cwd < max_path - 1 = ground arith in
        let e =
          put_bytes-fitting input (cwd ++ (b'/' ∷ []))
            (omega (arith, length-append cwd (b'/' ∷ []))) in
        rw (t, f, e, append_assoc cwd (b'/' ∷ []) input) refl
  ]
]

-- The path of an input is the input itself if it starts with a slash, and else the current
-- directory, a slash unless this is the root, and the input. It is returned exactly if it fits
-- in VFS_MAX_PATH bytes and the input is not empty, not `.` and does not start with `..`; the
-- current directory is one that fits.
pub shell_resolve_path-fitting :
    (cwd input : List ℕ)
    → length cwd < max_path
    → shell_resolve_path cwd input ≡ (if refused input then none else fitting (full_path cwd input))
unfolding shell_resolve_path
shell_resolve_path-fitting cwd input h =
    let a = put_bytes-fitting input [] (omega arith) in
    let b : put_bytes cwd [] ≡ some cwd =
      put_bytes-fitting cwd [] (omega arith)
      ∙ (let t : ltb (length cwd) max_path ≡ true = ground arith in rw t refl) in
    rw (a, b, put_input-fitting cwd input h)
      (tests (is_nil input) (is_string input b'.') (starts_with_dots input)
        (starts_with_slash input) input
        (if ltb 1 (length cwd) then cwd ++ (b'/' ∷ input) else cwd ++ input))
  where
    tests :
        (p q r t : Bool) (x y : List ℕ)
        → (if p
            then none
            else if q
            then none
            else if r
            then none
            else if t
            then fitting x
            else fitting y)
          ≡ (if p || q || r then none else fitting (if t then x else y))
    tests true q r t x y = refl
    tests false true r t x y = refl
    tests false false true t x y = refl
    tests false false false true x y = refl
    tests false false false false x y = refl
