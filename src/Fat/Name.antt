-- ===== src/Fat/Name.antt =====
-- 8.3 names, as text and as the eleven bytes of a directory entry. A C string is the list of
-- its bytes before the NUL.
pub mod Laws
use yoz_os.Base.{
  ℕ, zero, suc, ◌+◌, ◌-◌, Bool, true, false, ◌&&◌, ◌||◌, Option, none, some, List, [], ◌∷◌, ◌++◌,
  ltb, leb, ◌==◌, if◌then◌else◌, get_or, replicate,
}

unfoldable pub to_upper : ℕ → ℕ
to_upper c = if leb b'a' c && leb c b'z' then c - 32 else c

unfoldable pub is_valid_name_char : ℕ → Bool
is_valid_name_char c =
    (leb b'A' c && leb c b'Z')
    || (leb b'a' c && leb c b'z')
    || (leb b'0' c && leb c b'9')
    || (c == b'_')
    || (c == b'-')

-- The loop of `name_is_valid_83` over the rest of the name.
unfoldable pub name_loop : List ℕ → (base_len ext_len : ℕ) → (seen_dot : Bool) → Bool
name_loop [] base_len ext_len seen_dot = ltb 0 base_len
name_loop (c ∷ cs) base_len ext_len true =
    let more = name_loop cs base_len (ext_len + 1) true in
    if c == b'.'
    then false
    else if is_valid_name_char c
    then (if ltb 3 (ext_len + 1) then false else more)
    else false
name_loop (c ∷ cs) base_len ext_len false =
    let dot = name_loop cs base_len ext_len true in
    let more = name_loop cs (base_len + 1) ext_len false in
    if c == b'.'
    then dot
    else if is_valid_name_char c
    then (if ltb 8 (base_len + 1) then false else more)
    else false

unfoldable pub name_is_valid_83 : List ℕ → Bool
name_is_valid_83 [] = false
name_is_valid_83 (c ∷ cs) = if c == b'.' then false else name_loop (c ∷ cs) 0 0 false

-- The base of a name in `room` bytes: it ends at the dot, and blanks fill the rest.
unfoldable pub base_to_83 : ℕ → List ℕ → List ℕ
base_to_83 zero cs = []
base_to_83 (suc room) [] = replicate (suc room) b' '
base_to_83 (suc room) (c ∷ cs) =
    if c == b'.' then replicate (suc room) b' ' else to_upper c ∷ base_to_83 room cs

-- `&in[i + 1]` for the first dot.
unfoldable pub after_dot : List ℕ → Option (List ℕ)
after_dot [] = none
after_dot (c ∷ cs) = if c == b'.' then some cs else after_dot cs

unfoldable pub ext_to_83 : ℕ → List ℕ → List ℕ
ext_to_83 zero cs = []
ext_to_83 (suc room) [] = replicate (suc room) b' '
ext_to_83 (suc room) (c ∷ cs) = to_upper c ∷ ext_to_83 room cs

unfoldable pub name_to_83 : List ℕ → List ℕ
unfolding base_to_83 after_dot ext_to_83
name_to_83 name =
    base_to_83 8 name
    ++ elim (after_dot name) [ none ↦ replicate 3 b' ' | some ext ↦ ext_to_83 3 ext ]

-- The first `n` bytes up to a blank.
unfoldable pub until_blank : ℕ → List ℕ → List ℕ
until_blank zero cs = []
until_blank (suc n) [] = []
until_blank (suc n) (c ∷ cs) = if c == b' ' then [] else c ∷ until_blank n cs

abbrev pub drop : ℕ → List ℕ → List ℕ
drop zero cs = cs
drop (suc n) [] = []
drop (suc n) (c ∷ cs) = drop n cs

unfoldable pub name_from_83 : List ℕ → List ℕ
unfolding until_blank
name_from_83 name =
    until_blank 8 name
    ++ (if get_or name 8 b' ' == b' ' then [] else b'.' ∷ until_blank 3 (drop 8 name))
