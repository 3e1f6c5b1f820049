-- ===== src/Vfs/Flags.antt =====
-- The flags and the paths that fs/vfs.c takes.
use yoz_os.Base.{
  ℕ, zero, suc, ◌%◌, ◌&&◌, ◌||◌, Bool, true, false, not, Option, none, some, List, [], ◌∷◌, ltb,
  ◌==◌, if◌then◌else◌, has_flag,
}

-- The USER_O flags of cpu/user_abi.h.
abbrev pub o_rdonly : ℕ
o_rdonly = 0

abbrev pub o_wronly : ℕ
o_wronly = 1

abbrev pub o_rdwr : ℕ
o_rdwr = 2

abbrev pub o_create : ℕ
o_create = 4

abbrev pub o_trunc : ℕ
o_trunc = 8

abbrev pub o_append : ℕ
o_append = 16

-- VFS_MAX_PATH.
abbrev pub max_path : ℕ
max_path = 64

unfoldable pub flags_readable : ℕ → Bool
flags_readable flags = flags == o_rdonly || has_flag flags o_rdwr

unfoldable pub flags_writable : ℕ → Bool
flags_writable flags = has_flag flags o_wronly || has_flag flags o_rdwr

-- `flags & USER_O_ACCMODE`.
abbrev pub access_mode : ℕ → ℕ
access_mode flags = flags % 4

-- `flags & ~known` is 0 for the flags below 32, since the known ones are the five low bits.
unfoldable pub vfs_flags_valid : ℕ → Bool
vfs_flags_valid flags =
    let mode = access_mode flags in
    if not (ltb flags 32)
    then false
    else if not (mode == o_rdonly) && not (mode == o_wronly) && not (mode == o_rdwr)
    then false
    else if has_flag flags o_trunc && has_flag flags o_append
    then false
    else if has_flag flags o_trunc && mode == o_rdonly
    then false
    else if has_flag flags o_append && mode == o_rdonly
    then false
    else true

-- A null pointer takes the branches of the empty string.
abbrev pub is_string : List ℕ → ℕ → Bool
is_string [] c = false
is_string (x ∷ []) c = x == c
is_string (x ∷ y ∷ xs) c = false

abbrev pub is_nil : List ℕ → Bool
is_nil [] = true
is_nil (x ∷ xs) = false

-- The loop over the `./` in front.
unfoldable pub skip_dots : List ℕ → List ℕ
skip_dots [] = []
skip_dots (c ∷ []) = c ∷ []
skip_dots (c ∷ next ∷ cs) =
    let rest = skip_dots cs in if c == b'.' && next == b'/' then rest else c ∷ next ∷ cs

unfoldable pub path_start : List ℕ → List ℕ
unfolding skip_dots
path_start [] = []
path_start (c ∷ cs) = if c == b'/' then cs else skip_dots (c ∷ cs)

abbrev pub starts_with_dots : List ℕ → Bool
starts_with_dots [] = false
starts_with_dots (c ∷ []) = false
starts_with_dots (c ∷ next ∷ cs) = c == b'.' && next == b'.'

-- The copy into the buffer, with space for `room` more bytes.
unfoldable pub copy_path : (room : ℕ) → List ℕ → Option (List ℕ)
copy_path room [] = some []
copy_path zero (c ∷ cs) = none
copy_path (suc room) (c ∷ cs) =
    let rest = elim (copy_path room cs) as (λ _. Option (List ℕ)) [
      | none ↦ none
      | some out ↦ some (c ∷ out)
    ] in
    if c == b'/' && is_nil cs then none else rest

unfoldable pub resolve_simple_path : (cwd path : List ℕ) → Option (List ℕ)
unfolding path_start copy_path
resolve_simple_path cwd path =
    let start = path_start path in
    if not (is_string cwd b'/')
    then none
    else if is_nil start
    then none
    else if is_string start b'.'
    then none
    else if starts_with_dots start
    then none
    else copy_path 63 start

unfoldable pub is_root_path : (cwd path : List ℕ) → Bool
is_root_path cwd path = is_string cwd b'/' && (is_string path b'/' || is_string path b'.')
