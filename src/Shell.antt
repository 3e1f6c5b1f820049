-- ===== src/Shell.antt =====
-- The paths and the current directory of the shell: shell/shell.c.
use yoz_os.Base.{
  ℕ, zero, suc, ◌+◌, ◌-◌, ◌*◌, ◌%◌, ◌^◌, ◌==◌, ◌||◌, ltb, leb, if◌then◌else◌, Bool, true, false,
  Option, none, some, List, [], ◌∷◌, ◌++◌, length,
}
use yoz_os.Disk.{Disk}
use yoz_os.Fat.Volume.{Volume}
use yoz_os.Vfs.Flags.{max_path, is_string, is_nil, starts_with_dots}
use yoz_os.Vfs.Files.{Vfs, Reply, value, error, negative}
use yoz_os.Vfs.Calls.{Stat, stat_type_dir, vfs_stat}
pub mod Paths
pub mod Moves

-- The loop of `shell_copy_path`, with space for `room` more bytes.
unfoldable pub copy_bytes : (room : ℕ) → (src : List ℕ) → List ℕ
copy_bytes zero src = []
copy_bytes (suc room) [] = []
copy_bytes (suc room) (c ∷ cs) = c ∷ copy_bytes room cs

unfoldable pub shell_copy_path : (src : List ℕ) → List ℕ
unfolding copy_bytes
shell_copy_path src = copy_bytes (max_path - 1) src

-- The loops of `shell_resolve_path`: the bytes of a string go to `out`, whose length is `o`.
unfoldable pub put_bytes : (src out : List ℕ) → Option (List ℕ)
put_bytes [] out = some out
put_bytes (c ∷ cs) out =
    let rest = put_bytes cs (out ++ (c ∷ [])) in
    if leb (max_path - 1) (length out) then none else rest

abbrev pub starts_with_slash : List ℕ → Bool
starts_with_slash [] = false
starts_with_slash (c ∷ cs) = c == b'/'

-- The input behind the current directory.
unfoldable pub put_input : (input : List ℕ) → Option (List ℕ) → Option (List ℕ)
unfolding put_bytes
put_input input none = none
put_input input (some out) =
    if ltb 1 (length out)
    then if leb (max_path - 1) (length out) then none else put_bytes input (out ++ (b'/' ∷ []))
    else put_bytes input out

-- What `shell_resolve_path` refuses at once.
abbrev pub refused : (input : List ℕ) → Bool
refused input = is_nil input || is_string input b'.' || starts_with_dots input

unfoldable pub shell_resolve_path : (shell_cwd input : List ℕ) → Option (List ℕ)
unfolding put_bytes put_input
shell_resolve_path shell_cwd input =
    if is_nil input
    then none
    else if is_string input b'.'
    then none
    else if starts_with_dots input
    then none
    else if starts_with_slash input
    then put_bytes input []
    else put_input input (put_bytes shell_cwd [])

-- `cmd_cd` changes `shell_cwd`.
module _ (v : Volume) where
  unfoldable pub after_stat_cd : (shell_cwd path : List ℕ) → Reply × Option Stat → List ℕ
  after_stat_cd shell_cwd path (error e, st) = shell_cwd
  after_stat_cd shell_cwd path (negative word, st) = shell_cwd
  after_stat_cd shell_cwd path (value n, none) = shell_cwd
  after_stat_cd shell_cwd path (value n, some st) =
      if st.type == stat_type_dir then shell_copy_path path else shell_cwd

  unfoldable pub cd_to : (shell_cwd : List ℕ) → Vfs → Option (List ℕ) → List ℕ
  cd_to shell_cwd s none = shell_cwd
  cd_to shell_cwd s (some path) =
      after_stat_cd shell_cwd path (vfs_stat v path (some (record { size = 0; type = 0 })) s)

  unfoldable pub cmd_cd : (a shell_cwd : List ℕ) → Vfs → List ℕ
  cmd_cd a shell_cwd s =
      if is_nil a then shell_cwd else cd_to shell_cwd s (shell_resolve_path shell_cwd a)

-- The loop of `parse_u32`.
unfoldable pub parse_digits : (s : List ℕ) → (n : ℕ) → Option ℕ
parse_digits [] n = some n
parse_digits (c ∷ cs) n =
    let rest = parse_digits cs ((n * 10 + (c - b'0')) % 2 ^ 32) in
    if ltb c b'0' || ltb b'9' c then none else rest

unfoldable pub parse_u32 : List ℕ → Option ℕ
unfolding parse_digits
parse_u32 s = if is_nil s then none else parse_digits s 0
