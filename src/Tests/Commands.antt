-- ===== src/Tests/Commands.antt =====
-- The theorems on the shell at a small volume.
use yoz_os.Base.{ℕ, ◌≡◌, refl, arith, if◌then◌else◌, none, some, List, ◌∷◌, []}
use yoz_os.Vfs.Files.{Vfs, vfs_init}
use yoz_os.Shell.{
  refused, shell_resolve_path, put_bytes, put_input, cmd_cd, parse_u32, parse_digits,
}
use yoz_os.Shell.Paths.{fitting, full_path, shell_resolve_path-fitting}
use yoz_os.Shell.Moves.{IsCwd, Moves, cmd_cd-Moves}
use yoz_os.Tests.Data.{volume, disk}

abbrev in_docs : List ℕ
in_docs = b'/' ∷ b'D' ∷ []

abbrev file_f : List ℕ
file_f = b'F' ∷ []

joined : shell_resolve_path in_docs file_f ≡ some (b'/' ∷ b'D' ∷ b'/' ∷ b'F' ∷ [])
unfolding shell_resolve_path put_bytes put_input
joined = refl

shell_resolve_path-fitting_example :
    shell_resolve_path in_docs file_f
    ≡ (if refused file_f then none else fitting (full_path in_docs file_f))
shell_resolve_path-fitting_example = shell_resolve_path-fitting in_docs file_f (omega arith)

abbrev started : Vfs
started = vfs_init disk

cmd_cd-Moves_example :
    IsCwd (cmd_cd volume (b'/' ∷ []) in_docs started)
    × Moves volume in_docs started (b'/' ∷ []) (cmd_cd volume (b'/' ∷ []) in_docs started)
cmd_cd-Moves_example = cmd_cd-Moves volume in_docs started (b'/' ∷ []) (refl, omega arith)

parsed : parse_u32 (b'4' ∷ b'2' ∷ []) ≡ some 42
unfolding parse_u32 parse_digits
parsed = refl
