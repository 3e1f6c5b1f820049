-- ===== src/Fat/Path.antt =====
-- Paths: their components, and the directory that holds the last one.
pub mod Ends
pub mod Dirs
pub mod Reached
use yoz_os.Base.{
  ℕ, zero, suc, Bool, Option, none, some, List, [], ◌∷◌, ltb, ◌==◌, not, if◌then◌else◌, length,
  or_default,
}
use yoz_os.Disk.{Disk, Buffer, ata_read}
use yoz_os.Fat.Outcome.{Error, invalid, not_found}
use yoz_os.Fat.Volume.{Volume}
use yoz_os.Fat.Name.{name_is_valid_83, name_to_83}
use yoz_os.Fat.Entry.{is_directory, entry_first_cluster}
use yoz_os.Fat.Dir.{DirRef, root_dir, dir_find_in_ref}

-- FAT_NAME_BUF - 1: the bytes of a component that the buffer takes.
abbrev pub component_max : ℕ
component_max = 12

unfoldable pub skip_slashes : List ℕ → List ℕ
skip_slashes [] = []
skip_slashes (c ∷ cs) = if c == b'/' then skip_slashes cs else c ∷ cs

-- The results of `path_next_component`: 0, -1, and 1 with the component and the rest of the path.
pub data Component : Type 0 where
  path_end too_long : Component
  component : (name rest : List ℕ) → Component

unfoldable pub push_char : ℕ → Component → Component
push_char c path_end = path_end
push_char c too_long = too_long
push_char c (component name rest) = component (c ∷ name) rest

-- The bytes up to the next slash, with space for `room` of them.
unfoldable pub take_component : (room : ℕ) → List ℕ → Component
take_component room [] = component [] []
take_component zero (c ∷ cs) = if c == b'/' then component [] (c ∷ cs) else too_long
take_component (suc room) (c ∷ cs) =
    let rest = take_component room cs in
    if c == b'/' then component [] (c ∷ cs) else push_char c rest

unfoldable pub first_component : List ℕ → Component
unfolding take_component push_char
first_component [] = path_end
first_component (c ∷ cs) = take_component component_max (c ∷ cs)

unfoldable pub path_next_component : List ℕ → Component
unfolding skip_slashes first_component
path_next_component path = first_component (skip_slashes path)

pub data Resolved : Type 0 where
  resolved : (parent : DirRef) (leaf_name : List ℕ) → Resolved
  failed : Error → Resolved

-- What `resolve_parent_dir` learns of the component `current` of `dir`: the directory that it
-- names, or the error.
pub data Entered : Type 0 where
  entered : DirRef → Entered
  refused : Error → Entered

module _ (v : Volume) (d : Disk) where
  -- The entry of a name: its sector and its index there.
  unfoldable pub dir_read_entry_in_ref : DirRef → List ℕ → Option (Buffer × ℕ)
  dir_read_entry_in_ref dir name83 = elim (dir_find_in_ref v dir d name83) [
    | none ↦ none
    | some s ↦ some (ata_read d s.lba, s.idx)
  ]

  unfoldable pub enter_dir : DirRef → List ℕ → Entered
  unfolding dir_read_entry_in_ref
  enter_dir dir current = elim (dir_read_entry_in_ref dir (name_to_83 current)) [
    | none ↦ refused not_found
    | some (e, idx) ↦
        let cluster = entry_first_cluster e idx in
        if not (is_directory e idx)
        then refused invalid
        else if ltb cluster 2
        then refused invalid
        else entered (record { is_root = Bool.false; cluster = cluster })
  ]

  -- The loop of `resolve_parent_dir`; `none` if the fuel runs out.
  unfoldable pub resolve_loop : (fuel : ℕ) → DirRef → (current path : List ℕ) → Option Resolved
  unfolding enter_dir
  resolve_loop zero dir current path = none
  resolve_loop (suc fuel) dir current path = elim (path_next_component path) [
    | too_long ↦ some (failed invalid)
    | path_end ↦ some (resolved dir current)
    | component next rest ↦
        let deeper = elim (enter_dir dir current) as (λ _. Option Resolved) [
          | refused e ↦ some (failed e)
          | entered dir' ↦ resolve_loop fuel dir' next rest
        ] in
        if name_is_valid_83 next then deeper else some (failed invalid)
  ]

  unfoldable pub resolve_parent_run : List ℕ → Option Resolved
  resolve_parent_run path = elim (path_next_component path) [
    | too_long ↦ some (failed invalid)
    | path_end ↦ some (failed invalid)
    | component current rest ↦
        let loop = resolve_loop (suc (length rest)) root_dir current rest in
        if name_is_valid_83 current then loop else some (failed invalid)
  ]

  -- A null path takes the branch of the empty one.
  unfoldable pub resolve_parent_dir : List ℕ → Resolved
  resolve_parent_dir path = or_default (failed invalid) (resolve_parent_run path)
