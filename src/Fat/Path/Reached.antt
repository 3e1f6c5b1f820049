-- ===== src/Fat/Path/Reached.antt =====
-- The directory that holds the last component of a path is one that a path reaches.
use yoz_os.Base.{
  ℕ, zero, suc, ◌≡◌, refl, sym, ap, ◌∙◌, inl, inr, Bool-cases, List, length, Option, none, some,
  subst,
}
use yoz_os.Disk.{Disk}
use yoz_os.Fat.Volume.{Volume}
use yoz_os.Fat.Name.{name_is_valid_83}
use yoz_os.Fat.Dir.{DirRef, root_dir}
use yoz_os.Fat.Path.{
  Component, path_end, too_long, component, path_next_component, Resolved, resolved, failed,
  Entered, entered, refused, enter_dir, resolve_loop, resolve_parent_run, resolve_parent_dir,
}
use yoz_os.Fat.Path.Ends.{next_round, resolve_loop-step, resolve_parent_dir-ends}
use yoz_os.Fat.Path.Dirs.{Reach, at_root, below}

module _ (v : Volume) where
  -- The directory that a resolution returns is one that a path reaches.
  abbrev Reaches : Disk → Option Resolved → Type 0
  Reaches d none = Unit {0}
  Reaches d (some (failed e)) = Unit {0}
  Reaches d (some (resolved parent leaf)) = Reach v d parent

  next_round-Reaches :
      (d : Disk) (fuel : ℕ) (dir : DirRef) (current : List ℕ) (c : Component)
      → Reach v d dir
      → ((dir' : DirRef) (next rest : List ℕ)
          → Reach v d dir'
          → Reaches d (resolve_loop v d fuel dir' next rest))
      → Reaches d (next_round v d fuel dir current c)
  next_round-Reaches d fuel dir current path_end r deeper = r
  next_round-Reaches d fuel dir current too_long r deeper = tt
  next_round-Reaches d fuel dir current (component next rest) r deeper =
      elim (Bool-cases (name_is_valid_83 next)) [
        | inr t ↦ rw t tt
        | inl t ↦ rw t (go (enter_dir v d dir current) refl)
      ]
    where
      go :
          (e : Entered)
          → enter_dir v d dir current ≡ e
          → Reaches d (elim e as (λ _. Option Resolved) [
            | refused e ↦ some (failed e)
            | entered dir' ↦ resolve_loop v d fuel dir' next rest
          ])
      go (refused err) e = tt
      go (entered dir') e = deeper dir' next rest (below r current e)

  resolve_loop-Reaches :
      (d : Disk) (fuel : ℕ) (dir : DirRef) (current path : List ℕ)
      → Reach v d dir
      → Reaches d (resolve_loop v d fuel dir current path)
  unfolding resolve_loop
  resolve_loop-Reaches d zero dir current path r = tt
  resolve_loop-Reaches d (suc fuel) dir current path r =
      subst (Reaches d) (sym (resolve_loop-step v d fuel dir current path)) (
        next_round-Reaches d fuel dir current (path_next_component path) r
          λ dir' next rest r'. resolve_loop-Reaches d fuel dir' next rest r')

  run-Reaches : (d : Disk) (path : List ℕ) → Reaches d (resolve_parent_run v d path)
  unfolding resolve_parent_run
  run-Reaches d path = go (path_next_component path) refl
    where
      go : (c : Component) → path_next_component path ≡ c → Reaches d (resolve_parent_run v d path)
      go path_end e = rw (resolve_parent_run, e) tt
      go too_long e = rw (resolve_parent_run, e) tt
      go (component current rest) e = elim (Bool-cases (name_is_valid_83 current)) [
        | inr t ↦ rw (resolve_parent_run, e, t) tt
        | inl t ↦
            rw (resolve_parent_run, e, t)
              (resolve_loop-Reaches d (suc (length rest)) root_dir current rest at_root)
      ]

  -- The directory that holds the last component of a path is one that a path reaches.
  pub resolve_parent_dir-Reach :
      (d : Disk) (path : List ℕ) (parent : DirRef) (leaf : List ℕ)
      → resolve_parent_dir v d path ≡ resolved parent leaf
      → Reach v d parent
  resolve_parent_dir-Reach d path parent leaf e =
      subst (Reaches d) (resolve_parent_dir-ends v d path ∙ ap some e) (run-Reaches d path)
