-- ===== src/Fat/Path/Ends.antt =====
-- The walk along a path ends, and its leaf is a valid name.
use yoz_os.Base.{
  ℕ, zero, suc, ◌+◌, ◌≤◌, ◌<◌, ◌≡◌, refl, inl, inr, arith, ◌==◌, if◌then◌else◌, Bool-cases, List,
  [], ◌∷◌, length, Option, some, some-or_default,
}
use yoz_os.Disk.{Disk}
use yoz_os.Fat.Outcome.{invalid}
use yoz_os.Fat.Volume.{Volume}
use yoz_os.Fat.Name.{name_is_valid_83}
use yoz_os.Fat.Dir.{DirRef, root_dir}
use yoz_os.Fat.Path.{
  Component, path_end, too_long, component, push_char, take_component, path_next_component,
  Resolved, resolved, failed, Entered, entered, refused, enter_dir, resolve_loop,
  resolve_parent_run, resolve_parent_dir,
}

-- A component that is found fits the buffer, and with the rest is no longer than the path.
abbrev pub Fits : (room len : ℕ) → Component → Type 0
Fits room len path_end = Unit {0}
Fits room len too_long = Unit {0}
Fits room len (component name rest) = (length name ≤ room) × (length name + length rest ≤ len)

push_char-Fits :
    (c room len : ℕ) (r : Component) → Fits room len r → Fits (suc room) (suc len) (push_char c r)
unfolding push_char
push_char-Fits c room len path_end f = tt
push_char-Fits c room len too_long f = tt
push_char-Fits c room len (component name rest) f = omega arith

take_component-Fits :
    (room : ℕ) (path : List ℕ) → Fits room (length path) (take_component room path)
unfolding take_component
take_component-Fits room [] = omega arith
take_component-Fits zero (c ∷ cs) = elim (Bool-cases (c == b'/')) [
  | inl t ↦ rw t (omega arith)
  | inr t ↦ rw t tt
]
take_component-Fits (suc room) (c ∷ cs) = elim (Bool-cases (c == b'/')) [
  | inl t ↦ rw t (omega arith)
  | inr t ↦ rw t (push_char-Fits c room (length cs) _ (take_component-Fits room cs))
]

-- One more: a component that begins with another byte than a slash takes it from the path.
abbrev Shrinks : ℕ → Component → Type 0
Shrinks len path_end = Unit {0}
Shrinks len too_long = Unit {0}
Shrinks len (component name rest) = length rest < len

push_char-Shrinks :
    (c len room : ℕ) (r : Component) → Fits room len r → Shrinks (suc len) (push_char c r)
unfolding push_char
push_char-Shrinks c len room path_end f = tt
push_char-Shrinks c len room too_long f = tt
push_char-Shrinks c len room (component name rest) f = omega arith

Shrinks-suc : (len : ℕ) (r : Component) → Shrinks len r → Shrinks (suc len) r
Shrinks-suc len path_end s = tt
Shrinks-suc len too_long s = tt
Shrinks-suc len (component name rest) s = omega arith

-- What `path_next_component` leaves of a path is shorter than the path.
path_next_component-Shrinks : (path : List ℕ) → Shrinks (length path) (path_next_component path)
unfolding path_next_component
path_next_component-Shrinks [] = tt
path_next_component-Shrinks (c ∷ cs) = elim (Bool-cases (c == b'/')) [
  | inl t ↦ rw t (Shrinks-suc (length cs) _ (path_next_component-Shrinks cs))
  | inr t ↦ rw (t, t) (push_char-Shrinks c (length cs) 11 _ (take_component-Fits 11 cs))
]

module _ (v : Volume) (d : Disk) where
  -- With the component at hand, one round of the loop.
  abbrev pub next_round : ℕ → DirRef → List ℕ → Component → Option Resolved
  next_round fuel dir current too_long = some (failed invalid)
  next_round fuel dir current path_end = some (resolved dir current)
  next_round fuel dir current (component next rest) =
      let deeper = elim (enter_dir v d dir current) as (λ _. Option Resolved) [
        | refused e ↦ some (failed e)
        | entered dir' ↦ resolve_loop v d fuel dir' next rest
      ] in
      if name_is_valid_83 next then deeper else some (failed invalid)

  pub resolve_loop-step :
      (fuel : ℕ) (dir : DirRef) (current path : List ℕ)
      → resolve_loop v d (suc fuel) dir current path
        ≡ next_round fuel dir current (path_next_component path)
  unfolding resolve_loop
  resolve_loop-step fuel dir current path = go (path_next_component path) refl
    where
      go :
          (c : Component)
          → path_next_component path ≡ c
          → resolve_loop v d (suc fuel) dir current path ≡ next_round fuel dir current c
      go path_end e = rw (e, resolve_loop)
      go too_long e = rw (e, resolve_loop)
      go (component next rest) e = rw (e, resolve_loop)

  abbrev Returns : Option Resolved → Type 0
  Returns o = (r : Resolved) × (o ≡ some r)

  next_round-Returns :
      (fuel : ℕ) (dir : DirRef) (current : List ℕ) (c : Component) (len : ℕ)
      → Shrinks len c
      → len ≤ fuel
      → ((dir' : DirRef) (next rest : List ℕ)
          → length rest < fuel
          → Returns (resolve_loop v d fuel dir' next rest))
      → Returns (next_round fuel dir current c)
  next_round-Returns fuel dir current path_end len s q deeper = (_, refl)
  next_round-Returns fuel dir current too_long len s q deeper = (_, refl)
  next_round-Returns fuel dir current (component next rest) len s q deeper =
      elim (Bool-cases (name_is_valid_83 next)) [
        | inr t ↦ rw t (failed invalid, refl)
        | inl t ↦ rw t (go (enter_dir v d dir current))
      ]
    where
      go :
          (e : Entered)
          → Returns (elim e as (λ _. Option Resolved) [
            | refused e ↦ some (failed e)
            | entered dir' ↦ resolve_loop v d fuel dir' next rest
          ])
      go (refused e) = (failed e, refl)
      go (entered dir') = deeper dir' next rest (omega arith)

  resolve_loop-Returns :
      (fuel : ℕ) (dir : DirRef) (current path : List ℕ)
      → length path < fuel
      → Returns (resolve_loop v d fuel dir current path)
  resolve_loop-Returns zero dir current path q = absurd (omega arith)
  resolve_loop-Returns (suc fuel) dir current path q =
      rw (resolve_loop-step fuel dir current path) (
        next_round-Returns fuel dir current (path_next_component path) (length path)
          (path_next_component-Shrinks path) (omega arith)
          λ dir' next rest short. resolve_loop-Returns fuel dir' next rest short)

  -- The walk of `resolve_parent_dir` along a path ends, on every disk.
  pub resolve_parent_dir-ends :
      (path : List ℕ) → resolve_parent_run v d path ≡ some (resolve_parent_dir v d path)
  unfolding resolve_parent_dir resolve_parent_run
  resolve_parent_dir-ends path =
      some-or_default (failed invalid) _ (go (path_next_component path) refl).1
    where
      go : (c : Component) → path_next_component path ≡ c → Returns (resolve_parent_run v d path)
      go path_end e = rw (e, resolve_parent_run) (_, refl)
      go too_long e = rw (e, resolve_parent_run) (_, refl)
      go (component current rest) e = elim (Bool-cases (name_is_valid_83 current)) [
        | inr t ↦ rw (e, resolve_parent_run, t) (_, refl)
        | inl t ↦
            rw (e, resolve_parent_run, t)
              (resolve_loop-Returns (suc (length rest)) root_dir current rest (omega arith))
      ]
