-- ===== src/Shell/Moves.antt =====
-- Where `cmd_cd` of shell/shell.c leaves the shell.
use yoz_os.Base.{
  ℕ, zero, suc, ◌-◌, ◌<◌, ◌≤◌, ◌≡◌, ◌⊎◌, refl, sym, ap, ◌∙◌, arith, ◌==◌, ltb, if◌then◌else◌, Bool,
  true, false, Bool-cases, inl, inr, Option, none, some, some_inj, if-keeps, ==_iff, List, [], ◌∷◌,
  length, subst,
}
use mathlib.Core.Option.{none-ne-some}
use yoz_os.Fat.Volume.{Volume}
use yoz_os.Vfs.Flags.{max_path, is_nil}
use yoz_os.Vfs.Files.{Vfs, Reply, value, error, negative}
use yoz_os.Vfs.Calls.{Stat, stat_type_dir, vfs_stat}
use yoz_os.Shell.{
  copy_bytes, shell_copy_path, starts_with_slash, refused, shell_resolve_path, after_stat_cd, cd_to,
  cmd_cd,
}
use yoz_os.Shell.Paths.{fitting, full_path, shell_resolve_path-fitting}

-- A current directory: it starts with a slash, and it fits in its buffer with the byte 0.
abbrev pub IsCwd : List ℕ → Type 0
IsCwd cwd = (starts_with_slash cwd ≡ true) × (length cwd < max_path)

copy_bytes-all : (room : ℕ) (src : List ℕ) → length src ≤ room → copy_bytes room src ≡ src
unfolding copy_bytes
copy_bytes-all zero [] h = refl
copy_bytes-all zero (c ∷ cs) h = absurd (omega arith)
copy_bytes-all (suc room) [] h = refl
copy_bytes-all (suc room) (c ∷ cs) h =
    ap (λ (l : List ℕ). c ∷ l) (copy_bytes-all room cs (omega arith))

full_path_rooted :
    (cwd input : List ℕ)
    → starts_with_slash cwd ≡ true
    → starts_with_slash (full_path cwd input) ≡ true
full_path_rooted [] input h = absurd cc
full_path_rooted (c ∷ cs) input h = elim (Bool-cases (starts_with_slash input)) [
  | inl t ↦ rw t t
  | inr t ↦ rw t (elim (Bool-cases (ltb 1 (length (c ∷ cs)))) [ inl f ↦ rw f h | inr f ↦ rw f h ])
]

-- A path that comes back is rooted and fits.
resolved-IsCwd :
    (cwd input path : List ℕ) → IsCwd cwd → shell_resolve_path cwd input ≡ some path → IsCwd path
resolved-IsCwd cwd input path h e =
    from (refused input) (full_path cwd input) (full_path_rooted cwd input h.0)
      (sym (shell_resolve_path-fitting cwd input h.1) ∙ e)
  where
    from :
        (b : Bool) (p : List ℕ)
        → starts_with_slash p ≡ true
        → (if b then none else fitting p) ≡ some path
        → IsCwd path
    from true p r g = absurd (none-ne-some path g)
    from false p r g = elim (Bool-cases (ltb (length p) max_path)) [
      | inl t ↦
          let same : p ≡ path = some_inj (sym (let f : fitting p ≡ some p = rw t refl in f) ∙ g) in
          subst IsCwd same (r, (let short : length p < max_path = ground arith in short))
      | inr t ↦ absurd (none-ne-some path (sym (let f : fitting p ≡ none = rw t refl in f) ∙ g))
    ]

module _ (v : Volume) (cwd : List ℕ) (s : Vfs) where
  -- `vfs_stat` finds a directory there.
  pub IsDirectory : List ℕ → Type 0
  IsDirectory path =
      (n : ℕ) × (st : Stat) × (vfs_stat v path (some (record { size = 0; type = 0 })) s
        ≡ (value n, some st))
      × (st.type ≡ stat_type_dir)

  -- The directory behind a command: the same, or one that was found at the path of the input.
  pub Moves : (input cwd' : List ℕ) → Type 0
  Moves input cwd' = (cwd' ≡ cwd) ⊎ ((shell_resolve_path cwd input ≡ some cwd') × IsDirectory cwd')

  stays-Moves : (input : List ℕ) → Moves input cwd
  unfolding Moves
  stays-Moves input = inl refl

  Moves-IsCwd : (input cwd' : List ℕ) → IsCwd cwd → Moves input cwd' → IsCwd cwd'
  unfolding Moves
  Moves-IsCwd input cwd' h (inl e) = subst IsCwd (sym e) h
  Moves-IsCwd input cwd' h (inr r) = resolved-IsCwd cwd input cwd' h r.0

  after_stat_cd-Moves :
      (input path : List ℕ) (r : Reply × Option Stat)
      → shell_resolve_path cwd input ≡ some path
      → length path < max_path
      → vfs_stat v path (some (record { size = 0; type = 0 })) s ≡ r
      → Moves input (after_stat_cd v cwd path r)
  unfolding after_stat_cd shell_copy_path Moves IsDirectory
  after_stat_cd-Moves input path (error e, st) found short stat = inl refl
  after_stat_cd-Moves input path (negative word, st) found short stat = inl refl
  after_stat_cd-Moves input path (value k, none) found short stat = inl refl
  after_stat_cd-Moves input path (value k, some st) found short stat =
      elim (Bool-cases (st.type == stat_type_dir)) [
        | inl t ↦
            let same : copy_bytes (max_path - 1) path ≡ path =
              copy_bytes-all (max_path - 1) path (omega arith) in
            rw (t, same) (inr (found, (k, st, stat, (==_iff st.type stat_type_dir).0 t)))
        | inr t ↦ rw t (inl refl)
      ]

  cd_to-Moves :
      (input : List ℕ) (o : Option (List ℕ))
      → IsCwd cwd
      → shell_resolve_path cwd input ≡ o
      → Moves input (cd_to v cwd s o)
  unfolding cd_to
  cd_to-Moves input none h e = stays-Moves input
  cd_to-Moves input (some path) h e =
      after_stat_cd-Moves input path (vfs_stat v path (some (record { size = 0; type = 0 })) s) e
        (resolved-IsCwd cwd input path h e).1 refl

  -- From a current directory that starts with a slash and fits in its buffer, CD leaves such a
  -- one: either the same, or the path of the input, and then `vfs_stat` finds a directory there.
  pub cmd_cd-Moves :
      (input : List ℕ)
      → IsCwd cwd
      → IsCwd (cmd_cd v input cwd s) × Moves input (cmd_cd v input cwd s)
  unfolding cmd_cd
  cmd_cd-Moves input h =
      let moved = cd_to-Moves input (shell_resolve_path cwd input) h refl in
      let moves =
        if-keeps (Moves input) (is_nil input) cwd (cd_to v cwd s (shell_resolve_path cwd input))
          (stays-Moves input) moved in
      (Moves-IsCwd input (cmd_cd v input cwd s) h moves, moves)
