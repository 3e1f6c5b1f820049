-- ===== src/Fat/Path/Dirs.antt =====
-- The directories that a path can reach, and disks on which all paths lead to the same ones.
use yoz_os.Base.{
  ℕ, zero, suc, ◌+◌, ◌<◌, ◌≡◌, refl, sym, ap, ◌∙◌, arith, false, Bool-cases, ltb, if◌then◌else◌,
  List, length, Option, none, some, inl, inr, not, or_default, subst, ◌^◌,
}
use yoz_os.Disk.{Disk, ata_read}
use yoz_os.Fat.Outcome.{invalid, not_found}
use yoz_os.Fat.Volume.{Volume}
use yoz_os.Fat.Name.{name_is_valid_83, name_to_83}
use yoz_os.Fat.Name.Laws.{length-name_to_83}
use yoz_os.Fat.Entry.{is_directory, entry_first_cluster}
use yoz_os.Fat.Dir.{DirRef, Slot, root_dir, dir_find_in_ref}
use yoz_os.Fat.Dir.Same.{dir_find_in_region-cong}
use yoz_os.Fat.Dir.Keep.{
  KeepsDirs, region_start, region_count, dir_find_in_ref-region, found_inside,
}
use yoz_os.Fat.Path.{
  Component, path_end, too_long, component, path_next_component, Resolved, failed, Entered, entered,
  refused, enter_dir, dir_read_entry_in_ref, resolve_loop, resolve_parent_run, resolve_parent_dir,
}
use yoz_os.Fat.Path.Ends.{next_round, resolve_loop-step}

module _ (v : Volume) where
  -- A directory that some path leads to.
  pub data Reach (d : Disk) : DirRef → Type 0 where
    at_root : Reach d root_dir
    below :
        {dir dir' : DirRef}
        → Reach d dir
        → (name : List ℕ) → enter_dir v d dir name ≡ entered dir'
        → Reach d dir'

  -- What `enter_dir` makes of the slot of a name.
  unfoldable pub enter_slot : Disk → Option Slot → Entered
  enter_slot d none = refused not_found
  enter_slot d (some s) =
      let e = ata_read d s.lba in
      let cluster = entry_first_cluster e s.idx in
      if not (is_directory e s.idx)
      then refused invalid
      else if ltb cluster 2
      then refused invalid
      else entered (record { is_root = false; cluster = cluster })

  pub enter_dir-slot :
      (d : Disk) (dir : DirRef) (name : List ℕ)
      → enter_dir v d dir name ≡ enter_slot d (dir_find_in_ref v dir d (name_to_83 name))
  unfolding enter_dir enter_slot
  enter_dir-slot d dir name = go (dir_find_in_ref v dir d (name_to_83 name)) refl
    where
      go :
          (o : Option Slot)
          → dir_find_in_ref v dir d (name_to_83 name) ≡ o
          → enter_dir v d dir name ≡ enter_slot d o
      go none e = rw (enter_dir, dir_read_entry_in_ref, e)
      go (some s) e = rw (enter_dir, dir_read_entry_in_ref, e)

  module _ (d d' : Disk) where
    -- The sectors of the directory keep what a search and a step see.
    abbrev pub SameRegion : DirRef → Type 0
    SameRegion dir =
        (k : ℕ)
        → k < region_count v dir
        → KeepsDirs (ata_read d (region_start v dir + k)) (ata_read d' (region_start v dir + k))

    pub dir_find_in_ref-SameRegion :
        (dir : DirRef) (n : List ℕ)
        → length n < 12
        → region_start v dir + region_count v dir < 2 ^ 32
        → SameRegion dir
        → dir_find_in_ref v dir d' n ≡ dir_find_in_ref v dir d n
    dir_find_in_ref-SameRegion dir n short small same =
        dir_find_in_ref-region v dir d' n
        ∙ dir_find_in_region-cong (region_count v dir) (region_start v dir) d d' n small
            (omega arith) (λ k q. (same k q).same)
        ∙ sym (dir_find_in_ref-region v dir d n)

    enter_slot-SameRegion :
        (dir : DirRef) (n : List ℕ) (o : Option Slot)
        → region_start v dir + region_count v dir < 2 ^ 32
        → SameRegion dir
        → dir_find_in_ref v dir d n ≡ o
        → enter_slot d' o ≡ enter_slot d o
    unfolding enter_slot
    enter_slot-SameRegion dir n none small same e = refl
    enter_slot-SameRegion dir n (some s) small same e =
        let (k, q, at, idx) = found_inside v dir d n s small e in
        let keep : KeepsDirs (ata_read d s.lba) (ata_read d' s.lba) =
          subst (λ l. KeepsDirs (ata_read d l) (ata_read d' l)) (sym at) (same k q) in
        rw (keep.kinds s.idx idx) (elim (Bool-cases (is_directory (ata_read d s.lba) s.idx)) [
          | inr t ↦ rw t
          | inl t ↦ rw (keep.links s.idx idx t)
        ])

    pub enter_dir-SameRegion :
        (dir : DirRef) (name : List ℕ)
        → region_start v dir + region_count v dir < 2 ^ 32
        → SameRegion dir
        → enter_dir v d' dir name ≡ enter_dir v d dir name
    enter_dir-SameRegion dir name small same =
        let n83 = name_to_83 name in
        enter_dir-slot d' dir name
        ∙ ap (enter_slot d')
            (dir_find_in_ref-SameRegion dir n83 (omega (arith, length-name_to_83 name)) small same)
        ∙ enter_slot-SameRegion dir n83 (dir_find_in_ref v dir d n83) small same refl
        ∙ sym (enter_dir-slot d dir name)

    module _
        (small : (dir : DirRef) → Reach d dir → region_start v dir + region_count v dir < 2 ^ 32)
        (same : (dir : DirRef) → Reach d dir → SameRegion dir) where
      next_round-same :
          (fuel : ℕ) (dir : DirRef) (current : List ℕ) (c : Component)
          → Reach d dir
          → ((dir' : DirRef) (next rest : List ℕ)
              → Reach d dir'
              → resolve_loop v d' fuel dir' next rest ≡ resolve_loop v d fuel dir' next rest)
          → next_round v d' fuel dir current c ≡ next_round v d fuel dir current c
      next_round-same fuel dir current path_end r deeper = refl
      next_round-same fuel dir current too_long r deeper = refl
      next_round-same fuel dir current (component next rest) r deeper =
          rw (enter_dir-SameRegion dir current (small dir r) (same dir r))
            (elim (Bool-cases (name_is_valid_83 next)) [
              | inr t ↦ rw t
              | inl t ↦ rw t (go (enter_dir v d dir current) refl)
            ])
        where
          go :
              (e : Entered)
              → enter_dir v d dir current ≡ e
              → elim e as (λ _. Option Resolved) [
                | refused e ↦ some (failed e)
                | entered dir' ↦ resolve_loop v d' fuel dir' next rest
              ]
                ≡ elim e as (λ _. Option Resolved) [
                  | refused e ↦ some (failed e)
                  | entered dir' ↦ resolve_loop v d fuel dir' next rest
                ]
          go (refused err) e = refl
          go (entered dir') e = deeper dir' next rest (below r current e)

      resolve_loop-same :
          (fuel : ℕ) (dir : DirRef) (current path : List ℕ)
          → Reach d dir
          → resolve_loop v d' fuel dir current path ≡ resolve_loop v d fuel dir current path
      unfolding resolve_loop
      resolve_loop-same zero dir current path r = refl
      resolve_loop-same (suc fuel) dir current path r =
          resolve_loop-step v d' fuel dir current path
          ∙ next_round-same fuel dir current (path_next_component path) r
              (λ dir' next rest r'. resolve_loop-same fuel dir' next rest r')
          ∙ sym (resolve_loop-step v d fuel dir current path)

      -- Where two disks hold the same names and subdirectories in the sectors, all below block
      -- 2 ^ 32, of every directory that a path of the first reaches, each path resolves on the second
      -- as on the first.
      pub resolve_parent_dir-same :
          (path : List ℕ) → resolve_parent_dir v d' path ≡ resolve_parent_dir v d path
      unfolding resolve_parent_dir resolve_parent_run
      resolve_parent_dir-same path =
          ap (or_default (failed invalid)) (go (path_next_component path) refl)
        where
          go :
              (c : Component)
              → path_next_component path ≡ c
              → resolve_parent_run v d' path ≡ resolve_parent_run v d path
          go path_end e = rw (resolve_parent_run, e)
          go too_long e = rw (resolve_parent_run, e)
          go (component current rest) e = rw (
            resolve_parent_run,
            e,
            resolve_loop-same (suc (length rest)) root_dir current rest at_root,
          )
