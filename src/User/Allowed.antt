-- ===== src/User/Allowed.antt =====
-- What `user_memory_ok` of cpu/user_mode.c tells of a user pointer.
use yoz_os.Base.{
  ℕ, ◌+◌, ◌-◌, ◌^◌, ◌<◌, ◌≤◌, ◌≡◌, ◌≢◌, ◌↔◌, ◌⊎◌, inl, inr, ◌∙◌, ap, refl, sym, arith, ◌==◌, ◌&&◌,
  ◌||◌, ltb, leb, not, Bool, true, false, Bool-cases, Option, some, List, [], ◌∷◌, All,
}
use yoz_os.Memory.Paging.{user, range_end, page_ok, address_space_user_pages_ok}
use yoz_os.Memory.Paging.Pages.{Tells, address_space_user_pages_ok-Tells}
use yoz_os.User.Store.{Region, Program, Machine, process_at}
use yoz_os.User.Access.{
  has_flags, in_region, regions_ok, process_memory_ok, memory_ok_for, user_memory_ok,
}

-- A region that holds the whole range, with the rights asked for, and does not wrap.
pub record Covers (ptr len required : ℕ) (r : Region) : Type 0 where
  pub proper : r.start + r.len ≤ 2 ^ 32
  pub within : (r.start ≤ ptr) × (ptr + len ≤ r.start + r.len)
  pub rights : has_flags r.flags required ≡ true

abbrev pub Any : (Region → Type 0) → List Region → Type 0
Any P [] = ⊥
Any P (r ∷ rs) = P r ⊎ Any P rs

-- The numbers of a region are words.
abbrev pub IsWordRegion : Region → Type 0
IsWordRegion r = (r.start < 2 ^ 32) × (r.len < 2 ^ 32)

-- The test of one region.
abbrev region_ok : (ptr end required : ℕ) → Region → Bool
region_ok ptr end required r =
    not (r.len == 0 || ltb (range_end r.start r.len) r.start)
    && (leb r.start ptr && leb end (range_end r.start r.len) && has_flags r.flags required)

in_region-or :
    (ptr end required : ℕ) (r : Region) (rs : List Region)
    → in_region ptr end required (r ∷ rs)
      ≡ (region_ok ptr end required r || in_region ptr end required rs)
unfolding in_region
in_region-or ptr end required r rs = ground arith

module _ (ptr len required : ℕ) (pos : 0 < len) (w : ptr + len ≤ 2 ^ 32) where
  end-lem : range_end ptr len ≡ ptr + len - 1
  end-lem = omega arith

  region_ok-Covers :
      (r : Region)
      → IsWordRegion r
      → region_ok ptr (range_end ptr len) required r ≡ true
      → Covers ptr len required r
  region_ok-Covers r h e = record {
    proper = ground arith;
    within = ground arith;
    rights = ground arith;
  }

  Covers-region_ok :
      (r : Region)
      → IsWordRegion r
      → Covers ptr len required r
      → region_ok ptr (range_end ptr len) required r ≡ true
  Covers-region_ok r h c = ground (arith, c.within, c.rights, c.proper)

  in_region_iff :
      (rs : List Region)
      → All IsWordRegion rs
      → (in_region ptr (range_end ptr len) required rs ≡ true) ↔ Any (Covers ptr len required) rs
  unfolding in_region
  in_region_iff [] h = (λ e. cc, λ a. absurd a)
  in_region_iff (r ∷ rs) h = (
    λ e. elim (Bool-cases (region_ok ptr (range_end ptr len) required r)) [
      | inl t ↦ inl (region_ok-Covers r h.0 t)
      | inr t ↦ inr (
          (in_region_iff rs h.1).0
            (sym (in_region-or ptr (range_end ptr len) required r rs ∙ rw t refl) ∙ e))
    ],
    λ a. in_region-or ptr (range_end ptr len) required r rs ∙ elim a [
      | inl c ↦ rw (Covers-region_ok r h.0 c) refl
      | inr b ↦ rw ((in_region_iff rs h.1).1 b) (ground arith)
    ],
  )

-- The answer on the pages is followed by the one on the regions.
regions_ok-Tells :
    (ptr len required : ℕ) (program : Program) (Q : Type 0) (o : Option Bool)
    → 0 < len
    → All IsWordRegion program.regions
    → Tells o ((ptr + len ≤ 2 ^ 32) × Q)
    → Tells
        (regions_ok ptr len required program o)
        ((ptr + len ≤ 2 ^ 32) × Q × Any (Covers ptr len required) program.regions)
unfolding regions_ok
regions_ok-Tells ptr len required program Q o pos words (false, e, t) =
    (false, ap (regions_ok ptr len required program) e, (λ q. absurd cc, λ a. t.1 (a.0, a.1)))
regions_ok-Tells ptr len required program Q o pos words (true, e, t) =
    let (w, q) = t.0 refl in
    let iff = in_region_iff ptr len required pos w program.regions words in
    (
      in_region ptr (range_end ptr len) required program.regions,
      ap (regions_ok ptr len required program) e ∙ accepted w,
      (λ r. (w, q, iff.0 r), λ a. iff.1 a.2),
    )
  where
    accepted :
        ptr + len ≤ 2 ^ 32
        → regions_ok ptr len required program (some true)
          ≡ some (in_region ptr (range_end ptr len) required program.regions)
    accepted w =
        let (z, l) : ((len == 0) ≡ false) × (ltb (range_end ptr len) ptr ≡ false) =
          (ground arith, ground arith) in
        rw (z, l) refl

-- With a current process that has a program and an address space, `user_memory_ok` returns, and
-- accepts a range that is not empty exactly where it does not wrap, every page of it is present and
-- of the user, and one region of the program holds all of it with the rights asked for.
pub user_memory_ok-Tells :
    (ptr len required i a : ℕ) (program : Program) (m : Machine)
    → ptr < 2 ^ 32
    → 0 < len
    → len < 2 ^ 32
    → m.current ≡ some i
    → (process_at m i).program ≡ some program
    → (process_at m i).address_space ≡ some a
    → (m.paging.user_spaces a).page_directory ≢ 0
    → All IsWordRegion program.regions
    → Tells (user_memory_ok ptr len required m) (
        (ptr + len ≤ 2 ^ 32)
        × ((k : ℕ)
            → k < len
            → page_ok m.paging.ram (m.paging.user_spaces a).page_directory (ptr + k) ≡ true)
        × Any (Covers ptr len required) program.regions)
unfolding user_memory_ok memory_ok_for process_memory_ok
user_memory_ok-Tells ptr len required i a program m p pos l current has_program has_space ne words =
    let (b, e, t) =
      regions_ok-Tells ptr len required program
        ((k : ℕ)
          → k < len
          → page_ok m.paging.ram (m.paging.user_spaces a).page_directory (ptr + k) ≡ true)
        (address_space_user_pages_ok (some (user a)) ptr len m.paging) pos words
        (address_space_user_pages_ok-Tells (user a) ptr len m.paging p l ne pos) in
    (b, reduced ∙ e, t)
  where
    reduced :
        user_memory_ok ptr len required m
        ≡ regions_ok ptr len required program
            (address_space_user_pages_ok (some (user a)) ptr len m.paging)
    reduced =
        ap (memory_ok_for ptr len required m) current
        ∙ ap (λ o. process_memory_ok ptr len required m.paging o (process_at m i).address_space)
            has_program
        ∙ ap (process_memory_ok ptr len required m.paging (some program)) has_space
