-- ===== src/Memory/Paging/Map.antt =====
-- What `address_space_map_page` of memory/paging.c does to an address space.
use yoz_os.Base.{
  ℕ, ◌+◌, ◌*◌, ◌/◌, ◌%◌, ◌^◌, ◌<◌, ◌≡◌, ◌≢◌, inl, inr, ◌∙◌, ap, refl, arith, ◌==◌, true, false,
  Bool, Bool-cases, some,
}
use yoz_os.Memory.Frames.{Bitmap, test_frame, alloc_frame, num_frames}
use yoz_os.Memory.Frames.Alloc.{Taken, alloc_frame_lem}
use yoz_os.Memory.Words.{or32}
use yoz_os.Memory.Paging.{
  Space, Paging, space_at, page_entry, page_addr, page_present, pd_index, map_in, map_new,
  address_space_map_page,
}
use yoz_os.Memory.Paging.Entries.{table_entry_lem, page_entry_lem}
use yoz_os.Memory.Paging.Tables.{
  present, lookup, IsTables, IsFresh, stored-IsTables, lookup-stored_self, lookup-stored_ne,
}
use yoz_os.Memory.Paging.Added.{added, added_self, added-IsTables, lookup-added}

-- The page of `virt` goes to the frame of `phys` with `flags`; the other pages are as they were.
pub record Maps (directory virt phys flags : ℕ) (s s' : Paging) : Type 0 where
  pub tables : IsTables s'.ram s'.frames directory
  pub page : lookup s'.ram directory virt ≡ some (page_addr phys + flags / 2 * 2 + 1)
  pub others :
      (addr : ℕ)
      → addr < 2 ^ 32
      → addr / 4096 ≢ virt / 4096
      → lookup s'.ram directory addr ≡ lookup s.ram directory addr

-- The result and the state of a call that maps the page, or leaves all pages as they are.
abbrev pub MapsOrKeeps : (directory virt phys flags : ℕ) → Paging → Bool × Paging → Type 0
MapsOrKeeps directory virt phys flags s (true, s') = Maps directory virt phys flags s s'
MapsOrKeeps directory virt phys flags s (false, s') =
    (s'.ram ≡ s.ram) × ((g : ℕ) → test_frame s'.frames g ≡ test_frame s.frames g)

module _ (directory virt phys flags : ℕ) (small : virt < 2 ^ 32) (address : phys < 2 ^ 32)
    (low : flags < 4096) where
  abbrev new : ℕ
  new = or32 (or32 (page_addr phys) flags) page_present

  new-lem : new ≡ page_addr phys + flags / 2 * 2 + 1
  new-lem = page_entry_lem phys flags address low

  map_in-Maps :
      (s : Paging)
      → IsTables s.ram s.frames directory
      → present (page_entry s.ram directory (pd_index virt)) ≡ true
      → Maps directory virt phys flags s
          (map_in (page_entry s.ram directory (pd_index virt)) virt phys flags s)
  unfolding map_in
  map_in-Maps s t there = record {
    tables = stored-IsTables s.ram s.frames directory virt new t small there;
    page =
        lookup-stored_self s.ram s.frames directory virt new t small there (omega (arith, new-lem))
          (ground (arith, new-lem))
        ∙ ap some new-lem;
    others = lookup-stored_ne s.ram s.frames directory virt new t small there;
  }

  Taken-IsFresh : (b b' : Bitmap) (addr : ℕ) → Taken 0 num_frames b addr b' → IsFresh addr b b'
  Taken-IsFresh b b' addr r =
      let e : addr / 4096 ≡ r.frame = omega (arith, r.at) in
      record {
        aligned = omega (arith, r.at);
        small = omega (arith, r.at, r.below);
        free = rw e r.free;
        marked = rw e r.marked;
      }

  seven : (table : ℕ) → table % 4096 ≡ 0 → present (table + 7) ≡ true
  seven table h = ground arith

  new_table-Maps :
      (s : Paging) (table : ℕ) (frames : Bitmap)
      → IsTables s.ram s.frames directory
      → present (page_entry s.ram directory (pd_index virt)) ≡ false
      → IsFresh table s.frames frames
      → table ≢ 0
      → MapsOrKeeps directory virt phys flags s
          (map_new directory virt phys flags s (table, frames))
  unfolding map_new
  new_table-Maps s table frames t absent f ne =
      let nonzero : (table == 0) ≡ false = ground arith in
      let d : pd_index virt < 1024 = omega arith in
      let ram = added s.ram s.frames frames directory (pd_index virt) table t d absent f in
      let s1 : Paging = record s { ram = ram; frames = frames } in
      let self = added_self s.ram s.frames frames directory (pd_index virt) table t d absent f in
      let there : present (page_entry ram directory (pd_index virt)) ≡ true =
        ap present self ∙ seven table f.aligned in
      let m =
        map_in-Maps s1
          (added-IsTables s.ram s.frames frames directory (pd_index virt) table t d absent f)
          there in
      rw (nonzero, table_entry_lem table f.aligned (omega (arith, f.small)))
        (record {
          tables = m.tables;
          page = m.page;
          others = λ addr h e.
              m.others addr h e
              ∙ lookup-added s.ram s.frames frames directory (pd_index virt) table t d absent f addr
                  h;
        })

  map_new-MapsOrKeeps :
      (s : Paging)
      → IsTables s.ram s.frames directory
      → present (page_entry s.ram directory (pd_index virt)) ≡ false
      → test_frame s.frames 0 ≡ true
      → MapsOrKeeps directory virt phys flags s
          (map_new directory virt phys flags s (alloc_frame s.frames))
  unfolding map_new
  map_new-MapsOrKeeps s t absent zero_used = elim (alloc_frame_lem s.frames) [
    | inl r ↦
        new_table-Maps s (alloc_frame s.frames).0 (alloc_frame s.frames).1 t absent
          (Taken-IsFresh s.frames (alloc_frame s.frames).1 (alloc_frame s.frames).0 r)
          λ z.
            let e : r.frame ≡ 0 = omega (arith, r.at) in
            let used : test_frame s.frames r.frame ≡ true = rw e zero_used in cc (used, r.free)
    | inr f ↦ rw (f.zero_result, f.same) (refl, λ g. refl)
  ]

-- In an address space whose directory and tables lie in frames of their own, in use as frame 0 is,
-- `address_space_map_page` maps the page of `virt` to the frame of `phys` with the flags and the
-- present bit, and every other page is as it was, a new table included; or it returns 0 and neither
-- the memory nor a frame changes. The tables stay in frames of their own.
pub address_space_map_page-MapsOrKeeps :
    (a : Space) (virt phys flags : ℕ) (s : Paging)
    → virt < 2 ^ 32
    → phys < 2 ^ 32
    → flags < 4096
    → IsTables s.ram s.frames (space_at s a).page_directory
    → test_frame s.frames 0 ≡ true
    → MapsOrKeeps
        (space_at s a).page_directory
        virt
        phys
        flags
        s
        (address_space_map_page (some a) virt phys flags s)
unfolding address_space_map_page
address_space_map_page-MapsOrKeeps a virt phys flags s small address low t zero_used =
    elim (Bool-cases ((space_at s a).page_directory == 0)) [
      | inl z ↦ rw z (refl, λ g. refl)
      | inr nz ↦
          elim (Bool-cases
            (present (page_entry s.ram (space_at s a).page_directory (pd_index virt)))) [
              | inl there ↦
                  rw (nz, there)
                    (map_in-Maps (space_at s a).page_directory virt phys flags small address low s t
                      there)
              | inr absent ↦
                  rw (nz, absent)
                    (map_new-MapsOrKeeps (space_at s a).page_directory virt phys flags small address
                      low s t absent zero_used)
            ]
    ]
