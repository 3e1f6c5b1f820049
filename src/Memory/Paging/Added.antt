-- ===== src/Memory/Paging/Added.antt =====
-- A new table in an address space of memory/paging.c, empty, for an entry of the directory that was
-- not present.
use yoz_os.Base.{
  ℕ, ◌+◌, ◌/◌, ◌%◌, ◌^◌, ◌<◌, ◌≡◌, ◌≢◌, inl, inr, ◌∙◌, ap, refl, sym, subst, arith, true, false,
  Bool-cases, none, ℕ_discrete,
}
use yoz_os.Disk.{Buffer, memory_set}
use yoz_os.Memory.Frames.{Bitmap, test_frame}
use yoz_os.Memory.Paging.{page_entry, set_page_entry, page_addr, pd_index, pt_index}
use yoz_os.Memory.Paging.Entries.{
  page_entry-set_page_entry_self, page_entry-set_page_entry_ne, page_entry-cleared_self,
  page_entry-cleared_ne,
}
use yoz_os.Memory.Paging.Tables.{present, lookup_in, lookup, lookup_in-same, IsTables, IsFresh}

module _ (ram : Buffer) (frames frames' : Bitmap) (directory d table : ℕ)
    (t : IsTables ram frames directory) (small : d < 1024)
    (absent : present (page_entry ram directory d) ≡ false) (f : IsFresh table frames frames') where
  abbrev pub added : Buffer
  added = set_page_entry (memory_set ram table 0 4096) directory d (table + 7)

  keeps_used : (g : ℕ) → test_frame frames g ≡ true → test_frame frames' g ≡ true
  keeps_used g u = f.marked g ∙ ground arith

  apart : (a : ℕ) → test_frame frames (a / 4096) ≡ true → table ≢ a
  apart a u e = let used : test_frame frames (table / 4096) ≡ true = rw e u in cc (f.free, used)

  pub added_self : page_entry added directory d ≡ table + 7
  added_self =
      page_entry-set_page_entry_self (memory_set ram table 0 4096) directory d (table + 7) f.small

  added-ne : (i : ℕ) → i < 1024 → i ≢ d → page_entry added directory i ≡ page_entry ram directory i
  added-ne i h ne =
      page_entry-set_page_entry_ne (memory_set ram table 0 4096) directory d (table + 7) directory i
        (t.aligned, t.aligned) (small, h) (inr (λ e. ne (sym e)))
      ∙ page_entry-cleared_ne ram table directory i (f.aligned, t.aligned) h
          (apart directory t.owned)

  -- The tables that were there are as they were.
  added-other :
      (u i : ℕ)
      → i < 1024
      → u % 4096 ≡ 0
      → u ≢ directory
      → test_frame frames (u / 4096) ≡ true
      → page_entry added u i ≡ page_entry ram u i
  added-other u i h al ne used =
      page_entry-set_page_entry_ne (memory_set ram table 0 4096) directory d (table + 7) u i
        (t.aligned, al) (small, h) (inl (λ e. ne (sym e)))
      ∙ page_entry-cleared_ne ram table u i (f.aligned, al) h (apart u used)

  added-empty : (i : ℕ) → i < 1024 → page_entry added table i ≡ 0
  added-empty i h =
      page_entry-set_page_entry_ne (memory_set ram table 0 4096) directory d (table + 7) table i
        (t.aligned, f.aligned) (small, h) (inl (λ e. apart directory t.owned (sym e)))
      ∙ page_entry-cleared_self ram table i h

  page-table : page_addr (table + 7) ≡ table
  page-table = omega (arith, f.aligned)

  abbrev IsOwned : (e : ℕ) → Type 0
  IsOwned e = (page_addr e ≢ directory) × (test_frame frames' (page_addr e / 4096) ≡ true)

  old_table :
      (i : ℕ)
      → i < 1024
      → i ≢ d
      → present (page_entry added directory i) ≡ true
      → present (page_entry ram directory i) ≡ true
  old_table i h ne p = ap present (sym (added-ne i h ne)) ∙ p

  added-tables :
      (i : ℕ)
      → i < 1024
      → present (page_entry added directory i) ≡ true
      → IsOwned (page_entry added directory i)
  added-tables i h p = elim (ℕ_discrete i d) [
    | yes e ↦
        subst (λ (j : ℕ). IsOwned (page_entry added directory j)) (sym e)
          (subst IsOwned (sym added_self)
            (rw page-table (apart directory t.owned, f.marked (table / 4096) ∙ ground arith)))
    | no ne ↦
        let (n, u) = t.tables i h (old_table i h ne p) in
        subst IsOwned (sym (added-ne i h ne))
          (n, keeps_used (page_addr (page_entry ram directory i) / 4096) u)
  ]

  -- The new table is none of the old ones.
  new_apart :
      (i : ℕ)
      → i < 1024
      → i ≢ d
      → present (page_entry added directory i) ≡ true
      → page_addr (page_entry added directory d) ≢ page_addr (page_entry added directory i)
  new_apart i h ne p e =
      apart (page_addr (page_entry ram directory i)) (t.tables i h (old_table i h ne p)).1
        (sym page-table ∙ ap page_addr (sym added_self) ∙ e ∙ ap page_addr (added-ne i h ne))

  added-distinct :
      (i j : ℕ)
      → i < 1024
      → j < 1024
      → present (page_entry added directory i) ≡ true
      → present (page_entry added directory j) ≡ true
      → page_addr (page_entry added directory i) ≡ page_addr (page_entry added directory j)
      → i ≡ j
  added-distinct i j h k p q e = elim (ℕ_discrete i d) [
    | yes a ↦ elim (ℕ_discrete j d) [
      | yes b ↦ a ∙ sym b
      | no nb ↦ absurd (
          new_apart j k nb q (ap (λ (x : ℕ). page_addr (page_entry added directory x)) (sym a) ∙ e))
    ]
    | no na ↦ elim (ℕ_discrete j d) [
      | yes b ↦ absurd (
          new_apart i h na p
            (ap (λ (x : ℕ). page_addr (page_entry added directory x)) (sym b) ∙ sym e))
      | no nb ↦
          t.distinct i j h k (old_table i h na p) (old_table j k nb q)
            (ap page_addr (sym (added-ne i h na)) ∙ e ∙ ap page_addr (added-ne j k nb))
    ]
  ]

  pub added-IsTables : IsTables added frames' directory
  added-IsTables = record {
    aligned = t.aligned;
    owned = keeps_used (directory / 4096) t.owned;
    tables = added-tables;
    distinct = added-distinct;
  }

  pub lookup-added :
      (addr : ℕ) → addr < 2 ^ 32 → lookup added directory addr ≡ lookup ram directory addr
  lookup-added addr h = elim (ℕ_discrete (pd_index addr) d) [
    | yes e ↦
        ap (λ (i : ℕ). lookup_in added (page_entry added directory i) (pt_index addr)) e
        ∙ ap (λ (pde : ℕ). lookup_in added pde (pt_index addr)) added_self
        ∙ nothing
        ∙ sym (
            ap (λ (i : ℕ). lookup_in ram (page_entry ram directory i) (pt_index addr)) e
            ∙ rw absent refl)
    | no ne ↦
        ap (λ (pde : ℕ). lookup_in added pde (pt_index addr))
          (added-ne (pd_index addr) (omega arith) ne)
        ∙ lookup_in-same ram added (page_entry ram directory (pd_index addr)) (pt_index addr) λ p.
          let (n, u) = t.tables (pd_index addr) (omega arith) p in
          added-other (page_addr (page_entry ram directory (pd_index addr))) (pt_index addr)
            (omega arith) (omega arith) n u
  ]
    where
      nothing : lookup_in added (table + 7) (pt_index addr) ≡ none
      nothing =
          let z : page_entry added (page_addr (table + 7)) (pt_index addr) ≡ 0 =
            rw page-table (added-empty (pt_index addr) (omega arith)) in
          elim (Bool-cases (present (table + 7))) [ inl p ↦ rw (p, z) refl | inr p ↦ rw p refl ]
