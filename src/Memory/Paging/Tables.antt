-- ===== src/Memory/Paging/Tables.antt =====
-- The tables of one address space of memory/paging.c, and what a write of an entry does to them.
use yoz_os.Base.{
  ℕ, ◌+◌, ◌/◌, ◌%◌, ◌^◌, ◌<◌, ◌≡◌, ◌≢◌, ◌⊎◌, inl, inr, ◌∙◌, ap, refl, sym, arith, ◌==◌, true, false,
  Bool, Bool-cases, if◌then◌else◌, has_flag, Option, none, some, ℕ_discrete,
}
use yoz_os.Disk.{Buffer}
use yoz_os.Memory.Frames.{Bitmap, test_frame}
use yoz_os.Memory.Paging.{page_entry, set_page_entry, page_addr, page_present, pd_index, pt_index}
use yoz_os.Memory.Paging.Entries.{page_entry-set_page_entry_self, page_entry-set_page_entry_ne}

abbrev pub present : ℕ → Bool
present e = has_flag e page_present

-- The entry of a page in the table that `pde` points to.
abbrev pub lookup_in : Buffer → (pde i : ℕ) → Option ℕ
lookup_in ram pde i =
    let pte = page_entry ram (page_addr pde) i in
    if present pde then (if present pte then some pte else none) else none

-- The entry that the processor finds for an address.
abbrev pub lookup : Buffer → (directory addr : ℕ) → Option ℕ
lookup ram directory addr = lookup_in ram (page_entry ram directory (pd_index addr)) (pt_index addr)

pub lookup_in-same :
    (ram ram' : Buffer) (pde i : ℕ)
    → (present pde ≡ true → page_entry ram' (page_addr pde) i ≡ page_entry ram (page_addr pde) i)
    → lookup_in ram' pde i ≡ lookup_in ram pde i
lookup_in-same ram ram' pde i same = elim (Bool-cases (present pde)) [
  | inl p ↦ rw (p, same p) refl
  | inr p ↦ rw p refl
]

-- The directory and its tables lie in frames of their own, which are in use.
pub record IsTables (ram : Buffer) (frames : Bitmap) (directory : ℕ) : Type 0 where
  pub aligned : directory % 4096 ≡ 0
  pub owned : test_frame frames (directory / 4096) ≡ true
  pub tables :
      (i : ℕ)
      → i < 1024
      → present (page_entry ram directory i) ≡ true
      → (page_addr (page_entry ram directory i) ≢ directory)
        × (test_frame frames (page_addr (page_entry ram directory i) / 4096) ≡ true)
  pub distinct :
      (i j : ℕ)
      → i < 1024
      → j < 1024
      → present (page_entry ram directory i) ≡ true
      → present (page_entry ram directory j) ≡ true
      → page_addr (page_entry ram directory i) ≡ page_addr (page_entry ram directory j)
      → i ≡ j

-- A memory with the same directory has the same tables.
pub IsTables-same :
    (ram ram' : Buffer) (frames : Bitmap) (directory : ℕ)
    → ((i : ℕ) → i < 1024 → page_entry ram' directory i ≡ page_entry ram directory i)
    → IsTables ram frames directory
    → IsTables ram' frames directory
IsTables-same ram ram' frames directory same t = record {
  aligned = t.aligned;
  owned = t.owned;
  tables = λ i h p. rw (same i h) (t.tables i h (ap present (sym (same i h)) ∙ p));
  distinct = λ i j h k p q e.
      t.distinct i j h k (ap present (sym (same i h)) ∙ p) (ap present (sym (same j k)) ∙ q)
        (ap page_addr (sym (same i h)) ∙ e ∙ ap page_addr (same j k));
}

module _ (ram : Buffer) (frames : Bitmap) (directory virt e : ℕ) (t : IsTables ram frames directory)
    (small : virt < 2 ^ 32)
    (there : present (page_entry ram directory (pd_index virt)) ≡ true) where
  abbrev table : ℕ
  table = page_addr (page_entry ram directory (pd_index virt))

  abbrev pub stored : Buffer
  stored = set_page_entry ram table (pt_index virt) e

  stored-directory : (i : ℕ) → i < 1024 → page_entry stored directory i ≡ page_entry ram directory i
  stored-directory i h =
      page_entry-set_page_entry_ne ram table (pt_index virt) e directory i (omega arith, t.aligned)
        (omega arith, h) (inl (t.tables (pd_index virt) (omega arith) there).0)

  pub stored-IsTables : IsTables stored frames directory
  stored-IsTables = IsTables-same ram stored frames directory stored-directory t

  pub lookup-stored_self : e < 2 ^ 32 → present e ≡ true → lookup stored directory virt ≡ some e
  lookup-stored_self w p =
      rw
        (
          stored-directory (pd_index virt) (omega arith),
          there,
          page_entry-set_page_entry_self ram table (pt_index virt) e w,
          p,
        )
        refl

  pub lookup-stored_ne :
      (addr : ℕ)
      → addr < 2 ^ 32
      → addr / 4096 ≢ virt / 4096
      → lookup stored directory addr ≡ lookup ram directory addr
  lookup-stored_ne addr h ne =
      ap (λ (pde : ℕ). lookup_in stored pde (pt_index addr))
        (stored-directory (pd_index addr) (omega arith))
      ∙ lookup_in-same ram stored (page_entry ram directory (pd_index addr)) (pt_index addr) λ p.
        page_entry-set_page_entry_ne ram table (pt_index virt) e
          (page_addr (page_entry ram directory (pd_index addr))) (pt_index addr)
          (omega arith, omega arith) (omega arith, omega arith) (apart p)
    where
      apart :
          present (page_entry ram directory (pd_index addr)) ≡ true
          → (table ≢ page_addr (page_entry ram directory (pd_index addr)))
            ⊎ (pt_index virt ≢ pt_index addr)
      apart p = elim (ℕ_discrete (pd_index virt) (pd_index addr)) [
        | yes e ↦ inr (λ q. ne (omega arith))
        | no d ↦ inl λ q.
            d (t.distinct (pd_index virt) (pd_index addr) (omega arith) (omega arith) there p q)
      ]

-- A frame that was free and is in use now.
pub record IsFresh (table : ℕ) (frames frames' : Bitmap) : Type 0 where
  pub aligned : table % 4096 ≡ 0
  pub small : table + 7 < 2 ^ 32
  pub free : test_frame frames (table / 4096) ≡ false
  pub marked :
      (g : ℕ) → test_frame frames' g ≡ (if g == table / 4096 then true else test_frame frames g)
