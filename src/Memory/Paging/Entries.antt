-- ===== src/Memory/Paging/Entries.antt =====
-- The entries of the tables of memory/paging.c, as words of the memory.
use yoz_os.Base.{
  ℕ, ◌+◌, ◌*◌, ◌/◌, ◌%◌, ◌^◌, ◌<◌, ◌≤◌, ◌≡◌, ◌≢◌, ◌⊎◌, inl, inr, arith, ltb, Bool-cases,
}
use yoz_os.Disk.{Buffer, get8, get32, put32, memory_set, get32-put32_self, get8-memory_set}
use yoz_os.Memory.Words.{or32, or32-one, or32-two, or32-four, or32-fields}
use yoz_os.Memory.Paging.{page_entry, set_page_entry, page_addr, page_present, table_entry}

get32-put32_ne :
    (b : Buffer) (i v j : ℕ) → (i + 4 ≤ j) ⊎ (j + 4 ≤ i) → get32 (put32 b i v) j ≡ get32 b j
get32-put32_ne b i v j (inl h) = ground arith
get32-put32_ne b i v j (inr h) = ground arith

pub page_entry-set_page_entry_self :
    (ram : Buffer) (t i v : ℕ) → v < 2 ^ 32 → page_entry (set_page_entry ram t i v) t i ≡ v
page_entry-set_page_entry_self ram t i v h = get32-put32_self ram (t + 4 * i) v h

-- Tables are page-aligned: a write into one changes neither its other entries nor another table.
pub page_entry-set_page_entry_ne :
    (ram : Buffer) (t i v u j : ℕ)
    → (t % 4096 ≡ 0) × (u % 4096 ≡ 0)
    → (i < 1024) × (j < 1024)
    → (t ≢ u) ⊎ (i ≢ j)
    → page_entry (set_page_entry ram t i v) u j ≡ page_entry ram u j
page_entry-set_page_entry_ne ram t i v u j al b ne =
    get32-put32_ne ram (t + 4 * i) v (u + 4 * j) apart
  where
    differ : (t ≢ u) ⊎ (i ≢ j) → t + 4 * i ≢ u + 4 * j
    differ (inl tables) e = tables (omega arith)
    differ (inr indices) e = indices (omega arith)

    apart : (t + 4 * i + 4 ≤ u + 4 * j) ⊎ (u + 4 * j + 4 ≤ t + 4 * i)
    apart = elim (Bool-cases (ltb (t + 4 * i) (u + 4 * j))) [
      | inl l ↦ inl (ground arith)
      | inr l ↦ inr (ground (arith, differ ne))
    ]

pub page_entry-cleared_self :
    (ram : Buffer) (t j : ℕ) → j < 1024 → page_entry (memory_set ram t 0 4096) t j ≡ 0
page_entry-cleared_self ram t j h = omega (
  arith,
  byte (t + 4 * j) (omega arith) (omega arith),
  byte (t + 4 * j + 1) (omega arith) (omega arith),
  byte (t + 4 * j + 2) (omega arith) (omega arith),
  byte (t + 4 * j + 2 + 1) (omega arith) (omega arith),
)
  where
    byte : (x : ℕ) → t ≤ x → x < t + 4096 → get8 (memory_set ram t 0 4096) x ≡ 0
    byte x p q = ground (arith, get8-memory_set ram t 0 4096 x)

pub page_entry-cleared_ne :
    (ram : Buffer) (t u j : ℕ)
    → (t % 4096 ≡ 0) × (u % 4096 ≡ 0)
    → j < 1024
    → t ≢ u
    → page_entry (memory_set ram t 0 4096) u j ≡ page_entry ram u j
page_entry-cleared_ne ram t u j al h ne = omega (
  arith,
  byte (u + 4 * j) (omega arith) (omega arith),
  byte (u + 4 * j + 1) (omega arith) (omega arith),
  byte (u + 4 * j + 2) (omega arith) (omega arith),
  byte (u + 4 * j + 2 + 1) (omega arith) (omega arith),
)
  where
    byte : (x : ℕ) → u ≤ x → x < u + 4096 → get8 (memory_set ram t 0 4096) x ≡ get8 ram x
    byte x p q = ground (arith, get8-memory_set ram t 0 4096 x)

-- The entry of a table as `address_space_map_page` makes it.
pub table_entry_lem :
    (table : ℕ) → table % 4096 ≡ 0 → table < 2 ^ 32 → table_entry table ≡ table + 7
table_entry_lem table al h =
    let one : or32 table 1 ≡ table + 1 = omega (arith, or32-one table h) in
    let two : or32 (table + 1) 2 ≡ table + 3 = omega (arith, or32-two (table + 1) (omega arith)) in
    rw (one, two) (omega (arith, or32-four (table + 3) (omega arith)))

-- The entry of a page as `address_space_map_page` makes it.
pub page_entry_lem :
    (phys flags : ℕ)
    → phys < 2 ^ 32
    → flags < 4096
    → or32 (or32 (page_addr phys) flags) page_present ≡ page_addr phys + flags / 2 * 2 + 1
page_entry_lem phys flags h f =
    rw (or32-fields (phys / 4096) flags (omega arith) f)
      (omega (arith, or32-one (page_addr phys + flags) (omega arith)))
