-- ===== src/User/Filled.antt =====
-- What `elf_fill_page_frame` of cpu/user_mode.c puts into a page.
use yoz_os.Base.{
  ℕ, ◌+◌, ◌-◌, ◌^◌, ◌<◌, ◌≤◌, ◌≡◌, ◌⊎◌, refl, ◌∙◌, arith, ◌&&◌, leb, ltb, true, false, Bool-cases,
  inl, inr, if◌then◌else◌,
}
use yoz_os.Disk.{Buffer, get8, memory_copy, memory_set, add32, get8-memory_copy, get8-memory_set}
use yoz_os.Elf.{ProgramHeader}
use yoz_os.Elf.Checks.{IsLoadable}
use yoz_os.User.Page.{copy_start, copy_end, copy_page, elf_fill_page_frame}

-- The byte that a segment has at an address: from the file where there is one, and 0 behind it.
abbrev pub segment_byte : ProgramHeader → (image : Buffer) → (addr : ℕ) → ℕ
segment_byte p image addr =
    if leb p.p_vaddr addr && ltb addr (p.p_vaddr + p.p_filesz)
    then get8 image (p.p_offset + (addr - p.p_vaddr))
    else 0

-- The frame holds the page of the segment, and the rest of the memory is as it was.
pub record Fills (frame page : ℕ) (p : ProgramHeader) (image ram ram' : Buffer) : Type 0 where
  pub bytes : (k : ℕ) → k < 4096 → get8 ram' (frame + k) ≡ segment_byte p image (page + k)
  pub outside : (a : ℕ) → (a < frame) ⊎ (frame + 4096 ≤ a) → get8 ram' a ≡ get8 ram a

ge→not_ltb : (a b : ℕ) → b ≤ a → ltb a b ≡ false
ge→not_ltb a b h = ground arith

module _ (frame page : ℕ) (p : ProgramHeader) (image : Buffer) (s e : ℕ)
    (from : (page ≤ s) × (p.p_vaddr ≤ s)) (less : s < e)
    (to : (e ≤ page + 4096) × (e ≤ p.p_vaddr + p.p_filesz))
    (all : (x : ℕ)
      → page ≤ x
      → x < page + 4096
      → (leb p.p_vaddr x && ltb x (p.p_vaddr + p.p_filesz)) ≡ true
      → (s ≤ x) × (x < e))
    (ram : Buffer) where
  abbrev copied : Buffer
  copied = memory_copy image (p.p_offset + (s - p.p_vaddr)) ram (frame + (s - page)) (e - s)

  copied-lem :
      (a : ℕ)
      → get8 copied a ≡ (
          if leb (frame + (s - page)) a && ltb a (frame + (s - page) + (e - s))
          then get8 image (p.p_offset + (s - p.p_vaddr) + (a - (frame + (s - page))))
          else get8 ram a)
  copied-lem a =
      get8-memory_copy image (p.p_offset + (s - p.p_vaddr)) ram (frame + (s - page)) (e - s) a

  copied-bytes :
      ((k : ℕ) → k < 4096 → get8 ram (frame + k) ≡ 0)
      → (k : ℕ) → k < 4096
      → get8 copied (frame + k) ≡ segment_byte p image (page + k)
  copied-bytes zeros k q =
      elim (Bool-cases (leb p.p_vaddr (page + k) && ltb (page + k) (p.p_vaddr + p.p_filesz))) [
        | inl f ↦
            let (c, d) = all (page + k) (omega arith) (omega arith) f in
            let t : (leb (frame + (s - page)) (frame + k)
                  && ltb (frame + k) (frame + (s - page) + (e - s)))
                ≡ true =
              ground (arith, from, less) in
            let index : p.p_offset + (s - p.p_vaddr) + (frame + k - (frame + (s - page)))
                ≡ p.p_offset + (page + k - p.p_vaddr) =
              omega (arith, from) in
            copied-lem (frame + k) ∙ rw (t, f, index) refl
        | inr f ↦
            let t : (leb (frame + (s - page)) (frame + k)
                  && ltb (frame + k) (frame + (s - page) + (e - s)))
                ≡ false =
              ground (arith, from, less, to) in
            copied-lem (frame + k) ∙ rw (t, f) (zeros k q)
      ]

  copied-Fills :
      ((k : ℕ) → k < 4096 → get8 ram (frame + k) ≡ 0) → Fills frame page p image ram copied
  copied-Fills zeros = record {
    bytes = copied-bytes zeros;
    outside = λ a o.
        let t : (leb (frame + (s - page)) a && ltb a (frame + (s - page) + (e - s))) ≡ false =
          ground (arith, from, less, to, o) in
        copied-lem a ∙ rw t refl;
  }

module _ (frame page : ℕ) (p : ProgramHeader) (image : Buffer) (len : ℕ) (h : IsLoadable len p)
    (fits : page + 4096 < 2 ^ 32) (word : len < 2 ^ 32) where
  start-lem :
      (page ≤ copy_start page p)
      × (p.p_vaddr ≤ copy_start page p)
      × ((x : ℕ) → page ≤ x → p.p_vaddr ≤ x → copy_start page p ≤ x)
  start-lem = (ground arith, ground arith, λ x a b. ground arith)

  end-lem :
      (copy_end page p ≤ page + 4096)
      × (copy_end page p ≤ p.p_vaddr + p.p_filesz)
      × ((x : ℕ) → x < page + 4096 → x < p.p_vaddr + p.p_filesz → x < copy_end page p)
  end-lem =
      let (a, b) : (add32 page 4096 ≡ page + 4096)
          × (add32 p.p_vaddr p.p_filesz ≡ p.p_vaddr + p.p_filesz) =
        (omega arith, omega (arith, h.sizes, h.in_space)) in
      rw (a, b) (ground arith, ground arith, λ x c d. ground arith)

  -- An address of the segment's file bytes in the page is one of those that are copied.
  in_file-lem :
      (x : ℕ)
      → page ≤ x
      → x < page + 4096
      → (leb p.p_vaddr x && ltb x (p.p_vaddr + p.p_filesz)) ≡ true
      → (copy_start page p ≤ x) × (x < copy_end page p)
  in_file-lem x a b e =
      let (c, d) : (p.p_vaddr ≤ x) × (x < p.p_vaddr + p.p_filesz) = (ground arith, ground arith) in
      (start-lem.2 x a c, end-lem.2 x b d)

  less : leb (copy_end page p) (copy_start page p) ≡ false → copy_start page p < copy_end page p
  less t = ground arith

  copy_page-Fills :
      (ram : Buffer)
      → ((k : ℕ) → k < 4096 → get8 ram (frame + k) ≡ 0)
      → (ram' : Buffer) × (copy_page frame page p image len ram ≡ (true, ram'))
        × Fills frame page p image ram ram'
  unfolding copy_page
  copy_page-Fills ram zeros = elim (Bool-cases (leb (copy_end page p) (copy_start page p))) [
    | inl t ↦ (
      ram,
      rw t refl,
      record {
        bytes = λ k q.
            elim (Bool-cases
              (leb p.p_vaddr (page + k) && ltb (page + k) (p.p_vaddr + p.p_filesz))) [
                | inl e ↦
                    let (c, d) = in_file-lem (page + k) (omega arith) (omega arith) e in
                    absurd (ground arith)
                | inr e ↦ rw e (zeros k q)
              ];
        outside = λ a o. refl;
      },
    )
    | inr t ↦
        let s = start-lem in
        let e = end-lem in
        let off : add32 p.p_offset (copy_start page p - p.p_vaddr)
            ≡ p.p_offset + (copy_start page p - p.p_vaddr) =
          omega (arith, s.0, s.1, e.0, e.1, h.in_file, less t) in
        let last : add32 (p.p_offset + (copy_start page p - p.p_vaddr))
              (copy_end page p - copy_start page p)
            ≡ p.p_offset + (copy_start page p - p.p_vaddr) + (copy_end page p - copy_start page p) =
          omega (arith, s.0, s.1, e.0, e.1, h.in_file, less t) in
        let no_wrap : ltb
              (p.p_offset + (copy_start page p - p.p_vaddr) + (copy_end page p - copy_start page p))
              (p.p_offset + (copy_start page p - p.p_vaddr))
            ≡ false =
          ge→not_ltb _ _ (omega arith) in
        let within : ltb len
              (p.p_offset + (copy_start page p - p.p_vaddr) + (copy_end page p - copy_start page p))
            ≡ false =
          ge→not_ltb _ _ (omega (arith, s.0, s.1, e.0, e.1, h.in_file, less t)) in
        (
          memory_copy image (p.p_offset + (copy_start page p - p.p_vaddr)) ram
              (frame + (copy_start page p - page)) (copy_end page p - copy_start page p),
          rw (t, off, last, no_wrap, within) refl,
          copied-Fills frame page p image (copy_start page p) (copy_end page p) (s.0, s.1) (less t)
              (e.0, e.1) in_file-lem ram zeros,
        )
  ]

-- A frame that `elf_fill_page_frame` fills for a page below the last one of the space, and a segment
-- that `elf32_program_headers_ok` accepts, holds exactly the segment's bytes of the page: those of
-- the file at their addresses, and 0 before and behind them. The other memory is as it was.
pub elf_fill_page_frame-Fills :
    (frame page : ℕ) (p : ProgramHeader) (image : Buffer) (len : ℕ) (ram : Buffer)
    → IsLoadable len p
    → page + 4096 < 2 ^ 32
    → len < 2 ^ 32
    → (ram' : Buffer) × (elf_fill_page_frame frame page p image len ram ≡ (true, ram'))
      × Fills frame page p image ram ram'
unfolding elf_fill_page_frame
elf_fill_page_frame-Fills frame page p image len ram h fits word =
    let cleared = memory_set ram frame 0 4096 in
    let byte = get8-memory_set ram frame 0 4096 in
    let (a, b) : (ltb (add32 p.p_vaddr p.p_filesz) p.p_vaddr ≡ false)
        × (ltb (add32 page 4096) page ≡ false) =
      (ge→not_ltb _ _ (omega (arith, h.sizes, h.in_space)), ge→not_ltb _ _ (omega arith)) in
    let (ram', e, f) =
      copy_page-Fills frame page p image len h fits word cleared
        (λ k q. byte (frame + k) ∙ ground arith) in
    (
      ram',
      rw (a, b) e,
      record { bytes = f.bytes; outside = λ x o. f.outside x o ∙ byte x ∙ ground (arith, o) },
    )
