-- ===== src/Elf/Checks.antt =====
-- What the checks of elf/elf.c accept.
use yoz_os.Base.{
  ℕ, zero, suc, ◌+◌, ◌*◌, ◌%◌, ◌^◌, ◌<◌, ◌≤◌, ◌≡◌, ◌≢◌, ◌↔◌, refl, sym, arith, ◌==◌, true,
  Bool-cases, some, inl, inr, ℕ_discrete, subst,
}
use yoz_os.Disk.{Buffer, add32}
use yoz_os.Elf.{
  ProgramHeader, pt_load, phdr_size, e_phoff, e_phnum, e_phentsize, header_at, header_offset,
  elf32_program_header, ehdr_ok, elf32_header_ok, load_ok, round_ok, headers_ok,
  elf32_program_headers_ok,
}

-- A segment whose bytes lie in an image of `len` bytes, and whose addresses do not wrap.
pub record IsLoadable (len : ℕ) (p : ProgramHeader) : Type 0 where
  pub sizes : (p.p_filesz ≤ p.p_memsz) × (0 < p.p_memsz)
  pub in_file : p.p_offset + p.p_filesz ≤ len
  pub in_space : (0 < p.p_vaddr) × (p.p_vaddr + p.p_memsz < 2 ^ 32)
  pub has_access : p.p_flags % 8 ≢ 0

-- The fields of a header are words.
pub record IsWords (p : ProgramHeader) : Type 0 where
  pub offset : p.p_offset < 2 ^ 32
  pub vaddr : p.p_vaddr < 2 ^ 32
  pub filesz : p.p_filesz < 2 ^ 32
  pub memsz : p.p_memsz < 2 ^ 32

pub header-IsWords : (image : Buffer) (i : ℕ) → IsWords (elf32_program_header image i)
unfolding elf32_program_header header_at
header-IsWords image i = omega arith

pub load_ok_iff :
    (p : ProgramHeader) (len : ℕ)
    → IsWords p
    → len < 2 ^ 32
    → (load_ok p len ≡ true) ↔ IsLoadable len p
unfolding load_ok
load_ok_iff p len w h =
    (λ e. ground arith, λ l. ground (arith, l.sizes, l.in_file, l.in_space, l.has_access))

-- What a round of the loop asks of header `i`.
pub record Passes (image : Buffer) (len i : ℕ) : Type 0 where
  pub inside : add32 (header_offset image i) phdr_size ≤ len
  pub loads :
      (elf32_program_header image i).p_type ≡ pt_load
      → IsLoadable len (elf32_program_header image i)

round_ok_iff :
    (image : Buffer) (len i : ℕ) → len < 2 ^ 32 → (round_ok image len i ≡ true) ↔ Passes image len i
unfolding round_ok
round_ok_iff image len i h = (
  λ e. record { inside = ground arith; loads = λ t. l.0 (ground arith) },
  λ p. elim (Bool-cases ((elf32_program_header image i).p_type == pt_load)) [
    | inl t ↦ ground (arith, p.inside, l.1 (p.loads (ground arith)))
    | inr t ↦ ground (arith, p.inside)
  ],
)
  where
    l :
        (load_ok (elf32_program_header image i) len ≡ true)
        ↔ IsLoadable len (elf32_program_header image i)
    l = load_ok_iff (elf32_program_header image i) len (header-IsWords image i) h

headers_ok_iff :
    (rounds i : ℕ) (image : Buffer) (len : ℕ)
    → len < 2 ^ 32
    → (headers_ok rounds i image len ≡ true)
      ↔ ((j : ℕ) → i ≤ j → j < i + rounds → Passes image len j)
unfolding headers_ok
headers_ok_iff zero i image len h = (λ e j p q. absurd (omega arith), λ a. refl)
headers_ok_iff (suc rounds) i image len h = (
  λ e j p q. elim (ℕ_discrete j i) [
    | yes s ↦ subst (Passes image len) (sym s) ((round_ok_iff image len i h).0 (ground arith))
    | no ne ↦
        (headers_ok_iff rounds (i + 1) image len h).0 (ground arith) j (omega arith) (omega arith)
  ],
  λ a.
      let this = (round_ok_iff image len i h).1 (a i (omega arith) (omega arith)) in
      let others =
        (headers_ok_iff rounds (i + 1) image len h).1 λ j p q. a j (omega arith) (omega arith) in
      rw (this, others),
)

-- `elf32_program_headers_ok` accepts an image exactly where `elf32_header_ok` does and each of its
-- `e_phnum` program headers ends in the file, as u32 addition tells, and, if it is of type PT_LOAD,
-- has its bytes in the file, no more of them than in memory, at least one byte in memory, addresses
-- that do not start at 0 nor wrap, and an access right.
pub elf32_program_headers_ok_iff :
    (image : Buffer) (len : ℕ)
    → len < 2 ^ 32
    → (elf32_program_headers_ok (some image) len ≡ true) ↔ (
        (elf32_header_ok (some image) len ≡ true)
        × ((i : ℕ) → i < e_phnum image → Passes image len i))
unfolding elf32_program_headers_ok
elf32_program_headers_ok_iff image len h = (
  λ e. (ground arith, λ i q. loop.0 (ground arith) i (omega arith) (omega arith)),
  λ a. rw (a.0, loop.1 λ j p q. a.1 j (omega arith)),
)
  where
    loop :
        (headers_ok (e_phnum image) 0 image len ≡ true)
        ↔ ((j : ℕ) → 0 ≤ j → j < 0 + e_phnum image → Passes image len j)
    loop = headers_ok_iff (e_phnum image) 0 image len h

next_multiple-le : (i n size : ℕ) → i < n → i * size + size ≤ n * size
next_multiple-le i n size h = grind arith

-- Where the table of an accepted image does not wrap in u32, each header lies in the file as
-- numbers: nothing outside of the image is read.
pub elf32_program_headers_ok-inside :
    (image : Buffer) (len i : ℕ)
    → len + phdr_size < 2 ^ 32
    → e_phoff image + e_phnum image * e_phentsize image < 2 ^ 32
    → elf32_program_headers_ok (some image) len ≡ true
    → i < e_phnum image
    → e_phoff image + i * e_phentsize image + phdr_size ≤ len
unfolding elf32_header_ok ehdr_ok header_offset
elf32_program_headers_ok-inside image len i h w e q =
    omega (arith, inside, start, next_multiple-le i (e_phnum image) (e_phentsize image) q)
  where
    parts :
        (elf32_header_ok (some image) len ≡ true)
        × ((j : ℕ) → j < e_phnum image → Passes image len j)
    parts = (elf32_program_headers_ok_iff image len (omega arith)).0 e

    start : e_phoff image + e_phnum image * e_phentsize image ≤ len
    start = ground (arith, parts.0)

    inside : add32 (add32 (e_phoff image) (i * e_phentsize image)) phdr_size ≤ len
    inside = (parts.1 i q).inside
