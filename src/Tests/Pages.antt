-- ===== src/Tests/Pages.antt =====
-- The theorems on address spaces and ELF images at small inputs.
use yoz_os.Base.{
  ℕ, ◌+◌, ◌*◌, ◌<◌, ◌≤◌, ◌≡◌, ◌↔◌, refl, arith, true, some, [], ◌∷◌, get_or, ◌==◌, if◌then◌else◌,
}
use yoz_os.Disk.{Buffer}
use yoz_os.Elf.{
  ProgramHeader, e_phnum, e_phoff, e_phentsize, elf32_header_ok, elf32_program_headers_ok, ehdr_ok,
  has_magic, headers_ok, round_ok, load_ok, elf32_program_header, header_at, header_offset,
}
use yoz_os.Elf.Checks.{
  IsLoadable, Passes, elf32_program_headers_ok_iff, elf32_program_headers_ok-inside,
}
use yoz_os.Memory.Frames.{test_frame, has_bit}
use yoz_os.Memory.Paging.{Paging, user, address_space_map_page}
use yoz_os.Memory.Paging.Tables.{IsTables}
use yoz_os.Memory.Paging.Map.{MapsOrKeeps, address_space_map_page-MapsOrKeeps}
use yoz_os.User.Page.{elf_fill_page_frame}
use yoz_os.User.Filled.{Fills, elf_fill_page_frame-Fills}
use yoz_os.Tests.Machine.{paging}

-- A header and one program header, of 16 bytes at 0x08048000 that may be read and run.
abbrev image : Buffer
image i =
    get_or
      (0x7f ∷ b'E' ∷ b'L' ∷ b'F' ∷ 1 ∷ 1 ∷ 1 ∷ 0 ∷ 0 ∷ 0 ∷ 0 ∷ 0 ∷ 0 ∷ 0 ∷ 0 ∷ 0 ∷ 2 ∷ 0 ∷ 3 ∷ 0 ∷ 1
        ∷ 0 ∷ 0 ∷ 0 ∷ 0 ∷ 0x80 ∷ 4 ∷ 8 ∷ 52 ∷ 0 ∷ 0 ∷ 0 ∷ 0 ∷ 0 ∷ 0 ∷ 0 ∷ 0 ∷ 0 ∷ 0 ∷ 0 ∷ 52 ∷ 0
        ∷ 32 ∷ 0 ∷ 1 ∷ 0 ∷ 0 ∷ 0 ∷ 0 ∷ 0 ∷ 0 ∷ 0 ∷ 1 ∷ 0 ∷ 0 ∷ 0 ∷ 84 ∷ 0 ∷ 0 ∷ 0 ∷ 0 ∷ 0x80 ∷ 4 ∷ 8
        ∷ 0 ∷ 0x80 ∷ 4 ∷ 8 ∷ 16 ∷ 0 ∷ 0 ∷ 0 ∷ 16 ∷ 0 ∷ 0 ∷ 0 ∷ 5 ∷ 0 ∷ 0 ∷ 0 ∷ 0 ∷ 0x10 ∷ 0 ∷ 0
        ∷ [])
      i 0

accepted : elf32_program_headers_ok (some image) 100 ≡ true
unfolding elf32_program_headers_ok elf32_header_ok ehdr_ok has_magic headers_ok round_ok load_ok
    elf32_program_header header_at header_offset
accepted = refl

elf32_program_headers_ok_iff_example : (elf32_program_headers_ok (some image) 100 ≡ true) ↔ (
    (elf32_header_ok (some image) 100 ≡ true) × ((i : ℕ) → i < e_phnum image → Passes image 100 i))
elf32_program_headers_ok_iff_example = elf32_program_headers_ok_iff image 100 (omega arith)

elf32_program_headers_ok-inside_example : e_phoff image + 0 * e_phentsize image + 32 ≤ 100
elf32_program_headers_ok-inside_example =
    elf32_program_headers_ok-inside image 100 0 (omega arith) (omega arith) accepted (omega arith)

-- The same image with the program headers at 2 ^ 32 - 32, from where the sums wrap to 0: it passes
-- the check of the header.
abbrev wrapped : Buffer
wrapped i =
    if i == 28
    then 0xe0
    else if i == 29
    then 0xff
    else if i == 30
    then 0xff
    else if i == 31
    then 0xff
    else image i

wrapped_accepted : elf32_header_ok (some wrapped) 100 ≡ true
unfolding elf32_header_ok ehdr_ok has_magic
wrapped_accepted = refl

abbrev text : ProgramHeader
text = record {
  p_type = 1;
  p_offset = 84;
  p_vaddr = 0x8048000;
  p_filesz = 16;
  p_memsz = 16;
  p_flags = 5;
}

text-IsLoadable : IsLoadable 100 text
text-IsLoadable = record {
  sizes = omega arith;
  in_file = omega arith;
  in_space = omega arith;
  has_access = λ e. absurd (omega arith);
}

elf_fill_page_frame-Fills_example :
    (ram' : Buffer) × (elf_fill_page_frame 0x100000 0x8048000 text image 100 (λ _. 7)
      ≡ (true, ram'))
    × Fills 0x100000 0x8048000 text image (λ _. 7) ram'
elf_fill_page_frame-Fills_example =
    elf_fill_page_frame-Fills 0x100000 0x8048000 text image 100 (λ _. 7) text-IsLoadable
      (omega arith) (omega arith)

-- A space with an empty directory at 0x2000.
abbrev empty : Paging
empty = record paging { ram = λ _. 0 }

zero_used : test_frame empty.frames 0 ≡ true
unfolding test_frame has_bit
zero_used = refl

directory_used : test_frame empty.frames 2 ≡ true
unfolding test_frame has_bit
directory_used = refl

empty-IsTables : IsTables empty.ram empty.frames 0x2000
empty-IsTables = record {
  aligned = omega arith;
  owned = directory_used;
  tables = λ i h p. absurd cc;
  distinct = λ i j h k p q e. absurd cc;
}

address_space_map_page-MapsOrKeeps_example :
    MapsOrKeeps 0x2000 0x70000 0x9000 6 empty
      (address_space_map_page (some (user 0)) 0x70000 0x9000 6 empty)
address_space_map_page-MapsOrKeeps_example =
    address_space_map_page-MapsOrKeeps (user 0) 0x70000 0x9000 6 empty (omega arith) (omega arith)
      (omega arith) empty-IsTables zero_used
