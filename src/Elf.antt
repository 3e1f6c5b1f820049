-- ===== src/Elf.antt =====
-- elf/elf.c: the fields of an ELF image, and its two checks. An image is the buffer behind the
-- pointer, `none` for the null one; a field is read where the packed structs have it.
pub mod Checks
use yoz_os.Base.{
  ℕ, zero, suc, ◌+◌, ◌*◌, ◌%◌, ◌^◌, ◌&&◌, ◌||◌, Bool, true, false, not, Option, none, some, ltb,
  ◌==◌, if◌then◌else◌,
}
use yoz_os.Disk.{Buffer, get8, get16, get32, add32}

-- The sizes of `elf32_ehdr_t` and `elf32_phdr_t`.
abbrev pub ehdr_size : ℕ
ehdr_size = 52

abbrev pub phdr_size : ℕ
phdr_size = 32

-- PT_LOAD, PF_X, PF_W.
abbrev pub pt_load : ℕ
pt_load = 1

abbrev pub pf_x : ℕ
pf_x = 1

abbrev pub pf_w : ℕ
pf_w = 2

-- The fields of `elf32_ehdr_t` that the code reads.
abbrev pub e_type : Buffer → ℕ
e_type image = get16 image 16

abbrev pub e_machine : Buffer → ℕ
e_machine image = get16 image 18

abbrev pub e_entry : Buffer → ℕ
e_entry image = get32 image 24

abbrev pub e_phoff : Buffer → ℕ
e_phoff image = get32 image 28

abbrev pub e_phentsize : Buffer → ℕ
e_phentsize image = get16 image 42

abbrev pub e_phnum : Buffer → ℕ
e_phnum image = get16 image 44

-- `elf32_phdr_t`, without `p_paddr` and `p_align`, which nothing reads.
pub record ProgramHeader : Type 0 where
  pub p_type : ℕ
  pub p_offset : ℕ
  pub p_vaddr : ℕ
  pub p_filesz : ℕ
  pub p_memsz : ℕ
  pub p_flags : ℕ

-- `(elf32_phdr_t *)(image + off)`.
unfoldable pub header_at : Buffer → ℕ → ProgramHeader
header_at image off = record {
  p_type = get32 image off;
  p_offset = get32 image (off + 4);
  p_vaddr = get32 image (off + 8);
  p_filesz = get32 image (off + 16);
  p_memsz = get32 image (off + 20);
  p_flags = get32 image (off + 24);
}

-- The offset of program header `index`, in u32.
unfoldable pub header_offset : Buffer → ℕ → ℕ
header_offset image index = add32 (e_phoff image) (index * e_phentsize image)

unfoldable pub elf32_program_header : Buffer → ℕ → ProgramHeader
unfolding header_at header_offset
elf32_program_header image index = header_at image (header_offset image index)

unfoldable pub has_magic : Buffer → Bool
has_magic image =
    (get8 image 0 == 0x7f)
    && (get8 image 1 == b'E')
    && (get8 image 2 == b'L')
    && (get8 image 3 == b'F')

-- `elf32_header_ok` with the image at hand.
unfoldable pub ehdr_ok : Buffer → (len : ℕ) → Bool
unfolding has_magic
ehdr_ok image len =
    if ltb len ehdr_size
    then false
    else if not (has_magic image)
    then false
    else if not (get8 image 4 == 1)
    then false
    else if not (get8 image 5 == 1)
    then false
    else if not (e_type image == 2)
    then false
    else if not (e_machine image == 3)
    then false
    else if e_phoff image == 0
    then false
    else if e_phnum image == 0
    then false
    else if e_phentsize image == 0
    then false
    else not (ltb len (add32 (e_phoff image) (e_phnum image * e_phentsize image)))

unfoldable pub elf32_header_ok : Option Buffer → (len : ℕ) → Bool
unfolding ehdr_ok
elf32_header_ok none len = false
elf32_header_ok (some image) len = ehdr_ok image len

-- The checks of the loop of `elf32_program_headers_ok` on a header of type PT_LOAD.
unfoldable pub load_ok : ProgramHeader → (len : ℕ) → Bool
load_ok p len =
    if ltb p.p_memsz p.p_filesz
    then false
    else if ltb (add32 p.p_offset p.p_filesz) p.p_offset
    then false
    else if ltb len (add32 p.p_offset p.p_filesz)
    then false
    else if p.p_memsz == 0
    then false
    else if p.p_vaddr == 0
    then false
    else if ltb (add32 p.p_vaddr p.p_memsz) p.p_vaddr
    then false
    else not (p.p_flags % 8 == 0)

-- One round of that loop: whether header `i` passes.
unfoldable pub round_ok : Buffer → (len i : ℕ) → Bool
unfolding header_offset load_ok elf32_program_header
round_ok image len i =
    let p = elf32_program_header image i in
    if ltb len (add32 (header_offset image i) phdr_size)
    then false
    else if not (p.p_type == pt_load)
    then true
    else load_ok p len

-- The loop itself, with `rounds` headers left from `i` on.
unfoldable pub headers_ok : (rounds i : ℕ) → Buffer → (len : ℕ) → Bool
unfolding round_ok
headers_ok zero i image len = true
headers_ok (suc rounds) i image len =
    let rest = headers_ok rounds (i + 1) image len in if round_ok image len i then rest else false

unfoldable pub elf32_program_headers_ok : Option Buffer → (len : ℕ) → Bool
unfolding elf32_header_ok
elf32_program_headers_ok none len = false
elf32_program_headers_ok (some image) len =
    if not (elf32_header_ok (some image) len) then false else headers_ok (e_phnum image) 0 image len
