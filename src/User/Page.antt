-- ===== src/User/Page.antt =====
-- One page of an ELF segment: `elf_segment_range_ok` and `elf_fill_page_frame` of cpu/user_mode.c.
use yoz_os.Base.{ℕ, ◌+◌, ◌-◌, ◌*◌, ◌/◌, ◌==◌, ◌&&◌, not, ltb, leb, if◌then◌else◌, Bool, true, false}
use yoz_os.Disk.{Buffer, memory_copy, memory_set, add32}
use yoz_os.Elf.{ProgramHeader, pt_load}
use yoz_os.User.Store.{stack_top_addr}
use yoz_os.User.Stack.{stack_base}

-- `page_down` and `page_up`, in u32.
abbrev pub page_down : ℕ → ℕ
page_down x = x / 4096 * 4096

abbrev pub page_up : ℕ → ℕ
page_up x = add32 x 4095 / 4096 * 4096

unfoldable pub elf_segment_range_ok : ProgramHeader → Bool
elf_segment_range_ok p =
    let seg_end = add32 p.p_vaddr p.p_memsz in
    if not (p.p_type == pt_load)
    then true
    else if p.p_memsz == 0
    then false
    else if ltb p.p_memsz p.p_filesz
    then false
    else if ltb seg_end p.p_vaddr
    then false
    else if ltb (page_up seg_end) p.p_vaddr
    then false
    else not (ltb p.p_vaddr stack_top_addr && ltb stack_base seg_end)

-- `copy_start` and `copy_end` of `elf_fill_page_frame`.
abbrev pub copy_start : (page_vaddr : ℕ) → ProgramHeader → ℕ
copy_start page_vaddr p = if ltb p.p_vaddr page_vaddr then page_vaddr else p.p_vaddr

abbrev pub copy_end : (page_vaddr : ℕ) → ProgramHeader → ℕ
copy_end page_vaddr p =
    let page_end = add32 page_vaddr 4096 in
    let file_end = add32 p.p_vaddr p.p_filesz in
    if ltb page_end file_end then page_end else file_end

-- The bytes of the image that go to the page.
unfoldable pub copy_page :
    (frame page_vaddr : ℕ)
    → ProgramHeader
    → (image : Buffer) → (image_len : ℕ) → Buffer
    → Bool × Buffer
copy_page frame page_vaddr p image image_len ram =
    let start = copy_start page_vaddr p in
    let copy_len = copy_end page_vaddr p - start in
    let file_off = add32 p.p_offset (start - p.p_vaddr) in
    if leb (copy_end page_vaddr p) start
    then (true, ram)
    else if ltb (add32 file_off copy_len) file_off
    then (false, ram)
    else if ltb image_len (add32 file_off copy_len)
    then (false, ram)
    else (true, memory_copy image file_off ram (frame + (start - page_vaddr)) copy_len)

unfoldable pub elf_fill_page_frame :
    (frame page_vaddr : ℕ)
    → ProgramHeader
    → (image : Buffer) → (image_len : ℕ) → Buffer
    → Bool × Buffer
unfolding copy_page
elf_fill_page_frame frame page_vaddr p image image_len ram =
    let cleared = memory_set ram frame 0 4096 in
    if ltb (add32 p.p_vaddr p.p_filesz) p.p_vaddr
    then (false, cleared)
    else if ltb (add32 page_vaddr 4096) page_vaddr
    then (false, cleared)
    else copy_page frame page_vaddr p image image_len cleared
