-- ===== src/User/Segments.antt =====
-- The segments of an ELF image in the pages of a process: cpu/user_mode.c from
-- `user_region_flags_from_elf` to `user_map_elf_segments`. The count of the mapped pages, which is
-- only printed, is left out.
use yoz_os.Base.{
  ℕ, zero, suc, ◌+◌, ◌==◌, ◌&&◌, not, ltb, leb, if◌then◌else◌, Bool, true, false, Option, none,
  some, List, [], ◌∷◌, ◌++◌, length, has_flag,
}
use yoz_os.Disk.{Buffer, add32}
use yoz_os.Elf.{
  ProgramHeader, pt_load, pf_x, pf_w, e_entry, e_phnum, elf32_program_header,
  elf32_program_headers_ok,
}
use yoz_os.Memory.Frames.{free_frame}
use yoz_os.Memory.Paging.{page_rw, page_user, set_frames, set_ram, address_space_map_page}
use yoz_os.User.Store.{
  Region, Program, Machine, process_at, set_process, set_paging, and_next_call, stack_top_addr,
  region_read, region_write, region_exec,
}
use yoz_os.User.Table.{space_of}
use yoz_os.User.Page.{page_down, page_up, elf_segment_range_ok, elf_fill_page_frame}
use yoz_os.User.Image.{stack_region, keep_frame, take_frame}

-- USER_MAX_ELF_REGIONS, USER_MAX_ELF_FRAMES.
abbrev pub max_elf_regions : ℕ
max_elf_regions = 8

abbrev pub max_elf_frames : ℕ
max_elf_frames = 16

unfoldable pub user_region_flags_from_elf : (p_flags : ℕ) → ℕ
user_region_flags_from_elf p_flags =
    region_read
    + (if has_flag p_flags pf_w then region_write else 0)
    + (if has_flag p_flags pf_x then region_exec else 0)

-- `elf_count_load_segments`, with `rounds` headers left from `i` on.
unfoldable pub count_loads : (rounds i : ℕ) → Buffer → ℕ
count_loads zero i image = 0
count_loads (suc rounds) i image =
    let rest = count_loads rounds (i + 1) image in
    if (elf32_program_header image i).p_type == pt_load then rest + 1 else rest

unfoldable pub elf_count_load_segments : Buffer → ℕ
unfolding count_loads
elf_count_load_segments image = count_loads (e_phnum image) 0 image

-- A round of `elf_map_segment` behind `elf_fill_page_frame`.
unfoldable pub map_filled : (i va frame page_flags : ℕ) → Machine → Bool × Buffer → Bool × Machine
map_filled i va frame page_flags m (false, ram) =
    let s = set_ram m.paging ram in (false, set_paging m (set_frames s (free_frame frame s.frames)))
map_filled i va frame page_flags m (true, ram) =
    let p = process_at m i in
    let (ok, s) = keep_frame frame (
      address_space_map_page (space_of p.address_space) va frame page_flags
        (set_ram m.paging ram)) in
    let mapped = set_paging m s in
    if ok
    then (true, set_process mapped i (record p { elf_frames = p.elf_frames ++ frame ∷ [] }))
    else (false, mapped)

unfoldable pub map_page_of :
    (i va : ℕ) → ProgramHeader → (image : Buffer) → (image_len : ℕ) → ℕ × Machine → Bool × Machine
unfolding elf_fill_page_frame map_filled
map_page_of i va h image image_len (frame, m) =
    let page_flags = page_user + (if has_flag h.p_flags pf_w then page_rw else 0) in
    let filled = elf_fill_page_frame frame va h image image_len m.paging.ram in
    if frame == 0 then (false, m) else map_filled i va frame page_flags m filled

-- The loop of `elf_map_segment`; `none` where the rounds do not suffice.
unfoldable pub map_pages_from :
    (rounds i va end : ℕ)
    → ProgramHeader
    → (image : Buffer) → (image_len : ℕ) → Machine
    → Option (Bool × Machine)
unfolding map_page_of
map_pages_from zero i va end h image image_len m = none
map_pages_from (suc rounds) i va end h image image_len m =
    if leb end va
    then some (true, m)
    else if leb max_elf_frames (length (process_at m i).elf_frames)
    then some (false, m)
    else and_next_call (some (map_page_of i va h image image_len (take_frame m)))
        (λ m'. map_pages_from rounds i (add32 va 4096) end h image image_len m')

-- One round for each frame that a process can have, and one more.
abbrev pub segment_rounds : ℕ
segment_rounds = max_elf_frames + 1

unfoldable pub elf_map_segment :
    (i : ℕ) → ProgramHeader → (image : Buffer) → (image_len : ℕ) → Machine → Option (Bool × Machine)
elf_map_segment i h image image_len m =
    map_pages_from segment_rounds i (page_down h.p_vaddr) (page_up (add32 h.p_vaddr h.p_memsz)) h
      image image_len m

-- The loop of `elf_entry_in_executable_segment`.
unfoldable pub entry_in_from : (rounds i : ℕ) → Buffer → (entry : ℕ) → Bool
entry_in_from zero i image entry = false
entry_in_from (suc rounds) i image entry =
    let p = elf32_program_header image i in
    let rest = entry_in_from rounds (i + 1) image entry in
    if not (p.p_type == pt_load)
    then rest
    else if not (has_flag p.p_flags pf_x)
    then rest
    else if leb p.p_vaddr entry && ltb entry (add32 p.p_vaddr p.p_memsz)
    then true
    else rest

unfoldable pub elf_entry_in_executable_segment : Buffer → (entry : ℕ) → Bool
unfolding entry_in_from
elf_entry_in_executable_segment image entry = entry_in_from (e_phnum image) 0 image entry

abbrev pub set_regions : (i : ℕ) → List Region → Machine → Machine
set_regions i rs m = set_process m i (record (process_at m i) { elf_regions = rs })

-- The region of a segment.
abbrev pub segment_region : ProgramHeader → Region
segment_region p = record {
  start = p.p_vaddr;
  len = p.p_memsz;
  flags = user_region_flags_from_elf p.p_flags;
}

-- A round of `user_map_elf_segments` behind `elf_map_segment`.
unfoldable pub add_region : (i : ℕ) → ProgramHeader → Bool × Machine → Bool × Machine
unfolding user_region_flags_from_elf
add_region i p (false, m) = (false, m)
add_region i p (true, m) =
    let rs = (process_at m i).elf_regions in
    if leb max_elf_regions (length rs)
    then (false, m)
    else (true, set_regions i (rs ++ segment_region p ∷ []) m)

abbrev pub map_result : {A B : Type 0} → (A → B) → Option A → Option B
map_result f none = none
map_result f (some a) = some (f a)

-- The round for the header `p`.
unfoldable pub map_header :
    (i : ℕ) → ProgramHeader → (image : Buffer) → (image_len : ℕ) → Machine → Option (Bool × Machine)
unfolding elf_map_segment add_region
map_header i p image image_len m =
    if not (p.p_type == pt_load)
    then some (true, m)
    else if not (elf_segment_range_ok p)
    then some (false, m)
    else map_result (add_region i p) (elf_map_segment i p image image_len m)

unfoldable pub map_headers :
    (rounds k i : ℕ) → (image : Buffer) → (image_len : ℕ) → Machine → Option (Bool × Machine)
unfolding map_header
map_headers zero k i image image_len m = some (true, m)
map_headers (suc rounds) k i image image_len m =
    and_next_call (map_header i (elf32_program_header image k) image image_len m)
      (λ m'. map_headers rounds (k + 1) i image image_len m')

-- The end of `user_map_elf_segments`: the region of the stack, and the program. There is a region
-- for each segment that is mapped.
unfoldable pub set_program : (i : ℕ) → Buffer → Bool × Machine → Bool × Machine
set_program i image (false, m) = (false, m)
set_program i image (true, m) =
    let rs = (process_at m i).elf_regions in
    let all = rs ++ stack_region ∷ [] in
    let program : Program = record {
      entry = e_entry image;
      stack_top = stack_top_addr;
      regions = all;
    } in
    let m' = set_regions i all m in
    if length rs == 0
    then (false, m)
    else if leb max_elf_regions (length rs)
    then (false, m)
    else (true, set_process m' i (record (process_at m' i) { program = some program }))

unfoldable pub user_map_elf_segments :
    (i : ℕ) → (image : Buffer) → (image_len : ℕ) → Machine → Option (Bool × Machine)
unfolding map_headers set_program elf_entry_in_executable_segment
user_map_elf_segments i image image_len m =
    let start = set_regions i [] m in
    if not (elf32_program_headers_ok (some image) image_len)
    then some (false, m)
    else if not (elf_entry_in_executable_segment image (e_entry image))
    then some (false, start)
    else map_result (set_program i image) (map_headers (e_phnum image) 0 i image image_len start)
