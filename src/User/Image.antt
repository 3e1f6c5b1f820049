-- ===== src/User/Image.antt =====
-- The pages of a process of cpu/user_mode.c: its stack, and the image of a flat binary.
use yoz_os.Base.{
  ℕ, zero, suc, ◌+◌, ◌-◌, ◌*◌, ◌/◌, ◌==◌, ◌||◌, not, ltb, leb, if◌then◌else◌, Bool, true, false,
  Option, none, some, [], ◌∷◌, ◌++◌,
}
use yoz_os.Disk.{Buffer, get32, memory_copy, memory_set, add32}
use yoz_os.Memory.Frames.{frame_size, alloc_frame, free_frame}
use yoz_os.Memory.Paging.{Paging, page_rw, page_user, set_frames, set_ram, address_space_map_page}
use yoz_os.User.Store.{
  Region, Program, Machine, process_at, set_process, set_paging, and_next, stack_top_addr,
  region_read, region_write, region_exec,
}
use yoz_os.User.Table.{space_of}
use yoz_os.User.Stack.{StackState, stack_base, build_stack}

-- USER_LOAD_ADDR, USER_LOAD_MAX_BYTES, USER_BIN_HEADER_SIZE, USER_MAX_IMAGE_FRAMES.
abbrev pub load_addr : ℕ
load_addr = 0x70000

abbrev pub load_max_bytes : ℕ
load_max_bytes = 8192

abbrev pub bin_header_size : ℕ
bin_header_size = 16

abbrev pub max_image_frames : ℕ
max_image_frames = 2

-- The checks of `user_binary_header_ok` behind the length.
unfoldable pub header_ok : (image : Buffer) → (loaded_len : ℕ) → Bool
header_ok image loaded_len =
    let entry_offset = get32 image 8 in
    let image_size = get32 image 12 in
    if not (get32 image 0 == 0x315a4f59)
    then false
    else if ltb image_size bin_header_size || ltb load_max_bytes image_size
    then false
    else not (
        not (get32 image 4 == load_addr)
        || not (image_size == loaded_len)
        || ltb entry_offset bin_header_size
        || leb loaded_len entry_offset)

-- `user_binary_header_ok`: the entry, where the header is good.
unfoldable pub user_binary_header_ok : (image : Buffer) → (loaded_len : ℕ) → Option ℕ
unfolding header_ok
user_binary_header_ok image loaded_len =
    if ltb loaded_len bin_header_size
    then none
    else if header_ok image loaded_len
    then some (add32 load_addr (get32 image 8))
    else none

-- The region of the stack.
abbrev pub stack_region : Region
stack_region = record { start = stack_base; len = frame_size; flags = region_read + region_write }

-- `build_loaded_user_program`.
abbrev pub loaded_program : (loaded_len entry : ℕ) → Program
loaded_program loaded_len entry = record {
  entry = entry;
  stack_top = stack_top_addr;
  regions =
      record {
        start = load_addr;
        len = loaded_len;
        flags = region_read + region_write + region_exec;
      }
      ∷ stack_region
      ∷ [];
}

-- A frame goes back where its page could not be mapped.
abbrev pub keep_frame : (frame : ℕ) → Bool × Paging → Bool × Paging
keep_frame frame (true, s) = (true, s)
keep_frame frame (false, s) = (false, set_frames s (free_frame frame s.frames))

-- `user_process_map_stack` with the frame.
unfoldable pub map_stack_frame : (i frame : ℕ) → Machine → Bool × Machine
map_stack_frame i frame m =
    let p = process_at m i in
    let cleared = set_ram m.paging (memory_set m.paging.ram frame 0 frame_size) in
    let flags = page_rw + page_user in
    let (ok, s) =
      keep_frame frame
        (address_space_map_page (space_of p.address_space) stack_base frame flags cleared) in
    let mapped = set_paging m s in
    if ok
    then (true, set_process mapped i (record p { user_stack_frame = frame }))
    else (false, mapped)

-- What `alloc_frame` gives: its result, and the machine.
abbrev pub take_frame : Machine → ℕ × Machine
take_frame m =
    let (frame, frames) = alloc_frame m.paging.frames in
    (frame, set_paging m (set_frames m.paging frames))

-- A step with a new frame, which fails where there is none.
abbrev pub with_frame : (ℕ → Machine → Bool × Machine) → ℕ × Machine → Bool × Machine
with_frame k (frame, m) = if frame == 0 then (false, m) else k frame m

unfoldable pub user_process_map_stack : (i : ℕ) → Machine → Bool × Machine
unfolding map_stack_frame
user_process_map_stack i m = with_frame (map_stack_frame i) (take_frame m)

-- A round of `user_process_map_loaded_image` with the frame of page `k`.
unfoldable pub map_image_frame : (i image len k frame : ℕ) → Machine → Bool × Machine
map_image_frame i image len k frame m =
    let p = process_at m i in
    let cleared = memory_set m.paging.ram frame 0 frame_size in
    let remaining = len - k * frame_size in
    let copy_len = if ltb frame_size remaining then frame_size else remaining in
    let copied = memory_copy cleared (image + k * frame_size) cleared frame copy_len in
    let (ok, s) = keep_frame frame (
      address_space_map_page (space_of p.address_space) (load_addr + k * frame_size) frame
        (page_rw + page_user) (set_ram m.paging copied)) in
    let mapped = set_paging m s in
    if ok
    then (true, set_process mapped i (record p { image_frames = p.image_frames ++ frame ∷ [] }))
    else (false, mapped)

unfoldable pub map_image_pages : (rounds i image len k : ℕ) → Machine → Bool × Machine
unfolding map_image_frame
map_image_pages zero i image len k m = (true, m)
map_image_pages (suc rounds) i image len k m =
    and_next (with_frame (map_image_frame i image len k) (take_frame m))
      (λ m'. map_image_pages rounds i image len (k + 1) m')

-- The image is staged at `image`.
unfoldable pub user_process_map_loaded_image : (i image len : ℕ) → Machine → Bool × Machine
unfolding map_image_pages
user_process_map_loaded_image i image len m =
    let pages = add32 len (frame_size - 1) / frame_size in
    if pages == 0 || ltb max_image_frames pages
    then (false, m)
    else map_image_pages pages i image len 0 m

-- `user_process_build_initial_stack`.
abbrev pub finish_stack : (i : ℕ) → Machine → Bool × StackState → Bool × Machine
finish_stack i m (false, st) = (false, set_paging m (set_ram m.paging st.ram))
finish_stack i m (true, st) =
    let p = process_at m i in
    (
      true,
      set_process (set_paging m (set_ram m.paging st.ram)) i (record p { stack_entry = st.sp }),
    )

unfoldable pub user_process_build_initial_stack : (i : ℕ) → Machine → Bool × Machine
unfolding build_stack
user_process_build_initial_stack i m =
    let p = process_at m i in finish_stack i m (build_stack p.user_stack_frame p.argv m.paging.ram)
