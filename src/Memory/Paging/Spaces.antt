-- ===== src/Memory/Paging/Spaces.antt =====
-- memory/paging.c: the creation, the end and the switch of an address space.
use yoz_os.Base.{ℕ, zero, suc, ◌+◌, ◌-◌, ◌==◌, if◌then◌else◌, Option, none, some, has_flag}
use yoz_os.Disk.{memory_copy, memory_set}
use yoz_os.Memory.Frames.{Bitmap, frame_size, alloc_frame, free_frame}
use yoz_os.Memory.Paging.{
  page_present, page_entries, max_address_spaces, page_addr, Space, kernel, user, Paging, space_at,
  set_space, set_ram, set_frames, page_entry, set_page_entry, table_entry,
}

-- The low table of space `i` is there: it is a copy of the kernel's.
unfoldable pub fill_space : (i directory : ℕ) → Paging → (table : ℕ) → Paging
fill_space i directory s table =
    let cleared = memory_set s.ram table 0 frame_size in
    let copied = memory_copy cleared s.kernel_space.low_page_table cleared table frame_size in
    let filled = set_ram s (set_page_entry copied directory 0 (table_entry table)) in
    set_space filled (user i) (record { page_directory = directory; low_page_table = table })

-- Space `i` has its directory; behind the allocation of its low table.
unfoldable pub create_table : (i directory : ℕ) → Paging → ℕ × Bitmap → Option ℕ × Paging
unfolding fill_space
create_table i directory s (table, frames) =
    let low = (s.user_spaces i).low_page_table in
    let undone = set_frames s (free_frame directory frames) in
    if table == 0
    then (none, set_space undone (user i) (record { page_directory = 0; low_page_table = low }))
    else (some i, fill_space i directory (set_frames s frames) table)

-- Behind the allocation of the directory of space `i`.
unfoldable pub create_space : (i : ℕ) → Paging → ℕ × Bitmap → Option ℕ × Paging
unfolding create_table
create_space i s (directory, frames) =
    let cleared = set_ram (set_frames s frames) (memory_set s.ram directory 0 frame_size) in
    if directory == 0
    then (none, set_frames s frames)
    else create_table i directory cleared (alloc_frame frames)

-- The loop of `address_space_create_user`: the first space without a directory.
unfoldable pub free_space : (rounds i : ℕ) → Paging → Option ℕ
free_space zero i s = none
free_space (suc rounds) i s =
    let rest = free_space rounds (i + 1) s in
    if (s.user_spaces i).page_directory == 0 then some i else rest

unfoldable pub create_in : Paging → Option ℕ → Option ℕ × Paging
unfolding create_space
create_in s none = (none, s)
create_in s (some i) = create_space i s (alloc_frame s.frames)

-- The space that it takes, by its number.
unfoldable pub address_space_create_user : Paging → Option ℕ × Paging
unfolding create_in
address_space_create_user s = create_in s (free_space max_address_spaces 0 s)

-- The loop of `address_space_destroy`: the tables of the entries from `i` on are freed.
unfoldable pub free_tables : (rounds i directory : ℕ) → Paging → Paging
free_tables zero i directory s = s
free_tables (suc rounds) i directory s =
    let pde = page_entry s.ram directory i in
    let freed : Paging = record s {
      ram = set_page_entry s.ram directory i 0;
      frames = free_frame (page_addr pde) s.frames;
    } in
    free_tables rounds (i + 1) directory (if has_flag pde page_present then freed else s)

-- A frame goes back unless its address is null.
abbrev pub free_some : ℕ → Paging → Paging
free_some addr s = if addr == 0 then s else set_frames s (free_frame addr s.frames)

unfoldable pub address_space_destroy : Option Space → Paging → Paging
unfolding free_tables
address_space_destroy none s = s
address_space_destroy (some kernel) s = s
address_space_destroy (some (user i)) s =
    let a = s.user_spaces i in
    let tables = free_tables (page_entries - 1) 1 a.page_directory s in
    let emptied = if a.page_directory == 0 then s else tables in
    let freed = free_some a.page_directory (free_some a.low_page_table emptied) in
    set_space freed (user i) (record { page_directory = 0; low_page_table = 0 })

unfoldable pub address_space_switch : Option Space → Paging → Paging
address_space_switch none s = s
address_space_switch (some a) s =
    if (space_at s a).page_directory == 0 then s else record s { current_space = some a }
