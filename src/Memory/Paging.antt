-- ===== src/Memory/Paging.antt =====
-- memory/paging.c: the address spaces, and the tables that they keep in frames of the memory. The
-- kernel reaches a frame at its own address. `load_page_directory` and `enable_paging` are
-- assembly: which space is current is in the state.
pub mod Entries
pub mod Spaces
pub mod Pages
pub mod Tables
pub mod Added
pub mod Map
use yoz_os.Base.{
  ℕ, zero, suc, ◌+◌, ◌-◌, ◌*◌, ◌/◌, ◌%◌, ◌^◌, ◌==◌, ◌||◌, not, ltb, if◌then◌else◌, Bool, true,
  false, Option, none, some, has_flag,
}
use yoz_os.Disk.{Buffer, get32, put32, memory_copy, memory_set, add32}
use yoz_os.Memory.Frames.{Bitmap, frame_size, alloc_frame, free_frame}
use yoz_os.Memory.Words.{or32}

-- PAGE_PRESENT, PAGE_RW, PAGE_USER, PAGE_ENTRIES, MAX_ADDRESS_SPACES.
abbrev pub page_present : ℕ
page_present = 1

abbrev pub page_rw : ℕ
page_rw = 2

abbrev pub page_user : ℕ
page_user = 4

abbrev pub page_entries : ℕ
page_entries = 1024

abbrev pub max_address_spaces : ℕ
max_address_spaces = 8

-- `x & PAGE_ADDR_MASK`.
abbrev pub page_addr : ℕ → ℕ
page_addr x = x / 4096 * 4096

-- `address_space_t`: two addresses, 0 for null.
pub record AddressSpace : Type 0 where
  pub page_directory : ℕ
  pub low_page_table : ℕ

-- An `address_space_t *` that is not null: `&kernel_space` or `&user_spaces[i]`.
pub data Space : Type 0 where
  kernel : Space
  user : ℕ → Space

-- The memory, the frames and the static variables.
pub record Paging : Type 0 where
  pub ram : Buffer
  pub frames : Bitmap
  pub kernel_space : AddressSpace
  pub user_spaces : ℕ → AddressSpace
  pub current_space : Option Space

abbrev pub space_at : Paging → Space → AddressSpace
space_at s kernel = s.kernel_space
space_at s (user i) = s.user_spaces i

abbrev pub set_space : Paging → Space → AddressSpace → Paging
set_space s kernel a = record s { kernel_space = a }
set_space s (user i) a = record s { user_spaces = λ j. if j == i then a else s.user_spaces j }

abbrev pub set_ram : Paging → Buffer → Paging
set_ram s ram = record s { ram = ram }

abbrev pub set_frames : Paging → Bitmap → Paging
set_frames s frames = record s { frames = frames }

-- `address_space_page_directory`.
unfoldable pub address_space_page_directory : Option Space → Paging → ℕ
address_space_page_directory none s = 0
address_space_page_directory (some a) s = (space_at s a).page_directory

-- `pd_index` and `pt_index` of an address, and an entry of a table.
abbrev pub pd_index : ℕ → ℕ
pd_index virt = virt / 2 ^ 22

abbrev pub pt_index : ℕ → ℕ
pt_index virt = virt / 2 ^ 12 % 1024

abbrev pub page_entry : Buffer → (table i : ℕ) → ℕ
page_entry ram table i = get32 ram (table + 4 * i)

abbrev pub set_page_entry : Buffer → (table i v : ℕ) → Buffer
set_page_entry ram table i v = put32 ram (table + 4 * i) v

-- Whether both flags that `address_space_user_pages_ok` tests are set.
abbrev pub is_user : ℕ → Bool
is_user e =
    if not (has_flag e page_present)
    then false
    else if not (has_flag e page_user)
    then false
    else true

-- The two entries that a round of that function reads.
unfoldable pub page_ok : Buffer → (directory addr : ℕ) → Bool
page_ok ram directory addr =
    let pde = page_entry ram directory (pd_index addr) in
    if not (is_user pde) then false else is_user (page_entry ram (page_addr pde) (pt_index addr))

-- The loop of `address_space_user_pages_ok`; `none` where the rounds do not suffice.
unfoldable pub pages_ok : (rounds : ℕ) → Buffer → (directory last addr : ℕ) → Option Bool
unfolding page_ok
pages_ok zero ram directory last addr = none
pages_ok (suc rounds) ram directory last addr =
    let rest = pages_ok rounds ram directory last (addr + frame_size) in
    if not (page_ok ram directory addr)
    then some false
    else if addr == last
    then some true
    else if ltb (0xffffffff - frame_size) addr
    then some false
    else rest

-- The last address of a range of `len` bytes, in u32.
abbrev pub range_end : (ptr len : ℕ) → ℕ
range_end ptr len = (ptr + len + (2 ^ 32 - 1)) % 2 ^ 32

-- One round for each page of the space.
abbrev pub page_rounds : ℕ
page_rounds = 1048577

unfoldable pub address_space_user_pages_ok : Option Space → (ptr len : ℕ) → Paging → Option Bool
address_space_user_pages_ok none ptr len s = some false
address_space_user_pages_ok (some a) ptr len s =
    let directory = (space_at s a).page_directory in
    let end = range_end ptr len in
    if directory == 0
    then some false
    else if len == 0
    then some true
    else if ltb end ptr
    then some false
    else pages_ok page_rounds s.ram directory (page_addr end) (page_addr ptr)

unfoldable pub user_pages_ok : (ptr len : ℕ) → Paging → Option Bool
user_pages_ok ptr len s = address_space_user_pages_ok s.current_space ptr len s

-- The end of `address_space_map_page`: the entry goes into the table of `pde`.
unfoldable pub map_in : (pde virt phys flags : ℕ) → Paging → Paging
map_in pde virt phys flags s =
    let e = or32 (or32 (page_addr phys) flags) page_present in
    set_ram s (set_page_entry s.ram (page_addr pde) (pt_index virt) e)

-- `table | PAGE_PRESENT | PAGE_RW | PAGE_USER`.
abbrev pub table_entry : ℕ → ℕ
table_entry table = or32 (or32 (or32 table page_present) page_rw) page_user

-- The part of `address_space_map_page` behind the allocation of a table.
unfoldable pub map_new : (directory virt phys flags : ℕ) → Paging → ℕ × Bitmap → Bool × Paging
unfolding map_in
map_new directory virt phys flags s (table, frames) =
    let cleared = memory_set s.ram table 0 frame_size in
    let ram = set_page_entry cleared directory (pd_index virt) (table_entry table) in
    let pde = page_entry ram directory (pd_index virt) in
    if table == 0
    then (false, set_frames s frames)
    else (true, map_in pde virt phys flags (record s { ram = ram; frames = frames }))

unfoldable pub address_space_map_page :
    Option Space → (virt phys flags : ℕ) → Paging → Bool × Paging
unfolding map_in map_new
address_space_map_page none virt phys flags s = (false, s)
address_space_map_page (some a) virt phys flags s =
    let directory = (space_at s a).page_directory in
    let pde = page_entry s.ram directory (pd_index virt) in
    if directory == 0
    then (false, s)
    else if not (has_flag pde page_present)
    then map_new directory virt phys flags s (alloc_frame s.frames)
    else (true, map_in pde virt phys flags s)

-- `init_paging`: the entries of the low table, `rounds` of them from `i` on.
unfoldable pub fill_table : (rounds i table : ℕ) → Buffer → Buffer
fill_table zero i table ram = ram
fill_table (suc rounds) i table ram =
    let e = or32 (or32 (i * frame_size) page_present) page_rw in
    fill_table rounds (i + 1) table (set_page_entry ram table i e)

unfoldable pub init_paging : Paging → Paging
unfolding fill_table
init_paging s =
    let (directory, frames) = alloc_frame s.frames in
    let cleared = memory_set s.ram directory 0 frame_size in
    let (table, frames') = alloc_frame frames in
    let filled = fill_table page_entries 0 table cleared in
    record s {
      ram = set_page_entry filled directory 0 (table_entry table);
      frames = frames';
      kernel_space = record { page_directory = directory; low_page_table = table };
      current_space = some kernel;
    }

-- `address_space_mark_user_page`.
unfoldable pub address_space_mark_user_page : Option Space → (virt : ℕ) → Paging → Paging
unfolding address_space_map_page
address_space_mark_user_page none virt s = s
address_space_mark_user_page (some a) virt s =
    let directory = (space_at s a).page_directory in
    let pde = page_entry s.ram directory (pd_index virt) in
    let pte = page_entry s.ram (page_addr pde) (pt_index virt) in
    let new_flags = or32 (pte % 4096) page_user in
    if directory == 0
    then s
    else if not (has_flag pde page_present)
    then s
    else if not (has_flag pte page_present)
    then s
    else (address_space_map_page (some a) virt (page_addr pte) new_flags s).1

-- The loop of `address_space_mark_user_range`.
unfoldable pub mark_pages : (rounds : ℕ) → Option Space → (last addr : ℕ) → Paging → Option Paging
unfolding address_space_mark_user_page
mark_pages zero a last addr s = none
mark_pages (suc rounds) a last addr s =
    let s' = address_space_mark_user_page a addr s in
    let rest = mark_pages rounds a last (addr + frame_size) s' in
    if addr == last then some s' else if ltb (0xffffffff - frame_size) addr then some s' else rest

unfoldable pub address_space_mark_user_range :
    Option Space → (start len : ℕ) → Paging → Option Paging
address_space_mark_user_range a start len s =
    let end = range_end start len in
    if len == 0
    then some s
    else if ltb end start
    then some s
    else mark_pages page_rounds a (page_addr end) (page_addr start) s

unfoldable pub mark_user_page : (virt : ℕ) → Paging → Paging
mark_user_page virt s = address_space_mark_user_page s.current_space virt s

unfoldable pub mark_user_range : (start len : ℕ) → Paging → Option Paging
mark_user_range start len s = address_space_mark_user_range s.current_space start len s
