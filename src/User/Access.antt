-- ===== src/User/Access.antt =====
-- `user_memory_ok` of cpu/user_mode.c, and the memory behind the pointers of a user process, as the
-- address space that is loaded has it.
use yoz_os.Base.{
  ℕ, zero, suc, ◌+◌, ◌%◌, ◌==◌, ◌&&◌, ◌||◌, not, leb, ltb, if◌then◌else◌, Bool, true, false, Option,
  none, some, List, [], ◌∷◌, has_flag, or_default,
}
use yoz_os.Disk.{Buffer, get8, put8, add32}
use yoz_os.Memory.Paging.{
  Paging, user, page_addr, address_space_page_directory, address_space_user_pages_ok, range_end,
  set_ram,
}
use yoz_os.Memory.Paging.Tables.{lookup}
use yoz_os.User.Store.{
  Region, Program, Machine, process_at, set_paging, region_read, region_write, region_exec,
}

-- `(flags & required) == required`, for the three USER_REGION flags.
unfoldable pub has_flags : (flags required : ℕ) → Bool
has_flags flags required =
    (not (has_flag required region_read) || has_flag flags region_read)
    && (not (has_flag required region_write) || has_flag flags region_write)
    && (not (has_flag required region_exec) || has_flag flags region_exec)

-- The loop of `user_memory_ok`: a region that holds the addresses from `ptr` to `end`.
unfoldable pub in_region : (ptr end required : ℕ) → List Region → Bool
unfolding has_flags
in_region ptr end required [] = false
in_region ptr end required (r ∷ rs) =
    let region_end = range_end r.start r.len in
    let rest = in_region ptr end required rs in
    if r.len == 0 || ltb region_end r.start
    then rest
    else if leb r.start ptr && leb end region_end && has_flags r.flags required
    then true
    else rest

-- `user_memory_ok` behind the check of the pages.
unfoldable pub regions_ok : (ptr len required : ℕ) → Program → Option Bool → Option Bool
unfolding in_region
regions_ok ptr len required program none = none
regions_ok ptr len required program (some ok) =
    let end = range_end ptr len in
    if not ok
    then some false
    else if len == 0
    then some true
    else if ltb end ptr
    then some false
    else some (in_region ptr end required program.regions)

-- `user_memory_ok` with the program and the space of the current process.
unfoldable pub process_memory_ok :
    (ptr len required : ℕ) → Paging → Option Program → Option ℕ → Option Bool
unfolding regions_ok
process_memory_ok ptr len required s none space = some false
process_memory_ok ptr len required s (some program) none = some false
process_memory_ok ptr len required s (some program) (some i) =
    regions_ok ptr len required program (address_space_user_pages_ok (some (user i)) ptr len s)

unfoldable pub memory_ok_for : (ptr len required : ℕ) → Machine → Option ℕ → Option Bool
unfolding process_memory_ok
memory_ok_for ptr len required m none = some false
memory_ok_for ptr len required m (some i) =
    let p = process_at m i in process_memory_ok ptr len required m.paging p.program p.address_space

-- `none` stands for a check of the pages that does not come back.
unfoldable pub user_memory_ok : (ptr len required : ℕ) → Machine → Option Bool
unfolding memory_ok_for
user_memory_ok ptr len required m = memory_ok_for ptr len required m m.current

-- The address that the processor reaches for `addr`. It faults where no page is there; the code
-- follows only pointers that it has checked.
abbrev pub physical : Paging → (addr : ℕ) → ℕ
physical s addr =
    let pte = or_default 0 (lookup s.ram (address_space_page_directory s.current_space s) addr) in
    page_addr pte + addr % 4096

-- The block behind a user pointer, and the write of its first `n` bytes.
abbrev pub user_block : Machine → (ptr : ℕ) → Buffer
user_block m ptr i = get8 m.paging.ram (physical m.paging (add32 ptr i))

unfoldable pub store_bytes : (s : Paging) → (ptr : ℕ) → Buffer → ℕ → Buffer
store_bytes s ptr b zero = s.ram
store_bytes s ptr b (suc n) = put8 (store_bytes s ptr b n) (physical s (add32 ptr n)) (get8 b n)

unfoldable pub store_user : (ptr : ℕ) → Buffer → ℕ → Machine → Machine
unfolding store_bytes
store_user ptr b n m = set_paging m (set_ram m.paging (store_bytes m.paging ptr b n))
