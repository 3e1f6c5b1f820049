-- ===== src/Memory/Frames.antt =====
-- memory/frame_alloc.c: the bitmap of the physical frames.
pub mod Bits
pub mod Alloc
pub mod Init
use yoz_os.Base.{
  ℕ, zero, suc, ◌+◌, ◌-◌, ◌*◌, ◌/◌, ◌%◌, ◌^◌, ◌&&◌, Bool, true, false, List, [], ◌∷◌, ltb, leb,
  ◌==◌, if◌then◌else◌,
}

-- `frame_bitmap`, by its words; those from 1024 on lie behind the array.
abbrev pub Bitmap : Type 0
Bitmap = ℕ → ℕ

-- FRAME_SIZE and NUM_FRAMES.
abbrev pub frame_size : ℕ
frame_size = 4096

abbrev pub num_frames : ℕ
num_frames = 32768

-- `w & (1 << k)` as a truth value.
unfoldable pub has_bit : ℕ → ℕ → Bool
has_bit w zero = w % 2 == 1
has_bit w (suc k) = has_bit (w / 2) k

-- `w | (1 << k)`.
unfoldable pub or_bit : ℕ → ℕ → ℕ
or_bit w zero = w / 2 * 2 + 1
or_bit w (suc k) = w % 2 + 2 * or_bit (w / 2) k

-- `w & ~(1 << k)`.
unfoldable pub and_not_bit : ℕ → ℕ → ℕ
and_not_bit w zero = w / 2 * 2
and_not_bit w (suc k) = w % 2 + 2 * and_not_bit (w / 2) k

abbrev pub set_word : Bitmap → ℕ → ℕ → Bitmap
set_word b i w j = if j == i then w else b j

-- `set`, `clear` and `test` of the source.
unfoldable pub set_frame : Bitmap → ℕ → Bitmap
unfolding or_bit
set_frame b f = set_word b (f / 32) (or_bit (b (f / 32)) (f % 32))

unfoldable pub clear_frame : Bitmap → ℕ → Bitmap
unfolding and_not_bit
clear_frame b f = set_word b (f / 32) (and_not_bit (b (f / 32)) (f % 32))

unfoldable pub test_frame : Bitmap → ℕ → Bool
unfolding has_bit
test_frame b f = has_bit (b (f / 32)) (f % 32)

-- The loop of `alloc_frame`: its result and the bitmap.
unfoldable pub alloc_from : (rounds f : ℕ) → Bitmap → ℕ × Bitmap
alloc_from zero f b = (0, b)
alloc_from (suc rounds) f b =
    let rest = alloc_from rounds (f + 1) b in
    if test_frame b f then rest else (f * 2 ^ 12 % 2 ^ 32, set_frame b f)

unfoldable pub alloc_frame : Bitmap → ℕ × Bitmap
alloc_frame b = alloc_from num_frames 0 b

unfoldable pub free_frame : ℕ → Bitmap → Bitmap
unfolding clear_frame
free_frame addr b = clear_frame b (addr / 2 ^ 12)

-- `e820_entry_t`, without the word that nothing reads.
pub record E820Entry : Type 0 where
  pub base : ℕ
  pub length : ℕ
  pub type : ℕ

-- USABLE of `Mem_Ent_Type`.
abbrev pub usable : ℕ
usable = 1

-- `align_up(base, FRAME_SIZE) >> 12`, in u64, as a u32.
abbrev pub first_frame : E820Entry → ℕ
first_frame e = (((e.base + frame_size + 2 ^ 64 - 1) % 2 ^ 64) / 4096) % 2 ^ 32

-- `end`, of a u64 too.
abbrev pub end_frame : E820Entry → ℕ
end_frame e =
    let end = (((e.base + e.length) % 2 ^ 64) / 2 ^ 12) % 2 ^ 32 in
    if ltb num_frames end then num_frames else end

-- The inner loop: `rounds` frames from `f` on.
unfoldable pub clear_frames : (rounds f : ℕ) → Bitmap → Bitmap
clear_frames zero f b = b
clear_frames (suc rounds) f b = clear_frames rounds (f + 1) (clear_frame b f)

abbrev pub is_usable : E820Entry → Bool
is_usable e = e.type == usable && leb 0x100000 e.base

unfoldable pub clear_entries : List E820Entry → Bitmap → Bitmap
unfolding clear_frames
clear_entries [] b = b
clear_entries (e ∷ es) b =
    let freed = clear_frames (end_frame e - first_frame e) (first_frame e) b in
    clear_entries es (if is_usable e then freed else b)

-- `memory_set(frame_bitmap, 0xFF, sizeof(frame_bitmap))`.
abbrev pub all_used : Bitmap → Bitmap
all_used b i = if ltb i 1024 then 0xffffffff else b i

-- The entries are those that the boot loader leaves in memory.
unfoldable pub init_frames : List E820Entry → Bitmap → Bitmap
unfolding clear_entries
init_frames es b = clear_entries es (all_used b)
