-- ===== src/Disk/Memory.antt =====
-- Memory blocks, and the routines of kernel/mem.c. A buffer is the function from an offset to
-- its byte. A byte is read modulo 256, so every number stands for one. A u16 or u32 that lies in
-- a buffer is little-endian, as on the i686.
use yoz_os.Base.{ℕ, zero, suc, ◌+◌, ◌*◌, ◌/◌, ◌%◌, ◌^◌, ◌==◌, if◌then◌else◌}

abbrev pub Buffer : Type 0
Buffer = ℕ → ℕ

abbrev pub get8 : Buffer → ℕ → ℕ
get8 b i = b i % 256

abbrev pub get16 : Buffer → ℕ → ℕ
get16 b i = get8 b i + 256 * get8 b (i + 1)

abbrev pub get32 : Buffer → ℕ → ℕ
get32 b i = get16 b i + 65536 * get16 b (i + 2)

abbrev pub put8 : Buffer → ℕ → ℕ → Buffer
put8 b i v j = if j == i then v % 256 else b j

abbrev pub put16 : Buffer → ℕ → ℕ → Buffer
put16 b i v = put8 (put8 b i v) (i + 1) (v / 256)

abbrev pub put32 : Buffer → ℕ → ℕ → Buffer
put32 b i v = put16 (put16 b i v) (i + 2) (v / 65536)

-- `memory_copy(source + from, dest + to, nbytes)`; the blocks do not overlap.
unfoldable pub memory_copy : Buffer → ℕ → Buffer → ℕ → ℕ → Buffer
memory_copy source from dest to zero = dest
memory_copy source from dest to (suc n) =
    put8 (memory_copy source from dest to n) (to + n) (get8 source (from + n))

-- `memory_set(dest + to, val, len)`.
unfoldable pub memory_set : Buffer → ℕ → ℕ → ℕ → Buffer
memory_set dest to val zero = dest
memory_set dest to val (suc n) = memory_set (put8 dest to val) (to + 1) val n

-- u32 addition.
abbrev pub add32 : ℕ → ℕ → ℕ
add32 a b = (a + b) % 2 ^ 32
