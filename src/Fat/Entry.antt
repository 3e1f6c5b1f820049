-- ===== src/Fat/Entry.antt =====
-- `dir_entry_t`: the 32 bytes of entry `i` of a directory sector.
use yoz_os.Base.{ℕ, ◌+◌, ◌*◌, Bool, true, ◌&&◌, ◌||◌, List, [], ◌∷◌, ◌==◌, has_flag}
use yoz_os.Disk.{Buffer, get8, get16, get32, put32}

abbrev pub entry_name : Buffer → ℕ → ℕ → ℕ
entry_name e i k = get8 e (32 * i + k)

abbrev pub entry_attr : Buffer → ℕ → ℕ
entry_attr e i = get8 e (32 * i + 0x0b)

abbrev pub entry_first_cluster : Buffer → ℕ → ℕ
entry_first_cluster e i = get16 e (32 * i + 0x1a)

abbrev pub entry_size : Buffer → ℕ → ℕ
entry_size e i = get32 e (32 * i + 0x1c)

abbrev pub set_entry_size : Buffer → ℕ → ℕ → Buffer
set_entry_size e i size = put32 e (32 * i + 0x1c) size

abbrev pub attr_dir : ℕ
attr_dir = 0x10

unfoldable pub is_end_entry : Buffer → ℕ → Bool
is_end_entry e i = entry_name e i 0 == 0x00

unfoldable pub is_deleted_entry : Buffer → ℕ → Bool
is_deleted_entry e i = entry_name e i 0 == 0xe5

unfoldable pub is_long_name_entry : Buffer → ℕ → Bool
is_long_name_entry e i = entry_attr e i == 0x0f

unfoldable pub is_volume_label_entry : Buffer → ℕ → Bool
is_volume_label_entry e i = has_flag (entry_attr e i) 0x08

unfoldable pub is_hidden_sidecar_entry : Buffer → ℕ → Bool
is_hidden_sidecar_entry e i = has_flag (entry_attr e i) 0x02

unfoldable pub is_skippable_entry : Buffer → ℕ → Bool
unfolding is_deleted_entry is_long_name_entry is_volume_label_entry is_hidden_sidecar_entry
is_skippable_entry e i =
    is_deleted_entry e i
    || is_long_name_entry e i
    || is_volume_label_entry e i
    || is_hidden_sidecar_entry e i

unfoldable pub is_directory : Buffer → ℕ → Bool
is_directory e i = has_flag (entry_attr e i) attr_dir

-- The bytes of the name from `at` on are those of the list.
unfoldable pub bytes_match : Buffer → ℕ → List ℕ → Bool
bytes_match e at [] = true
bytes_match e at (c ∷ cs) = (get8 e at == c) && bytes_match e (at + 1) cs

unfoldable pub name_matches : Buffer → ℕ → List ℕ → Bool
unfolding bytes_match
name_matches e i name83 = bytes_match e (32 * i) name83

abbrev pub blank : ℕ
blank = b' '

abbrev pub dot_name : List ℕ
dot_name = b'.' ∷ blank ∷ blank ∷ blank ∷ blank ∷ blank ∷ blank ∷ blank ∷ blank ∷ blank ∷ blank ∷ []

abbrev pub dotdot_name : List ℕ
dotdot_name =
    b'.' ∷ b'.' ∷ blank ∷ blank ∷ blank ∷ blank ∷ blank ∷ blank ∷ blank ∷ blank ∷ blank ∷ []

unfoldable pub is_dot_entry : Buffer → ℕ → Bool
unfolding name_matches
is_dot_entry e i = name_matches e i dot_name

unfoldable pub is_dotdot_entry : Buffer → ℕ → Bool
unfolding name_matches
is_dotdot_entry e i = name_matches e i dotdot_name

-- A name as a memory block.
unfoldable pub name_bytes : List ℕ → Buffer
name_bytes [] k = 0
name_bytes (c ∷ cs) k = elim k [ ℕ.zero ↦ c | ℕ.suc j ↦ name_bytes cs j ]
