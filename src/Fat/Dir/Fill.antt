-- ===== src/Fat/Dir/Fill.antt =====
-- What `dir_write_entry` leaves in the sector: the new entry, and the others as they were.
use yoz_os.Base.{ℕ, ◌+◌, ◌-◌, ◌*◌, ◌%◌, ◌^◌, ◌<◌, ◌≡◌, ap, arith, ltb, leb, ◌&&◌, false, List}
use yoz_os.Disk.{Buffer, get8, memory_set, get8-memory_copy, get8-memory_set}
use yoz_os.Fat.Entry.{entry_name, entry_attr, entry_first_cluster, entry_size, name_bytes}
use yoz_os.Fat.Dir.{fill_entry}

module _ (e : Buffer) (i : ℕ) (name83 : List ℕ) (first_cluster size attr : ℕ) where
  abbrev filled : Buffer
  filled = fill_entry e i name83 first_cluster size attr

  -- The bytes outside the entry stay.
  pub get8-fill_entry_other :
      (j : ℕ) → (leb (32 * i) j && ltb j (32 * i + 32)) ≡ false → get8 filled j ≡ get8 e j
  unfolding fill_entry
  get8-fill_entry_other j out = ground (
    arith,
    get8-memory_copy (name_bytes name83) 0 (memory_set e (32 * i) 0 32) (32 * i) 11 j,
    get8-memory_set e (32 * i) 0 32 j,
  )

  pub entry_name-fill_entry : (k : ℕ) → k < 11 → entry_name filled i k ≡ get8 (name_bytes name83) k
  unfolding fill_entry
  entry_name-fill_entry k q =
      let place : 32 * i + k - 32 * i ≡ k = omega arith in
      let from : get8 (name_bytes name83) (0 + (32 * i + k - 32 * i)) ≡ get8 (name_bytes name83) k =
        ap (get8 (name_bytes name83)) (omega arith) in
      ground (
        arith,
        from,
        get8-memory_copy (name_bytes name83) 0 (memory_set e (32 * i) 0 32) (32 * i) 11
            (32 * i + k),
      )

  pub entry_attr-fill_entry : entry_attr filled i ≡ attr % 256
  unfolding fill_entry
  entry_attr-fill_entry = ground arith

  pub entry_first_cluster-fill_entry :
      first_cluster < 65536 → entry_first_cluster filled i ≡ first_cluster
  unfolding fill_entry
  entry_first_cluster-fill_entry q = ground arith

  pub entry_size-fill_entry : size < 2 ^ 32 → entry_size filled i ≡ size
  unfolding fill_entry
  entry_size-fill_entry q = ground arith
