-- ===== src/Vfs/Handles.antt =====
-- Which handle `vfs_open_at` of fs/vfs.c gives.
use yoz_os.Base.{
  ℕ, suc, ◌+◌, ◌-◌, ◌≤◌, ◌<◌, ◌≡◌, ◌≢◌, refl, sym, ap, ◌∙◌, inl, inr, arith, has_flag, true, false,
  Bool-cases, Option, none, some, Option-cases, List, [], ◌∷◌, length, get_or, get_or-set_self,
  get_or-set_ne, some_inj,
}
use yoz_os.Fat.Outcome.{
  invalid, exists, not_found, no_space, too_big, not_empty, Outcome, ok, err, stuck,
}
use yoz_os.Fat.Volume.{Volume}
use yoz_os.Fat.Entry.{attr_dir}
use yoz_os.Fat.Read.{FileInfo, fat_stat_file}
use yoz_os.Fat.Create.{fat_create_file}
use yoz_os.Fat.Write.{fat_write_file}
use yoz_os.Vfs.Flags.{o_create, o_trunc, vfs_flags_valid, resolve_simple_path}
use yoz_os.Vfs.Files.{
  OpenFile, Vfs, Reply, value, error, negative, empty_file, file_at, set_disk, find_free_handle,
  free_handle_from,
}
use yoz_os.Vfs.Calls.{
  enter_file, stat_or_cleared, after_truncate, open_found, open_created, after_create, open_stat,
  vfs_open_at,
}

free_handle_from-free :
    (fs : List OpenFile) (b h : ℕ)
    → free_handle_from b fs ≡ some h
    → (b ≤ h) × (h < b + length fs) × ((get_or fs (h - b) empty_file).used ≡ false)
unfolding free_handle_from
free_handle_from-free [] b h e = cc
free_handle_from-free (f ∷ fs) b h e = elim (Bool-cases f.used) [
  | inr t ↦
      let here = rw t at e in
      let same : h ≡ b = sym (some_inj here) in
      let first : h - b ≡ 0 = omega arith in (omega arith, omega arith, rw first t)
  | inl t ↦
      let (l, g, u) = free_handle_from-free fs (b + 1) h (rw t at e) in
      let next : h - b ≡ suc (h - (b + 1)) = omega arith in (omega arith, omega arith, rw next u)
]

-- The handle `h`, free in `s`, is in use in `s'`, and the other handles are as they were.
pub record Opened (s : Vfs) (h : ℕ) (s' : Vfs) : Type 0 where
  pub inside : h < length s.open_files
  pub free : (file_at s h).used ≡ false
  pub taken : (file_at s' h).used ≡ true
  pub others : (j : ℕ) → j ≢ h → file_at s' j ≡ file_at s j

-- A success opens the handle that it returns, and a failure leaves the table as it was.
abbrev pub Opens : Vfs → Option (Reply × Vfs) → Type 0
Opens s none = Unit {0}
Opens s (some (error e, s')) = s'.open_files ≡ s.open_files
Opens s (some (negative word, s')) = s'.open_files ≡ s.open_files
Opens s (some (value h, s')) = Opened s h s'

module _ (v : Volume) where
  module _ (s : Vfs) (h : ℕ) (name : List ℕ) (flags : ℕ) (inside : h < length s.open_files)
      (free : (file_at s h).used ≡ false) where
    abbrev Same : Vfs → Type 0
    Same s' = s'.open_files ≡ s.open_files

    enter_file-Opened :
        (info : FileInfo) (s' : Vfs) → Same s' → Opened s h (enter_file v h name flags info s').1
    enter_file-Opened info s' same = record {
      inside = inside;
      free = free;
      taken = ap (λ f. f.used) (get_or-set_self s'.open_files h _ empty_file (rw same inside));
      others = λ j ne.
          get_or-set_ne s'.open_files h j _ empty_file (λ e. ne (sym e))
          ∙ ap (λ fs. get_or fs j empty_file) same;
    }

    after_truncate-Opens :
        (s' : Vfs) (o : Outcome (Unit {0})) → Same s' → Opens s (after_truncate v h name flags s' o)
    unfolding after_truncate
    after_truncate-Opens s' stuck same = tt
    after_truncate-Opens s' (err e d) same = same
    after_truncate-Opens s' (ok x d) same =
        enter_file-Opened (stat_or_cleared v (fat_stat_file v name d)) (set_disk s' d) same

    open_found-Opens :
        (info : FileInfo) (s' : Vfs) → Same s' → Opens s (open_found v h name flags info s')
    unfolding open_found
    open_found-Opens info s' same = elim (Bool-cases (has_flag info.attr attr_dir)) [
      | inl t ↦ rw t same
      | inr t ↦ elim (Bool-cases (has_flag flags o_trunc)) [
        | inl u ↦ rw (t, u) (after_truncate-Opens s' (fat_write_file v name none 0 s'.disk) same)
        | inr u ↦ rw (t, u) (enter_file-Opened info s' same)
      ]
    ]

    open_created-Opens :
        (s' : Vfs) (o : Option FileInfo) → Same s' → Opens s (open_created v h name flags s' o)
    unfolding open_created
    open_created-Opens s' none same = same
    open_created-Opens s' (some info) same = open_found-Opens info s' same

    after_create-Opens :
        (s' : Vfs) (o : Outcome (Unit {0})) → Same s' → Opens s (after_create v h name flags s' o)
    unfolding after_create
    after_create-Opens s' stuck same = tt
    after_create-Opens s' (ok x d) same =
        open_created-Opens (set_disk s' d) (fat_stat_file v name d) same
    after_create-Opens s' (err exists d) same =
        open_created-Opens (set_disk s' d) (fat_stat_file v name d) same
    after_create-Opens s' (err invalid d) same = same
    after_create-Opens s' (err not_found d) same = same
    after_create-Opens s' (err no_space d) same = same
    after_create-Opens s' (err too_big d) same = same
    after_create-Opens s' (err not_empty d) same = same

    open_stat-Opens : (o : Option FileInfo) → Opens s (open_stat v h name flags s o)
    unfolding open_stat
    open_stat-Opens (some info) = open_found-Opens info s refl
    open_stat-Opens none = elim (Bool-cases (has_flag flags o_create)) [
      | inl t ↦ rw t (after_create-Opens s (fat_create_file v name s.disk) refl)
      | inr t ↦ rw t refl
    ]

  -- An open that succeeds returns a handle that was free, marks it as used and leaves the other
  -- handles as they were; one that fails leaves the table of open files as it was.
  pub vfs_open_at-Opens :
      (cwd path : List ℕ) (flags : ℕ) (s : Vfs) → Opens s (vfs_open_at v cwd path flags s)
  unfolding vfs_open_at find_free_handle
  vfs_open_at-Opens cwd path flags s = elim (Bool-cases (vfs_flags_valid flags)) [
    | inr t ↦ rw t refl
    | inl t ↦ elim (Option-cases (resolve_simple_path cwd path)) [
      | inl n ↦ rw (t, n) refl
      | inr (name, n) ↦ elim (Option-cases (find_free_handle s)) [
        | inl m ↦ rw (t, n, m) refl
        | inr (h, m) ↦
            let (l, g, u) = free_handle_from-free s.open_files 0 h m in
            let here : h - 0 ≡ h = omega arith in
            rw (t, n, m)
              (open_stat-Opens s h name flags (omega arith) (rw here at u)
                (fat_stat_file v name s.disk))
      ]
    ]
  ]
