-- ===== src/User/Mapped.antt =====
-- The loop of `elf_map_segment` of cpu/user_mode.c ends: each round takes a frame of the process,
-- which has at most 16.
use yoz_os.Base.{
  ℕ, zero, suc, ◌+◌, ◌<◌, ◌≤◌, ◌≡◌, refl, ap, ◌∙◌, arith, ◌==◌, leb, Bool, true, false, Bool-cases,
  inl, inr, Option, some, [], ◌∷◌, ◌++◌, length, length-set, length-append, get_or-set_self,
  if◌then◌else◌, if-keeps, has_flag, subst,
}
use yoz_os.Disk.{Buffer, add32}
use yoz_os.Elf.{ProgramHeader, pf_w}
use yoz_os.Memory.Paging.{Paging, page_rw, page_user, set_ram, address_space_map_page}
use yoz_os.User.Store.{
  Process, Machine, no_process, process_at, set_process, set_paging, and_next_call,
}
use yoz_os.User.Table.{space_of}
use yoz_os.User.Image.{keep_frame, take_frame}
use yoz_os.User.Segments.{
  max_elf_frames, segment_rounds, map_filled, map_page_of, map_pages_from, elf_map_segment,
}
use yoz_os.User.Page.{page_down, page_up, elf_fill_page_frame}

-- The frames that process `i` has for its segments.
abbrev pub frame_count : Machine → (i : ℕ) → ℕ
frame_count m i = length (process_at m i).elf_frames

-- Where the step succeeded, process `i` of a table of `n` has one frame more than `count`.
abbrev Grows : (i n count : ℕ) → Bool × Machine → Type 0
Grows i n count (false, m) = Unit {0}
Grows i n count (true, m) = (length m.processes ≡ n) × (frame_count m i ≡ count + 1)

module _ (i : ℕ) (m : Machine) (h : i < length m.processes) where
  added-Grows :
      (s : Paging) (frame : ℕ)
      → let p = process_at m i in
        Grows i (length m.processes) (frame_count m i) (
          true,
          set_process (set_paging m s) i (record p { elf_frames = p.elf_frames ++ frame ∷ [] }),
        )
  added-Grows s frame =
      let p = process_at m i in
      let q : Process = record p { elf_frames = p.elf_frames ++ frame ∷ [] } in
      (
        length-set m.processes i q,
        ap (λ (x : Process). length x.elf_frames) (get_or-set_self m.processes i q no_process h)
            ∙ length-append p.elf_frames (frame ∷ [])
            ∙ omega arith,
      )

  map_filled-Grows :
      (va frame page_flags : ℕ) (o : Bool × Buffer)
      → Grows i (length m.processes) (frame_count m i) (map_filled i va frame page_flags m o)
  unfolding map_filled
  map_filled-Grows va frame page_flags (false, ram) = tt
  map_filled-Grows va frame page_flags (true, ram) =
      let r = keep_frame frame (
        address_space_map_page (space_of (process_at m i).address_space) va frame page_flags
          (set_ram m.paging ram)) in
      if-keeps (Grows i (length m.processes) (frame_count m i)) r.0
        (
          true,
          set_process (set_paging m r.1) i
              (record (process_at m i) { elf_frames = (process_at m i).elf_frames ++ frame ∷ [] }),
        )
        (false, set_paging m r.1) (added-Grows r.1 frame) tt

map_page_of-Grows :
    (i va : ℕ) (p : ProgramHeader) (image : Buffer) (len : ℕ) (m : Machine)
    → i < length m.processes
    → Grows i (length m.processes) (frame_count m i) (map_page_of i va p image len (take_frame m))
unfolding map_page_of
map_page_of-Grows i va p image len m h =
    let (frame, m1) : ℕ × Machine = take_frame m in
    if-keeps (Grows i (length m.processes) (frame_count m i)) (frame == 0) (false, m1)
      (map_filled i va frame (page_user + (if has_flag p.p_flags pf_w then page_rw else 0)) m1
        (elf_fill_page_frame frame va p image len m1.paging.ram))
      tt
      (map_filled-Grows i m1 h va frame
        (page_user + (if has_flag p.p_flags pf_w then page_rw else 0))
        (elf_fill_page_frame frame va p image len m1.paging.ram))

-- Where the steps succeeded, the table has `n` processes, and process `i` at most 16 frames.
abbrev pub Fits : (i n : ℕ) → Bool × Machine → Type 0
Fits i n (false, m) = Unit {0}
Fits i n (true, m) = (length m.processes ≡ n) × (frame_count m i ≤ max_elf_frames)

-- The call returns, with a result of that kind.
abbrev pub Ends : (i n : ℕ) → Option (Bool × Machine) → Type 0
Ends i n o = (r : Bool × Machine) × (o ≡ some r) × Fits i n r

pub and_next_call-Ends :
    (i n : ℕ) (o : Option (Bool × Machine)) (k : Machine → Option (Bool × Machine))
    → Ends i n o
    → ((m : Machine) → length m.processes ≡ n → frame_count m i ≤ max_elf_frames → Ends i n (k m))
    → Ends i n (and_next_call o k)
and_next_call-Ends i n o k ((false, m), e, f) next = ((false, m), rw e refl, tt)
and_next_call-Ends i n o k ((true, m), e, f) next =
    let (r, e', f') = next m f.0 f.1 in (r, ap (λ x. and_next_call x k) e ∙ e', f')

-- A step that takes a frame, and what follows it.
Grows-Ends :
    (i n count : ℕ) (r : Bool × Machine) (k : Machine → Option (Bool × Machine))
    → Grows i n count r
    → ((m : Machine) → length m.processes ≡ n → frame_count m i ≡ count + 1 → Ends i n (k m))
    → Ends i n (and_next_call (some r) k)
Grows-Ends i n count (false, m) k g next = ((false, m), refl, tt)
Grows-Ends i n count (true, m) k g next = next m g.0 g.1

map_pages_from-Ends :
    (rounds i va end n : ℕ) (p : ProgramHeader) (image : Buffer) (len : ℕ) (m : Machine)
    → length m.processes ≡ n
    → i < n
    → frame_count m i ≤ max_elf_frames
    → max_elf_frames < rounds + frame_count m i
    → Ends i n (map_pages_from rounds i va end p image len m)
unfolding map_pages_from
map_pages_from-Ends zero i va end n p image len m size h few f = absurd (omega arith)
map_pages_from-Ends (suc rounds) i va end n p image len m size h few f =
    elim (Bool-cases (leb end va)) [
      | inl t ↦ ((true, m), rw t refl, (size, few))
      | inr t ↦ elim (Bool-cases (leb max_elf_frames (frame_count m i))) [
        | inl u ↦ ((false, m), rw (t, u) refl, tt)
        | inr u ↦
            let g : Grows i n (frame_count m i) (map_page_of i va p image len (take_frame m)) =
              subst
                (λ (x : ℕ).
                  Grows i x (frame_count m i) (map_page_of i va p image len (take_frame m)))
                size (map_page_of-Grows i va p image len m (omega arith)) in
            rw (t, u)
              (Grows-Ends i n (frame_count m i) (map_page_of i va p image len (take_frame m))
                (λ m'. map_pages_from rounds i (add32 va 4096) end p image len m') g
                (λ m' s c.
                  map_pages_from-Ends rounds i (add32 va 4096) end n p image len m' s h
                    (ground arith) (omega arith)))
      ]
    ]

pub elf_map_segment-Ends :
    (i n : ℕ) (p : ProgramHeader) (image : Buffer) (len : ℕ) (m : Machine)
    → length m.processes ≡ n
    → i < n
    → frame_count m i ≤ max_elf_frames
    → Ends i n (elf_map_segment i p image len m)
unfolding elf_map_segment
elf_map_segment-Ends i n p image len m size h few =
    map_pages_from-Ends segment_rounds i (page_down p.p_vaddr) (page_up (add32 p.p_vaddr p.p_memsz))
      n p image len m size h few (omega arith)
