-- ===== src/User/Loads.antt =====
-- `user_map_elf_segments` of cpu/user_mode.c returns for every image.
use yoz_os.Base.{
  ℕ, zero, suc, ◌+◌, ◌<◌, ◌≤◌, ◌≡◌, refl, ap, ◌∙◌, arith, ◌==◌, leb, not, Bool, true, false, Option,
  some, [], ◌∷◌, ◌++◌, length, length-set, get_or-set_self, if◌then◌else◌, if-keeps,
}
use yoz_os.Disk.{Buffer}
use yoz_os.Elf.{
  ProgramHeader, pt_load, e_entry, e_phnum, elf32_program_header, elf32_program_headers_ok,
}
use yoz_os.User.Store.{
  Program, Process, Machine, no_process, process_at, set_process, stack_top_addr,
}
use yoz_os.User.Image.{stack_region}
use yoz_os.User.Segments.{
  max_elf_frames, max_elf_regions, elf_map_segment, set_regions, segment_region, add_region,
  map_result, map_header, map_headers, set_program, elf_entry_in_executable_segment,
  user_map_elf_segments,
}
use yoz_os.User.Page.{elf_segment_range_ok}
use yoz_os.User.Mapped.{frame_count, Fits, Ends, and_next_call-Ends, elf_map_segment-Ends}

module _ (i n : ℕ) (h : i < n) where
  -- A change of process `i` that keeps its frames.
  set_process-Fits :
      (m : Machine) (p : Process)
      → length m.processes ≡ n
      → length p.elf_frames ≤ max_elf_frames
      → Fits i n (true, set_process m i p)
  set_process-Fits m p size few = (
    length-set m.processes i p ∙ size,
    let same : frame_count (set_process m i p) i ≡ length p.elf_frames =
          ap (λ (x : Process). length x.elf_frames)
            (get_or-set_self m.processes i p no_process (omega (arith, size))) in
        omega (arith, same),
  )

  add_region-Fits :
      (p : ProgramHeader) (r : Bool × Machine) → Fits i n r → Fits i n (add_region i p r)
  unfolding add_region
  add_region-Fits p (false, m) f = tt
  add_region-Fits p (true, m) f =
      let rs = (process_at m i).elf_regions in
      if-keeps (Fits i n) (leb max_elf_regions (length rs)) (false, m)
        (true, set_regions i (rs ++ segment_region p ∷ []) m) tt
        (set_process-Fits m (record (process_at m i) { elf_regions = rs ++ segment_region p ∷ [] })
          f.0 f.1)

  set_program-Fits :
      (image : Buffer) (r : Bool × Machine) → Fits i n r → Fits i n (set_program i image r)
  unfolding set_program
  set_program-Fits image (false, m) f = tt
  set_program-Fits image (true, m) f =
      let rs = (process_at m i).elf_regions in
      let all = rs ++ stack_region ∷ [] in
      let program : Program = record {
        entry = e_entry image;
        stack_top = stack_top_addr;
        regions = all;
      } in
      let m' = set_regions i all m in
      let g = set_process-Fits m (record (process_at m i) { elf_regions = all }) f.0 f.1 in
      let filled : Bool × Machine =
        (true, set_process m' i (record (process_at m' i) { program = some program })) in
      if-keeps (Fits i n) (length rs == 0) (false, m)
        (if leb max_elf_regions (length rs) then (false, m) else filled) tt
        (if-keeps (Fits i n) (leb max_elf_regions (length rs)) (false, m) filled tt
          (set_process-Fits m' (record (process_at m' i) { program = some program }) g.0 g.1))

  map_result-Ends :
      (g : Bool × Machine → Bool × Machine) (o : Option (Bool × Machine))
      → ((r : Bool × Machine) → Fits i n r → Fits i n (g r))
      → Ends i n o
      → Ends i n (map_result g o)
  map_result-Ends g o keep (r, e, f) = (g r, ap (map_result g) e, keep r f)

  map_header-Ends :
      (p : ProgramHeader) (image : Buffer) (len : ℕ) (m : Machine)
      → length m.processes ≡ n
      → frame_count m i ≤ max_elf_frames
      → Ends i n (map_header i p image len m)
  unfolding map_header
  map_header-Ends p image len m size few =
      if-keeps (Ends i n) (not (p.p_type == pt_load)) (some (true, m))
        (if not (elf_segment_range_ok p)
          then some (false, m)
          else map_result (add_region i p) (elf_map_segment i p image len m))
        ((true, m), refl, (size, few))
        (if-keeps (Ends i n) (not (elf_segment_range_ok p)) (some (false, m))
          (map_result (add_region i p) (elf_map_segment i p image len m)) ((false, m), refl, tt)
          (map_result-Ends (add_region i p) (elf_map_segment i p image len m) (add_region-Fits p)
            (elf_map_segment-Ends i n p image len m size h few)))

  map_headers-Ends :
      (rounds k : ℕ) (image : Buffer) (len : ℕ) (m : Machine)
      → length m.processes ≡ n
      → frame_count m i ≤ max_elf_frames
      → Ends i n (map_headers rounds k i image len m)
  unfolding map_headers
  map_headers-Ends zero k image len m size few = ((true, m), refl, (size, few))
  map_headers-Ends (suc rounds) k image len m size few =
      and_next_call-Ends i n (map_header i (elf32_program_header image k) image len m)
        (λ m'. map_headers rounds (k + 1) i image len m')
        (map_header-Ends (elf32_program_header image k) image len m size few)
        (λ m' s c. map_headers-Ends rounds (k + 1) image len m' s c)

-- `user_map_elf_segments` returns for every image and every process of the table that has at most 16
-- frames for segments, however large the segments claim to be: the loops over the pages and over the
-- headers end. A process that it fills has at most 16 such frames.
pub user_map_elf_segments-Ends :
    (i : ℕ) (image : Buffer) (len : ℕ) (m : Machine)
    → i < length m.processes
    → frame_count m i ≤ max_elf_frames
    → Ends i (length m.processes) (user_map_elf_segments i image len m)
unfolding user_map_elf_segments
user_map_elf_segments-Ends i image len m h few =
    let n = length m.processes in
    let start = set_regions i [] m in
    let f = set_process-Fits i n h m (record (process_at m i) { elf_regions = [] }) refl few in
    let mapped =
      map_result (set_program i image) (map_headers (e_phnum image) 0 i image len start) in
    if-keeps (Ends i n) (not (elf32_program_headers_ok (some image) len)) (some (false, m))
      (if not (elf_entry_in_executable_segment image (e_entry image))
        then some (false, start)
        else mapped)
      ((false, m), refl, tt)
      (if-keeps (Ends i n) (not (elf_entry_in_executable_segment image (e_entry image)))
        (some (false, start)) mapped ((false, start), refl, tt)
        (map_result-Ends i n h (set_program i image)
          (map_headers (e_phnum image) 0 i image len start) (set_program-Fits i n h image)
          (map_headers-Ends i n h (e_phnum image) 0 image len start f.0 f.1)))
