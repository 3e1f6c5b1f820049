-- ===== src/Tests/Frame.antt =====
-- The theorems on the frame allocator at small bitmaps.
use yoz_os.Base.{
  ◌≡◌, ◌≢◌, ◌↔◌, ◌⊎◌, inl, inr, subst, refl, arith, ◌==◌, if◌then◌else◌, true, false, List, [], ◌∷◌,
}
use yoz_os.Memory.Frames.{
  Bitmap, E820Entry, alloc_frame, test_frame, has_bit, num_frames, init_frames,
}
use yoz_os.Memory.Frames.Alloc.{Taken, Full, alloc_frame_lem, alloc_frame-apart}
use yoz_os.Memory.Frames.Init.{InSome, init_frames-free_iff}

-- The frames 0 and 1 are in use.
abbrev two_used : Bitmap
two_used i = if i == 0 then 3 else 0

abbrev one_entry : List E820Entry
one_entry = record { base = 0x100800; length = 0x3000; type = 1 } ∷ []

alloc_frame_lem_example :
    Taken 0 num_frames two_used (alloc_frame two_used).0 (alloc_frame two_used).1
    ⊎ Full 0 num_frames two_used (alloc_frame two_used).0 (alloc_frame two_used).1
alloc_frame_lem_example = alloc_frame_lem two_used

low_used : test_frame two_used 0 ≡ true
unfolding test_frame has_bit
low_used = refl

free_2 : test_frame two_used 2 ≡ false
unfolding test_frame has_bit
free_2 = refl

some_frame : (alloc_frame two_used).0 ≢ 0
some_frame e = elim (alloc_frame_lem two_used) [
  | inl r ↦
      let zeroth : r.frame ≡ 0 = omega (arith, r.at) in
      let free : test_frame two_used 0 ≡ false =
        subst (λ f. test_frame two_used f ≡ false) zeroth r.free in
      ground (arith, free, low_used)
  | inr full ↦
      let used = full.none_free 2 (omega arith) (omega arith) in ground (arith, used, free_2)
]

alloc_frame-apart_example : (alloc_frame (alloc_frame two_used).1).0 ≢ (alloc_frame two_used).0
alloc_frame-apart_example = alloc_frame-apart two_used low_used some_frame

init_frames-free_iff_example :
    (test_frame (init_frames one_entry (λ _. 0)) 257 ≡ false) ↔ InSome 257 one_entry
init_frames-free_iff_example =
    init_frames-free_iff one_entry (λ _. 0) 257 (omega arith) (omega arith, tt)
