-- ===== src/Memory/Frames/Alloc.antt =====
-- What `alloc_frame` and `free_frame` of memory/frame_alloc.c do.
use yoz_os.Base.{
  ℕ, zero, suc, ◌+◌, ◌*◌, ◌/◌, ◌^◌, ◌<◌, ◌≤◌, ◌≡◌, ◌≢◌, refl, sym, ap, ◌∙◌, arith, ◌⊎◌, inl, inr,
  ◌==◌, if◌then◌else◌, true, false, Bool-cases, ℕ_discrete,
}
use yoz_os.Memory.Frames.{Bitmap, test_frame, alloc_from, alloc_frame, free_frame, num_frames}
use yoz_os.Memory.Frames.Bits.{test_frame-set_frame, test_frame-clear_frame}

-- The frame `f`, free in `b`, is the first free one below `limit`; it is used in `b'`, where the
-- others are as in `b`, and `addr` is its address.
pub record Taken (first limit : ℕ) (b : Bitmap) (addr : ℕ) (b' : Bitmap) : Type 0 where
  pub frame : ℕ
  pub at : addr ≡ frame * 4096
  pub below : (first ≤ frame) × (frame < limit)
  pub free : test_frame b frame ≡ false
  pub earlier : (g : ℕ) → first ≤ g → g < frame → test_frame b g ≡ true
  pub marked : (g : ℕ) → test_frame b' g ≡ (if g == frame then true else test_frame b g)

-- Nothing is free below `limit`, and nothing changes.
pub record Full (first limit : ℕ) (b : Bitmap) (addr : ℕ) (b' : Bitmap) : Type 0 where
  pub none_free : (g : ℕ) → first ≤ g → g < limit → test_frame b g ≡ true
  pub zero_result : addr ≡ 0
  pub same : b' ≡ b

alloc_from_lem :
    (rounds f : ℕ) (b : Bitmap)
    → f + rounds ≤ 2 ^ 20
    → Taken f (f + rounds) b (alloc_from rounds f b).0 (alloc_from rounds f b).1
      ⊎ Full f (f + rounds) b (alloc_from rounds f b).0 (alloc_from rounds f b).1
unfolding alloc_from
alloc_from_lem zero f b q =
    inr (record { none_free = λ g l h. absurd (omega arith); zero_result = refl; same = refl })
alloc_from_lem (suc rounds) f b q = elim (Bool-cases (test_frame b f)) [
  | inr t ↦ rw t (
      inl (record {
        frame = f;
        at = omega arith;
        below = omega arith;
        free = t;
        earlier = λ g l h. absurd (omega arith);
        marked = test_frame-set_frame b f;
      }))
  | inl t ↦
      let first : (g : ℕ) → g ≡ f → test_frame b g ≡ true = λ g e. ap (test_frame b) e ∙ t in
      rw t (elim (alloc_from_lem rounds (f + 1) b (omega arith)) [
        | inl r ↦ inl (record {
          frame = r.frame;
          at = r.at;
          below = omega (arith, r.below);
          free = r.free;
          earlier = λ g l h. elim (ℕ_discrete g f) [
            | yes e ↦ first g e
            | no ne ↦ r.earlier g (omega arith) h
          ];
          marked = r.marked;
        })
        | inr r ↦ inr (record {
          none_free = λ g l h. elim (ℕ_discrete g f) [
            | yes e ↦ first g e
            | no ne ↦ r.none_free g (omega arith) (omega arith)
          ];
          zero_result = r.zero_result;
          same = r.same;
        })
      ])
]

-- `alloc_frame` takes the first free frame and returns its address, or returns 0 and changes
-- nothing where no frame of the bitmap is free.
pub alloc_frame_lem :
    (b : Bitmap)
    → Taken 0 num_frames b (alloc_frame b).0 (alloc_frame b).1
      ⊎ Full 0 num_frames b (alloc_frame b).0 (alloc_frame b).1
unfolding alloc_frame
alloc_frame_lem b = alloc_from_lem num_frames 0 b (omega arith)

-- Two allocations in a row that succeed return frames apart, where the frame of address 0 is in use.
pub alloc_frame-apart :
    (b : Bitmap)
    → test_frame b 0 ≡ true
    → (alloc_frame b).0 ≢ 0
    → (alloc_frame (alloc_frame b).1).0 ≢ (alloc_frame b).0
alloc_frame-apart b low some_frame e = elim (alloc_frame_lem b) [
  | inr full ↦ some_frame full.zero_result
  | inl r ↦ elim (alloc_frame_lem (alloc_frame b).1) [
    | inr full ↦ some_frame (sym e ∙ full.zero_result)
    | inl next ↦
        let same : next.frame ≡ r.frame = omega (arith, r.at, next.at) in
        let used = r.marked r.frame in
        let free : test_frame (alloc_frame b).1 r.frame ≡ false = rw (sym same) next.free in
        ground (arith, used, free)
  ]
]

-- After `free_frame` the frame of the address is free, and the others are as they were.
pub test_frame-free_frame :
    (b : Bitmap) (addr g : ℕ)
    → test_frame (free_frame addr b) g ≡ (if g == addr / 4096 then false else test_frame b g)
unfolding free_frame
test_frame-free_frame b addr g = test_frame-clear_frame b (addr / 4096) g
