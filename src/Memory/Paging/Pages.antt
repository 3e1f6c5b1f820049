-- ===== src/Memory/Paging/Pages.antt =====
-- What `address_space_user_pages_ok` of memory/paging.c tells of a range.
use yoz_os.Base.{
  ℕ, zero, suc, ◌+◌, ◌-◌, ◌*◌, ◌%◌, ◌^◌, ◌<◌, ◌≤◌, ◌≡◌, ◌≢◌, ◌↔◌, ◌∙◌, ap, refl, sym, arith, ◌==◌,
  ltb, Bool, true, false, Bool-cases, Option, some, inl, inr, ℕ_discrete,
}
use yoz_os.Disk.{Buffer}
use yoz_os.Memory.Frames.{frame_size}
use yoz_os.Memory.Paging.{
  Space, Paging, space_at, pd_index, pt_index, page_addr, page_ok, pages_ok, page_rounds, range_end,
  address_space_user_pages_ok, address_space_mark_user_page, mark_pages,
  address_space_mark_user_range,
}

pub page_ok-page_addr :
    (ram : Buffer) (directory addr : ℕ)
    → page_ok ram directory (page_addr addr) ≡ page_ok ram directory addr
unfolding page_ok
page_ok-page_addr ram directory addr =
    let (d, t) : (pd_index (page_addr addr) ≡ pd_index addr)
        × (pt_index (page_addr addr) ≡ pt_index addr) =
      (omega arith, omega arith) in
    rw (d, t)

-- The pages from `addr` to `last` are mapped for the user.
abbrev pub Mapped : Buffer → (directory addr last : ℕ) → Type 0
Mapped ram directory addr last =
    (a : ℕ) → addr ≤ a → a < last + 4096 → page_ok ram directory a ≡ true

-- The test ends, and tells whether the range is mapped.
abbrev pub Tells : Option Bool → Type 0 → Type 0
Tells o P = (b : Bool) × (o ≡ some b) × ((b ≡ true) ↔ P)

pages_ok-Tells :
    (rounds : ℕ) (ram : Buffer) (directory last addr : ℕ)
    → addr % 4096 ≡ 0
    → last % 4096 ≡ 0
    → addr ≤ last
    → last < 2 ^ 32
    → last < addr + rounds * 4096
    → Tells (pages_ok rounds ram directory last addr) (Mapped ram directory addr last)
unfolding pages_ok
pages_ok-Tells zero ram directory last addr p q le lt f = absurd (omega arith)
pages_ok-Tells (suc rounds) ram directory last addr p q le lt f =
    elim (Bool-cases (page_ok ram directory addr)) [
      | inr bad ↦ (false, rw bad, (λ e. absurd cc, λ m. cc (m addr (omega arith) (omega arith))))
      | inl good ↦ elim (ℕ_discrete addr last) [
        | yes e ↦
            (true, rw good (ground arith), (λ _ a h k. whole good a h (omega arith), λ _. refl))
        | no ne ↦
            let (b, r, t) =
              pages_ok-Tells rounds ram directory last (addr + 4096) (omega arith) q (omega arith)
                lt (omega arith) in
            (
              b,
              rw good (ground (arith, r)),
              (
                λ e a h k. elim (Bool-cases (ltb a (addr + 4096))) [
                  | inl s ↦ whole good a h (ground arith)
                  | inr s ↦ t.0 e a (ground arith) k
                ],
                λ m. t.1 (λ a h k. m a (omega arith) k),
              ),
            )
      ]
    ]
  where
    whole :
        page_ok ram directory addr ≡ true
        → (a : ℕ) → addr ≤ a
        → a < addr + 4096
        → page_ok ram directory a ≡ true
    whole good a h k =
        let e : page_addr a ≡ addr = omega arith in
        sym (page_ok-page_addr ram directory a) ∙ rw e good

-- An address is as good as one of the range on the same page.
page_ok-near :
    (ram : Buffer) (directory ptr len : ℕ)
    → 0 < len
    → ((i : ℕ) → i < len → page_ok ram directory (ptr + i) ≡ true)
    → Mapped ram directory (page_addr ptr) (page_addr (ptr + len - 1))
page_ok-near ram directory ptr len pos ok x h k = elim (Bool-cases (ltb x ptr)) [
  | inl low ↦ at 0 pos (ground arith)
  | inr l ↦ elim (Bool-cases (ltb x (ptr + len))) [
    | inl within ↦ at (x - ptr) (ground arith) (ground arith)
    | inr high ↦ at (len - 1) (omega arith) (ground arith)
  ]
]
  where
    at : (i : ℕ) → i < len → page_addr (ptr + i) ≡ page_addr x → page_ok ram directory x ≡ true
    at i q e =
        sym (page_ok-page_addr ram directory x)
        ∙ ap (page_ok ram directory) (sym e)
        ∙ page_ok-page_addr ram directory (ptr + i)
        ∙ ok i q

-- `address_space_user_pages_ok` returns, and accepts a range that is not empty exactly where it
-- does not wrap and both entries of each of its addresses are present and of the user.
pub address_space_user_pages_ok-Tells :
    (a : Space) (ptr len : ℕ) (s : Paging)
    → ptr < 2 ^ 32
    → len < 2 ^ 32
    → (space_at s a).page_directory ≢ 0
    → 0 < len
    → Tells (address_space_user_pages_ok (some a) ptr len s) (
        (ptr + len ≤ 2 ^ 32)
        × ((i : ℕ) → i < len → page_ok s.ram (space_at s a).page_directory (ptr + i) ≡ true))
unfolding address_space_user_pages_ok
address_space_user_pages_ok-Tells a ptr len s p l d pos =
    elim (Bool-cases (ltb (range_end ptr len) ptr)) [
      | inl w ↦ (false, ground arith, (λ e. absurd cc, λ m. ground (arith, m.0)))
      | inr w ↦
          let end : range_end ptr len ≡ ptr + len - 1 = ground arith in
          let (b, r, t) =
            pages_ok-Tells page_rounds s.ram (space_at s a).page_directory
              (page_addr (range_end ptr len)) (page_addr ptr) (omega arith) (omega arith)
              (omega arith) (omega arith) (omega arith) in
          (
            b,
            ground (arith, r),
            (
              λ e. (omega arith, λ i h. t.0 e (ptr + i) (omega arith) (omega arith)),
              λ m. t.1 (rw end (page_ok-near s.ram (space_at s a).page_directory ptr len pos m.1)),
            ),
          )
    ]

mark_pages-ends :
    (rounds : ℕ) (a : Option Space) (last addr : ℕ) (s : Paging)
    → addr % 4096 ≡ 0
    → last % 4096 ≡ 0
    → addr ≤ last
    → last < 2 ^ 32
    → last < addr + rounds * 4096
    → (s' : Paging) × (mark_pages rounds a last addr s ≡ some s')
unfolding mark_pages
mark_pages-ends zero a last addr s p q le lt f = absurd (omega arith)
mark_pages-ends (suc rounds) a last addr s p q le lt f =
    let s' = address_space_mark_user_page a addr s in
    elim (ℕ_discrete addr last) [
      | yes e ↦ (s', ground arith)
      | no ne ↦
          let (r, h) =
            mark_pages-ends rounds a last (addr + 4096) s' (omega arith) q (omega arith) lt
              (omega arith) in
          let (n, k) : ((addr == last) ≡ false) × (ltb (0xffffffff - frame_size) addr ≡ false) =
            (ground arith, ground arith) in
          (r, rw (n, k) h)
    ]

-- The loop of `address_space_mark_user_range` ends for every range.
pub address_space_mark_user_range-ends :
    (a : Option Space) (start len : ℕ) (s : Paging)
    → start < 2 ^ 32
    → len < 2 ^ 32
    → (s' : Paging) × (address_space_mark_user_range a start len s ≡ some s')
unfolding address_space_mark_user_range
address_space_mark_user_range-ends a start len s p l = elim (Bool-cases (len == 0)) [
  | inl z ↦ (s, rw z refl)
  | inr z ↦ elim (Bool-cases (ltb (range_end start len) start)) [
    | inl w ↦ (s, rw (z, w) refl)
    | inr w ↦
        let end : range_end start len ≡ start + len - 1 = ground arith in
        let (s', e) =
          mark_pages-ends page_rounds a (page_addr (range_end start len)) (page_addr start) s
            (omega arith) (omega arith) (ground arith) (omega arith) (ground arith) in
        (s', rw (z, w) e)
  ]
]
