-- ===== src/Task/Schedule.antt =====
-- `schedule` of task/task.c runs the next ready task of the ring.
use yoz_os.Base.{
  ℕ, zero, suc, ◌<◌, ◌≡◌, refl, sym, ap, ◌∙◌, inl, inr, arith, ◌==◌, not, Bool-cases, if◌then◌else◌,
  true, false, some, List, [], ◌∷◌, mem, length, ℕ_discrete,
}
use yoz_os.Task.Store.{
  TaskState, unused, ready, running, blocked, exited, Task, Tasks, is_ready, is_running, set_state,
}
use yoz_os.Task.Calls.{
  find_ready, run_next, switch_to, schedule_from, schedule_at, schedule, ring_fuel,
}
use yoz_os.Task.Ring.{Seg, IsRing, IsRing-cong}

-- The first ready task of the list, or `prev`.
abbrev pub next_ready : (ℕ → Task) → ℕ → List ℕ → ℕ
next_ready ts prev [] = prev
next_ready ts prev (x ∷ xs) = if is_ready (ts x).state then x else next_ready ts prev xs

find_ready_lem :
    (fuel prev a : ℕ) (xs : List ℕ) (s : Tasks)
    → Seg s.tasks a xs prev
    → mem prev xs ≡ false
    → length xs < fuel
    → find_ready fuel prev a s ≡ some (next_ready s.tasks prev xs)
unfolding find_ready
find_ready_lem zero prev a xs s g m q = absurd (omega arith)
find_ready_lem (suc fuel) prev a [] s g m q =
    let here : (a == prev) ≡ true = ground arith in rw here (ap some g)
find_ready_lem (suc fuel) prev a (x ∷ xs) s (e, (n, l, g)) m q =
    let away : (x == prev) ≡ false = ground arith in
    rw (e, away)
      (elim (Bool-cases (is_ready (s.tasks x).state)) [
        | inl t ↦ rw t refl
        | inr t ↦ rw (t, l) (find_ready_lem fuel prev n xs s g (ground arith) (omega arith))
      ])

-- The state `s'` after a switch from `prev` to `next`: `next` is the current task and the only one
-- that runs, and the ring is as it was.
pub record Scheduled (prev : ℕ) (rest : List ℕ) (next : ℕ) (s' : Tasks) : Type 0 where
  pub now : s'.current ≡ some next
  pub only : (t : ℕ) → is_running (s'.tasks t).state ≡ (t == next)
  pub ring : IsRing s'.tasks prev rest

is_running-is_ready : (x : TaskState) → is_running x ≡ true → is_ready x ≡ false
is_running-is_ready unused e = refl
is_running-is_ready ready e = cc
is_running-is_ready running e = refl
is_running-is_ready blocked e = refl
is_running-is_ready exited e = refl

next_ready-cases :
    (ts : ℕ → Task) (prev : ℕ) (xs : List ℕ)
    → is_ready (ts prev).state ≡ false
    → is_ready (ts (next_ready ts prev xs)).state ≡ false
    → next_ready ts prev xs ≡ prev
next_ready-cases ts prev [] p e = refl
next_ready-cases ts prev (x ∷ xs) p e = elim (Bool-cases (is_ready (ts x).state)) [
  | inl t ↦ let h = rw t at e in ground (arith, h, t)
  | inr t ↦ rw t (next_ready-cases ts prev xs p (rw t at e))
]

next-set_state :
    (s : Tasks) (t : ℕ) (x : TaskState) (u : ℕ)
    → ((set_state s t x).tasks u).next ≡ (s.tasks u).next
next-set_state s t x u = elim (ℕ_discrete u t) [
  | yes e ↦
      let here : (u == t) ≡ true = ground arith in rw here (ap (λ w. (s.tasks w).next) (sym e))
  | no ne ↦ let away : (u == t) ≡ false = ground arith in rw away refl
]

run_next-Scheduled :
    (s : Tasks) (prev next : ℕ) (rest : List ℕ)
    → s.current ≡ some prev
    → IsRing s.tasks prev rest
    → ((t : ℕ) → is_running (s.tasks t).state ≡ (t == prev))
    → (is_ready (s.tasks next).state ≡ false → next ≡ prev)
    → Scheduled prev rest next (run_next prev next s)
unfolding run_next
run_next-Scheduled s prev next rest now ring only last =
    let was : is_running (s.tasks prev).state ≡ true = only prev ∙ ground arith in
    elim (Bool-cases (is_ready (s.tasks next).state)) [
      | inr t ↦
          let same = last t in
          rw t (record {
            now = now ∙ ap some (sym same);
            only = λ u. only u ∙ ap (λ p. u == p) (sym same);
            ring = ring;
          })
      | inl t ↦
          rw (t, was)
            (record {
              now = refl;
              only = λ u. elim (ℕ_discrete u next) [
                | yes e ↦ let here : (u == next) ≡ true = ground arith in rw here refl
                | no ne ↦
                    let away : (u == next) ≡ false = ground arith in
                    rw away (elim (ℕ_discrete u prev) [
                      | yes e ↦ let here : (u == prev) ≡ true = ground arith in rw here refl
                      | no nq ↦
                          let off : (u == prev) ≡ false = ground arith in rw off (only u ∙ off)
                    ])
              ];
              ring =
                  IsRing-cong s.tasks _ prev rest
                    (λ u.
                      next-set_state (set_state s prev ready) next running u
                      ∙ next-set_state s prev ready u)
                    ring;
            })
    ]

schedule-step :
    (s : Tasks) (prev n next : ℕ)
    → s.scheduler_ready ≡ true
    → s.current ≡ some prev
    → (s.tasks prev).next ≡ some n
    → find_ready ring_fuel prev n s ≡ some next
    → schedule s ≡ some (run_next prev next s)
unfolding schedule schedule_at schedule_from switch_to
schedule-step s prev n next on now link found =
    ap (λ b. if not b then some s else schedule_at s s.current) on
    ∙ ap (schedule_at s) now
    ∙ ap (schedule_from prev s) link
    ∙ ap (switch_to prev s) found

-- Once the scheduler is ready, on a ring of at most 18 tasks that begins at the current one, the
-- only one that runs, `schedule` returns: it runs the first task behind the current one in the
-- order of the ring that is ready, or the current one if none is, and this is the only one that
-- runs then, in the same ring.
pub schedule-Scheduled :
    (s : Tasks) (prev : ℕ) (rest : List ℕ)
    → s.scheduler_ready ≡ true
    → s.current ≡ some prev
    → IsRing s.tasks prev rest
    → ((t : ℕ) → is_running (s.tasks t).state ≡ (t == prev))
    → (s' : Tasks) × (schedule s ≡ some s') × Scheduled prev rest (next_ready s.tasks prev rest) s'
schedule-Scheduled s prev rest on now ring only =
    let (n, l, g) = ring.links in
    let next = next_ready s.tasks prev rest in
    let found =
      find_ready_lem ring_fuel prev n rest s g ring.distinct.0 (omega (arith, ring.short)) in
    let was : is_running (s.tasks prev).state ≡ true = only prev ∙ ground arith in
    (
      run_next prev next s,
      schedule-step s prev n next on now l found,
      run_next-Scheduled s prev next rest now ring only
          (next_ready-cases s.tasks prev rest (is_running-is_ready (s.tasks prev).state was)),
    )
