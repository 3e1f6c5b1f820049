-- ===== src/Task/Remove.antt =====
-- `task_remove` of task/task.c takes a task out of the ring.
use yoz_os.Base.{
  ℕ, zero, suc, ◌<◌, ◌≡◌, ◌≢◌, refl, sym, ap, ◌∙◌, inl, inr, arith, ◌==◌, ◌||◌, Bool-cases,
  if◌then◌else◌, true, false, none, some, List, [], ◌∷◌, mem, length, ℕ_discrete, IsDistinct,
}
use yoz_os.Task.Store.{Task, Tasks, unused, set_task, set_next, points_to}
use yoz_os.Task.Calls.{cleared, remove_loop, remove_from, task_remove, ring_fuel}
use yoz_os.Task.Ring.{From, IsRing, Seg-cong_mem, erase, mem-erase, IsDistinct-erase, length-erase}

-- The state `s'` behind the removal of `target` from the tasks of `xs`, which follow `prev`.
record Removed (s : Tasks) (list target prev : ℕ) (xs : List ℕ) (s' : Tasks) : Type 0 where
  links : From s'.tasks prev (erase target xs) list
  gone : ((s'.tasks target).state ≡ unused) × ((s'.tasks target).next ≡ none)
  kept : (u : ℕ) → u ≢ target → u ≢ prev → mem u xs ≡ false → s'.tasks u ≡ s.tasks u
  states : (u : ℕ) → u ≢ target → (s'.tasks u).state ≡ (s.tasks u).state

abbrev unlinked : (prev t : ℕ) → List ℕ → Tasks → Tasks
unlinked prev t name s =
    let s1 = set_next s prev (s.tasks t).next in set_task s1 t (cleared name (s1.tasks t))

remove_loop-step :
    (fuel list target prev t : ℕ) (name : List ℕ) (s : Tasks)
    → (t == list) ≡ false
    → remove_loop (suc fuel) list target prev (some t) name s ≡ (
        if t == target
        then some (unlinked prev t name s)
        else remove_loop fuel list target t (s.tasks t).next name s)
unfolding remove_loop
remove_loop-step fuel list target prev t name s away = rw away refl

unlinked-here :
    (prev t : ℕ) (name : List ℕ) (s : Tasks) → ((unlinked prev t name s).tasks t).state ≡ unused
unlinked-here prev t name s = let here : (t == t) ≡ true = ground arith in rw here refl

unlinked-next :
    (prev t : ℕ) (name : List ℕ) (s : Tasks) → ((unlinked prev t name s).tasks t).next ≡ none
unlinked-next prev t name s = let here : (t == t) ≡ true = ground arith in rw here refl

unlinked-prev :
    (prev t : ℕ) (name : List ℕ) (s : Tasks)
    → prev ≢ t
    → ((unlinked prev t name s).tasks prev).next ≡ (s.tasks t).next
unlinked-prev prev t name s ne =
    let away : (prev == t) ≡ false = ground arith in
    let here : (prev == prev) ≡ true = ground arith in rw (away, here) refl

unlinked-other :
    (prev t : ℕ) (name : List ℕ) (s : Tasks) (u : ℕ)
    → u ≢ t
    → u ≢ prev
    → (unlinked prev t name s).tasks u ≡ s.tasks u
unlinked-other prev t name s u ne nq =
    let away : (u == t) ≡ false = ground arith in
    let off : (u == prev) ≡ false = ground arith in rw (away, off) refl

unlinked-state :
    (prev t : ℕ) (name : List ℕ) (s : Tasks) (u : ℕ)
    → u ≢ t
    → ((unlinked prev t name s).tasks u).state ≡ (s.tasks u).state
unlinked-state prev t name s u ne =
    let away : (u == t) ≡ false = ground arith in
    rw away (elim (ℕ_discrete u prev) [
      | yes e ↦
          let here : (u == prev) ≡ true = ground arith in
          rw here (ap (λ w. (s.tasks w).state) (sym e))
      | no nq ↦ let off : (u == prev) ≡ false = ground arith in rw off refl
    ])

remove_loop-Removed :
    (fuel list target prev : ℕ) (xs : List ℕ) (name : List ℕ) (s : Tasks)
    → From s.tasks prev xs list
    → IsDistinct (prev ∷ xs)
    → mem list xs ≡ false
    → mem target xs ≡ true
    → length xs < fuel
    → (s' : Tasks) × (remove_loop fuel list target prev (s.tasks prev).next name s ≡ some s')
      × Removed s list target prev xs s'
remove_loop-Removed zero list target prev xs name s f d m t q = absurd (omega arith)
remove_loop-Removed (suc fuel) list target prev [] name s f d m t q = cc
remove_loop-Removed (suc fuel) list target prev (x ∷ xs) name s (n, l, (e, (k, c, g))) d m t q =
    let away : (x == list) ≡ false = ground arith in
    let start : remove_loop (suc fuel) list target prev (s.tasks prev).next name s
        ≡ remove_loop (suc fuel) list target prev (some x) name s =
      ap (λ o. remove_loop (suc fuel) list target prev o name s) (l ∙ ap some e) in
    let step = start ∙ remove_loop-step fuel list target prev x name s away in
    elim (ℕ_discrete x target) [
      | yes h ↦
          let hit : (x == target) ≡ true = ground arith in
          let s' = unlinked prev x name s in
          (
            s',
            step
                ∙ ap
                    (λ b.
                      if b then some s' else remove_loop fuel list target x (s.tasks x).next name s)
                    hit,
            record {
              links = rw hit (
                k,
                unlinked-prev prev x name s (ground arith) ∙ c,
                Seg-cong_mem s.tasks s'.tasks k xs list
                    (λ u i.
                      ap (λ (w : Task). w.next)
                        (unlinked-other prev x name s u (λ z. ground arith) (λ z. ground arith)))
                    g,
              );
              gone = rw⁻¹ h (unlinked-here prev x name s, unlinked-next prev x name s);
              kept = λ u a b i. unlinked-other prev x name s u (λ z. a (z ∙ h)) b;
              states = λ u a. unlinked-state prev x name s u (λ z. a (z ∙ h));
            },
          )
      | no h ↦
          let miss : (x == target) ≡ false = ground arith in
          let (s', r, z) =
            remove_loop-Removed fuel list target x xs name s (k, c, g) d.1 (ground arith)
              (ground arith) (omega arith) in
          (
            s',
            step
                ∙ ap
                    (λ b.
                      if b
                      then some (unlinked prev x name s)
                      else remove_loop fuel list target x (s.tasks x).next name s)
                    miss
                ∙ r,
            record {
              links = rw miss (
                x,
                ap (λ (w : Task). w.next)
                      (z.kept prev (λ y. ground arith) (λ y. ground arith) (ground arith))
                    ∙ l
                    ∙ ap some e,
                (refl, z.links),
              );
              gone = z.gone;
              kept = λ u a b i. z.kept u a (λ y. ground arith) (ground arith);
              states = z.states;
            },
          )
    ]

-- On a ring of at most 18 tasks that begins at `task_list`, `task_remove` of a task behind the
-- first that is not the current one returns, and leaves the ring without that task, which is
-- marked as unused and points nowhere, and with every other task in the state that it had.
pub task_remove-IsRing :
    (s : Tasks) (head target : ℕ) (rest name : List ℕ)
    → s.task_list ≡ some head
    → points_to s.current target ≡ false
    → IsRing s.tasks head rest
    → mem target rest ≡ true
    → (s' : Tasks) × (task_remove (some target) name s ≡ some s')
      × IsRing s'.tasks head (erase target rest)
      × ((s'.tasks target).state ≡ unused)
      × ((s'.tasks target).next ≡ none)
      × ((u : ℕ) → u ≢ target → (s'.tasks u).state ≡ (s.tasks u).state)
unfolding task_remove remove_from
task_remove-IsRing s head target rest name list other ring there =
    let apart : (target == head) ≡ false = elim (Bool-cases (target == head)) [
      | inr e ↦ e
      | inl e ↦ ground (arith, ring.distinct.0, there)
    ] in
    let skip : (target == head || points_to s.current target) ≡ false =
      ground (arith, apart, other) in
    let (s', r, z) =
      remove_loop-Removed ring_fuel head target head rest name s ring.links ring.distinct
        ring.distinct.0 there (omega (arith, ring.short)) in
    (
      s',
      ap (remove_from target name s) list
          ∙ ap
              (λ b.
                if b
                then some s
                else remove_loop ring_fuel head target head (s.tasks head).next name s)
              skip
          ∙ r,
      record {
        links = z.links;
        distinct = (
          mem-erase head target rest ring.distinct.0,
          IsDistinct-erase target rest ring.distinct.1,
        );
        short = omega (arith, ring.short, length-erase target rest);
      },
      z.gone.0,
      z.gone.1,
      z.states,
    )
