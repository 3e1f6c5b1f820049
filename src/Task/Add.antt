-- ===== src/Task/Add.antt =====
-- `add_task` of task/task.c puts a task at the end of the ring.
use yoz_os.Base.{
  ℕ, zero, suc, ◌<◌, ◌≡◌, ◌≢◌, refl, sym, ap, ◌∙◌, inl, inr, arith, ◌==◌, Bool-cases, if◌then◌else◌,
  true, false, Option, some, List, [], ◌∷◌, ◌++◌, mem, length, length-append, IsDistinct-append_one,
  ℕ_discrete,
}
use yoz_os.Task.Store.{Tasks, set_next}
use yoz_os.Task.Calls.{find_last, add_behind, add_to, add_task, ring_fuel}
use yoz_os.Task.Ring.{From, IsRing, last_of, From-append_one}

find_last_lem :
    (fuel list a : ℕ) (xs : List ℕ) (s : Tasks)
    → From s.tasks a xs list
    → mem list xs ≡ false
    → length xs < fuel
    → find_last fuel list a s ≡ some (last_of a xs)
unfolding find_last
find_last_lem zero list a xs s f m q = absurd (omega arith)
find_last_lem (suc fuel) list a [] s (n, l, g) m q =
    let here : (n == list) ≡ true = ground arith in rw (find_last, l, here) refl
find_last_lem (suc fuel) list a (x ∷ xs) s (n, l, (e, f)) m q =
    let away : (n == list) ≡ false = ground arith in
    rw (find_last, l, away) (rw e (find_last_lem fuel list x xs s f (ground arith) (omega arith)))

next-set_next :
    (s : Tasks) (t : ℕ) (x : Option ℕ) (u : ℕ)
    → ((set_next s t x).tasks u).next ≡ (if u == t then x else (s.tasks u).next)
next-set_next s t x u = elim (Bool-cases (u == t)) [ inl e ↦ rw e refl | inr e ↦ rw e refl ]

state-set_next :
    (s : Tasks) (t : ℕ) (x : Option ℕ) (u : ℕ)
    → ((set_next s t x).tasks u).state ≡ (s.tasks u).state
state-set_next s t x u = elim (ℕ_discrete u t) [
  | yes e ↦
      let here : (u == t) ≡ true = ground arith in rw here (ap (λ w. (s.tasks w).state) (sym e))
  | no ne ↦ let away : (u == t) ≡ false = ground arith in rw away refl
]

not-last_of : (t a : ℕ) (xs : List ℕ) → mem t (a ∷ xs) ≡ false → t ≢ last_of a xs
not-last_of t a [] m e = ground arith
not-last_of t a (x ∷ xs) m e = not-last_of t x xs (ground arith) e

-- On a ring of at most 17 tasks that begins at `task_list`, `add_task` of another task returns, and
-- leaves a ring with the task at the end, and with every task in the state that it had.
pub add_task-IsRing :
    (s : Tasks) (head : ℕ) (rest : List ℕ) (t : ℕ)
    → s.task_list ≡ some head
    → IsRing s.tasks head rest
    → length rest < 17
    → mem t (head ∷ rest) ≡ false
    → (s' : Tasks) × (add_task t s ≡ some s')
      × IsRing s'.tasks head (rest ++ t ∷ [])
      × ((u : ℕ) → (s'.tasks u).state ≡ (s.tasks u).state)
unfolding add_task add_to add_behind
add_task-IsRing s head rest t list ring short new =
    let last = last_of head rest in
    let s1 = set_next s t (some head) in
    let s' = set_next s1 last (some t) in
    let found =
      find_last_lem ring_fuel head head rest s ring.links ring.distinct.0
        (omega (arith, ring.short)) in
    let apart = not-last_of t head rest new in
    (
      s',
      step found,
      record {
        links =
            From-append_one s.tasks s'.tasks head rest head t ring.distinct new
              (next-set_next s1 last (some t) last ∙ ground arith)
              (ground
                (arith, next-set_next s1 last (some t) t, next-set_next s t (some head) t, apart))
              (λ u a b.
                ground (arith, next-set_next s1 last (some t) u, next-set_next s t (some head) u))
              ring.links;
        distinct = IsDistinct-append_one (head ∷ rest) t ring.distinct new;
        short = omega (arith, length-append rest (t ∷ []));
      },
      λ u. state-set_next s1 last (some t) u ∙ state-set_next s t (some head) u,
    )
  where
    step :
        find_last ring_fuel head head s ≡ some (last_of head rest)
        → add_task t s ≡ some (set_next (set_next s t (some head)) (last_of head rest) (some t))
    step found = ap (add_to t s) list ∙ ap (add_behind t head s) found
