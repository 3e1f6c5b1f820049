-- ===== src/User/Reaped.antt =====
-- What `user_process_reap` of cpu/user_mode.c frees.
use yoz_os.Base.{
  ℕ, zero, suc, ◌+◌, ◌<◌, ◌≤◌, ◌≡◌, ◌≢◌, refl, sym, ap, ◌∙◌, arith, true, false, Bool-cases, inl,
  inr, none, some, List, [], ◌∷◌, get_or, set, length, if◌then◌else◌, if-keeps, get_or-set_self,
  get_or-set_ne, length-set, set-set, ℕ_discrete, subst,
}
use yoz_os.Fat.Volume.{Volume}
use yoz_os.Task.Store.{points_to}
use yoz_os.User.Store.{
  unused, Process, Machine, no_process, process_at, is_unused_process, is_dead, max_user_processes,
}
use yoz_os.User.Table.{
  cleared_process, user_process_close_fds, close_from, user_process_clear, reap_one, reap_from,
  user_process_reap, free_process, take_process, user_process_alloc,
}

-- Three writes at one place, of which each reads the one before.
set_twice :
    (ps : List Process) (i : ℕ) (c : Process) (f g : Process → Process)
    → i < length ps
    → (let qs = set (set ps i c) i (f (get_or (set ps i c) i no_process)) in
        set qs i (g (get_or qs i no_process)))
      ≡ set ps i (g (f c))
set_twice ps i c f g h =
    let x = get_or (set ps i c) i no_process in
    let qs = set (set ps i c) i (f x) in
    let self : x ≡ c = get_or-set_self ps i c no_process h in
    let next : get_or qs i no_process ≡ f x =
      get_or-set_self (set ps i c) i (f x) no_process (omega (arith, length-set ps i c)) in
    ap (λ (y : Process). set qs i (g y)) next
    ∙ set-set (set ps i c) i (f x) (g (f x))
    ∙ set-set ps i c (g (f x))
    ∙ ap (λ (y : Process). set ps i (g (f y))) self

module _ (v : Volume) where
  -- `user_process_clear` changes one process of the table, which is not in use then.
  pub clear-processes :
      (i : ℕ) (m : Machine)
      → i < length m.processes
      → (q : Process) × ((user_process_clear v i m).processes ≡ set m.processes i q)
        × (q.state ≡ unused)
  unfolding user_process_clear user_process_close_fds
  clear-processes i m h =
      let close : Process → Process = λ p. record p { fds = (close_from v 5 3 p.fds m.vfs).0 } in
      let finish : Process → Process = λ p. record p { address_space = none; exit_code = 0 } in
      let c = cleared_process (process_at m i) in
      (finish (close c), set_twice m.processes i c close finish h, refl)

  -- A round leaves the other processes as they are.
  pub reap_one-other :
      (i j : ℕ) (m : Machine)
      → i < length m.processes
      → i ≢ j
      → process_at (reap_one v i m) j ≡ process_at m j
  unfolding reap_one
  reap_one-other i j m h ne =
      if-keeps (λ (x : Machine). process_at x j ≡ process_at m j) (points_to m.current i) m
        (if is_dead (process_at m i).state then user_process_clear v i m else m) refl
        (if-keeps (λ (x : Machine). process_at x j ≡ process_at m j)
          (is_dead (process_at m i).state) (user_process_clear v i m) m
          (let (q, e, _) = clear-processes i m h in
            ap (λ ps. get_or ps j no_process) e ∙ get_or-set_ne m.processes i j q no_process ne)
          refl)

  reap_one-length :
      (i : ℕ) (m : Machine)
      → i < length m.processes
      → length (reap_one v i m).processes ≡ length m.processes
  unfolding reap_one
  reap_one-length i m h =
      if-keeps (λ (x : Machine). length x.processes ≡ length m.processes) (points_to m.current i) m
        (if is_dead (process_at m i).state then user_process_clear v i m else m) refl
        (if-keeps (λ (x : Machine). length x.processes ≡ length m.processes)
          (is_dead (process_at m i).state) (user_process_clear v i m) m
          (let (q, e, _) = clear-processes i m h in
            ap (λ (ps : List Process). length ps) e ∙ length-set m.processes i q)
          refl)

  reap_one-current : (i : ℕ) (m : Machine) → (reap_one v i m).current ≡ m.current
  unfolding reap_one user_process_clear user_process_close_fds
  reap_one-current i m =
      if-keeps (λ (x : Machine). x.current ≡ m.current) (points_to m.current i) m
        (if is_dead (process_at m i).state then user_process_clear v i m else m) refl
        (if-keeps (λ (x : Machine). x.current ≡ m.current) (is_dead (process_at m i).state)
          (user_process_clear v i m) m refl refl)

  -- Its own process is freed, if it is dead and not the current one.
  reap_one_self :
      (i : ℕ) (m : Machine)
      → i < length m.processes
      → points_to m.current i ≡ false
      → is_dead (process_at m i).state ≡ true
      → (process_at (reap_one v i m) i).state ≡ unused
  unfolding reap_one
  reap_one_self i m h c d =
      let (q, e, u) = clear-processes i m h in
      rw (c, d)
        (ap (λ ps. (get_or ps i no_process).state) e
          ∙ ap (λ (p : Process). p.state) (get_or-set_self m.processes i q no_process h)
          ∙ u)

  -- One that is not in use stays so.
  reap_one-unused :
      (i j : ℕ) (m : Machine)
      → i < length m.processes
      → (process_at m j).state ≡ unused
      → (process_at (reap_one v i m) j).state ≡ unused
  unfolding reap_one
  reap_one-unused i j m h u = elim (ℕ_discrete i j) [
    | no ne ↦ ap (λ (p : Process). p.state) (reap_one-other i j m h ne) ∙ u
    | yes e ↦
        let alive : is_dead (process_at m i).state ≡ false =
          subst (λ (k : ℕ). is_dead (process_at m k).state ≡ false) (sym e) (ap is_dead u) in
        if-keeps (λ (x : Machine). (process_at x j).state ≡ unused) (points_to m.current i) m
          (if is_dead (process_at m i).state then user_process_clear v i m else m) u (rw alive u)
  ]

  reap_from-unused :
      (rounds i j : ℕ) (m : Machine)
      → i + rounds ≤ length m.processes
      → (process_at m j).state ≡ unused
      → (process_at (reap_from v rounds i m) j).state ≡ unused
  unfolding reap_from
  reap_from-unused zero i j m h u = u
  reap_from-unused (suc rounds) i j m h u =
      reap_from-unused rounds (i + 1) j (reap_one v i m)
        (omega (arith, reap_one-length i m (omega arith))) (reap_one-unused i j m (omega arith) u)

  reap_from-dead :
      (rounds i j : ℕ) (m : Machine)
      → i + rounds ≤ length m.processes
      → i ≤ j
      → j < i + rounds
      → points_to m.current j ≡ false
      → is_dead (process_at m j).state ≡ true
      → (process_at (reap_from v rounds i m) j).state ≡ unused
  unfolding reap_from
  reap_from-dead zero i j m h a b c d = absurd (omega arith)
  reap_from-dead (suc rounds) i j m h a b c d =
      let size = reap_one-length i m (omega arith) in
      elim (ℕ_discrete i j) [
        | yes e ↦ reap_from-unused rounds (i + 1) j (reap_one v i m) (omega (arith, size)) (
            subst (λ (k : ℕ). (process_at (reap_one v i m) k).state ≡ unused) e
              (reap_one_self i m (omega arith) (rw e c) (rw e d)))
        | no ne ↦
            reap_from-dead rounds (i + 1) j (reap_one v i m) (omega (arith, size)) (omega arith)
              (omega arith) (ap (λ o. points_to o j) (reap_one-current i m) ∙ c)
              (ap (λ (p : Process). is_dead p.state) (reap_one-other i j m (omega arith) ne) ∙ d)
      ]

-- A process that is not in use is found by the search for one.
free_process-finds :
    (i k : ℕ) (ps : List Process)
    → k < length ps
    → (get_or ps k no_process).state ≡ unused
    → (j : ℕ) × (free_process i ps ≡ some j)
unfolding free_process
free_process-finds i k [] h u = absurd (omega arith)
free_process-finds i zero (p ∷ ps) h u = (i, rw u refl)
free_process-finds i (suc k) (p ∷ ps) h u =
    let (j, e) = free_process-finds (i + 1) k ps (omega arith) u in
    elim (Bool-cases (is_unused_process p.state)) [ inl t ↦ (i, rw t refl) | inr t ↦ (j, rw t e) ]

reap_from-length :
    (v : Volume) (rounds i : ℕ) (m : Machine)
    → i + rounds ≤ length m.processes
    → length (reap_from v rounds i m).processes ≡ length m.processes
unfolding reap_from
reap_from-length v zero i m h = refl
reap_from-length v (suc rounds) i m h =
    let size = reap_one-length v i m (omega arith) in
    reap_from-length v rounds (i + 1) (reap_one v i m) (omega (arith, size)) ∙ size

-- Where a process is dead and not the current one, `user_process_reap` frees it, and the next
-- `user_process_alloc` succeeds: no dead process holds its place in the table for good.
pub user_process_reap-alloc :
    (v : Volume) (i : ℕ) (m : Machine)
    → length m.processes ≡ max_user_processes
    → i < max_user_processes
    → points_to m.current i ≡ false
    → is_dead (process_at m i).state ≡ true
    → ((process_at (user_process_reap v m) i).state ≡ unused)
      × ((j : ℕ) × ((user_process_alloc (user_process_reap v m)).0 ≡ some j))
unfolding user_process_reap user_process_alloc
user_process_reap-alloc v i m size h c d =
    let u = reap_from-dead v max_user_processes 0 i m (omega arith) (omega arith) h c d in
    let (j, e) =
      free_process-finds 0 i (reap_from v max_user_processes 0 m).processes
        (omega (arith, reap_from-length v max_user_processes 0 m (omega arith))) u in
    (u, (j, ap (λ o. (take_process (reap_from v max_user_processes 0 m) o).0) e))
