-- ===== src/User/Found.antt =====
-- The search for a process by its pid in cpu/user_mode.c, behind a change of one process.
use yoz_os.Base.{
  ℕ, zero, suc, ◌+◌, ◌<◌, ◌≡◌, refl, ap, ◌∙◌, arith, ◌==◌, false, Bool-cases, inl, inr, some,
  some_inj, List, [], ◌∷◌, get_or, set, length, if◌then◌else◌, subst,
}
use yoz_os.User.Store.{Process, Machine, no_process, process_at, is_unused_process}
use yoz_os.User.Table.{pid_from, user_process_find_pid}

pub pid_from-cons :
    (i pid : ℕ) (p : Process) (ps : List Process)
    → is_unused_process p.state ≡ false
    → pid_from i pid (p ∷ ps) ≡ (if p.pid == pid then some i else pid_from (i + 1) pid ps)
unfolding pid_from
pid_from-cons i pid p ps u = rw u refl

-- What the search reads of a process.
pub record Keeps (p q : Process) : Type 0 where
  pub used : is_unused_process q.state ≡ is_unused_process p.state
  pub pid : q.pid ≡ p.pid

pub pid_from-set :
    (i pid k : ℕ) (ps : List Process) (q : Process)
    → Keeps (get_or ps k no_process) q
    → pid_from i pid (set ps k q) ≡ pid_from i pid ps
unfolding pid_from
pid_from-set i pid k [] q h = refl
pid_from-set i pid zero (p ∷ ps) q h = rw (h.used, h.pid) refl
pid_from-set i pid (suc k) (p ∷ ps) q h = rw (pid_from-set (i + 1) pid k ps q h) refl

-- The process at `k` of the list is the one that a search from `i` on returns as `j`.
pub record IsAt (i pid j : ℕ) (ps : List Process) : Type 0 where
  pub k : ℕ
  pub at : j ≡ i + k
  pub in_table : k < length ps
  pub used : is_unused_process (get_or ps k no_process).state ≡ false
  pub has_pid : (get_or ps k no_process).pid ≡ pid

IsAt-cons :
    (i pid j : ℕ) (p : Process) (ps : List Process) → IsAt (i + 1) pid j ps → IsAt i pid j (p ∷ ps)
IsAt-cons i pid j p ps r = record {
  k = suc r.k;
  at = omega (arith, r.at);
  in_table = omega (arith, r.in_table);
  used = r.used;
  has_pid = r.has_pid;
}

pid_from-IsAt : (i pid j : ℕ) (ps : List Process) → pid_from i pid ps ≡ some j → IsAt i pid j ps
unfolding pid_from
pid_from-IsAt i pid j [] e = absurd cc
pid_from-IsAt i pid j (p ∷ ps) e = elim (Bool-cases (is_unused_process p.state)) [
  | inl u ↦ IsAt-cons i pid j p ps (pid_from-IsAt (i + 1) pid j ps (rw u at e))
  | inr u ↦
      let e' : (if p.pid == pid then some i else pid_from (i + 1) pid ps) ≡ some j = rw u at e in
      elim (Bool-cases (p.pid == pid)) [
        | inl t ↦
            let s : some i ≡ some j = rw t at e' in
            record {
              k = 0;
              at = omega (arith, some_inj s);
              in_table = omega arith;
              used = u;
              has_pid = ground arith;
            }
        | inr t ↦ IsAt-cons i pid j p ps (pid_from-IsAt (i + 1) pid j ps (rw t at e'))
      ]
]

-- The process that a search finds is in the table and in use, and has the pid.
pub record IsFound (pid i : ℕ) (m : Machine) : Type 0 where
  pub in_table : i < length m.processes
  pub used : is_unused_process (process_at m i).state ≡ false
  pub has_pid : (process_at m i).pid ≡ pid

pub find_pid-IsFound :
    (pid i : ℕ) (m : Machine) → user_process_find_pid pid m ≡ some i → IsFound pid i m
unfolding user_process_find_pid
find_pid-IsFound pid i m e =
    let r = pid_from-IsAt 0 pid i m.processes e in
    let same : r.k ≡ i = omega (arith, r.at) in
    record {
      in_table = omega (arith, r.in_table);
      used = subst (λ (k : ℕ). is_unused_process (process_at m k).state ≡ false) same r.used;
      has_pid = subst (λ (k : ℕ). (process_at m k).pid ≡ pid) same r.has_pid;
    }

-- The search finds the same process in a table in which a process has changed, but not its pid.
pub find_pid-set :
    (pid k : ℕ) (m m' : Machine) (q : Process)
    → m'.processes ≡ set m.processes k q
    → Keeps (process_at m k) q
    → user_process_find_pid pid m' ≡ user_process_find_pid pid m
unfolding user_process_find_pid
find_pid-set pid k m m' q e h = ap (pid_from 0 pid) e ∙ pid_from-set 0 pid k m.processes q h
