-- ===== src/Tests/Ring.antt =====
-- The theorems on the tasks at a ring of three.
use yoz_os.Base.{
  ℕ, ◌≡◌, ◌≢◌, refl, arith, inl, inr, ◌==◌, if◌then◌else◌, true, false, Bool-cases, Option, none,
  some, [], ◌∷◌,
}
use yoz_os.Task.Store.{TaskState, unused, ready, running, blocked, Task, Tasks, is_running}
use yoz_os.Task.Calls.{schedule, add_task, task_remove}
use yoz_os.Task.Ring.{IsRing}
use yoz_os.Task.Schedule.{Scheduled, schedule-Scheduled}
use yoz_os.Task.Add.{add_task-IsRing}
use yoz_os.Task.Remove.{task_remove-IsRing}

abbrev task_of : ℕ → TaskState → Option ℕ → Task
task_of id state next = record {
  id = id;
  name = [];
  state = state;
  esp = 0;
  user_process = 0;
  address_space = 0;
  next = next;
}

-- The main task runs, the idle task is blocked, and the first of the table is ready.
abbrev pub three : Tasks
three = record {
  tasks = λ t.
      if t == 0
      then task_of 0 running (some 1)
      else if t == 1
      then task_of 1 blocked (some 2)
      else if t == 2
      then task_of 2 ready (some 0)
      else task_of 0 unused none;
  current = some 0;
  task_list = some 0;
  next_task_id = 3;
  scheduler_ready = true;
  task_test_started = false;
  task_a = none;
  task_b = none;
  frames = λ _. 0;
}

three-IsRing : IsRing three.tasks 0 (1 ∷ 2 ∷ [])
three-IsRing = record {
  links = (1, refl, (refl, (2, refl, (refl, (0, refl, refl)))));
  distinct = (refl, (refl, (refl, tt)));
  short = omega arith;
}

only_main : (t : ℕ) → is_running (three.tasks t).state ≡ (t == 0)
only_main t = elim (Bool-cases (t == 0)) [
  | inl e ↦ rw e refl
  | inr e ↦ elim (Bool-cases (t == 1)) [
    | inl f ↦ rw (e, f) refl
    | inr f ↦ elim (Bool-cases (t == 2)) [ inl g ↦ rw (e, f, g) refl | inr g ↦ rw (e, f, g) refl ]
  ]
]

schedule-Scheduled_example :
    (s' : Tasks) × (schedule three ≡ some s') × Scheduled 0 (1 ∷ 2 ∷ []) 2 s'
schedule-Scheduled_example =
    schedule-Scheduled three 0 (1 ∷ 2 ∷ []) refl refl three-IsRing only_main

add_task-IsRing_example :
    (s' : Tasks) × (add_task 5 three ≡ some s')
    × IsRing s'.tasks 0 (1 ∷ 2 ∷ 5 ∷ [])
    × ((u : ℕ) → (s'.tasks u).state ≡ (three.tasks u).state)
add_task-IsRing_example =
    add_task-IsRing three 0 (1 ∷ 2 ∷ []) 5 refl three-IsRing (omega arith) refl

task_remove-IsRing_example :
    (s' : Tasks) × (task_remove (some 2) [] three ≡ some s')
    × IsRing s'.tasks 0 (1 ∷ [])
    × ((s'.tasks 2).state ≡ unused)
    × ((s'.tasks 2).next ≡ none)
    × ((u : ℕ) → u ≢ 2 → (s'.tasks u).state ≡ (three.tasks u).state)
task_remove-IsRing_example =
    task_remove-IsRing three 0 2 (1 ∷ 2 ∷ []) [] refl refl three-IsRing refl
