-- ===== src/Task/Store.antt =====
-- The static variables of task/task.c. A pointer to a task is a number: 0 for `main_task`, 1 for
-- `idle_task` and `2 + i` for `task_table[i]`; a null pointer is `none`.
use yoz_os.Base.{ℕ, ◌==◌, if◌then◌else◌, Bool, true, false, Option, none, some, List}
use yoz_os.Memory.Frames.{Bitmap}

-- `task_state_t`.
pub data TaskState : Type 0 where
  unused ready running blocked exited : TaskState

abbrev pub is_ready : TaskState → Bool
is_ready unused = false
is_ready ready = true
is_ready running = false
is_ready blocked = false
is_ready exited = false

abbrev pub is_running : TaskState → Bool
is_running unused = false
is_running ready = false
is_running running = true
is_running blocked = false
is_running exited = false

abbrev pub is_exited : TaskState → Bool
is_exited unused = false
is_exited ready = false
is_exited running = false
is_exited blocked = false
is_exited exited = true

abbrev pub is_unused : TaskState → Bool
is_unused unused = true
is_unused ready = false
is_unused running = false
is_unused blocked = false
is_unused exited = false

-- `task_t`. The process and the address space are pointers, 0 for null.
pub record Task : Type 0 where
  pub id : ℕ
  pub name : List ℕ
  pub state : TaskState
  pub esp : ℕ
  pub user_process : ℕ
  pub address_space : ℕ
  pub next : Option ℕ

abbrev pub main_task : ℕ
main_task = 0

abbrev pub idle_task : ℕ
idle_task = 1

-- MAX_TASKS, and `&task_table[0]`.
abbrev pub max_tasks : ℕ
max_tasks = 16

abbrev pub task_table : ℕ
task_table = 2

-- The tasks, the other static variables, and the frames that the stacks come from.
pub record Tasks : Type 0 where
  pub tasks : ℕ → Task
  pub current : Option ℕ
  pub task_list : Option ℕ
  pub next_task_id : ℕ
  pub scheduler_ready : Bool
  pub task_test_started : Bool
  pub task_a : Option ℕ
  pub task_b : Option ℕ
  pub frames : Bitmap

abbrev pub set_task : Tasks → ℕ → Task → Tasks
set_task s t x = record s { tasks = λ u. if u == t then x else s.tasks u }

abbrev pub set_state : Tasks → ℕ → TaskState → Tasks
set_state s t state = set_task s t (record (s.tasks t) { state = state })

abbrev pub set_next : Tasks → ℕ → Option ℕ → Tasks
set_next s t next = set_task s t (record (s.tasks t) { next = next })

abbrev pub points_to : Option ℕ → ℕ → Bool
points_to none t = false
points_to (some u) t = u == t
