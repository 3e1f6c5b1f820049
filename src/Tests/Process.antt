-- ===== src/Tests/Process.antt =====
-- The theorems on processes and system calls at a small machine.
use yoz_os.Base.{ℕ, ◌+◌, ◌<◌, ◌≤◌, ◌≡◌, ◌≢◌, refl, arith, true, none, some, ◌^◌, ◌-◌, List, [], ◌∷◌}
use yoz_os.Memory.Paging.{page_ok}
use yoz_os.Memory.Paging.Pages.{Tells}
use yoz_os.Task.Calls.{task_kill}
use yoz_os.User.Store.{Machine, process_at, exit_killed, unused}
use yoz_os.User.Access.{user_memory_ok}
use yoz_os.User.Table.{
  pid_from, user_process_find_pid, user_process_kill_pid, kill_found, kill_task, after_kill,
  user_waitpid_status, user_process_reap, user_process_alloc,
}
use yoz_os.User.Run.{user_exit_current}
use yoz_os.User.Segments.{user_map_elf_segments}
use yoz_os.User.Allowed.{Any, Covers, user_memory_ok-Tells}
use yoz_os.User.Ends.{user_process_kill_pid-waitpid}
use yoz_os.User.Exits.{user_exit_current-waitpid, user_exit_current-again}
use yoz_os.User.Mapped.{Ends}
use yoz_os.User.Loads.{user_map_elf_segments-Ends}
use yoz_os.User.Reaped.{user_process_reap-alloc}
use yoz_os.User.Stack.{
  build_stack, set_args, words, skip_blanks, take_word, user_process_copy_arg, copy_arg,
}
use yoz_os.User.Arguments.{Arguments, build_stack-set_args}
use yoz_os.Tests.Data.{volume}
use yoz_os.Tests.Machine.{machine, program, ram}

user_memory_ok-Tells_example : Tells (user_memory_ok 0x70010 4 1 machine) (
    (0x70010 + 4 ≤ 2 ^ 32)
    × ((k : ℕ) → k < 4 → page_ok ram 0x2000 (0x70010 + k) ≡ true)
    × Any (Covers 0x70010 4 1) program.regions)
user_memory_ok-Tells_example =
    user_memory_ok-Tells 0x70010 4 1 0 0 program machine (omega arith) (omega arith) (omega arith)
      refl refl refl (λ e. absurd (omega arith)) (omega arith)

found : user_process_find_pid 1 machine ≡ some 0
unfolding user_process_find_pid pid_from
found = refl

abbrev killed_machine : Machine
killed_machine = (user_process_kill_pid volume 1 machine).1

killed : user_process_kill_pid volume 1 machine ≡ (1, killed_machine)
unfolding user_process_kill_pid kill_found kill_task after_kill user_process_find_pid pid_from
    task_kill
killed = refl

user_process_kill_pid-waitpid_example :
    (user_waitpid_status 1 killed_machine ≡ exit_killed)
    × ((other : ℕ)
        → other ≢ 1
        → user_waitpid_status other killed_machine ≡ user_waitpid_status other machine)
    × (user_process_kill_pid volume 1 killed_machine ≡ (2, killed_machine))
user_process_kill_pid-waitpid_example =
    user_process_kill_pid-waitpid volume 1 machine killed_machine killed

user_exit_current-waitpid_example :
    (m' : Machine) × (user_exit_current volume 7 machine ≡ some m')
    × (user_waitpid_status 1 m' ≡ 7)
    × ((other : ℕ) → other ≢ 1 → user_waitpid_status other m' ≡ user_waitpid_status other machine)
    × (m'.current ≡ none)
user_exit_current-waitpid_example =
    user_exit_current-waitpid volume 1 0 7 machine refl found (omega arith)

user_exit_current-again_example :
    (m' : Machine) × (user_exit_current volume (2 ^ 32 - 1) machine ≡ some m')
    × (m'.processes ≡ machine.processes)
    × (m'.current ≡ machine.current)
user_exit_current-again_example =
    user_exit_current-again volume 0 machine program refl refl (omega arith)

user_map_elf_segments-Ends_example : Ends 0 8 (user_map_elf_segments 0 (λ _. 0) 100 machine)
user_map_elf_segments-Ends_example =
    user_map_elf_segments-Ends 0 (λ _. 0) 100 machine (omega arith) (omega arith)

user_process_reap-alloc_example :
    ((process_at (user_process_reap volume machine) 1).state ≡ unused)
    × ((j : ℕ) × ((user_process_alloc (user_process_reap volume machine)).0 ≡ some j))
user_process_reap-alloc_example =
    user_process_reap-alloc volume 1 machine refl (omega arith) refl refl

abbrev echo : List ℕ
echo = b'e' ∷ b'c' ∷ b'h' ∷ b'o' ∷ []

abbrev echo_args : List ℕ
echo_args = b'h' ∷ b'i' ∷ b' ' ∷ b'y' ∷ []

echo_argv : set_args echo echo_args ≡ echo ∷ (b'h' ∷ b'i' ∷ []) ∷ (b'y' ∷ []) ∷ []
unfolding set_args words skip_blanks take_word user_process_copy_arg copy_arg
echo_argv = refl

build_stack-set_args_example :
    ((build_stack 0x3000 (set_args echo echo_args) ram).0 ≡ true)
    × Arguments 0x3000
        (build_stack 0x3000 (set_args echo echo_args) ram).1.sp
        (build_stack 0x3000 (set_args echo echo_args) ram).1.ram
        (set_args echo echo_args)
build_stack-set_args_example = build_stack-set_args 0x3000 echo echo_args ram (omega arith)
