-- ===== src/Tests/Machine.antt =====
-- A machine with a process that runs and one that has exited.
use yoz_os.Base.{◌==◌, if◌then◌else◌, true, false, none, some, [], ◌∷◌}
use yoz_os.Disk.{Buffer}
use yoz_os.Vfs.Files.{vfs_init}
use yoz_os.Memory.Paging.{AddressSpace, Paging, kernel}
use yoz_os.User.Store.{Program, Process, Machine, running, exited, no_process}
use yoz_os.Tests.Ring.{three}

-- The directory at 0x2000 has a table at 0x3000, and that has the page 0x70000.
abbrev pub ram : Buffer
ram i =
    if i == 0x2000
    then 7
    else if i == 0x2001
    then 0x30
    else if i == 0x31c0
    then 7
    else if i == 0x31c2
    then 7
    else 0

abbrev pub space : AddressSpace
space = record { page_directory = 0x2000; low_page_table = 0x3000 }

-- The frames 0 to 31 are in use.
abbrev pub paging : Paging
paging = record {
  ram = ram;
  frames = λ i. if i == 0 then 0xffffffff else 0;
  kernel_space = record { page_directory = 0x4000; low_page_table = 0x5000 };
  user_spaces = λ i. if i == 0 then space else record { page_directory = 0; low_page_table = 0 };
  current_space = some kernel;
}

-- A program of which the process may only read the data.
abbrev pub program : Program
program = record {
  entry = 0x70010;
  stack_top = 0x80000;
  regions = record { start = 0x70000; len = 64; flags = 1 } ∷ [];
}

abbrev pub runner : Process
runner = record no_process {
  pid = 1;
  task = some 2;
  program = some program;
  address_space = some 0;
  state = running;
}

abbrev pub finished : Process
finished = record no_process { pid = 2; state = exited; exit_code = 3 }

abbrev pub machine : Machine
machine = record {
  paging = paging;
  vfs = vfs_init (λ _ _. 0);
  tasks = three;
  processes =
      runner ∷ finished ∷ no_process ∷ no_process ∷ no_process ∷ no_process ∷ no_process
      ∷ no_process ∷ [];
  current = some 0;
  next_user_pid = 3;
  pending_test = none;
  pending_fault = none;
  line_ready = false;
  line_buffer = [];
  user_owns_keyboard = true;
  screen = [];
}
