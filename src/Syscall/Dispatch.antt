-- ===== src/Syscall/Dispatch.antt =====
-- The dispatcher of cpu/syscall.c.
use yoz_os.Base.{ℕ, Option}
use yoz_os.Disk.{Buffer}
use yoz_os.Fat.Volume.{Volume}
use yoz_os.User.Store.{Machine}
use yoz_os.Syscall.Protects.{Keeps}

-- `Keeps` as a type that does not unfold.
record IsKept (ram : Buffer) (a : ℕ) (o : Option (ℕ × Machine)) : Type 0 where
  holds : Keeps ram a o
