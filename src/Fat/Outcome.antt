-- ===== src/Fat/Outcome.antt =====
-- How a call of fs/fat.c ends, and the monad of its early returns.
use yoz_os.Base.{Bool, true, false, Option, none, some}
use yoz_os.Disk.{Disk}

-- The FAT_ERR codes of fs/fat.h. FAT_OK is the constructor `ok` of an outcome.
pub data Error : Type 0 where
  invalid exists not_found no_space too_big not_empty : Error

-- `stuck`: the call does not return, for a division by zero or a walk along a cyclic chain.
pub data Outcome (A : Type 0) : Type 0 where
  ok : A → Disk → Outcome A
  err : Error → Disk → Outcome A
  stuck : Outcome A

abbrev pub Cmd : Type 0 → Type 0
Cmd A = Disk → Outcome A

module _ {A : Type 0} where
  abbrev pub pure : A → Cmd A
  pure a d = ok a d

  abbrev pub fail : Error → Cmd A
  fail e d = err e d

  -- Read the disk.
  abbrev pub reads : (Disk → A) → Cmd A
  reads f d = ok (f d) d

  abbrev pub or_fail : Option A → Error → Cmd A
  or_fail none e d = err e d
  or_fail (some a) e d = ok a d

  abbrev pub or_stuck : Option A → Cmd A
  or_stuck none d = stuck
  or_stuck (some a) d = ok a d

-- Change the disk.
abbrev pub writes : (Disk → Disk) → Cmd (Unit {0})
writes f d = ok tt (f d)

-- Return the error if the test holds.
abbrev pub fail_if : Bool → Error → Cmd (Unit {0})
fail_if true e d = err e d
fail_if false e d = ok tt d

module _ {A B : Type 0} where
  abbrev pub and_then : Outcome A → (A → Cmd B) → Outcome B
  and_then (ok a d) k = k a d
  and_then (err e d) k = err e d
  and_then stuck k = stuck

  infixl 5 ◌>>=◌ ◌>>◌
  abbrev pub ◌>>=◌ : Cmd A → (A → Cmd B) → Cmd B
  (m >>= k) d = and_then (m d) k

  abbrev pub ◌>>◌ : Cmd A → Cmd B → Cmd B
  (m >> k) d = and_then (m d) (λ _. k)
