-- ===== src/Ints.antt =====
-- `no_ints`, `ints_okay_once_on` and `ints_okay` of src/kernel/interrupt.h, with which the kernel turns
-- interrupts off for a section of code, also within another one.
pub mod Nesting
mod Tests
use dar_os.Base.{ℕ, add64, sub64, Bool, true, false, ◌==◌, if◌then◌else◌, List, [], ◌∷◌}

-- `int_blocks`, the processor's interrupt flag, and whether the warning has been logged.
pub record Ints : Type 0 where
  pub int_blocks : ℕ
  pub enabled : Bool
  pub warned : Bool

unfoldable pub no_ints : Ints → Ints
no_ints s = record s { enabled = false; int_blocks = add64 s.int_blocks 1 }

unfoldable pub ints_okay_once_on : Ints → Ints
ints_okay_once_on s =
    if s.int_blocks == 0
    then record s { warned = true }
    else record s { int_blocks = sub64 s.int_blocks 1 }

unfoldable pub ints_okay : Ints → Ints
ints_okay s =
    let s' = ints_okay_once_on s in if s'.int_blocks == 0 then record s' { enabled = true } else s'

pub data Op : Type 0 where
  off : Op
  on : Op

unfoldable pub do_op : Op → Ints → Ints
do_op off s = no_ints s
do_op on s = ints_okay s

unfoldable pub run : List Op → Ints → Ints
run [] s = s
run (o ∷ os) s = run os (do_op o s)
