-- ===== src/Keyboard/Work.antt =====
-- How a key gets from the interrupt to `keyScanned`, src/kernel/interrupt.c: `irq1_kbd` queues the byte and work,
-- and `waitloop` takes the work from its queue, a piece at a time, between which there may be interrupts.
use dar_os.Base.{ℕ, ◌%◌, ◌==◌, ◌++◌, if◌then◌else◌, List, [], ◌∷◌}
use dar_os.Queue.{Queue, pop, push}
use dar_os.Keyboard.Scan.{Kbd, Act, key_scanned}

-- The work queue, the buffer of bytes, the keyboard, what scanning has done so far, and the other work done, the latest
-- first.
pub record Pending : Type 0 where
  pub wq : Queue
  pub kbd_buf : Queue
  pub kbd : Kbd
  pub acts : List Act
  pub ran : List ℕ

-- An interrupt of the keyboard, one that queues other work, or a round of the loop.
pub data Event : Type 0 where
  scanned : (code : ℕ) → Event
  due : (f : ℕ) → Event
  work : Event

unfoldable pub process_keys : Pending → Pending
process_keys s =
    let code = (pop s.kbd_buf).0 % 256 in
    record s {
      kbd_buf = (pop s.kbd_buf).1;
      kbd = (key_scanned code s.kbd).0;
      acts = s.acts ++ (key_scanned code s.kbd).1;
    }

-- `f()` for what `pop` returned; null ends the loop. `keys` is the address of `process_keys`.
unfoldable pub run : (keys f : ℕ) → Pending → Pending
run keys f s =
    if f == 0 then s else if f == keys then process_keys s else record s { ran = f ∷ s.ran }

-- `junk` is what `realloc` adds to a queue.
module _ (keys : ℕ) (junk : ℕ → ℕ) where
  unfoldable pub irq1_kbd : (code : ℕ) → Pending → Pending
  irq1_kbd code s = record s { kbd_buf = push junk s.kbd_buf code; wq = push junk s.wq keys }

  unfoldable pub step : Event → Pending → Pending
  step (scanned code) s = irq1_kbd code s
  step (due f) s = record s { wq = push junk s.wq f }
  step work s = run keys (pop s.wq).0 (record s { wq = (pop s.wq).1 })

  unfoldable pub handle_all : List Event → Pending → Pending
  handle_all [] s = s
  handle_all (e ∷ es) s = handle_all es (step e s)
