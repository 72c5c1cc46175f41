-- ===== src/Idt/Table.antt =====
-- The interrupt descriptor table that `init_interrupts` of src/kernel/interrupt.c fills.
use dar_os.Base.{ℕ, zero, suc, ◌+◌, List, [], ◌∷◌, ◌++◌}
use dar_os.Idt.{set_handler, type_int}

-- The handlers: the two for the interrupt controllers, the one for other vectors, those of devices, those of traps without
-- and with an error code on the stack, and the others by what they are for.
pub data Handler : Type 0 where
  default_pic_p : Handler
  default_pic_s : Handler
  default_interrupt : Handler
  irq0 : Handler
  irq1_kbd : Handler
  irq8_rtc : Handler
  trap : (n : ℕ) → Handler
  etrap : (n : ℕ) → Handler
  divide_by_zero : Handler
  double_fault : Handler
  page_fault : Handler
  int0x80 : Handler

-- `TRAPS(SET_GTRAP_N, ..)`, for `n` vectors from `vec` on.
unfoldable pub traps : (n vec : ℕ) → List (ℕ × Handler)
traps zero vec = []
traps (suc n) vec = (vec, trap vec) ∷ traps n (vec + 1)

-- `SET_GETRAP_N`.
abbrev pub with_error : ℕ → ℕ × Handler
with_error vec = (vec, etrap vec)

-- What is set after the traps.
abbrev pub ending : List (ℕ × Handler)
ending =
    (0, divide_by_zero)
    ∷ (8, double_fault)
    ∷ with_error 0x0a
    ∷ with_error 0x0b
    ∷ with_error 0x0c
    ∷ with_error 0x0d
    ∷ (0x0e, page_fault)
    ∷ with_error 0x11
    ∷ with_error 0x15
    ∷ with_error 0x1d
    ∷ with_error 0x1e
    ∷ (0x80, int0x80)
    ∷ []

-- What is set after the loops, in that order.
abbrev pub singles : List (ℕ × Handler)
singles = (0x20, irq0) ∷ (0x21, irq1_kbd) ∷ (0x28, irq8_rtc) ∷ (traps 32 0 ++ ending)

-- The handlers' addresses are an argument.
module _ (address : Handler → ℕ) where
  -- A loop, for `n` vectors from `vec` on.
  unfoldable pub set_range : (n vec : ℕ) → Handler → (ℕ → ℕ) → ℕ → ℕ
  set_range zero vec h idt = idt
  set_range (suc n) vec h idt = set_range n (vec + 1) h (set_handler vec (address h) type_int idt)

  unfoldable pub set_all : List (ℕ × Handler) → (ℕ → ℕ) → ℕ → ℕ
  set_all [] idt = idt
  set_all ((vec, h) ∷ hs) idt = set_all hs (set_handler vec (address h) type_int idt)

  -- The part of `init_interrupts` about the table.
  unfoldable pub init_table : (ℕ → ℕ) → ℕ → ℕ
  init_table idt = set_all singles (
      set_range 208 48 default_interrupt
        (set_range 8 40 default_pic_s (set_range 8 32 default_pic_p idt)))
