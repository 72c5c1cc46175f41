-- ===== src/Idt/Last.antt =====
-- The handler that `init_interrupts` of src/kernel/interrupt.c sets last for each vector.
use dar_os.Base.{
  ℕ, zero, suc, ◌+◌, ◌<◌, ◌≤◌, ◌≡◌, refl, ap, ◌∙◌, sym, ◌==◌, ◌||◌, ◌&&◌, leb, ltb, Bool, true,
  false, if◌then◌else◌, Option, none, some, List, [], ◌∷◌, ◌++◌, arith, Bool-cases, inl, inr,
}
use dar_os.Idt.Table.{
  Handler, default_pic_p, default_pic_s, default_interrupt, irq0, irq1_kbd, irq8_rtc, trap, etrap,
  divide_by_zero, double_fault, page_fault, int0x80, traps, singles, ending,
}

-- The exceptions for which a handler is set that takes an error code, without 8 and 14.
unfoldable pub has_error : ℕ → Bool
has_error v = (leb 0x0a v && leb v 0x0d) || v == 0x11 || v == 0x15 || v == 0x1d || v == 0x1e

-- The handler of an exception, the vectors below 32.
unfoldable pub exception : ℕ → Handler
exception v =
    if v == 0
    then divide_by_zero
    else if v == 8
    then double_fault
    else if v == 14
    then page_fault
    else if has_error v
    then etrap v
    else trap v

-- The handler of an interrupt of a device: eight vectors of each of the two controllers.
unfoldable pub device : ℕ → Handler
device v =
    if v == 32
    then irq0
    else if v == 33
    then irq1_kbd
    else if v == 40
    then irq8_rtc
    else if ltb v 40
    then default_pic_p
    else default_pic_s

unfoldable pub handler_of : ℕ → Handler
handler_of v =
    if ltb v 32
    then exception v
    else if ltb v 48
    then device v
    else if v == 0x80
    then int0x80
    else default_interrupt

-- The last handler that a list sets for a vector, or what it had before.
unfoldable pub last_of : List (ℕ × Handler) → ℕ → Option Handler → Option Handler
last_of [] v o = o
last_of ((u, h) ∷ hs) v o = last_of hs v (if v == u then some h else o)

last_of-append :
    (hs gs : List (ℕ × Handler)) (v : ℕ) (o : Option Handler)
    → last_of (hs ++ gs) v o ≡ last_of gs v (last_of hs v o)
unfolding last_of
last_of-append [] gs v o = refl
last_of-append ((u, h) ∷ hs) gs v o = last_of-append hs gs v (if v == u then some h else o)

last_of-traps :
    (n u v : ℕ) (o : Option Handler)
    → last_of (traps n u) v o ≡ (if leb u v && ltb v (u + n) then some (trap v) else o)
unfolding last_of traps
last_of-traps zero u v o =
    let out : (leb u v && ltb v (u + 0)) ≡ false = ground arith in rw out refl
last_of-traps (suc n) u v o =
    last_of-traps n (u + 1) v (if v == u then some (trap u) else o) ∙ elim (Bool-cases (v == u)) [
      | inl e ↦
          let at : v ≡ u = ground arith in
          let out : (leb (u + 1) v && ltb v (u + 1 + n)) ≡ false = ground arith in
          let in_it : (leb u v && ltb v (u + suc n)) ≡ true = ground arith in
          rw (out, in_it, e) (ap (λ w. some (trap w)) (sym at))
      | inr ne ↦
          let same : (leb (u + 1) v && ltb v (u + 1 + n)) ≡ (leb u v && ltb v (u + suc n)) =
            ground arith in
          rw (ne, same) refl
    ]

last_of-singles :
    (v : ℕ) (o : Option Handler)
    → let first = last_of ((0x20, irq0) ∷ (0x21, irq1_kbd) ∷ (0x28, irq8_rtc) ∷ []) v o in
      last_of singles v o
      ≡ last_of ending v (if leb 0 v && ltb v (0 + 32) then some (trap v) else first)
unfolding last_of
last_of-singles v o =
    let first = last_of ((0x20, irq0) ∷ (0x21, irq1_kbd) ∷ (0x28, irq8_rtc) ∷ []) v o in
    last_of-append (traps 32 0) ending v first ∙ ap (last_of ending v) (last_of-traps 32 0 v first)

pub singles-exception : (v : ℕ) → v < 32 → last_of singles v none ≡ some (handler_of v)
unfolding last_of handler_of exception has_error
singles-exception v lt = last_of-singles v none ∙ ground arith

pub singles-primary :
    (v : ℕ) → 32 ≤ v → v < 40 → last_of singles v (some default_pic_p) ≡ some (handler_of v)
unfolding last_of handler_of device
singles-primary v ge lt = last_of-singles v (some default_pic_p) ∙ ground arith

pub singles-secondary :
    (v : ℕ) → 40 ≤ v → v < 48 → last_of singles v (some default_pic_s) ≡ some (handler_of v)
unfolding last_of handler_of device
singles-secondary v ge lt = last_of-singles v (some default_pic_s) ∙ ground arith

pub singles-default :
    (v : ℕ) → 48 ≤ v → last_of singles v (some default_interrupt) ≡ some (handler_of v)
unfolding last_of handler_of
singles-default v ge = last_of-singles v (some default_interrupt) ∙ ground arith
