-- ===== src/Ints/Tests.antt =====
-- The nesting of src/kernel/interrupt.h at a concrete section.
use dar_os.Base.{◌≡◌, refl, true, false, ◌==◌, List, [], ◌∷◌, ◌++◌, arith}
use dar_os.Ints.{Ints, Op, off, on, run}
use dar_os.Ints.Nesting.{closes, all_off, section-off}

abbrev idle : Ints
idle = record { int_blocks = 0; enabled = true; warned = false }

-- Two sections one after the other, the first with another one in it.
abbrev inner : List Op
inner = off ∷ off ∷ on ∷ on ∷ off ∷ on ∷ []

inner-closes : closes 0 inner ≡ true
unfolding closes
inner-closes = refl

section-off_example :
    let t = run (off ∷ (inner ++ (on ∷ []))) idle in
    (all_off (off ∷ inner) idle ≡ true)
    × (t.int_blocks ≡ 0)
    × (t.enabled ≡ (0 == 0))
    × (t.warned ≡ false)
section-off_example = section-off inner idle inner-closes (omega arith)
