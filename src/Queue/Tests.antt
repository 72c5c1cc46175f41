-- ===== src/Queue/Tests.antt =====
-- Runs of the queue of src/kernel/interrupt.c, and the theorems at concrete queues.
use dar_os.Base.{ℕ, ◌≡◌, ◌≢◌, ◌↔◌, refl, true, [], ◌∷◌, arith, nth_or}
use dar_os.Queue.{Queue, inc, pop, is_full, grow, store, push}
use dar_os.Queue.Fifo.{IsValid, count, span, contents, dequeue, pop_refines}
use dar_os.Queue.Grow.{push-wrapped}

abbrev no_junk : ℕ → ℕ
no_junk _ = 99

-- 8, then 9, round the end of a block of four slots.
abbrev wrapped : Queue
wrapped = record { slot = nth_or (9 ∷ 0 ∷ 0 ∷ 8 ∷ []) 0; head = 3; tail = 1; cap = 4 }

-- 5, 6 and 7 from slot 0 on; and the same one slot further.
abbrev full : Queue
full = record { slot = nth_or (5 ∷ 6 ∷ 7 ∷ 0 ∷ []) 0; head = 0; tail = 3; cap = 4 }

abbrev full_wrapped : Queue
full_wrapped = record { slot = nth_or (0 ∷ 5 ∷ 6 ∷ 7 ∷ []) 0; head = 1; tail = 0; cap = 4 }

contents-wrapped : contents wrapped ≡ 8 ∷ 9 ∷ []
unfolding contents span count inc
contents-wrapped = refl

-- The three pointers of a full queue that goes round the end are lost, and so is the fourth.
contents-full_wrapped :
    (contents full_wrapped ≡ 5 ∷ 6 ∷ 7 ∷ []) × (contents (push no_junk full_wrapped 8) ≡ [])
unfolding contents span count inc push is_full grow store
contents-full_wrapped = (refl, refl)

wrapped-IsValid : IsValid wrapped
wrapped-IsValid = omega arith

pop_refines_example :
    (((pop wrapped).0, contents (pop wrapped).1) ≡ dequeue (contents wrapped))
    × IsValid (pop wrapped).1
    × (((pop wrapped).2 ≡ true) ↔ (contents wrapped ≢ []))
pop_refines_example = pop_refines wrapped-IsValid

push-wrapped_example : contents (push no_junk full_wrapped 8) ≡ []
push-wrapped_example = push-wrapped no_junk 8 (omega arith) (omega arith) refl
