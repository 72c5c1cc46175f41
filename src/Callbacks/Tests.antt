-- ===== src/Callbacks/Tests.antt =====
-- The periodic callbacks at concrete tables.
use dar_os.Base.{
  ℕ, ◌+◌, ◌==◌, ◌/◌, ◌<◌, ◌≡◌, refl, some, [], ◌∷◌, ◌++◌, arith, add64, if◌then◌else◌,
}
use dar_os.Queue.{Queue}
use dar_os.Queue.Fifo
use dar_os.Queue.Fifo.{contents, count}
use dar_os.Callbacks.{
  Callback, Callbacks, is_valid, register_periodic_callback, unregister_periodic_callback, is_same,
  close_gap, is_passed, ticks_between, count_tick, Timer, irq0_pit,
}
use dar_os.Callbacks.Table.{
  entries, registered, IsValid, unregistered, register-registered, unregister-registered,
}
use dar_os.Callbacks.Ticks.{due, Passed, due_count, due_count-periods, irq0_pit-due}

abbrev clock : Callback
clock = record { count = 60; period = 1; f = 100 }

abbrev heap_use : Callback
heap_use = record { count = 2; period = 1; f = 200 }

abbrev queue_caps : Callback
queue_caps = record { count = 1; period = 2; f = 300 }

abbrev table : ℕ → Callback
table i = if i == 0 then queue_caps else if i == 1 then clock else heap_use

abbrev callbacks : Callbacks
callbacks = record { pcs = some table; len = 3; cap = 10 }

callbacks-IsValid : IsValid callbacks
unfolding IsValid
callbacks-IsValid = omega arith

-- Registering a fourth.
register-registered_example :
    let s = register_periodic_callback (λ _. clock) clock callbacks in
    (registered s
      ≡ (if is_valid clock then registered callbacks ++ (clock ∷ []) else registered callbacks))
    × IsValid s
register-registered_example =
    register-registered (λ _. clock) clock callbacks callbacks-IsValid (omega arith)

unregister-registered_example :
    (registered (unregister_periodic_callback clock callbacks)
      ≡ unregistered clock (registered callbacks))
    × IsValid (unregister_periodic_callback clock callbacks)
unregister-registered_example =
    unregister-registered clock callbacks callbacks-IsValid (omega arith) (omega arith)

-- The clock stays, and the use of the heap goes.
unregister_clock :
    registered (unregister_periodic_callback clock callbacks) ≡ queue_caps ∷ clock ∷ []
unfolding registered unregister_periodic_callback close_gap is_same entries
unregister_clock = refl

some_ticks : 0 < ticks_between heap_use
unfolding ticks_between
some_ticks = omega arith

due_count-periods_example :
    (7 + 1000) / ticks_between heap_use ≡ 7 / ticks_between heap_use + due_count heap_use 1000 7
due_count-periods_example = due_count-periods heap_use 1000 7 some_ticks

abbrev queue : Queue
queue = record { slot = λ _. 0; head = 2; tail = 2; cap = 20 }

queue-IsValid : Fifo.IsValid queue
queue-IsValid = record { head_in = omega arith; tail_in = omega arith; room = omega arith }

queue_room : count queue + 3 < 20
unfolding count
queue_room = omega arith

abbrev timer : Timer
timer = record { ticks = 499; ms = 498; last_ms = 498; wq = queue; callbacks = callbacks }

all_pass : Passed (registered callbacks)
unfolding Passed registered entries is_passed is_valid ticks_between
all_pass = (refl, (refl, (refl, tt)))

irq0_pit-due_example :
    (q : Queue) × (irq0_pit (λ _. 0) timer
      ≡ some (record (count_tick timer).0 { wq = q }, (count_tick timer).1))
    × (contents q ≡ contents queue ++ due (add64 499 1) (registered callbacks))
    × Fifo.IsValid q
irq0_pit-due_example = irq0_pit-due (λ _. 0) timer all_pass queue-IsValid queue_room
