-- ===== src/Callbacks.antt =====
-- The periodic callbacks of src/kernel/periodic_callback.c, and how `irq0_pit` of src/kernel/interrupt.c queues them.
pub mod Table
pub mod Ticks
mod Tests
use dar_os.Base.{
  ℕ, zero, suc, ◌+◌, ◌*◌, ◌/◌, ◌%◌, ◌^◌, ◌==◌, ltb, leb, ◌&&◌, ◌||◌, Bool, true, false,
  if◌then◌else◌, write, Option, none, some, add64, sub64, mul64, not,
}
use dar_os.Queue.{Queue, push}

pub record Callback : Type 0 where
  pub count : ℕ
  pub period : ℕ
  pub f : ℕ

-- `pcs` is the array, a null pointer until there is a callback; it has `cap` elements. A callback is copied to memory of
-- its own that nothing changes, so that an element is the callback.
pub record Callbacks : Type 0 where
  pub pcs : Option (ℕ → Callback)
  pub len : ℕ
  pub cap : ℕ

abbrev pub tick_hz : ℕ
tick_hz = 1000

abbrev pub init_cap : ℕ
init_cap = 10

unfoldable pub is_valid : Callback → Bool
is_valid c = not (ltb c.count 1 || ltb tick_hz c.count)

-- The array and its capacity with room for one more; what `malloc` and `realloc` add is `junk`.
unfoldable pub with_room : (junk : ℕ → Callback) → Callbacks → (ℕ → Callback) × ℕ
with_room junk s = elim s.pcs [
  | none ↦ (junk, init_cap)
  | some pcs ↦
      if leb s.cap (s.len + 1)
      then (λ i. if ltb i s.cap then pcs i else junk i, mul64 s.cap 2)
      else (pcs, s.cap)
]

unfoldable pub register_periodic_callback : (junk : ℕ → Callback) → Callback → Callbacks → Callbacks
register_periodic_callback junk c s =
    let (pcs, cap) = with_room junk s in
    if is_valid c
    then record { pcs = some (write pcs s.len c); len = add64 s.len 1; cap = cap }
    else s

unfoldable pub is_same : Callback → Callback → Bool
is_same a b = (a.count == b.count) && (a.period == b.period) && (a.f == b.f)

-- The loop's rounds from `i` on; `found` as in the source.
unfoldable pub close_gap :
    (rounds i : ℕ) (found : Bool) (c : Callback) → (ℕ → Callback) → ℕ → Callback
close_gap zero i found c pcs = pcs
close_gap (suc rounds) i found c pcs =
    let moved = write pcs i (pcs (i + 1)) in
    close_gap rounds (i + 1) (found || is_same (pcs i) c) c (if found then moved else pcs)

-- `len - 1` is of 64 bits, and so is the number of rounds.
unfoldable pub unregister_periodic_callback : Callback → Callbacks → Callbacks
unregister_periodic_callback c s = elim s.pcs [
  | none ↦ s
  | some pcs ↦ record s {
    pcs = some (close_gap (sub64 s.len 1) 0 false c pcs);
    len = sub64 s.len 1;
  }
]

-- The ticks between two runs of a callback.
unfoldable pub ticks_between : Callback → ℕ
ticks_between c = mul64 tick_hz c.period / c.count

-- Whether a callback is to run at a tick.
unfoldable pub is_due : (ticks : ℕ) → Callback → Bool
is_due ticks c = ticks % ticks_between c == 0

-- Whether `irq0_pit` gets past a callback: it halts if the count is not valid, and a remainder by 0 is a fault.
unfoldable pub is_passed : Callback → Bool
is_passed c = is_valid c && not (ticks_between c == 0)

-- The functions of the callbacks that are due, from `i` on, onto the work queue; none where the processor stops.
unfoldable pub queue_due :
    (rounds i ticks : ℕ) (junk : ℕ → ℕ) → (ℕ → Callback) → Queue → Option Queue
queue_due zero i ticks junk pcs q = some q
queue_due (suc rounds) i ticks junk pcs q =
    let rest =
      queue_due rounds (i + 1) ticks junk pcs
        (if is_due ticks (pcs i) then push junk q (pcs i).f else q) in
    if is_passed (pcs i) then rest else none

abbrev pub pit_freq : ℕ
pit_freq = 1193182

abbrev pub pit_count : ℕ
pit_count = pit_freq / tick_hz

-- The milliseconds since the boot after so many ticks.
unfoldable pub ms_after : ℕ → ℕ
ms_after ticks = mul64 (mul64 ticks pit_count) 1000 / pit_freq

pub record Timer : Type 0 where
  pub ticks : ℕ
  pub ms : ℕ
  pub last_ms : ℕ
  pub wq : Queue
  pub callbacks : Callbacks

-- What a tick counts, and whether a time slice of 2 ms is over, when the process that runs is interrupted.
unfoldable pub count_tick : Timer → Timer × Bool
count_tick t =
    let ticks = add64 t.ticks 1 in
    let ms = ms_after ticks in
    let over = leb (add64 t.last_ms 2) ms in
    (record t { ticks = ticks; ms = ms; last_ms = if over then ms else t.last_ms }, over)

unfoldable pub queue_all : (junk : ℕ → ℕ) (ticks : ℕ) → Callbacks → Queue → Option Queue
queue_all junk ticks s q = elim s.pcs [
  | none ↦ some q
  | some pcs ↦ queue_due s.len 0 ticks junk pcs q
]

-- The state with the queue, if the processor has not stopped.
abbrev pub with_queue : Timer × Bool → Option Queue → Option (Timer × Bool)
with_queue (t, over) none = none
with_queue (t, over) (some q) = some (record t { wq = q }, over)

-- `irq0_pit`, up to what it does with the process that runs.
unfoldable pub irq0_pit : (junk : ℕ → ℕ) → Timer → Option (Timer × Bool)
irq0_pit junk t = with_queue (count_tick t) (queue_all junk (count_tick t).0.ticks t.callbacks t.wq)
