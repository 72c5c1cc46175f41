-- ===== src/Callbacks/Ticks.antt =====
-- The ticks of the timer, `irq0_pit` of src/kernel/interrupt.c: which callbacks it queues, how often, and how often it ends
-- a time slice.
use dar_os.Base.{
  ℕ, mul64, zero, suc, ◌+◌, ◌*◌, ◌/◌, ◌%◌, ◌^◌, ◌<◌, ◌≤◌, ◌≡◌, refl, ap, ◌∙◌, sym, ◌==◌, ◌||◌, true,
  false, if◌then◌else◌, Option, none, some, add64, List, [], ◌∷◌, ◌++◌, arith, Bool-cases, inl, inr,
  append_assoc, append-nil,
}
use native.Mathlib.Nat.{
  mul-zero, mod-lt, div-add-mod, div-eq_of_eq-mul_right, mul-mod_right, mul-add-div,
  mul-add-mod_self_left, mod-eq_of_lt, div-eq_of_lt,
}
use dar_os.Queue.{Queue, push}
use dar_os.Queue.Fifo
use dar_os.Queue.Fifo.{not_full, push-count, contents, count, count-store, push-room}
use dar_os.Callbacks.{
  Callback, Callbacks, tick_hz, is_valid, ticks_between, is_due, is_passed, queue_due, queue_all,
  ms_after, Timer, count_tick, with_queue, irq0_pit,
}
use dar_os.Callbacks.Table.{entries, registered}

-- The functions of the callbacks that are due at a tick, in the order of the table.
unfoldable pub due : (ticks : ℕ) → List Callback → List ℕ
due ticks [] = []
due ticks (c ∷ cs) = if is_due ticks c then c.f ∷ due ticks cs else due ticks cs

-- The timer gets past each of them.
unfoldable pub Passed : List Callback → Type 0
Passed [] = Unit
Passed (c ∷ cs) = (is_passed c ≡ true) × Passed cs

-- What is to hold of the queue: `xs` is behind what was queued.
unfoldable Queued : (q : Queue) (xs : List ℕ) → Option Queue → Type 0
Queued q xs o = (q' : Queue) × (o ≡ some q') × (contents q' ≡ contents q ++ xs) × Fifo.IsValid q'

queue_due-Queued :
    (rounds i ticks : ℕ) (junk : ℕ → ℕ) (pcs : ℕ → Callback) (q : Queue)
    → Passed (entries rounds i pcs)
    → Fifo.IsValid q
    → count q + rounds < q.cap
    → Queued q (due ticks (entries rounds i pcs)) (queue_due rounds i ticks junk pcs q)
unfolding queue_due due entries Passed Queued
queue_due-Queued zero i ticks junk pcs q pass v room = (q, refl, sym (append-nil (contents q)), v)
queue_due-Queued (suc rounds) i ticks junk pcs q (p, pass) v room =
    let later = due ticks (entries rounds (i + 1) pcs) in
    elim (Bool-cases (is_due ticks (pcs i))) [
      | inl e ↦
          let q1 = push junk q (pcs i).f in
          let free = not_full q v (omega arith) in
          let (pushed, v1) = push-room junk (pcs i).f v free in
          let more = push-count junk q (pcs i).f v free in
          let (q', o, rest, w) =
            queue_due-Queued rounds (i + 1) ticks junk pcs q1 pass v1 (omega arith) in
          rw (e, p)
            (
              q',
              o,
              rest
                  ∙ ap (λ xs. xs ++ later) pushed
                  ∙ append_assoc (contents q) ((pcs i).f ∷ []) later,
              w,
            )
      | inr e ↦ rw (e, p) (queue_due-Queued rounds (i + 1) ticks junk pcs q pass v (omega arith))
    ]

-- How many of the `n` ticks after the first `k` a callback is due at.
unfoldable pub due_count : Callback → (n k : ℕ) → ℕ
due_count c zero k = 0
due_count c (suc n) k = (if is_due (k + 1) c then 1 else 0) + due_count c n (k + 1)

suc-div_lem : (k p : ℕ) → 0 < p → (k + 1) / p ≡ k / p + (if (k + 1) % p == 0 then 1 else 0)
suc-div_lem k p pos =
    let q = k / p in
    let r = k % p in
    let lt : r < p = mod-lt k pos in
    let whole : p * q + r ≡ k = div-add-mod k p in
    elim (Bool-cases (r + 1 == p)) [
      | inl last ↦
          let at : k + 1 ≡ p * (q + 1) = grind arith in
          let quotient : (k + 1) / p ≡ q + 1 = div-eq_of_eq-mul_right pos at in
          let remainder : (k + 1) % p ≡ 0 = ap (λ n. n % p) at ∙ mul-mod_right p (q + 1) in
          rw (quotient, remainder) refl
      | inr inner ↦
          let lt' : r + 1 < p = ground arith in
          let at : k + 1 ≡ p * q + (r + 1) = omega arith in
          let quotient : (k + 1) / p ≡ q + 0 =
            ap (λ n. n / p) at ∙ mul-add-div pos q (r + 1) ∙ ap (λ n. q + n) (div-eq_of_lt lt') in
          let remainder : (k + 1) % p ≡ r + 1 =
            ap (λ n. n % p) at ∙ mul-add-mod_self_left p q (r + 1) ∙ mod-eq_of_lt lt' in
          let some : (r + 1 == 0) ≡ false = ground arith in rw (quotient, remainder, some) refl
    ]

-- A callback is due once in each of its periods, if there are some ticks between its runs: how often as many ticks as that
-- fit into the first `k + n` ticks is how often they fit into the first `k`, and as many times more as the callback is due
-- at the `n` ticks behind those.
pub due_count-periods :
    (c : Callback) (n k : ℕ)
    → 0 < ticks_between c
    → (k + n) / ticks_between c ≡ k / ticks_between c + due_count c n k
unfolding due_count is_due
due_count-periods c zero k pos =
    let p = ticks_between c in let e : k + 0 ≡ k = omega arith in ap (λ n. n / p) e ∙ omega arith
due_count-periods c (suc n) k pos =
    let p = ticks_between c in
    let e : k + suc n ≡ k + 1 + n = omega arith in
    let rest = due_count-periods c n (k + 1) pos in
    let step = suc-div_lem k p pos in ap (λ m. m / p) e ∙ rest ∙ omega arith

div-positive : (n p : ℕ) → 0 < p → p ≤ n → 0 < n / p
div-positive n p pos le =
    let whole : p * (n / p) + n % p ≡ n = div-add-mod n p in
    let lt : n % p < p = mod-lt n pos in
    elim (Bool-cases (n / p == 0)) [
      | inl e ↦
          let zeroth : n / p ≡ 0 = ground arith in
          let none : p * (n / p) ≡ 0 = ap (λ q. p * q) zeroth ∙ mul-zero p in
          absurd (omega (arith, whole, lt, none, le))
      | inr other ↦ ground arith
    ]

-- There are some ticks between the runs of a callback that is registered, with a period of a second or more for which the
-- source's product of 64 bits does not wrap.
pub ticks_between-positive :
    (c : Callback)
    → is_valid c ≡ true
    → 0 < c.period
    → tick_hz * c.period < 2 ^ 64
    → 0 < ticks_between c
unfolding is_valid ticks_between
ticks_between-positive c valid some_period fits =
    let exact : mul64 tick_hz c.period ≡ tick_hz * c.period = mod-eq_of_lt fits in
    let least : c.count ≤ tick_hz * c.period = ground arith in
    let some_count : 0 < c.count = ground arith in
    rw exact (div-positive (tick_hz * c.period) c.count some_count least)

-- The timer ends a time slice at one of any three ticks.
pub count_tick-slices :
    (t : Timer)
    → t.last_ms ≤ ms_after t.ticks
    → t.ticks < 2 ^ 40
    → let (t1, over1) = count_tick t in
      let (t2, over2) = count_tick t1 in
      let (t3, over3) = count_tick t2 in
      ((over1 || (over2 || over3)) ≡ true) × (t3.last_ms ≤ ms_after t3.ticks)
unfolding count_tick ms_after
count_tick-slices t le small = ground arith

queue_table :
    (junk : ℕ → ℕ) (ticks : ℕ) (pcs : Option (ℕ → Callback)) (len cap : ℕ) (q : Queue)
    → let s : Callbacks = record { pcs = pcs; len = len; cap = cap } in
      Passed (registered s)
      → Fifo.IsValid q
      → count q + len < q.cap
      → Queued q (due ticks (registered s)) (queue_all junk ticks s q)
unfolding registered due queue_all Queued
queue_table junk ticks none len cap q pass v room = (q, refl, sym (append-nil (contents q)), v)
queue_table junk ticks (some pcs) len cap q pass v room =
    queue_due-Queued len 0 ticks junk pcs q pass v room

-- At a tick the functions of the callbacks that are due, and no others, are queued behind what is queued, in the order in
-- which they were registered, and the time is counted, if the queue has room for as many as there are callbacks and each of
-- them has a count from 1 to 1000 and some ticks between its runs.
pub irq0_pit-due :
    (junk : ℕ → ℕ) (t : Timer)
    → Passed (registered t.callbacks)
    → Fifo.IsValid t.wq
    → count t.wq + t.callbacks.len < t.wq.cap
    → (q : Queue) × (irq0_pit junk t ≡ some (record (count_tick t).0 { wq = q }, (count_tick t).1))
      × (contents q ≡ contents t.wq ++ due (add64 t.ticks 1) (registered t.callbacks))
      × Fifo.IsValid q
unfolding irq0_pit Queued count_tick
irq0_pit-due junk t pass v room =
    let s = t.callbacks in
    let (q, e, c, w) = queue_table junk (add64 t.ticks 1) s.pcs s.len s.cap t.wq pass v room in
    (q, ap (with_queue (count_tick t)) e, c, w)
