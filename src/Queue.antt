-- ===== src/Queue.antt =====
-- The work queue and the keyboard buffer of src/kernel/interrupt.c: `struct queue`, `pop` and `push`.
-- The pointers `head` and `tail` are kept as offsets from `start`, and the memory behind `start` as
-- a function of the slot. A queued pointer is a number, and 0 is the null that `pop` returns.
pub mod Fifo
pub mod Grow
mod Tests
use dar_os.Base.{
  ℕ, ◌+◌, ◌*◌, ◌%◌, ◌^◌, Bool, true, false, ◌&&◌, ◌||◌, ◌==◌, ltb, if◌then◌else◌, write,
}

pub record Queue : Type 0 where
  pub slot : ℕ → ℕ
  pub head : ℕ
  pub tail : ℕ
  pub cap : ℕ

-- `INITQ`. What `malloc` returns holds `junk`.
unfoldable pub init : (junk : ℕ → ℕ) → ℕ → Queue
init junk c = record { slot = junk; head = 0; tail = 0; cap = c }

-- `INC_Q_PT`.
unfoldable pub inc : (cap p : ℕ) → ℕ
inc cap p = if p + 1 == cap then 0 else p + 1

-- What `pop` returns, the queue that it leaves, and whether it leaves interrupts enabled.
unfoldable pub pop : Queue → ℕ × Queue × Bool
pop q =
    if q.head == q.tail
    then (0, q, false)
    else (q.slot q.head, record q { head = inc q.cap q.head }, true)

unfoldable pub is_full : Queue → Bool
is_full q = q.tail + 1 == q.head || (q.tail + 1 == q.cap && q.head == 0)

-- `realloc` moves the old block, and what follows it is `junk`; the offsets stay.
unfoldable pub grow : (junk : ℕ → ℕ) → Queue → Queue
grow junk q = record q {
  slot = λ i. if ltb i q.cap then q.slot i else junk i;
  cap = q.cap * 2 % 2 ^ 64;
}

-- The last two statements of `push`.
unfoldable pub store : Queue → ℕ → Queue
store q p = record q { slot = write q.slot q.tail p; tail = inc q.cap q.tail }

unfoldable pub push : (junk : ℕ → ℕ) → Queue → ℕ → Queue
push junk q p = store (if is_full q then grow junk q else q) p
