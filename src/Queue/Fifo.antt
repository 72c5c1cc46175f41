-- ===== src/Queue/Fifo.antt =====
-- The queue of src/kernel/interrupt.c against a list of pointers, oldest first.
use dar_os.Base.{
  ℕ, zero, suc, ◌+◌, ◌-◌, ◌≤◌, ◌<◌, ◌≡◌, refl, ap, ap₂, ◌↔◌, ◌∙◌, ◌≢◌, true, false, List, [], ◌∷◌,
  ◌++◌, arith, ◌==◌, leb, if◌then◌else◌, write, Bool-cases, inl, inr,
}
use dar_os.Queue.{Queue, inc, pop, is_full, store, push}

-- The offsets lie in the block, and the block has room for a free slot.
pub record IsValid (q : Queue) : Type 0 where
  pub head_in : q.head < q.cap
  pub tail_in : q.tail < q.cap
  pub room : 2 ≤ q.cap

-- The number of pointers queued.
unfoldable pub count : Queue → ℕ
count q = if leb q.head q.tail then q.tail - q.head else q.tail + q.cap - q.head

-- The `n` slots from `h` on, going round at `cap`, and the slot after them.
unfoldable pub span : (ℕ → ℕ) → ℕ → ℕ → ℕ → List ℕ
span s cap h zero = []
span s cap h (suc n) = s h ∷ span s cap (inc cap h) n

skip : ℕ → ℕ → ℕ → ℕ
skip cap h zero = h
skip cap h (suc n) = skip cap (inc cap h) n

unfoldable pub contents : Queue → List ℕ
contents q = span q.slot q.cap q.head (count q)

skip_lem :
    (cap h n : ℕ)
    → h < cap
    → n ≤ cap
    → skip cap h n ≡ (if leb cap (h + n) then h + n - cap else h + n)
unfolding skip inc
skip_lem cap h zero p q = ground arith
skip_lem cap h (suc n) p q = ground (arith, skip_lem cap (inc cap h) n)

span-append :
    (s : ℕ → ℕ) (cap h n : ℕ) → span s cap h (suc n) ≡ span s cap h n ++ (s (skip cap h n) ∷ [])
unfolding span skip
span-append s cap h zero = refl
span-append s cap h (suc n) = ap (λ xs. s h ∷ xs) (span-append s cap (inc cap h) n)

inc-lt : (cap h : ℕ) → h < cap → inc cap h < cap
unfolding inc
inc-lt cap h p = ground arith

-- Writing at the slot behind a span changes nothing in it.
span-write :
    (s : ℕ → ℕ) (cap h n i v : ℕ)
    → h < cap
    → n < cap
    → skip cap h n ≡ i
    → span (write s i v) cap h n ≡ span s cap h n
unfolding span skip
span-write s cap h zero i v p q e = refl
span-write s cap h (suc n) i v p q e =
    ground (arith, skip_lem cap h (suc n), inc-lt cap h, span-write s cap (inc cap h) n i v)

skip-count : {q : Queue} → IsValid q → skip q.cap q.head (count q) ≡ q.tail
unfolding count
skip-count {q} v = ground (arith, skip_lem q.cap q.head (count q))

count-lt : {q : Queue} → IsValid q → count q < q.cap
unfolding count
count-lt v = ground arith

pub count-store :
    {q : Queue} (p : ℕ) → IsValid q → is_full q ≡ false → count (store q p) ≡ suc (count q)
unfolding count store inc is_full
count-store p v e = ground arith

pub store-IsValid : {q : Queue} (p : ℕ) → IsValid q → IsValid (store q p)
unfolding store inc
store-IsValid p v = ground arith

write_self : (s : ℕ → ℕ) {i j : ℕ} (v : ℕ) → j ≡ i → write s i v j ≡ v
write_self s v e = ground arith

pub contents-store :
    {q : Queue} (p : ℕ)
    → IsValid q
    → is_full q ≡ false
    → contents (store q p) ≡ contents q ++ (p ∷ [])
unfolding contents store
contents-store {q} p v e =
    ap (span (write q.slot q.tail p) q.cap q.head) (count-store p v e)
    ∙ span-append (write q.slot q.tail p) q.cap q.head (count q)
    ∙ ap₂ (λ xs x. xs ++ (x ∷ []))
        (span-write q.slot q.cap q.head (count q) q.tail p v.head_in (count-lt v) (skip-count v))
        (write_self q.slot p (skip-count v))

-- The abstract queue: null at the end of the queue, and the oldest pointer otherwise.
unfoldable pub dequeue : List ℕ → ℕ × List ℕ
dequeue [] = (0, [])
dequeue (x ∷ xs) = (x, xs)

abbrev advance : Queue → Queue
advance q = record q { head = inc q.cap q.head }

count-empty : (q : Queue) → q.head ≡ q.tail → count q ≡ 0
unfolding count
count-empty q e = ground arith

count-advance : {q : Queue} → IsValid q → q.head ≢ q.tail → count q ≡ suc (count (advance q))
unfolding count inc
count-advance v ne = ground arith

pub contents-empty : (q : Queue) → q.head ≡ q.tail → contents q ≡ []
unfolding contents span
contents-empty q e = rw (count-empty q e)

contents-advance :
    (q : Queue) → IsValid q → q.head ≢ q.tail → contents q ≡ q.slot q.head ∷ contents (advance q)
unfolding contents span
contents-advance q v ne = ap (span q.slot q.cap q.head) (count-advance v ne)

-- `pop` is `dequeue` on the pointers queued, and it keeps the invariant. It leaves interrupts
-- enabled exactly if the queue was not empty.
pub pop_refines :
    {q : Queue}
    → IsValid q
    → (((pop q).0, contents (pop q).1) ≡ dequeue (contents q))
      × IsValid (pop q).1
      × (((pop q).2 ≡ true) ↔ (contents q ≢ []))
unfolding pop dequeue inc
pop_refines {q} v = elim (Bool-cases (q.head == q.tail)) [
  | inl e ↦ ground (arith, contents-empty q)
  | inr ne ↦ ground (arith, contents-advance q v)
]

-- `push` on a queue with a free slot appends the pointer and keeps the invariant.
pub push-room :
    {q : Queue} (junk : ℕ → ℕ) (p : ℕ)
    → IsValid q
    → is_full q ≡ false
    → (contents (push junk q p) ≡ contents q ++ (p ∷ [])) × IsValid (push junk q p)
unfolding push
push-room junk p v e = rw e (contents-store p v e, store-IsValid p v)

-- A queue with room for two more is not full.
pub not_full : (q : Queue) → IsValid q → count q + 1 < q.cap → is_full q ≡ false
unfolding count is_full
not_full q v lt = ground arith

pub push-count :
    (junk : ℕ → ℕ) (q : Queue) (p : ℕ)
    → IsValid q
    → is_full q ≡ false
    → (count (push junk q p) ≡ suc (count q)) × ((push junk q p).cap ≡ q.cap)
unfolding push store
push-count junk q p v free = rw free (count-store p v free, refl)

pub pop-count : (q : Queue) → IsValid q → (count (pop q).1 ≤ count q) × ((pop q).1.cap ≡ q.cap)
unfolding count pop inc
pop-count q v = ground arith
