-- ===== src/Queue/Grow.antt =====
-- What `push` of src/kernel/interrupt.c does to a full queue.
use dar_os.Base.{
  ℕ, zero, suc, ◌+◌, ◌^◌, ◌≤◌, ◌<◌, ◌≡◌, refl, ap, ◌∙◌, true, false, [], ◌∷◌, ◌++◌, arith,
}
use dar_os.Queue.{Queue, inc, is_full, grow, store, push}
use dar_os.Queue.Fifo.{
  IsValid, count, span, contents, contents-store, store-IsValid, contents-empty,
}

-- A span that does not reach the end of the block is the same in a larger block with a copy.
span-agree :
    (s t : ℕ → ℕ) (cap big h n : ℕ)
    → h + n < cap
    → cap ≤ big
    → ((i : ℕ) → i < cap → t i ≡ s i)
    → span t big h n ≡ span s cap h n
unfolding span inc
span-agree s t cap big h zero p q same = refl
span-agree s t cap big h (suc n) p q same = ground (arith, same h, span-agree s t cap big (h + 1) n)

module _ {q : Queue} (junk : ℕ → ℕ) (p : ℕ) (v : IsValid q) (small : q.cap < 2 ^ 63) where
  grow-IsValid : IsValid (grow junk q)
  unfolding grow
  grow-IsValid = omega arith

  grow-room : q.head ≡ 0 → is_full (grow junk q) ≡ false
  unfolding grow is_full
  grow-room e = ground arith

  count-grow : q.head ≤ q.tail → count (grow junk q) ≡ count q
  unfolding grow count
  count-grow le = ground arith

  count-bound : q.head ≤ q.tail → q.head + count q < q.cap
  unfolding count
  count-bound le = ground arith

  contents-grow : q.head ≤ q.tail → contents (grow junk q) ≡ contents q
  unfolding contents grow
  contents-grow le =
      ap (span (grow junk q).slot (grow junk q).cap q.head) (count-grow le)
      ∙ span-agree q.slot (grow junk q).slot q.cap (grow junk q).cap q.head (count q)
          (count-bound le) (omega arith) (λ i h. ground arith)

  -- `push` on a full queue whose pointers lie from slot 0 on in one piece doubles the block, appends
  -- the pointer and keeps the invariant.
  pub push-full :
      is_full q ≡ true
      → q.head ≡ 0
      → (contents (push junk q p) ≡ contents q ++ (p ∷ [])) × IsValid (push junk q p)
  unfolding push
  push-full e z = rw e (
    contents-store p grow-IsValid (grow-room z)
        ∙ ap (λ xs. xs ++ (p ∷ [])) (contents-grow (omega arith)),
    store-IsValid p grow-IsValid,
  )

  -- `push` on a full queue whose pointers go round the end of the block loses them all: the queue is
  -- empty afterwards, the pointer that was pushed included.
  pub push-wrapped : q.tail + 1 ≡ q.head → contents (push junk q p) ≡ []
  unfolding push is_full grow store inc
  push-wrapped e = contents-empty (push junk q p) (ground arith)
