-- ===== src/Userspace/Numbers.antt =====
-- The numbers of the first loop of src/userspace/app.c.
use dar_os.Base.{
  ℕ, zero, suc, ◌+◌, ◌*◌, ◌^◌, ◌<◌, ◌≤◌, ◌≡◌, refl, ap, ◌∙◌, ltb, true, false, some, add64, arith,
  Bool-cases, inl, inr,
}
use dar_os.Userspace.{fib_next, fib_bound, fib_loop}

-- `n` rounds on unbounded numbers.
unfoldable pub after : (n : ℕ) → ℕ × ℕ → ℕ × ℕ
after zero s = s
after (suc n) s = after n (s.1, s.1 + s.0)

-- The second number is at least about one and a half and at most two times the first, as 1 is of 1.
pub record Growing (s : ℕ × ℕ) : Type 0 where
  pub real : 0 < s.1
  pub least : 3 * s.0 ≤ 2 * s.1 + 1
  pub most : s.1 ≤ 2 * s.0

Growing-next : (s : ℕ × ℕ) → Growing s → Growing (s.1, s.1 + s.0)
Growing-next s g = record {
  real = omega (arith, g.real);
  least = omega (arith, g.most);
  most = omega (arith, g.least, g.most);
}

next-exact : (s : ℕ × ℕ) → Growing s → s.1 < fib_bound → fib_next s ≡ (s.1, s.1 + s.0)
unfolding fib_next
next-exact s g lt =
    let least = g.least in let e : add64 s.1 s.0 ≡ s.1 + s.0 = omega arith in ap (λ n. (s.1, n)) e

loop-ends : (fuel : ℕ) (s : ℕ × ℕ) → ltb s.1 fib_bound ≡ false → fib_loop (suc fuel) s ≡ some s
unfolding fib_loop
loop-ends fuel s e = rw e refl

loop-goes :
    (fuel : ℕ) (s : ℕ × ℕ)
    → ltb s.1 fib_bound ≡ true
    → fib_loop (suc fuel) s ≡ fib_loop fuel (fib_next s)
unfolding fib_loop
loop-goes fuel s e = rw e refl

-- The loop ends after some rounds in which no sum wraps, with a second number of at least 10 ^ 19 that is below 2 ^ 64. That is
-- so from any numbers, as the program's 1 and 1, of which the second is positive, below 2 ^ 64 and at most twice the first,
-- and three times the first is at most one more than twice the second; the fuel is enough if it is not 0 and
-- together with the second number more than 10 ^ 19.
pub fib_loop-after :
    (fuel : ℕ) (s : ℕ × ℕ)
    → Growing s
    → s.1 < 2 ^ 64
    → 0 < fuel
    → fib_bound < s.1 + fuel
    → (n : ℕ) × (fib_loop fuel s ≡ some (after n s))
      × (fib_bound ≤ (after n s).1)
      × ((after n s).1 < 2 ^ 64)
unfolding after
fib_loop-after zero s g small pos enough = absurd (omega arith)
fib_loop-after (suc fuel) s g small pos enough = elim (Bool-cases (ltb s.1 fib_bound)) [
  | inl lt ↦
      let next = next-exact s g (ground arith) in
      let least = g.least in
      let most = g.most in
      let real = g.real in
      let bound : s.1 < fib_bound = ground arith in
      let (n, ends, ge, fits) =
        fib_loop-after fuel (s.1, s.1 + s.0) (Growing-next s g) (omega arith) (omega arith)
          (omega arith) in
      (suc n, loop-goes fuel s lt ∙ ap (fib_loop fuel) next ∙ ends, ge, fits)
  | inr ge ↦ (0, loop-ends fuel s ge, ground arith, small)
]
