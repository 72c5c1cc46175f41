-- ===== src/Malloc/Runs.antt =====
-- Runs of entries in the map of src/lib/malloc.c: what the tests see and what the writes leave.

use dar_os.Base.{
  some, ℕ, zero, suc, ◌+◌, ◌-◌, ◌*◌, ◌/◌, ◌≤◌, ◌<◌, ◌≡◌, refl, ap, ◌∙◌, true, ◌&&◌, arith, ◌==◌,
  ltb, leb, if◌then◌else◌, Bool-cases, inl, inr,
}
use native.Mathlib.Decide.{dec_lt}
use dar_os.Malloc.{per_quad, bfree, bpart, bend, is_free, whole_quads, place, set_mask, fill_quads}

-- A map `f` with a block of `n` entries from `e` on: all `BPART` but for the last, which is `BEND`.
unfoldable pub with_block : (ℕ → ℕ) → (e n : ℕ) → ℕ → ℕ
with_block f e n j =
    if leb e j && ltb j (e + n) then (if j + 1 == e + n then bend else bpart) else f j

-- The entries from `e` up to `e + n` are free.
abbrev pub FreeRun : (ℕ → ℕ) → (e n : ℕ) → Type 0
FreeRun f e n = (j : ℕ) → e ≤ j → j < e + n → f j ≡ bfree

pub is_free-FreeRun : (f : ℕ → ℕ) (e n : ℕ) → is_free f e n ≡ true → FreeRun f e n
unfolding is_free
is_free-FreeRun f e zero h j p q = absurd (omega arith)
is_free-FreeRun f e (suc n) h j p q = elim (dec_lt e j) [
  | yes lt ↦ is_free-FreeRun f (e + 1) n (ground arith) j (omega arith) (omega arith)
  | no ge ↦ ap f (omega arith) ∙ first
]
  where
    first : f e ≡ bfree
    first = ground arith

pub FreeRun-is_free : (f : ℕ → ℕ) (e n : ℕ) → FreeRun f e n → is_free f e n ≡ true
unfolding is_free
FreeRun-is_free f e zero h = refl
FreeRun-is_free f e (suc n) h =
    ground (arith, h e, FreeRun-is_free f (e + 1) n (λ j p q. h j (omega arith) (omega arith)))

pub whole_quads-true :
    (n i : ℕ) (f : ℕ → ℕ)
    → (whole_quads n i f).0 ≡ true
    → ((whole_quads n i f).1 ≡ i + n) × FreeRun f (per_quad * i) (per_quad * n)
unfolding whole_quads
whole_quads-true zero i f h = (omega arith, λ j p q. absurd (omega arith))
whole_quads-true (suc n) i f h = elim (Bool-cases (is_free f (per_quad * i) per_quad)) [
  | inl e ↦
      let (k, run) = whole_quads-true n (i + 1) f (rw e at h) in
      rw e (
        k ∙ omega arith,
        λ j p q. elim (dec_lt j (per_quad * i + per_quad)) [
          | yes lt ↦ is_free-FreeRun f (per_quad * i) per_quad e j p lt
          | no ge ↦ run j (omega arith) (omega arith)
        ],
      )
  | inr e ↦ absurd (ground arith)
]

pub whole_quads-ge : (n i : ℕ) (f : ℕ → ℕ) → i ≤ (whole_quads n i f).1
unfolding whole_quads
whole_quads-ge zero i f = omega arith
whole_quads-ge (suc n) i f = ground (arith, whole_quads-ge n (i + 1) f)

pub place-some :
    (n j needed need i : ℕ) (f : ℕ → ℕ) (k : ℕ)
    → place n j needed need i f ≡ some k
    → (j ≤ k)
      × (k < j + n)
      × (is_free f (per_quad * i + k) need ≡ true)
      × (per_quad < needed → k ≡ j)
unfolding place
place-some zero j needed need i f k h = cc
place-some (suc n) j needed need i f k h = ground (arith, place-some n (j + 1) needed need i f k)

pub fill_quads_lem :
    (n i : ℕ) (f : ℕ → ℕ) (e : ℕ)
    → n ≤ i
    → fill_quads n i f e
      ≡ (if leb (per_quad * (i - n)) e && ltb e (per_quad * i) then bpart else f e)
unfolding fill_quads
fill_quads_lem zero i f e le = ground arith
fill_quads_lem (suc n) i f e le =
    ground (arith, fill_quads_lem n (i - 1) (λ j. if j / per_quad == i - 1 then bpart else f j) e)

pub set_mask_lem :
    (i j need : ℕ) (f : ℕ → ℕ) (e : ℕ)
    → FreeRun f (per_quad * i + j) need
    → set_mask i j need f e ≡ with_block f (per_quad * i + j) need e
unfolding set_mask with_block
set_mask_lem i j need f e h =
    elim (Bool-cases (leb (per_quad * i + j) e && ltb e (per_quad * i + j + need))) [
      | inl e' ↦
          rw (e', h e (ground arith) (ground arith))
            (elim (Bool-cases (e + 1 == per_quad * i + j + need)) [ inl l ↦ rw l | inr m ↦ rw m ])
      | inr e' ↦ rw e'
    ]
