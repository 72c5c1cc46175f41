-- ===== src/Ints/Nesting.antt =====
-- Nested sections without interrupts.
use dar_os.Base.{
  ℕ, zero, suc, ◌+◌, ◌-◌, ◌^◌, ◌<◌, ◌≡◌, refl, ap, sym, ◌∙◌, Bool, true, false, not, ◌&&◌, ◌==◌,
  if◌then◌else◌, List, [], ◌∷◌, ◌++◌, length, arith,
}
use dar_os.Ints.{Ints, Op, off, on, no_ints, ints_okay_once_on, ints_okay, do_op, run}

-- Whether `d` sections that are open, and those that the calls open, are closed again by the calls, and no
-- others.
unfoldable pub closes : ℕ → List Op → Bool
closes d [] = d == 0
closes d (off ∷ os) = closes (suc d) os
closes d (on ∷ os) = if d == 0 then false else closes (d - 1) os

-- Whether interrupts are off after each of the calls.
unfoldable pub all_off : List Op → Ints → Bool
all_off [] s = true
all_off (o ∷ os) s = not (do_op o s).enabled && all_off os (do_op o s)

-- Closing a section within another one.
inner-on :
    (b : ℕ) (s : Ints)
    → 0 < b
    → b + 1 < 2 ^ 64
    → s.int_blocks ≡ b + 1
    → s.enabled ≡ false
    → ((ints_okay s).int_blocks ≡ b)
      × ((ints_okay s).enabled ≡ false)
      × ((ints_okay s).warned ≡ s.warned)
unfolding ints_okay ints_okay_once_on
inner-on b s pos small e dis = (ground arith, ground arith, ground arith)

closes-on : (d : ℕ) (os : List Op) → closes (suc d) (on ∷ os) ≡ true → closes d os ≡ true
unfolding closes
closes-on d os c =
    let back : suc d - 1 ≡ d = omega arith in ap (λ k. closes k os) (sym back) ∙ ground (arith, c)

-- The calls within a section.
body-off :
    (os : List Op) (b d : ℕ) (s : Ints)
    → closes d os ≡ true
    → 0 < b
    → b + d + length os < 2 ^ 64
    → s.int_blocks ≡ b + d
    → s.enabled ≡ false
    → ((run os s).int_blocks ≡ b)
      × ((run os s).enabled ≡ false)
      × ((run os s).warned ≡ s.warned)
      × (all_off os s ≡ true)
unfolding closes all_off run do_op no_ints ints_okay ints_okay_once_on
body-off [] b d s c pos small e dis = (ground arith, dis, refl, refl)
body-off (off ∷ os) b d s c pos small e dis =
    let (x, y, w, z) = body-off os b (suc d) (no_ints s) c pos (omega arith) (ground arith) refl in
    (x, y, w, z)
body-off (on ∷ os) b zero s c pos small e dis = cc
body-off (on ∷ os) b (suc d) s c pos small e dis =
    let (x, y, w) = inner-on (b + d) s (omega arith) (omega arith) (omega arith) dis in
    let (x', y', w', z') = body-off os b d (ints_okay s) (closes-on d os c) pos (omega arith) x y in
    (x', y', w' ∙ w, ground (arith, y, z'))

run-append : (os ps : List Op) (s : Ints) → run (os ++ ps) s ≡ run ps (run os s)
unfolding run
run-append [] ps s = refl
run-append (o ∷ os) ps s = run-append os ps (do_op o s)

outer-on :
    (b : ℕ) (s : Ints)
    → b + 1 < 2 ^ 64
    → s.int_blocks ≡ b + 1
    → s.enabled ≡ false
    → ((ints_okay s).int_blocks ≡ b)
      × ((ints_okay s).enabled ≡ (b == 0))
      × ((ints_okay s).warned ≡ s.warned)
unfolding ints_okay ints_okay_once_on
outer-on b s small e dis = (ground arith, ground arith, ground arith)

-- A section between `no_ints` and `ints_okay`, in which every section that is opened is closed again, runs
-- with interrupts off from its start to its end. Afterwards the count is as it was, interrupts are on
-- exactly if it was 0, and no warning has been logged; for a count that does not wrap.
pub section-off :
    (body : List Op) (s : Ints)
    → closes 0 body ≡ true
    → s.int_blocks + 1 + length body < 2 ^ 64
    → let t = run (off ∷ (body ++ (on ∷ []))) s in
      (all_off (off ∷ body) s ≡ true)
      × (t.int_blocks ≡ s.int_blocks)
      × (t.enabled ≡ (s.int_blocks == 0))
      × (t.warned ≡ s.warned)
unfolding run do_op all_off no_ints
section-off body s c small =
    let s' = no_ints s in
    let (x, y, w, z) =
      body-off body (s.int_blocks + 1) 0 s' c (omega arith) (omega arith) (omega arith) refl in
    let (x', y', w') = outer-on s.int_blocks (run body s') (omega arith) x y in
    let split = run-append body (on ∷ []) s' in
    (
      z,
      ap (λ u. u.int_blocks) split ∙ x',
      ap (λ u. u.enabled) split ∙ y',
      ap (λ u. u.warned) split ∙ w' ∙ w,
    )
