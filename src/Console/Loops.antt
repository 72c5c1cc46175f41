-- ===== src/Console/Loops.antt =====
-- What the loops of src/kernel/console.c leave at each word of the buffer, and where the cursor's
-- loops stop.
use dar_os.Base.{
  ℕ, zero, suc, ◌+◌, ◌-◌, ◌/◌, ◌%◌, ◌≤◌, ◌<◌, ◌≡◌, refl, ap, ◌∙◌, ◌≢◌, ◌⊎◌, Bool, ◌&&◌, arith, ltb,
  leb, if◌then◌else◌, write, inl, inr,
}
use native.Mathlib.Decide.{dec_lt}
use dar_os.Console.Term.{
  empty_cell, copy, blank, open_gap, back_while, forth_while, word_start, word_end,
}

write_ne : (w : ℕ → ℕ) {i j : ℕ} (v : ℕ) → j ≢ i → write w i v j ≡ w j
write_ne w v ne = ground arith

write_eq : (w : ℕ → ℕ) {i j : ℕ} (v : ℕ) → j ≡ i → write w i v j ≡ v
write_eq w v e = ground arith

pub copy_lem :
    (n dst src : ℕ) (w : ℕ → ℕ) (j : ℕ)
    → dst / 2 ≤ src / 2
    → copy n dst src w j
      ≡ (if leb (dst / 2) j && ltb j (dst / 2 + n) then w (j + src / 2 - dst / 2) else w j)
unfolding copy
copy_lem zero dst src w j le = ground arith
copy_lem (suc n) dst src w j le =
    ground (arith, copy_lem n (dst + 2) (src + 2) (write w (dst / 2) (w (src / 2))) j)

pub blank_lem :
    (n i : ℕ) (w : ℕ → ℕ) (j : ℕ)
    → blank n i w j ≡ (if leb (i / 2) j && ltb j (i / 2 + n) then empty_cell else w j)
unfolding blank
blank_lem zero i w j = ground arith
blank_lem (suc n) i w j = ground (arith, blank_lem n (i + 2) (write w (i / 2) empty_cell) j)

pub open_gap-outside :
    (n i : ℕ) (w : ℕ → ℕ) (j : ℕ)
    → n ≤ i / 2
    → (j + n ≤ i / 2) ⊎ (i / 2 < j)
    → open_gap n i w j ≡ w j
unfolding open_gap
open_gap-outside zero i w j le out = refl
open_gap-outside (suc n) i w j le (inl low) =
    open_gap-outside n (i - 2) _ j (omega arith) (inl (omega arith))
    ∙ write_ne w (w ((i - 2) / 2)) (omega arith)
open_gap-outside (suc n) i w j le (inr high) =
    open_gap-outside n (i - 2) _ j (omega arith) (inr (omega arith))
    ∙ write_ne w (w ((i - 2) / 2)) (omega arith)

pub open_gap-inside :
    (n i : ℕ) (w : ℕ → ℕ) (j : ℕ)
    → n ≤ i / 2
    → i / 2 < j + n
    → j ≤ i / 2
    → open_gap n i w j ≡ w (j - 1)
unfolding open_gap
open_gap-inside zero i w j le low high = absurd (omega arith)
open_gap-inside (suc n) i w j le low high = elim (dec_lt j (i / 2)) [
  | yes lt ↦
      open_gap-inside n (i - 2) _ j (omega arith) (omega arith) (omega arith)
      ∙ write_ne w (w ((i - 2) / 2)) (omega arith)
  | no ge ↦
      open_gap-outside n (i - 2) _ j (omega arith) (inr (omega arith))
      ∙ write_eq w (w ((i - 2) / 2)) (omega arith)
      ∙ ap w (omega arith)
]

-- The cursor's loops stay within the line, at whole words.
pub back_while_bounds :
    (p : ℕ → Bool) (n : ℕ) (w : ℕ → ℕ) (anchor cur : ℕ)
    → anchor ≤ cur
    → anchor % 2 ≡ 0
    → cur % 2 ≡ 0
    → (anchor ≤ back_while p n w anchor cur)
      × (back_while p n w anchor cur ≤ cur)
      × (back_while p n w anchor cur % 2 ≡ 0)
unfolding back_while
back_while_bounds p zero w anchor cur le ea ec = omega arith
back_while_bounds p (suc n) w anchor cur le ea ec =
    ground (arith, back_while_bounds p n w anchor (cur - 2))

pub forth_while_bounds :
    (p : ℕ → Bool) (n : ℕ) (w : ℕ → ℕ) (end cur : ℕ)
    → cur ≤ end
    → end % 2 ≡ 0
    → cur % 2 ≡ 0
    → (cur ≤ forth_while p n w end cur)
      × (forth_while p n w end cur ≤ end)
      × (forth_while p n w end cur % 2 ≡ 0)
unfolding forth_while
forth_while_bounds p zero w end cur le ee ec = omega arith
forth_while_bounds p (suc n) w end cur le ee ec =
    ground (arith, forth_while_bounds p n w end (cur + 2))

pub word_start_bounds :
    (w : ℕ → ℕ) (anchor cur : ℕ)
    → anchor ≤ cur
    → anchor % 2 ≡ 0
    → cur % 2 ≡ 0
    → (anchor ≤ word_start w anchor cur)
      × (word_start w anchor cur ≤ cur)
      × (word_start w anchor cur % 2 ≡ 0)
unfolding word_start
word_start_bounds w anchor cur le ea ec = grind (arith, back_while_bounds)

pub word_end_bounds :
    (w : ℕ → ℕ) (end cur : ℕ)
    → cur ≤ end
    → end % 2 ≡ 0
    → cur % 2 ≡ 0
    → (cur ≤ word_end w end cur) × (word_end w end cur ≤ end) × (word_end w end cur % 2 ≡ 0)
unfolding word_end
word_end_bounds w end cur le ee ec = grind (arith, forth_while_bounds)
