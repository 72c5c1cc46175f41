-- ===== src/Console/Insert.antt =====
-- `printcc` of src/kernel/console.c on the cells of the line.
use dar_os.Base.{
  ℕ, ◌+◌, ◌-◌, ◌*◌, ◌/◌, ◌≤◌, ◌<◌, ◌≡◌, ap, ap₂, ◌∙◌, ◌∷◌, arith, ltb, if◌then◌else◌, inl, inr,
}
use dar_os.Console.Term.{Term, empty_cell, rounds, open_gap, printcc}
use dar_os.Console.Loops.{open_gap-outside, open_gap-inside}
use dar_os.Console.Line.{line, right_of, left_cells, edited, insert}
use dar_os.Console.Cells.{IsLine, left_of-agree, right_of-shift, left_cells-cons}

abbrev gap : Term → ℕ → ℕ
gap t = if ltb t.cur t.end then open_gap (rounds t.cur t.end) t.end t.word else t.word

gap_low : {t : Term} → IsLine t → (j : ℕ) → j ≤ t.cur / 2 → gap t j ≡ t.word j
gap_low {t} v j le =
    ground (
      arith,
      open_gap-outside (rounds t.cur t.end) t.end t.word j (omega arith) (inl (omega arith)),
    )

gap_high :
    {t : Term} → IsLine t → (j : ℕ) → t.cur / 2 < j → j ≤ t.end / 2 → gap t j ≡ t.word (j - 1)
gap_high {t} v j lo hi =
    ground
      (arith, open_gap-inside (rounds t.cur t.end) t.end t.word j (omega arith) (omega arith) hi)

gap_behind : {t : Term} → IsLine t → (j : ℕ) → t.end / 2 < j → gap t j ≡ empty_cell
gap_behind {t} v j lo = ground (
  arith,
  open_gap-outside (rounds t.cur t.end) t.end t.word j (omega arith) (inr lo),
  v.behind j (omega arith),
)

pred_eq : {j k : ℕ} → j ≡ k + 1 → j - 1 ≡ k
pred_eq e = omega arith

module _ {t : Term} (v : IsLine t) where
  open v use {behind}

  pub printcc-IsLine : (c cl : ℕ) → IsLine (printcc c cl t)
  unfolding printcc
  printcc-IsLine c cl = record {
    anchor_even = omega arith;
    cur_even = omega arith;
    end_even = omega arith;
    anchor_le = omega arith;
    cur_le = omega arith;
    behind = λ j le. ground (arith, gap_behind v j);
  }

  printcc_after :
      (c cl j k : ℕ)
      → t.cur / 2 < j
      → j ≤ t.end / 2
      → j ≡ k + 1
      → (printcc c cl t).word j ≡ t.word k
  unfolding printcc
  printcc_after c cl j k lo hi e = ground (arith, gap_high v j lo hi, ap t.word (pred_eq e))

  pub edited-printcc : (c cl : ℕ) → edited (printcc c cl t) ≡ insert (cl * 256 + c) (edited t)
  unfolding edited insert printcc
  edited-printcc c cl =
      let w = (printcc c cl t).word in
      ap₂ line
        (left_cells-cons w t.anchor (t.cur + 2) (omega arith)
          ∙ ap₂ (λ x xs. x ∷ xs) (ground arith)
              (ap (left_cells w t.anchor) (omega arith)
                ∙ left_of-agree w t.word (t.cur / 2) (t.cur / 2 - t.anchor / 2) (omega arith)
                    (λ j p q. ground (arith, gap_low v j))))
        (ap (right_of w ((t.cur + 2) / 2)) (omega arith)
          ∙ right_of-shift w t.word ((t.cur + 2) / 2) (t.cur / 2) (t.end / 2 - t.cur / 2)
              (λ j k p q e. printcc_after c cl j k (omega arith) (omega arith) (omega arith)))
