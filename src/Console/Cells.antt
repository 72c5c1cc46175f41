-- ===== src/Console/Cells.antt =====
-- Reading the cells of a terminal of src/kernel/console.c.
use dar_os.Base.{
  ℕ, zero, suc, ◌+◌, ◌-◌, ◌/◌, ◌%◌, ◌≤◌, ◌<◌, ◌≡◌, refl, sym, ap, ap₂, ◌∙◌, [], ◌∷◌, arith,
}
use dar_os.Console.Term.{Term, empty_cell}
use dar_os.Console.Line.{shift_all, line, left_of, right_of, left_cells, right_cells, edited}

-- The offsets of a terminal are whole words in order, and behind the end every cell is empty.
pub record IsLine (t : Term) : Type 0 where
  pub anchor_even : t.anchor % 2 ≡ 0
  pub cur_even : t.cur % 2 ≡ 0
  pub end_even : t.end % 2 ≡ 0
  pub anchor_le : t.anchor ≤ t.cur
  pub cur_le : t.cur ≤ t.end
  pub behind : (j : ℕ) → t.end / 2 ≤ j → t.word j ≡ empty_cell

pub left_of-agree :
    (v w : ℕ → ℕ) (c n : ℕ)
    → n ≤ c
    → ((j : ℕ) → j < c → c ≤ j + n → v j ≡ w j)
    → left_of v c n ≡ left_of w c n
unfolding left_of
left_of-agree v w c zero le same = refl
left_of-agree v w c (suc n) le same =
    ap₂ (λ x xs. x ∷ xs) (same (c - 1) (omega arith) (omega arith))
      (left_of-agree v w (c - 1) n (omega arith) λ j p q. same j (omega arith) (omega arith))

pub right_of-shift :
    (v w : ℕ → ℕ) (d c n : ℕ)
    → ((j k : ℕ) → d ≤ j → j < d + n → j + c ≡ k + d → v j ≡ w k)
    → right_of v d n ≡ right_of w c n
unfolding right_of
right_of-shift v w d c zero same = refl
right_of-shift v w d c (suc n) same =
    ap₂ (λ x xs. x ∷ xs) (same d c (omega arith) (omega arith) (omega arith))
      (right_of-shift v w (d + 1) (c + 1) n
        λ j k p q e. same j k (omega arith) (omega arith) (omega arith))

pub left_of-suc :
    (w : ℕ → ℕ) (c n k m : ℕ) → c ≡ suc k → n ≡ suc m → left_of w c n ≡ w k ∷ left_of w k m
unfolding left_of
left_of-suc w c n k m ec en = ap₂ (left_of w) ec en ∙ ap (λ i. w i ∷ left_of w i m) (omega arith)

pub right_of-suc : (w : ℕ → ℕ) (c n m : ℕ) → n ≡ suc m → right_of w c n ≡ w c ∷ right_of w (c + 1) m
unfolding right_of
right_of-suc w c n m en = ap (right_of w c) en

-- The cell at the left of the cursor, and the cell at the cursor.
pub left_cells-cons :
    (w : ℕ → ℕ) (anchor cur : ℕ)
    → anchor / 2 < cur / 2
    → left_cells w anchor cur ≡ w (cur / 2 - 1) ∷ left_cells w anchor (cur - 2)
left_cells-cons w anchor cur lt =
    left_of-suc w (cur / 2) (cur / 2 - anchor / 2) (cur / 2 - 1) (cur / 2 - 1 - anchor / 2)
      (omega arith) (omega arith)
    ∙ ap (λ i. w (cur / 2 - 1) ∷ left_of w i (i - anchor / 2)) (omega arith)

pub right_cells-cons :
    (w : ℕ → ℕ) (cur end : ℕ)
    → cur / 2 < end / 2
    → right_cells w cur end ≡ w (cur / 2) ∷ right_cells w (cur + 2) end
right_cells-cons w cur end lt =
    right_of-suc w (cur / 2) (end / 2 - cur / 2) (end / 2 - (cur / 2 + 1)) (omega arith)
    ∙ ap (λ i. w (cur / 2) ∷ right_of w i (end / 2 - i)) (omega arith)

pub left_cells-nil :
    (w : ℕ → ℕ) (anchor cur : ℕ) → cur / 2 ≤ anchor / 2 → left_cells w anchor cur ≡ []
unfolding left_of
left_cells-nil w anchor cur le = ap (left_of w (cur / 2)) {y = 0} (omega arith)

pub right_cells-nil : (w : ℕ → ℕ) (cur end : ℕ) → end / 2 ≤ cur / 2 → right_cells w cur end ≡ []
unfolding right_of
right_cells-nil w cur end le = ap (right_of w (cur / 2)) {y = 0} (omega arith)

-- The same cells, seen from the other side of the cursor.
pub right_cells-before :
    (w : ℕ → ℕ) (cur end : ℕ)
    → 2 ≤ cur
    → cur ≤ end
    → right_cells w (cur - 2) end ≡ w (cur / 2 - 1) ∷ right_cells w cur end
right_cells-before w cur end two le =
    right_cells-cons w (cur - 2) end (omega arith)
    ∙ ap₂ (λ i c. w i ∷ right_of w c (end / 2 - c)) {y = cur / 2 - 1} (omega arith) (omega arith)

pub left_cells-after :
    (w : ℕ → ℕ) (anchor cur : ℕ)
    → anchor ≤ cur
    → left_cells w anchor (cur + 2) ≡ w (cur / 2) ∷ left_cells w anchor cur
left_cells-after w anchor cur le =
    left_cells-cons w anchor (cur + 2) (omega arith)
    ∙ ap₂ (λ i c. w i ∷ left_of w c (c - anchor / 2)) {y = cur / 2} (omega arith) (omega arith)

pub right_cells-all :
    (n : ℕ) (w : ℕ → ℕ) (anchor cur end : ℕ)
    → n + n + anchor ≡ cur
    → cur ≤ end
    → right_cells w anchor end ≡ shift_all (left_cells w anchor cur) (right_cells w cur end)
unfolding shift_all
right_cells-all zero w anchor cur end e le =
    rw (left_cells-nil w anchor cur (omega arith)) (ap (λ c. right_cells w c end) (omega arith))
right_cells-all (suc n) w anchor cur end e le =
    right_cells-all n w anchor (cur - 2) end (omega arith) (omega arith)
    ∙ ap (shift_all (left_cells w anchor (cur - 2))) (right_cells-before w cur end (omega arith) le)
    ∙ sym
        (ap (λ l. shift_all l (right_cells w cur end)) (left_cells-cons w anchor cur (omega arith)))

pub left_cells-all :
    (n : ℕ) (w : ℕ → ℕ) (anchor cur end : ℕ)
    → n + n + cur ≡ end
    → anchor ≤ cur
    → left_cells w anchor end ≡ shift_all (right_cells w cur end) (left_cells w anchor cur)
unfolding shift_all
left_cells-all zero w anchor cur end e le =
    rw (right_cells-nil w cur end (omega arith)) (ap (left_cells w anchor) (omega arith))
left_cells-all (suc n) w anchor cur end e le =
    left_cells-all n w anchor (cur + 2) end (omega arith) (omega arith)
    ∙ ap (shift_all (right_cells w (cur + 2) end)) (left_cells-after w anchor cur le)
    ∙ sym
        (ap (λ r. shift_all r (left_cells w anchor cur)) (right_cells-cons w cur end (omega arith)))

-- The zipper of a terminal `u` from that of `t`, where the cells left of `u`'s cursor are `t`'s at the
-- same place, and those from the cursor on are `t`'s from offset `from` on.
pub edited-agree :
    (t u : Term) (from : ℕ)
    → u.anchor ≡ t.anchor
    → t.anchor ≤ u.cur
    → u.end / 2 - u.cur / 2 ≡ t.end / 2 - from / 2
    → ((j : ℕ) → j < u.cur / 2 → u.word j ≡ t.word j)
    → ((j k : ℕ)
        → u.cur / 2 ≤ j
        → j < u.end / 2
        → j + from / 2 ≡ k + u.cur / 2
        → u.word j ≡ t.word k)
    → edited u ≡ line (left_cells t.word t.anchor u.cur) (right_cells t.word from t.end)
unfolding edited
edited-agree t u from ea le en before after =
    ap₂ line
      (ap (λ a. left_of u.word (u.cur / 2) (u.cur / 2 - a / 2)) ea
        ∙ left_of-agree u.word t.word (u.cur / 2) (u.cur / 2 - t.anchor / 2) (omega arith)
            (λ j p q. before j p))
      (right_of-shift u.word t.word (u.cur / 2) (from / 2) (u.end / 2 - u.cur / 2)
          (λ j k p q e. after j k p (omega arith) e)
        ∙ ap (right_of t.word (from / 2)) en)
