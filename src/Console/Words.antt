-- ===== src/Console/Words.antt =====
-- Where the cursor's loops of src/kernel/console.c stop, against the zipper's loops.
use dar_os.Base.{ℕ, zero, suc, ◌+◌, ◌-◌, ◌/◌, ◌%◌, ◌≤◌, ◌≡◌, ap, ◌∙◌, Bool, arith}
use dar_os.Console.Term.{rounds, is_space, not_space, back_while, forth_while, word_start, word_end}
use dar_os.Console.Loops.{back_while_bounds, forth_while_bounds}
use dar_os.Console.Line.{
  left_cells, right_of, right_cells, drop_while, drop_word, shift_while, shift_word,
}
use dar_os.Console.Cells.{left_cells-cons, right_cells-cons, left_cells-nil, right_cells-nil}

half_pred : (c : ℕ) → (c - 2) / 2 ≡ c / 2 - 1
half_pred c = omega arith

half_suc : (c : ℕ) → (c + 2) / 2 - 1 ≡ c / 2
half_suc c = omega arith

half_back : (c : ℕ) → 2 ≤ c → (c - 2 + 2) / 2 ≡ c / 2
half_back c le = omega arith

forth_and_back : (c : ℕ) → c + 2 - 2 ≡ c
forth_and_back c = omega arith

module _ (p : ℕ → Bool) where
  -- With as many rounds as there are cells, `back_while` takes the cells that `drop_while` drops.
  left_cells-back_while :
      (n : ℕ) (w : ℕ → ℕ) (anchor cur : ℕ)
      → anchor ≤ cur
      → anchor % 2 ≡ 0
      → cur % 2 ≡ 0
      → n + n + anchor ≡ cur
      → left_cells w anchor (back_while p n w anchor cur) ≡ drop_while p (left_cells w anchor cur)
  unfolding back_while drop_while
  left_cells-back_while zero w anchor cur le ea ec en =
      rw (left_cells-nil w anchor cur (omega arith))
  left_cells-back_while (suc n) w anchor cur le ea ec en = ground (
    arith,
    left_cells-cons w anchor cur,
    left_cells-back_while n w anchor (cur - 2),
    ap w (half_pred cur),
  )

  -- The cells on both sides of where it stops are those that `shift_while` leaves on both sides.
  back_while-shift :
      (n : ℕ) (w : ℕ → ℕ) (anchor end cur : ℕ)
      → anchor ≤ cur
      → cur ≤ end
      → anchor % 2 ≡ 0
      → cur % 2 ≡ 0
      → n + n + anchor ≡ cur
      → (
        left_cells w anchor (back_while p n w anchor cur),
        right_cells w (back_while p n w anchor cur) end,
      )
        ≡ shift_while p (left_cells w anchor cur) (right_cells w cur end)
  unfolding back_while shift_while
  back_while-shift zero w anchor end cur le lf ea ec en =
      rw (left_cells-nil w anchor cur (omega arith))
  back_while-shift (suc n) w anchor end cur le lf ea ec en = ground (
    arith,
    left_cells-cons w anchor cur,
    right_cells-cons w (cur - 2) end,
    back_while-shift n w anchor end (cur - 2),
    ap w (half_pred cur),
    ap (λ i. right_of w i (end / 2 - i)) (half_back cur (omega arith)),
  )

  right_cells-forth_while :
      (n : ℕ) (w : ℕ → ℕ) (end cur : ℕ)
      → cur ≤ end
      → end % 2 ≡ 0
      → cur % 2 ≡ 0
      → n + n + cur ≡ end
      → right_cells w (forth_while p n w end cur) end ≡ drop_while p (right_cells w cur end)
  unfolding forth_while drop_while
  right_cells-forth_while zero w end cur le ee ec en = rw (right_cells-nil w cur end (omega arith))
  right_cells-forth_while (suc n) w end cur le ee ec en =
      ground (arith, right_cells-cons w cur end, right_cells-forth_while n w end (cur + 2))

  forth_while-shift :
      (n : ℕ) (w : ℕ → ℕ) (anchor end cur : ℕ)
      → anchor ≤ cur
      → cur ≤ end
      → end % 2 ≡ 0
      → cur % 2 ≡ 0
      → n + n + cur ≡ end
      → (
        right_cells w (forth_while p n w end cur) end,
        left_cells w anchor (forth_while p n w end cur),
      )
        ≡ shift_while p (right_cells w cur end) (left_cells w anchor cur)
  unfolding forth_while shift_while
  forth_while-shift zero w anchor end cur le lf ee ec en =
      rw (right_cells-nil w cur end (omega arith))
  forth_while-shift (suc n) w anchor end cur le lf ee ec en = ground (
    arith,
    right_cells-cons w cur end,
    left_cells-cons w anchor (cur + 2),
    forth_while-shift n w anchor end (cur + 2),
    ap w (half_suc cur),
    ap (left_cells w anchor) (forth_and_back cur),
  )

module _ (w : ℕ → ℕ) (anchor cur end : ℕ) (le : anchor ≤ cur) (lf : cur ≤ end) where
  module _ (ea : anchor % 2 ≡ 0) (ec : cur % 2 ≡ 0) (ee : end % 2 ≡ 0) where
    pub left_cells-word_start :
        left_cells w anchor (word_start w anchor cur) ≡ drop_word (left_cells w anchor cur)
    unfolding word_start drop_word
    left_cells-word_start =
        let (lo, hi, even) = back_while_bounds is_space (rounds anchor cur) w anchor cur le ea ec in
        left_cells-back_while not_space _ w anchor _ lo ea even (omega arith)
        ∙ ap (drop_while not_space)
            (left_cells-back_while is_space (rounds anchor cur) w anchor cur le ea ec (omega arith))

    pub word_start-shift :
        (left_cells w anchor (word_start w anchor cur), right_cells w (word_start w anchor cur) end)
        ≡ shift_word (left_cells w anchor cur) (right_cells w cur end)
    unfolding word_start shift_word
    word_start-shift =
        let (lo, hi, even) = back_while_bounds is_space (rounds anchor cur) w anchor cur le ea ec in
        back_while-shift not_space _ w anchor end _ lo (omega arith) ea even (omega arith)
        ∙ ap (λ z. shift_while not_space z.0 z.1)
            (back_while-shift is_space (rounds anchor cur) w anchor end cur le lf ea ec
              (omega arith))

    pub right_cells-word_end :
        right_cells w (word_end w end cur) end ≡ drop_word (right_cells w cur end)
    unfolding word_end drop_word
    right_cells-word_end =
        let (lo, hi, even) = forth_while_bounds is_space (rounds cur end) w end cur lf ee ec in
        right_cells-forth_while not_space _ w end _ hi ee even (omega arith)
        ∙ ap (drop_while not_space)
            (right_cells-forth_while is_space (rounds cur end) w end cur lf ee ec (omega arith))

    pub word_end-shift :
        (right_cells w (word_end w end cur) end, left_cells w anchor (word_end w end cur))
        ≡ shift_word (right_cells w cur end) (left_cells w anchor cur)
    unfolding word_end shift_word
    word_end-shift =
        let (lo, hi, even) = forth_while_bounds is_space (rounds cur end) w end cur lf ee ec in
        forth_while-shift not_space _ w anchor end _ (omega arith) hi ee even (omega arith)
        ∙ ap (λ z. shift_while not_space z.0 z.1)
            (forth_while-shift is_space (rounds cur end) w anchor end cur le lf ee ec (omega arith))
