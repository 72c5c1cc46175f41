-- ===== src/Console/Moves.antt =====
-- The keys of src/kernel/console.c that move the cursor against the zipper's operations.
use dar_os.Base.{ℕ, ◌+◌, ◌-◌, ◌/◌, ◌%◌, ◌≤◌, ◌≡◌, ap, ap₂, arith}
use dar_os.Console.Term.{Term, word_start, word_end}
use dar_os.Console.Screen.{Console, current}
use dar_os.Console.Keys.{
  at_anchor, at_end, word_left, word_right, cursor_left, cursor_right, cursor_home, cursor_end,
}
use dar_os.Console.Line.{
  Line, line, shift_one, shift_all, press, Key, shift_while, left_cells, right_cells, edited,
}
use dar_os.Console.Cells.{
  IsLine, left_cells-cons, right_cells-cons, right_cells-before, left_cells-after, right_cells-all,
  left_cells-all, left_cells-nil, right_cells-nil,
}
use dar_os.Console.Words.{word_start-shift, word_end-shift}
use dar_os.Console.Loops.{word_start_bounds, word_end_bounds}
use dar_os.Console.Handler.{Holds, moving-Holds}
use dar_os.Console.Deletes.{at_anchor-eq, at_end-eq}

moved-Holds :
    {t : Term} {x : ℕ} {z : Line}
    → IsLine t
    → t.anchor ≤ x
    → x ≤ t.end
    → x % 2 ≡ 0
    → line (left_cells t.word t.anchor x) (right_cells t.word x t.end) ≡ z
    → Holds (record t { cur = x }) z
unfolding edited
moved-Holds i lo hi even e = record {
  is_line = record {
    anchor_even = i.anchor_even;
    cur_even = even;
    end_even = i.end_even;
    anchor_le = lo;
    cur_le = hi;
    behind = i.behind;
  };
  holds = e;
}

module _ (c : Console) {z : Line} where
  pub word_left-Holds : Holds (current c) z → Holds (current (word_left c)) (press Key.word_left z)
  unfolding word_left edited press shift_while
  word_left-Holds =
      moving-Holds at_anchor (press Key.word_left) c (λ t. word_start t.word t.anchor t.cur)
        (λ t i e. rw (at_anchor-eq t i e))
        (λ t i e.
          let (lo, hi, even) =
            word_start_bounds t.word t.anchor t.cur i.anchor_le i.anchor_even i.cur_even in
          moved-Holds i lo (omega arith) even (
            ap (λ y. line y.0 y.1)
              (word_start-shift t.word t.anchor t.cur t.end i.anchor_le i.cur_le i.anchor_even
                i.cur_even i.end_even)))

  pub word_right-Holds :
      Holds (current c) z → Holds (current (word_right c)) (press Key.word_right z)
  unfolding word_right edited press shift_while
  word_right-Holds =
      moving-Holds at_end (press Key.word_right) c (λ t. word_end t.word t.end t.cur)
        (λ t i e. rw (at_end-eq t i e))
        (λ t i e.
          let (lo, hi, even) = word_end_bounds t.word t.end t.cur i.cur_le i.end_even i.cur_even in
          moved-Holds i (omega arith) hi even (
            ap (λ y. line y.1 y.0)
              (word_end-shift t.word t.anchor t.cur t.end i.anchor_le i.cur_le i.anchor_even
                i.cur_even i.end_even)))

  pub cursor_left-Holds :
      Holds (current c) z → Holds (current (cursor_left c)) (press Key.cursor_left z)
  unfolding cursor_left edited press shift_one
  cursor_left-Holds =
      moving-Holds at_anchor (press Key.cursor_left) c (λ t. t.cur - 2)
        (λ t i e. rw (at_anchor-eq t i e))
        (λ t i e. moved-Holds i (ground arith) (ground arith) (ground arith) (
          rw (
            left_cells-cons t.word t.anchor t.cur (ground arith),
            right_cells-before t.word t.cur t.end (ground arith) i.cur_le,
          )))

  pub cursor_right-Holds :
      Holds (current c) z → Holds (current (cursor_right c)) (press Key.cursor_right z)
  unfolding cursor_right edited press shift_one
  cursor_right-Holds =
      moving-Holds at_end (press Key.cursor_right) c (λ t. t.cur + 2)
        (λ t i e. rw (at_end-eq t i e))
        (λ t i e. moved-Holds i (ground arith) (ground arith) (ground arith) (
          rw (
            right_cells-cons t.word t.cur t.end (ground arith),
            left_cells-after t.word t.anchor t.cur i.anchor_le,
          )))

  pub cursor_home-Holds : Holds (current c) z → Holds (current (cursor_home c)) (press Key.home z)
  unfolding cursor_home edited press shift_all
  cursor_home-Holds =
      moving-Holds at_anchor (press Key.home) c (λ t. t.anchor) (λ t i e. rw (at_anchor-eq t i e))
        (λ t i e. moved-Holds i (omega arith) (omega arith) (omega arith) (
          ap₂ line (left_cells-nil t.word t.anchor t.anchor (omega arith)) (
            right_cells-all ((t.cur - t.anchor) / 2) t.word t.anchor t.cur t.end (omega arith)
              i.cur_le)))

  pub cursor_end-Holds : Holds (current c) z → Holds (current (cursor_end c)) (press Key.end z)
  unfolding cursor_end edited press shift_all
  cursor_end-Holds =
      moving-Holds at_end (press Key.end) c (λ t. t.end) (λ t i e. rw (at_end-eq t i e))
        (λ t i e. moved-Holds i (omega arith) (omega arith) (omega arith) (
          ap₂ line
            (left_cells-all ((t.end - t.cur) / 2) t.word t.anchor t.cur t.end (omega arith)
              i.anchor_le)
            (right_cells-nil t.word t.end t.end (omega arith))))
