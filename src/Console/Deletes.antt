-- ===== src/Console/Deletes.antt =====
-- The deleting keys of src/kernel/console.c against the zipper's operations.
use dar_os.Base.{ℕ, ◌≡◌, sym, ap, ◌∙◌, true, [], arith}
use dar_os.Console.Term.{
  Term, erase_left, erase_right, erase_word_left, erase_word_right, erase_to_anchor, erase_to_end,
}
use dar_os.Console.Screen.{Console, current}
use dar_os.Console.Keys.{
  at_anchor, at_end, backspace, delete, delete_word_left, delete_word_right, clear_cur_to_anchor,
  clear_cur_to_end,
}
use dar_os.Console.Line.{
  Line, line, drop_while, left_cells, right_cells, edited, drop_left, drop_right, tail, drop_word,
}
use dar_os.Console.Cells.{
  IsLine, left_cells-cons, right_cells-cons, left_cells-nil, right_cells-nil,
}
use dar_os.Console.Words.{left_cells-word_start, right_cells-word_end}
use dar_os.Console.Cut.{
  IsCut, cut-IsLine, edited-cut, erase_left-IsCut, erase_right-IsCut, erase_to_end-IsCut,
  erase_word_left-IsCut, erase_word_right-IsCut, erase_to_anchor-IsCut,
}
use dar_os.Console.Handler.{Holds, editing-Holds}

pub at_anchor-eq :
    (t : Term) → IsLine t → at_anchor t ≡ true → left_cells t.word t.anchor t.cur ≡ []
at_anchor-eq t i e = left_cells-nil t.word t.anchor t.cur (ground arith)

pub at_end-eq : (t : Term) → IsLine t → at_end t ≡ true → right_cells t.word t.cur t.end ≡ []
at_end-eq t i e = right_cells-nil t.word t.cur t.end (ground arith)

pub cut-Holds :
    {t u : Term} {c from : ℕ} {z : Line}
    → IsLine t
    → IsCut t c from u
    → line (left_cells t.word t.anchor c) (right_cells t.word from t.end) ≡ z
    → Holds u z
cut-Holds i k e = record { is_line = cut-IsLine i k; holds = edited-cut i k ∙ e }

module _ (c : Console) {z : Line} where
  pub backspace-Holds : Holds (current c) z → Holds (current (backspace c)) (drop_left z)
  unfolding backspace drop_left edited
  backspace-Holds =
      editing-Holds at_anchor drop_left c erase_left (λ t i e. rw (at_anchor-eq t i e))
        (λ t i e. cut-Holds i (erase_left-IsCut i (ground arith)) (
          sym (
            ap (λ l. line (tail l) (right_cells t.word t.cur t.end))
              (left_cells-cons t.word t.anchor t.cur (ground arith)))))

  pub delete-Holds : Holds (current c) z → Holds (current (delete c)) (drop_right z)
  unfolding delete drop_right edited
  delete-Holds =
      editing-Holds at_end drop_right c erase_right (λ t i e. rw (at_end-eq t i e))
        (λ t i e. cut-Holds i (erase_right-IsCut i (ground arith)) (
          sym (
            ap (λ r. line (left_cells t.word t.anchor t.cur) (tail r))
              (right_cells-cons t.word t.cur t.end (ground arith)))))

  pub clear_cur_to_anchor-Holds :
      Holds (current c) z → Holds (current (clear_cur_to_anchor c)) (line [] z.right)
  unfolding clear_cur_to_anchor edited
  clear_cur_to_anchor-Holds =
      editing-Holds at_anchor (λ y. line [] y.right) c erase_to_anchor
        (λ t i e. rw (at_anchor-eq t i e))
        (λ t i e. cut-Holds i (erase_to_anchor-IsCut i) (
          ap (λ l. line l (right_cells t.word t.cur t.end))
            (left_cells-nil t.word t.anchor t.anchor (omega arith))))

  pub clear_cur_to_end-Holds :
      Holds (current c) z → Holds (current (clear_cur_to_end c)) (line z.left [])
  unfolding clear_cur_to_end edited
  clear_cur_to_end-Holds =
      editing-Holds at_end (λ y. line y.left []) c erase_to_end (λ t i e. rw (at_end-eq t i e))
        (λ t i e. cut-Holds i (erase_to_end-IsCut i) (
          ap (line (left_cells t.word t.anchor t.cur))
            (right_cells-nil t.word t.end t.end (omega arith))))

  pub delete_word_left-Holds :
      Holds (current c) z → Holds (current (delete_word_left c)) (line (drop_word z.left) z.right)
  unfolding delete_word_left edited drop_word drop_while
  delete_word_left-Holds =
      editing-Holds at_anchor (λ y. line (drop_word y.left) y.right) c erase_word_left
        (λ t i e. rw (at_anchor-eq t i e))
        (λ t i e. cut-Holds i (erase_word_left-IsCut i) (
          ap (λ l. line l (right_cells t.word t.cur t.end))
            (left_cells-word_start t.word t.anchor t.cur t.end i.anchor_le i.cur_le i.anchor_even
              i.cur_even i.end_even)))

  pub delete_word_right-Holds :
      Holds (current c) z → Holds (current (delete_word_right c)) (line z.left (drop_word z.right))
  unfolding delete_word_right edited drop_word drop_while
  delete_word_right-Holds =
      editing-Holds at_end (λ y. line y.left (drop_word y.right)) c erase_word_right
        (λ t i e. rw (at_end-eq t i e))
        (λ t i e. cut-Holds i (erase_word_right-IsCut i) (
          ap (line (left_cells t.word t.anchor t.cur)) (
            right_cells-word_end t.word t.anchor t.cur t.end i.anchor_le i.cur_le i.anchor_even
              i.cur_even i.end_even)))
