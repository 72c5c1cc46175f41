-- ===== src/Console/Cut.antt =====
-- The deleting loops of src/kernel/console.c on the cells of the line.
use dar_os.Base.{ℕ, ◌+◌, ◌-◌, ◌/◌, ◌%◌, ◌≤◌, ◌≡◌, ◌≢◌, refl, arith, ltb, if◌then◌else◌}
use dar_os.Console.Term.{
  Term, empty_cell, rounds, copy, blank, word_start, word_end, erase_left, erase_right,
  erase_word_left, erase_word_right, erase_to_anchor, erase_to_end,
}
use dar_os.Console.Loops.{copy_lem, blank_lem, word_start_bounds, word_end_bounds}
use dar_os.Console.Line.{line, left_cells, right_cells, edited}
use dar_os.Console.Cells.{IsLine, edited-agree}

-- `u` is `t` without the cells from offset `c` up to offset `from`, with its cursor at `c`.
pub record IsCut (t : Term) (c from : ℕ) (u : Term) : Type 0 where
  pub c_even : c % 2 ≡ 0
  pub from_even : from % 2 ≡ 0
  pub anchor_le : t.anchor ≤ c
  pub c_le : c ≤ from
  pub from_le : from ≤ t.end
  pub anchor : u.anchor ≡ t.anchor
  pub cur : u.cur ≡ c
  pub end : u.end + from ≡ t.end + c
  pub cells :
      (j : ℕ)
      → u.word j ≡ (
          if ltb j (c / 2)
          then t.word j
          else if ltb (j + from / 2) (t.end / 2 + c / 2)
          then t.word (j + from / 2 - c / 2)
          else empty_cell)

module _ {t u : Term} (v : IsLine t) {c from : ℕ} (k : IsCut t c from u) where
  pub cut-IsLine : IsLine u
  cut-IsLine = record {
    anchor_even = omega arith;
    cur_even = omega arith;
    end_even = omega arith;
    anchor_le = omega arith;
    cur_le = omega arith;
    behind = λ j le. ground (arith, k.cells j);
  }

  pub edited-cut : edited u ≡ line (left_cells t.word t.anchor c) (right_cells t.word from t.end)
  edited-cut = rw (← k.cur) (
      edited-agree t u from k.anchor (omega arith) (omega arith) (λ j p. ground (arith, k.cells j))
        (λ j i p q e. ground (arith, k.cells j)))

module _ {t : Term} (v : IsLine t) where
  open v use {behind}

  pub erase_left-IsCut : t.cur ≢ t.anchor → IsCut t (t.cur - 2) t.cur (erase_left t)
  unfolding erase_left
  erase_left-IsCut ne = record {
    c_even = omega arith;
    from_even = omega arith;
    anchor_le = omega arith;
    c_le = omega arith;
    from_le = omega arith;
    anchor = refl;
    cur = refl;
    end = omega arith;
    cells = λ j. ground (
      arith,
      copy_lem (rounds t.cur t.end) (t.cur - 2) t.cur t.word j (omega arith),
      behind j,
      behind (j + t.cur / 2 - (t.cur - 2) / 2),
    );
  }

  pub erase_right-IsCut : t.cur ≢ t.end → IsCut t t.cur (t.cur + 2) (erase_right t)
  unfolding erase_right
  erase_right-IsCut ne = record {
    c_even = omega arith;
    from_even = omega arith;
    anchor_le = omega arith;
    c_le = omega arith;
    from_le = omega arith;
    anchor = refl;
    cur = refl;
    end = omega arith;
    cells = λ j. ground (
      arith,
      copy_lem (rounds (t.cur + 2) t.end) t.cur (t.cur + 2) t.word j (omega arith),
      behind j,
    );
  }

  pub erase_to_end-IsCut : IsCut t t.cur t.end (erase_to_end t)
  unfolding erase_to_end
  erase_to_end-IsCut = record {
    c_even = omega arith;
    from_even = omega arith;
    anchor_le = omega arith;
    c_le = omega arith;
    from_le = omega arith;
    anchor = refl;
    cur = refl;
    end = omega arith;
    cells = λ j. ground (arith, blank_lem (rounds t.cur t.end) t.cur t.word j, behind j);
  }

  -- The copy from `from` to `c`, and the blanks behind it.
  cut-cells :
      (c from m i : ℕ)
      → c % 2 ≡ 0
      → from % 2 ≡ 0
      → c ≤ from
      → from ≤ t.end
      → i + from ≡ t.end + c
      → m + m + i ≡ t.end
      → (j : ℕ)
      → blank m i (copy (rounds from t.end) c from t.word) j ≡ (
          if ltb j (c / 2)
          then t.word j
          else if ltb (j + from / 2) (t.end / 2 + c / 2)
          then t.word (j + from / 2 - c / 2)
          else empty_cell)
  cut-cells c from m i ec ef le fe ei em j = ground (
    arith,
    blank_lem m i (copy (rounds from t.end) c from t.word) j,
    copy_lem (rounds from t.end) c from t.word j (omega arith),
    behind j,
  )

  pub erase_word_left-IsCut : IsCut t (word_start t.word t.anchor t.cur) t.cur (erase_word_left t)
  unfolding erase_word_left
  erase_word_left-IsCut =
      let (lo, hi, even) =
        word_start_bounds t.word t.anchor t.cur v.anchor_le v.anchor_even v.cur_even in
      record {
        c_even = even;
        from_even = omega arith;
        anchor_le = lo;
        c_le = hi;
        from_le = omega arith;
        anchor = refl;
        cur = refl;
        end = omega arith;
        cells =
            cut-cells (word_start t.word t.anchor t.cur) t.cur _ _ even (omega arith) hi
              (omega arith) (omega arith) (omega arith);
      }

  pub erase_word_right-IsCut : IsCut t t.cur (word_end t.word t.end t.cur) (erase_word_right t)
  unfolding erase_word_right
  erase_word_right-IsCut =
      let (lo, hi, even) = word_end_bounds t.word t.end t.cur v.cur_le v.end_even v.cur_even in
      record {
        c_even = omega arith;
        from_even = even;
        anchor_le = omega arith;
        c_le = lo;
        from_le = hi;
        anchor = refl;
        cur = refl;
        end = omega arith;
        cells =
            cut-cells t.cur (word_end t.word t.end t.cur) _ _ (omega arith) even lo hi (omega arith)
              (omega arith);
      }

  pub erase_to_anchor-IsCut : IsCut t t.anchor t.cur (erase_to_anchor t)
  unfolding erase_to_anchor
  erase_to_anchor-IsCut = record {
    c_even = omega arith;
    from_even = omega arith;
    anchor_le = omega arith;
    c_le = omega arith;
    from_le = omega arith;
    anchor = refl;
    cur = omega arith;
    end = omega arith;
    cells =
        cut-cells t.anchor t.cur _ _ (omega arith) (omega arith) (omega arith) (omega arith)
          (omega arith) (omega arith);
  }
