-- ===== src/Console/Term.antt =====
-- `struct vterm` of src/kernel/console.c, and the loops that move words within its buffer.
--
-- The pages that `buf` points to are one function of the word's index: word `k` is word `k % 1920` of
-- page `k / 1920`. `page` says which entries of `buf` are not null, `cap` how many entries there are,
-- and `has_buf` whether `buf` itself is not null.
-- Offsets count bytes, as in the source. They are bounded by the memory, so their sums do not wrap.
use dar_os.Base.{
  ℕ, zero, suc, ◌+◌, ◌-◌, ◌*◌, ◌/◌, ◌%◌, Bool, not, ◌&&◌, ◌==◌, ltb, if◌then◌else◌, write,
}

pub record Term : Type 0 where
  pub word : ℕ → ℕ
  pub page : ℕ → Bool
  pub has_buf : Bool
  pub cap : ℕ
  pub anchor : ℕ
  pub cur : ℕ
  pub end : ℕ
  pub clear_top : ℕ
  pub v_scroll : ℕ
  pub sh : ℕ
  pub reading : ℕ

abbrev pub lines : ℕ
lines = 24

-- An empty cell, white on black.
abbrev pub empty_cell : ℕ
empty_cell = 0x0700

-- `line_for`, `page_index_for`, `word_at` and `byte_at`.
abbrev pub line_for : ℕ → ℕ
line_for i = i / 160

abbrev pub page_index_for : ℕ → ℕ
page_index_for i = i / (lines * 160)

abbrev pub word_at : (ℕ → ℕ) → ℕ → ℕ
word_at w i = w (i / 2)

abbrev pub byte_at : (ℕ → ℕ) → ℕ → ℕ
byte_at w i = if i % 2 == 0 then word_at w i % 256 else word_at w i / 256

-- The rounds of `for (i = from; i < to; i += 2)`.
abbrev pub rounds : (from to : ℕ) → ℕ
rounds from to = (to - from + 1) / 2

-- `word_at(t, dst) = word_at(t, src)` for `n` words, from the first on.
unfoldable pub copy : (n dst src : ℕ) → (ℕ → ℕ) → ℕ → ℕ
copy zero dst src w = w
copy (suc n) dst src w = copy n (dst + 2) (src + 2) (write w (dst / 2) (word_at w src))

-- `word_at(t, i) = 0x0700` for `n` words.
unfoldable pub blank : (n i : ℕ) → (ℕ → ℕ) → ℕ → ℕ
blank zero i w = w
blank (suc n) i w = blank n (i + 2) (write w (i / 2) empty_cell)

-- `word_at(t, i) = word_at(t, i - 2)` for `n` words, from the last on: the loop of `printcc`.
unfoldable pub open_gap : (n i : ℕ) → (ℕ → ℕ) → ℕ → ℕ
open_gap zero i w = w
open_gap (suc n) i w = open_gap n (i - 2) (write w (i / 2) (word_at w (i - 2)))

-- `while (p(byte_at(cur - 2)) && cur != anchor) cur -= 2`. With no round left `cur` is `anchor`.
unfoldable pub back_while : (p : ℕ → Bool) (n : ℕ) → (ℕ → ℕ) → (anchor cur : ℕ) → ℕ
back_while p zero w anchor cur = cur
back_while p (suc n) w anchor cur =
    let rest = back_while p n w anchor (cur - 2) in
    if p (byte_at w (cur - 2)) && not (cur == anchor) then rest else cur

-- `while (p(byte_at(cur)) && cur != end) cur += 2`. With no round left `cur` is `end`.
unfoldable pub forth_while : (p : ℕ → Bool) (n : ℕ) → (ℕ → ℕ) → (end cur : ℕ) → ℕ
forth_while p zero w end cur = cur
forth_while p (suc n) w end cur =
    let rest = forth_while p n w end (cur + 2) in
    if p (byte_at w cur) && not (cur == end) then rest else cur

abbrev pub is_space : ℕ → Bool
is_space b = b == b' '

abbrev pub not_space : ℕ → Bool
not_space b = not (b == b' ')

-- The two loops of `wordLeft` and `deleteWordLeft`, and those of `wordRight` and `deleteWordRight`.
unfoldable pub word_start : (ℕ → ℕ) → (anchor cur : ℕ) → ℕ
word_start w anchor cur =
    let c = back_while is_space (rounds anchor cur) w anchor cur in
    back_while not_space (rounds anchor c) w anchor c

unfoldable pub word_end : (ℕ → ℕ) → (end cur : ℕ) → ℕ
word_end w end cur =
    let c = forth_while is_space (rounds cur end) w end cur in
    forth_while not_space (rounds c end) w end c

-- What `printcc` does to the terminal.
unfoldable pub printcc : ℕ → ℕ → Term → Term
printcc c cl t = record t {
  word =
      write (if ltb t.cur t.end then open_gap (rounds t.cur t.end) t.end t.word else t.word)
        (t.cur / 2) (cl * 256 + c);
  cur = t.cur + 2;
  end = t.end + 2;
}

-- What `backspace` does to the terminal, past its guard, and likewise below.
unfoldable pub erase_left : Term → Term
erase_left t = record t {
  word = write (copy (rounds t.cur t.end) (t.cur - 2) t.cur t.word) ((t.end - 2) / 2) empty_cell;
  cur = t.cur - 2;
  end = t.end - 2;
}

-- `delete`.
unfoldable pub erase_right : Term → Term
erase_right t = record t {
  word =
      write (copy (rounds (t.cur + 2) t.end) t.cur (t.cur + 2) t.word) ((t.end - 2) / 2) empty_cell;
  end = t.end - 2;
}

-- `deleteWordLeft`.
unfoldable pub erase_word_left : Term → Term
erase_word_left t =
    let c = word_start t.word t.anchor t.cur in
    let diff = t.cur - c in
    record t {
      word = blank (rounds 0 diff) (t.end - diff) (copy (rounds t.cur t.end) c t.cur t.word);
      cur = c;
      end = t.end - diff;
    }

-- `deleteWordRight`.
unfoldable pub erase_word_right : Term → Term
erase_word_right t =
    let c = word_end t.word t.end t.cur in
    let n = rounds c t.end in
    record t {
      word = blank (rounds (t.cur + 2 * n) t.end) (t.cur + 2 * n) (copy n t.cur c t.word);
      end = t.end - (c - t.cur);
    }

-- `clearCurToAnchor`.
unfoldable pub erase_to_anchor : Term → Term
erase_to_anchor t =
    let diff = t.cur - t.anchor in
    let n = rounds t.cur t.end in
    record t {
      word =
          blank (rounds (t.anchor + 2 * n) t.end) (t.anchor + 2 * n) (copy n t.anchor t.cur t.word);
      cur = t.cur - diff;
      end = t.end - diff;
    }

-- `clearCurToEnd`.
unfoldable pub erase_to_end : Term → Term
erase_to_end t = record t { word = blank (rounds t.cur t.end) t.cur t.word; end = t.cur }
