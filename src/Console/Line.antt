-- ===== src/Console/Line.antt =====
-- The line that is edited, as a zipper: the cells between the anchor and the cursor, nearest to the
-- cursor first, and the cells from the cursor to the end. This is the specification of the editing
-- keys of src/kernel/console.c.
use dar_os.Base.{ℕ, zero, suc, ◌+◌, ◌-◌, ◌/◌, ◌%◌, Bool, List, [], ◌∷◌, if◌then◌else◌}
use dar_os.Console.Term.{Term, is_space, not_space}

pub record Line : Type 0 where
  pub left : List ℕ
  pub right : List ℕ

abbrev pub line : List ℕ → List ℕ → Line
line l r = record { left = l; right = r }

-- The `n` words left of index `c`, going left, and the `n` words from `c` on.
unfoldable pub left_of : (ℕ → ℕ) → ℕ → ℕ → List ℕ
left_of w c zero = []
left_of w c (suc n) = w (c - 1) ∷ left_of w (c - 1) n

unfoldable pub right_of : (ℕ → ℕ) → ℕ → ℕ → List ℕ
right_of w c zero = []
right_of w c (suc n) = w c ∷ right_of w (c + 1) n

abbrev pub left_cells : (ℕ → ℕ) → (anchor cur : ℕ) → List ℕ
left_cells w anchor cur = left_of w (cur / 2) (cur / 2 - anchor / 2)

abbrev pub right_cells : (ℕ → ℕ) → (cur end : ℕ) → List ℕ
right_cells w cur end = right_of w (cur / 2) (end / 2 - cur / 2)

-- What is being edited in a terminal.
unfoldable pub edited : Term → Line
edited t = line (left_cells t.word t.anchor t.cur) (right_cells t.word t.cur t.end)

unfoldable pub insert : ℕ → Line → Line
insert x z = line (x ∷ z.left) z.right

unfoldable pub tail : List ℕ → List ℕ
tail [] = []
tail (x ∷ xs) = xs

unfoldable pub drop_left : Line → Line
unfolding tail
drop_left z = line (tail z.left) z.right

unfoldable pub drop_right : Line → Line
unfolding tail
drop_right z = line z.left (tail z.right)

unfoldable pub drop_while : (ℕ → Bool) → List ℕ → List ℕ
drop_while p [] = []
drop_while p (x ∷ xs) = if p (x % 256) then drop_while p xs else x ∷ xs

unfoldable pub drop_word : List ℕ → List ℕ
drop_word xs = drop_while not_space (drop_while is_space xs)

-- Moving cells across the cursor while their characters pass a test.
unfoldable pub shift_while : (ℕ → Bool) → (from to : List ℕ) → List ℕ × List ℕ
shift_while p [] ys = ([], ys)
shift_while p (x ∷ xs) ys = if p (x % 256) then shift_while p xs (x ∷ ys) else (x ∷ xs, ys)

unfoldable pub shift_word : (from to : List ℕ) → List ℕ × List ℕ
shift_word xs ys = let (xs', ys') = shift_while is_space xs ys in shift_while not_space xs' ys'

-- Moving the next cell, or all of them, across the cursor.
unfoldable pub shift_one : (from to : List ℕ) → List ℕ × List ℕ
shift_one [] ys = ([], ys)
shift_one (x ∷ xs) ys = (xs, x ∷ ys)

unfoldable pub shift_all : (from to : List ℕ) → List ℕ
shift_all [] ys = ys
shift_all (x ∷ xs) ys = shift_all xs (x ∷ ys)

-- The keys that edit the line without adding to it.
pub data Key : Type 0 where
  backspace delete delete_word_left delete_word_right clear_to_anchor clear_to_end : Key
  word_left word_right cursor_left cursor_right home end : Key

unfoldable pub press : Key → Line → Line
unfolding drop_left drop_right drop_word shift_word shift_one shift_all
press backspace z = drop_left z
press delete z = drop_right z
press delete_word_left z = line (drop_word z.left) z.right
press delete_word_right z = line z.left (drop_word z.right)
press clear_to_anchor z = line [] z.right
press clear_to_end z = line z.left []
press word_left z = let (l, r) = shift_word z.left z.right in line l r
press word_right z = let (r, l) = shift_word z.right z.left in line l r
press cursor_left z = let (l, r) = shift_one z.left z.right in line l r
press cursor_right z = let (r, l) = shift_one z.right z.left in line l r
press home z = line [] (shift_all z.left z.right)
press end z = line (shift_all z.right z.left) []
