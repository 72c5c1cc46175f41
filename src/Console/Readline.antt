-- ===== src/Console/Readline.antt =====
-- `M_readline` of src/kernel/console.c against the line that has been edited.
use dar_os.Base.{
  ℕ, zero, suc, ◌+◌, ◌-◌, ◌*◌, ◌/◌, ◌%◌, ◌<◌, ◌≡◌, ◌≢◌, ap, subst, true, false, List, [], ◌∷◌, map,
  arith, ◌==◌,
}
use dar_os.Console.Term.{Term, byte_at}
use dar_os.Console.Line.{Line, right_of, right_cells, edited, shift_all}
use dar_os.Console.Cells.{IsLine, right_cells-all}
use dar_os.Console.Keys.{read_bytes, readline, c_string}
use dar_os.Console.Handler.{Holds}

-- The characters of the cells of a line, from its start.
unfoldable pub chars : List ℕ → List ℕ
chars = map (λ x. x % 256)

unfoldable pub text : Line → List ℕ
unfolding chars
text z = chars (shift_all z.left z.right)

-- No cell holds the null character.
abbrev pub NoNull : List ℕ → Type 0
NoNull [] = Unit {0}
NoNull (x ∷ xs) = (x ≢ 0) × NoNull xs

ne_eqb : {x : ℕ} → x ≢ 0 → (x == 0) ≡ false
ne_eqb ne = ground arith

byte_at-word :
    (t : Term) (i k : ℕ)
    → t.anchor % 2 ≡ 0
    → t.anchor / 2 + i ≡ k
    → byte_at t.word (t.anchor + i * 2) ≡ t.word k % 256
byte_at-word t i k e ek =
    rw (even (t.anchor + i * 2) (omega arith)) (ap (λ j. t.word j % 256) (omega arith))
  where
    even : (x : ℕ) → x % 2 ≡ 0 → (x % 2 == 0) ≡ true
    even x p = ground arith

-- The bytes read from word `k` on are the characters of the cells, and the first null comes where the
-- cells end.
read_bytes-chars :
    (n m i k : ℕ) (t : Term)
    → t.anchor % 2 ≡ 0
    → t.anchor / 2 + i ≡ k
    → n < m
    → ((j : ℕ) → j ≡ k + n → t.word j % 256 ≡ 0)
    → NoNull (chars (right_of t.word k n))
    → c_string (read_bytes m i t) ≡ chars (right_of t.word k n)
unfolding read_bytes c_string chars right_of
read_bytes-chars n zero i k t e ek lt z no_null = absurd (omega arith)
read_bytes-chars zero (suc m) i k t e ek lt z no_null =
    rw (byte_at-word t i k e ek, z k (omega arith))
read_bytes-chars (suc n) (suc m) i k t e ek lt z no_null =
    rw (byte_at-word t i k e ek, ne_eqb (no_null.0))
      (ap (λ xs. t.word k % 256 ∷ xs)
        (read_bytes-chars n m (i + 1) (k + 1) t e (omega arith) (omega arith)
          (λ j p. z j (omega arith)) no_null.1))

-- What `M_readline` returns, read as a string, is the text of the whole line, on both sides of the
-- cursor, if no cell holds a null.
pub readline-text :
    (t : Term) {z : Line} → Holds t z → NoNull (text z) → c_string (readline t) ≡ text z
unfolding readline text edited
readline-text t h no_null =
    subst (λ y. NoNull (text y) → c_string (readline t) ≡ text y) h.holds whole no_null
  where
    i : IsLine t
    i = h.is_line

    cells : right_cells t.word t.anchor t.end ≡ shift_all (edited t).left (edited t).right
    cells =
        right_cells-all ((t.cur - t.anchor) / 2) t.word t.anchor t.cur t.end
          (grind (arith, i.anchor_le, i.anchor_even, i.cur_even)) i.cur_le

    whole : NoNull (text (edited t)) → c_string (readline t) ≡ text (edited t)
    whole q =
        subst (λ xs. NoNull (chars xs) → c_string (readline t) ≡ chars xs) cells
          (read_bytes-chars (t.end / 2 - t.anchor / 2) (t.end - t.anchor + 1) 0 (t.anchor / 2) t
            i.anchor_even (omega arith) (omega arith) (λ j p. ground (arith, i.behind j)))
          q
