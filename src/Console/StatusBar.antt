-- ===== src/Console/StatusBar.antt =====
-- What `writeStatusBar` of src/kernel/console.c changes of the screen.
use dar_os.Base.{
  ℕ, zero, suc, ◌+◌, ◌<◌, ◌≤◌, ◌≡◌, refl, ap, subst, ◌∙◌, ◌⊎◌, inl, inr, ◌==◌, ltb, leb, true,
  false, write, List, [], ◌∷◌, length, nth_or, arith,
}
use dar_os.Console.Screen.{Console}
use dar_os.Console.Status.{status_line, set_char, write_chars, write_status_bar}

write_chars-next :
    (ch : ℕ) (s : List ℕ) (l : ℕ) (vram : ℕ → ℕ)
    → l < 160
    → write_chars (ch ∷ s) l vram
      ≡ write_chars s (l + 1) (write vram (status_line + l) (set_char ch (vram (status_line + l))))
unfolding write_chars
write_chars-next ch s l vram lt = let e : ltb l 160 ≡ true = ground arith in rw e refl

write_chars-end : (s : List ℕ) (l : ℕ) (vram : ℕ → ℕ) → 160 ≤ l → write_chars s l vram ≡ vram
unfolding write_chars
write_chars-end [] l vram le = refl
write_chars-end (ch ∷ s) l vram le = let e : ltb l 160 ≡ false = ground arith in rw e refl

write_chars-nil : (l : ℕ) (vram : ℕ → ℕ) (k : ℕ) → write_chars [] l vram k ≡ vram k
unfolding write_chars
write_chars-nil l vram k = refl

split_lt : (a b : ℕ) → (a < b) ⊎ (b ≤ a)
split_lt a b = ground arith

write_chars-other :
    (s : List ℕ) (l : ℕ) (vram : ℕ → ℕ) (k : ℕ)
    → (k < status_line + l) ⊎ (status_line + l + length s ≤ k)
    → write_chars s l vram k ≡ vram k
write_chars-other [] l vram k out = write_chars-nil l vram k
write_chars-other (ch ∷ s) l vram k out =
    let i = status_line + l in
    let ne : (k == i) ≡ false = ground arith in
    let kept : write vram i (set_char ch (vram i)) k ≡ vram k = rw ne refl in
    elim (split_lt l 160) [
      | inl lt ↦
          ap (λ f. f k) (write_chars-next ch s l vram lt)
          ∙ write_chars-other s (l + 1) (write vram i (set_char ch (vram i))) k (ground arith)
          ∙ kept
      | inr ge ↦ ap (λ f. f k) (write_chars-end (ch ∷ s) l vram ge)
    ]

write_chars-char :
    (s : List ℕ) (l : ℕ) (vram : ℕ → ℕ) (i : ℕ)
    → i < length s
    → l + i < 160
    → let k = status_line + (l + i) in write_chars s l vram k ≡ set_char (nth_or s 0 i) (vram k)
write_chars-char [] l vram i lt room = absurd (omega arith)
write_chars-char (ch ∷ s) l vram zero lt room =
    let k = status_line + (l + 0) in
    let at : k ≡ status_line + l = omega arith in
    let next = write vram (status_line + l) (set_char ch (vram (status_line + l))) in
    let here : (status_line + l == status_line + l) ≡ true = ground arith in
    ap (λ f. f k) (write_chars-next ch s l vram (omega arith))
    ∙ write_chars-other s (l + 1) next k (inl (omega arith))
    ∙ rw (at, here) refl
write_chars-char (ch ∷ s) l vram (suc i) lt room =
    let k = status_line + (l + suc i) in
    let k' = status_line + (l + 1 + i) in
    let at : k' ≡ k = omega arith in
    let next = write vram (status_line + l) (set_char ch (vram (status_line + l))) in
    let ne : (k == status_line + l) ≡ false = ground arith in
    ap (λ f. f k) (write_chars-next ch s l vram (omega arith))
    ∙ subst (λ j. write_chars s (l + 1) next j ≡ set_char (nth_or s 0 i) (next j)) at
        (write_chars-char s (l + 1) next i (omega arith) (omega arith))
    ∙ rw ne refl

-- A text written from a column of the status line on is there, a character in each of the cells that follow, which keep
-- their colour, and no other cell is changed. That is so up to the 160th cell from the line's start on, of which the last 80
-- are behind the screen's memory.
pub write_status_bar-text :
    (s : List ℕ) (loc : ℕ) (c : Console) (i k : ℕ)
    → loc < 80
    → i < length s
    → loc + i < 160
    → (k < status_line + loc) ⊎ (status_line + loc + length s ≤ k)
    → let vram = (write_status_bar s loc c).vram in
      let j = status_line + (loc + i) in
      (vram j ≡ set_char (nth_or s 0 i) (c.vram j)) × (vram k ≡ c.vram k)
unfolding write_status_bar
write_status_bar-text s loc c i k lt in_s room out =
    let e : leb 80 loc ≡ false = ground arith in
    rw e (write_chars-char s loc c.vram i in_s room, write_chars-other s loc c.vram k out)
