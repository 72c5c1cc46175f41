-- ===== src/Strings/Compare.antt =====
-- `strlen`, `strcmp`, `M_sappend` and `M_scopy` of src/lib/strings.c.
use dar_os.Base.{
  ℕ, suc, ◌≡◌, ◌+◌, ◌↔◌, refl, ◌∙◌, ap, ap₂, Bool, true, false, List, [], ◌∷◌, ◌++◌, ◌==◌,
  if◌then◌else◌, arith, length,
}

-- The byte at a string's start, its terminator if it is empty, and the string behind it.
unfoldable pub head : List ℕ → ℕ
head [] = 0
head (c ∷ s) = c

unfoldable pub behind : List ℕ → List ℕ
behind [] = []
behind (c ∷ s) = s

-- No byte before the terminator is null.
unfoldable pub is_string : List ℕ → Bool
is_string [] = true
is_string (c ∷ s) = if c == 0 then false else is_string s

unfoldable pub strlen : List ℕ → ℕ
strlen [] = 0
strlen (c ∷ s) = if c == 0 then 0 else suc (strlen s)

-- What `strcmp` returns: 0, or the difference of two bytes, which the model keeps as the two.
pub data Diff : Type 0 where
  same : Diff
  differ : (c d : ℕ) → Diff

unfoldable pub strcmp : List ℕ → List ℕ → Diff
strcmp [] t = if head t == 0 then same else differ 0 (head t)
strcmp (c ∷ s) t =
    let rest = strcmp s (behind t) in
    if c == head t then if c == 0 then same else rest else differ c (head t)

unfoldable pub scopy : List ℕ → List ℕ
scopy [] = []
scopy (c ∷ s) = if c == 0 then [] else c ∷ scopy s

unfoldable pub sappend : List ℕ → List ℕ → List ℕ
sappend [] t = scopy t
sappend (c ∷ s) t = if c == 0 then scopy t else c ∷ sappend s t

-- On strings, `strcmp` returns 0 exactly if they are equal.
pub strcmp-same :
    (s t : List ℕ) → is_string s ≡ true → is_string t ≡ true → (strcmp s t ≡ same) ↔ (s ≡ t)
unfolding strcmp head behind is_string
strcmp-same [] [] hs ht = (λ e. refl, λ e. refl)
strcmp-same [] (d ∷ t) hs ht = (λ e. absurd (ground arith), λ e. cc)
strcmp-same (c ∷ s) [] hs ht = (λ e. absurd (ground arith), λ e. cc)
strcmp-same (c ∷ s) (d ∷ t) hs ht =
    let ih = strcmp-same s t (ground arith) (ground arith) in
    (
      λ e. ap₂ (λ x y. x ∷ y) (ground arith) (ih.0 (ground arith)),
      λ e. ground (arith, ap head e, ih.1 (ap behind e)),
    )

length-scopy : (s : List ℕ) → length (scopy s) ≡ strlen s
unfolding scopy strlen
length-scopy [] = refl
length-scopy (c ∷ s) = ground (arith, length-scopy s)

-- `M_sappend` stores the bytes of both strings, up to their terminators, in this order; with its own
-- terminator they fill the memory that it asks for, of `strlen(s) + strlen(t) + 1` bytes.
pub sappend_lem :
    (s t : List ℕ)
    → (sappend s t ≡ scopy s ++ scopy t) × (length (sappend s t) + 1 ≡ strlen s + strlen t + 1)
unfolding sappend scopy strlen
sappend_lem [] t = (refl, ap (λ n. n + 1) (length-scopy t ∙ omega arith))
sappend_lem (c ∷ s) t =
    let (a, b) = sappend_lem s t in (ground (arith, a), ground (arith, b, length-scopy t))
