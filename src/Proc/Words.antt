-- ===== src/Proc/Words.antt =====
-- Words in memory and the stack of the processes of src/kernel/interrupt.c: pushing and then popping.
use dar_os.Base.{
  ℕ, zero, suc, ◌+◌, ◌*◌, ◌/◌, ◌%◌, ◌^◌, ◌<◌, ◌≤◌, ◌≡◌, refl, ap, ap₂, ◌∙◌, write, List, [], ◌∷◌,
  ◌++◌, length, arith, sub64, inl, ◌⊎◌,
}
use dar_os.Proc.Memory.{read_word, write_word, push_all, pop_all, bytes_at, copy_bytes}

pub write_word-other :
    (n a v : ℕ) (ram : ℕ → ℕ) (j : ℕ) → (j < a) ⊎ (a + n ≤ j) → write_word n a v ram j ≡ ram j
unfolding write_word
write_word-other zero a v ram j out = refl
write_word-other (suc n) a v ram j out =
    write_word-other n (a + 1) (v / 256) (write ram a (v % 256)) j (ground arith) ∙ ground arith

pub read_word-agree :
    (n a : ℕ) (ram ram' : ℕ → ℕ)
    → ((j : ℕ) → a ≤ j → j < a + n → ram' j ≡ ram j)
    → read_word n a ram' ≡ read_word n a ram
unfolding read_word
read_word-agree zero a ram ram' same = refl
read_word-agree (suc n) a ram ram' same =
    ap₂ (λ x y. x + 256 * y) (same a (omega arith) (omega arith))
      (read_word-agree n (a + 1) ram ram' (λ j ge lt. same j (omega arith) (omega arith)))

pub read_word-write_word :
    (n a v : ℕ) (ram : ℕ → ℕ) → v < 256 ^ n → read_word n a (write_word n a v ram) ≡ v
unfolding read_word write_word
read_word-write_word zero a v ram lt = ground arith
read_word-write_word (suc n) a v ram lt =
    let ram' = write ram a (v % 256) in
    let rest = read_word-write_word n (a + 1) (v / 256) ram' (grind arith) in
    let low = write_word-other n (a + 1) (v / 256) ram' a (inl (omega arith)) in
    let it : ram' a ≡ v % 256 = ground arith in
    ap₂ (λ x y. x + 256 * y) (low ∙ it) rest ∙ omega arith

-- The values fit their quadwords.
unfoldable pub Quads : List ℕ → Type 0
Quads [] = Unit
Quads (v ∷ vs) = (v < 2 ^ 64) × Quads vs

unfoldable pub rev : List ℕ → List ℕ
rev [] = []
rev (v ∷ vs) = rev vs ++ (v ∷ [])

pub push_all-below :
    (vs : List ℕ) (sp : ℕ) (ram : ℕ → ℕ)
    → 8 * length vs ≤ sp
    → sp < 2 ^ 64
    → (push_all vs sp ram).0 + 8 * length vs ≡ sp
unfolding push_all
push_all-below [] sp ram room lt = omega arith
push_all-below (v ∷ vs) sp ram room lt = omega (
  arith,
  push_all-below vs (sub64 sp 8) (write_word 8 (sub64 sp 8) v ram) (omega arith) (omega arith),
)

-- The memory is changed between the stack pointers only.
pub push_all-other :
    (vs : List ℕ) (sp : ℕ) (ram : ℕ → ℕ) (j : ℕ)
    → 8 * length vs ≤ sp
    → sp < 2 ^ 64
    → (sp ≤ j) ⊎ (j + 8 * length vs < sp)
    → (push_all vs sp ram).1 j ≡ ram j
unfolding push_all
push_all-other [] sp ram j room lt out = refl
push_all-other (v ∷ vs) sp ram j room lt out =
    let sp' = sub64 sp 8 in
    push_all-other vs sp' (write_word 8 sp' v ram) j (omega arith) (omega arith) (ground arith)
    ∙ write_word-other 8 sp' v ram j (ground arith)

pop_all-snoc :
    (n sp : ℕ) (ram : ℕ → ℕ)
    → sp + 8 * n + 8 ≤ 2 ^ 64
    → (pop_all (suc n) sp ram).0 ≡ (pop_all n sp ram).0 ++ (read_word 8 (sp + 8 * n) ram ∷ [])
unfolding pop_all
pop_all-snoc zero sp ram room = ap (λ a. read_word 8 a ram ∷ []) (omega arith)
pop_all-snoc (suc n) sp ram room =
    let next = (sp + 8) % 2 ^ 64 in
    let at : next + 8 * n ≡ sp + 8 * suc n = omega arith in
    ap (λ t. read_word 8 sp ram ∷ t)
      (pop_all-snoc n next ram (omega arith)
        ∙ ap (λ a. (pop_all n next ram).0 ++ (read_word 8 a ram ∷ [])) at)

pop_none : (sp : ℕ) (ram : ℕ → ℕ) → (pop_all 0 sp ram).0 ≡ []
unfolding pop_all
pop_none sp ram = refl

-- Popping gives back what was pushed, the last first.
pub pop_all-push_all :
    (vs : List ℕ) (sp : ℕ) (ram : ℕ → ℕ)
    → 8 * length vs ≤ sp
    → sp < 2 ^ 64
    → Quads vs
    → let (sp', ram') = push_all vs sp ram in (pop_all (length vs) sp' ram').0 ≡ rev vs
unfolding push_all rev Quads
pop_all-push_all [] sp ram room lt q = pop_none sp ram
pop_all-push_all (v ∷ vs) sp ram room lt (q, qs) =
    let sp' = sub64 sp 8 in
    let ram0 = write_word 8 sp' v ram in
    let (top, ram') = push_all vs sp' ram0 in
    let below = push_all-below vs sp' ram0 (omega arith) (omega arith) in
    let rest = pop_all-push_all vs sp' ram0 (omega arith) (omega arith) qs in
    let kept : read_word 8 sp' ram' ≡ v =
      read_word-agree 8 sp' ram0 ram'
        (λ j ge lt'. push_all-other vs sp' ram0 j (omega arith) (omega arith) (inl ge))
      ∙ read_word-write_word 8 sp' v ram (omega arith) in
    pop_all-snoc (length vs) top ram' (omega arith)
    ∙ ap₂ (λ x a. x ++ (read_word 8 a ram' ∷ [])) rest below
    ∙ ap (λ w. rev vs ++ (w ∷ [])) kept

-- What is copied is there, and nothing else is changed.
pub copy_bytes-other :
    (l : List ℕ) (a : ℕ) (ram : ℕ → ℕ) (j : ℕ)
    → (j < a) ⊎ (a + length l ≤ j)
    → copy_bytes l a ram j ≡ ram j
unfolding copy_bytes
copy_bytes-other [] a ram j out = refl
copy_bytes-other (x ∷ l) a ram j out =
    copy_bytes-other l (a + 1) (write ram a x) j (ground arith) ∙ ground arith

pub bytes_at-copy_bytes :
    (l : List ℕ) (a : ℕ) (ram : ℕ → ℕ) → bytes_at (length l) a (copy_bytes l a ram) ≡ l
unfolding bytes_at copy_bytes
bytes_at-copy_bytes [] a ram = refl
bytes_at-copy_bytes (x ∷ l) a ram =
    let it : write ram a x a ≡ x = ground arith in
    ap₂ (λ y ys. y ∷ ys) (copy_bytes-other l (a + 1) (write ram a x) a (inl (omega arith)) ∙ it)
      (bytes_at-copy_bytes l (a + 1) (write ram a x))

pub bytes_at-agree :
    (n a : ℕ) (ram ram' : ℕ → ℕ)
    → ((j : ℕ) → a ≤ j → j < a + n → ram' j ≡ ram j)
    → bytes_at n a ram' ≡ bytes_at n a ram
unfolding bytes_at
bytes_at-agree zero a ram ram' same = refl
bytes_at-agree (suc n) a ram ram' same =
    ap₂ (λ x xs. x ∷ xs) (same a (omega arith) (omega arith))
      (bytes_at-agree n (a + 1) ram ram' (λ j ge lt. same j (omega arith) (omega arith)))
