-- ===== src/LinkedList/Chain.antt =====
-- Chains of nodes of src/lib/list.c: which addresses a list goes through.
use dar_os.Base.{
  ℕ, ◌≡◌, ◌≢◌, refl, ap, ◌∙◌, sym, ◌==◌, Bool, true, false, ◌||◌, List, [], ◌∷◌, ◌++◌, arith,
  Bool-cases, inl, inr,
}
use dar_os.LinkedList.{Node, LinkedList, set_next, set_prev}

unfoldable pub mem : ℕ → List ℕ → Bool
mem n [] = false
mem n (x ∷ xs) = n == x || mem n xs

-- The address at the start, or `q`, and the one at the end, or `p`.
unfoldable pub first : List ℕ → ℕ → ℕ
first [] q = q
first (n ∷ ns) q = n

unfoldable pub last : ℕ → List ℕ → ℕ
last p [] = p
last p (n ∷ ns) = last n ns

-- The nodes `ns` are linked both ways, between the addresses `p` before and `q` behind; they are not
-- null, and different.
unfoldable pub Linked : (ℕ → Node) → ℕ → List ℕ → ℕ → Type 0
Linked node p [] q = Unit
Linked node p (n ∷ ns) q =
    (n ≢ 0)
    × (mem n ns ≡ false)
    × ((node n).prev ≡ p)
    × ((node n).next ≡ first ns q)
    × Linked node n ns q

-- A list that goes through the nodes `ns`, but for its length.
pub record Goes (l : LinkedList) (ns : List ℕ) : Type 0 where
  pub linked : Linked l.node 0 ns 0
  pub head : l.head ≡ first ns 0
  pub tail : l.tail ≡ last 0 ns

unfoldable pub items : (ℕ → Node) → List ℕ → List ℕ
items node [] = []
items node (n ∷ ns) = (node n).item ∷ items node ns

-- Stores that agree on the nodes agree on the links and the items.
pub Linked-agree :
    (node node' : ℕ → Node) (p : ℕ) (ns : List ℕ) (q : ℕ)
    → ((n : ℕ) → mem n ns ≡ true → node' n ≡ node n)
    → Linked node p ns q
    → Linked node' p ns q
unfolding Linked mem
Linked-agree node node' p [] q same l = tt
Linked-agree node node' p (n ∷ ns) q same (nz, out, a, b, rest) = (
  nz,
  out,
  ap (λ x. x.prev) (same n ground arith) ∙ a,
  ap (λ x. x.next) (same n ground arith) ∙ b,
  Linked-agree node node' n ns q (λ m h. same m (ground arith)) rest,
)

pub items-agree :
    (node node' : ℕ → Node) (ns : List ℕ)
    → ((n : ℕ) → mem n ns ≡ true → (node' n).item ≡ (node n).item)
    → items node' ns ≡ items node ns
unfolding items mem
items-agree node node' [] same = refl
items-agree node node' (n ∷ ns) same =
    ground (arith, same n (ground arith), items-agree node node' ns (λ m h. same m (ground arith)))

pub set_prev-item : (n v : ℕ) (node : ℕ → Node) (m : ℕ) → (set_prev n v node m).item ≡ (node m).item
unfolding set_prev
set_prev-item n v node m = elim (Bool-cases (m == n)) [
  | inl e ↦ rw e (ap (λ x. (node x).item) (ground arith))
  | inr e ↦ rw e refl
]

pub set_next-item : (n v : ℕ) (node : ℕ → Node) (m : ℕ) → (set_next n v node m).item ≡ (node m).item
unfolding set_next
set_next-item n v node m = ground arith

pub set_prev-other :
    (n v : ℕ) (node : ℕ → Node) (m : ℕ) → (m == n) ≡ false → set_prev n v node m ≡ node m
unfolding set_prev
set_prev-other n v node m e = rw e refl

pub set_next-other :
    (n v : ℕ) (node : ℕ → Node) (m : ℕ) → (m == n) ≡ false → set_next n v node m ≡ node m
unfolding set_next
set_next-other n v node m e = rw e refl

pub set_prev_self : (n v : ℕ) (node : ℕ → Node) → set_prev n v node n ≡ record (node n) { prev = v }
unfolding set_prev
set_prev_self n v node = let e : (n == n) ≡ true = ground arith in rw e refl

pub set_next_self : (n v : ℕ) (node : ℕ → Node) → set_next n v node n ≡ record (node n) { next = v }
unfolding set_next
set_next_self n v node = let e : (n == n) ≡ true = ground arith in rw e refl

pub mem-ne : (n m : ℕ) (ns : List ℕ) → mem n ns ≡ false → mem m ns ≡ true → (m == n) ≡ false
mem-ne n m ns out h = elim (Bool-cases (m == n)) [ inl e ↦ absurd (ground arith) | inr e ↦ e ]

-- A chain with another address before it.
pub relink-front :
    (node : ℕ → Node) (p p' n : ℕ) (ns : List ℕ) (q : ℕ)
    → Linked node p (n ∷ ns) q
    → Linked (set_prev n p' node) p' (n ∷ ns) q
unfolding Linked
relink-front node p p' n ns q (nz, out, a, b, rest) = (
  nz,
  out,
  ap (λ x. x.prev) (set_prev_self n p' node),
  ap (λ x. x.next) (set_prev_self n p' node) ∙ b,
  Linked-agree node (set_prev n p' node) n ns q
      (λ m h. set_prev-other n p' node m (mem-ne n m ns out h)) rest,
)

pub last-mem : (n : ℕ) (ns : List ℕ) → mem (last n ns) (n ∷ ns) ≡ true
unfolding mem last
last-mem n [] = ground arith
last-mem n (m ∷ ns) = ground (arith, last-mem m ns)

pub mem-last : (n m : ℕ) (ns : List ℕ) → mem n (m ∷ ns) ≡ false → (n == last m ns) ≡ false
mem-last n m ns out = elim (Bool-cases (n == last m ns)) [
  | inl e ↦ absurd (ground (arith, last-mem m ns))
  | inr e ↦ e
]

-- A chain with another address behind it.
pub relink-back :
    (node : ℕ → Node) (p n : ℕ) (ns : List ℕ) (q q' : ℕ)
    → Linked node p (n ∷ ns) q
    → Linked (set_next (last n ns) q' node) p (n ∷ ns) q'
unfolding Linked last first
relink-back node p n [] q q' (nz, out, a, b, rest) = (
  nz,
  out,
  ap (λ x. x.prev) (set_next_self n q' node) ∙ a,
  ap (λ x. x.next) (set_next_self n q' node),
  tt,
)
relink-back node p n (m ∷ ns) q q' (nz, out, a, b, rest) =
    let same = set_next-other (last m ns) q' node n (mem-last n m ns out) in
    (
      nz,
      out,
      ap (λ x. x.prev) same ∙ a,
      ap (λ x. x.next) same ∙ b,
      relink-back node n m ns q q' rest,
    )

-- A chain in two parts, which have no node in common, and back.
pub mem-append : (n : ℕ) (xs ys : List ℕ) → mem n (xs ++ ys) ≡ (mem n xs || mem n ys)
unfolding mem
mem-append n [] ys = refl
mem-append n (x ∷ xs) ys = ground (arith, mem-append n xs ys)

pub first-append : (xs ys : List ℕ) (q : ℕ) → first (xs ++ ys) q ≡ first xs (first ys q)
unfolding first
first-append [] ys q = refl
first-append (x ∷ xs) ys q = refl

pub last-append : (p : ℕ) (xs ys : List ℕ) → last p (xs ++ ys) ≡ last (last p xs) ys
unfolding last
last-append p [] ys = refl
last-append p (x ∷ xs) ys = last-append x xs ys

pub items-append :
    (node : ℕ → Node) (xs ys : List ℕ) → items node (xs ++ ys) ≡ items node xs ++ items node ys
unfolding items
items-append node [] ys = refl
items-append node (x ∷ xs) ys = ap (λ t. (node x).item ∷ t) (items-append node xs ys)

-- One node behind a chain that ends before it.
pub Linked-snoc :
    (node : ℕ → Node) (p : ℕ) (ns : List ℕ) (n q : ℕ)
    → Linked node p ns n
    → mem n ns ≡ false
    → Linked node (last p ns) (n ∷ []) q
    → Linked node p (ns ++ (n ∷ [])) q
unfolding Linked last mem first
Linked-snoc node p [] n q l out e = e
Linked-snoc node p (m ∷ ns) n q (nz, apart, a, b, rest) out e = (
  nz,
  mem-append m ns (n ∷ []) ∙ ground arith,
  a,
  b ∙ sym (first-append ns (n ∷ []) q),
  Linked-snoc node m ns n q rest (ground arith) e,
)

pub last-nonzero :
    (node : ℕ → Node) (p m : ℕ) (ns : List ℕ) (q : ℕ)
    → Linked node p (m ∷ ns) q
    → (last m ns == 0) ≡ false
unfolding Linked last
last-nonzero node p m [] q (m_ne, m_out, m_prev, m_next, rest) = ground arith
last-nonzero node p m (k ∷ ns) q (m_ne, m_out, m_prev, m_next, rest) =
    last-nonzero node m k ns q rest
