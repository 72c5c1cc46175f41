-- ===== src/LinkedList/Unlink.antt =====
-- How `removeNodeFromList` of src/lib/list.c links the two parts of a chain.
use dar_os.Base.{
  ℕ, ◌≡◌, refl, ◌∙◌, sym, ◌==◌, true, false, if◌then◌else◌, List, [], ◌∷◌, ◌++◌, arith, Bool-cases,
  inl, inr,
}
use dar_os.LinkedList.{Node, LinkedList, set_next, set_prev, remove_node_from_list}
use dar_os.LinkedList.Chain.{
  mem, first, last, Linked, Linked-agree, set_prev-other, set_next-other, relink-front, relink-back,
  last-mem, last-nonzero, mem-append, mem-ne, first-append,
}

-- No node is in both parts of a chain.
abbrev pub Apart : List ℕ → List ℕ → Type 0
Apart xs ys = (k : ℕ) → mem k xs ≡ true → mem k ys ≡ false

pub Linked-split :
    (node : ℕ → Node) (p : ℕ) (xs ys : List ℕ) (q : ℕ)
    → Linked node p (xs ++ ys) q
    → Linked node p xs (first ys q) × Linked node (last p xs) ys q × Apart xs ys
unfolding Linked last mem
Linked-split node p [] ys q l = (tt, l, λ k e. cc)
Linked-split node p (x ∷ xs) ys q (nz, out, a, b, rest) =
    let (l, r, apart) = Linked-split node x xs ys q rest in
    let m = mem-append x xs ys in
    (
      (nz, ground arith, a, b ∙ first-append xs ys q, l),
      r,
      λ k e. elim (Bool-cases (k == x)) [ inl s ↦ ground arith | inr s ↦ apart k (ground arith) ],
    )

pub Linked-join :
    (node : ℕ → Node) (p : ℕ) (xs ys : List ℕ) (q : ℕ)
    → Linked node p xs (first ys q)
    → Linked node (last p xs) ys q
    → Apart xs ys
    → Linked node p (xs ++ ys) q
unfolding Linked last mem
Linked-join node p [] ys q l r apart = r
Linked-join node p (x ∷ xs) ys q (nz, out, a, b, rest) r apart = (
  nz,
  mem-append x xs ys ∙ ground (arith, apart x (ground arith)),
  a,
  b ∙ sym (first-append xs ys q),
  Linked-join node x xs ys q rest r (λ k e. apart k (ground arith)),
)

-- The store after the first assignment of `removeNodeFromList`, for a node between `p` and `q`, and after
-- the second.
abbrev pub skip_next : (p q : ℕ) → (ℕ → Node) → ℕ → Node
skip_next p q node = if p == 0 then node else set_next p q node

abbrev pub skip_prev : (p q : ℕ) → (ℕ → Node) → ℕ → Node
skip_prev p q node = if q == 0 then node else set_prev q p node

pub apart-ne : (n m : ℕ) (ns : List ℕ) → mem n ns ≡ false → mem m ns ≡ true → (n == m) ≡ false
apart-ne n m ns out h = elim (Bool-cases (n == m)) [ inl e ↦ absurd (ground arith) | inr e ↦ e ]

pub mem-first : (n : ℕ) (ns : List ℕ) → mem n (n ∷ ns) ≡ true
unfolding mem
mem-first n ns = ground arith

pub mem-cons : (m n : ℕ) (ns : List ℕ) → mem m ns ≡ true → mem m (n ∷ ns) ≡ true
unfolding mem
mem-cons m n ns h = ground arith

pub Linked-nil : (node : ℕ → Node) (p q : ℕ) → Linked node p [] q
unfolding Linked
Linked-nil node p q = tt

pub skip_next-Linked :
    (node : ℕ → Node) (n : ℕ) (xs ys : List ℕ)
    → Linked node 0 xs n
    → Linked node n ys 0
    → Apart xs (n ∷ ys)
    → let node' = skip_next (last 0 xs) (first ys 0) node in
      Linked node' 0 xs (first ys 0) × Linked node' n ys 0 × (node' n ≡ node n)
unfolding last
skip_next-Linked node n [] ys l r apart = (Linked-nil node 0 (first ys 0), r, refl)
skip_next-Linked node n (x ∷ xs) ys l r apart =
    let p = last x xs in
    let out = apart p (last-mem x xs) in
    rw (last-nonzero node 0 x xs n l) (
      relink-back node 0 x xs n (first ys 0) l,
      Linked-agree node (set_next p (first ys 0) node) n ys 0
          (λ m h.
            set_next-other p (first ys 0) node m (mem-ne p m (n ∷ ys) out (mem-cons m n ys h)))
          r,
      set_next-other p (first ys 0) node n (mem-ne p n (n ∷ ys) out (mem-first n ys)),
    )

pub first-nonzero :
    (node : ℕ → Node) (p m : ℕ) (ns : List ℕ) (q : ℕ) → Linked node p (m ∷ ns) q → (m == 0) ≡ false
unfolding Linked
first-nonzero node p m ns q l = ground (arith, l.0)

pub skip_prev-Linked :
    (node : ℕ → Node) (n p : ℕ) (xs ys : List ℕ)
    → mem n ys ≡ false
    → Linked node 0 xs (first ys 0)
    → Linked node n ys 0
    → Apart xs ys
    → let node' = skip_prev p (first ys 0) node in
      Linked node' 0 xs (first ys 0) × Linked node' p ys 0 × (node' n ≡ node n)
unfolding first
skip_prev-Linked node n p xs [] out l r apart = (l, Linked-nil node p 0, refl)
skip_prev-Linked node n p xs (y ∷ ys) out l r apart = rw (first-nonzero node n y ys 0 r) (
  Linked-agree node (set_prev y p node) 0 xs y
      (λ m h. set_prev-other y p node m (apart-ne m y (y ∷ ys) (apart m h) (mem-first y ys))) l,
  relink-front node n p y ys 0 r,
  set_prev-other y p node n (apart-ne n y (y ∷ ys) out (mem-first y ys)),
)

-- `removeNodeFromList` on a node between `p` and `q`.
abbrev pub removed : (n p q : ℕ) → LinkedList → LinkedList
removed n p q l =
    let node = skip_prev p q (skip_next p q l.node) in
    record l {
      node = node;
      head = if n == l.head then (node n).next else l.head;
      tail = if n == l.tail then (node n).prev else l.tail;
    }

pub remove_node-removed :
    (n p q : ℕ) (l : LinkedList)
    → (l.node n).prev ≡ p
    → (l.node n).next ≡ q
    → skip_next p q l.node n ≡ l.node n
    → remove_node_from_list n l ≡ removed n p q l
unfolding remove_node_from_list
remove_node-removed n p q l ep eq same = rw (ep, eq) (rw (same, ep, eq) refl)
