-- ===== src/LinkedList/Circle.antt =====
-- `nextNodeCirc` of src/lib/list.c on a list that goes through given nodes, and going round with it.
use dar_os.Base.{
  ℕ, zero, suc, ◌+◌, ◌≡◌, refl, ap, ◌∙◌, sym, ◌==◌, false, some, List, [], ◌∷◌, ◌++◌, length, arith,
  subst, append-nil, append_assoc,
}
use dar_os.LinkedList.{LinkedList}
use dar_os.LinkedList.Chain.{Linked, Goes, first, last}
use dar_os.LinkedList.Unlink.{Linked-split}
use dar_os.LinkedList.Walk.{next_node_circ}

-- The nodes that follow in `k` steps from `n`.
unfoldable pub round : (k : ℕ) → LinkedList → ℕ → List ℕ
round zero l n = []
round (suc k) l n = let m = next_node_circ (some l) n in m ∷ round k l m

round-add :
    (j k : ℕ) (l : LinkedList) (n : ℕ)
    → round (j + k) l n ≡ round j l n ++ round k l (last n (round j l n))
unfolding round last
round-add zero k l n = let e : 0 + k ≡ k = omega arith in ap (λ i. round i l n) e
round-add (suc j) k l n =
    let m = next_node_circ (some l) n in
    let e : suc j + k ≡ suc (j + k) = omega arith in
    ap (λ i. round i l n) e ∙ ap (λ r. m ∷ r) (round-add j k l m)

-- The links at a node of the list.
pub link-at :
    (l : LinkedList) (xs ys : List ℕ) (n : ℕ)
    → Goes l (xs ++ (n ∷ ys))
    → ((n == 0) ≡ false) × ((l.node n).next ≡ first ys 0)
unfolding Linked
link-at l xs ys n g =
    let (left, right, apart) = Linked-split l.node 0 xs (n ∷ ys) 0 g.linked in
    (ground (arith, right.0), right.3)

-- A node that another follows.
pub next_node_circ-inner :
    (l : LinkedList) (xs ys : List ℕ) (n m : ℕ)
    → Goes l (xs ++ (n ∷ m ∷ ys))
    → next_node_circ (some l) n ≡ m
unfolding next_node_circ first Linked
next_node_circ-inner l xs ys n m g =
    let (nz, next) = link-at l xs (m ∷ ys) n g in
    let (left, right, apart) = Linked-split l.node 0 xs (n ∷ m ∷ ys) 0 g.linked in
    let mz = right.4.0 in ground (arith, nz, next, mz)

-- The last node.
pub next_node_circ-last :
    (l : LinkedList) (xs : List ℕ) (n : ℕ)
    → Goes l (xs ++ (n ∷ []))
    → next_node_circ (some l) n ≡ l.head
unfolding next_node_circ first
next_node_circ-last l xs n g = let (nz, next) = link-at l xs [] n g in ground (arith, nz, next)

round-behind :
    (l : LinkedList) (xs ys zs : List ℕ) (n : ℕ)
    → Goes l (xs ++ (n ∷ (ys ++ zs)))
    → round (length ys) l n ≡ ys
unfolding round
round-behind l xs [] zs n g = refl
round-behind l xs (m ∷ ys) zs n g =
    let next = next_node_circ-inner l xs (ys ++ zs) n m g in
    let g' = subst (Goes l) (sym (append_assoc xs (n ∷ []) (m ∷ (ys ++ zs)))) g in
    rw next (ap (λ r. m ∷ r) (round-behind l (xs ++ (n ∷ [])) ys zs m g'))

-- From a node before the list's start, its first nodes in order.
round-front :
    (l : LinkedList) (m x : ℕ) (xs ys : List ℕ)
    → Goes l (x ∷ (xs ++ ys))
    → next_node_circ (some l) m ≡ l.head
    → round (length (x ∷ xs)) l m ≡ x ∷ xs
unfolding round first
round-front l m x xs ys g e = rw (e ∙ g.head) (ap (λ r. x ∷ r) (round-behind l [] xs ys x g))

next_node_circ_at_last :
    (l : LinkedList) (xs ys : List ℕ) (n : ℕ)
    → Goes l (xs ++ (n ∷ ys))
    → next_node_circ (some l) (last n ys) ≡ l.head
unfolding last
next_node_circ_at_last l xs [] n g = next_node_circ-last l xs n g
next_node_circ_at_last l xs (m ∷ ys) n g =
    let g' = subst (Goes l) (sym (append_assoc xs (n ∷ []) (m ∷ ys))) g in
    next_node_circ_at_last l (xs ++ (n ∷ [])) ys m g'

round-start :
    (l : LinkedList) (xs ys : List ℕ) (n m : ℕ)
    → Goes l (xs ++ (n ∷ ys))
    → next_node_circ (some l) m ≡ l.head
    → round (length (xs ++ (n ∷ []))) l m ≡ xs ++ (n ∷ [])
round-start l [] ys n m g e = round-front l m n [] ys g e
round-start l (x ∷ xs) ys n m g e =
    round-front l m x (xs ++ (n ∷ [])) ys
      (subst (λ ns. Goes l (x ∷ ns)) (sym (append_assoc xs (n ∷ []) ys)) g) e

-- Going round from a node: those behind it, then those before it, then the node.
pub round-circle :
    (l : LinkedList) (xs ys : List ℕ) (n : ℕ)
    → Goes l (xs ++ (n ∷ ys))
    → round (length ys + length (xs ++ (n ∷ []))) l n ≡ ys ++ (xs ++ (n ∷ []))
round-circle l xs ys n g =
    let behind = subst (λ zs. Goes l (xs ++ (n ∷ zs))) (sym (append-nil ys)) g in
    let e = round-behind l xs ys [] n behind in
    round-add (length ys) (length (xs ++ (n ∷ []))) l n
    ∙ rw (e, round-start l xs ys n (last n ys) g (next_node_circ_at_last l xs ys n g)) refl
