-- ===== src/LinkedList/Reject.antt =====
-- `removeFromListWithEquality` of src/lib/list.c against the sequence of a list's items.
use dar_os.Base.{
  ℕ, zero, suc, ◌≤◌, ◌≡◌, refl, subst, ap, ap₂, ◌∙◌, sym, ◌==◌, Bool, true, false, if◌then◌else◌,
  List, [], ◌∷◌, ◌++◌, length, arith, Bool-cases, inl, inr, append_assoc, sub64,
}
use dar_os.LinkedList.{
  Node, LinkedList, remove_node_from_list, remove_matching, remove_from_list_with_equality,
}
use dar_os.LinkedList.Chain.{first, last, Linked, Goes, items, items-agree, items-append}
use dar_os.LinkedList.Unlink.{Linked-split}
use dar_os.LinkedList.Remove.{remove_node-Goes}

-- The items that do not match.
unfoldable pub reject : (ℕ → Bool) → List ℕ → List ℕ
reject equals [] = []
reject equals (x ∷ xs) = if equals x then reject equals xs else x ∷ reject equals xs

-- What the loop leaves of the nodes `ys`, the nodes before them being `xs`.
abbrev Kept : (ℕ → Bool) → (l : LinkedList) → (xs ys : List ℕ) → LinkedList → Type 0
Kept equals l xs ys k =
    (zs : List ℕ) × Goes k (xs ++ zs)
    × (items k.node (xs ++ zs) ≡ items l.node xs ++ reject equals (items l.node ys))
    × (k.len ≡ l.len)

head-nonzero :
    (node : ℕ → Node) (p n : ℕ) (ns : List ℕ) (q : ℕ) → Linked node p (n ∷ ns) q → (n == 0) ≡ false
unfolding Linked
head-nonzero node p n ns q k = ground (arith, k.0)

pub node-nonzero :
    (l : LinkedList) (xs ys : List ℕ) (n : ℕ) → Goes l (xs ++ (n ∷ ys)) → (n == 0) ≡ false
node-nonzero l xs ys n g =
    let (left, right, apart) = Linked-split l.node 0 xs (n ∷ ys) 0 g.linked in
    head-nonzero l.node (last 0 xs) n ys 0 right

pub remove_matching-nil :
    (fuel : ℕ) (equals : ℕ → Bool) (l : LinkedList) → remove_matching fuel equals 0 l ≡ l
unfolding remove_matching
remove_matching-nil zero equals l = refl
remove_matching-nil (suc fuel) equals l = refl

pub remove_matching-match :
    (fuel : ℕ) (equals : ℕ → Bool) (n : ℕ) (l : LinkedList)
    → (n == 0) ≡ false
    → equals (l.node n).item ≡ true
    → remove_matching (suc fuel) equals n l
      ≡ remove_matching fuel equals
          ((remove_node_from_list n l).node n).next
          (remove_node_from_list n l)
unfolding remove_matching
remove_matching-match fuel equals n l ne e = rw (ne, e) refl

pub remove_matching-pass :
    (fuel : ℕ) (equals : ℕ → Bool) (n : ℕ) (l : LinkedList)
    → (n == 0) ≡ false
    → equals (l.node n).item ≡ false
    → remove_matching (suc fuel) equals n l ≡ remove_matching fuel equals (l.node n).next l
unfolding remove_matching
remove_matching-pass fuel equals n l ne e = rw (ne, e) refl

pub next-first :
    (l : LinkedList) (xs ys : List ℕ) (n : ℕ)
    → Goes l (xs ++ (n ∷ ys))
    → (l.node n).next ≡ first ys 0
unfolding Linked
next-first l xs ys n g = (Linked-split l.node 0 xs (n ∷ ys) 0 g.linked).1.3

remove_matching-Kept :
    (ys : List ℕ) (fuel : ℕ) (equals : ℕ → Bool) (xs : List ℕ) (l : LinkedList)
    → length ys ≤ fuel
    → Goes l (xs ++ ys)
    → Kept equals l xs ys (remove_matching fuel equals (first ys 0) l)
unfolding first items reject
remove_matching-Kept [] fuel equals xs l le g =
    subst (Kept equals l xs []) (sym (remove_matching-nil fuel equals l))
      ([], g, items-append l.node xs [], refl)
remove_matching-Kept (n ∷ ys) zero equals xs l le g = absurd (omega arith)
remove_matching-Kept (n ∷ ys) (suc fuel) equals xs l le g =
    elim (Bool-cases (equals (l.node n).item)) [
      | inl match ↦
          let k = remove_node_from_list n l in
          let (g', same, next, len) = remove_node-Goes l xs ys n g in
          let (zs, h, it, len') = remove_matching-Kept ys fuel equals xs k (omega arith) g' in
          let eq =
            remove_matching-match fuel equals n l (node-nonzero l xs ys n g) match
            ∙ ap (λ c. remove_matching fuel equals c k) next in
          subst (Kept equals l xs (n ∷ ys)) (sym eq) (
            zs,
            h,
            it
                ∙ ap₂ (λ a b. a ++ reject equals b) (items-agree l.node k.node xs (λ m e. same m))
                    (items-agree l.node k.node ys (λ m e. same m))
                ∙ rw match refl,
            len' ∙ len,
          )
      | inr other ↦
          let (zs, h, it, len) =
            remove_matching-Kept ys fuel equals (xs ++ (n ∷ [])) l (omega arith)
              (subst (Goes l) (sym (append_assoc xs (n ∷ []) ys)) g) in
          let eq =
            remove_matching-pass fuel equals n l (node-nonzero l xs ys n g) other
            ∙ ap (λ c. remove_matching fuel equals c l) (next-first l xs ys n g) in
          let k = remove_matching fuel equals (first ys 0) l in
          let assoc = append_assoc xs (n ∷ []) zs in
          subst (Kept equals l xs (n ∷ ys)) (sym eq) (
            n ∷ zs,
            subst (Goes k) assoc h,
            ap (items k.node) (sym assoc)
                ∙ it
                ∙ ap (λ a. a ++ reject equals (items l.node ys)) (items-append l.node xs (n ∷ []))
                ∙ append_assoc (items l.node xs) ((l.node n).item ∷ [])
                    (reject equals (items l.node ys))
                ∙ rw other refl,
            len,
          )
    ]

-- A list `k` that has the items of `l` on the nodes `ns` which do not match, and counts one less.
abbrev pub Rejected : (ℕ → Bool) → (l : LinkedList) → (ns : List ℕ) → LinkedList → Type 0
Rejected equals l ns k =
    ((zs : List ℕ) × Goes k zs × (items k.node zs ≡ reject equals (items l.node ns)))
    × (k.len ≡ (if l.head == 0 then l.len else sub64 l.len 1))

started-empty :
    (fuel : ℕ) (equals : ℕ → Bool) (l : LinkedList)
    → (l.head == 0) ≡ true
    → remove_from_list_with_equality fuel equals l ≡ l
unfolding remove_from_list_with_equality
started-empty fuel equals l e = rw e refl

pub started-cons :
    (fuel : ℕ) (equals : ℕ → Bool) (l : LinkedList) (n : ℕ)
    → l.head ≡ n
    → (n == 0) ≡ false
    → remove_from_list_with_equality fuel equals l
      ≡ remove_matching fuel equals n (record l { len = sub64 l.len 1 })
unfolding remove_from_list_with_equality
started-cons fuel equals l n e ne =
    let at : (l.head == 0) ≡ false = ap (λ h. h == 0) e ∙ ne in
    rw at (ap (λ h. remove_matching fuel equals h (record l { len = sub64 l.len 1 })) e)

-- `removeFromListWithEquality`, with as many rounds as the list has nodes, takes out all items that match,
-- not only the first, and keeps the order of the others. It lowers the count by one however many that
-- were, unless the list is empty.
pub remove_from_list_with_equality-reject :
    (fuel : ℕ) (equals : ℕ → Bool) (l : LinkedList) (ns : List ℕ)
    → length ns ≤ fuel
    → Goes l ns
    → Rejected equals l ns (remove_from_list_with_equality fuel equals l)
unfolding first items reject
remove_from_list_with_equality-reject fuel equals l [] le g =
    let at : (l.head == 0) ≡ true = ground (arith, g.head) in
    subst (Rejected equals l []) (sym (started-empty fuel equals l at)) (([], g, refl), rw at refl)
remove_from_list_with_equality-reject fuel equals l (n ∷ ns) le g =
    let l' : LinkedList = record l { len = sub64 l.len 1 } in
    let nz = node-nonzero l [] ns n g in
    let at : (l.head == 0) ≡ false = ap (λ h. h == 0) g.head ∙ nz in
    let (zs, h, it, len) =
      remove_matching-Kept (n ∷ ns) fuel equals [] l' le
        (record { linked = g.linked; head = g.head; tail = g.tail }) in
    subst (Rejected equals l (n ∷ ns)) (sym (started-cons fuel equals l n g.head nz))
      ((zs, h, it), len ∙ rw at refl)
