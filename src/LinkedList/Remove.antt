-- ===== src/LinkedList/Remove.antt =====
-- Taking a node out of a list of src/lib/list.c.
use dar_os.Base.{
  ℕ, ◌≡◌, refl, subst, ap, ◌∙◌, sym, ◌==◌, false, if◌then◌else◌, List, [], ◌∷◌, ◌++◌, arith,
  Bool-cases, inl, inr,
}
use dar_os.LinkedList.{Node, LinkedList, set_next, remove_node_from_list}
use dar_os.LinkedList.Chain.{
  mem, first, last, Linked, Goes, set_prev-item, set_next-item, mem-last, last-append,
}
use dar_os.LinkedList.Unlink.{
  Apart, Linked-split, Linked-join, skip_next, skip_prev, skip_next-Linked, skip_prev-Linked,
  remove_node-removed, mem-first,
}

new-head :
    (n : ℕ) (xs ys : List ℕ) (head next : ℕ)
    → head ≡ first (xs ++ (n ∷ ys)) 0
    → next ≡ first ys 0
    → Apart xs (n ∷ ys)
    → (if n == head then next else head) ≡ first (xs ++ ys) 0
unfolding first mem
new-head n [] ys head next eh en apart = ground arith
new-head n (x ∷ xs) ys head next eh en apart = ground (arith, apart x (mem-first x xs))

new-tail :
    (n : ℕ) (xs ys : List ℕ) (tail prev : ℕ)
    → tail ≡ last n ys
    → prev ≡ last 0 xs
    → mem n ys ≡ false
    → (if n == tail then prev else tail) ≡ last 0 (xs ++ ys)
unfolding last
new-tail n xs [] tail prev et ep out = ground (arith, last-append 0 xs [])
new-tail n xs (y ∷ ys) tail prev et ep out =
    ground (arith, last-append 0 xs (y ∷ ys), mem-last n y ys out)

mem-rest : (k n : ℕ) (ys : List ℕ) → mem k (n ∷ ys) ≡ false → mem k ys ≡ false
unfolding mem
mem-rest k n ys e = ground arith

skipped-item :
    (node : ℕ → Node) (p q m : ℕ) → (skip_prev p q (skip_next p q node) m).item ≡ (node m).item
skipped-item node p q m = elim (Bool-cases (p == 0)) [
  | inl a ↦ elim (Bool-cases (q == 0)) [
    | inl b ↦ rw (a, b) refl
    | inr b ↦ rw (a, b) (set_prev-item q p node m)
  ]
  | inr a ↦ elim (Bool-cases (q == 0)) [
    | inl b ↦ rw (a, b) (set_next-item p q node m)
    | inr b ↦ rw (a, b) (set_prev-item q p (set_next p q node) m ∙ set_next-item p q node m)
  ]
]

-- Taking out a node leaves a list through the nodes before it and those behind it; all items stay as they
-- are, and so does the node's own link to the next one. The count stays as it was: it is then one too
-- many.
pub remove_node-Goes :
    (l : LinkedList) (xs ys : List ℕ) (n : ℕ)
    → Goes l (xs ++ (n ∷ ys))
    → let k = remove_node_from_list n l in
      Goes k (xs ++ ys)
      × ((m : ℕ) → (k.node m).item ≡ (l.node m).item)
      × ((k.node n).next ≡ first ys 0)
      × (k.len ≡ l.len)
unfolding Linked first last
remove_node-Goes l xs ys n g =
    let (left, right, apart) = Linked-split l.node 0 xs (n ∷ ys) 0 g.linked in
    let (nz, out, ep, en, rest) = right in
    let p = last 0 xs in
    let q = first ys 0 in
    let (left', rest', same) = skip_next-Linked l.node n xs ys left rest apart in
    let disjoint : Apart xs ys = λ k e. mem-rest k n ys (apart k e) in
    let (left'', rest'', same') =
      skip_prev-Linked (skip_next p q l.node) n p xs ys out left' rest' disjoint in
    let eq = remove_node-removed n p q l ep en same in
    let at = same' ∙ same in
    subst
      (λ k.
        Goes k (xs ++ ys)
        × ((m : ℕ) → (k.node m).item ≡ (l.node m).item)
        × ((k.node n).next ≡ first ys 0)
        × (k.len ≡ l.len))
      (sym eq)
      (
        record {
          linked =
              Linked-join (skip_prev p q (skip_next p q l.node)) 0 xs ys 0 left'' rest'' disjoint;
          head = new-head n xs ys l.head _ g.head (ap (λ x. x.next) at ∙ en) apart;
          tail =
              new-tail n xs ys l.tail _ (g.tail ∙ last-append 0 xs (n ∷ ys))
                (ap (λ x. x.prev) at ∙ ep) out;
        },
        λ m. skipped-item l.node p q m,
        ap (λ x. x.next) at ∙ en,
        refl,
      )
