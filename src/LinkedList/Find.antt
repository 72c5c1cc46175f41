-- ===== src/LinkedList/Find.antt =====
-- `getNodeByCondition` of src/lib/list.c against the sequence of a list's items.
use dar_os.Base.{
  ℕ, zero, suc, ◌≤◌, ◌≡◌, refl, subst, ap, ◌∙◌, sym, ◌==◌, Bool, true, false, if◌then◌else◌, List,
  [], ◌∷◌, ◌++◌, length, arith, Bool-cases, inl, inr, append_assoc,
}
use dar_os.LinkedList.{LinkedList, get_node, get_node_by_condition}
use dar_os.LinkedList.Chain.{first, Goes, items}
use dar_os.LinkedList.Walk.{list_item}
use dar_os.LinkedList.Reject.{node-nonzero, next-first}

-- The first item that matches, 0 if there is none.
unfoldable pub find_item : (ℕ → Bool) → List ℕ → ℕ
find_item matches [] = 0
find_item matches (x ∷ xs) = if matches x then x else find_item matches xs

get_node-nil : (fuel : ℕ) (matches : ℕ → Bool) (l : LinkedList) → get_node fuel matches 0 l ≡ 0
unfolding get_node
get_node-nil zero matches l = refl
get_node-nil (suc fuel) matches l = refl

get_node-match :
    (fuel : ℕ) (matches : ℕ → Bool) (l : LinkedList) (n : ℕ)
    → (n == 0) ≡ false
    → matches (l.node n).item ≡ true
    → get_node (suc fuel) matches n l ≡ n
unfolding get_node
get_node-match fuel matches l n nz e = rw (nz, e) refl

get_node-pass :
    (fuel : ℕ) (matches : ℕ → Bool) (l : LinkedList) (n : ℕ)
    → (n == 0) ≡ false
    → matches (l.node n).item ≡ false
    → get_node (suc fuel) matches n l ≡ get_node fuel matches (l.node n).next l
unfolding get_node
get_node-pass fuel matches l n nz e = rw (nz, e) refl

null_item : (l : LinkedList) → list_item l.node 0 ≡ 0
unfolding list_item
null_item l = refl

item_real : (l : LinkedList) (n : ℕ) → (n == 0) ≡ false → list_item l.node n ≡ (l.node n).item
unfolding list_item
item_real l n nz = rw nz refl

get_node-items :
    (matches : ℕ → Bool) (l : LinkedList) (ns xs : List ℕ) (fuel : ℕ)
    → length ns ≤ fuel
    → Goes l (xs ++ ns)
    → list_item l.node (get_node fuel matches (first ns 0) l) ≡ find_item matches (items l.node ns)
unfolding first items find_item
get_node-items matches l [] xs fuel le g = rw (get_node-nil fuel matches l) (null_item l)
get_node-items matches l (n ∷ ns) xs zero le g = absurd (omega arith)
get_node-items matches l (n ∷ ns) xs (suc fuel) le g =
    let nz = node-nonzero l xs ns n g in
    let next = next-first l xs ns n g in
    let g' = subst (Goes l) (sym (append_assoc xs (n ∷ []) ns)) g in
    let rest = get_node-items matches l ns (xs ++ (n ∷ [])) fuel (omega arith) g' in
    elim (Bool-cases (matches (l.node n).item)) [
      | inl e ↦
          ap (list_item l.node) (get_node-match fuel matches l n nz e)
          ∙ item_real l n nz
          ∙ rw e refl
      | inr e ↦ ap (list_item l.node) (get_node-pass fuel matches l n nz e) ∙ rw (next, e) rest
    ]

pub get_node_by_condition-items :
    (fuel : ℕ) (matches : ℕ → Bool) (l : LinkedList) (ns : List ℕ)
    → length ns ≤ fuel
    → Goes l ns
    → list_item l.node (get_node_by_condition fuel matches l) ≡ find_item matches (items l.node ns)
unfolding get_node_by_condition
get_node_by_condition-items fuel matches l ns le g =
    ap (λ h. list_item l.node (get_node fuel matches h l)) g.head
    ∙ get_node-items matches l ns [] fuel le g
