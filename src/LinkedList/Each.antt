-- ===== src/LinkedList/Each.antt =====
-- The loops of src/lib/list.c that call a function on each item, `forEachListItem` and `forEachNewListItem`.
use dar_os.Base.{
  ℕ, zero, suc, ◌≤◌, ◌≡◌, ◌≢◌, refl, ap, ◌==◌, false, if◌then◌else◌, some, List, [], ◌∷◌, ◌++◌,
  length, arith,
}
use dar_os.LinkedList.{Node, LinkedList}
use dar_os.LinkedList.Chain.{Linked, Goes, first, last, items, last-nonzero}
use dar_os.LinkedList.Walk.{for_each_li, for_each_list_item, for_each_new_list_item}

-- The part of a chain behind a node.
Linked-behind :
    (node : ℕ → Node) (p n : ℕ) (ns ms : List ℕ) (q : ℕ)
    → Linked node p (n ∷ (ns ++ ms)) q
    → ((node (last n ns)).next ≡ first ms q) × Linked node (last n ns) ms q × (last n ns ≢ 0)
unfolding Linked first last
Linked-behind node p n [] ms q (nz, out, a, b, rest) = (b, rest, nz)
Linked-behind node p n (m ∷ ns) ms q (nz, out, a, b, rest) = Linked-behind node n m ns ms q rest

-- Where a walk that goes on ends.
walk_end :
    (node : ℕ → Node) (t : ℕ) (ms : List ℕ)
    → Linked node t ms 0
    → (if last 0 ms == 0 then t else last 0 ms) ≡ last t ms
unfolding Linked last
walk_end node t [] l = refl
walk_end node t (m ∷ ms) l = rw (last-nonzero node t m ms 0 l) refl

module _ {ℓ} {S : Type ℓ} (f : ℕ → S → S) where
  -- The function on one item after another.
  unfoldable pub on_all : List ℕ → S → S
  on_all [] s = s
  on_all (x ∷ xs) s = on_all xs (f x s)

  for_each_li-Linked :
      (fuel before p : ℕ) (ns : List ℕ) (node : ℕ → Node) (s : S)
      → length ns ≤ fuel
      → Linked node p ns 0
      → for_each_li f fuel before (first ns 0) node s ≡ (last before ns, on_all (items node ns) s)
  unfolding for_each_li Linked first last items on_all
  for_each_li-Linked zero before p [] node s le l = refl
  for_each_li-Linked (suc fuel) before p [] node s le l = refl
  for_each_li-Linked zero before p (n ∷ ns) node s le l = absurd (omega arith)
  for_each_li-Linked (suc fuel) before p (n ∷ ns) node s le (nz, out, a, b, rest) =
      let some : (n == 0) ≡ false = ground arith in
      rw (some, b) (for_each_li-Linked fuel n n ns node (f (node n).item s) (omega arith) rest)

  -- A walk over a list calls the function on each item, in order, and returns the last node, null if there is none.
  pub for_each_list_item-Goes :
      (fuel : ℕ) (l : LinkedList) (ns : List ℕ) (s : S)
      → length ns ≤ fuel
      → Goes l ns
      → for_each_list_item f fuel (some l) s ≡ (last 0 ns, on_all (items l.node ns) s)
  unfolding for_each_list_item first last items on_all Linked
  for_each_list_item-Goes fuel l [] s le g = rw g.head refl
  for_each_list_item-Goes fuel l (n ∷ ns) s le g =
      let (nz, out, a, b, rest) = g.linked in
      let some : (n == 0) ≡ false = ground arith in
      rw (g.head, some) (for_each_li-Linked fuel 0 0 (n ∷ ns) l.node s le g.linked)

  -- A walk that goes on behind the node where an earlier one stopped calls it on the items that have come since, and returns
  -- the last node.
  pub for_each_new_list_item-Goes :
      (fuel : ℕ) (l : LinkedList) (n : ℕ) (ns ms : List ℕ) (s : S)
      → length ms ≤ fuel
      → Goes l (n ∷ (ns ++ ms))
      → for_each_new_list_item f fuel (last n ns) l.node s
        ≡ (last (last n ns) ms, on_all (items l.node ms) s)
  unfolding for_each_new_list_item
  for_each_new_list_item-Goes fuel l n ns ms s le g =
      let (next, rest, nz) = Linked-behind l.node 0 n ns ms 0 g.linked in
      let there : (last n ns == 0) ≡ false = ground arith in
      let walk = for_each_li-Linked fuel 0 (last n ns) ms l.node s le rest in
      rw (there, next, walk)
        (ap (λ t. (t, on_all (items l.node ms) s)) (walk_end l.node (last n ns) ms rest))
