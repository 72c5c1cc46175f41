-- ===== src/LinkedList/Once.antt =====
-- Pushing onto and removing from a list of src/lib/list.c whose count may be too high, and removing an item that one
-- node has.
use dar_os.Base.{
  ℕ, zero, suc, ◌+◌, ◌^◌, ◌<◌, ◌≤◌, ◌≡◌, ◌≢◌, refl, subst, ap, ◌∙◌, sym, Bool, true, false, List,
  [], ◌∷◌, ◌++◌, length, arith, append_assoc, sub64,
}
use dar_os.LinkedList.{
  LinkedList, push_list_tail, remove_node_from_list, remove_matching,
  remove_from_list_with_equality,
}
use dar_os.LinkedList.Chain.{first, mem, Goes, items, items-agree}
use dar_os.LinkedList.Append.{push_list_tail-Holds}
use dar_os.LinkedList.Remove.{remove_node-Goes}
use dar_os.LinkedList.Reject.{
  node-nonzero, next-first, remove_matching-nil, remove_matching-match, remove_matching-pass,
  started-cons,
}

-- A list with this count.
abbrev pub recount : ℕ → LinkedList → LinkedList
recount n l = record l { len = n }

push_recounted :
    (n item c : ℕ) (l : LinkedList)
    → recount c (push_list_tail n item (recount c l)) ≡ recount c (push_list_tail n item l)
unfolding push_list_tail
push_recounted n item c l = refl

Goes-recount : (c : ℕ) (l : LinkedList) (ns : List ℕ) → Goes (recount c l) ns → Goes l ns
Goes-recount c l ns g = record { linked = g.linked; head = g.head; tail = g.tail }

pub push_list_tail-Goes :
    (n item : ℕ) (l : LinkedList) (ns xs : List ℕ)
    → n ≢ 0
    → mem n ns ≡ false
    → length ns + 1 < 2 ^ 64
    → Goes l ns
    → items l.node ns ≡ xs
    → Goes (push_list_tail n item l) (ns ++ (n ∷ []))
      × (items (push_list_tail n item l).node (ns ++ (n ∷ [])) ≡ xs ++ (item ∷ []))
push_list_tail-Goes n item l ns xs nz out small g it =
    let c = length ns in
    let l' = recount c l in
    let h = push_list_tail-Holds n item nz l' ns xs out small (record {
      goes = record { linked = g.linked; head = g.head; tail = g.tail };
      contents = it;
      counted = refl;
    }) in
    let e = push_recounted n item c l in
    let g' : Goes (recount c (push_list_tail n item l')) (ns ++ (n ∷ [])) = record {
      linked = h.goes.linked;
      head = h.goes.head;
      tail = h.goes.tail;
    } in
    (
      Goes-recount c (push_list_tail n item l) (ns ++ (n ∷ []))
          (subst (λ k. Goes k (ns ++ (n ∷ []))) e g'),
      ap (λ k. items k.node (ns ++ (n ∷ []))) (sym e) ∙ h.contents,
    )

-- No item matches.
unfoldable pub NoMatch : (ℕ → Bool) → List ℕ → Type 0
NoMatch equals [] = Unit
NoMatch equals (x ∷ xs) = (equals x ≡ false) × NoMatch equals xs

module _ (equals : ℕ → Bool) where
  pass :
      (ys xs : List ℕ) (fuel : ℕ) (l : LinkedList)
      → length ys ≤ fuel
      → Goes l (xs ++ ys)
      → NoMatch equals (items l.node ys)
      → remove_matching fuel equals (first ys 0) l ≡ l
  unfolding first items NoMatch
  pass [] xs fuel l le g other = remove_matching-nil fuel equals l
  pass (y ∷ ys) xs zero l le g other = absurd (omega arith)
  pass (y ∷ ys) xs (suc fuel) l le g (other, others) =
      remove_matching-pass fuel equals y l (node-nonzero l xs ys y g) other
      ∙ ap (λ c. remove_matching fuel equals c l) (next-first l xs ys y g)
      ∙ pass ys (xs ++ (y ∷ [])) fuel l (omega arith)
          (subst (Goes l) (sym (append_assoc xs (y ∷ []) ys)) g) others

  reach :
      (xs ws ys : List ℕ) (n fuel : ℕ) (l : LinkedList)
      → length (xs ++ (n ∷ ys)) ≤ fuel
      → Goes l (ws ++ (xs ++ (n ∷ ys)))
      → NoMatch equals (items l.node xs)
      → equals (l.node n).item ≡ true
      → NoMatch equals (items l.node ys)
      → remove_matching fuel equals (first (xs ++ (n ∷ ys)) 0) l ≡ remove_node_from_list n l
  unfolding first items NoMatch
  reach [] ws ys n zero l le g before it behind = absurd (omega arith)
  reach [] ws ys n (suc fuel) l le g before it behind =
      let k = remove_node_from_list n l in
      let (g', same, next, len) = remove_node-Goes l ws ys n g in
      let others =
        subst (NoMatch equals) (sym (items-agree l.node k.node ys (λ m e. same m))) behind in
      remove_matching-match fuel equals n l (node-nonzero l ws ys n g) it
      ∙ ap (λ c. remove_matching fuel equals c k) next
      ∙ pass ys ws fuel k (omega arith) g' others
  reach (x ∷ xs) ws ys n zero l le g before it behind = absurd (omega arith)
  reach (x ∷ xs) ws ys n (suc fuel) l le g (other, before) it behind =
      let zs = xs ++ (n ∷ ys) in
      remove_matching-pass fuel equals x l (node-nonzero l ws zs x g) other
      ∙ ap (λ c. remove_matching fuel equals c l) (next-first l ws zs x g)
      ∙ reach xs (ws ++ (x ∷ [])) ys n fuel l (omega arith)
          (subst (Goes l) (sym (append_assoc ws (x ∷ []) zs)) g) before it behind

  -- One node's item matches: that node leaves the list.
  pub remove_from_list_once :
      (fuel : ℕ) (xs ys : List ℕ) (n : ℕ) (l : LinkedList)
      → length (xs ++ (n ∷ ys)) ≤ fuel
      → Goes l (xs ++ (n ∷ ys))
      → NoMatch equals (items l.node xs)
      → equals (l.node n).item ≡ true
      → NoMatch equals (items l.node ys)
      → remove_from_list_with_equality fuel equals l
        ≡ remove_node_from_list n (recount (sub64 l.len 1) l)
  unfolding first
  remove_from_list_once fuel [] ys n l le g before it behind =
      let l' = recount (sub64 l.len 1) l in
      let g' : Goes l' (n ∷ ys) = record { linked = g.linked; head = g.head; tail = g.tail } in
      started-cons fuel equals l n g.head (node-nonzero l [] ys n g)
      ∙ reach [] [] ys n fuel l' le g' before it behind
  remove_from_list_once fuel (x ∷ xs) ys n l le g before it behind =
      let l' = recount (sub64 l.len 1) l in
      let zs = xs ++ (n ∷ ys) in
      let g' : Goes l' (x ∷ zs) = record { linked = g.linked; head = g.head; tail = g.tail } in
      started-cons fuel equals l x g.head (node-nonzero l [] zs x g)
      ∙ reach (x ∷ xs) [] ys n fuel l' le g' before it behind
