-- ===== src/LinkedList/Append.antt =====
-- Pushing at the tail of a list of src/lib/list.c.
use dar_os.Base.{
  add64, ◌+◌, ◌<◌, ◌^◌, length, ℕ, ◌≡◌, ◌≢◌, refl, subst, ap, ap₂, ◌∙◌, sym, ◌==◌, false, write,
  List, [], ◌∷◌, ◌++◌, length-append, arith,
}
use dar_os.LinkedList.{Node, LinkedList, set_next, push_list_tail}
use dar_os.LinkedList.Chain.{
  mem, first, last, Linked, items, items-agree, set_next-item, set_next-other, relink-back,
  mem-last, Linked-snoc, last-nonzero, last-append, items-append,
}
use dar_os.LinkedList.Contents.{Holds, write_self, written-Linked, written-items}

module _ (n item : ℕ) (nz : n ≢ 0) where
  abbrev back : ℕ → Node
  back m = record { item = item; next = 0; prev = m }

  push_tail-empty :
      (l : LinkedList)
      → l.tail ≡ 0
      → push_list_tail n item l
        ≡ record { node = write l.node n (back 0); head = n; tail = n; len = add64 l.len 1 }
  unfolding push_list_tail
  push_tail-empty l e = rw e refl

  push_tail-cons :
      (l : LinkedList) (m : ℕ)
      → l.tail ≡ m
      → (m == 0) ≡ false
      → push_list_tail n item l ≡ record {
        node = set_next m n (write l.node n (back m));
        head = l.head;
        tail = n;
        len = add64 l.len 1;
      }
  unfolding push_list_tail
  push_tail-cons l m e ne = rw (e, ne) refl

  -- The chain after a push behind its last node.
  back-Linked :
      (node : ℕ → Node) (m : ℕ) (ns : List ℕ)
      → mem n (m ∷ ns) ≡ false
      → Linked node 0 (m ∷ ns) 0
      → Linked (set_next (last m ns) n (write node n (back (last m ns)))) 0 ((m ∷ ns) ++ (n ∷ [])) 0
  unfolding Linked first last mem
  back-Linked node m ns out l =
      let t = last m ns in
      let written = write node n (back t) in
      let same = set_next-other t n written n (mem-last n m ns out) ∙ write_self node n (back t) in
      Linked-snoc (set_next t n written) 0 (m ∷ ns) n 0
        (relink-back written 0 m ns 0 n (written-Linked node n (back t) 0 (m ∷ ns) 0 out l)) out
        (nz, refl, ap (λ x. x.prev) same, ap (λ x. x.next) same, tt)

  -- Pushing at the tail, with a node that is not null and not the list's, puts the item behind all others, links
  -- the nodes both ways and counts one more, for a list of fewer than 2 ^ 64 - 1 nodes.
  pub push_list_tail-Holds :
      (l : LinkedList) (ns xs : List ℕ)
      → mem n ns ≡ false
      → length ns + 1 < 2 ^ 64
      → Holds l ns xs
      → Holds (push_list_tail n item l) (ns ++ (n ∷ [])) (xs ++ (item ∷ []))
  unfolding Linked first last mem items
  push_list_tail-Holds l [] xs out small h =
      let self = write_self l.node n (back 0) in
      subst (λ x. Holds x (n ∷ []) (xs ++ (item ∷ []))) (sym (push_tail-empty l h.goes.tail))
        (record {
          goes = record {
            linked = (nz, refl, ap (λ x. x.prev) self, ap (λ x. x.next) self, tt);
            head = refl;
            tail = refl;
          };
          contents = ap₂ (λ x y. y ++ (x ∷ [])) (ap (λ x. x.item) self) h.contents;
          counted = omega (arith, h.counted);
        })
  push_list_tail-Holds l (m ∷ ns) xs out small h =
      let t = last m ns in
      let eq = push_tail-cons l t h.goes.tail (last-nonzero l.node 0 m ns 0 h.goes.linked) in
      let node = write l.node n (back t) in
      subst (λ x. Holds x ((m ∷ ns) ++ (n ∷ [])) (xs ++ (item ∷ []))) (sym eq)
        (record {
          goes = record {
            linked = back-Linked l.node m ns out h.goes.linked;
            head = h.goes.head;
            tail = sym (last-append m ns (n ∷ []));
          };
          contents =
              items-agree node (set_next t n node) ((m ∷ ns) ++ (n ∷ []))
                (λ k e. set_next-item t n node k)
              ∙ items-append node (m ∷ ns) (n ∷ [])
              ∙ ap₂ (λ x y. x ++ (y ∷ []))
                  (written-items l.node n (back t) (m ∷ ns) out ∙ h.contents)
                  (ap (λ x. x.item) (write_self l.node n (back t)));
          counted = omega (arith, h.counted, length-append (m ∷ ns) (n ∷ []));
        })
