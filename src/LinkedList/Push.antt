-- ===== src/LinkedList/Push.antt =====
-- Pushing at the head of a list of src/lib/list.c.
use dar_os.Base.{
  add64, ◌+◌, ◌<◌, ◌^◌, length, ℕ, ◌≡◌, ◌≢◌, refl, subst, ap, ap₂, ◌∙◌, sym, ◌==◌, false, write,
  List, [], ◌∷◌, arith,
}
use dar_os.LinkedList.{Node, LinkedList, set_prev, push_list_head}
use dar_os.LinkedList.Chain.{
  mem, first, last, Linked, items, items-agree, set_prev-item, set_prev-other, relink-front,
}
use dar_os.LinkedList.Contents.{Holds, write_self, written-Linked, written-items}

mem-head : (n m : ℕ) (ns : List ℕ) → mem n (m ∷ ns) ≡ false → (n == m) ≡ false
unfolding mem
mem-head n m ns out = ground arith

module _ (n item : ℕ) (nz : n ≢ 0) where
  abbrev front : ℕ → Node
  front m = record { item = item; next = m; prev = 0 }

  push_head-empty :
      (l : LinkedList)
      → l.head ≡ 0
      → push_list_head n item l
        ≡ record { node = write l.node n (front 0); head = n; tail = n; len = add64 l.len 1 }
  unfolding push_list_head
  push_head-empty l e = rw e refl

  push_head-cons :
      (l : LinkedList) (m : ℕ)
      → l.head ≡ m
      → (m == 0) ≡ false
      → push_list_head n item l ≡ record {
        node = set_prev m n (write l.node n (front m));
        head = n;
        tail = l.tail;
        len = add64 l.len 1;
      }
  unfolding push_list_head
  push_head-cons l m e ne = rw (e, ne) refl

  -- The chain after a push in front of another node.
  front-Linked :
      (node : ℕ → Node) (m : ℕ) (ns : List ℕ)
      → mem n (m ∷ ns) ≡ false
      → Linked node 0 (m ∷ ns) 0
      → Linked (set_prev m n (write node n (front m))) 0 (n ∷ m ∷ ns) 0
  unfolding Linked first
  front-Linked node m ns out l =
      let same =
        set_prev-other m n (write node n (front m)) n (mem-head n m ns out)
        ∙ write_self node n (front m) in
      (
        nz,
        out,
        ap (λ x. x.prev) same,
        ap (λ x. x.next) same,
        relink-front (write node n (front m)) 0 n m ns 0
            (written-Linked node n (front m) 0 (m ∷ ns) 0 out l),
      )

  -- Pushing at the head, with a node that is not null and not the list's, puts the item in front, links
  -- the nodes both ways and counts one more, for a list of fewer than 2 ^ 64 - 1 nodes.
  pub push_list_head-Holds :
      (l : LinkedList) (ns xs : List ℕ)
      → mem n ns ≡ false
      → length ns + 1 < 2 ^ 64
      → Holds l ns xs
      → Holds (push_list_head n item l) (n ∷ ns) (item ∷ xs)
  unfolding Linked first last mem items
  push_list_head-Holds l [] xs out small h =
      let self = write_self l.node n (front 0) in
      subst (λ x. Holds x (n ∷ []) (item ∷ xs)) (sym (push_head-empty l h.goes.head))
        (record {
          goes = record {
            linked = (nz, refl, ap (λ x. x.prev) self, ap (λ x. x.next) self, tt);
            head = refl;
            tail = refl;
          };
          contents = ap₂ (λ x y. x ∷ y) (ap (λ x. x.item) self) h.contents;
          counted = omega (arith, h.counted);
        })
  push_list_head-Holds l (m ∷ ns) xs out small h =
      let (m_ne, m_out, m_prev, m_next, rest) = h.goes.linked in
      let eq = push_head-cons l m h.goes.head (ground arith) in
      let node = write l.node n (front m) in
      subst (λ x. Holds x (n ∷ m ∷ ns) (item ∷ xs)) (sym eq)
        (record {
          goes = record {
            linked = front-Linked l.node m ns out h.goes.linked;
            head = refl;
            tail = h.goes.tail;
          };
          contents =
              items-agree node (set_prev m n node) (n ∷ m ∷ ns) (λ k e. set_prev-item m n node k)
              ∙ ap₂ (λ x y. x ∷ y) (ap (λ x. x.item) (write_self l.node n (front m)))
                  (written-items l.node n (front m) (m ∷ ns) out ∙ h.contents);
          counted = omega (arith, h.counted);
        })
