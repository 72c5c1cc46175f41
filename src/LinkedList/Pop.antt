-- ===== src/LinkedList/Pop.antt =====
-- Popping the head of a list of src/lib/list.c.
use dar_os.Base.{
  sub64, ◌+◌, ◌<◌, ◌^◌, length, ℕ, ◌≡◌, refl, subst, ap, ◌∙◌, sym, ◌==◌, false, List, [], ◌∷◌,
  arith,
}
use dar_os.LinkedList.{LinkedList, set_prev, pop_list_head}
use dar_os.LinkedList.Chain.{
  mem, first, last, Linked, items, items-agree, set_prev-item, relink-front,
}
use dar_os.LinkedList.Contents.{Holds}

pop-last :
    (l : LinkedList)
    → (l.head == 0) ≡ false
    → (l.node l.head).next ≡ 0
    → pop_list_head l
      ≡ ((l.node l.head).item, record { node = l.node; head = 0; tail = 0; len = sub64 l.len 1 })
unfolding pop_list_head
pop-last l ne e = rw (ne, e) refl

pop-more :
    (l : LinkedList) (m : ℕ)
    → (l.head == 0) ≡ false
    → (l.node l.head).next ≡ m
    → (m == 0) ≡ false
    → pop_list_head l ≡ (
      (l.node l.head).item,
      record { node = set_prev m 0 l.node; head = m; tail = l.tail; len = sub64 l.len 1 },
    )
unfolding pop_list_head
pop-more l m ne e m_ne = rw (ne, e, m_ne) refl

abbrev behind : List ℕ → List ℕ
behind [] = []
behind (x ∷ xs) = xs

-- Popping a list that is not empty, of fewer than 2 ^ 64 - 1 nodes, returns its first item, and leaves
-- the others, linked both ways and counted.
pub pop_list_head-Holds :
    (l : LinkedList) (n : ℕ) (ns : List ℕ) (x : ℕ) (xs : List ℕ)
    → length ns + 1 < 2 ^ 64
    → Holds l (n ∷ ns) (x ∷ xs)
    → ((pop_list_head l).0 ≡ x) × Holds (pop_list_head l).1 ns xs
unfolding Linked first last mem items
pop_list_head-Holds l n [] x xs small h =
    let (nz, out, a, b, rest) = h.goes.linked in
    let at = ap l.node h.goes.head in
    let eq = pop-last l (ground (arith, h.goes.head)) (ap (λ k. k.next) at ∙ b) in
    subst (λ r. (r.0 ≡ x) × Holds r.1 [] xs) (sym eq)
      (
        ap (λ k. k.item) at ∙ ap (λ t. first t 0) h.contents,
        record {
          goes = record { linked = tt; head = refl; tail = refl };
          contents = ap behind h.contents;
          counted = omega (arith, h.counted);
        },
      )
pop_list_head-Holds l n (m ∷ ns) x xs small h =
    let (nz, out, a, b, rest) = h.goes.linked in
    let at = ap l.node h.goes.head in
    let eq =
      pop-more l m (ground (arith, h.goes.head)) (ap (λ k. k.next) at ∙ b)
        (ground (arith, rest.0)) in
    subst (λ r. (r.0 ≡ x) × Holds r.1 (m ∷ ns) xs) (sym eq)
      (
        ap (λ k. k.item) at ∙ ap (λ t. first t 0) h.contents,
        record {
          goes = record {
            linked = relink-front l.node n 0 m ns 0 rest;
            head = refl;
            tail = h.goes.tail;
          };
          contents =
              items-agree l.node (set_prev m 0 l.node) (m ∷ ns) (λ k e. set_prev-item m 0 l.node k)
              ∙ ap behind h.contents;
          counted = omega (arith, h.counted);
        },
      )
