-- ===== src/LinkedList/Contents.antt =====
-- What a list of src/lib/list.c holds, and what storing a fresh node leaves of it.
use dar_os.Base.{
  ℕ, ◌≡◌, refl, ap, ◌==◌, true, false, write, List, length, arith, Bool-cases, inl, inr,
}
use dar_os.LinkedList.{Node, LinkedList}
use dar_os.LinkedList.Chain.{mem, Linked, Goes, items, Linked-agree, items-agree}

-- A list that goes through the nodes `ns`, has the items `xs` and counts them.
pub record Holds (l : LinkedList) (ns xs : List ℕ) : Type 0 where
  pub goes : Goes l ns
  pub contents : items l.node ns ≡ xs
  pub counted : l.len ≡ length ns

pub write-other :
    (node : ℕ → Node) (n : ℕ) (v : Node) (m : ℕ) → (m == n) ≡ false → write node n v m ≡ node m
write-other node n v m e = rw e refl

pub write_self : (node : ℕ → Node) (n : ℕ) (v : Node) → write node n v n ≡ v
write_self node n v = let e : (n == n) ≡ true = ground arith in rw e refl

pub fresh-ne : (n m : ℕ) (ns : List ℕ) → mem n ns ≡ false → mem m ns ≡ true → (m == n) ≡ false
fresh-ne n m ns out h = elim (Bool-cases (m == n)) [ inl e ↦ absurd (ground arith) | inr e ↦ e ]

-- The store with a fresh node, on the nodes of the list.
pub written-Linked :
    (node : ℕ → Node) (n : ℕ) (v : Node) (p : ℕ) (ns : List ℕ) (q : ℕ)
    → mem n ns ≡ false
    → Linked node p ns q
    → Linked (write node n v) p ns q
written-Linked node n v p ns q out l =
    Linked-agree node (write node n v) p ns q
      (λ m h. write-other node n v m (fresh-ne n m ns out h)) l

pub written-items :
    (node : ℕ → Node) (n : ℕ) (v : Node) (ns : List ℕ)
    → mem n ns ≡ false
    → items (write node n v) ns ≡ items node ns
written-items node n v ns out =
    items-agree node (write node n v) ns
      (λ m h. ap (λ x. x.item) (write-other node n v m (fresh-ne n m ns out h)))
