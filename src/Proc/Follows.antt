-- ===== src/Proc/Follows.antt =====
-- The node of a process of src/kernel/interrupt.c that is the current one, whether it is still in the list or has ended, and
-- the nodes behind it.
use dar_os.Base.{
  ℕ, ◌+◌, ◌^◌, ◌<◌, ◌≡◌, ◌≢◌, refl, subst, ◌∙◌, ◌==◌, true, false, List, [], ◌∷◌, ◌++◌, arith,
  length, Bool-cases, ◌⊎◌, inl, inr, some,
}
use dar_os.LinkedList.{LinkedList, push_list_tail, set_next}
use dar_os.LinkedList.Chain.{mem, mem-append, first, Goes}
use dar_os.LinkedList.Walk.{next_node_circ, list_item, list_head, list_len}
use dar_os.LinkedList.Circle.{link-at}
use dar_os.Proc.{Kernel}
use dar_os.Proc.Table.{make_runnable}
use dar_os.Proc.Calls.{next_proc}
use dar_os.Proc.Ready.{Ready, nodes_of, mem-nodes_of, made-nodes}
use dar_os.Proc.Robin.{mem-split, item-Ready, node-real}

-- The node of the current process, if there is one, goes on to a node of the list or ends it.
unfoldable pub Follows : Kernel → List ℕ → Type 0
Follows k ps =
    let n = (k.proc k.cur).node in
    let next = (k.runnable.node n).next in
    (k.cur ≡ 0) ⊎ ((n ≢ 0) × ((next ≡ 0) ⊎ (mem next (nodes_of k.proc ps) ≡ true)))

-- What `n` must be for a new node and `p` for a process that becomes runnable. They are not the current process
-- and its node, also if it has ended: the allocator has not given its memory out again.
pub record Fresh (k : Kernel) (ps : List ℕ) (n p : ℕ) : Type 0 where
  pub node_real : n ≢ 0
  pub node_new : mem n (nodes_of k.proc ps) ≡ false
  pub node_apart : (n == (k.proc k.cur).node) ≡ false
  pub real : p ≢ 0
  pub new : mem p ps ≡ false
  pub apart : (p == k.cur) ≡ false
  pub counts : k.runnable.len + 1 < 2 ^ 64

pub first-mem : (ns : List ℕ) → (first ns 0 ≡ 0) ⊎ (mem (first ns 0) ns ≡ true)
unfolding first mem
first-mem [] = inl refl
first-mem (n ∷ ns) = inr (ground arith)

mem-behind : (n m : ℕ) (xs ys : List ℕ) → mem n ys ≡ true → mem n (xs ++ (m ∷ ys)) ≡ true
unfolding mem
mem-behind n m xs ys e = mem-append n xs (m ∷ ys) ∙ ground arith

-- A runnable process.
pub member-Follows : (k : Kernel) (ps : List ℕ) → Ready k ps → mem k.cur ps ≡ true → Follows k ps
unfolding Follows
member-Follows k ps r e =
    let n = (k.proc k.cur).node in
    let (xs, ys, at) = mem-split n (nodes_of k.proc ps) (mem-nodes_of k.proc k.cur ps e) in
    let (nz, next) = link-at k.runnable xs ys n (subst (Goes k.runnable) at r.goes) in
    inr (
      ground arith,
      elim (first-mem ys) [
        | inl z ↦ inl (next ∙ z)
        | inr m ↦ inr (rw (next, at) (mem-behind (first ys 0) n xs ys m))
      ],
    )

pushed-next :
    (n item m : ℕ) (l : LinkedList)
    → (m == n) ≡ false
    → (((push_list_tail n item l).node m).next ≡ (l.node m).next)
      ⊎ (((push_list_tail n item l).node m).next ≡ n)
unfolding push_list_tail set_next
pushed-next n item m l ne = elim (Bool-cases (l.tail == 0)) [
  | inl z ↦ inl (rw (z, ne) refl)
  | inr t ↦ elim (Bool-cases (m == l.tail)) [
    | inl at ↦ inr (rw (t, at) refl)
    | inr other ↦ inl (rw (t, other, ne) refl)
  ]
]

made-cur :
    (n p : ℕ) (k : Kernel)
    → (p == k.cur) ≡ false
    → let k' = make_runnable n p k in
      (k'.cur ≡ k.cur)
      × ((k'.proc k'.cur).node ≡ (k.proc k.cur).node)
      × (k'.runnable ≡ push_list_tail n p k.runnable)
unfolding make_runnable
made-cur n p k e = let e' : (k.cur == p) ≡ false = ground arith in rw e' (refl, refl, refl)

mem-old : (m n : ℕ) (ns : List ℕ) → mem m ns ≡ true → mem m (ns ++ (n ∷ [])) ≡ true
unfolding mem
mem-old m n ns e = mem-append m ns (n ∷ []) ∙ ground arith

mem-new : (n : ℕ) (ns : List ℕ) → mem n (ns ++ (n ∷ [])) ≡ true
unfolding mem
mem-new n ns = mem-append n ns (n ∷ []) ∙ ground arith

-- A process becomes runnable.
pub make_runnable-Follows :
    (n p : ℕ) (k : Kernel) (ps : List ℕ)
    → Fresh k ps n p
    → Follows k ps
    → Follows (make_runnable n p k) (ps ++ (p ∷ []))
unfolding Follows
make_runnable-Follows n p k ps f c =
    let m = (k.proc k.cur).node in
    let (cur, node, list) = made-cur n p k f.apart in
    let ns = made-nodes n p k ps f.new in
    let apart : (m == n) ≡ false = ground (arith, f.node_apart) in
    elim c [
      | inl z ↦ inl (cur ∙ z)
      | inr (nz, b) ↦ inr (
        rw node nz,
        rw (ns, node, list)
            (elim (pushed-next n p m k.runnable apart) [
              | inl same ↦ elim b [
                | inl z ↦ inl (same ∙ z)
                | inr e ↦ inr (rw same (mem-old (k.runnable.node m).next n (nodes_of k.proc ps) e))
              ]
              | inr new ↦ inr (rw new (mem-new n (nodes_of k.proc ps)))
            ]),
      )
    ]

-- The first process of the list.
head-runs :
    (k : Kernel) (ps : List ℕ)
    → Ready k ps
    → let p = list_item k.runnable.node k.runnable.head in ((p ≡ 0) × (ps ≡ [])) ⊎ (mem p ps ≡ true)
unfolding nodes_of first mem list_item
head-runs k [] r =
    let z : (k.runnable.head == 0) ≡ true = ground (arith, r.goes.head) in inl (rw z refl, refl)
head-runs k (p ∷ ps) r =
    let e : mem k.runnable.head (nodes_of k.proc (p ∷ ps)) ≡ true = ground (arith, r.goes.head) in
    inr (item-Ready k (p ∷ ps) k.runnable.head r e).0

empty-length : (ps : List ℕ) → length ps ≡ 0 → ps ≡ []
empty-length [] e = refl
empty-length (p ∷ ps) e = absurd (omega arith)

-- What follows the current process.
behind-runs :
    (k : Kernel) (ps : List ℕ)
    → Ready k ps
    → (k.cur == 0) ≡ false
    → Follows k ps
    → let p = list_item k.runnable.node (next_node_circ (some k.runnable) (k.proc k.cur).node) in
      ((p ≡ 0) × (ps ≡ [])) ⊎ (mem p ps ≡ true)
unfolding Follows next_node_circ
behind-runs k ps r ne (inl z) = absurd (ground arith)
behind-runs k ps r ne (inr (nz, inl z)) =
    let e : ((k.proc k.cur).node == 0) ≡ false = ground arith in
    let e' : ((k.runnable.node (k.proc k.cur).node).next == 0) ≡ true = ground arith in
    rw (e, e') (head-runs k ps r)
behind-runs k ps r ne (inr (nz, inr m)) =
    let next = (k.runnable.node (k.proc k.cur).node).next in
    let e : ((k.proc k.cur).node == 0) ≡ false = ground arith in
    let e' : (next == 0) ≡ false = node-real k.runnable (nodes_of k.proc ps) next r.goes m in
    rw (e, e') (inr (item-Ready k ps next r m).0)

-- The choice of `waitloop`: none if no process is runnable, and else one that is.
pub next_proc-runs :
    (k : Kernel) (ps : List ℕ)
    → Ready k ps
    → Follows k ps
    → (((next_proc k).cur ≡ 0) × (ps ≡ [])) ⊎ (mem (next_proc k).cur ps ≡ true)
unfolding next_proc list_len list_head
next_proc-runs k ps r c = elim (Bool-cases (k.cur == 0)) [
  | inl z ↦ elim (Bool-cases (k.runnable.len == 0)) [
    | inl e ↦ rw (z, e) (inl (ground arith, empty-length ps (ground (arith, r.counted))))
    | inr e ↦ rw (z, e) (head-runs k ps r)
  ]
  | inr ne ↦ rw ne (behind-runs k ps r ne c)
]
