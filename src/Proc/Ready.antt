-- ===== src/Proc/Ready.antt =====
-- Which processes of src/kernel/interrupt.c are runnable, in the order in which they get the processor, and what
-- putting one behind the others and taking one out make of them.
use dar_os.Base.{
  ℕ, suc, ◌+◌, ◌^◌, ◌<◌, ◌≤◌, ◌≡◌, ◌≢◌, refl, subst, ap, ap₂, ◌∙◌, sym, ◌==◌, true, false, List, [],
  ◌∷◌, ◌++◌, length, length-append, arith, Bool-cases, inl, inr, add64,
}
use dar_os.LinkedList.{Node, LinkedList, remove_node_from_list, push_list_tail}
use dar_os.LinkedList.Chain.{Linked, mem, mem-append, Goes, items, items-append, items-agree}
use dar_os.LinkedList.Unlink.{Linked-split}
use dar_os.LinkedList.Remove.{remove_node-Goes}
use dar_os.LinkedList.Once.{recount, push_list_tail-Goes}
use dar_os.Proc.{Process, Kernel}
use dar_os.Proc.Table.{make_runnable}

unfoldable pub nodes_of : (ℕ → Process) → List ℕ → List ℕ
nodes_of proc [] = []
nodes_of proc (p ∷ ps) = (proc p).node ∷ nodes_of proc ps

-- The list of runnable processes has exactly these, in this order, each on the node that it knows; its count is
-- not too low.
pub record Ready (k : Kernel) (ps : List ℕ) : Type 0 where
  pub goes : Goes k.runnable (nodes_of k.proc ps)
  pub runs : items k.runnable.node (nodes_of k.proc ps) ≡ ps
  pub counted : length ps ≤ k.runnable.len
  pub real : mem 0 ps ≡ false

pub nodes_of-append :
    (proc : ℕ → Process) (xs ys : List ℕ)
    → nodes_of proc (xs ++ ys) ≡ nodes_of proc xs ++ nodes_of proc ys
unfolding nodes_of
nodes_of-append proc [] ys = refl
nodes_of-append proc (x ∷ xs) ys = ap (λ t. (proc x).node ∷ t) (nodes_of-append proc xs ys)

pub nodes_of-agree :
    (proc proc' : ℕ → Process) (ps : List ℕ)
    → ((p : ℕ) → mem p ps ≡ true → (proc' p).node ≡ (proc p).node)
    → nodes_of proc' ps ≡ nodes_of proc ps
unfolding nodes_of mem
nodes_of-agree proc proc' [] same = refl
nodes_of-agree proc proc' (p ∷ ps) same =
    ap₂ (λ x y. x ∷ y) (same p (ground arith))
      (nodes_of-agree proc proc' ps (λ q e. same q (ground arith)))

pub length-nodes_of : (proc : ℕ → Process) (ps : List ℕ) → length (nodes_of proc ps) ≡ length ps
unfolding nodes_of
length-nodes_of proc [] = refl
length-nodes_of proc (p ∷ ps) = ap suc (length-nodes_of proc ps)

pub mem-nodes_of :
    (proc : ℕ → Process) (p : ℕ) (ps : List ℕ)
    → mem p ps ≡ true
    → mem (proc p).node (nodes_of proc ps) ≡ true
unfolding nodes_of mem
mem-nodes_of proc p [] e = absurd (ground arith)
mem-nodes_of proc p (q ∷ ps) e = elim (Bool-cases (p == q)) [
  | inl same ↦ ground arith
  | inr other ↦ ground (arith, mem-nodes_of proc p ps (ground arith))
]

-- States with the same list, in which the processes have the same nodes.
pub Ready-same :
    (k k' : Kernel) (ps : List ℕ)
    → k'.runnable ≡ k.runnable
    → ((p : ℕ) → mem p ps ≡ true → (k'.proc p).node ≡ (k.proc p).node)
    → Ready k ps
    → Ready k' ps
Ready-same k k' ps e same r =
    let ns = nodes_of-agree k.proc k'.proc ps same in
    record {
      goes = rw (ns, e) r.goes;
      runs = rw (ns, e) r.runs;
      counted = rw e r.counted;
      real = r.real;
    }

-- The nodes and items about a process of the list, which is there once.
pub record Parts (k : Kernel) (xs : List ℕ) (p : ℕ) (ys : List ℕ) : Type 0 where
  pub goes : Goes k.runnable (nodes_of k.proc xs ++ ((k.proc p).node ∷ nodes_of k.proc ys))
  pub before : items k.runnable.node (nodes_of k.proc xs) ≡ xs
  pub item : (k.runnable.node (k.proc p).node).item ≡ p
  pub behind : items k.runnable.node (nodes_of k.proc ys) ≡ ys
  pub not_before : mem p xs ≡ false
  pub not_behind : mem p ys ≡ false

-- Sequences of items in two parts of the same lengths.
append-parts :
    (node : ℕ → Node) (proc : ℕ → Process) (xs ys : List ℕ)
    → items node (nodes_of proc xs ++ nodes_of proc ys) ≡ xs ++ ys
    → (items node (nodes_of proc xs) ≡ xs) × (items node (nodes_of proc ys) ≡ ys)
unfolding nodes_of items
append-parts node proc [] ys e = (refl, e)
append-parts node proc (x ∷ xs) ys e =
    let h : (node (proc x).node).item ≡ x = cc in
    let t : items node (nodes_of proc xs ++ nodes_of proc ys) ≡ xs ++ ys = cc in
    let (before, behind) = append-parts node proc xs ys t in (ap₂ (λ a b. a ∷ b) h before, behind)

pub Ready-Parts : (k : Kernel) (xs ys : List ℕ) (p : ℕ) → Ready k (xs ++ (p ∷ ys)) → Parts k xs p ys
unfolding nodes_of items mem Linked
Ready-Parts k xs ys p r =
    let n = (k.proc p).node in
    let app = nodes_of-append k.proc xs (p ∷ ys) in
    let goes = subst (Goes k.runnable) app r.goes in
    let runs = ap (items k.runnable.node) (sym app) ∙ r.runs in
    let (before, rest) = append-parts k.runnable.node k.proc xs (p ∷ ys) runs in
    let (left, right, apart) =
      Linked-split k.runnable.node 0 (nodes_of k.proc xs) (n ∷ nodes_of k.proc ys) 0 goes.linked in
    let out : mem n (nodes_of k.proc ys) ≡ false = right.1 in
    record {
      goes = goes;
      before = before;
      item = cc;
      behind = cc;
      not_before = elim (Bool-cases (mem p xs)) [
        | inl e ↦ absurd (ground (arith, apart n (mem-nodes_of k.proc p xs e)))
        | inr e ↦ e
      ];
      not_behind = elim (Bool-cases (mem p ys)) [
        | inl e ↦ absurd (ground (arith, mem-nodes_of k.proc p ys e))
        | inr e ↦ e
      ];
    }

made-other :
    (n p q : ℕ) (k : Kernel) (ps : List ℕ)
    → mem p ps ≡ false
    → mem q ps ≡ true
    → ((make_runnable n p k).proc q).node ≡ (k.proc q).node
unfolding make_runnable
made-other n p q k ps new e = elim (Bool-cases (q == p)) [
  | inl same ↦ absurd (ground arith)
  | inr other ↦ rw other refl
]

pub made-nodes :
    (n p : ℕ) (k : Kernel) (ps : List ℕ)
    → mem p ps ≡ false
    → nodes_of (make_runnable n p k).proc (ps ++ (p ∷ [])) ≡ nodes_of k.proc ps ++ (n ∷ [])
unfolding make_runnable nodes_of
made-nodes n p k ps new =
    let k' = make_runnable n p k in
    let self : (k'.proc p).node ≡ n = ground arith in
    let others : nodes_of k'.proc ps ≡ nodes_of k.proc ps =
      nodes_of-agree k.proc k'.proc ps (λ q e. made-other n p q k ps new e) in
    nodes_of-append k'.proc ps (p ∷ []) ∙ ap₂ (λ a b. a ++ (b ∷ [])) others self

pushed-len : (n p : ℕ) (l : LinkedList) → (push_list_tail n p l).len ≡ add64 l.len 1
unfolding push_list_tail
pushed-len n p l = refl

-- A process that is not there yet, on a fresh node, comes behind the others.
pub make_runnable-Ready :
    (n p : ℕ) (k : Kernel) (ps : List ℕ)
    → n ≢ 0
    → mem n (nodes_of k.proc ps) ≡ false
    → p ≢ 0
    → mem p ps ≡ false
    → k.runnable.len + 1 < 2 ^ 64
    → Ready k ps
    → Ready (make_runnable n p k) (ps ++ (p ∷ []))
unfolding make_runnable nodes_of mem
make_runnable-Ready n p k ps nz fresh pz new small r =
    let k' = make_runnable n p k in
    let ns = made-nodes n p k ps new in
    let len = length-nodes_of k.proc ps in
    let counted = r.counted in
    let (goes, runs) =
      push_list_tail-Goes n p k.runnable (nodes_of k.proc ps) ps nz fresh (omega arith) r.goes
        r.runs in
    record {
      goes = rw ns goes;
      runs = rw ns runs;
      counted = omega (arith, pushed-len n p k.runnable, length-append ps (p ∷ []));
      real = ground (arith, r.real, mem-append 0 ps (p ∷ []));
    }

-- A process is taken out of the list, whose count may go down to the number that are left.
pub removed-Ready :
    (k k' : Kernel) (xs ys : List ℕ) (p c : ℕ)
    → k'.runnable ≡ remove_node_from_list (k.proc p).node (recount c k.runnable)
    → length (xs ++ ys) ≤ c
    → ((q : ℕ) → mem q (xs ++ ys) ≡ true → (k'.proc q).node ≡ (k.proc q).node)
    → Ready k (xs ++ (p ∷ ys))
    → Ready k' (xs ++ ys)
unfolding mem
removed-Ready k k' xs ys p c e le same r =
    let n = (k.proc p).node in
    let parts = Ready-Parts k xs ys p r in
    let l = recount c k.runnable in
    let g = parts.goes in
    let (goes, kept, next, len) =
      remove_node-Goes l (nodes_of k.proc xs) (nodes_of k.proc ys) n
        (record { linked = g.linked; head = g.head; tail = g.tail }) in
    let ns : nodes_of k'.proc (xs ++ ys) ≡ nodes_of k.proc xs ++ nodes_of k.proc ys =
      nodes_of-agree k.proc k'.proc (xs ++ ys) same ∙ nodes_of-append k.proc xs ys in
    let m = remove_node_from_list n l in
    record {
      goes = rw (ns, e) goes;
      runs =
          rw (ns, e)
            (items-agree k.runnable.node m.node (nodes_of k.proc xs ++ nodes_of k.proc ys)
                (λ q h. kept q)
              ∙ items-append k.runnable.node (nodes_of k.proc xs) (nodes_of k.proc ys)
              ∙ ap₂ (λ a b. a ++ b) parts.before parts.behind);
      counted = rw (e, len) le;
      real = ground (arith, r.real, mem-append 0 xs ys, mem-append 0 xs (p ∷ ys));
    }
