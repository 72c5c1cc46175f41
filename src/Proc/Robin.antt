-- ===== src/Proc/Robin.antt =====
-- How the turns of src/kernel/interrupt.c go through the runnable processes.
use dar_os.Base.{
  ℕ, ◌+◌, ◌≡◌, ◌≢◌, refl, subst, ap, ap₂, ◌∙◌, sym, ◌==◌, true, false, List, [], ◌∷◌, ◌++◌, length,
  length-append, arith, Bool-cases, inl, inr, append_assoc, some,
}
use dar_os.LinkedList.{Node, LinkedList}
use dar_os.LinkedList.Chain.{mem, mem-append, Goes, items, items-append, first}
use dar_os.LinkedList.Walk.{next_node_circ, list_item}
use dar_os.LinkedList.Circle.{
  round, round-circle, link-at, next_node_circ-inner, next_node_circ-last,
}
use dar_os.Proc.{Registers, Process, Kernel}
use dar_os.Proc.Calls.{Frame}
use dar_os.Proc.Ready.{Ready, Ready-Parts, Ready-same, nodes_of, mem-nodes_of, length-nodes_of}
use dar_os.Proc.Turns.{turn, turns, FromUser, turn-next}

item-of :
    (node : ℕ → Node) (proc : ℕ → Process) (ps : List ℕ) (m : ℕ)
    → items node (nodes_of proc ps) ≡ ps
    → mem m (nodes_of proc ps) ≡ true
    → (mem (node m).item ps ≡ true) × ((proc (node m).item).node ≡ m)
unfolding items nodes_of mem
item-of node proc [] m runs e = absurd (ground arith)
item-of node proc (p ∷ ps) m runs e =
    let here : (node (proc p).node).item ≡ p = cc in
    let rest : items node (nodes_of proc ps) ≡ ps = cc in
    elim (Bool-cases (m == (proc p).node)) [
      | inl same ↦
          let at : m ≡ (proc p).node = ground arith in
          let it : (node m).item ≡ p = ap (λ n. (node n).item) at ∙ here in
          (ground arith, ap (λ q. (proc q).node) it ∙ sym at)
      | inr other ↦ let (i, n) = item-of node proc ps m rest (ground arith) in (ground arith, n)
    ]

pub mem-split : (p : ℕ) (ps : List ℕ) → mem p ps ≡ true → (xs ys : List ℕ) × (ps ≡ xs ++ (p ∷ ys))
unfolding mem
mem-split p [] e = absurd (ground arith)
mem-split p (q ∷ ps) e = elim (Bool-cases (p == q)) [
  | inl same ↦ ([], ps, ap (λ x. x ∷ ps) (ground arith))
  | inr other ↦ let (xs, ys, at) = mem-split p ps (ground arith) in (q ∷ xs, ys, ap (λ t. q ∷ t) at)
]

-- A node of the list is not null.
pub node-real :
    (l : LinkedList) (ns : List ℕ) (m : ℕ) → Goes l ns → mem m ns ≡ true → (m == 0) ≡ false
node-real l ns m g e =
    let (xs, ys, at) = mem-split m ns e in (link-at l xs ys m (subst (Goes l) at g)).0

-- The nodes of the list, and the processes on them.
pub item-Ready :
    (k : Kernel) (ps : List ℕ) (m : ℕ)
    → Ready k ps
    → mem m (nodes_of k.proc ps) ≡ true
    → (mem (list_item k.runnable.node m) ps ≡ true)
      × ((k.proc (list_item k.runnable.node m)).node ≡ m)
unfolding list_item
item-Ready k ps m r e =
    rw (node-real k.runnable (nodes_of k.proc ps) m r.goes e)
      (item-of k.runnable.node k.proc ps m r.runs e)

mem-middle : (xs ys : List ℕ) (n : ℕ) → mem n (xs ++ (n ∷ ys)) ≡ true
unfolding mem
mem-middle xs ys n = mem-append n xs (n ∷ ys) ∙ ground arith

mem-head :
    (l : LinkedList) (xs ys : List ℕ) (n : ℕ)
    → Goes l (xs ++ (n ∷ ys))
    → mem l.head (xs ++ (n ∷ ys)) ≡ true
unfolding mem first
mem-head l [] ys n g = ground (arith, g.head)
mem-head l (x ∷ xs) ys n g = ground (arith, g.head)

next-mem :
    (l : LinkedList) (xs ys : List ℕ) (n : ℕ)
    → Goes l (xs ++ (n ∷ ys))
    → mem (next_node_circ (some l) n) (xs ++ (n ∷ ys)) ≡ true
next-mem l xs [] n g = rw (next_node_circ-last l xs n g) (mem-head l xs [] n g)
next-mem l xs (m ∷ ys) n g = rw (next_node_circ-inner l xs ys n m g) (
    subst (λ ns. mem m ns ≡ true) (append_assoc xs (n ∷ []) (m ∷ ys))
      (mem-middle (xs ++ (n ∷ [])) ys m))

pub next-Ready :
    (k : Kernel) (ps : List ℕ) (p : ℕ)
    → Ready k ps
    → mem p ps ≡ true
    → mem (next_node_circ (some k.runnable) (k.proc p).node) (nodes_of k.proc ps) ≡ true
next-Ready k ps p r e =
    let (xs, ys, at) =
      mem-split (k.proc p).node (nodes_of k.proc ps) (mem-nodes_of k.proc p ps e) in
    subst (λ ns. mem (next_node_circ (some k.runnable) (k.proc p).node) ns ≡ true) (sym at)
      (next-mem k.runnable xs ys (k.proc p).node (subst (Goes k.runnable) at r.goes))

pub cur-real : (p : ℕ) (ps : List ℕ) → mem 0 ps ≡ false → mem p ps ≡ true → p ≢ 0
cur-real p ps out e z = let h : mem 0 ps ≡ true = subst (λ q. mem q ps ≡ true) z e in absurd cc

list_item-real :
    (k : Kernel) (ps : List ℕ) (m : ℕ)
    → Ready k ps
    → mem m (nodes_of k.proc ps) ≡ true
    → list_item k.runnable.node m ≡ (k.runnable.node m).item
unfolding list_item
list_item-real k ps m r e = rw (node-real k.runnable (nodes_of k.proc ps) m r.goes e) refl

-- The turns go through the list's nodes.
turns-round :
    (es : List (Registers × Frame)) (k : Kernel) (ps : List ℕ)
    → FromUser es
    → Ready k ps
    → mem k.cur ps ≡ true
    → turns es k ≡ items k.runnable.node (round (length es) k.runnable (k.proc k.cur).node)
unfolding turns round items FromUser
turns-round [] k ps user r e = refl
turns-round ((regs, f) ∷ es) k ps (le, user) r e =
    let l = k.runnable in
    let m = next_node_circ (some l) (k.proc k.cur).node in
    let k' = turn (regs, f) k in
    let (alike, cur) = turn-next regs f k le (cur-real k.cur ps r.real e) in
    let (in_ps, at) = item-Ready k ps m r (next-Ready k ps k.cur r e) in
    let r' = Ready-same k k' ps alike.runnable (λ p h. alike.node p) r in
    let rest = turns-round es k' ps user r' (rw cur in_ps) in
    let node : (k'.proc k'.cur).node ≡ m = alike.node k'.cur ∙ ap (λ q. (k.proc q).node) cur ∙ at in
    ap₂ (λ x xs. x ∷ xs) (cur ∙ list_item-real k ps m r (next-Ready k ps k.cur r e))
      (rest ∙ ap₂ (λ l' n. items l'.node (round (length es) l' n)) alike.runnable node)

-- While the timer interrupts the runnable processes and nothing else happens, after as many turns as there are
-- processes each has had the processor once: the current one is followed by those behind it in the list and then
-- by those before it, in the list's order, before it gets its own turn.
pub turns-round_robin :
    (es : List (Registers × Frame)) (k : Kernel) (xs ys : List ℕ)
    → FromUser es
    → length es ≡ length ys + length (xs ++ (k.cur ∷ []))
    → Ready k (xs ++ (k.cur ∷ ys))
    → turns es k ≡ ys ++ (xs ++ (k.cur ∷ []))
unfolding items
turns-round_robin es k xs ys user len r =
    let l = k.runnable in
    let n = (k.proc k.cur).node in
    let parts = Ready-Parts k xs ys k.cur r in
    let before = nodes_of k.proc xs in
    let behind = nodes_of k.proc ys in
    let count : length es ≡ length behind + length (before ++ (n ∷ [])) = omega (
      arith,
      length-append xs (k.cur ∷ []),
      length-append before (n ∷ []),
      length-nodes_of k.proc xs,
      length-nodes_of k.proc ys,
    ) in
    turns-round es k (xs ++ (k.cur ∷ ys)) user r (mem-middle xs ys k.cur)
    ∙ ap (λ c. items l.node (round c l n)) count
    ∙ ap (items l.node) (round-circle l before behind n parts.goes)
    ∙ items-append l.node behind (before ++ (n ∷ []))
    ∙ ap₂ (λ a b. a ++ b) parts.behind
        (items-append l.node before (n ∷ []) ∙ ap₂ (λ a b. a ++ (b ∷ [])) parts.before parts.item)
