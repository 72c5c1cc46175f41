-- ===== src/Proc/Sane.antt =====
-- The state of the scheduler of src/kernel/interrupt.c between two events: the runnable processes in their order, and the
-- current one, from which `waitloop` goes on.
use dar_os.Base.{
  ℕ, ◌≡◌, ◌≢◌, refl, subst, ap, ◌∙◌, ◌==◌, true, false, ◌&&◌, List, [], ◌∷◌, ◌++◌, arith,
  Bool-cases, ◌⊎◌, inl, inr, sub64, some, ◌<◌, ◌^◌,
}
use dar_os.LinkedList.Chain.{mem, mem-append, first}
use dar_os.LinkedList.Walk.{next_node_circ}
use dar_os.LinkedList.Reject.{reject}
use dar_os.LinkedList.Remove.{remove_node-Goes}
use dar_os.LinkedList.Once.{recount}
use dar_os.LinkedList.Circle.{link-at}
use dar_os.Proc.{Kernel}
use dar_os.Proc.Table.{make_runnable}
use dar_os.Proc.Wake.{unschedule}
use dar_os.Proc.Calls.{block}
use dar_os.Proc.Turns.{Alike}
use dar_os.Proc.Ready.{
  Ready, Ready-Parts, Ready-same, nodes_of, nodes_of-agree, nodes_of-append, make_runnable-Ready,
}
use dar_os.Proc.Blocked.{block-Ready, unschedule-Ready, removed_once, unscheduled}
use dar_os.Proc.Robin.{mem-split}
use dar_os.Proc.Follows.{Follows, Fresh, make_runnable-Follows, first-mem}

pub record Sane (k : Kernel) (ps : List ℕ) : Type 0 where
  pub ready : Ready k ps
  pub follows : Follows k ps

-- The processes but for one.
abbrev pub without : ℕ → List ℕ → List ℕ
without p ps = reject (λ other. other == p) ps

-- Operations that change nothing of the list, of the processes' nodes and of which is the current process.
pub Sane-Alike :
    (k k' : Kernel) (ps : List ℕ) → Alike k k' → k'.cur ≡ k.cur → Sane k ps → Sane k' ps
unfolding Follows
Sane-Alike k k' ps alike cur s =
    let same : (k'.proc k'.cur).node ≡ (k.proc k.cur).node =
      alike.node k'.cur ∙ ap (λ q. (k.proc q).node) cur in
    let ns = nodes_of-agree k.proc k'.proc ps (λ p e. alike.node p) in
    record {
      ready = Ready-same k k' ps alike.runnable (λ p e. alike.node p) s.ready;
      follows = rw (same, cur, alike.runnable, ns) s.follows;
    }

pub Fresh-Alike :
    (k k' : Kernel) (ps : List ℕ) (n p : ℕ)
    → Alike k k'
    → k'.cur ≡ k.cur
    → Fresh k ps n p
    → Fresh k' ps n p
Fresh-Alike k k' ps n p alike cur f =
    let same : (k'.proc k'.cur).node ≡ (k.proc k.cur).node =
      alike.node k'.cur ∙ ap (λ q. (k.proc q).node) cur in
    let ns = nodes_of-agree k.proc k'.proc ps (λ q e. alike.node q) in
    record {
      node_real = f.node_real;
      node_new = rw ns f.node_new;
      node_apart = rw same f.node_apart;
      real = f.real;
      new = f.new;
      apart = rw cur f.apart;
      counts = rw alike.runnable f.counts;
    }

pub make_runnable-Sane :
    (n p : ℕ) (k : Kernel) (ps : List ℕ)
    → Fresh k ps n p
    → Sane k ps
    → Sane (make_runnable n p k) (ps ++ (p ∷ []))
make_runnable-Sane n p k ps f s = record {
  ready = make_runnable-Ready n p k ps f.node_real f.node_new f.real f.new f.counts s.ready;
  follows = make_runnable-Follows n p k ps f s.follows;
}

reject-none : (p : ℕ) (xs : List ℕ) → mem p xs ≡ false → without p xs ≡ xs
unfolding reject mem
reject-none p [] e = refl
reject-none p (x ∷ xs) e =
    let ne : (x == p) ≡ false = ground arith in
    rw ne (ap (λ t. x ∷ t) (reject-none p xs ground arith))

-- A process that is there once.
reject-one :
    (p : ℕ) (xs ys : List ℕ)
    → mem p xs ≡ false
    → mem p ys ≡ false
    → without p (xs ++ (p ∷ ys)) ≡ xs ++ ys
unfolding reject mem
reject-one p [] ys before behind =
    let same : (p == p) ≡ true = ground arith in rw same (reject-none p ys behind)
reject-one p (x ∷ xs) ys before behind =
    let ne : (x == p) ≡ false = ground arith in
    rw ne (ap (λ t. x ∷ t) (reject-one p xs ys ground arith behind))

-- The parts about a runnable process.
without-parts :
    (k : Kernel) (ps : List ℕ) (p : ℕ)
    → Ready k ps
    → mem p ps ≡ true
    → (xs ys : List ℕ) × Ready k (xs ++ (p ∷ ys)) × (without p ps ≡ xs ++ ys)
without-parts k ps p r e =
    let (xs, ys, at) = mem-split p ps e in
    let r' = subst (Ready k) at r in
    let parts = Ready-Parts k xs ys p r' in
    (xs, ys, r', ap (without p) at ∙ reject-one p xs ys parts.not_before parts.not_behind)

blocked-cur : (k : Kernel) → (block k).cur ≡ 0
unfolding block
blocked-cur k = refl

-- The current process waits.
pub block-Sane :
    (k : Kernel) (ps : List ℕ)
    → Ready k ps
    → mem k.cur ps ≡ true
    → Sane (block k) (without k.cur ps)
unfolding Follows
block-Sane k ps r e =
    let (xs, ys, r', at) = without-parts k ps k.cur r e in
    record { ready = rw at (block-Ready k xs ys r'); follows = inl (blocked-cur k) }

unscheduled-cur : (p : ℕ) (k : Kernel) → ((unschedule p k).cur ≡ 0) ⊎ ((unschedule p k).cur ≡ k.cur)
unfolding unschedule
unscheduled-cur p k = elim (Bool-cases (k.cur == 0)) [
  | inl z ↦ inr (rw z refl)
  | inr ne ↦
      elim (Bool-cases (
        p == k.cur
        && next_node_circ (some k.runnable) (k.proc k.cur).node == (k.proc k.cur).node)) [
          | inl alone ↦ inl (rw (ne, alone) refl)
          | inr other ↦ inr (rw (ne, other) refl)
        ]
]

mem-second : (n : ℕ) (xs ys : List ℕ) → mem n ys ≡ true → mem n (xs ++ ys) ≡ true
unfolding mem
mem-second n xs ys e = mem-append n xs ys ∙ ground arith

-- The node of a process that ended still goes on to where it did.
unschedule-Follows :
    (k : Kernel) (xs ys : List ℕ)
    → k.cur ≢ 0
    → Ready k (xs ++ (k.cur ∷ ys))
    → Follows (unschedule k.cur k) (xs ++ ys)
unfolding Follows
unschedule-Follows k xs ys ne r =
    let n = (k.proc k.cur).node in
    let u = unschedule k.cur k in
    let parts = Ready-Parts k xs ys k.cur r in
    let before = nodes_of k.proc xs in
    let behind = nodes_of k.proc ys in
    let (nz, was) = link-at k.runnable before behind n parts.goes in
    let l = recount (sub64 k.runnable.len 1) k.runnable in
    let g = parts.goes in
    let (goes, kept, next, len) =
      remove_node-Goes l before behind n
        (record { linked = g.linked; head = g.head; tail = g.tail }) in
    let (list, procs) = unscheduled k.cur k (ground arith) in
    let list' = list ∙ removed_once k xs ys k.cur r in
    let ns : nodes_of u.proc (xs ++ ys) ≡ before ++ behind =
      ap (λ f. nodes_of f (xs ++ ys)) procs ∙ nodes_of-append k.proc xs ys in
    elim (unscheduled-cur k.cur k) [
      | inl z ↦ inl z
      | inr c ↦
          let same : (u.proc u.cur).node ≡ n =
            ap (λ f. (f u.cur).node) procs ∙ ap (λ q. (k.proc q).node) c in
          let real : n ≢ 0 = ground arith in
          inr (
            rw same real,
            rw (same, list', ns, next)
                (elim (first-mem behind) [
                  | inl z ↦ inl z
                  | inr m ↦ inr (mem-second (first behind 0) before behind m)
                ]),
          )
    ]

-- The current process ends.
pub unschedule-Sane :
    (k : Kernel) (ps : List ℕ)
    → k.cur ≢ 0
    → k.runnable.len < 2 ^ 64
    → Ready k ps
    → mem k.cur ps ≡ true
    → Sane (unschedule k.cur k) (without k.cur ps)
unschedule-Sane k ps ne small r e =
    let (xs, ys, r', at) = without-parts k ps k.cur r e in
    record {
      ready = rw at (unschedule-Ready k.cur k xs ys ne small r');
      follows = rw at (unschedule-Follows k xs ys ne r');
    }
