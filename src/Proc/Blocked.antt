-- ===== src/Proc/Blocked.antt =====
-- A process of src/kernel/interrupt.c leaves the runnable ones: it waits, or it ends.
use dar_os.Base.{
  ℕ, ◌≡◌, ◌≢◌, refl, subst, ap, ◌∙◌, sym, ◌==◌, true, false, List, [], ◌∷◌, ◌++◌, length-append,
  arith, Bool-cases, inl, inr, sub64, ◌<◌, ◌^◌,
}
use dar_os.LinkedList.{remove_node_from_list, remove_from_list}
use dar_os.LinkedList.Chain.{mem, mem-append}
use dar_os.LinkedList.Once.{recount, NoMatch, remove_from_list_once}
use dar_os.Proc.{Kernel}
use dar_os.Proc.Wake.{unschedule}
use dar_os.Proc.Calls.{block}
use dar_os.Proc.Ready.{Ready, Parts, Ready-Parts, removed-Ready, nodes_of, length-nodes_of}

other-than :
    (k : Kernel) (xs ys : List ℕ) (p q : ℕ)
    → Parts k xs p ys
    → mem q (xs ++ ys) ≡ true
    → (q == p) ≡ false
other-than k xs ys p q parts e = elim (Bool-cases (q == p)) [
  | inl same ↦ absurd (ground (arith, parts.not_before, parts.not_behind, mem-append q xs ys))
  | inr other ↦ other
]

-- The current process waits.
pub block-Ready :
    (k : Kernel) (xs ys : List ℕ) → Ready k (xs ++ (k.cur ∷ ys)) → Ready (block k) (xs ++ ys)
unfolding block
block-Ready k xs ys r =
    let parts = Ready-Parts k xs ys k.cur r in
    let counted = r.counted in
    removed-Ready k (block k) xs ys k.cur k.runnable.len refl
      (omega (arith, length-append xs ys, length-append xs (k.cur ∷ ys)))
      (λ q e. rw (other-than k xs ys k.cur q parts e) refl) r

others-NoMatch : (p : ℕ) (xs : List ℕ) → mem p xs ≡ false → NoMatch (λ other. other == p) xs
unfolding mem NoMatch
others-NoMatch p [] e = tt
others-NoMatch p (x ∷ xs) e = (ground arith, others-NoMatch p xs (ground arith))

-- Removing a runnable process from the list removes its node.
pub removed_once :
    (k : Kernel) (xs ys : List ℕ) (p : ℕ)
    → Ready k (xs ++ (p ∷ ys))
    → let l = k.runnable in
      remove_from_list l.len p l ≡ remove_node_from_list (k.proc p).node (recount (sub64 l.len 1) l)
unfolding remove_from_list
removed_once k xs ys p r =
    let l = k.runnable in
    let parts = Ready-Parts k xs ys p r in
    let counted = r.counted in
    let it : ((l.node (k.proc p).node).item == p) ≡ true = ground (arith, parts.item) in
    remove_from_list_once (λ other. other == p) l.len (nodes_of k.proc xs) (nodes_of k.proc ys)
      (k.proc p).node l
      (omega (
        arith,
        length-append (nodes_of k.proc xs) ((k.proc p).node ∷ nodes_of k.proc ys),
        length-append xs (p ∷ ys),
        length-nodes_of k.proc xs,
        length-nodes_of k.proc ys,
      ))
      parts.goes
      (subst (NoMatch (λ other. other == p)) (sym parts.before)
        (others-NoMatch p xs parts.not_before))
      it
      (subst (NoMatch (λ other. other == p)) (sym parts.behind)
        (others-NoMatch p ys parts.not_behind))

pub unscheduled :
    (p : ℕ) (k : Kernel)
    → (k.cur == 0) ≡ false
    → ((unschedule p k).runnable ≡ remove_from_list k.runnable.len p k.runnable)
      × ((unschedule p k).proc ≡ k.proc)
unfolding unschedule
unscheduled p k e = rw e (refl, refl)

-- The end of a runnable process, while one is current.
pub unschedule-Ready :
    (p : ℕ) (k : Kernel) (xs ys : List ℕ)
    → k.cur ≢ 0
    → k.runnable.len < 2 ^ 64
    → Ready k (xs ++ (p ∷ ys))
    → Ready (unschedule p k) (xs ++ ys)
unschedule-Ready p k xs ys ne small r =
    let c = sub64 k.runnable.len 1 in
    let counted = r.counted in
    let (list, procs) = unscheduled p k (ground arith) in
    removed-Ready k (unschedule p k) xs ys p c (list ∙ removed_once k xs ys p r)
      (omega (arith, length-append xs ys, length-append xs (p ∷ ys)))
      (λ q e. ap (λ f. (f q).node) procs) r
