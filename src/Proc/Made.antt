-- ===== src/Proc/Made.antt =====
-- What making a process, giving a line and killing make of the runnable processes, in src/kernel/interrupt.c.
use dar_os.Base.{
  ℕ, ◌≡◌, refl, ap, ◌∙◌, ◌==◌, true, false, List, [], ◌∷◌, ◌++◌, arith, Bool-cases, inl, inr, write,
}
use dar_os.LinkedList.Chain.{mem, mem-ne}
use dar_os.Proc.{Process, App, Kernel, Blocks, set_proc}
use dar_os.Proc.Table.{
  proc_by_pid, make_runnable, load_code, new_process, add_child, add_pid, create_proc,
}
use dar_os.Proc.Wake.{with_line, got_line}
use dar_os.Proc.Turns.{Alike}
use dar_os.Proc.Ready.{nodes_of-agree, Ready-same}
use dar_os.Proc.Follows.{Follows, Fresh}
use dar_os.Proc.Lines.{with_bytes, got_line-known}
use dar_os.Proc.Sane.{Sane, Sane-Alike, Fresh-Alike, make_runnable-Sane}

-- A store with a process that has the same node as the one before.
pub written-node :
    (proc : ℕ → Process) (p : ℕ) (v : Process) (q : ℕ)
    → v.node ≡ (proc p).node
    → (write proc p v q).node ≡ (proc q).node
written-node proc p v q e = elim (Bool-cases (q == p)) [
  | inl same ↦ rw same (e ∙ ap (λ r. (proc r).node) (ground arith))
  | inr other ↦ rw other refl
]

pub add_child-Alike :
    (parent n p : ℕ) (k : Kernel)
    → Alike k (add_child parent n p k) × ((add_child parent n p k).cur ≡ k.cur)
unfolding add_child
add_child-Alike parent n p k = elim (Bool-cases (parent == 0)) [
  | inl z ↦ rw z (record { runnable = refl; node = λ q. refl }, refl)
  | inr ne ↦
      rw ne (record { runnable = refl; node = λ q. written-node k.proc parent _ q refl }, refl)
]

pub add_pid-Alike :
    (map entry p : ℕ) (k : Kernel)
    → Alike k (add_pid map entry p k) × ((add_pid map entry p k).cur ≡ k.cur)
unfolding add_pid
add_pid-Alike map entry p k =
    (record { runnable = refl; node = λ q. written-node k.proc p _ q refl }, refl)

-- The memory and the fields of a process that is not runnable.
Fresh-Sane :
    (k : Kernel) (ps : List ℕ) (n p : ℕ) (v : Process) (ram : ℕ → ℕ)
    → Fresh k ps n p
    → Sane k ps
    → let k' : Kernel = record (set_proc p v k) { ram = ram } in Sane k' ps × Fresh k' ps n p
unfolding Follows
Fresh-Sane k ps n p v ram f s =
    let proc' = write k.proc p v in
    let k' : Kernel = record (set_proc p v k) { ram = ram } in
    let other : (q : ℕ) → (q == p) ≡ false → (proc' q).node ≡ (k.proc q).node = λ q e. rw e refl in
    let here : (proc' k.cur).node ≡ (k.proc k.cur).node = other k.cur (ground (arith, f.apart)) in
    let member : (q : ℕ) → mem q ps ≡ true → (proc' q).node ≡ (k.proc q).node =
      λ q e. other q (mem-ne p q ps f.new e) in
    let ns = nodes_of-agree k.proc proc' ps member in
    (
      record { ready = Ready-same k k' ps refl member s.ready; follows = rw (here, ns) s.follows },
      record {
        node_real = f.node_real;
        node_new = rw ns f.node_new;
        node_apart = rw here f.node_apart;
        real = f.real;
        new = f.new;
        apart = f.apart;
        counts = f.counts;
      },
    )

-- A new process comes behind the runnable ones.
pub create_proc-Sane :
    (a : App) (stdout parent flags : ℕ) (b : Blocks) (k : Kernel) (ps : List ℕ)
    → Fresh k ps b.node b.process
    → Sane k ps
    → Sane (create_proc a stdout parent flags b k).1 (ps ++ (b.process ∷ []))
unfolding create_proc
create_proc-Sane a stdout parent flags b k ps f s =
    let p = b.process in
    let k0 = set_proc p (new_process stdout parent b.page flags) k in
    let k1 : Kernel = record k0 { ram = load_code a.code b.page k0.ram } in
    let (s1, f1) = Fresh-Sane k ps b.node p (new_process stdout parent b.page flags) k1.ram f s in
    let k2 = make_runnable b.node p k1 in
    let k3 = add_child parent b.child p k2 in
    let (alike, cur) = add_child-Alike parent b.child p k2 in
    let (alike', cur') = add_pid-Alike b.map b.entry p k3 in
    Sane-Alike k3 (add_pid b.map b.entry p k3) (ps ++ (p ∷ [])) alike' cur'
      (Sane-Alike k2 k3 (ps ++ (p ∷ [])) alike cur (make_runnable-Sane b.node p k1 ps f1 s1))

with_bytes-Alike :
    (q : ℕ) (l : List ℕ) (k : Kernel)
    → Alike k (with_bytes q l k) × ((with_bytes q l k).cur ≡ k.cur)
unfolding with_line
with_bytes-Alike q l k =
    (record { runnable = refl; node = λ p. written-node k.proc q _ p refl }, refl)

-- A reader that gets its line too.
pub got_line-Sane :
    (pid n q : ℕ) (l : List ℕ) (k : Kernel) (ps : List ℕ)
    → proc_by_pid pid k ≡ q
    → Fresh k ps n q
    → Sane k ps
    → Sane (got_line pid l n k) (ps ++ (q ∷ []))
got_line-Sane pid n q l k ps e f s =
    let (alike, cur) = with_bytes-Alike q l k in
    let k' = with_bytes q l k in
    rw (got_line-known pid n q l k e f.real) (
      make_runnable-Sane n q k' ps (Fresh-Alike k k' ps n q alike cur f)
        (Sane-Alike k k' ps alike cur s))

pub got_line-nobody :
    (pid n : ℕ) (l : List ℕ) (k : Kernel) → proc_by_pid pid k ≡ 0 → got_line pid l n k ≡ k
unfolding got_line
got_line-nobody pid n l k e = let z : (proc_by_pid pid k == 0) ≡ true = ground arith in rw z refl
