-- ===== src/Proc/Turns.antt =====
-- How the timer and `waitloop` of src/kernel/interrupt.c share the processor among the runnable processes.
use dar_os.Base.{
  ℕ, ◌≤◌, ◌≡◌, ◌≢◌, refl, ap, ◌∙◌, sym, ◌==◌, ltb, false, List, [], ◌∷◌, arith, Bool-cases, inl,
  inr, some,
}
use dar_os.LinkedList.Walk.{next_node_circ, list_item, list_len}
use dar_os.Proc.{Registers, Kernel}
use dar_os.Proc.Start.{map_proc_mem, start_proc}
use dar_os.Proc.Calls.{
  Frame, Ending, returns, waits, starts, user_space, save, preempt, next_proc, dispatch,
}

-- What follows a handler: `waitloop`, or the code that was interrupted.
unfoldable pub goes_on : Ending × Kernel → Kernel
goes_on (returns, k) = k
goes_on (waits, k) = (dispatch k).1
goes_on (starts cpu, k) = k

-- The timer interrupts the current process with these registers.
unfoldable pub turn : Registers × Frame → Kernel → Kernel
turn e k = goes_on (preempt e.0 e.1 k)

-- The processes that get the processor in turn.
unfoldable pub turns : List (Registers × Frame) → Kernel → List ℕ
turns [] k = []
turns (e ∷ es) k = let k' = turn e k in k'.cur ∷ turns es k'

-- The frames are of processes.
unfoldable pub FromUser : List (Registers × Frame) → Type 0
FromUser [] = Unit
FromUser (e ∷ es) = (user_space ≤ e.1.ip) × FromUser es

-- A state with the same list and the same nodes of processes.
pub record Alike (k k' : Kernel) : Type 0 where
  pub runnable : k'.runnable ≡ k.runnable
  pub node : (p : ℕ) → (k'.proc p).node ≡ (k.proc p).node

pub save-node :
    (regs : Registers) (f : Frame) (k : Kernel) (p : ℕ)
    → ((save regs f k).proc p).node ≡ (k.proc p).node
unfolding save
save-node regs f k p = elim (Bool-cases (p == k.cur)) [
  | inl e ↦ rw e (ap (λ q. (k.proc q).node) (ground arith))
  | inr e ↦ rw e refl
]

pub next_proc-same :
    (k : Kernel) → ((next_proc k).runnable ≡ k.runnable) × ((next_proc k).proc ≡ k.proc)
unfolding next_proc list_len
next_proc-same k = elim (Bool-cases (k.cur == 0)) [
  | inl e ↦ elim (Bool-cases (k.runnable.len == 0)) [
    | inl z ↦ rw (e, z) (refl, refl)
    | inr z ↦ rw (e, z) (refl, refl)
  ]
  | inr e ↦ rw e (refl, refl)
]

-- Starting the process changes nothing of this.
pub dispatch-next :
    (k : Kernel)
    → ((dispatch k).1.cur ≡ (next_proc k).cur)
      × ((dispatch k).1.runnable ≡ (next_proc k).runnable)
      × ((dispatch k).1.proc ≡ (next_proc k).proc)
unfolding dispatch start_proc map_proc_mem
dispatch-next k = elim (Bool-cases ((next_proc k).cur == 0)) [
  | inl e ↦ rw e (refl, refl, refl)
  | inr e ↦ rw e (refl, refl, refl)
]

pub preempt-user :
    (regs : Registers) (f : Frame) (k : Kernel)
    → user_space ≤ f.ip
    → preempt regs f k ≡ (waits, save regs f k)
unfolding preempt
preempt-user regs f k le = let e : ltb f.ip user_space ≡ false = ground arith in rw e refl

turn-dispatch :
    (regs : Registers) (f : Frame) (k : Kernel)
    → user_space ≤ f.ip
    → turn (regs, f) k ≡ (dispatch (save regs f k)).1
unfolding turn goes_on
turn-dispatch regs f k le = ap goes_on (preempt-user regs f k le)

-- What the current process is followed by.
next_proc-cur :
    (k : Kernel)
    → k.cur ≢ 0
    → (next_proc k).cur
      ≡ list_item k.runnable.node (next_node_circ (some k.runnable) (k.proc k.cur).node)
unfolding next_proc
next_proc-cur k ne = let e : (k.cur == 0) ≡ false = ground arith in rw e refl

pub save-same :
    (regs : Registers) (f : Frame) (k : Kernel)
    → ((save regs f k).runnable ≡ k.runnable) × ((save regs f k).cur ≡ k.cur)
unfolding save
save-same regs f k = (refl, refl)

-- A turn gives the processor to the process behind.
pub turn-next :
    (regs : Registers) (f : Frame) (k : Kernel)
    → user_space ≤ f.ip
    → k.cur ≢ 0
    → Alike k (turn (regs, f) k)
      × ((turn (regs, f) k).cur
          ≡ list_item k.runnable.node (next_node_circ (some k.runnable) (k.proc k.cur).node))
unfolding save
turn-next regs f k le ne =
    let k1 = save regs f k in
    let (r1, c1) = save-same regs f k in
    let (c, r, p) = dispatch-next k1 in
    let (r2, p2) = next_proc-same k1 in
    rw (turn-dispatch regs f k le) (
      record {
        runnable = r ∙ r2 ∙ r1;
        node = λ q. ap (λ g. (g q).node) (p ∙ p2) ∙ save-node regs f k q;
      },
      c
          ∙ next_proc-cur k1 (λ z. ne (sym c1 ∙ z))
          ∙ ap (λ n. list_item k.runnable.node (next_node_circ (some k.runnable) n))
              (save-node regs f k k.cur),
    )
