-- ===== src/Proc/Runs.antt =====
-- The scheduler's state over the events that src/kernel/interrupt.c handles, and the process that `waitloop` goes on with.
use dar_os.Base.{ℕ, ◌≡◌, ◌≢◌, refl, ap, ◌∙◌, ◌==◌, ◌⊎◌, inl, inr, true, false, List, [], arith}
use dar_os.LinkedList.Chain.{mem}
use dar_os.Console.Screen.{Console}
use dar_os.Proc.{Kernel, Blocks}
use dar_os.Proc.Wake.{console_does, kill_proc}
use dar_os.Proc.Calls.{Frame, save, sys_exit, sys_print, fault, dispatch}
use dar_os.Proc.Turns.{preempt-user, next_proc-same, dispatch-next}
use dar_os.Proc.Ready.{Ready, Ready-same}
use dar_os.Proc.Follows.{Follows, member-Follows, next_proc-runs}
use dar_os.Proc.Robin.{cur-real}
use dar_os.Proc.Sane.{Sane}
use dar_os.Proc.Answers.{console_does-Sane, console_does-cur, Does-mem, kill_proc-Sane}
use dar_os.Proc.Cases.{
  Runs, save-Sane, sys_readline-Sane, sys_run-Runs, sys_run-nothing, sys_wait-Sane, sys_wait-nobody,
  syscall_exit, syscall_print, syscall_readline, syscall_run, syscall-unknown, syscall_wait,
}
use dar_os.Proc.Steps.{Mode, user, mode_of, Step, Steps, Does}

dispatch-Ready : (k : Kernel) (ps : List ℕ) → Ready k ps → Ready (dispatch k).1 ps
dispatch-Ready k ps r =
    let (c, list, proc) = dispatch-next k in
    let (list', proc') = next_proc-same k in
    Ready-same k (dispatch k).1 ps (list ∙ list') (λ p e. ap (λ g. (g p).node) (proc ∙ proc')) r

-- From any state that the scheduler can be in, `waitloop` goes on with a runnable process, and halts the processor only
-- if no process is runnable.
pub dispatch-runs :
    (k : Kernel) (ps : List ℕ)
    → Sane k ps
    → let p = (dispatch k).1.cur in ((p ≡ 0) × (ps ≡ [])) ⊎ (mem p ps ≡ true)
dispatch-runs k ps s = rw (dispatch-next k).0 (next_proc-runs k ps s.ready s.follows)

dispatch-Runs :
    (k : Kernel) (ps : List ℕ) → Sane k ps → Runs (mode_of (dispatch k).1.cur) (dispatch k).1 ps
unfolding Runs Follows
dispatch-Runs k ps s =
    let r = dispatch-Ready k ps s.ready in
    let p = (dispatch k).1.cur in
    elim (dispatch-runs k ps s) [
      | inl (z, e) ↦
          let none : (p == 0) ≡ true = ground arith in
          rw none (record { ready = r; follows = inl z })
      | inr m ↦
          let real = cur-real p ps r.real m in
          let some : (p == 0) ≡ false = ground arith in
          rw some (record { ready = r; follows = member-Follows (dispatch k).1 ps r m }, m)
    ]

fault_lem :
    (f : Frame) (n flags : ℕ) (bs : ℕ → Blocks) (k : Kernel)
    → f.cs ≡ 0x13
    → (fault f n flags bs k).1 ≡ kill_proc k.cur n flags bs k
unfolding fault
fault_lem f n flags bs k e = let t : (f.cs == 0x13) ≡ true = ground arith in rw t refl

kernel_fault_lem :
    (f : Frame) (n flags : ℕ) (bs : ℕ → Blocks) (k : Kernel)
    → f.cs ≢ 0x13
    → (fault f n flags bs k).1 ≡ k
unfolding fault
kernel_fault_lem f n flags bs k ne = let t : (f.cs == 0x13) ≡ false = ground arith in rw t refl

console_does-Runs :
    (f : Console → Console) (flags : ℕ) (bs : ℕ → Blocks) (k : Kernel) (ps qs : List ℕ)
    → Does f flags bs k ps qs
    → Runs user k ps
    → Runs user (console_does f flags bs k) qs
unfolding Runs
console_does-Runs f flags bs k ps qs d (s, m) = (
  console_does-Sane f flags bs k ps qs d s,
  rw (console_does-cur f flags bs k) (Does-mem f flags bs k k.cur ps qs d m),
)

module _ (unknown : ℕ → List ℕ) where
  -- Each event keeps the state of the scheduler: its list has exactly the runnable processes, in the order that the step
  -- says, each on its node, and from the current one `waitloop` can go on; a process that runs is a runnable one. A
  -- process that becomes runnable is on a fresh node and was not runnable, which the step has as conditions.
  pub step-Runs :
      (m : Mode) (k : Kernel) (ps : List ℕ) (m' : Mode) (k' : Kernel) (qs : List ℕ)
      → Step unknown m k ps m' k' qs
      → Runs m k ps
      → Runs m' k' qs
  unfolding Runs sys_exit sys_print save
  step-Runs _ _ _ _ _ _ (Step.preempts regs f k ps le) (s, e) =
      rw (preempt-user regs f k le) (save-Sane regs f k ps s)
  step-Runs _ _ _ _ _ _ (Step.exits regs f flags bs k ps qs le n d) (s, e) =
      rw (syscall_exit unknown regs f flags bs k le n) (
        kill_proc-Sane (bs 1).node flags bs (save regs f k) ps qs d
          (cur-real k.cur ps s.ready.real e) e (save-Sane regs f k ps s))
  step-Runs _ _ _ _ _ _ (Step.prints regs f flags bs k ps qs le n d) (s, e) =
      rw (syscall_print unknown regs f flags bs k le n)
        (console_does-Runs _ flags bs (save regs f k) ps qs d (save-Sane regs f k ps s, e))
  step-Runs _ _ _ _ _ _ (Step.reads regs f flags bs k ps le n) (s, e) =
      rw (syscall_readline unknown regs f flags bs k le n)
        (sys_readline-Sane (save regs f k) ps (save-Sane regs f k ps s) e)
  step-Runs _ _ _ _ _ _ (Step.runs regs f flags bs k ps a le n (at, fresh)) (s, e) =
      rw (syscall_run unknown regs f flags bs k le n)
        (sys_run-Runs flags (bs 0) (save regs f k) ps a at fresh (save-Sane regs f k ps s, e))
  step-Runs _ _ _ _ _ _ (Step.finds_no_program regs f flags bs k ps le n at) (s, e) =
      rw (syscall_run unknown regs f flags bs k le n)
        (sys_run-nothing flags (bs 0) (save regs f k) ps at (save-Sane regs f k ps s, e))
  step-Runs _ _ _ _ _ _ (Step.waits_for regs f flags bs k ps le n at) (s, e) =
      rw (syscall_wait unknown regs f flags bs k le n)
        (sys_wait-Sane (save regs f k) ps at (save-Sane regs f k ps s) e)
  step-Runs _ _ _ _ _ _ (Step.waits_for_nobody regs f flags bs k ps le n at) (s, e) =
      rw (syscall_wait unknown regs f flags bs k le n, sys_wait-nobody (save regs f k) at)
        (save-Sane regs f k ps s, e)
  step-Runs _ _ _ _ _ _ (Step.calls_unknown regs f flags bs k ps qs le n d) (s, e) =
      rw (syscall-unknown unknown regs f flags bs k le n)
        (console_does-Runs _ flags bs (save regs f k) ps qs d (save-Sane regs f k ps s, e))
  step-Runs _ _ _ _ _ _ (Step.faults f n flags bs k ps qs at d) (s, e) =
      rw (fault_lem f n flags bs k at)
        (kill_proc-Sane n flags bs k ps qs d (cur-real k.cur ps s.ready.real e) e s)
  step-Runs _ _ _ _ _ _ (Step.kernel_faults f n flags bs k ps ne) s =
      rw (kernel_fault_lem f n flags bs k ne) s
  step-Runs _ _ _ _ _ _ (Step.dispatches k ps) s = dispatch-Runs k ps s
  step-Runs _ _ _ _ _ _ (Step.console_works f flags bs k ps qs d) s =
      console_does-Sane f flags bs k ps qs d s

  -- Any number of events, too.
  pub Steps-Runs :
      (m : Mode) (k : Kernel) (ps : List ℕ) (m' : Mode) (k' : Kernel) (qs : List ℕ)
      → Steps unknown m k ps m' k' qs
      → Runs m k ps
      → Runs m' k' qs
  Steps-Runs m k ps _ _ _ Steps.here r = r
  Steps-Runs m k ps _ _ _ (Steps.then m' m'' k' k'' qs rs past step) r =
      step-Runs m' k' qs m'' k'' rs step (Steps-Runs m k ps m' k' qs past r)
