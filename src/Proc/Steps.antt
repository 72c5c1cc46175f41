-- ===== src/Proc/Steps.antt =====
-- How the processes of src/kernel/interrupt.c run: the events that the kernel handles, as steps from a state and the
-- runnable processes to the next.
use dar_os.Base.{
  ℕ, ◌%◌, ◌≡◌, ◌≢◌, ◌≤◌, ◌<◌, ◌^◌, ◌==◌, ◌⊎◌, if◌then◌else◌, List, [], ◌∷◌, ◌++◌, length, none,
  some,
}
use dar_os.Console.Screen.{Call, Console}
use dar_os.Console.Print.{print_color_to, print_color, proc_done}
use dar_os.Proc.{Registers, App, Kernel, Blocks}
use dar_os.Proc.Table.{proc_by_pid}
use dar_os.Proc.Wake.{answer, console_does, wake_waiting}
use dar_os.Proc.Calls.{
  Frame, user_space, save, user_string, program, syscall, fault, preempt, dispatch,
}
use dar_os.Proc.Follows.{Fresh}
use dar_os.Proc.Sane.{without}

-- What the processes that answer the calls of the console make of the runnable ones: a shell and a reader that has its
-- line come behind them.
pub data Answered (flags : ℕ) (bs : ℕ → Blocks) (k : Kernel) (ps : List ℕ)
    : List Call → List ℕ → Type 0 where
  nothing : Answered flags bs k ps [] ps
  shell :
      (t : ℕ) (calls : List Call) (qs : List ℕ)
      → Answered flags bs k ps calls qs
      → Fresh (answer calls flags bs k) qs (bs (length calls)).node (bs (length calls)).process
      → Answered flags bs k ps (Call.start_sh t ∷ calls) (qs ++ ((bs (length calls)).process ∷ []))
  nobody :
      (pid : ℕ) (l : List ℕ) (calls : List Call) (qs : List ℕ)
      → Answered flags bs k ps calls qs
      → proc_by_pid pid (answer calls flags bs k) ≡ 0
      → Answered flags bs k ps (Call.got_line pid l ∷ calls) qs
  reader :
      (pid q : ℕ) (l : List ℕ) (calls : List Call) (qs : List ℕ)
      → Answered flags bs k ps calls qs
      → proc_by_pid pid (answer calls flags bs k) ≡ q
      → Fresh (answer calls flags bs k) qs (bs (length calls)).node q
      → Answered flags bs k ps (Call.got_line pid l ∷ calls) (qs ++ (q ∷ []))

-- An operation of the console and what it makes of them.
pub data Does (f : Console → Console) (flags : ℕ) (bs : ℕ → Blocks) (k : Kernel) (ps qs : List ℕ)
    : Type 0 where
  does :
      (let c = f (record k.console { last_pid = k.last_pid; calls = [] }) in
        Answered flags bs (record k { console = record c { calls = [] } }) ps c.calls qs)
      → Does f flags bs k ps qs

-- The process that waits for another, if there is one, comes behind the others too.
pub data Woken (n p : ℕ) (k : Kernel) (ps : List ℕ) : List ℕ → Type 0 where
  nobody : (k.proc p).waiting ≡ 0 → Woken n p k ps ps
  waiter : Fresh k ps n (k.proc p).waiting → Woken n p k ps (ps ++ ((k.proc p).waiting ∷ []))

-- The current process is killed.
pub data Killed (n flags : ℕ) (bs : ℕ → Blocks) (k : Kernel) (ps : List ℕ) : List ℕ → Type 0 where
  killed :
      (qs rs : List ℕ)
      → (let p = k.proc k.cur in Does (proc_done p.pid p.stdout) flags bs k ps qs)
      → (let p = k.proc k.cur in
          Woken n k.cur (console_does (proc_done p.pid p.stdout) flags bs k) qs rs)
      → (let p = k.proc k.cur in
          (wake_waiting n k.cur (console_does (proc_done p.pid p.stdout) flags bs k)).runnable.len
          < 2 ^ 64)
      → Killed n flags bs k ps (without k.cur rs)

-- A process runs, or the kernel is in `waitloop`.
pub data Mode : Type 0 where
  user : Mode
  idle : Mode

abbrev pub mode_of : ℕ → Mode
mode_of cur = if cur == 0 then idle else user

-- One event. In a process `k1` is the state once its registers are saved; `unknown` is what is printed about a system
-- call that there is not.
pub data Step (unknown : ℕ → List ℕ)
    : Mode → Kernel → List ℕ → Mode → Kernel → List ℕ → Type 0 where
  preempts :
      (regs : Registers) (f : Frame) (k : Kernel) (ps : List ℕ)
      → user_space ≤ f.ip
      → Step unknown user k ps idle (preempt regs f k).1 ps
  exits :
      (regs : Registers) (f : Frame) (flags : ℕ) (bs : ℕ → Blocks) (k : Kernel) (ps qs : List ℕ)
      → user_space ≤ f.ip
      → regs.rax ≡ 0
      → Killed (bs 1).node flags bs (save regs f k) ps qs
      → Step unknown user k ps idle (syscall unknown regs f flags bs k).1 qs
  prints :
      (regs : Registers) (f : Frame) (flags : ℕ) (bs : ℕ → Blocks) (k : Kernel) (ps qs : List ℕ)
      → user_space ≤ f.ip
      → regs.rax ≡ 2
      → (let k1 = save regs f k in
          let p = k1.proc k1.cur in
          Does
            (print_color_to p.stdout (user_string p.registers.rbx k1) (p.registers.rcx % 256))
            flags
            bs
            k1
            ps
            qs)
      → Step unknown user k ps user (syscall unknown regs f flags bs k).1 qs
  reads :
      (regs : Registers) (f : Frame) (flags : ℕ) (bs : ℕ → Blocks) (k : Kernel) (ps : List ℕ)
      → user_space ≤ f.ip
      → regs.rax ≡ 3
      → Step unknown user k ps idle (syscall unknown regs f flags bs k).1 (without k.cur ps)
  runs :
      (regs : Registers) (f : Frame) (flags : ℕ) (bs : ℕ → Blocks) (k : Kernel) (ps : List ℕ)
      (a : App)
      → user_space ≤ f.ip
      → regs.rax ≡ 4
      → (let k1 = save regs f k in
          (program (user_string (k1.proc k1.cur).registers.rbx k1) k1 ≡ some a)
          × Fresh k1 ps (bs 0).node (bs 0).process)
      → Step unknown user k ps user
          (syscall unknown regs f flags bs k).1
          (ps ++ ((bs 0).process ∷ []))
  finds_no_program :
      (regs : Registers) (f : Frame) (flags : ℕ) (bs : ℕ → Blocks) (k : Kernel) (ps : List ℕ)
      → user_space ≤ f.ip
      → regs.rax ≡ 4
      → (let k1 = save regs f k in
          program (user_string (k1.proc k1.cur).registers.rbx k1) k1 ≡ none)
      → Step unknown user k ps user (syscall unknown regs f flags bs k).1 ps
  waits_for :
      (regs : Registers) (f : Frame) (flags : ℕ) (bs : ℕ → Blocks) (k : Kernel) (ps : List ℕ)
      → user_space ≤ f.ip
      → regs.rax ≡ 5
      → (let k1 = save regs f k in proc_by_pid (k1.proc k1.cur).registers.rbx k1 ≢ 0)
      → Step unknown user k ps idle (syscall unknown regs f flags bs k).1 (without k.cur ps)
  waits_for_nobody :
      (regs : Registers) (f : Frame) (flags : ℕ) (bs : ℕ → Blocks) (k : Kernel) (ps : List ℕ)
      → user_space ≤ f.ip
      → regs.rax ≡ 5
      → (let k1 = save regs f k in proc_by_pid (k1.proc k1.cur).registers.rbx k1 ≡ 0)
      → Step unknown user k ps user (syscall unknown regs f flags bs k).1 ps
  calls_unknown :
      (regs : Registers) (f : Frame) (flags : ℕ) (bs : ℕ → Blocks) (k : Kernel) (ps qs : List ℕ)
      → user_space ≤ f.ip
      → (regs.rax ≡ 1) ⊎ (6 ≤ regs.rax)
      → Does (print_color (unknown regs.rax) 0x07) flags bs (save regs f k) ps qs
      → Step unknown user k ps user (syscall unknown regs f flags bs k).1 qs
  faults :
      (f : Frame) (n flags : ℕ) (bs : ℕ → Blocks) (k : Kernel) (ps qs : List ℕ)
      → f.cs ≡ 0x13
      → Killed n flags bs k ps qs
      → Step unknown user k ps idle (fault f n flags bs k).1 qs
  kernel_faults :
      (f : Frame) (n flags : ℕ) (bs : ℕ → Blocks) (k : Kernel) (ps : List ℕ)
      → f.cs ≢ 0x13
      → Step unknown idle k ps idle (fault f n flags bs k).1 ps
  dispatches :
      (k : Kernel) (ps : List ℕ)
      → Step unknown idle k ps (mode_of (dispatch k).1.cur) (dispatch k).1 ps
  console_works :
      (f : Console → Console) (flags : ℕ) (bs : ℕ → Blocks) (k : Kernel) (ps qs : List ℕ)
      → Does f flags bs k ps qs
      → Step unknown idle k ps idle (console_does f flags bs k) qs

-- Any number of events.
pub data Steps (unknown : ℕ → List ℕ) (m : Mode) (k : Kernel) (ps : List ℕ)
    : Mode → Kernel → List ℕ → Type 0 where
  here : Steps unknown m k ps m k ps
  then :
      (m' m'' : Mode) (k' k'' : Kernel) (qs rs : List ℕ)
      → Steps unknown m k ps m' k' qs
      → Step unknown m' k' qs m'' k'' rs
      → Steps unknown m k ps m'' k'' rs
