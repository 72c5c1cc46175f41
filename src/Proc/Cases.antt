-- ===== src/Proc/Cases.antt =====
-- The cases of a system call of src/kernel/interrupt.c, and what each makes of the scheduler's state.
use dar_os.Base.{
  ℕ, ◌≡◌, ◌≢◌, ◌≤◌, refl, subst, ap, ◌∙◌, ◌==◌, ltb, ◌⊎◌, true, false, List, [], ◌∷◌, ◌++◌, arith,
  none, some,
}
use dar_os.LinkedList.Chain.{mem}
use dar_os.Console.Print.{print_color, set_reading}
use dar_os.Proc.{Registers, Process, App, Kernel, Blocks, set_proc}
use dar_os.Proc.Start.{map_proc_mem, start_proc}
use dar_os.Proc.Table.{proc_by_pid, create_proc}
use dar_os.Proc.Wake.{console_does}
use dar_os.Proc.Calls.{
  Frame, returns, user_space, save, user_string, program, run_program, set_rax, sys_exit, sys_print,
  sys_readline, sys_run, sys_wait, syscall,
}
use dar_os.Proc.Turns.{Alike, save-node, save-same}
use dar_os.Proc.Follows.{Fresh}
use dar_os.Proc.Sane.{Sane, Sane-Alike, block-Sane, without}
use dar_os.Proc.Made.{create_proc-Sane, written-node}
use dar_os.Proc.Answers.{create_proc-cur, mem-more}
use dar_os.Proc.Steps.{Mode, user, idle}

-- The scheduler's state in a mode: in a process, it is a runnable one.
unfoldable pub Runs : Mode → Kernel → List ℕ → Type 0
Runs user k ps = Sane k ps × (mem k.cur ps ≡ true)
Runs idle k ps = Sane k ps

-- The cases of a system call.
module _ (unknown : ℕ → List ℕ) (regs : Registers) (f : Frame) (flags : ℕ) (bs : ℕ → Blocks)
    (k : Kernel) (le : user_space ≤ f.ip) where
  pub syscall_exit :
      regs.rax ≡ 0
      → syscall unknown regs f flags bs k ≡ sys_exit (bs 1).node flags bs (save regs f k)
  unfolding syscall
  syscall_exit e = let u : ltb f.ip user_space ≡ false = ground arith in rw (u, e) refl

  pub syscall_print :
      regs.rax ≡ 2 → syscall unknown regs f flags bs k ≡ sys_print flags bs (save regs f k)
  unfolding syscall
  syscall_print e = let u : ltb f.ip user_space ≡ false = ground arith in rw (u, e) refl

  pub syscall_readline :
      regs.rax ≡ 3 → syscall unknown regs f flags bs k ≡ sys_readline (save regs f k)
  unfolding syscall
  syscall_readline e = let u : ltb f.ip user_space ≡ false = ground arith in rw (u, e) refl

  pub syscall_run :
      regs.rax ≡ 4 → syscall unknown regs f flags bs k ≡ sys_run flags (bs 0) (save regs f k)
  unfolding syscall
  syscall_run e = let u : ltb f.ip user_space ≡ false = ground arith in rw (u, e) refl

  pub syscall_wait : regs.rax ≡ 5 → syscall unknown regs f flags bs k ≡ sys_wait (save regs f k)
  unfolding syscall
  syscall_wait e = let u : ltb f.ip user_space ≡ false = ground arith in rw (u, e) refl

  pub syscall-unknown :
      (regs.rax ≡ 1) ⊎ (6 ≤ regs.rax)
      → syscall unknown regs f flags bs k
        ≡ (returns, console_does (print_color (unknown regs.rax) 0x07) flags bs (save regs f k))
  unfolding syscall
  syscall-unknown c =
      let u : ltb f.ip user_space ≡ false = ground arith in
      let n0 : (regs.rax == 0) ≡ false = ground arith in
      let n2 : (regs.rax == 2) ≡ false = ground arith in
      let n3 : (regs.rax == 3) ≡ false = ground arith in
      let n4 : (regs.rax == 4) ≡ false = ground arith in
      let n5 : (regs.rax == 5) ≡ false = ground arith in rw (u, n0, n2, n3, n4, n5) refl

pub save-Sane :
    (regs : Registers) (f : Frame) (k : Kernel) (ps : List ℕ) → Sane k ps → Sane (save regs f k) ps
save-Sane regs f k ps s =
    let (list, cur) = save-same regs f k in
    Sane-Alike k (save regs f k) ps (record { runnable = list; node = λ q. save-node regs f k q })
      cur s

-- `readline` and `wait`.
pub sys_readline-Sane :
    (k : Kernel) (ps : List ℕ)
    → Sane k ps
    → mem k.cur ps ≡ true
    → Sane (sys_readline k).1 (without k.cur ps)
unfolding sys_readline
sys_readline-Sane k ps s e =
    let p = k.proc k.cur in
    let k' : Kernel = record k { console = set_reading p.stdout p.pid k.console } in
    block-Sane k' ps
      (Sane-Alike k k' ps (record { runnable = refl; node = λ q. refl }) refl s).ready e

pub sys_wait-Sane :
    (k : Kernel) (ps : List ℕ)
    → proc_by_pid (k.proc k.cur).registers.rbx k ≢ 0
    → Sane k ps
    → mem k.cur ps ≡ true
    → Sane (sys_wait k).1 (without k.cur ps)
unfolding sys_wait
sys_wait-Sane k ps ne s e =
    let q = proc_by_pid (k.proc k.cur).registers.rbx k in
    let z : (q == 0) ≡ false = ground arith in
    let v : Process = record (k.proc q) { waiting = k.cur } in
    let k' = set_proc q v k in
    let alike : Alike k k' = record {
      runnable = refl;
      node = λ p. written-node k.proc q v p refl;
    } in
    rw z (block-Sane k' ps (Sane-Alike k k' ps alike refl s).ready e)

pub sys_wait-nobody :
    (k : Kernel) → proc_by_pid (k.proc k.cur).registers.rbx k ≡ 0 → sys_wait k ≡ (returns, k)
unfolding sys_wait
sys_wait-nobody k e =
    let z : (proc_by_pid (k.proc k.cur).registers.rbx k == 0) ≡ true = ground arith in rw z refl

-- `runProg`, after which the process goes on.

pub sys_run-Alike :
    (flags : ℕ) (b : Blocks) (k : Kernel)
    → let k1 = (run_program (program (user_string (k.proc k.cur).registers.rbx k) k) flags b k).1 in
      Alike k1 (sys_run flags b k).1 × ((sys_run flags b k).1.cur ≡ k1.cur)
unfolding sys_run set_rax start_proc map_proc_mem
sys_run-Alike flags b k =
    let k1 = (run_program (program (user_string (k.proc k.cur).registers.rbx k) k) flags b k).1 in
    (record { runnable = refl; node = λ q. written-node k1.proc k1.cur _ q refl }, refl)

pub sys_run-Runs :
    (flags : ℕ) (b : Blocks) (k : Kernel) (ps : List ℕ) (a : App)
    → program (user_string (k.proc k.cur).registers.rbx k) k ≡ some a
    → Fresh k ps b.node b.process
    → Runs user k ps
    → Runs user (sys_run flags b k).1 (ps ++ (b.process ∷ []))
unfolding Runs run_program
sys_run-Runs flags b k ps a e f (s, m) =
    let (alike, cur) = sys_run-Alike flags b k in
    let stdout = (k.proc k.cur).stdout in
    let k1 = (create_proc a stdout k.cur flags b k).1 in
    let at : (run_program (program (user_string (k.proc k.cur).registers.rbx k) k) flags b k).1
        ≡ k1 =
      ap (λ o. (run_program o flags b k).1) e in
    let qs = ps ++ (b.process ∷ []) in
    let s1 = create_proc-Sane a stdout k.cur flags b k ps f s in
    let alike' : Alike k1 (sys_run flags b k).1 =
      subst (λ k'. Alike k' (sys_run flags b k).1) at alike in
    let cur' : (sys_run flags b k).1.cur ≡ k1.cur = cur ∙ ap (λ k'. k'.cur) at in
    (
      Sane-Alike k1 (sys_run flags b k).1 qs alike' cur' s1,
      rw (cur', create_proc-cur a stdout k.cur flags b k) (mem-more k.cur ps (b.process ∷ []) m),
    )

pub sys_run-nothing :
    (flags : ℕ) (b : Blocks) (k : Kernel) (ps : List ℕ)
    → program (user_string (k.proc k.cur).registers.rbx k) k ≡ none
    → Runs user k ps
    → Runs user (sys_run flags b k).1 ps
unfolding Runs run_program
sys_run-nothing flags b k ps e (s, m) =
    let (alike, cur) = sys_run-Alike flags b k in
    let at : (run_program (program (user_string (k.proc k.cur).registers.rbx k) k) flags b k).1
        ≡ k =
      ap (λ o. (run_program o flags b k).1) e in
    let alike' : Alike k (sys_run flags b k).1 =
      subst (λ k'. Alike k' (sys_run flags b k).1) at alike in
    let cur' : (sys_run flags b k).1.cur ≡ k.cur = cur ∙ ap (λ k'. k'.cur) at in
    (Sane-Alike k (sys_run flags b k).1 ps alike' cur' s, rw cur' m)
