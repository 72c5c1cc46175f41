-- ===== src/Proc/Calls.antt =====
-- What takes the processor from a process and gives it to another, of src/kernel/interrupt.c: the system calls, the
-- faults, the timer's preemption, and the choice in `waitloop`.
use dar_os.Base.{
  ℕ, ◌*◌, ◌%◌, ◌^◌, ◌==◌, ltb, Bool, true, false, if◌then◌else◌, List, [], ◌∷◌, Option, none, some,
}
use dar_os.LinkedList.{remove_node_from_list}
use dar_os.LinkedList.Walk.{next_node_circ, list_item, list_head, list_len}
use dar_os.Strings.Compare.{Diff, same, differ, strcmp}
use dar_os.Console.Print.{print_color_to, print_color, set_reading}
use dar_os.Proc.{Registers, App, Kernel, Blocks, set_proc}
use dar_os.Proc.Memory.{string_at}
use dar_os.Proc.Start.{physical, Cpu, start_proc}
use dar_os.Proc.Table.{proc_by_pid, create_proc}
use dar_os.Proc.Wake.{console_does, kill_proc}

-- `struct interrupt_frame`: what the processor pushed.
pub record Frame : Type 0 where
  pub ip : ℕ
  pub cs : ℕ
  pub flags : ℕ
  pub sp : ℕ

-- 511 GB, above which processes run.
abbrev pub user_space : ℕ
user_space = 511 * 2 ^ 30

-- How a handler ends: by returning to where it came from, in `waitloop`, or by starting a process.
pub data Ending : Type 0 where
  returns : Ending
  waits : Ending
  starts : (cpu : Cpu) → Ending

-- The registers and the frame into the current process.
unfoldable pub save : Registers → Frame → Kernel → Kernel
save regs f k =
    set_proc k.cur
      (record (k.proc k.cur) { registers = regs; rip = f.ip; rsp = f.sp; rflags = f.flags }) k

-- The current process is not to run until it is woken.
unfoldable pub block : Kernel → Kernel
block k = record (set_proc k.cur (record (k.proc k.cur) { node = 0 }) k) {
  runnable = remove_node_from_list (k.proc k.cur).node k.runnable;
  cur = 0;
}

-- A string of the current process. Its page of 2 MB bounds the rounds.
unfoldable pub user_string : ℕ → Kernel → List ℕ
user_string a k = string_at (2 ^ 21) (physical k.mapped a) k.ram

abbrev is_same : Diff → Bool
is_same same = true
is_same (differ c d) = false

-- The program that a name stands for: "app", "sh" or "procs".
unfoldable pub program : List ℕ → Kernel → Option App
program name k =
    if is_same (strcmp name (b'a' ∷ b'p' ∷ b'p' ∷ []))
    then some k.app
    else if is_same (strcmp name (b's' ∷ b'h' ∷ []))
    then some k.sh
    else if is_same (strcmp name (b'p' ∷ b'r' ∷ b'o' ∷ b'c' ∷ b's' ∷ []))
    then some k.procs
    else none

-- What `runProg` gets, in rax.
unfoldable pub run_program : Option App → (flags : ℕ) → Blocks → Kernel → ℕ × Kernel
run_program none flags b k = (0, k)
run_program (some a) flags b k = create_proc a (k.proc k.cur).stdout k.cur flags b k

unfoldable pub set_rax : ℕ → Kernel → Kernel
set_rax v k =
    let p = k.proc k.cur in
    set_proc k.cur (record p { registers = record p.registers { rax = v } }) k

-- The cases of the system call, once the registers are saved.
unfoldable pub sys_exit : (n flags : ℕ) (bs : ℕ → Blocks) → Kernel → Ending × Kernel
sys_exit n flags bs k = (waits, kill_proc k.cur n flags bs k)

unfoldable pub sys_print : (flags : ℕ) (bs : ℕ → Blocks) → Kernel → Ending × Kernel
sys_print flags bs k =
    let p = k.proc k.cur in
    let s = user_string p.registers.rbx k in
    (returns, console_does (print_color_to p.stdout s (p.registers.rcx % 256)) flags bs k)

unfoldable pub sys_readline : Kernel → Ending × Kernel
sys_readline k =
    let p = k.proc k.cur in
    (waits, block (record k { console = set_reading p.stdout p.pid k.console }))

unfoldable pub sys_run : (flags : ℕ) → Blocks → Kernel → Ending × Kernel
sys_run flags b k =
    let name = user_string (k.proc k.cur).registers.rbx k in
    let (pid, k1) = run_program (program name k) flags b k in
    let k2 = set_rax pid k1 in let (cpu, k3) = start_proc (k2.proc k2.cur) k2 in (starts cpu, k3)

unfoldable pub sys_wait : Kernel → Ending × Kernel
sys_wait k =
    let p = proc_by_pid (k.proc k.cur).registers.rbx k in
    if p == 0
    then (returns, k)
    else (waits, block (set_proc p (record (k.proc p) { waiting = k.cur }) k))

-- `unknown` is the text about a system call that there is not, as `printf` formats it.
unfoldable pub syscall :
    (unknown : ℕ → List ℕ) (regs : Registers) (f : Frame) (flags : ℕ) (bs : ℕ → Blocks)
    → Kernel
    → Ending × Kernel
syscall unknown regs f flags bs k0 =
    let k = save regs f k0 in
    let n = regs.rax in
    if ltb f.ip user_space
    then (returns, k0)
    else if n == 0
    then sys_exit (bs 1).node flags bs k
    else if n == 2
    then sys_print flags bs k
    else if n == 3
    then sys_readline k
    else if n == 4
    then sys_run flags (bs 0) k
    else if n == 5
    then sys_wait k
    else (returns, console_does (print_color (unknown n) 0x07) flags bs k)

-- `trap_0x0e_page_fault` and `double_fault_handler` after what they print: a process is killed, the kernel is
-- not.
unfoldable pub fault : Frame → (n flags : ℕ) (bs : ℕ → Blocks) → Kernel → Ending × Kernel
fault f n flags bs k = (waits, if f.cs == 0x13 then kill_proc k.cur n flags bs k else k)

-- The end of `irq0_pit`, when the time slice of 2 ms is over.
unfoldable pub preempt : Registers → Frame → Kernel → Ending × Kernel
preempt regs f k = if ltb f.ip user_space then (returns, k) else (waits, save regs f k)

-- Which process `waitloop` takes.
unfoldable pub next_proc : Kernel → Kernel
next_proc k =
    let l = k.runnable in
    let behind = list_item l.node (next_node_circ (some l) (k.proc k.cur).node) in
    if k.cur == 0
    then if list_len (some l) == 0
      then k
      else record k { cur = list_item l.node (list_head (some l)) }
    else record k { cur = behind }

-- The process that runs then, none if the processor is to halt until an interrupt.
unfoldable pub dispatch : Kernel → Option Cpu × Kernel
dispatch k =
    let k' = next_proc k in
    let (cpu, k'') = start_proc (k'.proc k'.cur) k' in
    if k'.cur == 0 then (none, k') else (some cpu, k'')
