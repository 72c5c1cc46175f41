-- ===== src/Proc/Wake.antt =====
-- The end of a process and the wakers of src/kernel/interrupt.c: `killProc`, `gotLine`, and what the console
-- asks of the processes.
use dar_os.Base.{
  ℕ, ◌*◌, ◌%◌, ◌==◌, ◌&&◌, if◌then◌else◌, write, List, [], ◌∷◌, Option, none, some, add64, sub64,
  length,
}
use dar_os.LinkedList.{LinkedList, remove_from_list_with_equality, remove_from_list}
use dar_os.LinkedList.Walk.{next_node_circ}
use dar_os.Console.Screen.{Call, Console}
use dar_os.Console.Print.{proc_done}
use dar_os.Proc.{Process, PidMap, Kernel, Blocks, pids_sz, set_proc}
use dar_os.Proc.Memory.{copy_bytes}
use dar_os.Proc.Start.{base}
use dar_os.Proc.Table.{proc_by_pid, make_runnable, start_sh}

-- `gotLine` sets the reader's rax and rbx to the line's length and address, which leaves room for the twenty
-- quadwords of `startProc`.
unfoldable pub with_line : List ℕ → Process → Process
with_line l p =
    let len = length l in
    let rbx = sub64 (sub64 p.rsp len) (20 * 8) in
    record p { registers = record p.registers { rax = len; rbx = rbx } }

-- The line's bytes, before its terminator; `n` is the address of the new node.
unfoldable pub got_line : (pid : ℕ) (l : List ℕ) (n : ℕ) → Kernel → Kernel
got_line pid l n k =
    let p = proc_by_pid pid k in
    let v = with_line l (k.proc p) in
    let s = sub64 (add64 v.page v.registers.rbx) base in
    if p == 0 then k else make_runnable n p (record (set_proc p v k) { ram = copy_bytes l s k.ram })

-- What the console asks, the latest first; `bs` has the addresses for each call, the first at 0. `flags` is what
-- `pushf` gives.
unfoldable pub answer : List Call → (flags : ℕ) (bs : ℕ → Blocks) → Kernel → Kernel
answer [] flags bs k = k
answer (Call.start_sh t ∷ calls) flags bs k =
    (start_sh t flags (bs (length calls)) (answer calls flags bs k)).1
answer (Call.got_line pid l ∷ calls) flags bs k =
    got_line pid l (bs (length calls)).node (answer calls flags bs k)

-- An operation of the console, with what it asks of the processes.
unfoldable pub console_does : (Console → Console) → (flags : ℕ) (bs : ℕ → Blocks) → Kernel → Kernel
console_does f flags bs k =
    let c = f (record k.console { last_pid = k.last_pid; calls = [] }) in
    answer c.calls flags bs (record k { console = record c { calls = [] } })

-- `p->waiting->node = pushListTail(runnableProcs, p->waiting)`, if there is one that waits.
unfoldable pub wake_waiting : (n p : ℕ) → Kernel → Kernel
wake_waiting n p k = let w = (k.proc p).waiting in if w == 0 then k else make_runnable n w k

-- The process's entry leaves its bucket; a bucket without a list has none.
unfoldable pub remove_map : (maps : ℕ → PidMap) (pid : ℕ) → Option LinkedList → Option LinkedList
remove_map maps pid none = none
remove_map maps pid (some l) =
    some (remove_from_list_with_equality l.len (λ item. (maps item).pid == pid) l)

unfoldable pub forget_pid : ℕ → Kernel → Kernel
forget_pid pid k =
    let i = pid % pids_sz in record k { pids = write k.pids i (remove_map k.maps pid (k.pids i)) }

-- The end of `killProc`: curProc is let go of if it is the only one, and the process is not to run again.
unfoldable pub unschedule : ℕ → Kernel → Kernel
unschedule p k =
    let node = (k.proc k.cur).node in
    let alone = p == k.cur && next_node_circ (some k.runnable) node == node in
    if k.cur == 0 then k else record k {
      cur = if alone then 0 else k.cur;
      runnable = remove_from_list k.runnable.len p k.runnable;
    }

-- `n` is the address of the waiting process's node, and `bs` and `flags` are for the shell that the console may
-- start.
unfoldable pub kill_proc : (p n flags : ℕ) (bs : ℕ → Blocks) → Kernel → Kernel
kill_proc p n flags bs k =
    let v = k.proc p in
    let k1 = console_does (proc_done v.pid v.stdout) flags bs k in
    let k2 = wake_waiting n p k1 in
    let k3 = forget_pid v.pid k2 in if p == 0 then k else unschedule p k3
