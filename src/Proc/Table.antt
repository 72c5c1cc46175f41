-- ===== src/Proc/Table.antt =====
-- The table of processes by pid, and making a process: `procByPid`, `createProc` and `startSh` of
-- src/kernel/interrupt.c.
use dar_os.Base.{ℕ, ◌+◌, ◌%◌, ◌==◌, if◌then◌else◌, write, List, [], ◌∷◌, Option, none, some, add64}
use dar_os.LinkedList.{Node, LinkedList, new_list, push_list_tail, get_node_by_condition}
use dar_os.LinkedList.Walk.{list_item}
use dar_os.Proc.{Process, zeroed, PidMap, App, Kernel, Blocks, pids_sz, set_proc}
use dar_os.Proc.Memory.{write_quad}

-- The item of the bucket that has this pid, 0 if there is none. The rounds are the bucket's length.
unfoldable pub find_map : (maps : ℕ → PidMap) (pid : ℕ) → Option LinkedList → ℕ
find_map maps pid none = 0
find_map maps pid (some l) =
    list_item l.node (get_node_by_condition l.len (λ item. (maps item).pid == pid) l)

unfoldable pub proc_by_pid : ℕ → Kernel → ℕ
proc_by_pid pid k =
    let pm = find_map k.maps pid (k.pids (pid % pids_sz)) in
    if pm == 0 then 0 else (k.maps pm).process

-- `p->node = pushListTail(runnableProcs, p)`; `n` is the address of the new node.
unfoldable pub make_runnable : (n p : ℕ) → Kernel → Kernel
make_runnable n p k = record (set_proc p (record (k.proc p) { node = n }) k) {
  runnable = push_list_tail n p k.runnable;
}

unfoldable pub load_code : List ℕ → (a : ℕ) → (ℕ → ℕ) → ℕ → ℕ
load_code [] a ram = ram
load_code (q ∷ code) a ram = load_code code (a + 8) (write_quad a q ram)

-- `pushListTail` on a list that may be null.
unfoldable pub push_if : (n item : ℕ) → Option LinkedList → Option LinkedList
push_if n item none = none
push_if n item (some l) = some (push_list_tail n item l)

unfoldable pub list_or_new : (ℕ → Node) → Option LinkedList → LinkedList
list_or_new junk none = new_list junk
list_or_new junk (some l) = l

-- The new process before it is put anywhere. `flags` is what `pushf` gives.
unfoldable pub new_process : (stdout parent page flags : ℕ) → Process
new_process stdout parent page flags = record zeroed {
  registers = record zeroed.registers { r15 = stdout };
  page = page;
  stdout = stdout;
  parent = parent;
  rip = 0x7FC0000000;
  rsp = 0x7FC0180000;
  rflags = flags;
}

-- The process among its parent's children, or among the roots.
unfoldable pub add_child : (parent n p : ℕ) → Kernel → Kernel
add_child parent n p k =
    let children = push_list_tail n p (list_or_new k.junk (k.proc parent).children) in
    if parent == 0
    then record k { roots = push_if n p k.roots }
    else set_proc parent (record (k.proc parent) { children = some children }) k

-- The next pid for the process at `p`, and its entry in the table.
unfoldable pub add_pid : (map entry p : ℕ) → Kernel → Kernel
add_pid map entry p k =
    let pid = add64 k.last_pid 1 in
    let l = list_or_new k.junk (k.pids (pid % pids_sz)) in
    record (set_proc p (record (k.proc p) { pid = pid }) k) {
      last_pid = pid;
      maps = write k.maps map (record { pid = pid; process = p });
      pids = write k.pids (pid % pids_sz) (some (push_list_tail entry map l));
    }

-- The new process's pid, and the state.
unfoldable pub create_proc : App → (stdout parent flags : ℕ) → Blocks → Kernel → ℕ × Kernel
create_proc a stdout parent flags b k =
    let p = b.process in
    let k0 = set_proc p (new_process stdout parent b.page flags) k in
    let k1 = record k0 { ram = load_code a.code b.page k0.ram } in
    let k2 = add_child parent b.child p (make_runnable b.node p k1) in
    let k3 = add_pid b.map b.entry p k2 in ((k3.proc p).pid, k3)

unfoldable pub start_sh : (stdout flags : ℕ) → Blocks → Kernel → ℕ × Kernel
start_sh stdout flags b k = create_proc k.sh stdout 0 flags b k
