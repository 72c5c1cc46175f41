-- ===== src/Proc/Tests.antt =====
-- Runs of the processes of src/kernel/interrupt.c at concrete states.
use dar_os.Base.{
  ℕ, ◌≡◌, ◌<◌, ◌^◌, ◌≤◌, ◌⊎◌, refl, inr, List, [], ◌∷◌, write, none, some, arith, true, false,
  add64, ◌%◌,
}
use dar_os.LinkedList.{LinkedList}
use dar_os.LinkedList.Chain.{Linked, mem, items, first, last}
use dar_os.Console.Tests.{console}
use dar_os.Proc.{Registers, Process, Kernel, Blocks, no_registers, zeroed, pids_sz}
use dar_os.Proc.Words.{Quads}
use dar_os.Proc.Start.{pushed, map_proc_mem, start_proc}
use dar_os.LinkedList.{get_node, get_node_by_condition}
use dar_os.LinkedList.Walk.{list_item, list_len}
use dar_os.Proc.Table.{find_map, proc_by_pid, create_proc}
use dar_os.Proc.Wake.{got_line, forget_pid}
use dar_os.Proc.Calls.{Frame, syscall, dispatch}
use dar_os.Proc.Frame.{Placed, resumed, start_proc-resumed}
use dar_os.Proc.Lines.{HasRead, got_line-HasRead}
use dar_os.Proc.Turns.{turns, FromUser}
use dar_os.Proc.Ready.{Ready, nodes_of}
use dar_os.Proc.Robin.{turns-round_robin}
use dar_os.Proc.Follows.{Follows}
use dar_os.Proc.Sane.{Sane, without}
use dar_os.Proc.Steps.{user, idle, Step}
use dar_os.Proc.Cases.{Runs}
use dar_os.Proc.Runs.{dispatch-runs, step-Runs}
use dar_os.Proc.Lookup.{Holds, Bucket, Absent}
use dar_os.Proc.Pids.{NewEntry, create_proc-found}
use dar_os.Proc.Forget.{forget_pid-lost}

abbrev registers : Registers
registers = record no_registers { rax = 3; r15 = 1 }

-- A process whose stack ends in the middle of its page.
abbrev proc : (node pid page : ℕ) → Process
proc node pid page = record zeroed {
  registers = registers;
  rip = 0x7FC0000010;
  rsp = 0x7FC0180000;
  rflags = 2;
  stdout = 1;
  pid = pid;
  page = page;
  node = node;
}

-- Two shells: the one at 100 is runnable on the node 11, the one at 200 on the node 12.
abbrev list : LinkedList
list = record {
  node =
      write
        (write (λ _. record { item = 0; next = 0; prev = 0 }) 11
          (record { item = 100; next = 12; prev = 0 }))
        12 (record { item = 200; next = 0; prev = 11 });
  head = 11;
  tail = 12;
  len = 2;
}

abbrev bucket : (node entry : ℕ) → LinkedList
bucket node entry = record {
  node = λ _. record { item = entry; next = 0; prev = 0 };
  head = node;
  tail = node;
  len = 1;
}

abbrev both : List ℕ
both = 100 ∷ 200 ∷ []

abbrev pub kernel : Kernel
kernel = record {
  proc = write (write (λ _. zeroed) 100 (proc 11 1 0x800000)) 200 (proc 12 2 0xA00000);
  runnable = list;
  roots = none;
  cur = 100;
  pids = write (write (λ _. none) 1 (some (bucket 21 31))) 2 (some (bucket 22 32));
  maps =
      write (write (λ _. record { pid = 0; process = 0 }) 31 (record { pid = 1; process = 100 })) 32
        (record { pid = 2; process = 200 });
  last_pid = 2;
  ram = λ _. 0;
  mapped = 0x800087;
  console = console;
  junk = λ _. record { item = 0; next = 0; prev = 0 };
  app = record { code = 1 ∷ [] };
  sh = record { code = 2 ∷ [] };
  procs = record { code = 3 ∷ [] };
}

pub placed : (n : ℕ) → n ≤ 0x1000 → Placed n (kernel.proc 100)
unfolding Quads pushed
placed n le = record {
  aligned = refl;
  high = omega arith;
  room = omega arith;
  top = omega arith;
  quads = ground arith;
}

kernel-Ready : Ready kernel both
unfolding nodes_of Linked mem first last items
kernel-Ready = record {
  goes = record {
    linked = ((ground arith), refl, refl, refl, (ground arith, refl, refl, refl, tt));
    head = refl;
    tail = refl;
  };
  runs = refl;
  counted = omega arith;
  real = refl;
}

kernel-Sane : Sane kernel both
unfolding Follows nodes_of mem
kernel-Sane = record { ready = kernel-Ready; follows = inr (ground arith, inr refl) }

kernel-Runs : Runs user kernel both
unfolding Runs mem
kernel-Runs = (kernel-Sane, refl)

abbrev frame : Frame
frame = record { ip = 0x7FC0000020; cs = 19; flags = 0x202; sp = 0x7FC0170000 }

start_proc-resumed_example :
    let (cpu, k') = start_proc (kernel.proc 100) kernel in
    (cpu ≡ resumed (kernel.proc 100))
    × (k' ≡ record (map_proc_mem (kernel.proc 100) kernel) { ram = k'.ram })
    × (k'.ram 0 ≡ kernel.ram 0)
start_proc-resumed_example =
    start_proc-resumed 0 (kernel.proc 100) kernel 0 (placed 0 (omega arith)) (inr (omega arith))

abbrev pub line : List ℕ
line = b'h' ∷ b'i' ∷ []

pub found : proc_by_pid 1 kernel ≡ 100
unfolding proc_by_pid find_map get_node_by_condition get_node list_item
found = refl

got_line-HasRead_example :
    let k' = got_line 1 line 13 kernel in
    HasRead line (kernel.proc 100) (start_proc (k'.proc 100) k')
got_line-HasRead_example =
    got_line-HasRead 1 13 100 line kernel found (ground arith) (placed 2 (omega arith))

abbrev ticks : List (Registers × Frame)
ticks = (registers, frame) ∷ (no_registers, frame) ∷ []

ticks_user : FromUser ticks
unfolding FromUser
ticks_user = (omega arith, (omega arith, tt))

turns-round_robin_example : turns ticks kernel ≡ 200 ∷ 100 ∷ []
turns-round_robin_example =
    turns-round_robin ticks kernel [] (200 ∷ []) ticks_user refl kernel-Ready

dispatch-runs_example :
    let p = (dispatch kernel).1.cur in ((p ≡ 0) × (both ≡ [])) ⊎ (mem p both ≡ true)
dispatch-runs_example = dispatch-runs kernel both kernel-Sane

abbrev blocks : Blocks
blocks = record { process = 300; page = 0xC00000; node = 13; child = 14; map = 33; entry = 23 }

abbrev unknown : ℕ → List ℕ
unknown n = []

reads_example :
    Step unknown user kernel both idle
      (syscall unknown registers frame 2 (λ _. blocks) kernel).1
      (without 100 both)
reads_example = Step.reads registers frame 2 (λ _. blocks) kernel both (omega arith) refl

-- The shell at 100 asks for a line.
step-Runs_example :
    Runs idle (syscall unknown registers frame 2 (λ _. blocks) kernel).1 (without 100 both)
step-Runs_example =
    step-Runs unknown user kernel both idle
      (syscall unknown registers frame 2 (λ _. blocks) kernel).1 (without 100 both) reads_example
      kernel-Runs

empty_bucket : NewEntry kernel 33 23 [] []
unfolding mem Absent Holds list_len
empty_bucket = record {
  entry_real = ground arith;
  entry_new = refl;
  map_real = ground arith;
  map_new = refl;
  small = omega arith;
  unused = tt;
  bucket = record { holds = (refl, refl); real = refl };
  counts = omega arith;
}

first_bucket : Bucket kernel 1 (21 ∷ []) (31 ∷ [])
unfolding Holds Linked mem first last items
first_bucket = record {
  holds = record {
    goes = record { linked = (ground arith, refl, refl, refl, tt); head = refl; tail = refl };
    contents = refl;
    counted = omega arith;
  };
  real = refl;
}

second_bucket : Bucket kernel 2 (22 ∷ []) (32 ∷ [])
unfolding Holds Linked mem first last items
second_bucket = record {
  holds = record {
    goes = record { linked = (ground arith, refl, refl, refl, tt); head = refl; tail = refl };
    contents = refl;
    counted = omega arith;
  };
  real = refl;
}

new_map : mem 33 (31 ∷ []) ≡ false
unfolding mem
new_map = refl

create_proc-found_example :
    let (pid, k') = create_proc kernel.app 1 100 2 blocks kernel in
    (pid ≡ add64 kernel.last_pid 1)
    × (proc_by_pid pid k' ≡ 300)
    × (proc_by_pid 1 k' ≡ proc_by_pid 1 kernel)
create_proc-found_example =
    create_proc-found kernel.app 1 100 2 blocks kernel [] [] 1 (21 ∷ []) (31 ∷ []) empty_bucket
      (ground arith) first_bucket new_map

there : mem 32 (32 ∷ []) ≡ true
unfolding mem
there = refl

one_entry : list_len (kernel.pids (2 % pids_sz)) < 2 ^ 64
unfolding list_len
one_entry = omega arith

forget_pid-lost_example :
    (proc_by_pid 2 (forget_pid 2 kernel) ≡ 0)
    × (proc_by_pid 1 (forget_pid 2 kernel) ≡ proc_by_pid 1 kernel)
forget_pid-lost_example =
    forget_pid-lost 2 32 kernel (22 ∷ []) (32 ∷ []) 1 (21 ∷ []) (31 ∷ []) second_bucket there refl
      one_entry first_bucket (ground arith)
