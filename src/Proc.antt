-- ===== src/Proc.antt =====
-- The state of the processes of src/kernel/interrupt.c.
--
-- A process, a node of a list and an entry of the table are addresses in stores that are functions; 0 is
-- the null pointer. `malloc` and `palloc` are in the model of src/lib/malloc.c: an operation that calls
-- them takes the addresses that they return. `free` changes nothing in what it gives back.
pub mod Tests
pub mod Memory
pub mod Words
pub mod Frame
pub mod Lines
pub mod Ready
pub mod Blocked
pub mod Turns
pub mod Robin
pub mod Follows
pub mod Sane
pub mod Made
pub mod Steps
pub mod Answers
pub mod Cases
pub mod Runs
pub mod Lookup
pub mod Pids
pub mod Forget
pub mod Start
pub mod Table
pub mod Wake
pub mod Calls
use dar_os.Base.{ℕ, List, Option, none, write}
use dar_os.LinkedList.{Node, LinkedList}
use dar_os.Console.Screen.{Console}

-- The first fifteen quadwords of `struct process`, as `regs` of src/kernel/bootloader.asm has them too: the
-- loops over the fifteen copy this record.
pub record Registers : Type 0 where
  pub rax : ℕ
  pub rbx : ℕ
  pub rcx : ℕ
  pub rdx : ℕ
  pub rsi : ℕ
  pub rdi : ℕ
  pub rbp : ℕ
  pub r8 : ℕ
  pub r9 : ℕ
  pub r10 : ℕ
  pub r11 : ℕ
  pub r12 : ℕ
  pub r13 : ℕ
  pub r14 : ℕ
  pub r15 : ℕ

pub record Process : Type 0 where
  pub registers : Registers
  pub rip : ℕ
  pub rsp : ℕ
  pub rflags : ℕ
  pub stdout : ℕ
  pub pid : ℕ
  pub page : ℕ
  pub node : ℕ
  pub waiting : ℕ
  pub parent : ℕ
  pub children : Option LinkedList

abbrev pub no_registers : Registers
no_registers = record {
  rax = 0;
  rbx = 0;
  rcx = 0;
  rdx = 0;
  rsi = 0;
  rdi = 0;
  rbp = 0;
  r8 = 0;
  r9 = 0;
  r10 = 0;
  r11 = 0;
  r12 = 0;
  r13 = 0;
  r14 = 0;
  r15 = 0;
}

-- What `mallocz` gives for a process.
abbrev pub zeroed : Process
zeroed = record {
  registers = no_registers;
  rip = 0;
  rsp = 0;
  rflags = 0;
  stdout = 0;
  pid = 0;
  page = 0;
  node = 0;
  waiting = 0;
  parent = 0;
  children = none;
}

pub record PidMap : Type 0 where
  pub pid : ℕ
  pub process : ℕ

pub record App : Type 0 where
  pub code : List ℕ

-- `ram` is the memory in bytes, by physical address, and `mapped` the entry of the page table behind the
-- addresses of a process; `cur` is curProc. `junk` is what memory from `malloc` holds, as nodes. The
-- list `runnable` is there from `init_interrupts` on.
pub record Kernel : Type 0 where
  pub proc : ℕ → Process
  pub runnable : LinkedList
  pub roots : Option LinkedList
  pub cur : ℕ
  pub pids : ℕ → Option LinkedList
  pub maps : ℕ → PidMap
  pub last_pid : ℕ
  pub ram : ℕ → ℕ
  pub mapped : ℕ
  pub console : Console
  pub junk : ℕ → Node
  pub app : App
  pub sh : App
  pub procs : App

abbrev pub pids_sz : ℕ
pids_sz = 1000

-- What `malloc` and `palloc` return in one operation that makes a process or wakes one.
pub record Blocks : Type 0 where
  pub process : ℕ
  pub page : ℕ
  pub node : ℕ
  pub child : ℕ
  pub map : ℕ
  pub entry : ℕ

abbrev pub set_proc : ℕ → Process → Kernel → Kernel
set_proc p v k = record k { proc = write k.proc p v }
