-- ===== src/Proc/Start.antt =====
-- `mapProcMem` and `startProc` of src/kernel/interrupt.c: how a process gets the processor.
use Prim.Native.Nat.{bit_or}
use dar_os.Base.{ℕ, ◌+◌, ◌*◌, ◌/◌, ◌^◌, List, [], ◌∷◌, nth_or, sub64}
use dar_os.Proc.{Registers, Process, Kernel}
use dar_os.Proc.Memory.{push_all, pop_all}

-- Where the page of the process that runs is in its address space.
abbrev pub base : ℕ
base = 0x7FC0000000

-- PT_PRESENT | PT_WRITABLE | PT_HUGE | PT_USERMODE.
abbrev pub page_flags : ℕ
page_flags = 0x87

-- The page is a multiple of 2 MB, so that `|` adds the flags.
unfoldable pub map_proc_mem : Process → Kernel → Kernel
map_proc_mem p k = record k { mapped = p.page + page_flags }

-- The physical address behind one of a process, within its page of 2 MB.
unfoldable pub physical : (mapped a : ℕ) → ℕ
physical mapped a = mapped / 2 ^ 21 * 2 ^ 21 + sub64 a base

-- The processor in a process.
pub record Cpu : Type 0 where
  pub registers : Registers
  pub ip : ℕ
  pub cs : ℕ
  pub flags : ℕ
  pub sp : ℕ
  pub ss : ℕ

-- What `startProc` pushes, in that order.
unfoldable pub pushed : Process → List ℕ
pushed p =
    let r = p.registers in
    27
    ∷ p.rsp
    ∷ bit_or p.rflags 0x200
    ∷ 19
    ∷ p.rip
    ∷ r.rax
    ∷ r.rbx
    ∷ r.rcx
    ∷ r.rdx
    ∷ r.rsi
    ∷ r.rdi
    ∷ r.rbp
    ∷ r.r8
    ∷ r.r9
    ∷ r.r10
    ∷ r.r11
    ∷ r.r12
    ∷ r.r13
    ∷ r.r14
    ∷ r.r15
    ∷ []

-- The processor after popping these values into r15, r14, .. rax, and by `iretq`, which takes the address to go
-- on at, the code segment, the flags, the stack pointer and the stack segment.
unfoldable pub popped : List ℕ → Cpu
popped vs =
    let at : ℕ → ℕ = nth_or vs 0 in
    record {
      registers = record {
        r15 = at 0;
        r14 = at 1;
        r13 = at 2;
        r12 = at 3;
        r11 = at 4;
        r10 = at 5;
        r9 = at 6;
        r8 = at 7;
        rbp = at 8;
        rdi = at 9;
        rsi = at 10;
        rdx = at 11;
        rcx = at 12;
        rbx = at 13;
        rax = at 14;
      };
      ip = at 15;
      cs = at 16;
      flags = at 17;
      sp = at 18;
      ss = at 19;
    }

-- The pushes go through the process's own address space; a pointer into it is handled here by the physical
-- address behind it.
unfoldable pub start_proc : Process → Kernel → Cpu × Kernel
start_proc p k =
    let k' = map_proc_mem p k in
    let (sp, ram) = push_all (pushed p) (physical k'.mapped p.rsp) k'.ram in
    (popped (pop_all 20 sp ram).0, record k' { ram = ram })
