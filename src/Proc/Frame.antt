-- ===== src/Proc/Frame.antt =====
-- The frame with which `startProc` of src/kernel/interrupt.c resumes a process.
use Prim.Native.Nat.{bit_or}
use dar_os.Base.{ℕ, ◌+◌, ◌*◌, ◌%◌, ◌^◌, ◌<◌, ◌≤◌, ◌≡◌, refl, ap, ◌∙◌, subst, length, arith, ◌⊎◌}
use dar_os.Proc.{Process, Kernel}
use dar_os.Proc.Memory.{push_all, pop_all}
use dar_os.Proc.Words.{Quads, rev, pop_all-push_all, push_all-other}
use dar_os.Proc.Start.{base, page_flags, map_proc_mem, physical, Cpu, pushed, popped, start_proc}

-- A process has its page, aligned and with an address of 64 bits, and at the end of its stack room for `n` bytes
-- and the frame; what its fields hold fits quadwords.
pub record Placed (n : ℕ) (p : Process) : Type 0 where
  pub aligned : p.page % 2 ^ 21 ≡ 0
  pub high : p.page + 2 ^ 21 < 2 ^ 64
  pub room : base + 160 + n ≤ p.rsp
  pub top : p.rsp ≤ base + 2 ^ 21
  pub quads : Quads (pushed p)

pub physical-page :
    (page a : ℕ)
    → page % 2 ^ 21 ≡ 0
    → base ≤ a
    → a ≤ base + 2 ^ 21
    → physical (page + page_flags) a + base ≡ page + a
unfolding physical
physical-page page a al ge le = omega arith

-- The processor in the process, as the process has it saved.
abbrev pub resumed : Process → Cpu
resumed p = record {
  registers = p.registers;
  ip = p.rip;
  cs = 19;
  flags = bit_or p.rflags 0x200;
  sp = p.rsp;
  ss = 27;
}

popped-rev : (p : Process) → popped (rev (pushed p)) ≡ resumed p
unfolding popped rev pushed
popped-rev p = refl

length-pushed : (p : Process) → length (pushed p) ≡ 20
unfolding pushed
length-pushed p = refl

-- A process that is placed is resumed with its own registers, instruction pointer and stack pointer, with its
-- flags and interrupts on, in the segments of level 3; the page behind its addresses is its own, and of
-- the memory a byte outside the 160 below its stack pointer is as it was.
pub start_proc-resumed :
    (n : ℕ) (p : Process) (k : Kernel) (j : ℕ)
    → Placed n p
    → (p.page + p.rsp ≤ j + base) ⊎ (j + base + 160 < p.page + p.rsp)
    → let (cpu, k') = start_proc p k in
      (cpu ≡ resumed p) × (k' ≡ record (map_proc_mem p k) { ram = k'.ram }) × (k'.ram j ≡ k.ram j)
unfolding start_proc map_proc_mem
start_proc-resumed n p k j placed out =
    let sp = physical (p.page + page_flags) p.rsp in
    let at = physical-page p.page p.rsp placed.aligned (omega (arith, placed.room)) placed.top in
    let high = placed.high in
    let room = placed.room in
    let top = placed.top in
    let len = length-pushed p in
    let low : 8 * length (pushed p) ≤ sp = omega arith in
    let lt : sp < 2 ^ 64 = omega arith in
    let back = pop_all-push_all (pushed p) sp k.ram low lt placed.quads in
    let (sp', ram') = push_all (pushed p) sp k.ram in
    let twenty = subst (λ m. (pop_all m sp' ram').0 ≡ rev (pushed p)) len back in
    (
      ap popped twenty ∙ popped-rev p,
      refl,
      push_all-other (pushed p) sp k.ram j low lt (ground arith),
    )
