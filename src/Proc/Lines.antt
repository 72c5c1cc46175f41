-- ===== src/Proc/Lines.antt =====
-- A line from the console to the process that reads it: `gotLine` and then `startProc` of
-- src/kernel/interrupt.c.
use dar_os.Base.{
  ℕ, ◌+◌, ◌*◌, ◌<◌, ◌≤◌, ◌≡◌, ◌≢◌, refl, ap, ◌∙◌, subst, sym, ◌==◌, List, length, arith, true,
  false, add64, sub64, inl, inr,
}
use dar_os.Proc.{Process, Kernel, set_proc}
use dar_os.Proc.Memory.{bytes_at, copy_bytes}
use dar_os.Proc.Words.{Quads, bytes_at-copy_bytes, bytes_at-agree}
use dar_os.Proc.Start.{base, page_flags, physical, map_proc_mem, Cpu, pushed, start_proc}
use dar_os.Proc.Table.{proc_by_pid, make_runnable}
use dar_os.Proc.Wake.{with_line, got_line}
use dar_os.Proc.Frame.{Placed, start_proc-resumed, physical-page}

-- The state with the line, before the reader is made runnable.
abbrev pub with_bytes : (q : ℕ) → List ℕ → Kernel → Kernel
with_bytes q l k =
    let v = with_line l (k.proc q) in
    record (set_proc q v k) { ram = copy_bytes l (sub64 (add64 v.page v.registers.rbx) base) k.ram }

pub got_line-known :
    (pid n q : ℕ) (l : List ℕ) (k : Kernel)
    → proc_by_pid pid k ≡ q
    → q ≢ 0
    → got_line pid l n k ≡ make_runnable n q (with_bytes q l k)
unfolding got_line
got_line-known pid n q l k e ne = let nz : (q == 0) ≡ false = ground arith in rw (e, nz) refl

made-proc :
    (n q : ℕ) (l : List ℕ) (k : Kernel)
    → (make_runnable n q (with_bytes q l k)).proc q ≡ record (with_line l (k.proc q)) { node = n }
unfolding make_runnable
made-proc n q l k = let same : (q == q) ≡ true = ground arith in rw same refl

made-ram :
    (n q : ℕ) (l : List ℕ) (k : Kernel)
    → let p = k.proc q in
      (make_runnable n q (with_bytes q l k)).ram
      ≡ copy_bytes l (sub64 (add64 p.page (with_line l p).registers.rbx) base) k.ram
unfolding make_runnable with_line
made-ram n q l k = refl

-- Where the line is.
line-place :
    (p : Process) (l : List ℕ)
    → Placed (length l) p
    → let rbx = (with_line l p).registers.rbx in
      (rbx + length l + 160 ≡ p.rsp)
      × (physical (p.page + page_flags) rbx + base ≡ p.page + rbx)
      × (sub64 (add64 p.page rbx) base ≡ physical (p.page + page_flags) rbx)
unfolding with_line
line-place p l placed =
    let room = placed.room in
    let top = placed.top in
    let high = placed.high in
    let rbx = sub64 (sub64 p.rsp (length l)) (20 * 8) in
    let end : rbx + length l + 160 ≡ p.rsp = omega arith in
    let at = physical-page p.page rbx placed.aligned (omega arith) (omega arith) in
    (end, at, omega arith)

with_line-Placed :
    (n : ℕ) (p : Process) (l : List ℕ)
    → Placed (length l) p
    → Placed (length l) (record (with_line l p) { node = n })
unfolding with_line pushed Quads
with_line-Placed n p l placed =
    let (a, (b, (c, (d, (e, (f, (g, rest))))))) = placed.quads in
    let room = placed.room in
    let top = placed.top in
    record {
      aligned = placed.aligned;
      high = placed.high;
      room = placed.room;
      top = placed.top;
      quads = (a, (b, (c, (d, (e, (omega arith, (omega arith, rest)))))));
    }

-- The processor is in a process that has read the line: its length is in rax, in rbx an address where its bytes
-- are, which ends 160 bytes below the stack pointer; all else is as the process has it.
pub record HasRead (l : List ℕ) (p : Process) (r : Cpu × Kernel) : Type 0 where
  pub registers : r.0.registers ≡ record p.registers { rax = length l; rbx = r.0.registers.rbx }
  pub ip : r.0.ip ≡ p.rip
  pub sp : r.0.sp ≡ p.rsp
  pub below : r.0.registers.rbx + length l + 160 ≡ p.rsp
  pub bytes : bytes_at (length l) (physical r.1.mapped r.0.registers.rbx) r.1.ram ≡ l

with_line-HasRead :
    (n : ℕ) (l : List ℕ) (p : Process) (k : Kernel) (ram : ℕ → ℕ)
    → Placed (length l) p
    → k.ram ≡ copy_bytes l (sub64 (add64 p.page (with_line l p).registers.rbx) base) ram
    → HasRead l p (start_proc (record (with_line l p) { node = n }) k)
unfolding with_line map_proc_mem
with_line-HasRead n l p k ram placed stored =
    let v : Process = record (with_line l p) { node = n } in
    let placed' = with_line-Placed n p l placed in
    let (end, at, there) = line-place p l placed in
    let rbx = (with_line l p).registers.rbx in
    let a = physical (p.page + page_flags) rbx in
    let b : p.page + p.rsp ≤ p.page + p.rsp + base = omega arith in
    let (cpu, state, same) = start_proc-resumed (length l) v k (p.page + p.rsp) placed' (inl b) in
    let apart : (j : ℕ) → j < a + length l → j + base + 160 < p.page + p.rsp =
      λ j lt. omega arith in
    let kept : bytes_at (length l) a (start_proc v k).1.ram ≡ bytes_at (length l) a k.ram =
      bytes_at-agree (length l) a k.ram (start_proc v k).1.ram
        (λ j ge lt. (start_proc-resumed (length l) v k j placed' (inr (apart j lt))).2) in
    let copied : bytes_at (length l) a k.ram ≡ l =
      rw (stored, there) (bytes_at-copy_bytes l a ram) in
    let at_rbx : (start_proc v k).0.registers.rbx ≡ rbx = ap (λ c. c.registers.rbx) cpu in
    let mapped : (start_proc v k).1.mapped ≡ p.page + page_flags = ap (λ s. s.mapped) state in
    record {
      registers =
          ap (λ c. c.registers) cpu
          ∙ ap (λ b. record p.registers { rax = length l; rbx = b }) (sym at_rbx);
      ip = ap (λ c. c.ip) cpu;
      sp = ap (λ c. c.sp) cpu;
      below = rw at_rbx end;
      bytes = rw (mapped, at_rbx) (kept ∙ copied);
    }

-- A process with this pid that had been waiting for a line and is given it has read it when it is resumed: the
-- frame that resumes it has not overwritten the line. The process is placed with room for the line.
pub got_line-HasRead :
    (pid n q : ℕ) (l : List ℕ) (k : Kernel)
    → proc_by_pid pid k ≡ q
    → q ≢ 0
    → Placed (length l) (k.proc q)
    → let k' = got_line pid l n k in HasRead l (k.proc q) (start_proc (k'.proc q) k')
got_line-HasRead pid n q l k e ne placed =
    let k' = make_runnable n q (with_bytes q l k) in
    rw (got_line-known pid n q l k e ne) (
      subst (λ v. HasRead l (k.proc q) (start_proc v k')) (sym (made-proc n q l k))
        (with_line-HasRead n l (k.proc q) k' k.ram placed (made-ram n q l k)))
