-- ===== src/Userspace/Reading.antt =====
-- A line on its way from the kernel into a string of the program that reads it: `M_readline` of src/userspace/sys.c behind
-- `gotLine` and `startProc` of src/kernel/interrupt.c.
use dar_os.Base.{
  ℕ, zero, suc, ◌+◌, ◌<◌, ◌≤◌, ◌≡◌, refl, ap, ap₂, ◌∙◌, ◌==◌, true, false, write, List, [], ◌∷◌,
  ◌++◌, length, arith,
}
use dar_os.Proc.{Process, Kernel}
use dar_os.Proc.Memory.{bytes_at}
use dar_os.Proc.Words.{bytes_at-agree}
use dar_os.Proc.Start.{Cpu, physical}
use dar_os.Proc.Lines.{HasRead}
use dar_os.Userspace.{copy_line, take_line}

copy_line-other : (len l s : ℕ) (ram : ℕ → ℕ) (j : ℕ) → j < s → copy_line len l s ram j ≡ ram j
unfolding copy_line
copy_line-other zero l s ram j lt = refl
copy_line-other (suc len) l s ram j lt =
    let ne : (j == s) ≡ false = ground arith in
    copy_line-other len (l + 1) (s + 1) (write ram s (ram l)) j (omega arith) ∙ rw ne refl

copy_line-bytes :
    (len l s : ℕ) (ram : ℕ → ℕ)
    → l + len ≤ s
    → bytes_at len s (copy_line len l s ram) ≡ bytes_at len l ram
unfolding copy_line bytes_at
copy_line-bytes zero l s ram below = refl
copy_line-bytes (suc len) l s ram below =
    let ram' = write ram s (ram l) in
    let here : (s == s) ≡ true = ground arith in
    let first : ram' s ≡ ram l = rw here refl in
    let kept : (j : ℕ) → l + 1 ≤ j → j < l + 1 + len → ram' j ≡ ram j =
      λ j ge lt. let ne : (j == s) ≡ false = ground arith in rw ne refl in
    ap₂ (λ x xs. x ∷ xs) (copy_line-other len (l + 1) (s + 1) ram' s (omega arith) ∙ first)
      (copy_line-bytes len (l + 1) (s + 1) ram' (omega arith)
        ∙ bytes_at-agree len (l + 1) ram ram' kept)

bytes_at-snoc :
    (n a : ℕ) (ram : ℕ → ℕ) → bytes_at (suc n) a ram ≡ bytes_at n a ram ++ (ram (a + n) ∷ [])
unfolding bytes_at
bytes_at-snoc zero a ram = let e : a ≡ a + 0 = omega arith in ap (λ j. ram j ∷ []) e
bytes_at-snoc (suc n) a ram =
    let e : a + 1 + n ≡ a + suc n = omega arith in
    ap (λ xs. ram a ∷ xs)
      (bytes_at-snoc n (a + 1) ram ∙ ap (λ j. bytes_at n (a + 1) ram ++ (ram j ∷ [])) e)

-- A program that has read a line gets it from `M_readline` as a string of its own, the line's bytes and a terminator, in
-- memory that lies behind the line's, as that from its heap does.
pub take_line-line :
    (l : List ℕ) (p : Process) (r : Cpu × Kernel) (s : ℕ)
    → HasRead l p r
    → physical r.1.mapped r.0.registers.rbx + length l ≤ s
    → let regs = r.0.registers in
      bytes_at (suc (length l)) s (take_line regs.rax (physical r.1.mapped regs.rbx) s r.1.ram)
      ≡ l ++ (0 ∷ [])
unfolding take_line
take_line-line l p r s read below =
    let regs = r.0.registers in
    let a = physical r.1.mapped regs.rbx in
    let len = length l in
    let rax : regs.rax ≡ len = ap (λ x. x.rax) read.registers in
    let copied = copy_line len a s r.1.ram in
    let ram = write copied (s + len) 0 in
    let here : (s + len == s + len) ≡ true = ground arith in
    let end : ram (s + len) ≡ 0 = rw here refl in
    let kept : (j : ℕ) → s ≤ j → j < s + len → ram j ≡ copied j =
      λ j ge lt. let ne : (j == s + len) ≡ false = ground arith in rw ne refl in
    let line : bytes_at len s ram ≡ l =
      bytes_at-agree len s copied ram kept ∙ copy_line-bytes len a s r.1.ram below ∙ read.bytes in
    ap (λ n. bytes_at (suc len) s (take_line n a s r.1.ram)) rax
    ∙ bytes_at-snoc len s ram
    ∙ ap₂ (λ xs x. xs ++ (x ∷ [])) line end
