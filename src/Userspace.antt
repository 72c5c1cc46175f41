-- ===== src/Userspace.antt =====
-- The programs of src/userspace: how the shell (sh.c) takes a line, how a program reads one (sys.c), and the numbers of
-- app.c.
pub mod Numbers
pub mod Reading
mod Tests
use dar_os.Base.{
  ℕ, zero, suc, ◌+◌, ◌==◌, ltb, Bool, true, false, if◌then◌else◌, Option, none, some, add64, write,
  List, [], ◌∷◌, length,
}
use dar_os.Strings.Compare.{Diff, same, differ, strcmp, head}

-- What the shell does with a line: nothing, end, say something helpful, or run a program and wait for it if there is one.
pub data Command : Type 0 where
  nothing : Command
  exits : Command
  helps : Command
  runs : (name : List ℕ) → Command

abbrev is_same : Diff → Bool
is_same same = true
is_same (differ c d) = false

unfoldable pub process_input : List ℕ → Command
process_input l =
    if head l == 0
    then nothing
    else if is_same (strcmp l (b'e' ∷ b'x' ∷ b'i' ∷ b't' ∷ []))
    then exits
    else if is_same (strcmp l (b'h' ∷ b'e' ∷ b'l' ∷ b'p' ∷ []))
    then helps
    else runs l

-- `for (i = 0; i < len; i++) s[i] = l[i]` of `M_readline`.
unfoldable pub copy_line : (len l s : ℕ) → (ℕ → ℕ) → ℕ → ℕ
copy_line zero l s ram = ram
copy_line (suc len) l s ram = copy_line len (l + 1) (s + 1) (write ram s (ram l))

-- `M_readline` behind the system call, which leaves the line's length in rax and its address in rbx; `s` is what `malloc`
-- returns.
unfoldable pub take_line : (rax rbx s : ℕ) → (ℕ → ℕ) → ℕ → ℕ
take_line rax rbx s ram = write (copy_line rax rbx s ram) (s + rax) 0

-- `fibNext` on `a` and `b`.
unfoldable pub fib_next : ℕ × ℕ → ℕ × ℕ
fib_next (a, b) = (b, add64 b a)

abbrev pub fib_bound : ℕ
fib_bound = 10000000000000000000

-- The first loop of app.c; none if it has not ended in `fuel` rounds.
unfoldable pub fib_loop : (fuel : ℕ) → ℕ × ℕ → Option (ℕ × ℕ)
fib_loop zero s = none
fib_loop (suc fuel) s =
    let rest = fib_loop fuel (fib_next s) in if ltb s.1 fib_bound then rest else some s
