-- ===== src/Proc/Memory.antt =====
-- Memory in bytes: quadwords, least byte first, and the stack, as the code of src/kernel/interrupt.c and the
-- processor's push and pop use them.
use dar_os.Base.{
  ℕ, zero, suc, ◌+◌, ◌*◌, ◌/◌, ◌%◌, ◌^◌, ◌==◌, if◌then◌else◌, write, List, [], ◌∷◌, sub64,
}

unfoldable pub read_word : (n a : ℕ) → (ℕ → ℕ) → ℕ
read_word zero a ram = 0
read_word (suc n) a ram = ram a + 256 * read_word n (a + 1) ram

unfoldable pub write_word : (n a v : ℕ) → (ℕ → ℕ) → ℕ → ℕ
write_word zero a v ram = ram
write_word (suc n) a v ram = write_word n (a + 1) (v / 256) (write ram a (v % 256))

abbrev pub read_quad : ℕ → (ℕ → ℕ) → ℕ
read_quad a ram = read_word 8 a ram

abbrev pub write_quad : (a v : ℕ) → (ℕ → ℕ) → ℕ → ℕ
write_quad a v ram = write_word 8 a v ram

-- `*--sp = v` for each of the values in turn, with `sp` a pointer to quadwords: the stack pointer and the
-- memory.
unfoldable pub push_all : List ℕ → (sp : ℕ) → (ℕ → ℕ) → ℕ × (ℕ → ℕ)
push_all [] sp ram = (sp, ram)
push_all (v ∷ vs) sp ram = let sp' = sub64 sp 8 in push_all vs sp' (write_quad sp' v ram)

-- `n` times `pop`: the values and the stack pointer.
unfoldable pub pop_all : (n sp : ℕ) → (ℕ → ℕ) → List ℕ × ℕ
pop_all zero sp ram = ([], sp)
pop_all (suc n) sp ram =
    let (vs, sp') = pop_all n ((sp + 8) % 2 ^ 64) ram in (read_quad sp ram ∷ vs, sp')

-- `n` bytes from an address.
unfoldable pub bytes_at : (n a : ℕ) → (ℕ → ℕ) → List ℕ
bytes_at zero a ram = []
bytes_at (suc n) a ram = ram a ∷ bytes_at n (a + 1) ram

-- `for (i = 0; i < n; i++) s[i] = l[i]`.
unfoldable pub copy_bytes : List ℕ → (a : ℕ) → (ℕ → ℕ) → ℕ → ℕ
copy_bytes [] a ram = ram
copy_bytes (x ∷ xs) a ram = copy_bytes xs (a + 1) (write ram a x)

-- The string at an address: the bytes before the first null, of which there is one within `fuel`.
unfoldable pub string_at : (fuel a : ℕ) → (ℕ → ℕ) → List ℕ
string_at zero a ram = []
string_at (suc fuel) a ram =
    let rest = string_at fuel (a + 1) ram in if ram a == 0 then [] else ram a ∷ rest
