-- ===== src/Strings/Digits.antt =====
-- Numbers and digits: the cases `u` and `h` of `M_vsprintf`, and `dstoui`, of src/lib/strings.c, and the
-- hexadecimal printers of src/lib/strings.h.
use dar_os.Base.{
  ℕ, zero, suc, ◌+◌, ◌-◌, ◌*◌, ◌/◌, ◌%◌, ◌^◌, Bool, ◌&&◌, List, [], ◌∷◌, ◌++◌, ◌==◌, ltb, leb,
  if◌then◌else◌,
}

abbrev pub one_e_19 : ℕ
one_e_19 = 10000000000000000000

-- `for (j = 0; j < n; j++) { d = u / e; buf[j] = d + '0'; u = u % e; e /= 10; }`
unfoldable pub dec_digits : (n e u : ℕ) → List ℕ
dec_digits zero e u = []
dec_digits (suc n) e u = (u / e + b'0') ∷ dec_digits n (e / 10) (u % e)

-- `while (*t == '0' && *(t + 1) != 0) t++`
unfoldable pub skip_zeros : List ℕ → List ℕ
skip_zeros [] = []
skip_zeros (c ∷ []) = c ∷ []
skip_zeros (c ∷ d ∷ t) = let rest = skip_zeros (d ∷ t) in if c == b'0' then rest else c ∷ d ∷ t

-- `%u` without padding.
unfoldable pub dec_string : ℕ → List ℕ
dec_string u = skip_zeros (dec_digits 20 one_e_19 u)

abbrev pub is_digit : ℕ → Bool
is_digit c = leb b'0' c && leb c b'9'

-- The loop of `dstoui`, with what it has read so far.
unfoldable pub dstoui_from : ℕ → List ℕ → ℕ
dstoui_from i [] = i
dstoui_from i (c ∷ s) =
    let rest = dstoui_from ((i * 10 + (c - b'0')) % 2 ^ 64) s in if is_digit c then rest else i

unfoldable pub dstoui : List ℕ → ℕ
dstoui s = dstoui_from 0 s

-- The macro `nibbleToHex`, on a nibble to which '0' has been added.
unfoldable pub nibble_to_hex : ℕ → ℕ
nibble_to_hex n = if ltb b'9' n then n + b'A' - b'9' - 1 else n

unfoldable pub byte_to_hex : ℕ → List ℕ
byte_to_hex b = nibble_to_hex (b / 2 ^ 4 + b'0') ∷ nibble_to_hex (b % 2 ^ 4 + b'0') ∷ []

unfoldable pub word_to_hex : ℕ → List ℕ
word_to_hex w = byte_to_hex (w / 2 ^ 8 % 2 ^ 8) ++ byte_to_hex (w % 2 ^ 8)

unfoldable pub dword_to_hex : ℕ → List ℕ
dword_to_hex d = word_to_hex (d / 2 ^ 16 % 2 ^ 16) ++ word_to_hex (d % 2 ^ 16)

unfoldable pub qword_to_hex : ℕ → List ℕ
qword_to_hex q = dword_to_hex (q / 2 ^ 32 % 2 ^ 32) ++ dword_to_hex (q % 2 ^ 32)
