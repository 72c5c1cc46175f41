-- ===== src/Strings/Hex.antt =====
-- The hexadecimal printers of src/lib/strings.h against the value of their digits.
use dar_os.Base.{
  ℕ, ◌+◌, ◌-◌, ◌*◌, ◌/◌, ◌%◌, ◌^◌, ◌<◌, ◌≡◌, refl, ap, ◌∙◌, ◌&&◌, ◌||◌, Bool, true, List, [], ◌∷◌,
  ◌++◌, leb, if◌then◌else◌, arith, length, length-append, ap₂, subst,
}
use dar_os.Strings.Digits.{nibble_to_hex, byte_to_hex, word_to_hex, dword_to_hex, qword_to_hex}

-- The value of a digit from 0 to 9 or from A to F, and of a sequence of them.
unfoldable pub hex_digit : ℕ → ℕ
hex_digit c = if leb b'A' c then c - b'A' + 10 else c - b'0'

unfoldable pub hex_value : ℕ → List ℕ → ℕ
hex_value v [] = v
hex_value v (c ∷ s) = hex_value (v * 16 + hex_digit c) s

-- Whether all are digits of that kind.
unfoldable pub all_hex : List ℕ → Bool
all_hex [] = true
all_hex (c ∷ s) = ((leb b'0' c && leb c b'9') || (leb b'A' c && leb c b'F')) && all_hex s

hex_value-append : (i : ℕ) (s t : List ℕ) → hex_value i (s ++ t) ≡ hex_value (hex_value i s) t
unfolding hex_value
hex_value-append i [] t = refl
hex_value-append i (c ∷ s) t = hex_value-append (i * 16 + hex_digit c) s t

all_hex-append : (s t : List ℕ) → all_hex s ≡ true → all_hex t ≡ true → all_hex (s ++ t) ≡ true
unfolding all_hex
all_hex-append [] t hs ht = ht
all_hex-append (c ∷ s) t hs ht = ground (arith, all_hex-append s t)

-- A printer's string: `n` digits of the value `v`, where `b` numbers have so many digits.
record Prints (s : List ℕ) (n b v : ℕ) : Type 0 where
  pub len : length s ≡ n
  pub hex : all_hex s ≡ true
  pub value : (i : ℕ) → hex_value i s ≡ i * b + v

rescale : (i b v c w : ℕ) → (i * b + v) * c + w ≡ i * (b * c) + (v * c + w)
rescale i b v c w = grind arith

append-Prints :
    (s t : List ℕ) (n m b c v w : ℕ)
    → Prints s n b v
    → Prints t m c w
    → Prints (s ++ t) (n + m) (b * c) (v * c + w)
append-Prints s t n m b c v w p q = record {
  len = length-append s t ∙ ap₂ (λ x y. x + y) p.len q.len;
  hex = all_hex-append s t p.hex q.hex;
  value = λ i.
      hex_value-append i s t
      ∙ ap (λ x. hex_value x t) (p.value i)
      ∙ q.value (i * b + v)
      ∙ rescale i b v c w;
}

byte_to_hex-Prints : (b : ℕ) → b < 2 ^ 8 → Prints (byte_to_hex b) 2 (2 ^ 8) b
unfolding byte_to_hex hex_value all_hex nibble_to_hex hex_digit
byte_to_hex-Prints b lt = record { len = refl; hex = ground arith; value = λ i. ground arith }

word_to_hex-Prints : (w : ℕ) → w < 2 ^ 16 → Prints (word_to_hex w) 4 (2 ^ 16) w
unfolding word_to_hex
word_to_hex-Prints w lt =
    subst (Prints (byte_to_hex (w / 2 ^ 8 % 2 ^ 8) ++ byte_to_hex (w % 2 ^ 8)) 4 (2 ^ 16))
      {x = w / 2 ^ 8 % 2 ^ 8 * 2 ^ 8 + w % 2 ^ 8} {y = w} (omega arith)
      (append-Prints (byte_to_hex (w / 2 ^ 8 % 2 ^ 8)) (byte_to_hex (w % 2 ^ 8)) 2 2 (2 ^ 8) (2 ^ 8)
        (w / 2 ^ 8 % 2 ^ 8) (w % 2 ^ 8) (byte_to_hex-Prints (w / 2 ^ 8 % 2 ^ 8) (omega arith))
        (byte_to_hex-Prints (w % 2 ^ 8) (omega arith)))

dword_to_hex-Prints : (d : ℕ) → d < 2 ^ 32 → Prints (dword_to_hex d) 8 (2 ^ 32) d
unfolding dword_to_hex
dword_to_hex-Prints d lt =
    subst (Prints (word_to_hex (d / 2 ^ 16 % 2 ^ 16) ++ word_to_hex (d % 2 ^ 16)) 8 (2 ^ 32))
      {x = d / 2 ^ 16 % 2 ^ 16 * 2 ^ 16 + d % 2 ^ 16} {y = d} (omega arith)
      (append-Prints (word_to_hex (d / 2 ^ 16 % 2 ^ 16)) (word_to_hex (d % 2 ^ 16)) 4 4 (2 ^ 16)
        (2 ^ 16) (d / 2 ^ 16 % 2 ^ 16) (d % 2 ^ 16)
        (word_to_hex-Prints (d / 2 ^ 16 % 2 ^ 16) (omega arith))
        (word_to_hex-Prints (d % 2 ^ 16) (omega arith)))

qword_to_hex-Prints : (q : ℕ) → q < 2 ^ 64 → Prints (qword_to_hex q) 16 (2 ^ 64) q
unfolding qword_to_hex
qword_to_hex-Prints q lt =
    subst (Prints (dword_to_hex (q / 2 ^ 32 % 2 ^ 32) ++ dword_to_hex (q % 2 ^ 32)) 16 (2 ^ 64))
      {x = q / 2 ^ 32 % 2 ^ 32 * 2 ^ 32 + q % 2 ^ 32} {y = q} (omega arith)
      (append-Prints (dword_to_hex (q / 2 ^ 32 % 2 ^ 32)) (dword_to_hex (q % 2 ^ 32)) 8 8 (2 ^ 32)
        (2 ^ 32) (q / 2 ^ 32 % 2 ^ 32) (q % 2 ^ 32)
        (dword_to_hex-Prints (q / 2 ^ 32 % 2 ^ 32) (omega arith))
        (dword_to_hex-Prints (q % 2 ^ 32) (omega arith)))

-- `qwordToHex` writes 16 digits, from 0 to 9 and from A to F, whose value is the number, for every number
-- of 64 bits.
pub qword_to_hex_lem :
    (q : ℕ)
    → q < 2 ^ 64
    → (length (qword_to_hex q) ≡ 16)
      × (all_hex (qword_to_hex q) ≡ true)
      × (hex_value 0 (qword_to_hex q) ≡ q)
qword_to_hex_lem q lt = let p = qword_to_hex-Prints q lt in (p.len, p.hex, p.value 0 ∙ omega arith)
