-- ===== src/Strings/Tests.antt =====
-- Runs of src/lib/strings.c, and the theorems about it at concrete strings.
use dar_os.Base.{ℕ, ◌≡◌, ◌≢◌, ◌<◌, refl, true, false, Option, some, List, [], ◌∷◌, arith, length}
use dar_os.Strings.Digits.{dec_digits, skip_zeros, dec_string, dstoui, dstoui_from}
use dar_os.Strings.Decimal.{dstoui-dec_string}
use dar_os.Strings.Format.{
  num, Fmt, room, conversion, advance, repeat, trim, fit, emit, directive, take, begin, step,
  may_end, run, vsprintf, sprintf,
}
use dar_os.Strings.Bounds.{given, vsprintf-within}
use dar_os.Strings.Compare.{is_string}
use dar_os.Strings.Printing.{is_plain}

-- "%p02u:%p 4u", which prints the clock's minutes, with a width of 4 behind.
abbrev clock : List ℕ
clock = b'%' ∷ b'p' ∷ b'0' ∷ b'2' ∷ b'u' ∷ b':' ∷ b'%' ∷ b'p' ∷ b' ' ∷ b'4' ∷ b'u' ∷ []

sprintf-clock :
    sprintf 0 clock (num 7 ∷ num 42 ∷ [])
    ≡ some (b'0' ∷ b'7' ∷ b':' ∷ b' ' ∷ b' ' ∷ b'4' ∷ b'2' ∷ [])
unfolding sprintf vsprintf run step begin take room directive conversion emit fit trim repeat
    advance may_end dec_digits skip_zeros dstoui dstoui_from
sprintf-clock = refl

dstoui-dec_string_example : dstoui (dec_string 18446744073709551615) ≡ 18446744073709551615
dstoui-dec_string_example = dstoui-dec_string 18446744073709551615 (omega arith)

-- A buffer of 8 bytes, in which the text and the number do not fit.
abbrev short : Fmt
short = record { out = b'a' ∷ b'b' ∷ []; cap = 8; dyn = false; padw = 0; padc = 0; args = [] }

vsprintf-short : vsprintf (some 8) 0 (b'a' ∷ b'b' ∷ b'%' ∷ b'u' ∷ []) (num 123456 ∷ []) ≡ some short
unfolding vsprintf run step begin take room directive conversion emit fit trim repeat advance
    may_end dec_digits skip_zeros
vsprintf-short = refl

abbrev eight : Option ℕ
eight = some 8

abbrev zero_cap : Option ℕ
zero_cap = some 0

eight_ne : eight ≢ zero_cap
eight_ne e = cc

vsprintf-within_example : (length short.out < 8) × (8 ≡ given (some 8) 8)
vsprintf-within_example =
    vsprintf-within (some 8) 0 (b'a' ∷ b'b' ∷ b'%' ∷ b'u' ∷ []) (num 123456 ∷ []) short eight_ne
      vsprintf-short

abbrev ok : List ℕ
ok = b'o' ∷ b'k' ∷ []

abbrev on : List ℕ
on = b'o' ∷ b'n' ∷ []

ok-string : is_string ok ≡ true
unfolding is_string
ok-string = refl

on-string : is_string on ≡ true
unfolding is_string
on-string = refl

plain-a : is_plain (b'a' ∷ b'=' ∷ []) ≡ true
unfolding is_plain
plain-a = refl

plain-end : is_plain (b';' ∷ []) ≡ true
unfolding is_plain
plain-end = refl
