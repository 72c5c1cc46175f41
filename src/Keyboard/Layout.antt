-- ===== src/Keyboard/Layout.antt =====
-- The tables of the switches of `keyScanned` in src/kernel/keyboard.c: what each scan code's key is.
use dar_os.Base.{ℕ, Option, none, some, List, [], ◌∷◌, ◌==◌, if◌then◌else◌}
use dar_os.Console.Keys.{
  key_up, key_down, key_left, key_right, key_pg_up, key_pg_down, key_home, key_end, key_ins,
  key_del,
}

-- A key with one character, with another one under shift, or a letter, which caps lock changes too.
pub data Cap : Type 0 where
  fixed : (c : ℕ) → Cap
  shifty : (c s : ℕ) → Cap
  capsy : (c s : ℕ) → Cap

abbrev pub extended_keys : List (ℕ × Cap)
extended_keys =
    (0x35, fixed b'/')
    ∷ (0x47, fixed key_home)
    ∷ (0x48, fixed key_up)
    ∷ (0x49, fixed key_pg_up)
    ∷ (0x4b, fixed key_left)
    ∷ (0x4d, fixed key_right)
    ∷ (0x4f, fixed key_end)
    ∷ (0x50, fixed key_down)
    ∷ (0x51, fixed key_pg_down)
    ∷ (0x52, fixed key_ins)
    ∷ (0x53, fixed key_del)
    ∷ []

-- 8 is the backspace, 39 the quote and 34 the double quote.
abbrev pub main_keys : List (ℕ × Cap)
main_keys =
    (0x02, shifty b'1' b'!')
    ∷ (0x03, shifty b'2' b'@')
    ∷ (0x04, shifty b'3' b'#')
    ∷ (0x05, shifty b'4' b'$')
    ∷ (0x06, shifty b'5' b'%')
    ∷ (0x07, shifty b'6' b'^')
    ∷ (0x08, shifty b'7' b'&')
    ∷ (0x09, shifty b'8' b'*')
    ∷ (0x0a, shifty b'9' b'(')
    ∷ (0x0b, shifty b'0' b')')
    ∷ (0x0c, shifty b'-' b'_')
    ∷ (0x0d, shifty b'=' b'+')
    ∷ (0x10, capsy b'q' b'Q')
    ∷ (0x11, capsy b'w' b'W')
    ∷ (0x12, capsy b'e' b'E')
    ∷ (0x13, capsy b'r' b'R')
    ∷ (0x14, capsy b't' b'T')
    ∷ (0x15, capsy b'y' b'Y')
    ∷ (0x16, capsy b'u' b'U')
    ∷ (0x17, capsy b'i' b'I')
    ∷ (0x18, capsy b'o' b'O')
    ∷ (0x19, capsy b'p' b'P')
    ∷ (0x1a, shifty b'[' b'{')
    ∷ (0x1b, shifty b']' b'}')
    ∷ (0x0e, fixed 8)
    ∷ (0x1c, fixed b'\n')
    ∷ (0x1e, capsy b'a' b'A')
    ∷ (0x1f, capsy b's' b'S')
    ∷ (0x20, capsy b'd' b'D')
    ∷ (0x21, capsy b'f' b'F')
    ∷ (0x22, capsy b'g' b'G')
    ∷ (0x23, capsy b'h' b'H')
    ∷ (0x24, capsy b'j' b'J')
    ∷ (0x25, capsy b'k' b'K')
    ∷ (0x26, capsy b'l' b'L')
    ∷ (0x27, shifty b';' b':')
    ∷ (0x28, shifty 39 34)
    ∷ (0x29, shifty b'`' b'~')
    ∷ (0x2c, capsy b'z' b'Z')
    ∷ (0x2d, capsy b'x' b'X')
    ∷ (0x2e, capsy b'c' b'C')
    ∷ (0x2f, capsy b'v' b'V')
    ∷ (0x30, capsy b'b' b'B')
    ∷ (0x31, capsy b'n' b'N')
    ∷ (0x32, capsy b'm' b'M')
    ∷ (0x33, shifty b',' b'<')
    ∷ (0x34, shifty b'.' b'>')
    ∷ (0x35, shifty b'/' b'?')
    ∷ (0x39, shifty b' ' b' ')
    ∷ (0x37, fixed b'*')
    ∷ (0x47, fixed b'7')
    ∷ (0x48, fixed b'8')
    ∷ (0x49, fixed b'9')
    ∷ (0x4a, fixed b'-')
    ∷ (0x4b, fixed b'4')
    ∷ (0x4c, fixed b'5')
    ∷ (0x4d, fixed b'6')
    ∷ (0x4e, fixed b'+')
    ∷ (0x4f, fixed b'1')
    ∷ (0x50, fixed b'2')
    ∷ (0x51, fixed b'3')
    ∷ (0x52, fixed b'0')
    ∷ (0x53, fixed b'.')
    ∷ []

unfoldable pub find_key : ℕ → List (ℕ × Cap) → Option Cap
find_key c [] = none
find_key c ((x, cap) ∷ rest) = if c == x then some cap else find_key c rest
