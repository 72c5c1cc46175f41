-- ===== src/Keyboard/Typeable.antt =====
-- Which keys of src/kernel/keyboard.c type the printable characters.
use dar_os.Base.{
  ℕ, zero, suc, ◌+◌, ◌≤◌, ◌<◌, ◌≡◌, refl, Bool, true, false, not, ◌&&◌, ◌||◌, none, some, List, [],
  ◌∷◌, ◌==◌, ltb, if◌then◌else◌, arith, Bool-cases, Option-cases, inl, inr,
}
use dar_os.Keyboard.Layout.{Cap, fixed, shifty, capsy, main_keys, find_key}
use dar_os.Keyboard.Scan.{Kbd, si, scan_main, key_scanned, broadcast, shown}

-- A key's character without caps lock.
unfoldable pub pick : Bool → Cap → ℕ
pick shift (fixed c) = c
pick shift (shifty c s) = if shift then s else c
pick shift (capsy c s) = if shift then s else c

shown-pick : (k : Kbd) (cap : Cap) → k.caps_lock_on ≡ false → shown k cap ≡ pick k.shift_down cap
unfolding shown pick
shown-pick k (fixed c) e = refl
shown-pick k (shifty c s) e = refl
shown-pick k (capsy c s) e = ground arith

-- The first key of a table with a given character, and whether it needs shift.
unfoldable pub find_char : ℕ → List (ℕ × Cap) → ℕ × Bool
find_char key [] = (0, false)
find_char key ((c, cap) ∷ rest) =
    if pick false cap == key
    then (c, false)
    else if pick true cap == key
    then (c, true)
    else find_char key rest

abbrev is_modifier : ℕ → Bool
is_modifier c = c == 0x1d || c == 0x2a || c == 0x36 || c == 0x38 || c == 0x3a

-- The key is below 0x80, no modifier, and what the second switch finds under it is the character.
unfoldable fits : (key c : ℕ) → Bool → Bool
fits key c shift =
    ltb c 0x80
    && not (is_modifier c)
    && (elim (find_key c main_keys) [ none ↦ false | some cap ↦ pick shift cap == key ])

-- The two printable characters that no key of the table has: the backslash and the bar.
abbrev pub is_missing : ℕ → Bool
is_missing key = key == 92 || key == 124

-- The scan code of a character, and whether it is typed with shift.
unfoldable pub code_of : ℕ → ℕ
code_of key = (find_char key main_keys).0

unfoldable pub shift_of : ℕ → Bool
shift_of key = (find_char key main_keys).1

unfoldable types : ℕ → Bool
types key = is_missing key || fits key (code_of key) (shift_of key)

unfoldable all_type : (n key : ℕ) → Bool
all_type zero key = true
all_type (suc n) key = types key && all_type n (key + 1)

all_type_lem : (n i key : ℕ) → all_type n i ≡ true → i ≤ key → key < i + n → types key ≡ true
unfolding all_type
all_type_lem zero i key e p q = absurd (omega arith)
all_type_lem (suc n) i key e p q = elim (Bool-cases (i == key)) [
  | inl same ↦ ground arith
  | inr other ↦ all_type_lem n (i + 1) key (ground arith) (ground arith) (omega arith)
]

all_printable : all_type 95 32 ≡ true
unfolding all_type types fits code_of shift_of pick find_char find_key
all_printable = refl

fits_lem :
    (key c : ℕ) (shift : Bool)
    → fits key c shift ≡ true
    → (cap : Cap) × (find_key c main_keys ≡ some cap)
      × (pick shift cap ≡ key)
      × (c < 0x80)
      × (is_modifier c ≡ false)
unfolding fits
fits_lem key c shift t = elim (Option-cases (find_key c main_keys)) [
  | inl e ↦ let t' = rw e at t in absurd (ground arith)
  | inr (cap, e) ↦ let t' = rw e at t in (cap, e, ground arith, ground arith, ground arith)
]

scan_main-cap :
    (c : ℕ) (k : Kbd) (cap : Cap)
    → find_key c main_keys ≡ some cap
    → c < 0x80
    → is_modifier c ≡ false
    → k.last_e0 ≡ false
    → scan_main c k ≡ (k, broadcast k (si k (shown k cap)))
unfolding scan_main
scan_main-cap c k cap e lt plain off = rw e (ground arith)

-- Every printable character but the backslash and the bar has a key: without caps lock and not after an
-- 0xe0, scanning its code, with shift down as it says, calls every listener with that character and the
-- modifiers, and changes nothing.
pub key_scanned-printable :
    (key : ℕ) (k : Kbd)
    → 32 ≤ key
    → key ≤ 126
    → is_missing key ≡ false
    → k.last_e0 ≡ false
    → k.caps_lock_on ≡ false
    → k.shift_down ≡ shift_of key
    → key_scanned (code_of key) k ≡ (k, broadcast k (si k key))
unfolding key_scanned types
key_scanned-printable key k lo hi there off caps sh =
    let t = all_type_lem 95 32 key all_printable lo (omega arith) in
    let (cap, e, p, lt, plain) = fits_lem key (code_of key) (shift_of key) (ground arith) in
    ground (arith, scan_main-cap (code_of key) k cap e lt plain off, shown-pick k cap caps)
