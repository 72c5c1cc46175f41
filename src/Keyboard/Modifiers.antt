-- ===== src/Keyboard/Modifiers.antt =====
-- The modifiers of src/kernel/keyboard.c against the sequence of bytes that has been scanned.
use dar_os.Base.{
  ℕ, ◌%◌, ◌≤◌, ◌≡◌, ◌≢◌, refl, Bool, true, false, not, ◌&&◌, ◌||◌, some, List, [], ◌∷◌, ◌==◌,
  if◌then◌else◌, arith, Bool-cases, Option-cases, inl, inr,
}
use dar_os.Keyboard.Layout.{Cap, extended_keys, main_keys, find_key}
use dar_os.Keyboard.Scan.{Kbd, scan_main, scan_extended, key_scanned, scan_all}

-- Whether a key is held after some bytes: the last byte that is one of its codes says so.
unfoldable pub held : (press release : ℕ → Bool) → Bool → List ℕ → Bool
held press release now [] = now
held press release now (c ∷ cs) =
    held press release (if release c then false else if press c then true else now) cs

abbrev pub shift_press : ℕ → Bool
shift_press c = c == 0x2a || c == 0x36

abbrev pub shift_release : ℕ → Bool
shift_release c = c == 0xaa || c == 0xb6

-- Whether a byte, after an 0xe0, is one of the shifts that keyboards fake.
abbrev pub is_fake : ℕ → Bool
is_fake c = c % 0x80 == 0x2a || c % 0x80 == 0x36

-- The bytes without the faked shifts. `e0` says that an 0xe0 came before.
unfoldable pub genuine : (e0 : Bool) → List ℕ → List ℕ
genuine e0 [] = []
genuine e0 (c ∷ cs) =
    let rest = genuine (c == 0xe0) cs in if e0 && is_fake c then rest else c ∷ rest

-- How often a byte occurs is odd.
unfoldable pub odd_count : ℕ → List ℕ → Bool
odd_count x [] = false
odd_count x (c ∷ cs) = if c == x then not (odd_count x cs) else odd_count x cs

-- What a byte does to the modifiers that the second switch knows.
abbrev stepped : ℕ → Kbd → Kbd
stepped c k = record k {
  shift_down = if shift_release c then false else if shift_press c then true else k.shift_down;
  ctrl_down = if c == 0x9d then false else if c == 0x1d then true else k.ctrl_down;
  alt_down = if c == 0xb8 then false else if c == 0x38 then true else k.alt_down;
  caps_lock_on = if c == 0x3a then not k.caps_lock_on else k.caps_lock_on;
  last_e0 = c == 0xe0;
}

scan_main-stepped : (c : ℕ) (k : Kbd) → (scan_main c k).0 ≡ stepped c k
unfolding scan_main
scan_main-stepped c k = elim (Option-cases (find_key c main_keys)) [
  | inl e ↦ rw e (ground arith)
  | inr (cap, e) ↦ rw e (ground arith)
]

-- No key of the first switch is a modifier.
extended-between :
    (c : ℕ) (cap : Cap)
    → find_key c extended_keys ≡ some cap
    → (0x35 ≤ c) × (c ≤ 0x53) × (c ≢ 0x36) × (c ≢ 0x38) × (c ≢ 0x3a)
unfolding find_key
extended-between c cap e = ground arith

scan_extended-stepped :
    (c : ℕ) (k : Kbd)
    → k.last_e0 ≡ true
    → (scan_extended c k).0 ≡ (if is_fake c then record k { last_e0 = false } else stepped c k)
unfolding scan_extended
scan_extended-stepped c k on = elim (Bool-cases (is_fake c)) [
  | inl fake ↦ rw fake (ground arith)
  | inr real ↦ elim (Option-cases (find_key c extended_keys)) [
    | inl e ↦ rw (real, e, scan_main-stepped c (record k { last_e0 = false })) (ground arith)
    | inr (cap, e) ↦ rw (real, e) (ground (arith, extended-between c cap e))
  ]
]

key_scanned-stepped :
    (c : ℕ) (k : Kbd)
    → (key_scanned c k).0
      ≡ (if k.last_e0 && is_fake c then record k { last_e0 = c == 0xe0 } else stepped c k)
unfolding key_scanned
key_scanned-stepped c k = ground (arith, scan_extended-stepped c k, scan_main-stepped c k)

-- After any bytes, shift is down if the last byte of a shift that is not a faked one was a press,
-- control and alt are down if the last byte of one of their keys was a press, and caps lock has
-- changed if its key has been pressed an odd number of times.
pub scan_all-modifiers :
    (cs : List ℕ) (k : Kbd)
    → let k' = (scan_all cs k).0 in
      (k'.shift_down ≡ held shift_press shift_release k.shift_down (genuine k.last_e0 cs))
      × (k'.ctrl_down ≡ held (λ c. c == 0x1d) (λ c. c == 0x9d) k.ctrl_down cs)
      × (k'.alt_down ≡ held (λ c. c == 0x38) (λ c. c == 0xb8) k.alt_down cs)
      × (k'.caps_lock_on ≡ (if odd_count 0x3a cs then not k.caps_lock_on else k.caps_lock_on))
unfolding scan_all held genuine odd_count
scan_all-modifiers [] k = (refl, refl, refl, refl)
scan_all-modifiers (c ∷ cs) k =
    let (a, b, d, e) = scan_all-modifiers cs (key_scanned c k).0 in
    rw (a, b, d, e, key_scanned-stepped c k)
      (elim (Bool-cases (k.last_e0 && is_fake c)) [
        | inl fake ↦ rw fake (refl, ground arith, ground arith, ground arith)
        | inr real ↦ rw real (refl, refl, refl, ground arith)
      ])
