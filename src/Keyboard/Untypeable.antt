-- ===== src/Keyboard/Untypeable.antt =====
-- The characters that src/kernel/keyboard.c has no key for.
use dar_os.Base.{
  ℕ, ◌≡◌, ◌⊎◌, refl, Bool, true, false, not, ◌&&◌, ◌||◌, some, List, [], ◌∷◌, map, ◌++◌, ◌==◌,
  arith, Bool-cases, Option-cases, inl, inr,
}
use dar_os.Console.Keys.{Input}
use dar_os.Keyboard.Layout.{Cap, fixed, shifty, capsy, extended_keys, main_keys, find_key}
use dar_os.Keyboard.Scan.{
  Kbd, Act, call, command, si, scan_main, scan_extended, key_scanned, scan_all, broadcast, shown,
  all_listeners,
}
use dar_os.Keyboard.Typeable.{is_missing}

-- Whether some listener was called with a character.
unfoldable pub is_typed : ℕ → List Act → Bool
is_typed key [] = false
is_typed key (call l i ∷ acts) = i.key == key || is_typed key acts
is_typed key (command cmd arg ∷ acts) = is_typed key acts

unfoldable can_show : ℕ → Cap → Bool
can_show key (fixed c) = c == key
can_show key (shifty c s) = c == key || s == key
can_show key (capsy c s) = c == key || s == key

unfoldable lacks : ℕ → List (ℕ × Cap) → Bool
lacks key [] = true
lacks key ((c, cap) ∷ rest) = not (can_show key cap) && lacks key rest

lacks-find_key :
    (key c : ℕ) (t : List (ℕ × Cap)) (cap : Cap)
    → lacks key t ≡ true
    → find_key c t ≡ some cap
    → can_show key cap ≡ false
unfolding lacks find_key
lacks-find_key key c [] cap l e = cc
lacks-find_key key c ((x, cap') ∷ rest) cap l e = ground (arith, lacks-find_key key c rest cap)

shown-ne : (key : ℕ) (k : Kbd) (cap : Cap) → can_show key cap ≡ false → (shown k cap == key) ≡ false
unfolding can_show shown
shown-ne key k (fixed c) e = e
shown-ne key k (shifty c s) e = ground arith
shown-ne key k (capsy c s) e = ground arith

is_typed-append :
    (key : ℕ) (xs ys : List Act) → is_typed key (xs ++ ys) ≡ (is_typed key xs || is_typed key ys)
unfolding is_typed
is_typed-append key [] ys = refl
is_typed-append key (call l i ∷ xs) ys = ground (arith, is_typed-append key xs ys)
is_typed-append key (command cmd arg ∷ xs) ys = is_typed-append key xs ys

calls-other :
    (key : ℕ) (i : Input) (ls : List ℕ)
    → (i.key == key) ≡ false
    → is_typed key (map (λ l. call l i) ls) ≡ false
unfolding is_typed
calls-other key i [] ne = refl
calls-other key i (l ∷ ls) ne = ground (arith, calls-other key i ls ne)

broadcast-other :
    (key : ℕ) (k : Kbd) (cap : Cap)
    → can_show key cap ≡ false
    → is_typed key (broadcast k (si k (shown k cap))) ≡ false
unfolding broadcast
broadcast-other key k cap e =
    calls-other key (si k (shown k cap)) (all_listeners k.listeners) (shown-ne key k cap e)

missing-two : (key : ℕ) → is_missing key ≡ true → (key ≡ 92) ⊎ (key ≡ 124)
missing-two key e = elim (Bool-cases (key == 92)) [
  | inl b ↦ inl (ground arith)
  | inr c ↦ inr (ground arith)
]

missing-main : (key : ℕ) → is_missing key ≡ true → lacks key main_keys ≡ true
unfolding lacks can_show
missing-main key e = elim (missing-two key e) [ inl b ↦ rw b refl | inr c ↦ rw c refl ]

missing-extended : (key : ℕ) → is_missing key ≡ true → lacks key extended_keys ≡ true
unfolding lacks can_show
missing-extended key e = elim (missing-two key e) [ inl b ↦ rw b refl | inr c ↦ rw c refl ]

scan_main-missing :
    (key c : ℕ) (k : Kbd) → is_missing key ≡ true → is_typed key (scan_main c k).1 ≡ false
unfolding scan_main is_typed
scan_main-missing key c k m = elim (Option-cases (find_key c main_keys)) [
  | inl e ↦ rw e (ground arith)
  | inr (cap, e) ↦ rw e (
      ground (
        arith,
        broadcast-other key k cap (lacks-find_key key c main_keys cap (missing-main key m) e),
      ))
]

scan_extended-missing :
    (key c : ℕ) (k : Kbd) → is_missing key ≡ true → is_typed key (scan_extended c k).1 ≡ false
unfolding scan_extended is_typed
scan_extended-missing key c k m = elim (Option-cases (find_key c extended_keys)) [
  | inl e ↦ rw e (ground (arith, scan_main-missing key c (record k { last_e0 = false }) m))
  | inr (cap, e) ↦ rw e (
      ground (
        arith,
        broadcast-other key (record k { last_e0 = false }) cap
            (lacks-find_key key c extended_keys cap (missing-extended key m) e),
      ))
]

key_scanned-missing :
    (key c : ℕ) (k : Kbd) → is_missing key ≡ true → is_typed key (key_scanned c k).1 ≡ false
unfolding key_scanned
key_scanned-missing key c k m =
    ground (arith, scan_main-missing key c k m, scan_extended-missing key c k m)

-- No sequence of bytes calls a listener with a backslash or a bar: no key has them, in any state of the
-- modifiers.
pub scan_all-missing :
    (key : ℕ) (cs : List ℕ) (k : Kbd)
    → is_missing key ≡ true
    → is_typed key (scan_all cs k).1 ≡ false
unfolding scan_all is_typed
scan_all-missing key [] k m = refl
scan_all-missing key (c ∷ cs) k m = ground (
  arith,
  is_typed-append key (key_scanned c k).1 (scan_all cs (key_scanned c k).0).1,
  key_scanned-missing key c k m,
  scan_all-missing key cs (key_scanned c k).0 m,
)
