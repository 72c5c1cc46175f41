-- ===== src/Callbacks/Table.antt =====
-- The callbacks that src/kernel/periodic_callback.c has registered, in order.
use dar_os.Base.{
  ℕ, zero, suc, ◌+◌, ◌*◌, ◌^◌, ◌<◌, ◌≤◌, ◌≡◌, refl, ap, ap₂, ◌∙◌, ◌==◌, ltb, leb, Bool, true, false,
  if◌then◌else◌, write, Option, none, some, add64, sub64, List, [], ◌∷◌, ◌++◌, arith, Bool-cases,
  inl, inr,
}
use dar_os.Callbacks.{
  Callback, Callbacks, is_valid, with_room, register_periodic_callback, is_same, close_gap,
  unregister_periodic_callback,
}

unfoldable pub entries : (n i : ℕ) → (ℕ → Callback) → List Callback
entries zero i pcs = []
entries (suc n) i pcs = pcs i ∷ entries n (i + 1) pcs

unfoldable pub registered : Callbacks → List Callback
registered s = elim s.pcs [ none ↦ [] | some pcs ↦ entries s.len 0 pcs ]

-- There is an array once there is a callback, with room for one more.
unfoldable pub IsValid : Callbacks → Type 0
IsValid s = elim s.pcs [ none ↦ s.len ≡ 0 | some pcs ↦ s.len < s.cap ]

pub entries-agree :
    (n i : ℕ) (pcs pcs' : ℕ → Callback)
    → ((j : ℕ) → i ≤ j → j < i + n → pcs' j ≡ pcs j)
    → entries n i pcs' ≡ entries n i pcs
unfolding entries
entries-agree zero i pcs pcs' same = refl
entries-agree (suc n) i pcs pcs' same =
    ap₂ (λ x xs. x ∷ xs) (same i (omega arith) (omega arith))
      (entries-agree n (i + 1) pcs pcs' (λ j ge lt. same j (omega arith) (omega arith)))

entries-snoc :
    (n i : ℕ) (pcs : ℕ → Callback) → entries (suc n) i pcs ≡ entries n i pcs ++ (pcs (i + n) ∷ [])
unfolding entries
entries-snoc zero i pcs = let e : i ≡ i + 0 = omega arith in ap (λ j. pcs j ∷ []) e
entries-snoc (suc n) i pcs =
    let e : i + 1 + n ≡ i + suc n = omega arith in
    ap (λ xs. pcs i ∷ xs)
      (entries-snoc n (i + 1) pcs ∙ ap (λ j. entries n (i + 1) pcs ++ (pcs j ∷ [])) e)

-- The loop of `unregisterPeriodicCallback` changes elements from its index on only.
close_gap-before :
    (rounds i : ℕ) (found : Bool) (c : Callback) (pcs : ℕ → Callback) (j : ℕ)
    → j < i
    → close_gap rounds i found c pcs j ≡ pcs j
unfolding close_gap
close_gap-before zero i found c pcs j lt = refl
close_gap-before (suc rounds) i true c pcs j lt =
    let ne : (j == i) ≡ false = ground arith in
    close_gap-before rounds (i + 1) true c (write pcs i (pcs (i + 1))) j (omega arith) ∙ rw ne refl
close_gap-before (suc rounds) i false c pcs j lt =
    close_gap-before rounds (i + 1) (is_same (pcs i) c) c pcs j (omega arith)

-- Once a callback is found the elements behind are moved down by one.
close_gap-found :
    (rounds i : ℕ) (c : Callback) (pcs : ℕ → Callback)
    → entries rounds i (close_gap rounds i true c pcs) ≡ entries rounds (i + 1) pcs
unfolding close_gap entries
close_gap-found zero i c pcs = refl
close_gap-found (suc rounds) i c pcs =
    let moved = write pcs i (pcs (i + 1)) in
    let here : (i == i) ≡ true = ground arith in
    let first : close_gap rounds (i + 1) true c moved i ≡ pcs (i + 1) =
      close_gap-before rounds (i + 1) true c moved i (omega arith) ∙ rw here refl in
    let kept : (j : ℕ) → i + 1 + 1 ≤ j → j < i + 1 + 1 + rounds → moved j ≡ pcs j =
      λ j ge lt. let ne : (j == i) ≡ false = ground arith in rw ne refl in
    ap₂ (λ x xs. x ∷ xs) first
      (close_gap-found rounds (i + 1) c moved ∙ entries-agree rounds (i + 1 + 1) pcs moved kept)

-- What is left after unregistering a callback: of the first that is the same the one behind it goes, and if there is
-- none the last.
unfoldable pub unregistered : Callback → List Callback → List Callback
unregistered c [] = []
unregistered c (x ∷ []) = []
unregistered c (x ∷ y ∷ ys) = if is_same x c then x ∷ ys else x ∷ unregistered c (y ∷ ys)

close_gap-entries :
    (rounds i : ℕ) (c : Callback) (pcs : ℕ → Callback)
    → entries rounds i (close_gap rounds i false c pcs)
      ≡ unregistered c (entries (suc rounds) i pcs)
unfolding close_gap entries unregistered
close_gap-entries zero i c pcs = refl
close_gap-entries (suc rounds) i c pcs =
    let first = close_gap-before rounds (i + 1) (is_same (pcs i) c) c pcs i (omega arith) in
    elim (Bool-cases (is_same (pcs i) c)) [
      | inl same ↦
          ap (λ x. x ∷ entries rounds (i + 1) (close_gap rounds (i + 1) (is_same (pcs i) c) c pcs))
            first
          ∙ rw same (ap (λ xs. pcs i ∷ xs) (close_gap-found rounds (i + 1) c pcs))
      | inr other ↦
          ap (λ x. x ∷ entries rounds (i + 1) (close_gap rounds (i + 1) (is_same (pcs i) c) c pcs))
            first
          ∙ rw other (ap (λ xs. pcs i ∷ xs) (close_gap-entries rounds (i + 1) c pcs))
    ]

abbrev table : Option (ℕ → Callback) → (len cap : ℕ) → Callbacks
table pcs len cap = record { pcs = pcs; len = len; cap = cap }

unregister-table :
    (c : Callback) (pcs : Option (ℕ → Callback)) (len cap : ℕ)
    → IsValid (table pcs len cap)
    → 0 < len
    → len < 2 ^ 64
    → (registered (unregister_periodic_callback c (table pcs len cap))
        ≡ unregistered c (registered (table pcs len cap)))
      × IsValid (unregister_periodic_callback c (table pcs len cap))
unfolding registered unregister_periodic_callback IsValid
unregister-table c none len cap v pos small = absurd (omega arith)
unregister-table c (some pcs) len cap v pos small =
    let n = sub64 len 1 in
    let e : suc n ≡ len = omega arith in
    (close_gap-entries n 0 c pcs ∙ ap (λ k. unregistered c (entries k 0 pcs)) e, omega arith)

-- Unregistering, when something is registered, lowers the number by one. But of the callbacks the first that is the same
-- as the one given stays and the one behind it goes; the last goes if the first that is the same is the last or if none
-- is the same.
pub unregister-registered :
    (c : Callback) (s : Callbacks)
    → IsValid s
    → 0 < s.len
    → s.len < 2 ^ 64
    → (registered (unregister_periodic_callback c s) ≡ unregistered c (registered s))
      × IsValid (unregister_periodic_callback c s)
unregister-registered c s v pos small = unregister-table c s.pcs s.len s.cap v pos small

-- Writing behind the entries.
entries-write :
    (n : ℕ) (c : Callback) (pcs : ℕ → Callback)
    → entries (suc n) 0 (write pcs n c) ≡ entries n 0 pcs ++ (c ∷ [])
entries-write n c pcs =
    let pcs' = write pcs n c in
    let here : (0 + n == n) ≡ true = ground arith in
    let kept : (j : ℕ) → 0 ≤ j → j < 0 + n → pcs' j ≡ pcs j =
      λ j ge lt. let ne : (j == n) ≡ false = ground arith in rw ne refl in
    entries-snoc n 0 pcs'
    ∙ ap₂ (λ xs x. xs ++ (x ∷ [])) (entries-agree n 0 pcs pcs' kept) (rw here refl)

register-none :
    (junk : ℕ → Callback) (c : Callback) (len cap : ℕ)
    → len ≡ 0
    → is_valid c ≡ true
    → let s = register_periodic_callback junk c (table none len cap) in
      (registered s ≡ c ∷ []) × IsValid s
unfolding registered register_periodic_callback IsValid with_room entries
register-none junk c len cap e valid = rw (valid, e) (refl, omega arith)

register-some :
    (junk : ℕ → Callback) (c : Callback) (pcs : ℕ → Callback) (len cap : ℕ)
    → len < cap
    → cap * 2 < 2 ^ 64
    → is_valid c ≡ true
    → let s = register_periodic_callback junk c (table (some pcs) len cap) in
      (registered s ≡ entries len 0 pcs ++ (c ∷ [])) × IsValid s
unfolding registered register_periodic_callback IsValid with_room
register-some junk c pcs len cap lt small valid =
    let next : add64 len 1 ≡ suc len = omega arith in
    let longer : ℕ → Callback = λ i. if ltb i cap then pcs i else junk i in
    let kept : (j : ℕ) → 0 ≤ j → j < 0 + len → longer j ≡ pcs j =
      λ j ge l. let in_cap : ltb j cap ≡ true = ground arith in rw in_cap refl in
    elim (Bool-cases (leb cap (len + 1))) [
      | inl full ↦
          rw (valid, full, next)
            (
              entries-write len c longer
                  ∙ ap (λ xs. xs ++ (c ∷ [])) (entries-agree len 0 pcs longer kept),
              ground arith,
            )
      | inr room ↦ rw (valid, room, next) (entries-write len c pcs, ground arith)
    ]

register-invalid :
    (junk : ℕ → Callback) (c : Callback) (s : Callbacks)
    → is_valid c ≡ false
    → register_periodic_callback junk c s ≡ s
unfolding register_periodic_callback
register-invalid junk c s e = rw e refl

register-table :
    (junk : ℕ → Callback) (c : Callback) (pcs : Option (ℕ → Callback)) (len cap : ℕ)
    → IsValid (table pcs len cap)
    → cap * 2 < 2 ^ 64
    → is_valid c ≡ true
    → let s = register_periodic_callback junk c (table pcs len cap) in
      (registered s ≡ registered (table pcs len cap) ++ (c ∷ [])) × IsValid s
unfolding registered IsValid
register-table junk c none len cap v small valid = register-none junk c len cap v valid
register-table junk c (some pcs) len cap v small valid =
    register-some junk c pcs len cap v small valid

-- Registering a callback puts it behind the others if its count is from 1 to 1000, and else changes nothing; the array
-- has room for it and for one more.
pub register-registered :
    (junk : ℕ → Callback) (c : Callback) (s : Callbacks)
    → IsValid s
    → s.cap * 2 < 2 ^ 64
    → let s' = register_periodic_callback junk c s in
      (registered s' ≡ (if is_valid c then registered s ++ (c ∷ []) else registered s)) × IsValid s'
register-registered junk c s v small = elim (Bool-cases (is_valid c)) [
  | inl valid ↦ rw valid (register-table junk c s.pcs s.len s.cap v small valid)
  | inr bad ↦ rw (register-invalid junk c s bad, bad) (refl, v)
]
