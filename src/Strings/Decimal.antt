-- ===== src/Strings/Decimal.antt =====
-- Decimal printing of src/lib/strings.c, `%u`, against reading with `dstoui`.
use dar_os.Base.{
  ℕ, zero, suc, ◌+◌, ◌-◌, ◌*◌, ◌/◌, ◌%◌, ◌^◌, ◌≤◌, ◌<◌, ◌≡◌, refl, ap, ◌∙◌, true, List, [], ◌∷◌,
  ◌==◌, arith, Bool-cases, inl, inr,
}
use native.Mathlib.Omega.{div_any}
use native.Mathlib.Nat.{mod-lt}
use dar_os.Strings.Digits.{
  one_e_19, dec_digits, skip_zeros, dec_string, is_digit, dstoui_from, dstoui,
}

-- The step of both loops: the digit, and what is left.
quotient-lt : (u p : ℕ) → 0 < p → u < 10 * p → u / p < 10
quotient-lt u p pos lt = grind arith

pow_suc : (n : ℕ) → 10 ^ suc n ≡ 10 * 10 ^ n
pow_suc n = grind arith

pow_pos : (n : ℕ) → 0 < 10 ^ n
pow_pos zero = omega arith
pow_pos (suc n) = omega (arith, pow_suc n, pow_pos n)

regroup : (i u e : ℕ) → (i * 10 + u / e) * e + u % e ≡ i * (10 * e) + u
regroup i u e = grind (arith, div_any u e)

le_product : (a e : ℕ) → 0 < e → a ≤ a * e
le_product a e pos = grind arith

dec_digits-dstoui_from :
    (n e u i : ℕ)
    → e ≡ 10 ^ n / 10
    → u < 10 ^ n
    → i * 10 ^ n + u < 2 ^ 64
    → dstoui_from i (dec_digits n e u) ≡ i * 10 ^ n + u
unfolding dstoui_from dec_digits
dec_digits-dstoui_from zero e u i he hu hi = omega arith
dec_digits-dstoui_from (suc n) e u i he hu hi =
    let ep = pow_suc n in
    let pos = pow_pos n in
    let eq : e ≡ 10 ^ n = omega arith in
    let lt = quotient-lt u e (omega arith) (omega arith) in
    let d : is_digit (u / e + b'0') ≡ true = ground arith in
    let big : 10 ^ suc n ≡ 10 * e = omega arith in
    let total : i * (10 * e) + u < 2 ^ 64 = rw big at hi in
    let small = le_product (i * 10 + u / e) e (omega arith) in
    let fits : (i * 10 + (u / e + b'0' - b'0')) % 2 ^ 64 ≡ i * 10 + u / e =
      omega (arith, regroup i u e) in
    rw (d, fits)
      (dec_digits-dstoui_from n (e / 10) (u % e) (i * 10 + u / e) (ap (λ x. x / 10) eq)
          (rw⁻¹ eq (mod-lt u (omega arith))) (rw⁻¹ eq (omega (arith, regroup i u e)))
        ∙ rw⁻¹ eq (rw big (regroup i u e)))

-- A zero in front adds nothing.
dstoui_from-skip_zeros : (s : List ℕ) → dstoui_from 0 (skip_zeros s) ≡ dstoui_from 0 s
unfolding dstoui_from skip_zeros
dstoui_from-skip_zeros [] = refl
dstoui_from-skip_zeros (c ∷ []) = refl
dstoui_from-skip_zeros (c ∷ d ∷ t) = elim (Bool-cases (c == b'0')) [
  | inl z ↦ rw z (dstoui_from-skip_zeros (d ∷ t) ∙ ground arith)
  | inr n ↦ rw n refl
]

-- `dstoui` reads back what `%u` prints, for every number of 64 bits.
pub dstoui-dec_string : (u : ℕ) → u < 2 ^ 64 → dstoui (dec_string u) ≡ u
unfolding dstoui dec_string
dstoui-dec_string u lt =
    dstoui_from-skip_zeros (dec_digits 20 one_e_19 u)
    ∙ dec_digits-dstoui_from 20 one_e_19 u 0 refl (omega arith) (omega arith)
    ∙ omega arith
