-- ===== src/Strings/Bounds.antt =====
-- What `M_vsprintf` of src/lib/strings.c stores against the size of its buffer.
use dar_os.Base.{
  ℕ, zero, suc, ◌^◌, ◌≤◌, ◌<◌, ◌≡◌, ◌≢◌, subst, refl, Bool, true, false, ◌||◌, Option, none, some,
  List, [], ◌∷◌, ◌==◌, ltb, arith, length, Bool-cases, Option-cases, inl, inr,
}
use dar_os.Strings.Digits.{is_digit, dstoui}
use dar_os.Strings.Format.{
  Arg, Fmt, Mode, top, percent, pad, width, digits, Step, next, stop, bad, room, conversion,
  is_number, directive, take, begin, step, may_end, run, vsprintf,
}
use dar_os.Strings.Room.{
  Fits, some-injective, emit-Fits, put-Fits, relax, with_args, to_pad, to_width, from_width,
  to_digits, to_top, room-Fits, branch, unit, at, ended, reserve, StepFits,
}

directive-Fits :
    (buf : Option ℕ) (c : ℕ) (s : Fmt) → Fits buf percent s → StepFits buf (directive c s)
unfolding directive
directive-Fits buf c s f = elim (Bool-cases (c == b'c' || c == b's' || is_number c)) [
  | inl conv ↦ rw conv (elim (Option-cases (conversion c s.args)) [
    | inl e ↦ rw e (unit buf)
    | inr ((t, args), e) ↦ rw e (emit-Fits buf c t (record s { args = args }) (with_args args f))
  ])
  | inr other ↦ rw other (
      branch buf (c == b'p') _ _ (at (to_pad f)) (
        branch buf (c == b'%') _ _ (at (put-Fits buf (c ∷ []) s (omega arith) f))
          (at (put-Fits buf (b'%' ∷ c ∷ []) s (omega arith) f))))
]

take-Fits : (buf : Option ℕ) (c : ℕ) (s : Fmt) → Fits buf percent s → StepFits buf (take c s)
unfolding take
take-Fits buf c s f =
    branch buf (s.padw == 0) _ _
      (branch buf (c == b'%') _ _ (at f) (at (put-Fits buf (c ∷ []) s (omega arith) f)))
      (directive-Fits buf c s f)

begun-Fits :
    (buf : Option ℕ) (c : ℕ) (s : Fmt) (o : Option Fmt)
    → room s ≡ o
    → Fits buf top s
    → StepFits buf (elim o [ none ↦ stop s | some s' ↦ take c s' ])
begun-Fits buf c s none e f = ended f
begun-Fits buf c s (some s') e f = take-Fits buf c s' (room-Fits buf s s' f e)

begin-Fits : (buf : Option ℕ) (c : ℕ) (s : Fmt) → Fits buf top s → StepFits buf (begin c s)
unfolding begin
begin-Fits buf c s f = begun-Fits buf c s (room s) refl f

step-Fits :
    (buf : Option ℕ) (m : Mode) (c : ℕ) (p : List ℕ) (s : Fmt)
    → Fits buf m s
    → StepFits buf (step m c p s)
unfolding step
step-Fits buf top c p s f = begin-Fits buf c s f
step-Fits buf percent c p s f = directive-Fits buf c s f
step-Fits buf pad c p s f = at (to_width c f)
step-Fits buf width c p s f =
    branch buf (is_digit c) _ _
      (branch buf (ltb (dstoui (c ∷ p)) (2 ^ 31)) _ _ (at (to_digits (dstoui (c ∷ p)) f))
        (unit buf))
      (at (put-Fits buf (b'%' ∷ b'p' ∷ c ∷ []) s (omega arith) (from_width f)))
step-Fits buf digits c p s f = branch buf (is_digit c) _ _ (at f) (begin-Fits buf c s (to_top f))

weaken : (buf : Option ℕ) (m : Mode) (s : Fmt) → Fits buf m s → Fits buf top s
unfolding reserve
weaken buf top s f = f
weaken buf percent s f = relax f
weaken buf pad s f = relax (record { room = f.room; grows = f.grows; fixed = f.fixed })
weaken buf width s f = relax (from_width f)
weaken buf digits s f = to_top f

after-Fits :
    (buf : Option ℕ) (p : List ℕ) (r : Step) (s' : Fmt)
    → ((m : Mode) (s : Fmt) → Fits buf m s → run p m s ≡ some s' → Fits buf top s')
    → StepFits buf r
    → (elim r [ next m s ↦ run p m s | stop s ↦ some s | bad ↦ none ]) ≡ some s'
    → Fits buf top s'
unfolding StepFits
after-Fits buf p (next m s) s' ih f e = ih m s f e
after-Fits buf p (stop s) s' ih f e = subst (λ x. Fits buf top x) (some-injective e) f
after-Fits buf p bad s' ih f e = cc

run-Fits :
    (p : List ℕ) (buf : Option ℕ) (m : Mode) (s s' : Fmt)
    → Fits buf m s
    → run p m s ≡ some s'
    → Fits buf top s'
unfolding run
run-Fits [] buf m s s' f e = elim (Bool-cases (may_end m)) [
  | inl t ↦ subst (λ x. Fits buf top x) (some-injective (rw t at e)) (weaken buf m s f)
  | inr n ↦ let e' = rw n at e in cc
]
run-Fits (c ∷ p) buf m s s' f e =
    after-Fits buf p (step m c p s) s' (λ m' s'' f' e'. run-Fits p buf m' s'' s' f' e')
      (step-Fits buf m c p s f) e

start-Fits :
    (buf : Option ℕ) (size : ℕ) (dyn : Bool) (junk : ℕ) (args : List Arg)
    → 0 < size
    → (dyn ≡ true → 128 ≤ size)
    → ((cap : ℕ) → buf ≡ some cap → (dyn ≡ false) × (size ≡ cap))
    → Fits buf top (record { out = []; cap = size; dyn = dyn; padw = 0; padc = junk; args = args })
unfolding reserve
start-Fits buf size dyn junk args pos grows fixed = record {
  room = omega arith;
  grows = grows;
  fixed = fixed;
}

within : {buf : Option ℕ} {s : Fmt} → Fits buf top s → length s.out < s.cap
unfolding reserve
within f = omega (arith, f.room)

nonzero : (cap : ℕ) → some cap ≢ some 0 → 0 < cap
nonzero zero ne = absurd (ne refl)
nonzero (suc cap) ne = omega arith

-- The capacity that was given, or else the one in place.
abbrev pub given : Option ℕ → ℕ → ℕ
given none n = n
given (some cap) n = cap

-- When `M_vsprintf` comes to its end, all that it has stored, and the terminator behind it, lie within
-- the buffer: one that grows, or the caller's, whose capacity stays as it was, if that is not 0.
pub vsprintf-within :
    (buf : Option ℕ) (junk : ℕ) (fmt : List ℕ) (args : List Arg) (s : Fmt)
    → buf ≢ some 0
    → vsprintf buf junk fmt args ≡ some s
    → (length s.out < s.cap) × (s.cap ≡ given buf s.cap)
unfolding vsprintf
vsprintf-within none junk fmt args s ne e =
    let f =
      run-Fits fmt none top _ s
        (start-Fits none 128 true junk args (omega arith) (λ t. omega arith) (λ cap t. cc)) e in
    (within f, refl)
vsprintf-within (some cap) junk fmt args s ne e =
    let f =
      run-Fits fmt (some cap) top _ s
        (start-Fits (some cap) cap false junk args (nonzero cap ne) (λ t. cc) (λ x t. ground arith))
        e in
    (within f, (f.fixed cap refl).1)
