-- ===== src/Strings/Printing.antt =====
-- `M_sprintf` of src/lib/strings.c on plain text and a number.
use dar_os.Base.{
  ℕ, ◌+◌, ◌*◌, ◌≡◌, refl, sym, ap, ◌∙◌, Bool, true, false, not, ◌&&◌, none, some, List, [], ◌∷◌,
  ◌++◌, ◌==◌, ltb, if◌then◌else◌, arith, length, append-nil, append_assoc, Bool-cases, inl, inr,
}
use dar_os.Strings.Digits.{dec_string}
use dar_os.Strings.Format.{
  Arg, num, Fmt, Mode, top, percent, next, stop, bad, room, conversion, repeat, trim, fit, emit,
  directive, take, begin, step, may_end, run, vsprintf, sprintf,
}

-- A text without a '%'.
unfoldable pub is_plain : List ℕ → Bool
is_plain [] = true
is_plain (c ∷ t) = not (c == b'%') && is_plain t

-- A buffer that grows, at the top of the loop, with `out` stored and no width.
abbrev pub grown : List ℕ → ℕ → ℕ → List Arg → Fmt
grown out cap junk args = record {
  out = out;
  cap = cap;
  dyn = true;
  padw = 0;
  padc = junk;
  args = args;
}

abbrev size : List ℕ → ℕ → ℕ
size out cap = if ltb cap (length out + 4) then cap * 2 else cap

room-grown :
    (out : List ℕ) (cap junk : ℕ) (args : List Arg)
    → room (grown out cap junk args) ≡ some (grown out (size out cap) junk args)
unfolding room
room-grown out cap junk args = elim (Bool-cases (ltb cap (length out + 4))) [
  | inl e ↦ rw e refl
  | inr e ↦ rw e refl
]

begin-take :
    (c : ℕ) (out : List ℕ) (cap junk : ℕ) (args : List Arg)
    → begin c (grown out cap junk args) ≡ take c (grown out (size out cap) junk args)
unfolding begin
begin-take c out cap junk args =
    ap (λ o. elim o [ none ↦ stop (grown out cap junk args) | some s ↦ take c s ])
      (room-grown out cap junk args)

begin-plain :
    (c : ℕ) (out : List ℕ) (cap junk : ℕ) (args : List Arg)
    → (c == b'%') ≡ false
    → begin c (grown out cap junk args)
      ≡ next top (grown (out ++ (c ∷ [])) (size out cap) junk args)
unfolding take
begin-plain c out cap junk args ne = begin-take c out cap junk args ∙ ground arith

begin-percent :
    (out : List ℕ) (cap junk : ℕ) (args : List Arg)
    → begin b'%' (grown out cap junk args) ≡ next percent (grown out (size out cap) junk args)
unfolding take
begin-percent out cap junk args = begin-take b'%' out cap junk args ∙ refl

run-begin :
    (c : ℕ) (p : List ℕ) (s s' : Fmt) (m : Mode)
    → begin c s ≡ next m s'
    → run (c ∷ p) top s ≡ run p m s'
unfolding run step
run-begin c p s s' m e = ap (λ r. elim r [ next m s ↦ run p m s | stop s ↦ some s | bad ↦ none ]) e

-- The capacity after a plain text.
unfoldable sizes : List ℕ → List ℕ → ℕ → ℕ
sizes [] out cap = cap
sizes (c ∷ t) out cap = sizes t (out ++ (c ∷ [])) (size out cap)

run-plain :
    (t p out : List ℕ) (cap junk : ℕ) (args : List Arg)
    → is_plain t ≡ true
    → run (t ++ p) top (grown out cap junk args)
      ≡ run p top (grown (out ++ t) (sizes t out cap) junk args)
unfolding sizes is_plain
run-plain [] p out cap junk args h =
    ap (λ o. run p top (grown o cap junk args)) (sym (append-nil out))
run-plain (c ∷ t) p out cap junk args h =
    run-begin c (t ++ p) (grown out cap junk args)
      (grown (out ++ (c ∷ [])) (size out cap) junk args) top
      (begin-plain c out cap junk args (ground arith))
    ∙ run-plain t p (out ++ (c ∷ [])) (size out cap) junk args (ground arith)
    ∙ ap (λ o. run p top (grown o (sizes t (out ++ (c ∷ [])) (size out cap)) junk args))
        (append_assoc out (c ∷ []) t)

-- The capacity after a number.
abbrev enlarged : List ℕ → ℕ → ℕ → ℕ
enlarged out cap u =
    let needed = length out + length (dec_string u) + 0 + 1 in
    if ltb cap needed then needed else cap

directive-u :
    (out : List ℕ) (cap junk u : ℕ) (args : List Arg)
    → directive b'u' (grown out cap junk (num u ∷ args))
      ≡ next top (grown (out ++ dec_string u) (enlarged out cap u) junk args)
unfolding directive emit conversion fit trim repeat dec_string
directive-u out cap junk u args =
    elim (Bool-cases (ltb cap (length out + length (dec_string u) + 0 + 1))) [
      | inl e ↦ elim (Bool-cases (junk == b'0')) [ inl z ↦ rw (z, e) refl | inr n ↦ rw (n, e) refl ]
      | inr e ↦ elim (Bool-cases (junk == b'0')) [ inl z ↦ rw (z, e) refl | inr n ↦ rw (n, e) refl ]
    ]

run-u :
    (p out : List ℕ) (cap junk u : ℕ) (args : List Arg)
    → run (b'%' ∷ b'u' ∷ p) top (grown out cap junk (num u ∷ args))
      ≡ run p top (grown (out ++ dec_string u) (enlarged out (size out cap) u) junk args)
unfolding run step
run-u p out cap junk u args =
    run-begin b'%' (b'u' ∷ p) (grown out cap junk (num u ∷ args))
      (grown out (size out cap) junk (num u ∷ args)) percent
      (begin-percent out cap junk (num u ∷ args))
    ∙ ap (λ r. elim r [ next m s ↦ run p m s | stop s ↦ some s | bad ↦ none ])
        (directive-u out (size out cap) junk u args)

last :
    (out : List ℕ) (cap junk : ℕ)
    → (elim (run [] top (grown out cap junk [])) [ none ↦ none | some s ↦ some s.out ]) ≡ some out
unfolding run may_end
last out cap junk = refl

-- `M_sprintf` on a format with one "%u" between two texts without a '%' returns the texts with the
-- number in decimal between them.
pub sprintf-number :
    (junk u : ℕ) (t t' : List ℕ)
    → is_plain t ≡ true
    → is_plain t' ≡ true
    → sprintf junk (t ++ (b'%' ∷ b'u' ∷ t')) (num u ∷ []) ≡ some (t ++ (dec_string u ++ t'))
unfolding sprintf vsprintf
sprintf-number junk u t t' h h' =
    ap (λ r. elim r [ none ↦ none | some s ↦ some s.out ])
      (run-plain t (b'%' ∷ b'u' ∷ t') [] 128 junk (num u ∷ []) h
        ∙ run-u t' t (sizes t [] 128) junk u []
        ∙ ap
            (λ p.
              run p top
                (grown (t ++ dec_string u) (enlarged t (size t (sizes t [] 128)) u) junk []))
            (sym (append-nil t'))
        ∙ run-plain t' [] (t ++ dec_string u) (enlarged t (size t (sizes t [] 128)) u) junk [] h')
    ∙ last (t ++ dec_string u ++ t') _ junk
    ∙ ap some (append_assoc t (dec_string u) t')
