-- ===== src/Strings/Format.antt =====
-- `M_vsprintf` of src/lib/strings.c, a byte of the format at a time.
--
-- The mode says how the loop has come to the byte: at its top; past a '%'; past "%p", where the padding
-- character is read; past that, where the width begins; or within the width, which has been read as
-- a whole. `out` is what has been stored, so that `i` is its length. `padw` is bounded by 2 ^ 31, past
-- which the source's `int` is negative.
use dar_os.Base.{
  ℕ, zero, suc, ◌+◌, ◌-◌, ◌*◌, ◌%◌, ◌^◌, Bool, true, false, not, ◌&&◌, ◌||◌, Option, none, some,
  List, [], ◌∷◌, ◌++◌, ◌==◌, ltb, leb, if◌then◌else◌, length,
}
use dar_os.Strings.Digits.{one_e_19, dec_digits, skip_zeros, is_digit, dstoui, qword_to_hex}

pub data Arg : Type 0 where
  num : ℕ → Arg
  chr : ℕ → Arg
  str : List ℕ → Arg

pub record Fmt : Type 0 where
  pub out : List ℕ
  pub cap : ℕ
  pub dyn : Bool
  pub padw : ℕ
  pub padc : ℕ
  pub args : List Arg

pub data Mode : Type 0 where
  top : Mode
  percent : Mode
  pad : Mode
  width : Mode
  digits : Mode

-- A byte leads to another mode; or the loop ends early; or the arguments are not those that the format
-- asks for, or the width is out of bounds.
pub data Step : Type 0 where
  next : Mode → Fmt → Step
  stop : Fmt → Step
  bad : Step

abbrev pub put : List ℕ → Fmt → Fmt
put t s = record s { out = s.out ++ t }

-- `if ((int64_t) s_cap - i < 4)`
unfoldable pub room : Fmt → Option Fmt
room s =
    if ltb s.cap (length s.out + 4)
    then (if s.dyn then some (record s { cap = s.cap * 2 }) else none)
    else some s

-- The string `t` of the cases `c`, `u`, `h` and `s`, and the arguments behind the one taken.
unfoldable pub conversion : ℕ → List Arg → Option (List ℕ × List Arg)
conversion c [] = none
conversion c (num u ∷ args) =
    if c == b'u'
    then some (dec_digits 20 one_e_19 u, args)
    else if c == b'h'
    then some (qword_to_hex u, args)
    else none
conversion c (chr x ∷ args) =
    if c == b'c' then some (if x % 2 ^ 8 == 0 then [] else x % 2 ^ 8 ∷ [], args) else none
conversion c (str t ∷ args) = if c == b's' then some (t, args) else none

abbrev pub is_number : ℕ → Bool
is_number c = c == b'u' || c == b'h'

-- `t += n`
unfoldable pub advance : ℕ → List ℕ → List ℕ
advance zero t = t
advance (suc n) [] = []
advance (suc n) (c ∷ t) = advance n t

unfoldable pub repeat : ℕ → ℕ → List ℕ
repeat zero c = []
repeat (suc n) c = c ∷ repeat n c

-- The zeros in front of a number, which are kept for the padding.
unfoldable pub trim : ℕ → Fmt → List ℕ → List ℕ
trim c s t = if is_number c && (not (s.padc == b'0') || s.padw == 0) then skip_zeros t else t

-- `padw` and `t` after `if (padw > 0)`.
unfoldable pub fit : ℕ → ℕ → List ℕ → ℕ × List ℕ
fit c padw t =
    if padw == 0
    then (padw, t)
    else if leb (length t) padw
    then (padw - length t, t)
    else (0, if is_number c then advance (length t - padw) t else t)

-- The end of the loop's body.
unfoldable pub emit : ℕ → List ℕ → Fmt → Step
emit c t s =
    let (padw, u) = fit c s.padw (trim c s t) in
    let needed = length s.out + length u + padw + 1 in
    let done = record (put (repeat padw s.padc ++ u) s) { padw = 0 } in
    if ltb s.cap needed
    then (if s.dyn then next top (record done { cap = needed }) else stop s)
    else next top done

-- The `switch`.
unfoldable pub directive : ℕ → Fmt → Step
directive c s =
    if c == b'c' || c == b's' || is_number c
    then elim (conversion c s.args) [
      | none ↦ bad
      | some (t, args) ↦ emit c t (record s { args = args })
    ]
    else if c == b'p'
    then next pad s
    else if c == b'%'
    then next top (put (c ∷ []) s)
    else next top (put (b'%' ∷ c ∷ []) s)

-- The top of the loop, past its test for room.
unfoldable pub take : ℕ → Fmt → Step
take c s =
    if s.padw == 0
    then if c == b'%' then next percent s else next top (put (c ∷ []) s)
    else directive c s

-- The top of the loop.
unfoldable pub begin : ℕ → Fmt → Step
begin c s = elim (room s) [ none ↦ stop s | some s' ↦ take c s' ]

unfoldable pub step : Mode → ℕ → List ℕ → Fmt → Step
step top c p s = begin c s
step percent c p s = directive c s
step pad c p s = next width (record s { padc = c })
step width c p s =
    let padw = dstoui (c ∷ p) in
    if is_digit c
    then if ltb padw (2 ^ 31) then next digits (record s { padw = padw }) else bad
    else next top (put (b'%' ∷ b'p' ∷ c ∷ []) s)
step digits c p s = if is_digit c then next digits s else begin c s

-- Whether the loop may come to the terminator in this mode; in the others it goes on behind it.
unfoldable pub may_end : Mode → Bool
may_end top = true
may_end percent = false
may_end pad = false
may_end width = false
may_end digits = true

unfoldable pub run : List ℕ → Mode → Fmt → Option Fmt
run [] m s = if may_end m then some s else none
run (c ∷ p) m s = elim (step m c p s) [ next m' s' ↦ run p m' s' | stop s' ↦ some s' | bad ↦ none ]

-- `buf` is the capacity of the caller's buffer, or none for one that grows; `junk` what `padc` holds at
-- first.
unfoldable pub vsprintf : (buf : Option ℕ) (junk : ℕ) (fmt : List ℕ) → List Arg → Option Fmt
vsprintf none junk fmt args =
    run fmt top (record { out = []; cap = 128; dyn = true; padw = 0; padc = junk; args = args })
vsprintf (some cap) junk fmt args =
    run fmt top (record { out = []; cap = cap; dyn = false; padw = 0; padc = junk; args = args })

-- `M_sprintf`: what it returns, as a string.
unfoldable pub sprintf : (junk : ℕ) (fmt : List ℕ) → List Arg → Option (List ℕ)
sprintf junk fmt args = elim (vsprintf none junk fmt args) [ none ↦ none | some s ↦ some s.out ]
