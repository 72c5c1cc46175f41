-- ===== src/Strings/Room.antt =====
-- The room that is left in the buffer of `M_vsprintf` of src/lib/strings.c in each of its modes.
use dar_os.Base.{
  ℕ, zero, suc, ◌+◌, ◌≤◌, ◌≡◌, refl, ap, Bool, true, false, Option, some, List, ◌++◌, ltb,
  if◌then◌else◌, arith, length, length-append,
}
use dar_os.Strings.Format.{
  Arg, Fmt, Mode, top, percent, pad, width, digits, Step, next, stop, bad, put, room, repeat, trim,
  fit, emit,
}

-- The bytes that a mode may still store without another test, the terminator included.
unfoldable pub reserve : Mode → ℕ
reserve top = 1
reserve percent = 4
reserve pad = 4
reserve width = 4
reserve digits = 1

-- There is room for those; a buffer that grows has at least 128 bytes, and the caller's is as it
-- was.
pub record Fits (buf : Option ℕ) (m : Mode) (s : Fmt) : Type 0 where
  pub room : length s.out + reserve m ≤ s.cap
  pub grows : s.dyn ≡ true → 128 ≤ s.cap
  pub fixed : (cap : ℕ) → buf ≡ some cap → (s.dyn ≡ false) × (s.cap ≡ cap)

-- What a step leaves has room.
unfoldable pub StepFits : Option ℕ → Step → Type 0
StepFits buf (next m s) = Fits buf m s
StepFits buf (stop s) = Fits buf top s
StepFits buf bad = Unit

pub some-injective : {s t : Fmt} → some s ≡ some t → s ≡ t
some-injective e = cc

pub length-repeat : (n c : ℕ) → length (repeat n c) ≡ n
unfolding repeat
length-repeat zero c = refl
length-repeat (suc n) c = ap suc (length-repeat n c)

pub length-emitted :
    (out : List ℕ) (n c : ℕ) (u : List ℕ)
    → length (out ++ (repeat n c ++ u)) ≡ length out + length u + n
length-emitted out n c u =
    omega
      (arith, length-append out (repeat n c ++ u), length-append (repeat n c) u, length-repeat n c)

-- The two tests with which `emit` ends.
pub grown-Fits :
    (short grows : Bool) (buf : Option ℕ) (needed : ℕ) (s done : Fmt)
    → ltb s.cap needed ≡ short
    → s.dyn ≡ grows
    → length done.out + 1 ≡ needed
    → done.cap ≡ s.cap
    → done.dyn ≡ s.dyn
    → Fits buf top s
    → StepFits buf (
        if short
        then (if grows then next top (record done { cap = needed }) else stop s)
        else next top done)
unfolding StepFits reserve
grown-Fits true true buf needed s done short dyn len c d f = record {
  room = omega (arith, len);
  grows = λ e. ground (arith, f.grows dyn);
  fixed = λ cap e. ground (arith, f.fixed cap e);
}
grown-Fits true false buf needed s done short dyn len c d f = f
grown-Fits false grows buf needed s done short dyn len c d f = record {
  room = ground arith;
  grows = λ e. ground (arith, f.grows);
  fixed = λ cap e. ground (arith, f.fixed cap e);
}

pub emit-Fits :
    (buf : Option ℕ) (c : ℕ) (t : List ℕ) (s : Fmt) → Fits buf top s → StepFits buf (emit c t s)
unfolding emit
emit-Fits buf c t s f =
    let n = (fit c s.padw (trim c s t)).0 in
    let u = (fit c s.padw (trim c s t)).1 in
    grown-Fits (ltb s.cap (length s.out + length u + n + 1)) s.dyn buf
      (length s.out + length u + n + 1) s (record (put (repeat n s.padc ++ u) s) { padw = 0 }) refl
      refl (ap (λ x. x + 1) (length-emitted s.out n s.padc u)) refl refl f

-- Storing up to three bytes after the test for room.
pub put-Fits :
    (buf : Option ℕ) (t : List ℕ) (s : Fmt)
    → length t ≤ 3
    → Fits buf percent s
    → Fits buf top (put t s)
unfolding reserve
put-Fits buf t s le f = record {
  room = omega (arith, length-append s.out t, f.room);
  grows = f.grows;
  fixed = f.fixed;
}

pub relax : {buf : Option ℕ} {s : Fmt} → Fits buf percent s → Fits buf top s
unfolding reserve
relax f = record { room = omega (arith, f.room); grows = f.grows; fixed = f.fixed }

pub with_args :
    {buf : Option ℕ} {s : Fmt} (args : List Arg)
    → Fits buf percent s
    → Fits buf top (record s { args = args })
unfolding reserve
with_args args f = record { room = omega (arith, f.room); grows = f.grows; fixed = f.fixed }

pub to_pad : {buf : Option ℕ} {s : Fmt} → Fits buf percent s → Fits buf pad s
unfolding reserve
to_pad f = record { room = f.room; grows = f.grows; fixed = f.fixed }

pub to_width :
    {buf : Option ℕ} {s : Fmt} (c : ℕ) → Fits buf pad s → Fits buf width (record s { padc = c })
unfolding reserve
to_width c f = record { room = f.room; grows = f.grows; fixed = f.fixed }

pub from_width : {buf : Option ℕ} {s : Fmt} → Fits buf width s → Fits buf percent s
unfolding reserve
from_width f = record { room = f.room; grows = f.grows; fixed = f.fixed }

pub to_digits :
    {buf : Option ℕ} {s : Fmt} (n : ℕ) → Fits buf width s → Fits buf digits (record s { padw = n })
unfolding reserve
to_digits n f = record { room = omega (arith, f.room); grows = f.grows; fixed = f.fixed }

pub to_top : {buf : Option ℕ} {s : Fmt} → Fits buf digits s → Fits buf top s
unfolding reserve
to_top f = record { room = f.room; grows = f.grows; fixed = f.fixed }

pub room-Fits :
    (buf : Option ℕ) (s s' : Fmt) → Fits buf top s → room s ≡ some s' → Fits buf percent s'
unfolding room reserve
room-Fits buf s s' f e = record {
  room = ground (arith, f.room, f.grows);
  grows = λ d. ground (arith, f.grows);
  fixed = λ cap d. ground (arith, f.fixed cap d);
}

pub branch :
    (buf : Option ℕ) (b : Bool) (x y : Step)
    → StepFits buf x
    → StepFits buf y
    → StepFits buf (if b then x else y)
branch buf true x y hx hy = hx
branch buf false x y hx hy = hy

pub unit : (buf : Option ℕ) → StepFits buf bad
unfolding StepFits
unit cap = tt

pub at : {buf : Option ℕ} {m : Mode} {s : Fmt} → Fits buf m s → StepFits buf (next m s)
unfolding StepFits
at f = f

pub ended : {buf : Option ℕ} {s : Fmt} → Fits buf top s → StepFits buf (stop s)
unfolding StepFits
ended f = f
