-- ===== src/Clock/TwelveHours.antt =====
-- What `sync_rtc_seconds` of src/kernel/rtc.c makes of a clock that counts 12 hours, in decimal digits or in binary, with a
-- bit for the afternoon.
use Prim.Native.Nat.{bit_and, bit_xor}
use dar_os.Base.{
  ℕ, zero, suc, ◌+◌, ◌*◌, ◌≤◌, ◌<◌, ◌≡◌, refl, Bool, true, ◌&&◌, ◌==◌, if◌then◌else◌, arith,
  Bool-cases, inl, inr,
}
use dar_os.Clock.{Reading, pm_bit, bcd_off, from_bcd, sync_rtc_seconds}
use dar_os.Clock.Registers.{to_bcd, from_bcd-to_bcd}

-- The readings of a clock that counts in decimal digits.
abbrev pub afternoon : (h m s : ℕ) → Reading
afternoon h m s = record { sec = to_bcd s; min = to_bcd m; hr = pm_bit + to_bcd h; srb = 0 }

abbrev pub morning : (h m s : ℕ) → Reading
morning h m s = record { sec = to_bcd s; min = to_bcd m; hr = to_bcd h; srb = 0 }

-- Those of one that counts in binary.
abbrev pub binary_afternoon : (h m s : ℕ) → Reading
binary_afternoon h m s = record { sec = s; min = m; hr = pm_bit + h; srb = bcd_off }

abbrev pub binary_morning : (h m s : ℕ) → Reading
binary_morning h m s = record { sec = s; min = m; hr = h; srb = bcd_off }

-- The bit operations on an hour, of less than 128.
unfoldable bits_fit : ℕ → Bool
bits_fit x =
    bit_xor (128 + x) 128 == x
    && bit_and (128 + x) 128 == 128
    && bit_xor x 128 == 128 + x
    && bit_and x 128 == 0

unfoldable all_fit : ℕ → Bool
all_fit zero = true
all_fit (suc n) = bits_fit n && all_fit n

all_fit_lem : (n x : ℕ) → all_fit n ≡ true → x < n → bits_fit x ≡ true
unfolding all_fit
all_fit_lem zero x e lt = absurd (omega arith)
all_fit_lem (suc n) x e lt = elim (Bool-cases (x == n)) [
  | inl same ↦ ground arith
  | inr other ↦ all_fit_lem n x (ground arith) (ground arith)
]

all_fit-bit : all_fit 128 ≡ true
unfolding all_fit bits_fit
all_fit-bit = refl

bits :
    (x : ℕ)
    → x < 128
    → (bit_xor (128 + x) 128 ≡ x)
      × (bit_and (128 + x) 128 ≡ 128)
      × (bit_xor x 128 ≡ 128 + x)
      × (bit_and x 128 ≡ 0)
unfolding bits_fit
bits x lt =
    let f = all_fit_lem 128 x all_fit-bit lt in
    (ground arith, ground arith, ground arith, ground arith)

small-to_bcd : (h : ℕ) → h ≤ 12 → to_bcd h < 128
unfolding to_bcd
small-to_bcd h le = omega arith

high-from_bcd : (h : ℕ) → h ≤ 12 → from_bcd (128 + to_bcd h) ≡ 80 + h
unfolding from_bcd to_bcd
high-from_bcd h le = omega arith

-- From a clock of 12 hours, in decimal digits or in binary, the time read is right from one in the afternoon on, until before
-- midnight. At noon it is midnight's, and before noon its hour is greater than the clock's by 80 if that counts in decimal
-- digits and by 128 if it counts in binary.
pub sync_rtc_seconds-twelve :
    (h m s : ℕ)
    → 1 ≤ h
    → h ≤ 12
    → m < 60
    → s < 60
    → (sync_rtc_seconds (afternoon h m s) ≡ ((if h == 12 then 0 else h + 12) * 60 + m) * 60 + s)
      × (sync_rtc_seconds (morning h m s) ≡ ((80 + h) * 60 + m) * 60 + s)
      × (sync_rtc_seconds (binary_afternoon h m s)
          ≡ ((if h == 12 then 0 else h + 12) * 60 + m) * 60 + s)
      × (sync_rtc_seconds (binary_morning h m s) ≡ ((128 + h) * 60 + m) * 60 + s)
unfolding sync_rtc_seconds
sync_rtc_seconds-twelve h m s ge le lm ls =
    let (a, b, c, d) = bits (to_bcd h) (small-to_bcd h le) in
    let (a', b', c', d') = bits h (omega arith) in
    let bh = from_bcd-to_bcd h (omega arith) in
    let bm = from_bcd-to_bcd m (omega arith) in
    let bs = from_bcd-to_bcd s (omega arith) in
    let hi = high-from_bcd h le in
    (
      rw (b, a, bh, bm, bs) (ground arith),
      rw (d, c, hi, bm, bs) (ground arith),
      rw (b', a') (ground arith),
      rw (d', c') (ground arith),
    )
