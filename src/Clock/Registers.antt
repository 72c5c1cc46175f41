-- ===== src/Clock/Registers.antt =====
-- What `sync_rtc_seconds` of src/kernel/rtc.c makes of the clock's registers, which hold binary numbers or
-- decimal digits.

use dar_os.Base.{ℕ, ◌+◌, ◌*◌, ◌/◌, ◌%◌, ◌<◌, ◌≡◌, arith}
use dar_os.Clock.{Reading, from_bcd, sync_rtc_seconds}

-- How the clock writes a number below 100.
unfoldable pub to_bcd : ℕ → ℕ
to_bcd n = n / 10 * 16 + n % 10

pub from_bcd-to_bcd : (n : ℕ) → n < 100 → from_bcd (to_bcd n) ≡ n
unfolding from_bcd to_bcd
from_bcd-to_bcd n lt = omega arith

-- A clock that counts 24 hours in decimal digits.
abbrev pub digits24 : (h m s : ℕ) → Reading
digits24 h m s = record { sec = to_bcd s; min = to_bcd m; hr = to_bcd h; srb = 2 }

-- One that counts them in binary.
abbrev pub binary24 : (h m s : ℕ) → Reading
binary24 h m s = record { sec = s; min = m; hr = h; srb = 6 }

-- From a clock of 24 hours, in decimal digits or in binary, the time read is the clock's.
pub sync_rtc_seconds-digits24 :
    (h m s : ℕ)
    → h < 24
    → m < 60
    → s < 60
    → (sync_rtc_seconds (digits24 h m s) ≡ (h * 60 + m) * 60 + s)
      × (sync_rtc_seconds (binary24 h m s) ≡ (h * 60 + m) * 60 + s)
unfolding sync_rtc_seconds
sync_rtc_seconds-digits24 h m s lh lm ls = (
  ground (
    arith,
    from_bcd-to_bcd h (omega arith),
    from_bcd-to_bcd m (omega arith),
    from_bcd-to_bcd s (omega arith),
  ),
  ground arith,
)
