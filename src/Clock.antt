-- ===== src/Clock.antt =====
-- src/kernel/rtc.c: the time of day from the clock's registers and the milliseconds since boot.
--
-- A reading is the nine bytes that `read` stores, with the register SRB last; `sync_rtc_seconds` repeats
-- its readings until two are equal, and the model takes that one.
pub mod Registers
pub mod TwelveHours
pub mod Time
mod Tests
use Prim.Native.Nat.{bit_and, bit_xor}
use dar_os.Base.{ℕ, ◌+◌, ◌*◌, ◌/◌, ◌%◌, ◌^◌, Bool, true, ◌&&◌, ◌==◌, if◌then◌else◌}

-- The bytes of a reading that make up the time of day, and SRB.
pub record Reading : Type 0 where
  pub sec : ℕ
  pub min : ℕ
  pub hr : ℕ
  pub srb : ℕ

abbrev pub pm_bit : ℕ
pm_bit = 128

abbrev pub hrs24 : ℕ
hrs24 = 2

abbrev pub bcd_off : ℕ
bcd_off = 4

-- `c[i] = (c[i] >> 4) * 10 + (c[i] & 0x0f)`, in 8 bits.
unfoldable pub from_bcd : ℕ → ℕ
from_bcd c = (c / 16 * 10 + c % 16) % 2 ^ 8

-- `rtc_seconds` after `sync_rtc_seconds`.
unfoldable pub sync_rtc_seconds : Reading → ℕ
sync_rtc_seconds a =
    let clock12 = bit_and a.srb hrs24 == 0 in
    let pm = if clock12 then bit_and a.hr pm_bit else 0 in
    let raw = if clock12 then bit_xor a.hr pm_bit else a.hr in
    let bcd = bit_and a.srb bcd_off == 0 in
    let hours = if bcd then from_bcd raw else raw in
    let minutes = if bcd then from_bcd a.min else a.min in
    let seconds = if bcd then from_bcd a.sec else a.sec in
    let hours' = if pm == 0 then hours else (hours + 12) % 2 ^ 8 in
    let hours'' = if hours' == 24 then 0 else hours' in (hours'' * 60 + minutes) * 60 + seconds

pub record RtcTime : Type 0 where
  pub seconds : ℕ
  pub minutes : ℕ
  pub hours : ℕ
  pub ms : ℕ

-- `rtc_seconds` as `get_rtc_time` sets it.
unfoldable pub seconds_now : (seconds_at_boot ms_since_boot : ℕ) → ℕ
seconds_now seconds_at_boot ms_since_boot =
    (seconds_at_boot + (ms_since_boot + 500) / 1000) % (60 * 60 * 24)

unfoldable pub get_rtc_time : (seconds_at_boot ms_since_boot : ℕ) → RtcTime
get_rtc_time seconds_at_boot ms_since_boot =
    let s = seconds_now seconds_at_boot ms_since_boot in
    record {
      ms = ms_since_boot % 1000;
      seconds = s % 60;
      minutes = s / 60 % 60;
      hours = s / 60 / 60 % 2 ^ 8;
    }
