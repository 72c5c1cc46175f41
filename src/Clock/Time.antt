-- ===== src/Clock/Time.antt =====
-- The time that `get_rtc_time` of src/kernel/rtc.c gives.
use dar_os.Base.{ℕ, ◌+◌, ◌*◌, ◌/◌, ◌%◌, ◌<◌, ◌≡◌, arith}
use dar_os.Clock.{seconds_now, get_rtc_time}

-- The time given is one of a day, and is that many seconds into it: those at boot, and those since, rounded
-- to the nearest one. A day later it is the same.
pub get_rtc_time-in-day :
    (b ms : ℕ)
    → let t = get_rtc_time b ms in
      (t.hours < 24)
      × (t.minutes < 60)
      × (t.seconds < 60)
      × (t.ms < 1000)
      × ((t.hours * 60 + t.minutes) * 60 + t.seconds ≡ (b + (ms + 500) / 1000) % 86400)
      × (get_rtc_time b (ms + 86400000) ≡ t)
unfolding get_rtc_time seconds_now
get_rtc_time-in-day b ms =
    (omega arith, omega arith, omega arith, omega arith, omega arith, ground arith)
