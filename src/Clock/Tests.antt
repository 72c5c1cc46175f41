-- ===== src/Clock/Tests.antt =====
-- The clock of src/kernel/rtc.c at concrete times.
use dar_os.Base.{◌+◌, ◌*◌, ◌/◌, ◌%◌, ◌<◌, ◌≡◌, ◌==◌, if◌then◌else◌, arith}
use dar_os.Clock.{sync_rtc_seconds, get_rtc_time}
use dar_os.Clock.TwelveHours.{
  afternoon, morning, binary_afternoon, binary_morning, sync_rtc_seconds-twelve,
}
use dar_os.Clock.Time.{get_rtc_time-in-day}

sync_rtc_seconds-twelve_example :
    (sync_rtc_seconds (afternoon 12 30 0) ≡ ((if 12 == 12 then 0 else 12 + 12) * 60 + 30) * 60 + 0)
    × (sync_rtc_seconds (morning 12 30 0) ≡ ((80 + 12) * 60 + 30) * 60 + 0)
    × (sync_rtc_seconds (binary_afternoon 12 30 0)
        ≡ ((if 12 == 12 then 0 else 12 + 12) * 60 + 30) * 60 + 0)
    × (sync_rtc_seconds (binary_morning 12 30 0) ≡ ((128 + 12) * 60 + 30) * 60 + 0)
sync_rtc_seconds-twelve_example =
    sync_rtc_seconds-twelve 12 30 0 (omega arith) (omega arith) (omega arith) (omega arith)

get_rtc_time-in-day_example :
    let t = get_rtc_time 86399 1700 in
    (t.hours < 24)
    × (t.minutes < 60)
    × (t.seconds < 60)
    × (t.ms < 1000)
    × ((t.hours * 60 + t.minutes) * 60 + t.seconds ≡ (86399 + (1700 + 500) / 1000) % 86400)
    × (get_rtc_time 86399 (1700 + 86400000) ≡ t)
get_rtc_time-in-day_example = get_rtc_time-in-day 86399 1700
