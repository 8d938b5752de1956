-- ===== src/Daemon/Clock.antt =====
-- Go's time.Time and time.Duration as nanoseconds. A time counts from Go's zero time, so that
-- IsZero is a comparison with 0. `-` stops at 0 where Time.Sub would go negative; the source
-- compares such a difference only with a positive bound from below, which both then miss.
use em_xray.Prelude.{ℕ, ◌*◌}

abbrev pub second : ℕ
second = 1000000000

abbrev pub minute : ℕ
minute = 60 * second

abbrev pub hour : ℕ
hour = 60 * minute
