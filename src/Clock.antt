-- ===== src/Clock.antt =====
-- `time.Time` as nanoseconds since Go's zero time, and durations of at least 0 in nanoseconds.
use alertory.Prelude.{ℕ, ◌*◌, ◌/◌}

abbrev pub Time : Type 0
Time = ℕ

abbrev pub Duration : Type 0
Duration = ℕ

abbrev pub second : Duration
second = 1000000000

-- `fmt.Sprintf("%d seconds", int(d.Seconds()))` as a Postgres interval.
abbrev pub interval : Duration → Duration
interval d = d / second * second
