-- ===== src/GoLib/Time.antt =====
-- Go's `time.Time` as the nanoseconds since midnight of 1 January of the year -400 (UTC), which is a
-- whole number of 400-year cycles before the year 0, and `time.Duration` as nanoseconds. Every time
-- that a certificate or an identifier can name is far from 0, so `-` on ℕ does not stop there.
use ct_mapreduce.Prelude.{ℕ, ◌*◌, ◌-◌, ◌%◌, Bool, ltb}

abbrev pub Time : Type 0
Time = ℕ

abbrev pub Duration : Type 0
Duration = ℕ

abbrev pub millisecond : Duration
millisecond = 1_000_000

abbrev pub second : Duration
second = 1_000 * millisecond

abbrev pub minute : Duration
minute = 60 * second

abbrev pub hour : Duration
hour = 60 * minute

-- t.Before(u)
abbrev pub before : Time → Time → Bool
before t u = ltb t u

-- t.Truncate(d), for a `d` that divides a day: the zero time of Go is a midnight too.
abbrev pub truncate : Time → Duration → Time
truncate t d = t - t % d

-- time.Time{}, which is 1 January of the year 1
abbrev pub zero_time : Time
zero_time = 146_463 * 24 * hour
