-- ===== src/GoLib/Calendar/Texts.antt =====
-- The texts of dates: what is formatted is parsed back.
use ct_mapreduce.Prelude.{
  ℕ, ◌+◌, ◌-◌, ◌*◌, ◌/◌, ◌%◌, ◌<◌, ◌≤◌, true, Bytes, some, [], ◌∷◌, append-nil, ◌++◌, ◌≡◌, refl, ap,
  arith,
}
use ct_mapreduce.GoLib.Calendar.{
  Civil, civil, time_of, days_in_month, days_before_year, days_before_month, find_year, find_month,
  digit, dash, two_digits, is_digit, format_date, format_date_hour, parse_date, parse_day,
  parse_hour, parse_day_hour,
}
use ct_mapreduce.GoLib.Calendar.Search.{YearOf, MonthOf, year_of, month_of, days_in_month_cycle}
use ct_mapreduce.GoLib.Time.{Time, hour, truncate}

-- A date of the years 0 to 9999.
pub record IsDate (c : Civil) : Type 0 where
  pub year_from : 400 ≤ c.year
  pub year_to : c.year < 10_400
  pub month_from : 0 < c.month
  pub month_to : c.month ≤ 12
  pub day_from : 0 < c.day
  pub day_to : c.day ≤ days_in_month c.year c.month
  pub hour_to : c.hour_of_day < 24

is_digit-digit : (n : ℕ) → is_digit (digit n) ≡ true
unfolding is_digit
is_digit-digit n = ground arith

two : (n : ℕ) → n < 100 → 10 * (digit (n / 10) - 48) + (digit n - 48) ≡ n
two n h = omega arith

four :
    (n : ℕ)
    → n < 10_000
    → 1000 * (digit (n / 1000) - 48)
        + 100 * (digit (n / 100) - 48)
        + 10 * (digit (n / 10) - 48)
        + (digit n - 48)
      ≡ n
four n h = omega arith

days_in_month-bound : (y m : ℕ) → days_in_month y m < 100
unfolding days_in_month
days_in_month-bound y m = ground arith

at_year : (n : ℕ) → 400 ≤ n → n - 400 + 400 ≡ n
at_year n h = omega arith

parse_date-format_date :
    (c : Civil) (rest : Bytes)
    → IsDate c
    → parse_date (format_date c ++ rest) ≡ some (record c { hour_of_day = 0 }, rest)
unfolding parse_date format_date
parse_date-format_date c rest d =
    let y = four (c.year - 400) (omega (arith, d.year_to)) in
    let m = two c.month (omega (arith, d.month_to)) in
    let k = two c.day (omega (arith, d.day_to, days_in_month-bound c.year c.month)) in
    let g = is_digit-digit in
    rw
      (
        y,
        m,
        k,
        at_year c.year d.year_from,
        g ((c.year - 400) / 1000),
        g ((c.year - 400) / 100),
        g ((c.year - 400) / 10),
        g (c.year - 400),
        g (c.month / 10),
        g c.month,
        g (c.day / 10),
        g c.day,
      )
      (ground (arith, d.month_from, d.month_to, d.day_from, d.day_to))

parse_hour-two_digits :
    (c : Civil) (h : ℕ)
    → h < 24
    → parse_hour c (dash ∷ two_digits h) ≡ some (record c { hour_of_day = h })
unfolding parse_hour
parse_hour-two_digits c h small =
    rw (is_digit-digit (h / 10), is_digit-digit h, two h (omega (arith, small))) (ground arith)

-- A date of the years 0 to 9999 is parsed back from its text.
pub parse_day_hour-format_date_hour :
    (c : Civil) → IsDate c → parse_day_hour (format_date_hour c) ≡ some c
unfolding parse_day_hour format_date_hour
parse_day_hour-format_date_hour c d =
    rw (parse_date-format_date c (dash ∷ two_digits c.hour_of_day) d, parse_day_hour)
      (parse_hour-two_digits (record c { hour_of_day = 0 }) c.hour_of_day d.hour_to)

pub parse_day-format_date :
    (c : Civil) → IsDate c → parse_day (format_date c) ≡ some (record c { hour_of_day = 0 })
unfolding parse_day
parse_day-format_date c d =
    let h = parse_date-format_date c [] d in ground (arith, rw append-nil at h)

time_of-parts :
    (q y m j h : ℕ)
    → y < 400
    → time_of (record { year = 400 * q + y; month = m; day = j + 1; hour_of_day = h })
      ≡ (146_097 * q + days_before_year y + days_before_month y m + j) * (24 * hour) + h * hour
unfolding time_of
time_of-parts q y m j h small =
    let cycles : (400 * q + y) / 400 ≡ q = omega (arith, small) in
    let in_cycle : (400 * q + y) % 400 ≡ y = omega (arith, small) in
    let day : j + 1 - 1 ≡ j = omega arith in rw (cycles, in_cycle, day) refl

-- The day of a time as it is counted in its cycle, and what the searches make of it.
abbrev day_of : Time → ℕ
day_of t = t / (24 * hour)

abbrev year_found : Time → ℕ × ℕ
year_found t = find_year 400 0 (day_of t % 146_097)

abbrev month_found : Time → ℕ × ℕ
month_found t = find_month 12 (year_found t).0 1 (year_found t).1

civil_parts :
    (t : Time)
    → civil t ≡ record {
      year = 400 * (day_of t / 146_097) + (year_found t).0;
      month = (month_found t).0;
      day = (month_found t).1 + 1;
      hour_of_day = t % (24 * hour) / hour;
    }
unfolding civil
civil_parts t = refl

in_cycle : (t : Time) → YearOf 400 (day_of t % 146_097) (year_found t)
in_cycle t = year_of (day_of t % 146_097) (omega arith)

in_year : (t : Time) → MonthOf (year_found t).0 13 (year_found t).1 (month_found t)
in_year t = month_of (year_found t).0 (year_found t).1 (in_cycle t).rest

-- The time of the date of a time is that time, cut to the hour.
pub time_of-civil : (t : Time) → time_of (civil t) ≡ truncate t hour
time_of-civil t =
    let y = in_cycle t in
    let m = in_year t in
    rw
      (
        civil_parts t,
        time_of-parts (day_of t / 146_097) (year_found t).0 (month_found t).0 (month_found t).1
            (t % (24 * hour) / hour) y.below,
      )
      (omega (arith, y.sum, m.sum))

-- The times of the years 0 to 9999.
pub record IsWritten (t : Time) : Type 0 where
  pub from : 146_097 * (24 * hour) ≤ t
  pub to : t < 26 * 146_097 * (24 * hour)

pub civil-IsDate : (t : Time) → IsWritten t → IsDate (civil t)
civil-IsDate t w =
    let y = in_cycle t in
    let m = in_year t in
    rw (civil_parts t) (record {
      year_from = omega (arith, w.from);
      year_to = omega (arith, w.to, y.below);
      month_from = m.positive;
      month_to = omega (arith, m.below);
      day_from = omega arith;
      day_to =
          rw (days_in_month_cycle (day_of t / 146_097) (year_found t).0 (month_found t).0)
            (omega (arith, m.rest));
      hour_to = omega arith;
    })

pub civil-hour : (t : Time) → (civil t).hour_of_day ≡ t % (24 * hour) / hour
civil-hour t = ap (λ (c : Civil). c.hour_of_day) (civil_parts t)
