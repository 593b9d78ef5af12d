-- ===== src/GoLib/Calendar.antt =====
-- Dates in the proleptic Gregorian calendar, and the layouts "2006-01-02" and "2006-01-02-15" of
-- `time.Format` and `time.Parse`, for the years 0 to 9999.
pub mod Search
pub mod Texts
use ct_mapreduce.Prelude.{
  ℕ, zero, suc, ◌+◌, ◌-◌, ◌*◌, ◌/◌, ◌%◌, Bool, true, false, ◌&&◌, ◌||◌, not, ltb, leb, ◌==◌, Bytes,
  Option, none, some, [], ◌∷◌, ◌++◌, if◌then◌else◌,
}
use ct_mapreduce.GoLib.Time.{Time, hour}

abbrev day_ns : ℕ
day_ns = 24 * hour

unfoldable pub is_leap : ℕ → Bool
is_leap y = y % 4 == 0 && (not (y % 100 == 0) || y % 400 == 0)

unfoldable pub days_in_year : ℕ → ℕ
unfolding is_leap
days_in_year y = if is_leap y then 366 else 365

-- The days of the months from `m` on, where January is 1.
unfoldable pub days_in_month : ℕ → ℕ → ℕ
unfolding is_leap
days_in_month y m =
    if m == 2
    then (if is_leap y then 29 else 28)
    else (if m == 4 || m == 6 || m == 9 || m == 11 then 30 else 31)

-- The year in which a day falls, counted from year `y`, with the day's number in that year.
unfoldable pub find_year : ℕ → ℕ → ℕ → ℕ × ℕ
find_year zero y d = (y, d)
find_year (suc fuel) y d = elim (ltb d (days_in_year y)) [
  | true ↦ (y, d)
  | false ↦ find_year fuel (suc y) (d - days_in_year y)
]

-- The month in which a day of year `y` falls, counted from month `m`, with the day's number in it.
unfoldable pub find_month : ℕ → ℕ → ℕ → ℕ → ℕ × ℕ
find_month zero y m d = (m, d)
find_month (suc fuel) y m d = elim (ltb d (days_in_month y m)) [
  | true ↦ (m, d)
  | false ↦ find_month fuel y (suc m) (d - days_in_month y m)
]

-- The days of the 400 years of a cycle.
abbrev cycle : ℕ
cycle = 146_097

-- A calendar date with an hour. Years count from -400, a whole cycle before year 0.
pub record Civil : Type 0 where
  pub year : ℕ
  pub month : ℕ
  pub day : ℕ
  pub hour_of_day : ℕ

unfoldable pub civil : Time → Civil
unfolding find_year find_month days_in_year days_in_month
civil t =
    let d : ℕ = t / day_ns in
    let (y, n) = find_year 400 0 (d % cycle) in
    let (m, k) = find_month 12 y 1 n in
    record { year = 400 * (d / cycle) + y; month = m; day = k + 1; hour_of_day = t % day_ns / hour }

-- The days of the first `y` years of a cycle, and of the first months of a year.
unfoldable pub days_before_year : ℕ → ℕ
days_before_year zero = 0
days_before_year (suc y) = days_before_year y + days_in_year y

unfoldable pub days_before_month : ℕ → ℕ → ℕ
days_before_month y zero = 0
days_before_month y (suc zero) = 0
days_before_month y (suc (suc m)) = days_before_month y (suc m) + days_in_month y (suc m)

-- time.Date(year, month, day, hour, 0, 0, 0, time.UTC)
unfoldable pub time_of : Civil → Time
unfolding days_before_year days_before_month days_in_year days_in_month
time_of c =
    (cycle * (c.year / 400)
        + days_before_year (c.year % 400)
        + days_before_month (c.year % 400) c.month
        + (c.day - 1))
      * day_ns
    + c.hour_of_day * hour

abbrev pub digit : ℕ → ℕ
digit n = 48 + n % 10

abbrev pub two_digits : ℕ → Bytes
two_digits n = digit (n / 10) ∷ digit n ∷ []

abbrev pub four_digits : ℕ → Bytes
four_digits n = digit (n / 1000) ∷ digit (n / 100) ∷ digit (n / 10) ∷ digit n ∷ []

abbrev pub dash : ℕ
dash = 45

-- t.Format("2006-01-02")
unfoldable pub format_date : Civil → Bytes
format_date c =
    four_digits (c.year - 400) ++ (dash ∷ two_digits c.month ++ (dash ∷ two_digits c.day))

-- t.Format("2006-01-02-15")
unfoldable pub format_date_hour : Civil → Bytes
unfolding format_date
format_date_hour c = format_date c ++ (dash ∷ two_digits c.hour_of_day)

unfoldable pub is_digit : ℕ → Bool
is_digit c = leb 48 c && leb c 57

-- A date is parsed to its year, month and day, with the text that follows it. The months and days
-- have two digits.
unfoldable pub parse_date : Bytes → Option (Civil × Bytes)
unfolding is_digit
parse_date (a ∷ b ∷ c ∷ d ∷ s1 ∷ m1 ∷ m2 ∷ s2 ∷ d1 ∷ d2 ∷ rest) =
    let year : ℕ = 1000 * (a - 48) + 100 * (b - 48) + 10 * (c - 48) + (d - 48) + 400 in
    let month : ℕ = 10 * (m1 - 48) + (m2 - 48) in
    let day : ℕ = 10 * (d1 - 48) + (d2 - 48) in
    let digits : Bool =
      is_digit a
      && is_digit b
      && is_digit c
      && is_digit d
      && is_digit m1
      && is_digit m2
      && is_digit d1
      && is_digit d2 in
    let in_range : Bool =
      ltb 0 month && leb month 12 && ltb 0 day && leb day (days_in_month year month) in
    if digits && s1 == dash && s2 == dash && in_range
    then some (record { year = year; month = month; day = day; hour_of_day = 0 }, rest)
    else none
parse_date s = none

-- time.Parse("2006-01-02", s)
unfoldable pub parse_day : Bytes → Option Civil
unfolding parse_date
parse_day s = elim (parse_date s) [ none ↦ none | some (c, []) ↦ some c | some (c, x ∷ r) ↦ none ]

abbrev with_hour : Civil → ℕ → Option Civil
with_hour c h = if ltb h 24 then some (record c { hour_of_day = h }) else none

-- The hour of the layout may have one digit or two.
unfoldable pub parse_hour : Civil → Bytes → Option Civil
unfolding is_digit
parse_hour c (s ∷ h ∷ []) = if s == dash && is_digit h then with_hour c (h - 48) else none
parse_hour c (s ∷ h1 ∷ h2 ∷ []) =
    if s == dash && is_digit h1 && is_digit h2
    then with_hour c (10 * (h1 - 48) + (h2 - 48))
    else none
parse_hour c s = none

-- time.Parse("2006-01-02-15", s)
unfoldable pub parse_day_hour : Bytes → Option Civil
unfolding parse_date parse_hour
parse_day_hour s = elim (parse_date s) [ none ↦ none | some (c, rest) ↦ parse_hour c rest ]
