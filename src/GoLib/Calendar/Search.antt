-- ===== src/GoLib/Calendar/Search.antt =====
-- The searches of the calendar: the day of a time has one year and one month.
use ct_mapreduce.Prelude.{
  ℕ, zero, suc, ◌+◌, ◌-◌, ◌*◌, ◌%◌, ◌<◌, ltb, ◌≡◌, refl, arith, Bool-cases, inl, inr,
}
use ct_mapreduce.GoLib.Calendar.{
  is_leap, days_in_year, days_in_month, days_before_year, days_before_month, find_year, find_month,
}

-- What a search for the year is to find, for a day counted from the cycle's first.
pub record YearOf (limit total : ℕ) (r : ℕ × ℕ) : Type 0 where
  pub sum : days_before_year r.0 + r.1 ≡ total
  pub below : r.0 < limit
  pub rest : r.1 < days_in_year r.0

find_year-YearOf :
    (fuel y d limit : ℕ)
    → limit ≡ y + fuel
    → days_before_year y + d < days_before_year limit
    → YearOf limit (days_before_year y + d) (find_year fuel y d)
unfolding find_year days_before_year
find_year-YearOf zero y d limit at h =
    let same : limit ≡ y = omega arith in absurd (omega (arith, rw same at h))
find_year-YearOf (suc fuel) y d limit at h = elim (Bool-cases (ltb d (days_in_year y))) [
  | inl small ↦
      rw (small, find_year) (record { sum = refl; below = omega arith; rest = ground arith })
  | inr large ↦
      let same : days_before_year (suc y) + (d - days_in_year y) ≡ days_before_year y + d =
        ground arith in
      let later =
        find_year-YearOf fuel (suc y) (d - days_in_year y) limit (omega arith) (rw same h) in
      rw (large, find_year) (rw same at later)
]

pub record MonthOf (y limit total : ℕ) (r : ℕ × ℕ) : Type 0 where
  pub sum : days_before_month y r.0 + r.1 ≡ total
  pub positive : 0 < r.0
  pub below : r.0 < limit
  pub rest : r.1 < days_in_month y r.0

find_month-MonthOf :
    (fuel y m d limit : ℕ)
    → limit ≡ suc m + fuel
    → days_before_month y (suc m) + d < days_before_month y limit
    → MonthOf y limit (days_before_month y (suc m) + d) (find_month fuel y (suc m) d)
unfolding find_month days_before_month
find_month-MonthOf zero y m d limit at h =
    let same : limit ≡ suc m = omega arith in absurd (omega (arith, rw same at h))
find_month-MonthOf (suc fuel) y m d limit at h =
    elim (Bool-cases (ltb d (days_in_month y (suc m)))) [
      | inl small ↦
          rw (small, find_month)
            (record {
              sum = refl;
              positive = omega arith;
              below = omega arith;
              rest = ground arith;
            })
      | inr large ↦
          let same : days_before_month y (suc (suc m)) + (d - days_in_month y (suc m))
              ≡ days_before_month y (suc m) + d =
            ground arith in
          let later =
            find_month-MonthOf fuel y (suc m) (d - days_in_month y (suc m)) limit (omega arith)
              (rw same h) in
          rw (large, find_month) (rw same at later)
    ]

days_of_cycle : days_before_year 400 ≡ 146_097
unfolding days_before_year days_in_year is_leap
days_of_cycle = refl

days_of_year : (y : ℕ) → days_before_month y 13 ≡ days_in_year y
unfolding days_before_month days_in_month days_in_year
days_of_year y = ground arith

-- The years of two cycles have the same months.
pub days_in_month_cycle : (q y m : ℕ) → days_in_month (400 * q + y) m ≡ days_in_month y m
unfolding days_in_month is_leap
days_in_month_cycle q y m =
    let by_4 : (400 * q + y) % 4 ≡ y % 4 = omega arith in
    let by_100 : (400 * q + y) % 100 ≡ y % 100 = omega arith in
    let by_400 : (400 * q + y) % 400 ≡ y % 400 = omega arith in rw (by_4, by_100, by_400) refl

pub year_of : (n : ℕ) → n < 146_097 → YearOf 400 n (find_year 400 0 n)
unfolding days_before_year
year_of n h =
    let start : days_before_year 0 + n ≡ n = omega arith in
    rw start at (find_year-YearOf 400 0 n 400 refl (rw (days_of_cycle, start) h))

pub month_of : (y k : ℕ) → k < days_in_year y → MonthOf y 13 k (find_month 12 y 1 k)
unfolding days_before_month
month_of y k h =
    let start : days_before_month y 1 + k ≡ k = omega arith in
    rw start at (find_month-MonthOf 12 y 0 k 13 refl (rw (days_of_year, start) h))
