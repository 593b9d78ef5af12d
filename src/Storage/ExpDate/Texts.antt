-- ===== src/Storage/ExpDate/Texts.antt =====
-- The dates that NewExpDate reads survive their texts.
use ct_mapreduce.Prelude.{
  ◌+◌, ◌-◌, ◌*◌, true, false, Bytes, ok, length, ◌≡◌, refl, sym, ap, ◌∙◌, arith,
}
use ct_mapreduce.GoLib.Calendar.{Civil, civil, format_date, format_date_hour}
use ct_mapreduce.GoLib.Calendar.Texts.{
  IsWritten, civil-IsDate, time_of-civil, civil-hour, parse_day-format_date,
  parse_day_hour-format_date_hour,
}
use ct_mapreduce.GoLib.Time.{Time, hour, millisecond, truncate}
use ct_mapreduce.Storage.ExpDate.{
  ExpDate, new_exp_date, new_exp_date_day, new_exp_date_from_time, id,
}

-- The dates of the hour and of the day of a time.
abbrev pub hour_date : Time → ExpDate
hour_date t = record {
  date = truncate t hour;
  last_good = truncate t hour + hour - millisecond;
  hour_resolution = true;
}

abbrev pub day_date : Time → ExpDate
day_date t = record {
  date = truncate t (24 * hour);
  last_good = truncate t (24 * hour) + 24 * hour - millisecond;
  hour_resolution = false;
}

truncate-IsWritten : (t : Time) → IsWritten t → IsWritten (truncate t hour)
truncate-IsWritten t w = record { from = omega (arith, w.from); to = omega (arith, w.to) }

day-IsWritten : (t : Time) → IsWritten t → IsWritten (truncate t (24 * hour))
day-IsWritten t w = record { from = omega (arith, w.from); to = omega (arith, w.to) }

again : (t : Time) → truncate (truncate t hour) hour ≡ truncate t hour
again t = omega arith

hour_length : (c : Civil) → length (format_date_hour c) ≡ 13
unfolding format_date_hour format_date
hour_length c = refl

day_length : (c : Civil) → length (format_date c) ≡ 10
unfolding format_date
day_length c = refl

hour_lem : (t : Time) → IsWritten t → new_exp_date (id (hour_date t)) ≡ ok (hour_date t)
unfolding new_exp_date id
hour_lem t w =
    let t0 = truncate t hour in
    let parsed =
      parse_day_hour-format_date_hour (civil t0) (civil-IsDate t0 (truncate-IsWritten t w)) in
    rw (parsed, time_of-civil t0, again t, hour_length (civil t0)) refl

-- A midnight has the hour 0.
midnight_hour :
    (t : Time)
    → record (civil (truncate t (24 * hour))) { hour_of_day = 0 } ≡ civil (truncate t (24 * hour))
midnight_hour t =
    let c = civil (truncate t (24 * hour)) in
    let zero_hour : c.hour_of_day ≡ 0 = civil-hour (truncate t (24 * hour)) ∙ omega arith in
    ap (λ h. record c { hour_of_day = h }) (sym zero_hour)

midnight_again : (t : Time) → truncate (truncate t (24 * hour)) hour ≡ truncate t (24 * hour)
midnight_again t = omega arith

short_lem : (s : Bytes) → length s ≡ 10 → new_exp_date s ≡ new_exp_date_day s
unfolding new_exp_date
short_lem s h = rw h refl

day_lem : (t : Time) → IsWritten t → new_exp_date (id (day_date t)) ≡ ok (day_date t)
unfolding new_exp_date_day id
day_lem t w =
    let t0 = truncate t (24 * hour) in
    let parsed = parse_day-format_date (civil t0) (civil-IsDate t0 (day-IsWritten t w)) in
    short_lem (format_date (civil t0)) (day_length (civil t0))
    ∙ rw (parsed, new_exp_date_day, midnight_hour t, time_of-civil t0, midnight_again t) refl

-- The dates of the hour and of the day of a time of the years 0 to 9999 survive their texts, and
-- the date that NewExpDateFromTime makes of the time has the text of its hour.
pub new_exp_date-id :
    (t : Time)
    → IsWritten t
    → (new_exp_date (id (hour_date t)) ≡ ok (hour_date t))
      × (new_exp_date (id (day_date t)) ≡ ok (day_date t))
      × (new_exp_date (id (new_exp_date_from_time t)) ≡ ok (hour_date t))
unfolding id new_exp_date_from_time
new_exp_date-id t w = (hour_lem t w, day_lem t w, hour_lem t w)
