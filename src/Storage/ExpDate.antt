-- ===== src/Storage/ExpDate.antt =====
-- `ExpDate` of storage/types.go: an expiration date, whole or cut to the hour.
pub mod Texts
use ct_mapreduce.Prelude.{
  ◌+◌, ◌-◌, ◌*◌, ◌≤◌, Bool, true, false, ltb, Bytes, bytes, Result, ok, err, none, some, length,
  ◌≡◌, arith, if◌then◌else◌,
}
use ct_mapreduce.GoLib.Calendar.{
  civil, time_of, format_date, format_date_hour, parse_day, parse_day_hour,
}
use ct_mapreduce.GoLib.Time.{Time, hour, millisecond, truncate, before}

pub record ExpDate : Type 0 where
  pub date : Time
  pub last_good : Time
  pub hour_resolution : Bool

unfoldable pub new_exp_date_from_time : Time → ExpDate
new_exp_date_from_time t = record {
  date = truncate t hour;
  last_good = truncate t hour - millisecond;
  hour_resolution = true;
}

-- the second half of NewExpDate
unfoldable pub new_exp_date_day : Bytes → Result ExpDate
new_exp_date_day s = elim (parse_day s) [
  | none ↦ err (record { text = bytes "parsing time" })
  | some c ↦ ok (record {
    date = time_of c;
    last_good = time_of c + 24 * hour - millisecond;
    hour_resolution = false;
  })
]

unfoldable pub new_exp_date : Bytes → Result ExpDate
unfolding new_exp_date_day
new_exp_date s =
    if ltb 10 (length s)
    then elim (parse_day_hour s) [
      | none ↦ new_exp_date_day s
      | some c ↦ ok (record {
        date = time_of c;
        last_good = time_of c + 1 * hour - millisecond;
        hour_resolution = true;
      })
    ]
    else new_exp_date_day s

unfoldable pub is_expired_at : ExpDate → Time → Bool
is_expired_at e t = before e.last_good t

unfoldable pub expire_time : ExpDate → Time
expire_time e = e.date

unfoldable pub id : ExpDate → Bytes
id e = if e.hour_resolution then format_date_hour (civil e.date) else format_date (civil e.date)

-- ExpDateList.Less
unfoldable pub less : ExpDate → ExpDate → Bool
less a b = before a.date b.date

-- A date made from a time is expired at that time, and it is expired from a millisecond before its
-- hour on; the date of the same hour that is parsed from its text is good up to the hour's last
-- millisecond.
expired_at_own_time : (t : Time) → hour ≤ t → is_expired_at (new_exp_date_from_time t) t ≡ true
unfolding is_expired_at new_exp_date_from_time
expired_at_own_time t h = ground arith
