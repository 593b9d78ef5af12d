-- ===== src/MockBackend/Dates.antt =====
-- The expiration dates that the mock backend lists.
use ct_mapreduce.Prelude.{
  ℕ, true, Bytes, bytes_eq_iff, member, Result-cases, Option-cases, none, some, List, [], ◌∷◌, ◌++◌,
  ◌≡◌, ◌≢◌, arith, Bool-cases, inl, inr, length, get_or,
}
use ct_mapreduce.GoLib.Assoc.{lookup, put, lookup-put_self}
use ct_mapreduce.GoLib.Calendar.{format_date, format_date_hour, parse_day, time_of}
use ct_mapreduce.GoLib.Search.{search_index}
use ct_mapreduce.GoLib.Time.{Time, before}
use ct_mapreduce.MockBackend.{
  MockBackend, keys_of, at_least, issuers_of, midnight, dates_from, list_expiration_dates,
  allocate_exp_date_and_issuer,
}
use ct_mapreduce.MockCache.{insert_at}
use ct_mapreduce.Storage.ExpDate
use ct_mapreduce.Storage.ExpDate.{ExpDate, new_exp_date, new_exp_date_from_time}

-- The text of an hour is no text of a day.
parse_day-id : (t : Time) → parse_day (ExpDate.id (new_exp_date_from_time t)) ≡ none
unfolding parse_day ExpDate.id new_exp_date_from_time format_date_hour format_date
parse_day-id t = ground arith

dates_from_fails :
    (not_before : Time) (key : Bytes) (keys : List Bytes) (dates : List ExpDate)
    → parse_day key ≡ none
    → member key keys ≡ true
    → (dates_from not_before keys dates).1 ≢ none
unfolding dates_from member
dates_from_fails not_before key [] dates h m = cc
dates_from_fails not_before key (k ∷ keys) dates h m = elim (Option-cases (parse_day k)) [
  | inl bad ↦ rw (bad, dates_from) (ground arith)
  | inr (c, fine) ↦
      let later : member key keys ≡ true = ground (arith, bytes_eq_iff key k) in
      rw (fine, dates_from)
        (elim (Bool-cases (before (time_of c) not_before)) [
          | inl old ↦ rw (old, dates_from) (dates_from_fails not_before key keys dates h later)
          | inr new ↦
              rw (new, dates_from)
                (elim (Result-cases (new_exp_date k)) [
                  | inr (e, bad) ↦ rw (bad, dates_from) (ground arith)
                  | inl (d, good) ↦
                      rw (good, dates_from)
                        (dates_from_fails not_before key keys (dates ++ d ∷ []) h later)
                ])
        ])
]

member-keys_of {ℓ} :
    {V : Type ℓ} (k : Bytes) (v : V) (m : List (Bytes × V))
    → lookup k m ≡ some v
    → member k (keys_of m) ≡ true
unfolding lookup member
member-keys_of k v [] h = cc
member-keys_of k v ((j, w) ∷ m) h =
    ground (arith, member-keys_of k v m, bytes_eq_iff j k, bytes_eq_iff k j)

put_key :
    (d : ExpDate) (i : ℕ) (issuer : Bytes) (db : MockBackend)
    → lookup
        (ExpDate.id d)
        (put (ExpDate.id d) (insert_at i issuer (issuers_of d db)) db.exp_date_to_issuer)
      ≡ some (insert_at i issuer (issuers_of d db))
put_key d i issuer db =
    lookup-put_self (ExpDate.id d) (insert_at i issuer (issuers_of d db)) db.exp_date_to_issuer

-- A date has its key once an issuer is allocated.
allocated_key :
    (d : ExpDate) (issuer : Bytes) (db : MockBackend)
    → lookup (ExpDate.id d) (allocate_exp_date_and_issuer d issuer db).2.exp_date_to_issuer ≢ none
unfolding allocate_exp_date_and_issuer issuers_of
allocated_key d issuer db = elim (Option-cases (lookup (ExpDate.id d) db.exp_date_to_issuer)) [
  | inl absent ↦ ground (arith, put_key d (search_index 0 (λ i. at_least issuer [])) issuer db)
  | inr (l, there) ↦
      ground (
        arith,
        put_key d (search_index (length l) (λ i. at_least issuer (get_or l i []))) issuer db,
      )
]

-- Once an issuer is allocated for the hour of a time, as Store does, ListExpirationDates fails
-- whatever it is asked for: it reads each key as a day.
pub list_expiration_dates_fails :
    (t not_before : Time) (issuer : Bytes) (db : MockBackend)
    → (list_expiration_dates not_before
        (allocate_exp_date_and_issuer (new_exp_date_from_time t) issuer db).2).1
      ≢ none
unfolding list_expiration_dates
list_expiration_dates_fails t not_before issuer db =
    let d = new_exp_date_from_time t in
    let m = (allocate_exp_date_and_issuer d issuer db).2.exp_date_to_issuer in
    elim (Option-cases (lookup (ExpDate.id d) m)) [
      | inl absent ↦ absurd (allocated_key d issuer db absent)
      | inr (l, there) ↦
          dates_from_fails (midnight not_before) (ExpDate.id d) (keys_of m) [] (parse_day-id t)
            (member-keys_of (ExpDate.id d) l m there)
    ]
