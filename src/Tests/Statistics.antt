-- ===== src/Tests/Statistics.antt =====
-- The totals of a cache with two dates of one issuer and a CRL.
use ct_mapreduce.Prelude.{
  ℕ, true, false, Bool, Bytes, bytes, bytes_eq, Result, ok, none, List, [], ◌∷◌, length, ◌≡◌, refl,
}
use ct_mapreduce.Cache.{RemoteCache}
use ct_mapreduce.MockCache
use ct_mapreduce.MockCache.{MockRemoteCache, at_key, matching_keys, cleanup_expiry, drop_expired}
use ct_mapreduce.MockCache.Remote.{mock_remote}
use ct_mapreduce.GoLib.Assoc.{lookup, put}
use ct_mapreduce.GoLib.Calendar.{
  civil, format_date_hour, parse_day, parse_day_hour, days_in_month, time_of,
}
use ct_mapreduce.GoLib.Text.{has_prefix, split}
use ct_mapreduce.Storage.Backend.{noop_backend}
use ct_mapreduce.Storage.ExpDate
use ct_mapreduce.Storage.ExpDate.{ExpDate, new_exp_date}
use ct_mapreduce.Storage.KnownCertificates
use ct_mapreduce.Storage.KnownCertificates.{serial_id, new_known_certificates}
use ct_mapreduce.Storage.Database.{new_filesystem_database}
use ct_mapreduce.Storage.Database.Grouping.{group, entry_of, entry_of_parts}
use ct_mapreduce.Statistics.{count_all}
use ct_mapreduce.Statistics.Counts.{IsSteady, count_all-sum, serials_in, crls_in}
use ct_mapreduce.Tests.Data.{plain_codec, libraries}

abbrev serials_only : Bytes → Bytes → Bool
serials_only pattern key = has_prefix key (bytes "serials::")

abbrev remote : RemoteCache MockRemoteCache
remote = mock_remote plain_codec serials_only

abbrev counted : MockRemoteCache
counted = record {
  entries =
      (bytes "serials::2020-09-13-12::iss", bytes "a" ∷ bytes "b" ∷ [])
      ∷ (bytes "crl::iss", bytes "http://crl" ∷ [])
      ∷ (bytes "serials::2020-09-14::iss", bytes "a" ∷ [])
      ∷ [];
  expirations = [];
  duplicate = 0;
  now = 1_000;
}

abbrev listing : List Bytes
listing = (remote.keys_to_chan (bytes "serials::*") counted).0

abbrev grouped : Result (List (Bytes × List ExpDate))
grouped = group listing []

abbrev size : Bytes → ℕ
size key = length (at_key counted key)

abbrev Holds : MockRemoteCache → Type 0
Holds s = s ≡ counted

list_steady :
    (key : Bytes) (s : MockRemoteCache)
    → s ≡ counted
    → ((remote.set_list key s).0 ≡ at_key counted key)
      × ((remote.set_list key s).1 ≡ none)
      × ((remote.set_list key s).2 ≡ counted)
unfolding MockCache.set_list cleanup_expiry drop_expired
list_steady key s h = rw h (refl, refl, refl)

keys_steady :
    (s : MockRemoteCache)
    → s ≡ counted
    → ((remote.keys_to_chan (bytes "serials::*") s).0 ≡ listing)
      × ((remote.keys_to_chan (bytes "serials::*") s).1 ≡ none)
      × ((remote.keys_to_chan (bytes "serials::*") s).2 ≡ counted)
unfolding MockCache.keys_to_chan cleanup_expiry drop_expired
keys_steady s h = rw h (refl, refl, refl)

steady : IsSteady remote noop_backend libraries listing size (at_key counted) Holds
unfolding MockCache.set_cardinality
steady = record {
  keys = keys_steady;
  cardinality = λ key s h. rw h (refl, refl);
  list = list_steady;
}

abbrev dates : List ExpDate
dates =
    record {
      date = 76_389_998_400_000_000_000;
      last_good = 76_390_001_999_999_000_000;
      hour_resolution = true;
    }
    ∷ record {
      date = 76_390_041_600_000_000_000;
      last_good = 76_390_127_999_999_000_000;
      hour_resolution = false;
    }
    ∷ []

abbrev issuer_list : List (Bytes × List ExpDate)
issuer_list = (bytes "iss", dates) ∷ []

grouped_lem : group listing [] ≡ ok issuer_list
unfolding group MockCache.keys_to_chan matching_keys has_prefix entry_of entry_of_parts split
    new_exp_date parse_day_hour days_in_month parse_day put bytes_eq lookup time_of
grouped_lem = refl

count_all-sum_example :
    (count_all remote noop_backend libraries 1 (new_filesystem_database tt counted)).0
    ≡ ok (record {
      total_issuers = 1;
      total_serials = serials_in size issuer_list;
      total_crls = crls_in (at_key counted) issuer_list;
      written = [];
    })
count_all-sum_example =
    count_all-sum remote noop_backend libraries listing size (at_key counted) Holds steady 3 1 refl
      (λ m h. h) issuer_list tt counted refl grouped_lem (refl, tt)

three_serials : serials_in size issuer_list ≡ 3
unfolding at_key lookup bytes_eq serial_id KnownCertificates.id ExpDate.id new_known_certificates
    format_date_hour civil
three_serials = refl
