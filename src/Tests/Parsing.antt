-- ===== src/Tests/Parsing.antt =====
-- Identifiers, keys, and the entries of the channel.
use ct_mapreduce.Prelude.{
  ◌+◌, ◌*◌, arith, true, false, Bytes, bytes, ok, some, List, [], ◌∷◌, ◌++◌, ◌≡◌, refl,
}
use ct_mapreduce.Certificate.{LogEntry, x509_entry, precert_entry}
use ct_mapreduce.CtFetch.Filter.{FilterConfig}
use ct_mapreduce.CtFetch.Worker.{insert_ct_worker, store_all, wanted_certs, insert_ct_worker_lem}
use ct_mapreduce.GoLib.Calendar
use ct_mapreduce.GoLib.Calendar.{civil, format_date_hour, parse_day_hour}
use ct_mapreduce.GoLib.Assoc.{lookup, put}
use ct_mapreduce.GoLib.Text.{split, split_loop, has_prefix}
use ct_mapreduce.GoLib.Time.{Time, hour, millisecond}
use ct_mapreduce.MockCache.{MockRemoteCache}
use ct_mapreduce.Storage.Backend.{noop_backend}
use ct_mapreduce.Storage.Database.{Database}
use ct_mapreduce.Storage.Database.Grouping.{
  group, dates_at, dates_of, entry_of, entry_of_parts, group-dates_of,
}
use ct_mapreduce.Storage.ExpDate
use ct_mapreduce.Storage.ExpDate.{ExpDate, new_exp_date, new_exp_date_day}
use ct_mapreduce.Storage.Identifiers.{
  Issuer, parse_unique_cert_identifier, unique_string, parse_unique_string, new_issuer_from_string,
  ask_id,
}
use ct_mapreduce.Tests.Data.{remote, leaf_cert, empty_cache, libraries, serial}

-- 2020-09-13 at 12
abbrev pub noon : Time
noon = (865_625 + 18_518) * (24 * hour) + 12 * hour

abbrev exp_date : ExpDate
exp_date = record { date = noon; last_good = noon + hour; hour_resolution = true }

abbrev parsed_date : ExpDate
parsed_date = record {
  date = noon;
  last_good = noon + 3_599_999 * millisecond;
  hour_resolution = true;
}

date_text : ExpDate.id exp_date ≡ bytes "2020-09-13-12"
unfolding ExpDate.id format_date_hour civil
date_text = refl

date_parsed : new_exp_date (ExpDate.id exp_date) ≡ ok parsed_date
unfolding ExpDate.id format_date_hour civil new_exp_date parse_day_hour Calendar.time_of
date_parsed = refl

abbrev issuer : Issuer
issuer = record { issuer_id = some (bytes "iss"); spki = [] }

parse_unique_string_example :
    parse_unique_cert_identifier (
      unique_string (λ s. s) (record { exp_date = exp_date; issuer = issuer; serial_num = serial }))
    ≡ ok (record {
      exp_date = parsed_date;
      issuer = new_issuer_from_string (bytes "iss");
      serial_num = serial;
    })
unfolding ask_id
parse_unique_string_example =
    parse_unique_string (λ s. s)
      (record { exp_date = exp_date; issuer = issuer; serial_num = serial })
      (refl, (refl, (refl, tt))) date_parsed (omega arith, (omega arith, tt))

abbrev keys : List Bytes
keys = bytes "serials::2020-09-13-12::iss" ∷ []

abbrev grouped : List (Bytes × List ExpDate)
grouped = (bytes "iss", parsed_date ∷ []) ∷ []

keys-grouped : group keys [] ≡ ok grouped
unfolding group entry_of entry_of_parts split split_loop has_prefix new_exp_date parse_day_hour put
    lookup Calendar.days_in_month Calendar.time_of
keys-grouped = refl

group-dates_of_example :
    dates_at (bytes "iss") grouped ≡ dates_at (bytes "iss") [] ++ dates_of (bytes "iss") keys
group-dates_of_example = group-dates_of keys [] grouped (bytes "iss") keys-grouped

abbrev pub certificate_entry : LogEntry
certificate_entry = record {
  index = 3;
  timestamp = 1;
  entry_type = x509_entry leaf_cert;
  chain = bytes "chain" ∷ [];
}

abbrev precertificate_entry : LogEntry
precertificate_entry = record certificate_entry { entry_type = precert_entry (bytes "pre") }

abbrev entries : List (Time × LogEntry)
entries = (2_000, certificate_entry) ∷ (2_100, precertificate_entry) ∷ []

abbrev pub filter : FilterConfig
filter = record { issuer_cn_filter = bytes "ISRG"; log_expired_entries = false }

abbrev database : Database MockRemoteCache (Unit {0})
database = record { backend = tt; ext_cache = empty_cache; known_certs_cache = []; meta = [] }

insert_ct_worker_lem_example :
    insert_ct_worker (λ s. ok leaf_cert) filter remote noop_backend libraries entries database
    ≡ some (
        store_all
          (λ s. ok leaf_cert)
          filter
          remote
          noop_backend
          libraries
          (wanted_certs (λ s. ok leaf_cert) filter remote noop_backend libraries entries)
          database)
insert_ct_worker_lem_example =
    insert_ct_worker_lem (λ s. ok leaf_cert) filter remote noop_backend libraries entries database
      (tt, (tt, tt))
