-- ===== src/Tests/Storing.antt =====
-- The database and its data.
use ct_mapreduce.Prelude.{
  ◌*◌, true, false, not, ◌&&◌, ◌||◌, Bytes, bytes, bytes_eq, bytes_eq_refl, member, ok, none, some,
  List, [], ◌∷◌, map, ◌≡◌, refl, arith, if◌then◌else◌,
}
use ct_mapreduce.Cache.{CertificateLog}
use ct_mapreduce.GoLib.Assoc.{lookup}
use ct_mapreduce.GoLib.Time.{hour}
use ct_mapreduce.GoLib.Text.{trim_space, trim_left, trim_cons, trim_right, is_space}
use ct_mapreduce.MockCache.{MockRemoteCache, set_insert, set_to_chan}
use ct_mapreduce.MockCache.Remote.{mock_set_laws}
use ct_mapreduce.Storage.Backend.{noop_backend}
use ct_mapreduce.Storage.ExpDate
use ct_mapreduce.Storage.ExpDate.{
  ExpDate, new_exp_date, new_exp_date_day, new_exp_date_from_time, expire_time,
}
use ct_mapreduce.Storage.Serial
use ct_mapreduce.Storage.Serial.{
  marshal_json, unmarshal_json, unmarshalled, new_serial_from_hex, hex_string,
  new_serial_from_binary_string, binary_string, serial_roundtrip, new_serial_from_id_string,
}
use ct_mapreduce.Storage.KnownCertificates.Calls.{
  Action, calls, sets_expiry, act, is_asked, reports_all, AreFine, unknown_once,
}
use ct_mapreduce.Storage.KnownCertificates.{
  KnownCertificates, was_unknown, serial_id, known, HasNoRepeat, was_unknown_lem, known_lem,
}
use ct_mapreduce.Storage.IssuerMetadata.{
  Url, IssuerMetadata, accumulate, is_http, accumulate_exp_dates,
}
use ct_mapreduce.MockCache.Sets.{IsOrdered, contains, set_insert-IsOrdered, set_insert_refines}
use ct_mapreduce.Storage.Database.{
  Database, get_known_certificates, store, save_log_state, get_log_state,
}
use ct_mapreduce.Storage.Database.Storing.{asked, store_known}
use ct_mapreduce.Storage.Database.Logs.{get_log_state-save_log_state}
use ct_mapreduce.Tests.Data.{
  plain_codec, plain_codec-IsFaithful, match_all, remote, libraries, parse_url, serial, empty_cache,
  empty_cache-IsOrdered, leaf_cert,
}

serial_roundtrip_example :
    (unmarshal_json (marshal_json serial) ≡ unmarshalled (ok serial))
    × (new_serial_from_hex (hex_string serial) ≡ ok serial)
    × (new_serial_from_binary_string (binary_string serial) ≡ ok serial)
    × (new_serial_from_id_string (Serial.id serial) ≡ ok serial)
serial_roundtrip_example = serial_roundtrip serial (omega arith, (omega arith, tt))

-- 2020-09-13 12:00
abbrev exp_date : ExpDate
exp_date = record {
  date = 884_140 * 24 * hour;
  last_good = 884_140 * 24 * hour;
  hour_resolution = true;
}

abbrev kc : KnownCertificates
kc = record { exp_date = exp_date; issuer = bytes "iss"; expiry_set = false }

pub insert_answers : (key e : Bytes) (c : MockRemoteCache) → (set_insert key e c).1 ≡ none
unfolding set_insert
insert_answers key e c = ground arith

chan_answers : (key : Bytes) (c : MockRemoteCache) → (set_to_chan key c).1 ≡ none
unfolding set_to_chan
chan_answers key c = ground arith

was_unknown_answers :
    (k : KnownCertificates) (c : MockRemoteCache) → (was_unknown remote serial k c).1 ≡ none
unfolding was_unknown
was_unknown_answers k c = ground (arith, insert_answers (serial_id k) (binary_string serial) c)

was_unknown_lem_example :
    ((was_unknown remote serial kc empty_cache).0
      ≡ not (
          (mock_set_laws plain_codec match_all).contains empty_cache
            (serial_id kc)
            (binary_string serial)))
    × ((k x : Bytes)
        → (mock_set_laws plain_codec match_all).contains
            (was_unknown remote serial kc empty_cache).3
            k
            x
          ≡ (bytes_eq (serial_id kc) k && bytes_eq x (binary_string serial)
              || (mock_set_laws plain_codec match_all).contains empty_cache k x))
unfolding mock_set_laws
was_unknown_lem_example =
    was_unknown_lem remote (mock_set_laws plain_codec match_all) serial kc empty_cache
      empty_cache-IsOrdered refl (was_unknown_answers kc empty_cache)

-- Two goroutines ask for the serial; the second is done with its call before the first sets the
-- expiration.
abbrev interleaved : List Action
interleaved = calls serial (record kc { expiry_set = true }) ∷ calls serial kc ∷ sets_expiry kc ∷ []

unknown_once_example :
    reports_all remote (serial_id kc) (binary_string serial) interleaved empty_cache ≡ (
      if is_asked remote (serial_id kc) (binary_string serial) interleaved
        && not (
            (mock_set_laws plain_codec match_all).contains empty_cache
              (serial_id kc)
              (binary_string serial))
      then 1
      else 0)
unfolding mock_set_laws AreFine act
unknown_once_example =
    let set : KnownCertificates = record kc { expiry_set = true } in
    unknown_once remote (mock_set_laws plain_codec match_all) (serial_id kc) (binary_string serial)
      interleaved empty_cache empty_cache-IsOrdered
      (
        (was_unknown_answers set empty_cache, refl),
        ((was_unknown_answers kc (was_unknown remote serial set empty_cache).3, refl), (refl, tt)),
      )

known_lem_example :
    (l : List Bytes) × ((known remote kc empty_cache).0 ≡ ok (map (λ b. record { serial = b }) l))
    × HasNoRepeat l
    × ((x : Bytes)
        → member x l
          ≡ (mock_set_laws plain_codec match_all).contains
              (known remote kc empty_cache).1
              (serial_id kc)
              x)
unfolding mock_set_laws
known_lem_example =
    known_lem remote (mock_set_laws plain_codec match_all) kc empty_cache empty_cache-IsOrdered
      (chan_answers (serial_id kc) empty_cache)

abbrev metadata : IssuerMetadata
metadata = record {
  issuer = bytes "iss";
  known_crl_dps = [];
  known_issuer_dns = [];
  known_exp_dates = [];
}

accumulate_exp_dates_example :
    ((accumulate remote parse_url leaf_cert metadata empty_cache).0
      ≡ member (ExpDate.id (new_exp_date_from_time leaf_cert.not_after)) [])
    × (member
          (bytes "x")
          (accumulate remote parse_url leaf_cert metadata empty_cache).2.known_exp_dates
        ≡ (bytes_eq (bytes "x") (ExpDate.id (new_exp_date_from_time leaf_cert.not_after))
            || member (bytes "x") []))
accumulate_exp_dates_example =
    accumulate_exp_dates remote parse_url leaf_cert metadata empty_cache (bytes "x")

not_http : (url : Url) → parse_url (bytes "ldap:x") ≡ ok url → is_http url.scheme ≡ false
unfolding is_http bytes_eq
not_http url h = grind arith

trim_ldap : trim_space (bytes "ldap:x") ≡ bytes "ldap:x"
unfolding trim_space trim_left trim_cons trim_right is_space
trim_ldap = refl

trimmed_not_http :
    (url : Url) → parse_url (trim_space (bytes "ldap:x")) ≡ ok url → is_http url.scheme ≡ false
trimmed_not_http url h = not_http url (rw trim_ldap at h)

abbrev database : Database MockRemoteCache (Unit {0})
database = record { backend = tt; ext_cache = empty_cache; known_certs_cache = []; meta = [] }

abbrev saved : CertificateLog
saved = record {
  short_url = bytes "host/log";
  max_entry = 7;
  last_entry_time = 8;
  last_update_time = 9;
}

get_log_state-save_log_state_example :
    ((get_log_state remote noop_backend libraries
        (bytes "host")
        (bytes "/log")
        (save_log_state remote noop_backend libraries saved database).1).0
      ≡ some saved)
    × ((get_log_state remote noop_backend libraries
          (bytes "host")
          (bytes "/log")
          (save_log_state remote noop_backend libraries saved database).1).1
        ≡ none)
get_log_state-save_log_state_example =
    get_log_state-save_log_state plain_codec match_all noop_backend libraries saved (bytes "host")
      (bytes "/log") (7 ∷ 8 ∷ 9 ∷ bytes "host/log") database plain_codec-IsFaithful refl refl

-- A database whose cache holds the certificate's serial.
abbrev asked_kc : KnownCertificates
asked_kc = asked remote noop_backend libraries leaf_cert leaf_cert database

abbrev filled_cache : MockRemoteCache
filled_cache = (set_insert (serial_id asked_kc) (binary_string serial) empty_cache).2

abbrev filled : Database MockRemoteCache (Unit {0})
filled = record database { ext_cache = filled_cache }

filled-IsOrdered : IsOrdered filled_cache
filled-IsOrdered =
    set_insert-IsOrdered (serial_id asked_kc) (binary_string serial) empty_cache
      empty_cache-IsOrdered

same_asked : asked remote noop_backend libraries leaf_cert leaf_cert filled ≡ asked_kc
unfolding get_known_certificates lookup
same_asked = refl

filled_contains :
    (k : KnownCertificates)
    → k ≡ asked_kc
    → contains filled_cache (serial_id k) (binary_string serial) ≡ true
filled_contains k e = rw e (
    ground (
      arith,
      (set_insert_refines (serial_id asked_kc) (binary_string serial) empty_cache
          empty_cache-IsOrdered (serial_id asked_kc) (binary_string serial)).2,
      bytes_eq_refl (serial_id asked_kc),
      bytes_eq_refl (binary_string serial),
    ))

store_known_example :
    ((store remote noop_backend libraries leaf_cert leaf_cert filled).0 ≡ none)
    × ((store remote noop_backend libraries leaf_cert leaf_cert filled).1.backend ≡ tt)
    × ((store remote noop_backend libraries leaf_cert leaf_cert filled).1.meta ≡ [])
unfolding mock_set_laws
store_known_example =
    store_known remote noop_backend libraries leaf_cert leaf_cert filled
      (mock_set_laws plain_codec match_all) filled-IsOrdered
      (insert_answers (serial_id (asked remote noop_backend libraries leaf_cert leaf_cert filled))
        (binary_string serial) filled_cache)
      (filled_contains (asked remote noop_backend libraries leaf_cert leaf_cert filled) same_asked)
