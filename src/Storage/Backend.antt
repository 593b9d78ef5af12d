-- ===== src/Storage/Backend.antt =====
-- The interface `StorageBackend` of storage/types.go, and storage/noopbackend.go.
use ct_mapreduce.Prelude.{Bytes, bytes, Error, Option, none, some, List, []}
use ct_mapreduce.Cache.{CertificateLog, Call}
use ct_mapreduce.GoLib.Time.{Time}
use ct_mapreduce.Storage.ExpDate.{ExpDate}
use ct_mapreduce.Storage.Serial.{Serial}

-- The methods on a backend of state `B`; an issuer is its identifier, and the serials that are
-- streamed are returned.
pub record StorageBackend (B : Type 0) : Type 0 where
  pub mark_dirty : Bytes → Call B (Unit {0})
  pub store_certificate_pem : Serial → ExpDate → Bytes → Bytes → Call B (Unit {0})
  pub store_log_state : CertificateLog → Call B (Unit {0})
  pub store_known_certificate_list : Bytes → List Serial → Call B (Unit {0})
  pub load_certificate_pem : Serial → ExpDate → Bytes → Call B Bytes
  pub load_log_state : Bytes → Call B (Option CertificateLog)
  pub allocate_exp_date_and_issuer : ExpDate → Bytes → Call B (Unit {0})
  pub list_expiration_dates : Time → Call B (List ExpDate)
  pub list_issuers_for_expiration_date : ExpDate → Call B (List Bytes)
  pub list_serials_for_expiration_date_and_issuer : ExpDate → Bytes → Call B (List Serial)
  pub stream_serials_for_expiration_date_and_issuer : ExpDate → Bytes → Call B (List Serial)

abbrev noop_load_error : Option Error
noop_load_error = some (record { text = bytes "Unable to load from the NoopBackend." })

-- NoopBackend keeps nothing: it takes every store, and fails every load.
abbrev pub noop_backend : StorageBackend (Unit {0})
noop_backend = record {
  mark_dirty = λ dir b. (tt, none, b);
  store_certificate_pem = λ serial exp_date issuer pem b. (tt, none, b);
  store_log_state = λ log b. (tt, none, b);
  store_known_certificate_list = λ issuer serials b. (tt, none, b);
  load_certificate_pem = λ serial exp_date issuer b. ([], noop_load_error, b);
  load_log_state = λ url b. (none, noop_load_error, b);
  allocate_exp_date_and_issuer = λ exp_date issuer b. (tt, none, b);
  list_expiration_dates = λ not_before b. ([], noop_load_error, b);
  list_issuers_for_expiration_date = λ exp_date b. ([], noop_load_error, b);
  list_serials_for_expiration_date_and_issuer = λ exp_date issuer b. ([], noop_load_error, b);
  stream_serials_for_expiration_date_and_issuer = λ exp_date issuer b. ([], noop_load_error, b);
}
