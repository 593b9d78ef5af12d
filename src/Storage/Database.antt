-- ===== src/Storage/Database.antt =====
-- storage/filesystemdatabase.go: the database over a remote cache and a backend.
pub mod Storing
pub mod Logs
pub mod Grouping
pub mod Keeping
pub mod Tidy
pub mod Counted
pub mod AtMostOnce
pub mod Once
pub mod Callers
use ct_mapreduce.Prelude.{
  ◌*◌, Bool, true, false, Bytes, bytes, Error, Result, ok, err, Option, none, some, List, [], ◌∷◌,
  ◌++◌, if◌then◌else◌, not,
}
use ct_mapreduce.Cache.{RemoteCache, CertificateLog}
use ct_mapreduce.Certificate.{Certificate}
use ct_mapreduce.GoLib.Assoc.{lookup, put}
use ct_mapreduce.GoLib.Calendar.{civil, format_date}
use ct_mapreduce.GoLib.Text.{split}
use ct_mapreduce.GoLib.Time.{Time}
use ct_mapreduce.Storage.Backend.{StorageBackend}
use ct_mapreduce.Storage.ExpDate
use ct_mapreduce.Storage.ExpDate.{ExpDate, new_exp_date, new_exp_date_from_time}
use ct_mapreduce.Storage.Identifiers.{colons, new_issuer, issuer_id_of}
use ct_mapreduce.Storage.IssuerMetadata.{IssuerMetadata, Url, new_issuer_metadata, accumulate}
use ct_mapreduce.Storage.KnownCertificates.{KnownCertificates, new_known_certificates, was_unknown}
use ct_mapreduce.Storage.Serial.{Serial}

-- The maps hold pointers in the source: what a method changes of an object is written back here.
pub record Database (S B : Type 0) : Type 0 where
  pub backend : B
  pub ext_cache : S
  pub known_certs_cache : List (Bytes × KnownCertificates)
  pub meta : List (Bytes × IssuerMetadata)

unfoldable pub new_filesystem_database : {S B : Type 0} → B → S → Database S B
new_filesystem_database backend ext_cache = record {
  backend = backend;
  ext_cache = ext_cache;
  known_certs_cache = [];
  meta = [];
}

-- What the database gets from elsewhere: the digest, the URL and PEM libraries, the certificate's
-- serial number (NewSerial over asn1.Unmarshal, which panics on what x509 has not parsed), and
-- which entries the ARC cache drops when one is set.
pub record Libraries : Type 0 where
  pub sha256 : Bytes → Bytes
  pub parse_url : Bytes → Result Url
  pub pem_encode : Bytes → Bytes
  pub serial_of : Certificate → Serial
  pub evict : List (Bytes × KnownCertificates) → List (Bytes × KnownCertificates)

module _ {S B : Type 0} (cache : RemoteCache S) (backend : StorageBackend B) (lib : Libraries) where
  unfoldable pub get_issuer_metadata : Bytes → Database S B → IssuerMetadata × Database S B
  get_issuer_metadata issuer db = elim (lookup issuer db.meta) [
    | some im ↦ (im, db)
    | none ↦
        let im : IssuerMetadata = new_issuer_metadata issuer in
        (im, record db { meta = put issuer im db.meta })
  ]

  -- The key is the date's text and the issuer's with nothing between.
  unfoldable pub get_known_certificates :
      ExpDate → Bytes → Database S B → KnownCertificates × Database S B
  get_known_certificates exp_date issuer db =
      let key : Bytes = ExpDate.id exp_date ++ issuer in
      elim (lookup key db.known_certs_cache) [
        | some kc ↦ (kc, db)
        | none ↦
            let kc = new_known_certificates exp_date issuer in
            (kc, record db { known_certs_cache = put key kc (lib.evict db.known_certs_cache) })
      ]

  unfoldable pub mark_dirty : Time → Database S B → Option Error × Database S B
  mark_dirty expiration db =
      let (_, e, b) = backend.mark_dirty (format_date (civil expiration)) db.backend in
      (e, record db { backend = b })

  unfoldable pub allocate : ExpDate → Bytes → Database S B → Option Error × Database S B
  allocate exp_date issuer db =
      let (_, e, b) = backend.allocate_exp_date_and_issuer exp_date issuer db.backend in
      (e, record db { backend = b })

  unfoldable pub store_pem :
      Certificate → ExpDate → Bytes → Database S B → Option Error × Database S B
  store_pem cert exp_date issuer db =
      let (_, e, b) =
        backend.store_certificate_pem (lib.serial_of cert) exp_date issuer (lib.pem_encode cert.raw)
          db.backend in
      (e, record db { backend = b })

  -- `if err != nil { return err }` behind a call
  abbrev pub then_go :
      Option Error × Database S B
      → (Database S B → Option Error × Database S B)
      → Option Error × Database S B
  then_go (some e, db) k = (some e, db)
  then_go (none, db) k = k db

  -- Accumulate on the issuer's metadata, written back to the map
  unfoldable pub accumulate_at :
      Certificate → Bytes → Database S B → Bool × Option Error × Database S B
  accumulate_at cert issuer db0 =
      let (im, db) = get_issuer_metadata issuer db0 in
      let (seen, e, im', s) = accumulate cache lib.parse_url cert im db.ext_cache in
      (seen, e, record db { ext_cache = s; meta = put issuer im' db.meta })

  -- the body of `if certWasUnknown`
  unfoldable pub store_new :
      Certificate → ExpDate → Bytes → Database S B → Option Error × Database S B
  store_new cert exp_date issuer db0 =
      let (seen, e, db) = accumulate_at cert issuer db0 in
      then_go (e, db)
        λ db.
          then_go (if seen then (none, db) else allocate exp_date issuer db)
            λ db. store_pem cert exp_date issuer db

  -- WasUnknown on the known certificates of the date and the issuer, written back to the map
  unfoldable pub ask_unknown :
      Certificate → ExpDate → Bytes → Database S B → Bool × Option Error × Database S B
  ask_unknown cert exp_date issuer db0 =
      let (kc, db) = get_known_certificates exp_date issuer db0 in
      let (unknown, e, kc', s) = was_unknown cache (lib.serial_of cert) kc db.ext_cache in
      (
        unknown,
        e,
        record db {
          ext_cache = s;
          known_certs_cache = put (ExpDate.id exp_date ++ issuer) kc' db.known_certs_cache;
        },
      )

  -- Store; the log's URL and the entry's index are not used
  unfoldable pub store : Certificate → Certificate → Database S B → Option Error × Database S B
  store cert issuer_cert db0 =
      let exp_date = new_exp_date_from_time cert.not_after in
      let issuer = issuer_id_of lib.sha256 (new_issuer issuer_cert.raw_spki) in
      let (unknown, e, db) = ask_unknown cert exp_date issuer db0 in
      then_go (e, db)
        λ db.
          then_go (if unknown then store_new cert exp_date issuer db else (none, db))
            λ db. mark_dirty cert.not_after db

  unfoldable pub list_expiration_dates :
      Time → Database S B → List ExpDate × Option Error × Database S B
  list_expiration_dates not_before db =
      let (dates, e, b) = backend.list_expiration_dates not_before db.backend in
      (dates, e, record db { backend = b })

  unfoldable pub list_issuers_for_expiration_date :
      ExpDate → Database S B → List Bytes × Option Error × Database S B
  list_issuers_for_expiration_date exp_date db =
      let (issuers, e, b) = backend.list_issuers_for_expiration_date exp_date db.backend in
      (issuers, e, record db { backend = b })

  unfoldable pub cleanup : Database S B → Option Error × Database S B
  cleanup db = (none, db)

  -- SaveLogState: an error of the cache is only logged
  unfoldable pub save_log_state : CertificateLog → Database S B → Option Error × Database S B
  save_log_state log db =
      let (_, e, s) = cache.store_log_state log db.ext_cache in
      let (_, e', b) = backend.store_log_state log db.backend in
      (e', record db { ext_cache = s; backend = b })

  unfoldable pub new_log : Bytes → CertificateLog
  new_log short_url = record {
    short_url = short_url;
    max_entry = 0;
    last_entry_time = 146_463 * 86_400 * 1_000_000_000;
    last_update_time = 146_463 * 86_400 * 1_000_000_000;
  }

  -- GetLogState, of the URL's host and path: from the cache, else from the backend, else a new one
  unfoldable pub get_log_state :
      Bytes → Bytes → Database S B → Option CertificateLog × Option Error × Database S B
  get_log_state host path db =
      let short_url = host ++ path in
      let (log, cache_err, s) = cache.load_log_state short_url db.ext_cache in
      elim log [
        | some l ↦ (some l, cache_err, record db { ext_cache = s })
        | none ↦
            let (log', backend_err, b) = backend.load_log_state short_url db.backend in
            elim log' [
              | some l ↦ (some l, backend_err, record db { ext_cache = s; backend = b })
              | none ↦ (some (new_log short_url), none, record db { ext_cache = s; backend = b })
            ]
      ]
