-- ===== src/Statistics.antt =====
-- cmd/storage-statistics/storage-statistics.go: the totals of what the cache holds, and the states of the
-- logs. The lines of the log are left out, but for what they read of the cache.
pub mod Counts
use ct_mapreduce.Prelude.{
  ℕ, ◌+◌, ltb, Bool, true, false, Bytes, bytes, Error, Result, ok, err, Option, none, some, List,
  [], ◌∷◌, ◌++◌, length, if◌then◌else◌,
}
use ct_mapreduce.Cache.{RemoteCache, CertificateLog}
use ct_mapreduce.GoLib.Text.{split, trim_space}
use ct_mapreduce.Storage.Backend.{StorageBackend}
use ct_mapreduce.Storage.Database.{
  Database, Libraries, get_issuer_metadata, get_known_certificates, get_log_state,
}
use ct_mapreduce.Storage.Database.Grouping.{get_issuer_and_dates_from_cache}
use ct_mapreduce.Storage.ExpDate.{ExpDate}
use ct_mapreduce.Storage.IssuerMetadata.{crls, issuers}
use ct_mapreduce.Storage.KnownCertificates.{KnownCertificates, count, known}
use ct_mapreduce.Storage.Serial.{Serial}

-- The overall totals, and the PEM texts that are written to the output before them.
pub record Totals : Type 0 where
  pub total_issuers : ℕ
  pub total_serials : ℕ
  pub total_crls : ℕ
  pub written : List Bytes

module _ {S B : Type 0} (cache : RemoteCache S) (backend : StorageBackend B) (lib : Libraries) where
  -- the loop over the serials at verbosity 3; what is written of a certificate that the backend does
  -- not give is what it returned beside its error
  unfoldable pub write_pems : List Serial → ExpDate → Bytes → B → List Bytes × B
  write_pems [] exp_date issuer b = ([], b)
  write_pems (serial ∷ serials) exp_date issuer b =
      let (pem_bytes, e, b1) = backend.load_certificate_pem serial exp_date issuer b in
      let (later, b2) = write_pems serials exp_date issuer b1 in (pem_bytes ∷ later, b2)

  -- the serials at verbosity 2 and their PEM at verbosity 3; Known ends the process on an error
  unfoldable pub print_serials :
      ℕ → KnownCertificates → ExpDate → Bytes → Database S B → Result (List Bytes) × Database S B
  print_serials verbosity known_certs exp_date issuer db = elim (ltb verbosity 2) [
    | true ↦ (ok [], db)
    | false ↦
        let (known_list, s) = known cache known_certs db.ext_cache in
        let db1 : Database S B = record db { ext_cache = s } in
        elim known_list [
          | err e ↦ (err e, db1)
          | ok serials ↦ elim (ltb verbosity 3) [
            | true ↦ (ok [], db1)
            | false ↦
                let (pems, b) = write_pems serials exp_date issuer db1.backend in
                (ok pems, record db1 { backend = b })
          ]
        ]
  ]

  -- the loop over the dates of an issuer: how many serials, and what is written to the output
  unfoldable pub count_dates :
      ℕ → Bytes → List ExpDate → Database S B → Result (ℕ × List Bytes) × Database S B
  count_dates verbosity issuer [] db = (ok (0, []), db)
  count_dates verbosity issuer (exp_date ∷ dates) db =
      let (known_certs, db1) = get_known_certificates cache backend lib exp_date issuer db in
      let (count_serials, s) = count cache known_certs db1.ext_cache in
      let (printed, db2) =
        print_serials verbosity known_certs exp_date issuer (record db1 { ext_cache = s }) in
      let (rest, db3) = count_dates verbosity issuer dates db2 in
      elim printed [
        | err e ↦ (err e, db2)
        | ok pems ↦ elim rest [
          | err e ↦ (err e, db3)
          | ok (n, more) ↦ (ok (count_serials + n, pems ++ more), db3)
        ]
      ]

  -- the loop over the issuers; CRLs and Issuers end the process on an error
  unfoldable pub count_issuers :
      ℕ → List (Bytes × List ExpDate) → Totals → Database S B → Result Totals × Database S B
  count_issuers verbosity [] totals db = (ok totals, db)
  count_issuers verbosity ((issuer, exp_dates) ∷ rest) totals db =
      let (im, db1) = get_issuer_metadata cache backend lib issuer db in
      let (crl_list, s) = crls cache lib.parse_url im db1.ext_cache in
      let (issuer_dn_list, s') = issuers cache lib.parse_url im s in
      let (counted, db2) = count_dates verbosity issuer exp_dates (record db1 { ext_cache = s' }) in
      elim crl_list [
        | err e ↦ (err e, record db1 { ext_cache = s })
        | ok crl ↦ elim issuer_dn_list [
          | err e ↦ (err e, record db1 { ext_cache = s' })
          | ok dns ↦ elim counted [
            | err e ↦ (err e, db2)
            | ok (serials, pems) ↦
                count_issuers verbosity rest
                  (record totals {
                    total_serials = totals.total_serials + serials;
                    total_crls = totals.total_crls + length crl;
                    written = totals.written ++ pems;
                  })
                  db2
          ]
        ]
      ]

  -- The listing and the loop.
  unfoldable pub count_all : ℕ → Database S B → Result Totals × Database S B
  count_all verbosity db =
      let (issuer_list, s) = get_issuer_and_dates_from_cache cache db.ext_cache in
      let db1 : Database S B = record db { ext_cache = s } in
      elim issuer_list [
        | err e ↦ (err e, db1)
        | ok l ↦
            count_issuers verbosity l
              (record { total_issuers = length l; total_serials = 0; total_crls = 0; written = [] })
              db1
      ]

  -- the loop over the parts of LogUrlList: `parse` is url.Parse with the host and the path of the
  -- URL, and `err` where the process ends by glog.Fatalf
  unfoldable pub log_states :
      (Bytes → Result (Bytes × Bytes))
      → List Bytes
      → Database S B
      → Result (List (Option CertificateLog)) × Database S B
  log_states parse [] db = (ok [], db)
  log_states parse (part ∷ parts) db = elim (parse (trim_space part)) [
    | err e ↦ (err e, db)
    | ok (host, path) ↦
        let (state, e, db1) = get_log_state cache backend lib host path db in
        let (later, db2) = log_states parse parts db1 in
        elim e [
          | some e ↦ (err e, db1)
          | none ↦ elim later [ err e ↦ (err e, db2) | ok states ↦ (ok (state ∷ states), db2) ]
        ]
  ]

  unfoldable pub log_status :
      (Bytes → Result (Bytes × Bytes))
      → Bytes
      → Database S B
      → Result (List (Option CertificateLog)) × Database S B
  log_status parse log_url_list db =
      if ltb 5 (length log_url_list)
      then log_states parse (split log_url_list (bytes ",")) db
      else (ok [], db)
