-- ===== src/CtFetch/Worker/Once.antt =====
-- What a worker hands to the backend over all entries of a run.
use ct_mapreduce.Prelude.{ℕ, ◌≤◌, true, Bytes, Result, some, List, [], ◌∷◌, length, All, ◌≡◌, arith}
use ct_mapreduce.Cache.{RemoteCache}
use ct_mapreduce.Cache.Laws.{SetLaws}
use ct_mapreduce.Certificate.{Certificate, LogEntry}
use ct_mapreduce.CtFetch.Filter.{FilterConfig}
use ct_mapreduce.CtFetch.Worker.{
  IsKnownType, insert_ct_worker, insert_ct_worker_lem, store_all, wanted_certs,
}
use ct_mapreduce.GoLib.Time.{Time}
use ct_mapreduce.Storage.Backend.{StorageBackend}
use ct_mapreduce.Storage.Database.{Database, Libraries, new_filesystem_database, store}
use ct_mapreduce.Storage.Database.AtMostOnce.{store-IsSafe}
use ct_mapreduce.Storage.Database.Counted.{Counts, IsSafe, is_counted}
use ct_mapreduce.Storage.Database.Storing.{asked, insertion}
use ct_mapreduce.Storage.Database.Tidy.{DropsOnly}
use ct_mapreduce.Storage.ExpDate.{expire_time}
use ct_mapreduce.Storage.Identifiers.{new_issuer, issuer_id_of}
use ct_mapreduce.Storage.IssuerMetadata.Keeping.{IsReliable}

module _ (parse_certificate : Bytes → Result Certificate) (config : FilterConfig) {S B : Type 0}
    (cache : RemoteCache S) (backend : StorageBackend B) (lib : Libraries)
    (laws : SetLaws cache) where
  -- The expirations that the stores set are ahead.
  unfoldable pub AreAhead : List (Certificate × Certificate) → Database S B → Type 0
  AreAhead [] db = Unit
  AreAhead ((cert, issuer) ∷ rest) db =
      (laws.expires_later (insertion cache backend lib cert issuer db).2
          (expire_time (asked cache backend lib cert issuer db).exp_date)
        ≡ true)
      × AreAhead rest (store cache backend lib cert issuer db).1

  -- The digests have one length, and with them the texts of the issuers.
  abbrev pub HaveWidth : ℕ → Type 0
  HaveWidth width =
      (raw_spki : Bytes) → length (issuer_id_of lib.sha256 (new_issuer raw_spki)) ≡ width

  module _ (reliable : IsReliable cache laws) (width : ℕ) (drops : DropsOnly width lib)
      (wide : HaveWidth width) (k x : Bytes) (written : B → ℕ)
      (counts : Counts backend (is_counted k x) written) where
    store_all-IsSafe :
        (l : List (Certificate × Certificate)) (db : Database S B)
        → IsSafe cache backend lib laws reliable width drops k x written counts db
        → AreAhead l db
        → IsSafe cache backend lib laws reliable width drops k x written counts
            (store_all parse_certificate config cache backend lib l db)
    unfolding store_all AreAhead
    store_all-IsSafe [] db h ahead = h
    store_all-IsSafe ((cert, issuer) ∷ l) db h ahead =
        store_all-IsSafe l (store cache backend lib cert issuer db).1
          (store-IsSafe cache backend lib laws reliable width drops k x written counts cert issuer
            db (wide issuer.raw_spki) h ahead.0)
          ahead.1

    fresh :
        (b : B) (s : S)
        → laws.IsGood s
        → written b ≡ 0
        → IsSafe cache backend lib laws reliable width drops k x written counts
            (new_filesystem_database b s)
    unfolding new_filesystem_database
    fresh b s good none_yet = record {
      good = good;
      certs = tt;
      once = omega (arith, none_yet);
      none_yet = λ e. none_yet;
    }

    -- From a good state of a cache that keeps the laws and does not fail to insert, with an ARC
    -- that drops entries and changes none, digests of one length, expirations that are ahead when
    -- they are set, and a backend that counts how often it is handed the certificate of one
    -- serial, date and issuer, 0 at first: on certificates and precertificates the worker ends
    -- without a panic, and the count is then 1 at most, whatever errors of the backend end the
    -- stores.
    pub handed_over_once :
        (entries : List (Time × LogEntry)) (b : B) (s : S)
        → laws.IsGood s
        → written b ≡ 0
        → All
            (λ (e : Time × LogEntry).
              IsKnownType parse_certificate config cache backend lib e.1.entry_type)
            entries
        → AreAhead
            (wanted_certs parse_certificate config cache backend lib entries)
            (new_filesystem_database b s)
        → (db : Database S B) × (insert_ct_worker parse_certificate config cache backend lib entries
              (new_filesystem_database b s)
            ≡ some db)
          × (written db.backend ≤ 1)
    handed_over_once entries b s good none_yet types ahead =
        let l = wanted_certs parse_certificate config cache backend lib entries in
        let db0 : Database S B = new_filesystem_database b s in
        let ends =
          insert_ct_worker_lem parse_certificate config cache backend lib entries db0 types in
        (_, ends, (store_all-IsSafe l db0 (fresh b s good none_yet) ahead).once)
