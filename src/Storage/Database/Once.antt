-- ===== src/Storage/Database/Once.antt =====
-- A certificate is handed to the backend once.
use ct_mapreduce.Prelude.{true, ◌++◌, Bytes, bytes_eq_refl, none, some, ◌≡◌, refl, ap, ◌∙◌, arith}
use ct_mapreduce.Cache.{RemoteCache}
use ct_mapreduce.Cache.Laws.{SetLaws}
use ct_mapreduce.Certificate.{Certificate}
use ct_mapreduce.GoLib.Assoc.{lookup, lookup-put_self}
use ct_mapreduce.GoLib.Calendar.{civil, format_date}
use ct_mapreduce.Storage.Backend.{StorageBackend}
use ct_mapreduce.Storage.Database.{Database, Libraries, get_known_certificates, ask_unknown, store}
use ct_mapreduce.Storage.Database.Storing.{asked, insertion, store_known}
use ct_mapreduce.Storage.ExpDate
use ct_mapreduce.Storage.ExpDate.{ExpDate, new_exp_date_from_time, expire_time}
use ct_mapreduce.Storage.Identifiers.{new_issuer, issuer_id_of}
use ct_mapreduce.Storage.IssuerMetadata.Keeping.{IsReliable, Holds}
use ct_mapreduce.Storage.KnownCertificates.{
  KnownCertificates, serial_id, was_unknown, was_unknown_lem, was_unknown-IsGood, same_key,
}
use ct_mapreduce.Storage.Serial.{binary_string}
use ct_mapreduce.Storage.Database.Keeping.{Kept, then_go-Kept, mark_dirty-Kept, stored}

module _ {S B : Type 0} (cache : RemoteCache S) (backend : StorageBackend B) (lib : Libraries)
    (laws : SetLaws cache) (reliable : IsReliable cache laws) where
  module _ (cert issuer_cert : Certificate) (db : Database S B) where
    abbrev exp_date : ExpDate
    exp_date = new_exp_date_from_time cert.not_after

    abbrev issuer : Bytes
    issuer = issuer_id_of lib.sha256 (new_issuer issuer_cert.raw_spki)

    abbrev key : Bytes
    key = ExpDate.id exp_date ++ issuer

    -- The known certificates that Store asks, and what they have in the cache.
    abbrev kc : KnownCertificates
    kc = asked cache backend lib cert issuer_cert db

    abbrev x : Bytes
    x = binary_string (lib.serial_of cert)

    ask_keeps :
        (get_known_certificates cache backend lib exp_date issuer db).1.ext_cache ≡ db.ext_cache
    unfolding get_known_certificates
    ask_keeps = ground arith

    no_error :
        (s : S)
        → (cache.set_insert (serial_id kc) x s).1 ≡ none
        → (was_unknown cache (lib.serial_of cert) kc s).1 ≡ none
    unfolding was_unknown
    no_error s h = ground (arith, h)

    -- What WasUnknown leaves in the cache.
    was_unknown-Holds :
        (s : S)
        → laws.IsGood s
        → laws.expires_later (cache.set_insert (serial_id kc) x s).2 (expire_time kc.exp_date)
          ≡ true
        → Holds cache lib.parse_url laws reliable
            (serial_id kc)
            x
            (was_unknown cache (lib.serial_of cert) kc s).3
    was_unknown-Holds s good ahead =
        let fine : (was_unknown cache (lib.serial_of cert) kc s).1 ≡ none =
          no_error s (reliable (serial_id kc) x s good) in
        let added = (was_unknown_lem cache laws (lib.serial_of cert) kc s good ahead fine).1 in
        record {
          good = was_unknown-IsGood cache laws (lib.serial_of cert) kc s good;
          there =
              ground (arith, added (serial_id kc) x, bytes_eq_refl (serial_id kc), bytes_eq_refl x);
        }

    ask_unknown-Kept :
        laws.IsGood db.ext_cache
        → laws.expires_later
            (insertion cache backend lib cert issuer_cert db).2
            (expire_time kc.exp_date)
          ≡ true
        → Kept cache backend lib laws reliable key
            (serial_id kc)
            x
            (ask_unknown cache backend lib cert exp_date issuer db).2
    unfolding ask_unknown
    ask_unknown-Kept good ahead =
        let db' = (get_known_certificates cache backend lib exp_date issuer db).1 in
        let kc' = (was_unknown cache (lib.serial_of cert) kc db'.ext_cache).2 in
        record {
          kc = kc';
          holds = rw ask_keeps (was_unknown-Holds db.ext_cache good ahead);
          cached = lookup-put_self key kc' db'.known_certs_cache;
          uses = same_key cache laws (lib.serial_of cert) kc db'.ext_cache;
        }

    no_cache_error :
        laws.IsGood db.ext_cache → (ask_unknown cache backend lib cert exp_date issuer db).1 ≡ none
    unfolding ask_unknown
    no_cache_error good =
        rw ask_keeps (no_error db.ext_cache (reliable (serial_id kc) x db.ext_cache good))

    store-Kept :
        laws.IsGood db.ext_cache
        → laws.expires_later
            (insertion cache backend lib cert issuer_cert db).2
            (expire_time kc.exp_date)
          ≡ true
        → Kept cache backend lib laws reliable key
            (serial_id kc)
            x
            (store cache backend lib cert issuer_cert db).1
    unfolding store
    store-Kept good ahead =
        let (unknown, e, db') = ask_unknown cache backend lib cert exp_date issuer db in
        then_go-Kept cache backend lib laws reliable key (serial_id kc) x (e, db') _
          (ask_unknown-Kept good ahead)
          λ db1 h1.
            then_go-Kept cache backend lib laws reliable key (serial_id kc) x _ _
              (stored cache backend lib laws reliable key (serial_id kc) x unknown cert exp_date
                issuer db1 h1)
              λ db2 h2.
                mark_dirty-Kept cache backend lib laws reliable key (serial_id kc) x cert.not_after
                  db2 h2

    cached_lem :
        (db' : Database S B) (kc' : KnownCertificates)
        → lookup key db'.known_certs_cache ≡ some kc'
        → (get_known_certificates cache backend lib exp_date issuer db').0 ≡ kc'
    unfolding get_known_certificates
    cached_lem db' kc' h = rw (h, get_known_certificates) refl

    asked_again :
        (db' : Database S B)
        → Kept cache backend lib laws reliable key (serial_id kc) x db'
        → serial_id (asked cache backend lib cert issuer_cert db') ≡ serial_id kc
    asked_again db' h = ap serial_id (cached_lem db' h.kc h.cached) ∙ h.uses

    -- On a good state of a cache that keeps the laws and does not fail to insert, where the
    -- expiration that Store sets is still ahead: however the calls of the backend within Store of
    -- a certificate end, Store of it again only tells the backend that its day is dirty, and
    -- leaves the metadata.
    pub store_again :
        laws.IsGood db.ext_cache
        → laws.expires_later
            (insertion cache backend lib cert issuer_cert db).2
            (expire_time (asked cache backend lib cert issuer_cert db).exp_date)
          ≡ true
        → let db1 : Database S B = (store cache backend lib cert issuer_cert db).1 in
          let day : Bytes = format_date (civil cert.not_after) in
          ((store cache backend lib cert issuer_cert db1).0
            ≡ (backend.mark_dirty day db1.backend).1)
          × ((store cache backend lib cert issuer_cert db1).1.backend
              ≡ (backend.mark_dirty day db1.backend).2)
          × ((store cache backend lib cert issuer_cert db1).1.meta ≡ db1.meta)
    store_again good ahead =
        let db1 = (store cache backend lib cert issuer_cert db).1 in
        let h = store-Kept good ahead in
        store_known cache backend lib cert issuer_cert db1 laws h.holds.good
          (reliable (serial_id (asked cache backend lib cert issuer_cert db1)) x db1.ext_cache
            h.holds.good)
          (rw (asked_again db1 h) h.holds.there)
