-- ===== src/Storage/Database/Storing.antt =====
-- What Store hands to the backend.
use ct_mapreduce.Prelude.{Bool, true, Bytes, Error, Option, none, ◌≡◌, arith}
use ct_mapreduce.Cache.{RemoteCache}
use ct_mapreduce.Cache.Laws.{SetLaws}
use ct_mapreduce.Certificate.{Certificate}
use ct_mapreduce.GoLib.Calendar.{civil, format_date}
use ct_mapreduce.Storage.Backend.{StorageBackend}
use ct_mapreduce.Storage.Database.{
  Database, Libraries, get_known_certificates, ask_unknown, store, mark_dirty,
}
use ct_mapreduce.Storage.ExpDate.{new_exp_date_from_time}
use ct_mapreduce.Storage.Identifiers.{new_issuer, issuer_id_of}
use ct_mapreduce.Storage.KnownCertificates.{KnownCertificates, serial_id, was_unknown}
use ct_mapreduce.Storage.Serial.{binary_string}

module _ {S B : Type 0} (cache : RemoteCache S) (backend : StorageBackend B) (lib : Libraries)
    (cert issuer_cert : Certificate) (db : Database S B) where
  abbrev issuer : Bytes
  issuer = issuer_id_of lib.sha256 (new_issuer issuer_cert.raw_spki)

  -- The known certificates that Store asks, and its question to the cache.
  abbrev pub asked : KnownCertificates
  asked =
      (get_known_certificates cache backend lib (new_exp_date_from_time cert.not_after) issuer db).0

  abbrev pub insertion : Bool × Option Error × S
  insertion = cache.set_insert (serial_id asked) (binary_string (lib.serial_of cert)) db.ext_cache

  get_known_keeps :
      ((get_known_certificates cache backend lib
          (new_exp_date_from_time cert.not_after)
          issuer
          db).1.backend
        ≡ db.backend)
      × ((get_known_certificates cache backend lib
            (new_exp_date_from_time cert.not_after)
            issuer
            db).1.ext_cache
          ≡ db.ext_cache)
      × ((get_known_certificates cache backend lib
            (new_exp_date_from_time cert.not_after)
            issuer
            db).1.meta
          ≡ db.meta)
  unfolding get_known_certificates
  get_known_keeps = ground arith

  was_unknown_result :
      (kc : KnownCertificates) (s : S)
      → ((was_unknown cache (lib.serial_of cert) kc s).1
          ≡ (cache.set_insert (serial_id kc) (binary_string (lib.serial_of cert)) s).1)
        × ((cache.set_insert (serial_id kc) (binary_string (lib.serial_of cert)) s).1 ≡ none
            → (was_unknown cache (lib.serial_of cert) kc s).0
              ≡ (cache.set_insert (serial_id kc) (binary_string (lib.serial_of cert)) s).0)
  unfolding was_unknown
  was_unknown_result kc s = ground arith

  ask_unknown_lem :
      ((ask_unknown cache backend lib cert (new_exp_date_from_time cert.not_after) issuer db).1
        ≡ insertion.1)
      × (insertion.1 ≡ none
          → (ask_unknown cache backend lib cert (new_exp_date_from_time cert.not_after) issuer db).0
            ≡ insertion.0)
      × ((ask_unknown cache backend lib cert
            (new_exp_date_from_time cert.not_after)
            issuer
            db).2.backend
          ≡ db.backend)
      × ((ask_unknown cache backend lib cert
            (new_exp_date_from_time cert.not_after)
            issuer
            db).2.meta
          ≡ db.meta)
  unfolding ask_unknown
  ask_unknown_lem =
      let kept = get_known_keeps in ground (arith, kept, was_unknown_result asked db.ext_cache)

  -- On a good state and without an error of the cache, a certificate whose serial stands in it
  -- already is not stored again: the backend is only told that the day of its expiration is
  -- dirty, and the metadata stays.
  pub store_known :
      (laws : SetLaws cache)
      → laws.IsGood db.ext_cache
      → insertion.1 ≡ none
      → laws.contains db.ext_cache (serial_id asked) (binary_string (lib.serial_of cert)) ≡ true
      → ((store cache backend lib cert issuer_cert db).0
          ≡ (backend.mark_dirty (format_date (civil cert.not_after)) db.backend).1)
        × ((store cache backend lib cert issuer_cert db).1.backend
            ≡ (backend.mark_dirty (format_date (civil cert.not_after)) db.backend).2)
        × ((store cache backend lib cert issuer_cert db).1.meta ≡ db.meta)
  unfolding store mark_dirty
  store_known laws good fine known = ground (
    arith,
    ask_unknown_lem,
    laws.insert_result (serial_id asked) (binary_string (lib.serial_of cert)) db.ext_cache good
        fine,
  )
