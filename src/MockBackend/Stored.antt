-- ===== src/MockBackend/Stored.antt =====
-- What the mock backend has stored is loaded again.
use ct_mapreduce.Prelude.{Bytes, ok, none, some, [], ◌∷◌, ◌++◌, ◌≡◌, arith}
use ct_mapreduce.Cache.{CertificateLog}
use ct_mapreduce.Cache.Codec.{LogCodec, IsFaithful}
use ct_mapreduce.GoLib.Assoc.{lookup-put_self}
use ct_mapreduce.MockBackend.{
  MockBackend, pem_key, serials_key, log_key, store_certificate_pem, load_certificate_pem,
  list_serials_for_expiration_date_and_issuer, stream_serials_for_expiration_date_and_issuer,
  store_log_state, load_log_state,
}
use ct_mapreduce.Storage.ExpDate.{ExpDate}
use ct_mapreduce.Storage.Serial.{Serial}

-- A certificate that is stored is loaded again, and its serial is the last of its date and issuer,
-- behind those that were there.
load_certificate_pem-store_certificate_pem :
    (serial : Serial) (d : ExpDate) (issuer b : Bytes) (db : MockBackend)
    → let db' : MockBackend = (store_certificate_pem serial d issuer b db).2 in
      (load_certificate_pem serial d issuer db' ≡ (b, none, db'))
      × (stream_serials_for_expiration_date_and_issuer d issuer db'
          ≡ ((list_serials_for_expiration_date_and_issuer d issuer db).0 ++ serial ∷ [], none, db'))
unfolding load_certificate_pem store_certificate_pem list_serials_for_expiration_date_and_issuer
    stream_serials_for_expiration_date_and_issuer
load_certificate_pem-store_certificate_pem serial d issuer b db =
    let val = (list_serials_for_expiration_date_and_issuer d issuer db).0 in
    ground (
      arith,
      lookup-put_self (pem_key serial d issuer) b db.texts,
      lookup-put_self (serials_key d issuer) (val ++ serial ∷ []) db.exp_date_issuer_id_to_serials,
    )

-- A log state that is stored with a faithful codec is loaded again.
pub load-store_log_state :
    (codec : LogCodec) (log : CertificateLog) (text : Bytes) (db : MockBackend)
    → IsFaithful codec
    → codec.marshal log ≡ ok text
    → load_log_state codec log.short_url (store_log_state codec log db).2
      ≡ (some log, none, (store_log_state codec log db).2)
unfolding load_log_state store_log_state
load-store_log_state codec log text db faithful h =
    ground (arith, faithful log text h, lookup-put_self (log_key log.short_url) text db.texts)
