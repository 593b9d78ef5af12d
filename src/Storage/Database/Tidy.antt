-- ===== src/Storage/Database/Tidy.antt =====
-- The map of known certificates: its keys are the text of a date and that of an issuer with nothing
-- between, which is enough where the texts of the issuers have one width.
use ct_mapreduce.Prelude.{
  ℕ, Bytes, List, ◌++◌, length, append-injective, All, Option-cases, inl, inr, ◌≡◌, refl, arith,
}
use ct_mapreduce.Cache.{RemoteCache}
use ct_mapreduce.GoLib.Assoc.{lookup, lookup-All, put-All}
use ct_mapreduce.Storage.Backend.{StorageBackend}
use ct_mapreduce.Storage.Database.{Database, Libraries, get_known_certificates}
use ct_mapreduce.Storage.ExpDate
use ct_mapreduce.Storage.ExpDate.{ExpDate}
use ct_mapreduce.Storage.KnownCertificates
use ct_mapreduce.Storage.KnownCertificates.{KnownCertificates, new_known_certificates, serial_id}

-- The object that is kept at a key is that of the date and the issuer, whose text has `width` bytes.
abbrev pub IsAt : ℕ → Bytes × KnownCertificates → Type 0
IsAt width (k, kc) = (ExpDate.id kc.exp_date ++ kc.issuer ≡ k) × (length kc.issuer ≡ width)

-- ARC drops entries and changes none.
abbrev pub DropsOnly : ℕ → Libraries → Type 0
DropsOnly width lib =
    (m : List (Bytes × KnownCertificates)) → All (IsAt width) m → All (IsAt width) (lib.evict m)

module _ {S B : Type 0} (cache : RemoteCache S) (backend : StorageBackend B) (lib : Libraries)
    (width : ℕ) (drops : DropsOnly width lib) where
  -- The object that is found uses the key of its date and issuer, and the map stays as it should.
  pub get_known_certificates-IsAt :
      (d : ExpDate) (issuer : Bytes) (db : Database S B)
      → All (IsAt width) db.known_certs_cache
      → length issuer ≡ width
      → (serial_id (get_known_certificates cache backend lib d issuer db).0
          ≡ serial_id (new_known_certificates d issuer))
        × IsAt width
            (ExpDate.id d ++ issuer, (get_known_certificates cache backend lib d issuer db).0)
        × All
            (IsAt width)
            (get_known_certificates cache backend lib d issuer db).1.known_certs_cache
  unfolding get_known_certificates serial_id KnownCertificates.id new_known_certificates
  get_known_certificates-IsAt d issuer db certs wide =
      let key : Bytes = ExpDate.id d ++ issuer in
      elim (Option-cases (lookup key db.known_certs_cache)) [
        | inl new ↦
            rw (new, get_known_certificates)
              (refl, (refl, wide), put-All (IsAt width) key _ _ (refl, wide) (drops _ certs))
        | inr (kc, old) ↦
            let at = lookup-All (IsAt width) key kc db.known_certs_cache certs old in
            let (dates, issuers) =
              append-injective (ExpDate.id kc.exp_date) kc.issuer (ExpDate.id d) issuer
                (omega (arith, wide, at.1)) at.0 in
            rw (old, get_known_certificates) (rw (dates, issuers) refl, at, certs)
      ]
