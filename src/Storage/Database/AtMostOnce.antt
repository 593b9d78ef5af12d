-- ===== src/Storage/Database/AtMostOnce.antt =====
-- Over any calls of Store a certificate is handed to the backend once at most.
use ct_mapreduce.Prelude.{
  ℕ, Bool, true, false, Bytes, bytes_eq_iff, bytes_eq_refl, Error, Option, none, ◌++◌, length, ◌≡◌,
  refl, ap, arith, if◌then◌else◌,
}
use ct_mapreduce.Cache.{RemoteCache}
use ct_mapreduce.Cache.Laws.{SetLaws}
use ct_mapreduce.Certificate.{Certificate}
use ct_mapreduce.GoLib.Assoc.{put-All}
use ct_mapreduce.Storage.Backend.{StorageBackend}
use ct_mapreduce.Storage.Database.{
  Database, Libraries, get_known_certificates, ask_unknown, store_new, store, then_go, mark_dirty,
}
use ct_mapreduce.Storage.Database.Storing.{asked, insertion}
use ct_mapreduce.Storage.Database.Tidy.{IsAt, DropsOnly, get_known_certificates-IsAt}
use ct_mapreduce.Storage.Database.Counted.{
  Counts, is_counted, IsSafe, IsAsked, then_go-keeps, mark_dirty-IsSafe, store_new-IsSafe,
}
use ct_mapreduce.Storage.ExpDate
use ct_mapreduce.Storage.ExpDate.{ExpDate, new_exp_date_from_time, expire_time}
use ct_mapreduce.Storage.Identifiers.{new_issuer, issuer_id_of}
use ct_mapreduce.Storage.IssuerMetadata.Keeping.{IsReliable}
use ct_mapreduce.Storage.KnownCertificates.{
  KnownCertificates, new_known_certificates, serial_id, was_unknown, was_unknown_lem,
  was_unknown-IsGood,
}
use ct_mapreduce.Storage.Serial.{Serial, binary_string}

module _ {S B : Type 0} (cache : RemoteCache S) (backend : StorageBackend B) (lib : Libraries)
    (laws : SetLaws cache) (reliable : IsReliable cache laws) (width : ℕ)
    (drops : DropsOnly width lib) (k x : Bytes) (written : B → ℕ)
    (counts : Counts backend (is_counted k x) written) where
  open laws use {IsGood, contains, expires_later}

  no_error :
      (serial : Serial) (kc : KnownCertificates) (s : S)
      → IsGood s
      → (was_unknown cache serial kc s).1 ≡ none
  unfolding was_unknown
  no_error serial kc s good = ground (arith, reliable (serial_id kc) (binary_string serial) s good)

  same_object :
      (serial : Serial) (kc : KnownCertificates) (s : S)
      → ((was_unknown cache serial kc s).2.exp_date ≡ kc.exp_date)
        × ((was_unknown cache serial kc s).2.issuer ≡ kc.issuer)
  unfolding was_unknown
  same_object serial kc s = ground arith

  -- What a call of WasUnknown leaves, of the state `s` and the number of certificates before.
  record Told (key y : Bytes) (counted : Bool) (n : ℕ) (r : Bool × S) : Type 0 where
    good : IsGood r.1
    none_yet : contains r.1 k x ≡ false → n ≡ 0
    there : contains r.1 key y ≡ true
    ready : r.0 ≡ true → counted ≡ true → (n ≡ 0) × (contains r.1 k x ≡ true)

  told :
      (serial : Serial) (d : ExpDate) (issuer : Bytes) (kc : KnownCertificates) (s : S) (n : ℕ)
      → serial_id kc ≡ serial_id (new_known_certificates d issuer)
      → IsGood s
      → (contains s k x ≡ false → n ≡ 0)
      → expires_later
          (cache.set_insert (serial_id kc) (binary_string serial) s).2
          (expire_time kc.exp_date)
        ≡ true
      → Told
          (serial_id kc)
          (binary_string serial)
          (is_counted k x serial d issuer)
          n
          ((was_unknown cache serial kc s).0, (was_unknown cache serial kc s).3)
  told serial d issuer kc s n same good none_yet ahead =
      let y : Bytes = binary_string serial in
      let (result, adds) =
        was_unknown_lem cache laws serial kc s good ahead (no_error serial kc s good) in
      let self : contains (was_unknown cache serial kc s).3 (serial_id kc) y ≡ true =
        ground (arith, adds (serial_id kc) y, bytes_eq_refl (serial_id kc), bytes_eq_refl y) in
      record {
        good = was_unknown-IsGood cache laws serial kc s good;
        none_yet = λ e. none_yet (ground (arith, adds k x, e));
        there = self;
        ready = λ unknown counted.
            let at : serial_id (new_known_certificates d issuer) ≡ k =
              (bytes_eq_iff _ k).0 (ground (arith, counted)) in
            let is : x ≡ y = (bytes_eq_iff x y).0 (ground (arith, counted)) in
            let was_not : contains s (serial_id kc) y ≡ false = ground (arith, result, unknown) in
            let absent : contains s k x ≡ false = rw (← at, ← same, is) was_not in
            (none_yet absent, rw (← at, ← same, is) self);
      }

  untouched :
      (d : ExpDate) (issuer : Bytes) (db : Database S B)
      → ((get_known_certificates cache backend lib d issuer db).1.ext_cache ≡ db.ext_cache)
        × ((get_known_certificates cache backend lib d issuer db).1.backend ≡ db.backend)
  unfolding get_known_certificates
  untouched d issuer db = ground arith

  module _ (cert : Certificate) (d : ExpDate) (issuer : Bytes) (wide : length issuer ≡ width)
      (db : Database S B) where
    abbrev kc : KnownCertificates
    kc = (get_known_certificates cache backend lib d issuer db).0

    abbrev y : Bytes
    y = binary_string (lib.serial_of cert)

    abbrev counted : Bool
    counted = is_counted k x (lib.serial_of cert) d issuer

    abbrev SafeDb : Database S B → Type 0
    SafeDb = IsSafe cache backend lib laws reliable width drops k x written counts

    abbrev AskedDb : Database S B → Type 0
    AskedDb =
        IsAsked cache backend lib laws reliable width drops k x written counts (serial_id kc) y
          counted

    ask_unknown-IsSafe :
        SafeDb db
        → expires_later (cache.set_insert (serial_id kc) y db.ext_cache).2 (expire_time kc.exp_date)
          ≡ true
        → SafeDb (ask_unknown cache backend lib cert d issuer db).2
          × ((ask_unknown cache backend lib cert d issuer db).0 ≡ true
              → AskedDb (ask_unknown cache backend lib cert d issuer db).2)
    unfolding ask_unknown
    ask_unknown-IsSafe h ahead =
        let db1 = (get_known_certificates cache backend lib d issuer db).1 in
        let (same, at, certs) =
          get_known_certificates-IsAt cache backend lib width drops d issuer db h.certs wide in
        let (cache_, backend_) = untouched d issuer db in
        let (date, issuer_) = same_object (lib.serial_of cert) kc db1.ext_cache in
        let t =
          told (lib.serial_of cert) d issuer kc db1.ext_cache (written db1.backend) same
            (rw cache_ h.good) (rw (cache_, backend_) h.none_yet) (rw cache_ ahead) in
        let kc' = (was_unknown cache (lib.serial_of cert) kc db1.ext_cache).2 in
        let at' : IsAt width (ExpDate.id d ++ issuer, kc') = rw (date, issuer_) at in
        let safe : SafeDb (ask_unknown cache backend lib cert d issuer db).2 = record {
          good = t.good;
          certs = put-All (IsAt width) _ kc' _ at' certs;
          once = omega (arith, h.once, ap written backend_);
          none_yet = t.none_yet;
        } in
        (safe, λ unknown. record { safe = safe; there = t.there; ready = t.ready unknown })

    -- What follows the question.
    rest :
        (unknown : Bool) (e : Option Error) (db1 : Database S B)
        → SafeDb db1
        → (unknown ≡ true → AskedDb db1)
        → SafeDb
            (then_go cache backend lib
              (e, db1)
              λ db2.
                then_go cache backend lib
                  (if unknown then store_new cache backend lib cert d issuer db2 else (none, db2))
                  λ db3. mark_dirty cache backend lib cert.not_after db3).1
    rest true e db1 h asked_ =
        then_go-keeps cache backend lib laws reliable width drops k x written counts AskedDb SafeDb
          (e, db1) _ (asked_ refl) (λ db2 h2. h2.safe)
          λ db2 h2.
            then_go-keeps cache backend lib laws reliable width drops k x written counts SafeDb
              SafeDb _ _
              (store_new-IsSafe cache backend lib laws reliable width drops k x written counts
                (serial_id kc) y counted cert d issuer db2 refl h2)
              (λ db3 h3. h3)
              λ db3 h3.
                mark_dirty-IsSafe cache backend lib laws reliable width drops k x written counts
                  cert.not_after db3 h3
    rest false e db1 h asked_ =
        then_go-keeps cache backend lib laws reliable width drops k x written counts SafeDb SafeDb
          (e, db1) _ h (λ db2 h2. h2)
          λ db2 h2.
            mark_dirty-IsSafe cache backend lib laws reliable width drops k x written counts
              cert.not_after db2 h2

  -- Store keeps what is safe, however it ends.
  pub store-IsSafe :
      (cert issuer_cert : Certificate) (db : Database S B)
      → length (issuer_id_of lib.sha256 (new_issuer issuer_cert.raw_spki)) ≡ width
      → IsSafe cache backend lib laws reliable width drops k x written counts db
      → expires_later
          (insertion cache backend lib cert issuer_cert db).2
          (expire_time (asked cache backend lib cert issuer_cert db).exp_date)
        ≡ true
      → IsSafe cache backend lib laws reliable width drops k x written counts
          (store cache backend lib cert issuer_cert db).1
  unfolding store
  store-IsSafe cert issuer_cert db wide h ahead =
      let d = new_exp_date_from_time cert.not_after in
      let issuer = issuer_id_of lib.sha256 (new_issuer issuer_cert.raw_spki) in
      let (unknown, e, db1) = ask_unknown cache backend lib cert d issuer db in
      let (safe, asked_) = ask_unknown-IsSafe cert d issuer wide db h ahead in
      rest cert d issuer wide db unknown e db1 safe asked_
