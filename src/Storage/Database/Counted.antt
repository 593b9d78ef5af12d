-- ===== src/Storage/Database/Counted.antt =====
-- How often a certificate is handed to the backend: the parts of Store behind WasUnknown.
use ct_mapreduce.Prelude.{
  ℕ, ◌+◌, ◌≤◌, Bool, true, false, ◌&&◌, Bytes, bytes_eq, Error, Option, none, some, All, Bool-cases,
  inl, inr, ◌≡◌, ap, ◌∙◌, arith, if◌then◌else◌,
}
use ct_mapreduce.Cache.{RemoteCache}
use ct_mapreduce.Cache.Laws.{SetLaws}
use ct_mapreduce.Certificate.{Certificate}
use ct_mapreduce.GoLib.Time.{Time}
use ct_mapreduce.Storage.Backend.{StorageBackend}
use ct_mapreduce.Storage.Database.{
  Database, Libraries, get_issuer_metadata, accumulate_at, allocate, store_pem, store_new, then_go,
  mark_dirty,
}
use ct_mapreduce.Storage.Database.Tidy.{IsAt, DropsOnly}
use ct_mapreduce.Storage.ExpDate.{ExpDate}
use ct_mapreduce.Storage.IssuerMetadata.Keeping.{IsReliable, Holds, accumulate-Holds}
use ct_mapreduce.Storage.KnownCertificates.{new_known_certificates, serial_id}
use ct_mapreduce.Storage.Serial.{Serial, binary_string}

-- The certificate that is counted is that of the serial `x` in the set at the key `k`.
abbrev pub is_counted : Bytes → Bytes → Serial → ExpDate → Bytes → Bool
is_counted k x serial d issuer =
    bytes_eq (serial_id (new_known_certificates d issuer)) k && bytes_eq x (binary_string serial)

-- `written` counts how often a backend was handed a certificate: no other call adds to it.
pub record Counts {B : Type 0} (backend : StorageBackend B)
    (counted : Serial → ExpDate → Bytes → Bool) (written : B → ℕ) : Type 0 where
  pub pem_adds :
      (serial : Serial) (d : ExpDate) (issuer pem : Bytes) (b : B)
      → written (backend.store_certificate_pem serial d issuer pem b).2
        ≤ written b + (if counted serial d issuer then 1 else 0)
  pub allocation_adds_none :
      (d : ExpDate) (issuer : Bytes) (b : B)
      → written (backend.allocate_exp_date_and_issuer d issuer b).2 ≤ written b
  pub dirt_adds_none : (day : Bytes) (b : B) → written (backend.mark_dirty day b).2 ≤ written b

module _ {S B : Type 0} (cache : RemoteCache S) (backend : StorageBackend B) (lib : Libraries)
    (laws : SetLaws cache) (reliable : IsReliable cache laws) (width : ℕ)
    (drops : DropsOnly width lib) (k x : Bytes) (written : B → ℕ)
    (counts : Counts backend (is_counted k x) written) where
  open laws use {IsGood, contains, expires_later}

  -- The certificate was handed over once at most, and not before the cache knew it.
  pub record IsSafe (db : Database S B) : Type 0 where
    pub good : IsGood db.ext_cache
    pub certs : All (IsAt width) db.known_certs_cache
    pub once : written db.backend ≤ 1
    pub none_yet : contains db.ext_cache k x ≡ false → written db.backend ≡ 0

  pub then_go-keeps :
      (P : Database S B → Type 0) (Q : Database S B → Type 0) (r : Option Error × Database S B)
      (f : Database S B → Option Error × Database S B)
      → P r.1
      → ((db : Database S B) → P db → Q db)
      → ((db : Database S B) → P db → Q (f db).1)
      → Q (then_go cache backend lib r f).1
  then_go-keeps P Q (some e, db) f h w g = w db h
  then_go-keeps P Q (none, db) f h w g = g db h

  pub mark_dirty-IsSafe :
      (t : Time) (db : Database S B) → IsSafe db → IsSafe (mark_dirty cache backend lib t db).1
  unfolding mark_dirty
  mark_dirty-IsSafe t db h = record {
    good = h.good;
    certs = h.certs;
    once = omega (arith, h.once, counts.dirt_adds_none _ db.backend);
    none_yet = λ e. omega (arith, h.none_yet e, counts.dirt_adds_none _ db.backend);
  }

  looked_up :
      (issuer : Bytes) (db : Database S B)
      → ((get_issuer_metadata cache backend lib issuer db).1.ext_cache ≡ db.ext_cache)
        × ((get_issuer_metadata cache backend lib issuer db).1.backend ≡ db.backend)
        × ((get_issuer_metadata cache backend lib issuer db).1.known_certs_cache
            ≡ db.known_certs_cache)
  unfolding get_issuer_metadata
  looked_up issuer db = ground arith

  -- Accumulate takes nothing from a set.
  kept :
      (a b : Bytes) (cert : Certificate) (issuer : Bytes) (db : Database S B)
      → IsGood db.ext_cache
      → contains db.ext_cache a b ≡ true
      → IsGood (accumulate_at cache backend lib cert issuer db).2.ext_cache
        × (contains (accumulate_at cache backend lib cert issuer db).2.ext_cache a b ≡ true)
  unfolding accumulate_at
  kept a b cert issuer db good there =
      let (im, db') = get_issuer_metadata cache backend lib issuer db in
      let before : Holds cache lib.parse_url laws reliable a b db'.ext_cache =
        rw ((looked_up issuer db).0) (record { good = good; there = there }) in
      let after =
        accumulate-Holds cache lib.parse_url laws reliable a b cert im db'.ext_cache before in
      (after.good, after.there)

  accumulated :
      (cert : Certificate) (issuer : Bytes) (db : Database S B)
      → ((accumulate_at cache backend lib cert issuer db).2.backend ≡ db.backend)
        × ((accumulate_at cache backend lib cert issuer db).2.known_certs_cache
            ≡ db.known_certs_cache)
  unfolding accumulate_at
  accumulated cert issuer db =
      let (cache_, backend_, certs) = looked_up issuer db in (backend_, certs)

  module _ (key y : Bytes) (counted : Bool) where
    -- Behind WasUnknown the cache knows the serial; if it was unknown, the certificate that is counted
    -- was not handed over.
    pub record IsAsked (db : Database S B) : Type 0 where
      pub safe : IsSafe db
      pub there : contains db.ext_cache key y ≡ true
      pub ready : counted ≡ true → (written db.backend ≡ 0) × (contains db.ext_cache k x ≡ true)

    accumulate_at-IsAsked :
        (cert : Certificate) (issuer : Bytes) (db : Database S B)
        → IsAsked db
        → IsAsked (accumulate_at cache backend lib cert issuer db).2
    accumulate_at-IsAsked cert issuer db h =
        let (good, there) = kept key y cert issuer db h.safe.good h.there in
        let (b, certs) = accumulated cert issuer db in
        let db' = (accumulate_at cache backend lib cert issuer db).2 in
        let same : written db'.backend ≡ written db.backend = ap written b in
        record {
          safe = record {
            good = good;
            certs = rw certs h.safe.certs;
            once = omega (arith, same, h.safe.once);
            none_yet = λ e. elim (Bool-cases (contains db.ext_cache k x)) [
              | inl was ↦
                  let is = (kept k x cert issuer db h.safe.good was).1 in absurd (cc (e, is))
              | inr was_not ↦ same ∙ h.safe.none_yet was_not
            ];
          };
          there = there;
          ready = λ c.
              let (none_yet, known) = h.ready c in
              (same ∙ none_yet, (kept k x cert issuer db h.safe.good known).1);
        }

    allocate-IsAsked :
        (d : ExpDate) (issuer : Bytes) (db : Database S B)
        → IsAsked db
        → IsAsked (allocate cache backend lib d issuer db).1
    unfolding allocate
    allocate-IsAsked d issuer db h =
        let fewer = counts.allocation_adds_none d issuer db.backend in
        record {
          safe = record {
            good = h.safe.good;
            certs = h.safe.certs;
            once = omega (arith, h.safe.once, fewer);
            none_yet = λ e. omega (arith, h.safe.none_yet e, fewer);
          };
          there = h.there;
          ready = λ c. let (none_yet, known) = h.ready c in (omega (arith, none_yet, fewer), known);
        }

    allocated :
        (seen : Bool) (d : ExpDate) (issuer : Bytes) (db : Database S B)
        → IsAsked db
        → IsAsked (if seen then (none, db) else allocate cache backend lib d issuer db).1
    allocated true d issuer db h = h
    allocated false d issuer db h = allocate-IsAsked d issuer db h

    store_pem-IsSafe :
        (cert : Certificate) (d : ExpDate) (issuer : Bytes) (db : Database S B)
        → is_counted k x (lib.serial_of cert) d issuer ≡ counted
        → IsAsked db
        → IsSafe (store_pem cache backend lib cert d issuer db).1
    unfolding store_pem
    store_pem-IsSafe cert d issuer db which h =
        let more =
          counts.pem_adds (lib.serial_of cert) d issuer (lib.pem_encode cert.raw) db.backend in
        elim (Bool-cases counted) [
          | inl is ↦
              let (none_yet, known) = h.ready is in
              let one = rw (which, is) at more in
              record {
                good = h.safe.good;
                certs = h.safe.certs;
                once = omega (arith, none_yet, one);
                none_yet = λ e. absurd (cc (e, known));
              }
          | inr is_not ↦
              let none_more = rw (which, is_not) at more in
              record {
                good = h.safe.good;
                certs = h.safe.certs;
                once = omega (arith, h.safe.once, none_more);
                none_yet = λ e. omega (arith, h.safe.none_yet e, none_more);
              }
        ]

    pub store_new-IsSafe :
        (cert : Certificate) (d : ExpDate) (issuer : Bytes) (db : Database S B)
        → is_counted k x (lib.serial_of cert) d issuer ≡ counted
        → IsAsked db
        → IsSafe (store_new cache backend lib cert d issuer db).1
    unfolding store_new
    store_new-IsSafe cert d issuer db which h =
        let (seen, e, db') = accumulate_at cache backend lib cert issuer db in
        then_go-keeps IsAsked IsSafe (e, db') _ (accumulate_at-IsAsked cert issuer db h)
          (λ db1 h1. h1.safe)
          λ db1 h1.
            then_go-keeps IsAsked IsSafe _ _ (allocated seen d issuer db1 h1) (λ db2 h2. h2.safe)
              λ db2 h2. store_pem-IsSafe cert d issuer db2 which h2
