-- ===== src/Storage/Database/Keeping.antt =====
-- What the parts of Store leave in the cache and in the map of known certificates.
use ct_mapreduce.Prelude.{
  Bool, true, false, Bytes, Error, Option, Option-cases, none, some, inl, inr, ◌≡◌, if◌then◌else◌,
}
use ct_mapreduce.Cache.{RemoteCache}
use ct_mapreduce.Cache.Laws.{SetLaws}
use ct_mapreduce.Certificate.{Certificate}
use ct_mapreduce.GoLib.Assoc.{lookup}
use ct_mapreduce.GoLib.Time.{Time}
use ct_mapreduce.Storage.Backend.{StorageBackend}
use ct_mapreduce.Storage.Database.{
  Database, Libraries, get_issuer_metadata, accumulate_at, allocate, store_pem, store_new, then_go,
  mark_dirty,
}
use ct_mapreduce.Storage.ExpDate.{ExpDate}
use ct_mapreduce.Storage.IssuerMetadata.Keeping.{IsReliable, Holds, accumulate-Holds}
use ct_mapreduce.Storage.KnownCertificates.{KnownCertificates, serial_id}

module _ {S B : Type 0} (cache : RemoteCache S) (backend : StorageBackend B) (lib : Libraries)
    (laws : SetLaws cache) (reliable : IsReliable cache laws) where
  module _ (key k x : Bytes) where
    -- The entry `x` stands at the key `k`, which the known certificates at `key` use.
    pub record Kept (db : Database S B) : Type 0 where
      pub kc : KnownCertificates
      pub holds : Holds cache lib.parse_url laws reliable k x db.ext_cache
      pub cached : lookup key db.known_certs_cache ≡ some kc
      pub uses : serial_id kc ≡ k

    pub then_go-Kept :
        (r : Option Error × Database S B) (f : Database S B → Option Error × Database S B)
        → Kept r.1
        → ((db : Database S B) → Kept db → Kept (f db).1)
        → Kept (then_go cache backend lib r f).1
    then_go-Kept (some e, db) f h g = h
    then_go-Kept (none, db) f h g = g db h

    pub mark_dirty-Kept :
        (t : Time) (db : Database S B) → Kept db → Kept (mark_dirty cache backend lib t db).1
    unfolding mark_dirty
    mark_dirty-Kept t db h = record { kc = h.kc; holds = h.holds; cached = h.cached; uses = h.uses }

    allocate-Kept :
        (d : ExpDate) (issuer : Bytes) (db : Database S B)
        → Kept db
        → Kept (allocate cache backend lib d issuer db).1
    unfolding allocate
    allocate-Kept d issuer db h = record {
      kc = h.kc;
      holds = h.holds;
      cached = h.cached;
      uses = h.uses;
    }

    store_pem-Kept :
        (cert : Certificate) (d : ExpDate) (issuer : Bytes) (db : Database S B)
        → Kept db
        → Kept (store_pem cache backend lib cert d issuer db).1
    unfolding store_pem
    store_pem-Kept cert d issuer db h = record {
      kc = h.kc;
      holds = h.holds;
      cached = h.cached;
      uses = h.uses;
    }

    get_issuer_metadata-Kept :
        (issuer : Bytes) (db : Database S B)
        → Kept db
        → Kept (get_issuer_metadata cache backend lib issuer db).1
    unfolding get_issuer_metadata
    get_issuer_metadata-Kept issuer db h = elim (Option-cases (lookup issuer db.meta)) [
      | inr (im, there) ↦ rw (there, get_issuer_metadata) h
      | inl absent ↦
          rw (absent, get_issuer_metadata)
            (record { kc = h.kc; holds = h.holds; cached = h.cached; uses = h.uses })
    ]

    accumulate_at-Kept :
        (cert : Certificate) (issuer : Bytes) (db : Database S B)
        → Kept db
        → Kept (accumulate_at cache backend lib cert issuer db).2
    unfolding accumulate_at
    accumulate_at-Kept cert issuer db h =
        let (im, db') = get_issuer_metadata cache backend lib issuer db in
        let h' = get_issuer_metadata-Kept issuer db h in
        record {
          kc = h'.kc;
          holds =
              accumulate-Holds cache lib.parse_url laws reliable k x cert im db'.ext_cache h'.holds;
          cached = h'.cached;
          uses = h'.uses;
        }

    allocated :
        (seen : Bool) (d : ExpDate) (issuer : Bytes) (db : Database S B)
        → Kept db
        → Kept (if seen then (none, db) else allocate cache backend lib d issuer db).1
    allocated true d issuer db h = h
    allocated false d issuer db h = allocate-Kept d issuer db h

    store_new-Kept :
        (cert : Certificate) (d : ExpDate) (issuer : Bytes) (db : Database S B)
        → Kept db
        → Kept (store_new cache backend lib cert d issuer db).1
    unfolding store_new
    store_new-Kept cert d issuer db h =
        let (seen, e, db') = accumulate_at cache backend lib cert issuer db in
        then_go-Kept (e, db') _ (accumulate_at-Kept cert issuer db h)
          λ db1 h1.
            then_go-Kept _ _ (allocated seen d issuer db1 h1)
              λ db2 h2. store_pem-Kept cert d issuer db2 h2

    pub stored :
        (unknown : Bool) (cert : Certificate) (d : ExpDate) (issuer : Bytes) (db : Database S B)
        → Kept db
        → Kept (if unknown then store_new cache backend lib cert d issuer db else (none, db)).1
    stored true cert d issuer db h = store_new-Kept cert d issuer db h
    stored false cert d issuer db h = h
