-- ===== src/Statistics/Counts.antt =====
-- What storage-statistics counts, over a cache that nothing changes meanwhile.
use ct_mapreduce.Prelude.{
  ℕ, ◌+◌, ltb, true, Bytes, bytes, Result, ok, none, List, [], ◌∷◌, length, sum_by, All,
  Option-cases, inl, inr, ◌≡◌, refl, ap, ◌∙◌, arith,
}
use ct_mapreduce.Cache.{RemoteCache}
use ct_mapreduce.GoLib.Assoc.{lookup, lookup-All, put-All}
use ct_mapreduce.Storage.Backend.{StorageBackend}
use ct_mapreduce.Storage.Database.{
  Database, Libraries, new_filesystem_database, get_issuer_metadata, get_known_certificates,
}
use ct_mapreduce.Storage.Database.Grouping.{group, get_issuer_and_dates_from_cache}
use ct_mapreduce.Storage.Database.Tidy.{IsAt, DropsOnly, get_known_certificates-IsAt}
use ct_mapreduce.Storage.ExpDate.{ExpDate}
use ct_mapreduce.Storage.IssuerMetadata.{
  IssuerMetadata, new_issuer_metadata, crls, issuers, crl_id, issuers_id,
}
use ct_mapreduce.Storage.KnownCertificates.{
  KnownCertificates, new_known_certificates, serial_id, count,
}
use ct_mapreduce.Statistics.{Totals, print_serials, count_dates, count_issuers, count_all}

-- The size of the set of the serials of an issuer and a date, where `size` says those of all sets.
abbrev pub serials_of : (Bytes → ℕ) → Bytes → ExpDate → ℕ
serials_of size issuer d = size (serial_id (new_known_certificates d issuer))

-- The sums over a listing.
abbrev pub serials_in : (Bytes → ℕ) → List (Bytes × List ExpDate) → ℕ
serials_in size l = sum_by (λ (r : Bytes × List ExpDate). sum_by (serials_of size r.0) r.1) l

abbrev pub crls_in : (Bytes → List Bytes) → List (Bytes × List ExpDate) → ℕ
crls_in listed l = sum_by (λ (r : Bytes × List ExpDate). length (listed (crl_id r.0))) l

abbrev totals_of : ℕ → ℕ → ℕ → Result Totals
totals_of n a c = ok (record { total_issuers = n; total_serials = a; total_crls = c; written = [] })

same_totals : (n : ℕ) {a b c d : ℕ} → a ≡ b → c ≡ d → totals_of n a c ≡ totals_of n b d
same_totals n h k = rw (h, k)

module _ {S B : Type 0} (cache : RemoteCache S) (backend : StorageBackend B) (lib : Libraries)
    (listing : List Bytes) (size : Bytes → ℕ) (listed : Bytes → List Bytes) where
  -- A state of which the cache answers what the functions say, until something changes it.
  pub record IsSteady (Holds : S → Type 0) : Type 0 where
    pub keys :
        (s : S)
        → Holds s
        → ((cache.keys_to_chan (bytes "serials::*") s).0 ≡ listing)
          × ((cache.keys_to_chan (bytes "serials::*") s).1 ≡ none)
          × Holds (cache.keys_to_chan (bytes "serials::*") s).2
    pub cardinality :
        (key : Bytes) (s : S)
        → Holds s
        → ((cache.set_cardinality key s).0 ≡ size key) × Holds (cache.set_cardinality key s).2
    pub list :
        (key : Bytes) (s : S)
        → Holds s
        → ((cache.set_list key s).0 ≡ listed key)
          × ((cache.set_list key s).1 ≡ none)
          × Holds (cache.set_list key s).2

  module _ (Holds : S → Type 0) (steady : IsSteady Holds) (width : ℕ) (verbosity : ℕ)
      (low : ltb verbosity 2 ≡ true) where
    abbrev pub IsOf : Bytes × IssuerMetadata → Type 0
    IsOf (k, im) = im.issuer ≡ k

    pub record IsTidy (db : Database S B) : Type 0 where
      pub holds : Holds db.ext_cache
      pub certs : All (IsAt width) db.known_certs_cache
      pub metas : All IsOf db.meta

    untouched :
        (d : ExpDate) (issuer : Bytes) (db : Database S B)
        → ((get_known_certificates cache backend lib d issuer db).1.ext_cache ≡ db.ext_cache)
          × ((get_known_certificates cache backend lib d issuer db).1.meta ≡ db.meta)
    unfolding get_known_certificates
    untouched d issuer db = ground arith

    known :
        (drops : DropsOnly width lib) (d : ExpDate) (issuer : Bytes) (db : Database S B)
        → IsTidy db
        → length issuer ≡ width
        → (serial_id (get_known_certificates cache backend lib d issuer db).0
            ≡ serial_id (new_known_certificates d issuer))
          × IsTidy (get_known_certificates cache backend lib d issuer db).1
    known drops d issuer db tidy wide =
        let (same, at, certs) =
          get_known_certificates-IsAt cache backend lib width drops d issuer db tidy.certs wide in
        let (holds, metas) = untouched d issuer db in
        (same, record { holds = rw holds tidy.holds; certs = certs; metas = rw metas tidy.metas })

    metadata :
        (issuer : Bytes) (db : Database S B)
        → IsTidy db
        → ((get_issuer_metadata cache backend lib issuer db).0.issuer ≡ issuer)
          × IsTidy (get_issuer_metadata cache backend lib issuer db).1
    unfolding get_issuer_metadata new_issuer_metadata
    metadata issuer db tidy = elim (Option-cases (lookup issuer db.meta)) [
      | inl new ↦
          rw (new, get_issuer_metadata)
            (
              refl,
              record {
                holds = tidy.holds;
                certs = tidy.certs;
                metas = put-All IsOf issuer _ _ refl tidy.metas;
              },
            )
      | inr (im, old) ↦
          rw (old, get_issuer_metadata) (lookup-All IsOf issuer im db.meta tidy.metas old, tidy)
    ]

    with_cache :
        (db : Database S B) (s : S) → IsTidy db → Holds s → IsTidy (record db { ext_cache = s })
    with_cache db s tidy h = record { holds = h; certs = tidy.certs; metas = tidy.metas }

    -- Below verbosity 2 no serial is read.
    quiet :
        (kc : KnownCertificates) (d : ExpDate) (issuer : Bytes) (db : Database S B)
        → IsTidy db
        → ((print_serials cache backend lib verbosity kc d issuer db).0 ≡ ok [])
          × IsTidy (print_serials cache backend lib verbosity kc d issuer db).1
    unfolding print_serials
    quiet kc d issuer db tidy = rw (low, print_serials) (refl, tidy)

    count_lem :
        (kc : KnownCertificates) (s : S)
        → Holds s
        → ((count cache kc s).0 ≡ size (serial_id kc)) × Holds (count cache kc s).1
    unfolding count
    count_lem kc s h = steady.cardinality (serial_id kc) s h

    count_dates-sum :
        (drops : DropsOnly width lib) (issuer : Bytes) (dates : List ExpDate) (db : Database S B)
        → IsTidy db
        → length issuer ≡ width
        → ((count_dates cache backend lib verbosity issuer dates db).0
            ≡ ok (sum_by (serials_of size issuer) dates, []))
          × IsTidy (count_dates cache backend lib verbosity issuer dates db).1
    unfolding count_dates
    count_dates-sum drops issuer [] db tidy wide = (refl, tidy)
    count_dates-sum drops issuer (d ∷ dates) db tidy wide =
        let (kc, db1) = get_known_certificates cache backend lib d issuer db in
        let (same, tidy1) = known drops d issuer db tidy wide in
        let (n, h) = count_lem kc db1.ext_cache tidy1.holds in
        let (printed, tidy2) = quiet kc d issuer _ (with_cache db1 _ tidy1 h) in
        let (rest, tidy3) = count_dates-sum drops issuer dates _ tidy2 wide in
        let read : (count cache kc db1.ext_cache).0 ≡ serials_of size issuer d = n ∙ ap size same in
        rw (printed, rest, count_dates)
          (ap (λ m. ok (m + sum_by (serials_of size issuer) dates, [])) read, tidy3)

    crls_lem :
        (im : IssuerMetadata) (s : S)
        → Holds s
        → ((crls cache lib.parse_url im s).0 ≡ ok (listed (crl_id im.issuer)))
          × Holds (crls cache lib.parse_url im s).1
    unfolding crls
    crls_lem im s h =
        let (l, fine, h') = steady.list (crl_id im.issuer) s h in rw (fine, crls) (rw l, h')

    issuers_lem :
        (im : IssuerMetadata) (s : S)
        → Holds s
        → ((issuers cache lib.parse_url im s).0 ≡ ok (listed (issuers_id im.issuer)))
          × Holds (issuers cache lib.parse_url im s).1
    unfolding issuers
    issuers_lem im s h =
        let (l, fine, h') = steady.list (issuers_id im.issuer) s h in rw (fine, issuers) (rw l, h')

    count_issuers-sum :
        (drops : DropsOnly width lib) (l : List (Bytes × List ExpDate)) (n a c : ℕ)
        (db : Database S B)
        → IsTidy db
        → All (λ (r : Bytes × List ExpDate). length r.0 ≡ width) l
        → (count_issuers cache backend lib verbosity l
            (record { total_issuers = n; total_serials = a; total_crls = c; written = [] })
            db).0
          ≡ totals_of n (a + serials_in size l) (c + crls_in listed l)
    unfolding count_issuers
    count_issuers-sum drops [] n a c db tidy wide = same_totals n (omega arith) (omega arith)
    count_issuers-sum drops ((issuer, dates) ∷ l) n a c db tidy wide =
        let (im, db1) = get_issuer_metadata cache backend lib issuer db in
        let (own, tidy1) = metadata issuer db tidy in
        let (crl, h1) = crls_lem im db1.ext_cache tidy1.holds in
        let s1 = (crls cache lib.parse_url im db1.ext_cache).1 in
        let (dns, h2) = issuers_lem im s1 h1 in
        let (sum, tidy2) =
          count_dates-sum drops issuer dates _ (with_cache db1 _ tidy1 h2) wide.0 in
        let later = count_issuers-sum drops l n _ _ _ tidy2 wide.1 in
        rw (crl, dns, sum, count_issuers)
          (later
            ∙ same_totals n (omega arith) (omega (arith, ap (λ i. length (listed (crl_id i))) own)))

    grouped_keys :
        (l : List (Bytes × List ExpDate)) (s : S)
        → Holds s
        → group listing [] ≡ ok l
        → ((get_issuer_and_dates_from_cache cache s).0 ≡ ok l)
          × Holds (get_issuer_and_dates_from_cache cache s).1
    unfolding get_issuer_and_dates_from_cache
    grouped_keys l s h grouped =
        let (keys, fine, h') = steady.keys s h in
        rw (fine, get_issuer_and_dates_from_cache) (rw (keys, grouped), h')

    -- At a verbosity below 2, over a cache that answers by fixed listings and sizes and keeps
    -- doing so, with an ARC that drops entries and changes none, and where the keys group to
    -- issuers whose texts have one width: from a new database the command counts the issuers, for
    -- all their dates the sizes of the sets of serials, and for each issuer its CRLs, and writes
    -- no certificate.
    pub count_all-sum :
        (drops : DropsOnly width lib) (l : List (Bytes × List ExpDate)) (b : B) (s : S)
        → Holds s
        → group listing [] ≡ ok l
        → All (λ (r : Bytes × List ExpDate). length r.0 ≡ width) l
        → (count_all cache backend lib verbosity (new_filesystem_database b s)).0
          ≡ ok (record {
            total_issuers = length l;
            total_serials = serials_in size l;
            total_crls = crls_in listed l;
            written = [];
          })
    unfolding count_all new_filesystem_database
    count_all-sum drops l b s h grouped wide =
        let (listed_keys, h') = grouped_keys l s h grouped in
        let tidy : IsTidy
            (record { backend = b; ext_cache = _; known_certs_cache = []; meta = [] }) =
          record { holds = h'; certs = tt; metas = tt } in
        rw (listed_keys, count_all)
          (count_issuers-sum drops l (length l) 0 0 _ tidy wide
            ∙ same_totals (length l) (omega arith) (omega arith))
