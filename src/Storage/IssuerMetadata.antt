-- ===== src/Storage/IssuerMetadata.antt =====
-- storage/issuermetadata.go: what has been seen of an issuer, in memory and in the cache. The methods
-- run one after another; the reader-writer lock of the record is not modelled.
pub mod Keeping
use ct_mapreduce.Prelude.{
  Bool, true, false, not, ◌||◌, Bytes, bytes, bytes_eq, bytes_eq_iff, member, Error, Result,
  Result-cases, ok, err, Option, none, some, List, [], ◌∷◌, ◌++◌, ◌≡◌, refl, arith, if◌then◌else◌,
  Bool-cases, inl, inr,
}
use ct_mapreduce.Cache.{RemoteCache}
use ct_mapreduce.Certificate.{Certificate}
use ct_mapreduce.GoLib.Text.{trim_space}
use ct_mapreduce.Storage.ExpDate
use ct_mapreduce.Storage.ExpDate.{new_exp_date_from_time}
use ct_mapreduce.Storage.Identifiers.{colons}

-- The parts of net/url that the program uses: what url.Parse finds of a text.
pub record Url : Type 0 where
  pub scheme : Bytes
  pub text : Bytes

-- A Go map to the empty struct is the list of its keys, newest first.
pub record IssuerMetadata : Type 0 where
  pub issuer : Bytes
  pub known_crl_dps : List Bytes
  pub known_issuer_dns : List Bytes
  pub known_exp_dates : List Bytes

unfoldable pub new_issuer_metadata : Bytes → IssuerMetadata
new_issuer_metadata issuer = record {
  issuer = issuer;
  known_crl_dps = [];
  known_issuer_dns = [];
  known_exp_dates = [];
}

unfoldable pub crl_id : Bytes → Bytes
crl_id issuer = bytes "crl" ++ (colons ++ issuer)

unfoldable pub issuers_id : Bytes → Bytes
issuers_id issuer = bytes "issuer" ++ (colons ++ issuer)

-- m[x] = struct{}{}
abbrev pub note : Bytes → List Bytes → List Bytes
note x l = if member x l then l else x ∷ l

unfoldable pub is_http : Bytes → Bool
is_http scheme = bytes_eq scheme (bytes "http") || bytes_eq scheme (bytes "https")

-- `parse` is url.Parse.
module _ {S : Type 0} (cache : RemoteCache S) (parse : Bytes → Result Url) where
  -- addCRL: an ldap scheme and an unknown one are passed over alike
  unfoldable pub add_crl : Bytes → Bytes → S → Option Error × S
  add_crl issuer crl s = elim (parse (trim_space crl)) [
    | err e ↦ (none, s)
    | ok url ↦
        if bytes_eq url.scheme (bytes "ldap") || bytes_eq url.scheme (bytes "ldaps")
        then (none, s)
        else if not (is_http url.scheme)
        then (none, s)
        else (let (result, e, s') = cache.set_insert (crl_id issuer) url.text s in (e, s'))
  ]

  unfoldable pub add_issuer_dn : Bytes → Bytes → S → Option Error × S
  add_issuer_dn issuer dn s =
      let (result, e, s') = cache.set_insert (issuers_id issuer) dn s in (e, s')

  -- the loop over the distribution points; each is noted in memory before it is added to the cache
  unfoldable pub accumulate_crls :
      List Bytes → IssuerMetadata → S → Option Error × IssuerMetadata × S
  accumulate_crls [] im s = (none, im, s)
  accumulate_crls (dp ∷ dps) im s = elim (member dp im.known_crl_dps) [
    | true ↦ accumulate_crls dps im s
    | false ↦
        let im' : IssuerMetadata = record im { known_crl_dps = dp ∷ im.known_crl_dps } in
        let (e, s') = add_crl im.issuer dp s in
        elim e [ some e ↦ (some e, im', s') | none ↦ accumulate_crls dps im' s' ]
  ]

  -- the last part of Accumulate
  unfoldable pub accumulate_dn :
      Bool → Bytes → IssuerMetadata → S → Option Error × IssuerMetadata × S
  accumulate_dn seen dn im s =
      if seen
      then (none, im, s)
      else (let (e, s') = add_issuer_dn im.issuer dn s in
          (e, record im { known_issuer_dns = note dn im.known_issuer_dns }, s'))

  -- Accumulate: whether the expiration date had been seen before
  unfoldable pub accumulate :
      Certificate → IssuerMetadata → S → Bool × Option Error × IssuerMetadata × S
  accumulate cert im s =
      let exp_date = ExpDate.id (new_exp_date_from_time cert.not_after) in
      let dn = cert.issuer_dn in
      let seen_exp_date_before = member exp_date im.known_exp_dates in
      let seen_issuer_dn = member dn im.known_issuer_dns in
      let im1 : IssuerMetadata =
        if seen_exp_date_before
        then im
        else record im { known_exp_dates = note exp_date im.known_exp_dates } in
      let (e, im2, s2) = accumulate_crls cert.crl_distribution_points im1 s in
      elim e [
        | some e ↦ (seen_exp_date_before, some e, im2, s2)
        | none ↦
            let (e3, im3, s3) = accumulate_dn seen_issuer_dn dn im2 s2 in
            (seen_exp_date_before, e3, im3, s3)
      ]

  -- Issuers and CRLs: `err` where the process ends by glog.Fatalf
  unfoldable pub issuers : IssuerMetadata → S → Result (List Bytes) × S
  issuers im s =
      let (l, e, s') = cache.set_list (issuers_id im.issuer) s in
      elim e [ some e ↦ (err e, s') | none ↦ (ok l, s') ]

  unfoldable pub crls : IssuerMetadata → S → Result (List Bytes) × S
  crls im s =
      let (l, e, s') = cache.set_list (crl_id im.issuer) s in
      elim e [ some e ↦ (err e, s') | none ↦ (ok l, s') ]

  accumulate_crls_keeps :
      (dps : List Bytes) (im : IssuerMetadata) (s : S)
      → ((accumulate_crls dps im s).1.known_exp_dates ≡ im.known_exp_dates)
        × ((accumulate_crls dps im s).1.issuer ≡ im.issuer)
  unfolding accumulate_crls
  accumulate_crls_keeps [] im s = (refl, refl)
  accumulate_crls_keeps (dp ∷ dps) im s =
      let im' : IssuerMetadata = record im { known_crl_dps = dp ∷ im.known_crl_dps } in
      ground (
        arith,
        accumulate_crls_keeps dps im s,
        accumulate_crls_keeps dps im' (add_crl im.issuer dp s).1,
      )

  accumulate_dn_keeps :
      (seen : Bool) (dn : Bytes) (im : IssuerMetadata) (s : S)
      → ((accumulate_dn seen dn im s).1.known_exp_dates ≡ im.known_exp_dates)
  unfolding accumulate_dn
  accumulate_dn_keeps seen dn im s = ground arith

  -- Whatever the cache answers, Accumulate reports whether the hour of the certificate's expiration
  -- was seen before, and it has seen it afterwards, with all that it had seen and nothing else.
  pub accumulate_exp_dates :
      (cert : Certificate) (im : IssuerMetadata) (s : S) (d : Bytes)
      → ((accumulate cert im s).0
          ≡ member (ExpDate.id (new_exp_date_from_time cert.not_after)) im.known_exp_dates)
        × (member d (accumulate cert im s).2.known_exp_dates ≡ (
            bytes_eq d (ExpDate.id (new_exp_date_from_time cert.not_after))
            || member d im.known_exp_dates))
  unfolding accumulate member
  accumulate_exp_dates cert im s d =
      let x : Bytes = ExpDate.id (new_exp_date_from_time cert.not_after) in
      let seen_dn : Bool = member cert.issuer_dn im.known_issuer_dns in
      elim (Bool-cases (member x im.known_exp_dates)) [
        | inl p ↦
            rw (p, accumulate)
              (let (e2, im2, s2) = accumulate_crls cert.crl_distribution_points im s in
                ground (
                  arith,
                  accumulate_crls_keeps cert.crl_distribution_points im s,
                  accumulate_dn_keeps seen_dn cert.issuer_dn im2 s2,
                  bytes_eq_iff d x,
                ))
        | inr p ↦
            rw (p, accumulate)
              (let im1 : IssuerMetadata = record im { known_exp_dates = x ∷ im.known_exp_dates } in
                let (e2, im2, s2) = accumulate_crls cert.crl_distribution_points im1 s in
                ground (
                  arith,
                  accumulate_crls_keeps cert.crl_distribution_points im1 s,
                  accumulate_dn_keeps seen_dn cert.issuer_dn im2 s2,
                ))
      ]

  -- A CRL that is no http or https URL is passed over without an error and without a call of the
  -- cache.
  add_crl_ignores :
      (issuer crl : Bytes) (s : S)
      → ((url : Url) → parse (trim_space crl) ≡ ok url → is_http url.scheme ≡ false)
      → add_crl issuer crl s ≡ (none, s)
  unfolding add_crl
  add_crl_ignores issuer crl s h = elim (Result-cases (parse (trim_space crl))) [
    | inl (url, fine) ↦ rw (fine, add_crl) (ground (arith, h url fine))
    | inr (e, bad) ↦ rw (bad, add_crl)
  ]
