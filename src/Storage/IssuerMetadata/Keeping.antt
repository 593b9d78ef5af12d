-- ===== src/Storage/IssuerMetadata/Keeping.antt =====
-- What Accumulate leaves in the cache: all that stood there, if the cache keeps its laws and does not
-- fail to insert.
use ct_mapreduce.Prelude.{
  Bool, true, false, ◌||◌, Bytes, bytes, bytes_eq, member, Result, Result-cases, Option-cases, none,
  List, [], ◌∷◌, Bool-cases, inl, inr, ◌≡◌, arith, if◌then◌else◌,
}
use ct_mapreduce.Cache.{RemoteCache}
use ct_mapreduce.Cache.Laws.{SetLaws}
use ct_mapreduce.Certificate.{Certificate}
use ct_mapreduce.GoLib.Text.{trim_space}
use ct_mapreduce.Storage.ExpDate
use ct_mapreduce.Storage.ExpDate.{new_exp_date_from_time}
use ct_mapreduce.Storage.IssuerMetadata.{
  Url, IssuerMetadata, note, crl_id, issuers_id, is_http, add_crl, add_issuer_dn, accumulate_crls,
  accumulate_dn, accumulate,
}

-- On good states no insertion fails.
abbrev pub IsReliable : {S : Type 0} (cache : RemoteCache S) → SetLaws cache → Type 0
IsReliable {S} cache laws =
    (key e : Bytes) (s : S) → laws.IsGood s → (cache.set_insert key e s).1 ≡ none

module _ {S : Type 0} (cache : RemoteCache S) (parse : Bytes → Result Url) (laws : SetLaws cache)
    (reliable : IsReliable cache laws) (k x : Bytes) where
  -- A good state, with the entry `x` at the key `k`.
  pub record Holds (s : S) : Type 0 where
    pub good : laws.IsGood s
    pub there : laws.contains s k x ≡ true

  insert-Holds : (key e : Bytes) (s : S) → Holds s → Holds (cache.set_insert key e s).2
  insert-Holds key e s h = record {
    good = laws.insert_keeps key e s h.good;
    there =
        let added = laws.insert_adds key e s h.good (reliable key e s h.good) k x in
        ground (arith, added, h.there);
  }

  add_crl-Holds :
      (issuer crl : Bytes) (s : S) → Holds s → Holds (add_crl cache parse issuer crl s).1
  unfolding add_crl
  add_crl-Holds issuer crl s h = elim (Result-cases (parse (trim_space crl))) [
    | inr (e, bad) ↦ rw (bad, add_crl) h
    | inl (url, fine) ↦
        let ldap : Bool =
          bytes_eq url.scheme (bytes "ldap") || bytes_eq url.scheme (bytes "ldaps") in
        elim (Bool-cases ldap) [
          | inl p ↦ rw (fine, add_crl, p) h
          | inr p ↦ elim (Bool-cases (is_http url.scheme)) [
            | inr q ↦ rw (fine, add_crl, p, q) h
            | inl q ↦ rw (fine, add_crl, p, q) (insert-Holds (crl_id issuer) url.text s h)
          ]
        ]
  ]

  add_issuer_dn-Holds :
      (issuer dn : Bytes) (s : S) → Holds s → Holds (add_issuer_dn cache parse issuer dn s).1
  unfolding add_issuer_dn
  add_issuer_dn-Holds issuer dn s h = insert-Holds (issuers_id issuer) dn s h

  accumulate_crls-Holds :
      (dps : List Bytes) (im : IssuerMetadata) (s : S)
      → Holds s
      → Holds (accumulate_crls cache parse dps im s).2
  unfolding accumulate_crls
  accumulate_crls-Holds [] im s h = h
  accumulate_crls-Holds (dp ∷ dps) im s h =
      let im' : IssuerMetadata = record im { known_crl_dps = dp ∷ im.known_crl_dps } in
      let (e, s') = add_crl cache parse im.issuer dp s in
      let after = add_crl-Holds im.issuer dp s h in
      elim (Bool-cases (member dp im.known_crl_dps)) [
        | inl p ↦ rw (p, accumulate_crls) (accumulate_crls-Holds dps im s h)
        | inr p ↦ elim (Option-cases e) [
          | inl fine ↦ rw (p, accumulate_crls, fine) (accumulate_crls-Holds dps im' s' after)
          | inr (e', bad) ↦ rw (p, accumulate_crls, bad) after
        ]
      ]

  accumulate_dn-Holds :
      (seen : Bool) (dn : Bytes) (im : IssuerMetadata) (s : S)
      → Holds s
      → Holds (accumulate_dn cache parse seen dn im s).2
  unfolding accumulate_dn
  accumulate_dn-Holds true dn im s h = h
  accumulate_dn-Holds false dn im s h = add_issuer_dn-Holds im.issuer dn s h

  pub accumulate-Holds :
      (cert : Certificate) (im : IssuerMetadata) (s : S)
      → Holds s
      → Holds (accumulate cache parse cert im s).3
  unfolding accumulate
  accumulate-Holds cert im s h =
      let exp_date = ExpDate.id (new_exp_date_from_time cert.not_after) in
      let im1 : IssuerMetadata =
        if member exp_date im.known_exp_dates
        then im
        else record im { known_exp_dates = note exp_date im.known_exp_dates } in
      let (e, im2, s2) = accumulate_crls cache parse cert.crl_distribution_points im1 s in
      let after = accumulate_crls-Holds cert.crl_distribution_points im1 s h in
      elim (Option-cases e) [
        | inr (e', bad) ↦ rw (bad, accumulate) after
        | inl fine ↦
            rw (fine, accumulate)
              (accumulate_dn-Holds (member cert.issuer_dn im.known_issuer_dns) cert.issuer_dn im2 s2
                after)
      ]
