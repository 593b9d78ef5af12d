-- ===== src/Storage/Database/Grouping.antt =====
-- `GetIssuerAndDatesFromCache`: the expiration dates of each issuer, from the keys of the cache.
use ct_mapreduce.Prelude.{
  Bytes, bytes, bytes_eq, bytes_eq_iff, Error, Result, ok, err, none, some, List, [], ◌∷◌, ◌++◌,
  ◌≡◌, refl, arith, if◌then◌else◌, append_assoc, append-nil, inl, inr, ◌⊎◌,
}
use ct_mapreduce.Cache.{RemoteCache}
use ct_mapreduce.GoLib.Assoc.{lookup, put, lookup-put}
use ct_mapreduce.GoLib.Text.{split}
use ct_mapreduce.Storage.ExpDate.{ExpDate, new_exp_date}
use ct_mapreduce.Storage.Identifiers.{colons}

-- A key that is passed over, one that ends the listing, or an issuer's date.
pub data Entry : Type 0 where
  skipped : Entry
  malformed : Entry
  found : Bytes → ExpDate → Entry

-- the parts of a key
unfoldable pub entry_of_parts : List Bytes → Entry
entry_of_parts (a ∷ b ∷ c ∷ []) = elim (new_exp_date b) [ err e ↦ skipped | ok d ↦ found c d ]
entry_of_parts l = malformed

unfoldable pub entry_of : Bytes → Entry
entry_of key = entry_of_parts (split key colons)

abbrev pub dates_at : Bytes → List (Bytes × List ExpDate) → List ExpDate
dates_at issuer m = elim (lookup issuer m) [ none ↦ [] | some l ↦ l ]

-- the loop over the keys, with the map of the issuers
unfoldable pub group :
    List Bytes → List (Bytes × List ExpDate) → Result (List (Bytes × List ExpDate))
group [] m = ok m
group (key ∷ keys) m = elim (entry_of key) [
  | malformed ↦ err (record { text = bytes "Unexpected key format" })
  | skipped ↦ group keys m
  | found issuer d ↦ group keys (put issuer (dates_at issuer m ++ d ∷ []) m)
]

-- `err` for the returned error and for glog.Fatalf; the order of the issuers is that of a Go map
unfoldable pub get_issuer_and_dates_from_cache :
    {S : Type 0} → RemoteCache S → S → Result (List (Bytes × List ExpDate)) × S
get_issuer_and_dates_from_cache cache s =
    let (keys, e, s') = cache.keys_to_chan (bytes "serials::*") s in
    elim e [ some e ↦ (err e, s') | none ↦ (group keys [], s') ]

-- The dates that the keys give for an issuer, in the order of the keys.
unfoldable pub dates_of : Bytes → List Bytes → List ExpDate
dates_of issuer [] = []
dates_of issuer (key ∷ keys) = elim (entry_of key) [
  | malformed ↦ dates_of issuer keys
  | skipped ↦ dates_of issuer keys
  | found i d ↦ let rest = dates_of issuer keys in if bytes_eq i issuer then d ∷ rest else rest
]

dates_at-put :
    (i issuer : Bytes) (l : List ExpDate) (m : List (Bytes × List ExpDate))
    → dates_at issuer (put i l m) ≡ (if bytes_eq i issuer then l else dates_at issuer m)
dates_at-put i issuer l m = ground (arith, lookup-put i issuer l m)

Entry-cases :
    (x : Entry)
    → (x ≡ skipped) ⊎ ((x ≡ malformed) ⊎ ((i : Bytes) × (d : ExpDate) × (x ≡ found i d)))
Entry-cases skipped = inl refl
Entry-cases malformed = inr (inl refl)
Entry-cases (found i d) = inr (inr (i, d, refl))

ok_ne_err : {m : List (Bytes × List ExpDate)} {e : Error} → err e ≡ ok m → ⊥
ok_ne_err h = cc

-- Where no key is malformed, each issuer gets the dates of its keys, behind those that it had.
pub group-dates_of :
    (keys : List Bytes) (m m' : List (Bytes × List ExpDate)) (issuer : Bytes)
    → group keys m ≡ ok m'
    → dates_at issuer m' ≡ dates_at issuer m ++ dates_of issuer keys
unfolding group dates_of
group-dates_of [] m m' issuer h = ground (arith, append-nil (dates_at issuer m))
group-dates_of (key ∷ keys) m m' issuer h = elim (Entry-cases (entry_of key)) [
  | inl e ↦ rw (e, dates_of) (group-dates_of keys m m' issuer (rw (e, group) at h))
  | inr (inl e) ↦ absurd (ok_ne_err (rw (e, group) at h))
  | inr (inr (i, d, e)) ↦
      let more = put i (dates_at i m ++ d ∷ []) m in
      let rest = group-dates_of keys more m' issuer (rw (e, group) at h) in
      rw (e, dates_of)
        (ground (
          arith,
          rest,
          dates_at-put i issuer (dates_at i m ++ d ∷ []) m,
          bytes_eq_iff i issuer,
          append_assoc (dates_at issuer m) (d ∷ []) (dates_of issuer keys),
        ))
]
