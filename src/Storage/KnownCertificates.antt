-- ===== src/Storage/KnownCertificates.antt =====
-- storage/knowncertificates.go: the set of known serials of an expiration date and an issuer.
pub mod Calls
use ct_mapreduce.Prelude.{
  Bool, true, false, not, ◌&&◌, ◌||◌, Bytes, bytes, bytes_eq, bytes_eq_refl, bytes_eq_iff, member,
  Error, Result, ok, err, Option, none, some, List, [], ◌∷◌, ◌++◌, map, ◌≡◌, refl, arith,
  if◌then◌else◌, Bool-cases, Option-cases, inl, inr, ℕ,
}
use ct_mapreduce.Cache.{RemoteCache}
use ct_mapreduce.Cache.Laws.{SetLaws}
use ct_mapreduce.GoLib.Text.{Lacks, split, split-Lacks, split_at_separator}
use ct_mapreduce.Storage.ExpDate
use ct_mapreduce.Storage.ExpDate.{ExpDate, expire_time}
use ct_mapreduce.Storage.Identifiers.{colons, id-Lacks_colon}
use ct_mapreduce.Storage.Serial.{Serial, binary_string}

-- The issuer by its identifier; the cache is an argument of the methods.
pub record KnownCertificates : Type 0 where
  pub exp_date : ExpDate
  pub issuer : Bytes
  pub expiry_set : Bool

unfoldable pub new_known_certificates : ExpDate → Bytes → KnownCertificates
new_known_certificates exp_date issuer = record {
  exp_date = exp_date;
  issuer = issuer;
  expiry_set = false;
}

unfoldable pub id : KnownCertificates → Bytes
id kc = ExpDate.id kc.exp_date ++ (colons ++ kc.issuer)

abbrev pub serials : Bytes
serials = bytes "serials"

unfoldable pub serial_id : KnownCertificates → Bytes
serial_id kc = serials ++ (colons ++ id kc)

-- If no colon stands in the issuer's identifier, the key is split at its colons into the word,
-- the date and the issuer.
split-serial_id :
    (kc : KnownCertificates)
    → Lacks 58 kc.issuer
    → split (serial_id kc) colons ≡ serials ∷ ExpDate.id kc.exp_date ∷ kc.issuer ∷ []
unfolding serial_id id
split-serial_id kc lacks =
    let word : Lacks 58 serials = (refl, (refl, (refl, (refl, (refl, (refl, (refl, tt))))))) in
    rw (
      split_at_separator 58 (58 ∷ []) serials _ word,
      split_at_separator 58 (58 ∷ []) (ExpDate.id kc.exp_date) _ (id-Lacks_colon kc.exp_date),
      split-Lacks 58 (58 ∷ []) kc.issuer lacks,
    )

-- the map that Known fills, with a key once
unfoldable pub without_repeats : List Bytes → List Bytes → List Bytes
without_repeats seen [] = seen
without_repeats seen (x ∷ l) = without_repeats (if member x seen then seen else x ∷ seen) l

-- No element stands twice in the list.
abbrev pub HasNoRepeat : List Bytes → Type 0
HasNoRepeat [] = Unit
HasNoRepeat (x ∷ l) = (member x l ≡ false) × HasNoRepeat l

without_repeats-HasNoRepeat :
    (seen l : List Bytes) → HasNoRepeat seen → HasNoRepeat (without_repeats seen l)
unfolding without_repeats
without_repeats-HasNoRepeat seen [] h = h
without_repeats-HasNoRepeat seen (x ∷ l) h = elim (Bool-cases (member x seen)) [
  | inl p ↦ rw (p, without_repeats) (without_repeats-HasNoRepeat seen l h)
  | inr p ↦ rw (p, without_repeats) (without_repeats-HasNoRepeat (x ∷ seen) l (p, h))
]

member-without_repeats :
    (x : Bytes) (seen l : List Bytes)
    → member x (without_repeats seen l) ≡ (member x seen || member x l)
unfolding without_repeats member
member-without_repeats x seen [] = ground arith
member-without_repeats x seen (y ∷ l) = elim (Bool-cases (member y seen)) [
  | inl p ↦
      rw (p, without_repeats) (ground (arith, member-without_repeats x seen l, bytes_eq_iff x y))
  | inr p ↦ rw (p, without_repeats) (ground (arith, member-without_repeats x (y ∷ seen) l))
]

module _ {S : Type 0} (cache : RemoteCache S) where
  -- setExpiryFlag; an error is only logged
  unfoldable pub set_expiry_flag : KnownCertificates → S → S
  set_expiry_flag kc s = (cache.expire_at (serial_id kc) (expire_time kc.exp_date) s).2

  -- WasUnknown
  unfoldable pub was_unknown :
      Serial → KnownCertificates → S → Bool × Option Error × KnownCertificates × S
  was_unknown serial kc s =
      let (result, e, s') = cache.set_insert (serial_id kc) (binary_string serial) s in
      elim e [
        | some e ↦ (false, some e, kc, s')
        | none ↦
            if kc.expiry_set
            then (result, none, kc, s')
            else (result, none, record kc { expiry_set = true }, set_expiry_flag kc s')
      ]

  -- Count; an error is only logged
  unfoldable pub count : KnownCertificates → S → ℕ × S
  count kc s = let (n, e, s') = cache.set_cardinality (serial_id kc) s in (n, s')

  -- Known: `err` where the process ends by glog.Fatalf; the order of the serials is that of a Go map,
  -- which is any
  unfoldable pub known : KnownCertificates → S → Result (List Serial) × S
  known kc s =
      let (sent, e, s') = cache.set_to_chan (serial_id kc) s in
      elim e [
        | some e ↦ (err e, s')
        | none ↦ (ok (map (λ b. record { serial = b }) (without_repeats [] sent)), s')
      ]

  module _ (laws : SetLaws cache) where
    open laws use {IsGood, contains, expires_later}

    -- The serial stands in the cache.
    abbrev pub knows : S → KnownCertificates → Serial → Bool
    knows s kc serial = contains s (serial_id kc) (binary_string serial)

    -- The expiration of the date is still ahead when WasUnknown sets it.
    abbrev pub IsAhead : Serial → KnownCertificates → S → Type 0
    IsAhead serial kc s =
        expires_later (cache.set_insert (serial_id kc) (binary_string serial) s).2
          (expire_time kc.exp_date)
        ≡ true

    -- On a good state of a cache that keeps the laws, where the expiration that it sets is still
    -- ahead: without an error WasUnknown tells whether the serial was not known, and then it is
    -- known, with all that was known before and nothing else.
    pub was_unknown_lem :
        (serial : Serial) (kc : KnownCertificates) (s : S)
        → IsGood s
        → IsAhead serial kc s
        → (was_unknown serial kc s).1 ≡ none
        → ((was_unknown serial kc s).0 ≡ not (knows s kc serial))
          × ((k x : Bytes)
              → contains (was_unknown serial kc s).3 k x ≡ (
                  bytes_eq (serial_id kc) k && bytes_eq x (binary_string serial) || contains s k x))
    unfolding was_unknown set_expiry_flag
    was_unknown_lem serial kc s good ahead no_error =
        let key : Bytes = serial_id kc in
        let b : Bytes = binary_string serial in
        let inserted = cache.set_insert key b s in
        let h : inserted.1 ≡ none = ground arith in
        (
          ground (arith, laws.insert_result key b s good h),
          λ k x. ground (
            arith,
            laws.insert_adds key b s good h k x,
            laws.expire_later key (expire_time kc.exp_date) inserted.2 ahead k x,
          ),
        )

    pub was_unknown-IsGood :
        (serial : Serial) (kc : KnownCertificates) (s : S)
        → IsGood s
        → IsGood (was_unknown serial kc s).3
    unfolding was_unknown set_expiry_flag serial_id id
    was_unknown-IsGood serial kc s good =
        let key : Bytes = serial_id kc in
        let kept : IsGood (cache.set_insert key (binary_string serial) s).2 =
          laws.insert_keeps key (binary_string serial) s good in
        elim (Option-cases (cache.set_insert key (binary_string serial) s).1) [
          | inr (e, bad) ↦ rw (bad, was_unknown) kept
          | inl fine ↦
              rw (fine, was_unknown)
                (elim (Bool-cases kc.expiry_set) [
                  | inl set ↦ rw (set, was_unknown) kept
                  | inr unset ↦
                      rw (unset, was_unknown)
                        (laws.expire_keeps key (expire_time kc.exp_date) _ kept)
                ])
        ]

    pub same_key :
        (serial : Serial) (kc : KnownCertificates) (s : S)
        → serial_id (was_unknown serial kc s).2 ≡ serial_id kc
    unfolding was_unknown serial_id id
    same_key serial kc s = ground arith

    -- On a good state, where no call fails and no expiration that is set has passed: the second
    -- of two calls for one serial reports that it is known.
    was_unknown_twice :
        (serial : Serial) (kc : KnownCertificates) (s : S)
        → IsGood s
        → IsAhead serial kc s
        → IsAhead serial (was_unknown serial kc s).2 (was_unknown serial kc s).3
        → (was_unknown serial kc s).1 ≡ none
        → (was_unknown serial (was_unknown serial kc s).2 (was_unknown serial kc s).3).1 ≡ none
        → (was_unknown serial (was_unknown serial kc s).2 (was_unknown serial kc s).3).0 ≡ false
    was_unknown_twice serial kc s good ahead ahead' no_error no_error' =
        let first = was_unknown_lem serial kc s good ahead no_error in
        let second =
          was_unknown_lem serial (was_unknown serial kc s).2 (was_unknown serial kc s).3
            (was_unknown-IsGood serial kc s good) ahead' no_error' in
        ground (
          arith,
          second.0,
          first.1 (serial_id kc) (binary_string serial),
          same_key serial kc s,
          bytes_eq_refl (serial_id kc),
          bytes_eq_refl (binary_string serial),
        )

    -- On a good state, where the cache sends without an error, Known lists the serials that stand
    -- in the cache, each of them once.
    pub known_lem :
        (kc : KnownCertificates) (s : S)
        → IsGood s
        → (cache.set_to_chan (serial_id kc) s).1 ≡ none
        → (l : List Bytes) × ((known kc s).0 ≡ ok (map (λ b. record { serial = b }) l))
          × HasNoRepeat l
          × ((x : Bytes) → member x l ≡ contains (known kc s).1 (serial_id kc) x)
    unfolding known member
    known_lem kc s good h =
        let sent = (cache.set_to_chan (serial_id kc) s).0 in
        (
          without_repeats [] sent,
          rw (h, known),
          without_repeats-HasNoRepeat [] sent tt,
          λ x.
              ground (
                arith,
                laws.chan_sends (serial_id kc) s good h x,
                member-without_repeats x [] sent,
              ),
        )
