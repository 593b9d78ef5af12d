-- ===== src/Storage/KnownCertificates/Calls.antt =====
-- storage/knowncertificates.go: the calls of WasUnknown that several goroutines make over one cache.
use ct_mapreduce.Prelude.{
  ℕ, ◌+◌, Bool, true, false, not, ◌&&◌, ◌||◌, Bytes, bytes_eq, bytes_eq_iff, none, List, [], ◌∷◌,
  ◌≡◌, refl, ap, arith, if◌then◌else◌, Bool-cases, inl, inr,
}
use ct_mapreduce.Cache.{RemoteCache}
use ct_mapreduce.Cache.Laws.{SetLaws}
use ct_mapreduce.Storage.ExpDate.{expire_time}
use ct_mapreduce.Storage.KnownCertificates.{
  KnownCertificates, id, serial_id, set_expiry_flag, was_unknown, was_unknown_lem,
  was_unknown-IsGood,
}
use ct_mapreduce.Storage.Serial.{Serial, binary_string}

-- What one goroutine does without another between: a call, or the second half of a call. The first
-- half alone is the call of an object whose flag is set.
pub data Action : Type 0 where
  calls : Serial → KnownCertificates → Action
  sets_expiry : KnownCertificates → Action

module _ {S : Type 0} (cache : RemoteCache S) where
  -- The state that an action leaves.
  unfoldable pub act : Action → S → S
  act (calls serial kc) s = (was_unknown cache serial kc s).3
  act (sets_expiry kc) s = set_expiry_flag cache kc s

  unfoldable pub act_all : List Action → S → S
  act_all [] s = s
  act_all (a ∷ l) s = act_all l (act a s)

  module _ (k x : Bytes) where
    -- The action asks for the serial `x` of the set at `k`.
    unfoldable pub asks : Action → Bool
    asks (calls serial kc) = bytes_eq (serial_id kc) k && bytes_eq x (binary_string serial)
    asks (sets_expiry kc) = false

    unfoldable pub is_asked : List Action → Bool
    is_asked [] = false
    is_asked (a ∷ l) = asks a || is_asked l

    -- The action reports that it was unknown.
    unfoldable pub reports : Action → S → Bool
    reports (calls serial kc) s = asks (calls serial kc) && (was_unknown cache serial kc s).0
    reports (sets_expiry kc) s = false

    -- How many actions report that it was unknown.
    unfoldable pub reports_all : List Action → S → ℕ
    reports_all [] s = 0
    reports_all (a ∷ l) s = (if reports a s then 1 else 0) + reports_all l (act a s)

  -- Where it does not fail, a call of an object whose flag is not set is its two halves.
  halves :
      (serial : Serial) (kc : KnownCertificates) (s : S)
      → kc.expiry_set ≡ false
      → (was_unknown cache serial kc s).1 ≡ none
      → act (calls serial kc) s
        ≡ act_all (calls serial (record kc { expiry_set = true }) ∷ sets_expiry kc ∷ []) s
  unfolding act act_all was_unknown set_expiry_flag serial_id id
  halves serial kc s unset fine = ground (arith)

  module _ (laws : SetLaws cache) where
    open laws use {IsGood, contains, expires_later}

    -- No call fails, and each expiration is ahead when it is set.
    abbrev pub IsFine : Action → S → Type 0
    IsFine (calls serial kc) s =
        ((was_unknown cache serial kc s).1 ≡ none)
        × (expires_later (cache.set_insert (serial_id kc) (binary_string serial) s).2
              (expire_time kc.exp_date)
            ≡ true)
    IsFine (sets_expiry kc) s = expires_later s (expire_time kc.exp_date) ≡ true

    unfoldable pub AreFine : List Action → S → Type 0
    AreFine [] s = Unit
    AreFine (a ∷ l) s = IsFine a s × AreFine l (act a s)

    act-IsGood : (a : Action) (s : S) → IsGood s → IsGood (act a s)
    unfolding act set_expiry_flag
    act-IsGood (calls serial kc) s good = was_unknown-IsGood cache laws serial kc s good
    act-IsGood (sets_expiry kc) s good =
        laws.expire_keeps (serial_id kc) (expire_time kc.exp_date) s good

    contains-act :
        (k x : Bytes) (a : Action) (s : S)
        → IsGood s
        → IsFine a s
        → contains (act a s) k x ≡ (asks k x a || contains s k x)
    unfolding act asks set_expiry_flag
    contains-act k x (calls serial kc) s good fine =
        (was_unknown_lem cache laws serial kc s good fine.1 fine.0).1 k x
    contains-act k x (sets_expiry kc) s good fine =
        laws.expire_later (serial_id kc) (expire_time kc.exp_date) s fine k x

    reports_lem :
        (k x : Bytes) (a : Action) (s : S)
        → IsGood s
        → IsFine a s
        → reports k x a s ≡ (asks k x a && not (contains s k x))
    unfolding reports asks
    reports_lem k x (calls serial kc) s good fine =
        let told = (was_unknown_lem cache laws serial kc s good fine.1 fine.0).0 in
        elim (Bool-cases (asks k x (calls serial kc))) [
          | inr other ↦ rw (other, reports, asks) refl
          | inl same ↦
              let key : serial_id kc ≡ k =
                (bytes_eq_iff (serial_id kc) k).0 (ground (arith, same)) in
              let serial_is : x ≡ binary_string serial =
                (bytes_eq_iff x (binary_string serial)).0 (ground (arith, same)) in
              ground (
                arith,
                told,
                ap (λ q. contains s q x) key,
                ap (contains s (serial_id kc)) serial_is,
              )
        ]
    reports_lem k x (sets_expiry kc) s good fine = refl

    -- On a good state of a cache that keeps the laws, however the calls of any number of
    -- goroutines and the second halves of calls are interleaved, where none fails and no
    -- expiration that is set has passed: exactly one call for a serial of a set reports that it
    -- was unknown if the cache does not know it yet and it is asked for, and otherwise none does.
    pub unknown_once :
        (k x : Bytes) (l : List Action) (s : S)
        → IsGood s
        → AreFine l s
        → reports_all k x l s ≡ (if is_asked k x l && not (contains s k x) then 1 else 0)
    unfolding reports_all is_asked AreFine
    unknown_once k x [] s good fine = refl
    unknown_once k x (a ∷ l) s good fine = ground (
      arith,
      reports_lem k x a s good fine.0,
      contains-act k x a s good fine.0,
      unknown_once k x l (act a s) (act-IsGood a s good) fine.1,
    )
