-- ===== src/Storage/Serial/Numbers.antt =====
-- `Serial` of storage/types.go: its number, its binary form, and the lists that are sorted.
use ct_mapreduce.Prelude.{
  ℕ, zero, suc, ◌+◌, ◌*◌, ◌^◌, ◌<◌, ◌≤◌, Bytes, Result, ok, ◌>>=◌, Option, none, some, List, [],
  ◌∷◌, length, get_elem?, set, sum_by, sum_by-set, All, ◌≡◌, refl, sym, ap, ◌∙◌, arith,
}
use native.Mathlib.Nat.{mul-le-mul_right, mul_assoc}
use native.Mathlib.Omega.{pow_step}
use ct_mapreduce.Certificate.{Certificate}
use ct_mapreduce.Storage.Serial.{
  Serial, Unmarshalled, new_serial_from_bytes, hex_string, marshal_json, unmarshal_json,
  unmarshalled, serial_roundtrip,
}

-- NewSerial, where `raw_serial` is asn1.Unmarshal with the bytes of the serial number; an `err` stands
-- for its panic
unfoldable new_serial : (Bytes → Result Bytes) → Certificate → Result Serial
new_serial raw_serial cert = do b ← raw_serial cert.raw_tbs; ok (new_serial_from_bytes b)

-- Serial.String
unfoldable string : Serial → Bytes
string s = hex_string s

unfoldable marshal_binary : Serial → Bytes
marshal_binary s = marshal_json s

unfoldable unmarshal_binary : Bytes → Unmarshalled
unmarshal_binary text = unmarshal_json text

-- A serial of bytes below 256 survives its binary form.
unmarshal_binary-marshal_binary :
    (s : Serial)
    → All (λ b. b < 256) s.serial
    → unmarshal_binary (marshal_binary s) ≡ unmarshalled (ok s)
unfolding unmarshal_binary marshal_binary
unmarshal_binary-marshal_binary s h = (serial_roundtrip s h).0

-- big.Int.SetBytes, from the number of the bytes before
unfoldable set_bytes : ℕ → Bytes → ℕ
set_bytes n [] = n
set_bytes n (b ∷ s) = set_bytes (n * 256 + b) s

unfoldable as_big_int : Serial → ℕ
as_big_int s = set_bytes 0 s.serial

-- A leading zero is lost in the number: two serials may have one.
as_big_int-zero :
    (s : Bytes) → as_big_int (record { serial = 0 ∷ s }) ≡ as_big_int (record { serial = s })
unfolding as_big_int set_bytes
as_big_int-zero s = refl

set_bytes-bound :
    (n : ℕ) (s : Bytes) → All (λ b. b < 256) s → set_bytes n s < (n + 1) * 256 ^ length s
unfolding set_bytes
set_bytes-bound n [] h = omega arith
set_bytes-bound n (b ∷ s) h =
    let later = set_bytes-bound (n * 256 + b) s h.1 in
    let p : ℕ = 256 ^ length s in
    let fits : (n * 256 + b + 1) * p ≤ (n + 1) * 256 * p =
      mul-le-mul_right p (omega (arith, h.0)) in
    let whole : (n + 1) * 256 ^ suc (length s) ≡ (n + 1) * 256 * p =
      ap (λ q. (n + 1) * q) (pow_step 256 (length s)) ∙ sym (mul_assoc (n + 1) 256 p) in
    omega (arith, later, fits, whole)

-- Swap of SerialList and of ExpDateList, which panics out of range
unfoldable swap : {A : Type 0} → ℕ → ℕ → List A → Option (List A)
swap i j sl = elim (get_elem? sl i) [
  | none ↦ none
  | some tmp ↦ elim (get_elem? sl j) [
    | none ↦ none
    | some other ↦ some (set (set sl i other) j tmp)
  ]
]

get_elem?-set :
    {A : Type 0} (l : List A) (i j : ℕ) (y : A)
    → get_elem? l j ≡ some y
    → get_elem? (set l i y) j ≡ some y
get_elem?-set [] i j y h = h
get_elem?-set (x ∷ l) zero zero y h = refl
get_elem?-set (x ∷ l) zero (suc j) y h = h
get_elem?-set (x ∷ l) (suc i) zero y h = h
get_elem?-set (x ∷ l) (suc i) (suc j) y h = get_elem?-set l i j y h

get_elem?-set_self :
    {A : Type 0} (l : List A) (j : ℕ) (y x : A)
    → get_elem? l j ≡ some y
    → get_elem? (set l j x) j ≡ some x
get_elem?-set_self [] j y x h = cc
get_elem?-set_self (z ∷ l) zero y x h = refl
get_elem?-set_self (z ∷ l) (suc j) y x h = get_elem?-set_self l j y x h

-- Two elements in range are swapped, and the sum of any weights of the elements stays as it was: each
-- element stands in the list as often as before.
swap-sum_by :
    {A : Type 0} (w : A → ℕ) (l : List A) (i j : ℕ) (x y : A)
    → get_elem? l i ≡ some x
    → get_elem? l j ≡ some y
    → (l' : List A) × (swap i j l ≡ some l')
      × (get_elem? l' j ≡ some x)
      × (sum_by w l' ≡ sum_by w l)
unfolding swap
swap-sum_by w l i j x y h k = (
  set (set l i y) j x,
  rw (h, k, swap) refl,
  get_elem?-set_self (set l i y) j y x (get_elem?-set l i j y k),
  omega (arith, sum_by-set w l i x y h, sum_by-set w (set l i y) j y x (get_elem?-set l i j y k)),
)
