-- ===== src/GoLib/Hex.antt =====
-- `encoding/hex`.
use ct_mapreduce.Prelude.{
  ℕ, ◌+◌, ◌-◌, ◌*◌, ◌/◌, ◌%◌, ◌<◌, ◌&&◌, leb, ltb, Bytes, bytes, Error, Result, ok, err, Option,
  none, some, [], ◌∷◌, All, ◌≡◌, refl, arith, if◌then◌else◌,
}

abbrev hex_digit : ℕ → ℕ
hex_digit n = if ltb n 10 then 48 + n else 87 + n

-- hex.EncodeToString
unfoldable pub hex_encode : Bytes → Bytes
hex_encode [] = []
hex_encode (b ∷ s) = hex_digit (b / 16) ∷ hex_digit (b % 16) ∷ hex_encode s

unfoldable pub hex_value : ℕ → Option ℕ
hex_value c =
    if leb 48 c && leb c 57
    then some (c - 48)
    else if leb 97 c && leb c 102
    then some (c - 87)
    else if leb 65 c && leb c 70
    then some (c - 55)
    else none

abbrev hex_error : Error
hex_error = record { text = bytes "encoding/hex: invalid" }

abbrev join_nibbles : Option ℕ → Option ℕ → Result Bytes → Result Bytes
join_nibbles (some h) (some l) (ok rest) = ok ((16 * h + l) ∷ rest)
join_nibbles (some h) (some l) (err e) = err e
join_nibbles (some h) none r = err hex_error
join_nibbles none l r = err hex_error

-- hex.DecodeString
unfoldable pub hex_decode : Bytes → Result Bytes
unfolding hex_value
hex_decode [] = ok []
hex_decode (h ∷ []) = err hex_error
hex_decode (h ∷ l ∷ s) = join_nibbles (hex_value h) (hex_value l) (hex_decode s)

hex_value-hex_digit : (n : ℕ) → n < 16 → hex_value (hex_digit n) ≡ some n
unfolding hex_value
hex_value-hex_digit n h = ground arith

-- What has been encoded decodes to the same bytes.
pub hex_decode-hex_encode : (s : Bytes) → All (λ b. b < 256) s → hex_decode (hex_encode s) ≡ ok s
unfolding hex_encode hex_decode
hex_decode-hex_encode [] h = refl
hex_decode-hex_encode (b ∷ s) h =
    let high = hex_value-hex_digit (b / 16) (omega (arith, h.0)) in
    let low = hex_value-hex_digit (b % 16) (omega arith) in
    ground (arith, high, low, hex_decode-hex_encode s h.1)
