-- ===== src/GoLib/Base64/Decode.antt =====
-- `encoding/base64` with the URL alphabet and padding: the decoding. Where a text is not valid is
-- left out of the error.
use ct_mapreduce.Prelude.{
  ℕ, ◌+◌, ◌-◌, ◌*◌, ◌/◌, ◌%◌, ◌<◌, false, ◌&&◌, ◌||◌, leb, ◌==◌, Bytes, bytes, Error, Result, ok,
  err, Option, none, some, [], ◌∷◌, All, ◌≡◌, refl, arith, if◌then◌else◌,
}
use ct_mapreduce.GoLib.Base64.{alphabet, base64_encode}

abbrev corrupt : Error
corrupt = record { text = bytes "illegal base64 data" }

unfoldable pub digit_of : ℕ → Option ℕ
digit_of c =
    if leb 65 c && leb c 90
    then some (c - 65)
    else if leb 97 c && leb c 122
    then some (c - 71)
    else if leb 48 c && leb c 57
    then some (c + 4)
    else if c == 45
    then some 62
    else if c == 95
    then some 63
    else none

-- Line ends are passed over anywhere.
unfoldable pub without_line_ends : Bytes → Bytes
without_line_ends [] = []
without_line_ends (c ∷ s) =
    let rest = without_line_ends s in if c == 10 || c == 13 then rest else c ∷ rest

-- The bytes of a full group, in front of those behind it.
abbrev three : Option ℕ → Option ℕ → Option ℕ → Option ℕ → Result Bytes → Result Bytes
three (some x) (some y) (some z) (some w) (ok rest) =
    ok ((x * 4 + y / 16) ∷ (y % 16 * 16 + z / 4) ∷ (z % 4 * 64 + w) ∷ rest)
three (some x) (some y) (some z) (some w) (err e) = err e
three (some x) (some y) (some z) none rest = err corrupt
three (some x) (some y) none w rest = err corrupt
three (some x) none z w rest = err corrupt
three none y z w rest = err corrupt

-- The bytes of the last group, which one or two paddings end.
abbrev two : Option ℕ → Option ℕ → Option ℕ → Result Bytes
two (some x) (some y) (some z) = ok ((x * 4 + y / 16) ∷ (y % 16 * 16 + z / 4) ∷ [])
two (some x) (some y) none = err corrupt
two (some x) none z = err corrupt
two none y z = err corrupt

abbrev one : Option ℕ → Option ℕ → Result Bytes
one (some x) (some y) = ok ((x * 4 + y / 16) ∷ [])
one (some x) none = err corrupt
one none y = err corrupt

abbrev is_last : Bytes → Result Bytes → Result Bytes
is_last [] r = r
is_last (c ∷ s) r = err corrupt

unfoldable pub decode_groups : Bytes → Result Bytes
unfolding digit_of
decode_groups [] = ok []
decode_groups (a ∷ b ∷ c ∷ d ∷ s) =
    let rest = decode_groups s in
    if d == 61
    then is_last s (
        if c == 61
        then one (digit_of a) (digit_of b)
        else two (digit_of a) (digit_of b) (digit_of c))
    else three (digit_of a) (digit_of b) (digit_of c) (digit_of d) rest
decode_groups s = err corrupt

-- base64.URLEncoding.DecodeString
unfoldable pub base64_decode : Bytes → Result Bytes
base64_decode s = decode_groups (without_line_ends s)

digit_of-alphabet : (n : ℕ) → n < 64 → digit_of (alphabet n) ≡ some n
unfolding digit_of alphabet
digit_of-alphabet n h = ground arith

not_padding : (n : ℕ) → (alphabet n == 61) ≡ false
unfolding alphabet
not_padding n = ground arith

not_line_end : (n : ℕ) → (alphabet n == 10 || alphabet n == 13) ≡ false
unfolding alphabet
not_line_end n = ground arith

without_line_ends-base64_encode :
    (s : Bytes) → without_line_ends (base64_encode s) ≡ base64_encode s
unfolding without_line_ends base64_encode
without_line_ends-base64_encode [] = refl
without_line_ends-base64_encode (a ∷ []) = simp not_line_end
without_line_ends-base64_encode (a ∷ b ∷ []) = simp not_line_end
without_line_ends-base64_encode (a ∷ b ∷ c ∷ s) =
    simp (not_line_end, without_line_ends-base64_encode s)

decode_groups-base64_encode :
    (s : Bytes) → All (λ b. b < 256) s → decode_groups (base64_encode s) ≡ ok s
unfolding decode_groups base64_encode
decode_groups-base64_encode [] h = refl
decode_groups-base64_encode (a ∷ []) h =
    let x = digit_of-alphabet (a / 4) (omega (arith, h.0)) in
    let y = digit_of-alphabet (a % 4 * 16) (omega arith) in ground (arith, x, y)
decode_groups-base64_encode (a ∷ b ∷ []) h =
    let x = digit_of-alphabet (a / 4) (omega (arith, h.0)) in
    let y = digit_of-alphabet (a % 4 * 16 + b / 16) (omega (arith, h.1.0)) in
    let z = digit_of-alphabet (b % 16 * 4) (omega arith) in
    ground (arith, x, y, z, not_padding (b % 16 * 4), h.1.0)
decode_groups-base64_encode (a ∷ b ∷ c ∷ s) h =
    let x = digit_of-alphabet (a / 4) (omega (arith, h.0)) in
    let y = digit_of-alphabet (a % 4 * 16 + b / 16) (omega (arith, h.1.0)) in
    let z = digit_of-alphabet (b % 16 * 4 + c / 64) (omega (arith, h.1.1.0)) in
    let w = digit_of-alphabet (c % 64) (omega arith) in
    ground (
      arith,
      x,
      y,
      z,
      w,
      not_padding (c % 64),
      h.1.0,
      h.1.1.0,
      decode_groups-base64_encode s h.1.1.1,
    )

-- What has been encoded decodes to the same bytes.
pub base64_decode-base64_encode :
    (s : Bytes) → All (λ b. b < 256) s → base64_decode (base64_encode s) ≡ ok s
unfolding base64_decode
base64_decode-base64_encode s h =
    rw without_line_ends-base64_encode (decode_groups-base64_encode s h)
