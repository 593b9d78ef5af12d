-- ===== src/Storage/Serial.antt =====
-- `Serial` of storage/types.go: the bytes of a certificate's serial number, and their texts.
pub mod Numbers
use ct_mapreduce.Prelude.{
  ℕ, ◌<◌, Bool, true, false, ◌&&◌, not, Bytes, bytes, compare_bytes, Ordering, Result, ok, err,
  ◌>>=◌, [], ◌∷◌, ◌++◌, All, ◌≡◌, refl, ap, ◌==◌, if◌then◌else◌,
}
use ct_mapreduce.GoLib.Base64.{base64_encode}
use ct_mapreduce.GoLib.Base64.Decode.{base64_decode, base64_decode-base64_encode}
use ct_mapreduce.GoLib.Hex.{hex_encode, hex_decode, hex_decode-hex_encode}

pub record Serial : Type 0 where
  pub serial : Bytes

unfoldable pub new_serial_from_bytes : Bytes → Serial
new_serial_from_bytes b = record { serial = b }

-- NewSerialFromHex; an `err` stands for its panic
unfoldable pub new_serial_from_hex : Bytes → Result Serial
new_serial_from_hex s = do b ← hex_decode s; ok (record { serial = b })

unfoldable pub new_serial_from_id_string : Bytes → Result Serial
unfolding new_serial_from_bytes
new_serial_from_id_string s = do b ← base64_decode s; ok (new_serial_from_bytes b)

unfoldable pub new_serial_from_binary_string : Bytes → Result Serial
unfolding new_serial_from_bytes
new_serial_from_binary_string s = ok (new_serial_from_bytes s)

unfoldable pub id : Serial → Bytes
id s = base64_encode s.serial

unfoldable pub binary_string : Serial → Bytes
binary_string s = s.serial

unfoldable pub hex_string : Serial → Bytes
hex_string s = hex_encode s.serial

unfoldable pub cmp : Serial → Serial → Ordering
cmp s o = compare_bytes s.serial o.serial

-- SerialList.Less at two of its elements
unfoldable pub less : Serial → Serial → Bool
unfolding cmp
less a b = elim (cmp a b) [ Ordering.lt ↦ true | _ ↦ false ]

abbrev quote : ℕ
quote = 34

-- json.Marshal of the hex text, which needs no escape
unfoldable pub marshal_json : Serial → Bytes
unfolding hex_string
marshal_json s = quote ∷ hex_string s ++ quote ∷ []

-- The last byte of `c ∷ s`, and what stands in front of it.
unfoldable pub last_byte : ℕ → Bytes → ℕ
last_byte c [] = c
last_byte c (d ∷ s) = last_byte d s

unfoldable pub all_but_last : ℕ → Bytes → Bytes
all_but_last c [] = []
all_but_last c (d ∷ s) = c ∷ all_but_last d s

-- How UnmarshalJSON ends: with the serial, whatever it was decoded to, and an error, or by a panic
-- on an index or a slice that is out of range.
pub data Unmarshalled : Type 0 where
  unmarshalled : Result Serial → Unmarshalled
  panicked : Unmarshalled

-- UnmarshalJSON; a lone quote is both the first and the last byte, and data[1:0] panics
unfoldable pub unmarshal_json : Bytes → Unmarshalled
unmarshal_json [] = panicked
unmarshal_json (c ∷ []) =
    if c == quote
    then panicked
    else unmarshalled (err (record { text = bytes "Expected surrounding quotes" }))
unmarshal_json (c ∷ d ∷ rest) =
    if not (c == quote && last_byte d rest == quote)
    then unmarshalled (err (record { text = bytes "Expected surrounding quotes" }))
    else unmarshalled (do b ← hex_decode (all_but_last d rest); ok (record { serial = b }))

last_byte-append : (c d : ℕ) (s : Bytes) → last_byte c (s ++ d ∷ []) ≡ d
unfolding last_byte
last_byte-append c d [] = refl
last_byte-append c d (x ∷ s) = last_byte-append x d s

all_but_last-append : (c d : ℕ) (s : Bytes) → all_but_last c (s ++ d ∷ []) ≡ c ∷ s
unfolding all_but_last
all_but_last-append c d [] = refl
all_but_last-append c d (x ∷ s) = ap (◌∷◌ c) (all_but_last-append x d s)

unmarshal_quoted :
    (s : Bytes) (b : Bytes)
    → hex_decode s ≡ ok b
    → unmarshal_json (quote ∷ s ++ quote ∷ []) ≡ unmarshalled (ok (record { serial = b }))
unfolding unmarshal_json last_byte all_but_last
unmarshal_quoted [] b h = rw h
unmarshal_quoted (d ∷ s) b h = rw (last_byte-append d quote s, all_but_last-append d quote s, h)

-- A serial of bytes below 256 survives its identifier.
pub new_serial_from_id_string-id :
    (s : Serial) → All (λ b. b < 256) s.serial → new_serial_from_id_string (id s) ≡ ok s
unfolding new_serial_from_id_string id
new_serial_from_id_string-id s h = rw (base64_decode-base64_encode s.serial h)

-- A serial of bytes below 256 survives its JSON text, its hex text, its binary text and its
-- identifier.
pub serial_roundtrip :
    (s : Serial)
    → All (λ b. b < 256) s.serial
    → (unmarshal_json (marshal_json s) ≡ unmarshalled (ok s))
      × (new_serial_from_hex (hex_string s) ≡ ok s)
      × (new_serial_from_binary_string (binary_string s) ≡ ok s)
      × (new_serial_from_id_string (id s) ≡ ok s)
unfolding unmarshal_json marshal_json new_serial_from_hex new_serial_from_binary_string hex_string
    binary_string
serial_roundtrip s h = (
  unmarshal_quoted (hex_encode s.serial) s.serial (hex_decode-hex_encode s.serial h),
  rw (hex_decode-hex_encode s.serial h),
  refl,
  new_serial_from_id_string-id s h,
)
