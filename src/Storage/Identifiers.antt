-- ===== src/Storage/Identifiers.antt =====
-- `Issuer`, `UniqueCertIdentifier` and `IssuerAndDate` of storage/types.go.
pub mod Json
use ct_mapreduce.Prelude.{
  ℕ, false, ◌==◌, Bytes, bytes, Error, Result, ok, err, ◌>>=◌, Option, none, some, List, [], ◌∷◌,
  All, ◌<◌, ◌++◌, ◌≡◌, refl, arith, Bool-cases, inl, inr,
}
use ct_mapreduce.GoLib.Base64.{base64_encode, base64_encode-Lacks}
use ct_mapreduce.GoLib.Calendar.{digit, dash, format_date, format_date_hour}
use ct_mapreduce.GoLib.Text.{split, Lacks, split-Lacks, split_at_separator}
use ct_mapreduce.Storage.ExpDate
use ct_mapreduce.Storage.ExpDate.{ExpDate, new_exp_date}
use ct_mapreduce.Storage.Serial
use ct_mapreduce.Storage.Serial.{Serial}

-- `issuer_id` is nil until it is asked for.
pub record Issuer : Type 0 where
  pub issuer_id : Option Bytes
  pub spki : Bytes

-- SPKI.Sha256DigestURLEncodedBase64, where `sha256` is sha256.Sum256
unfoldable pub sha256_digest_url_encoded_base64 : (Bytes → Bytes) → Bytes → Bytes
sha256_digest_url_encoded_base64 sha256 spki = base64_encode (sha256 spki)

unfoldable pub new_issuer : Bytes → Issuer
new_issuer raw_spki = record { issuer_id = none; spki = raw_spki }

unfoldable pub new_issuer_from_string : Bytes → Issuer
new_issuer_from_string s = record { issuer_id = some s; spki = [] }

-- Issuer.ID: the identifier, and the issuer that now keeps it
unfoldable pub ask_id : (Bytes → Bytes) → Issuer → Bytes × Issuer
ask_id sha256 o = elim o.issuer_id [
  | some i ↦ (i, o)
  | none ↦
      let digest = sha256_digest_url_encoded_base64 sha256 o.spki in
      (digest, record o { issuer_id = some digest })
]

abbrev pub issuer_id_of : (Bytes → Bytes) → Issuer → Bytes
issuer_id_of sha256 o = (ask_id sha256 o).0

pub record UniqueCertIdentifier : Type 0 where
  pub exp_date : ExpDate
  pub issuer : Issuer
  pub serial_num : Serial

abbrev pub colons : Bytes
colons = bytes "::"

abbrev part_error : Error
part_error = record { text = bytes "Expected 3 parts" }

-- the part of ParseUniqueCertIdentifier behind the split
unfoldable pub parse_parts : List Bytes → Result UniqueCertIdentifier
parse_parts (a ∷ b ∷ c ∷ []) = do
  e ← new_exp_date a
  n ← Serial.new_serial_from_id_string c
  ok (record { exp_date = e; issuer = new_issuer_from_string b; serial_num = n })
parse_parts l = err part_error

unfoldable pub parse_unique_cert_identifier : Bytes → Result UniqueCertIdentifier
parse_unique_cert_identifier s = parse_parts (split s colons)

unfoldable pub unique_string : (Bytes → Bytes) → UniqueCertIdentifier → Bytes
unique_string sha256 u =
    ExpDate.id u.exp_date
    ++ (colons ++ (issuer_id_of sha256 u.issuer ++ (colons ++ Serial.id u.serial_num)))

pub record IssuerAndDate : Type 0 where
  pub exp_date : ExpDate
  pub issuer : Issuer

abbrev pub slash : Bytes
slash = bytes "/"

unfoldable pub parse_two_parts : List Bytes → Result IssuerAndDate
parse_two_parts (a ∷ b ∷ []) = do
  e ← new_exp_date a
  ok (record { exp_date = e; issuer = new_issuer_from_string b })
parse_two_parts l = err (record { text = bytes "Unexpected number of parts" })

unfoldable pub parse_issuer_and_date : Bytes → Result IssuerAndDate
parse_issuer_and_date s = parse_two_parts (split s slash)

unfoldable pub issuer_and_date_string : (Bytes → Bytes) → IssuerAndDate → Bytes
issuer_and_date_string sha256 t = ExpDate.id t.exp_date ++ (slash ++ issuer_id_of sha256 t.issuer)

-- Asking again gives the same identifier and changes the issuer no more.
ask_id_twice :
    (sha256 : Bytes → Bytes) (o : Issuer)
    → ask_id sha256 (ask_id sha256 o).1 ≡ ((ask_id sha256 o).0, (ask_id sha256 o).1)
unfolding ask_id
ask_id_twice sha256 o = ground arith

serial-Lacks : (s : Serial) → Lacks 58 (Serial.id s)
unfolding Serial.id
serial-Lacks s = base64_encode-Lacks s.serial

-- The text of a date has digits and dashes only.
pub id-Lacks :
    (b : ℕ) (e : ExpDate)
    → ((n : ℕ) → (digit n == b) ≡ false)
    → (dash == b) ≡ false
    → Lacks b (ExpDate.id e)
unfolding ExpDate.id format_date format_date_hour
id-Lacks b e d h = elim (Bool-cases e.hour_resolution) [
  | inl p ↦
      rw (p, ExpDate.id)
        (d _, (d _, (d _, (d _, (h, (d _, (d _, (h, (d _, (d _, (h, (d _, (d _, tt)))))))))))))
  | inr p ↦ rw (p, ExpDate.id) (d _, (d _, (d _, (d _, (h, (d _, (d _, (h, (d _, (d _, tt))))))))))
]

no_colon : (n : ℕ) → (digit n == 58) ≡ false
no_colon n = ground arith

no_slash : (n : ℕ) → (digit n == 47) ≡ false
no_slash n = ground arith

pub id-Lacks_colon : (e : ExpDate) → Lacks 58 (ExpDate.id e)
id-Lacks_colon e = id-Lacks 58 e no_colon refl

-- The text of a certificate's identifier is parsed back to its serial, to its issuer's identifier
-- and to what its date is parsed to, if no colon stands in the issuer's identifier and the serial
-- has bytes below 256.
pub parse_unique_string :
    (sha256 : Bytes → Bytes) (u : UniqueCertIdentifier) {e : ExpDate}
    → Lacks 58 (issuer_id_of sha256 u.issuer)
    → new_exp_date (ExpDate.id u.exp_date) ≡ ok e
    → All (λ b. b < 256) u.serial_num.serial
    → parse_unique_cert_identifier (unique_string sha256 u)
      ≡ ok (record {
        exp_date = e;
        issuer = new_issuer_from_string (issuer_id_of sha256 u.issuer);
        serial_num = u.serial_num;
      })
unfolding parse_unique_cert_identifier parse_parts unique_string
parse_unique_string sha256 u lacks date serial = rw (
  split_at_separator 58 (58 ∷ []) (ExpDate.id u.exp_date) _ (id-Lacks_colon u.exp_date),
  split_at_separator 58 (58 ∷ []) (issuer_id_of sha256 u.issuer) _ lacks,
  split-Lacks 58 (58 ∷ []) (Serial.id u.serial_num) (serial-Lacks u.serial_num),
  date,
  Serial.new_serial_from_id_string-id u.serial_num serial,
)

-- The text of an issuer and a date is parsed back to the issuer's identifier and to what the date
-- is parsed to, if no slash stands in the identifier.
parse_issuer_and_date_string :
    (sha256 : Bytes → Bytes) (t : IssuerAndDate) {e : ExpDate}
    → Lacks 47 (issuer_id_of sha256 t.issuer)
    → new_exp_date (ExpDate.id t.exp_date) ≡ ok e
    → parse_issuer_and_date (issuer_and_date_string sha256 t)
      ≡ ok (record { exp_date = e; issuer = new_issuer_from_string (issuer_id_of sha256 t.issuer) })
unfolding parse_issuer_and_date parse_two_parts issuer_and_date_string
parse_issuer_and_date_string sha256 t lacks date = rw (
  split_at_separator 47 [] (ExpDate.id t.exp_date) _ (id-Lacks 47 t.exp_date no_slash refl),
  split-Lacks 47 [] (issuer_id_of sha256 t.issuer) lacks,
  date,
)
