-- ===== src/Storage/Identifiers/Json.antt =====
-- `Issuer` and `SPKI` of storage/types.go as texts, and `getSpki` of storage/filesystemdatabase.go.
use ct_mapreduce.Prelude.{
  ◌≤◌, ltb, Bytes, Result, ok, err, Option, none, some, length, ◌≡◌, arith, if◌then◌else◌,
}
use ct_mapreduce.GoLib.Base64.{base64_encode}
use ct_mapreduce.GoLib.Hex.{hex_encode}
use ct_mapreduce.Storage.Identifiers.{Issuer, ask_id, issuer_id_of}

-- encoding/json on a pointer to a string; `null` is nil.
record JsonText : Type 0 where
  marshal : Option Bytes → Result Bytes
  unmarshal : Bytes → Result (Option Bytes)

-- What is marshalled is unmarshalled to the same string.
record IsFaithful (json : JsonText) : Type 0 where
  back : (s : Option Bytes) (text : Bytes) → json.marshal s ≡ ok text → json.unmarshal text ≡ ok s

-- SPKI.ID and SPKI.String
unfoldable spki_id : Bytes → Bytes
spki_id spki = base64_encode spki

unfoldable spki_string : Bytes → Bytes
spki_string spki = hex_encode spki

-- getSpki, of the certificate's SubjectKeyId and RawSubjectPublicKeyInfo
unfoldable get_spki : (Bytes → Bytes) → Bytes → Bytes → Bytes
get_spki sha1 subject_key_id raw_spki =
    if ltb (length subject_key_id) 8 then sha1 raw_spki else subject_key_id

-- With a digest of 20 bytes no identifier is shorter than 8.
get_spki-length :
    (sha1 : Bytes → Bytes) (subject_key_id raw_spki : Bytes)
    → ((s : Bytes) → length (sha1 s) ≡ 20)
    → 8 ≤ length (get_spki sha1 subject_key_id raw_spki)
unfolding get_spki
get_spki-length sha1 subject_key_id raw_spki digest = ground (arith, digest raw_spki)

module _ (json : JsonText) where
  -- Issuer.MarshalJSON asks for the identifier first
  unfoldable marshal_json : (Bytes → Bytes) → Issuer → Result Bytes × Issuer
  marshal_json sha256 o = elim o.issuer_id [
    | none ↦ let (i, o') = ask_id sha256 o in (json.marshal o'.issuer_id, o')
    | some i ↦ (json.marshal (some i), o)
  ]

  -- Issuer.UnmarshalJSON; the key is left as it is, and an error leaves the identifier too
  unfoldable unmarshal_json : Bytes → Issuer → Result Issuer
  unmarshal_json text o = elim (json.unmarshal text) [
    | err e ↦ err e
    | ok i ↦ ok (record o { issuer_id = i })
  ]

  -- What is marshalled of an issuer is read back, by any issuer, as the identifier.
  unmarshal_json-marshal_json :
      (faithful : IsFaithful json) (sha256 : Bytes → Bytes) (o old : Issuer) (text : Bytes)
      → (marshal_json sha256 o).0 ≡ ok text
      → unmarshal_json text old ≡ ok (record old { issuer_id = some (issuer_id_of sha256 o) })
  unfolding marshal_json unmarshal_json ask_id
  unmarshal_json-marshal_json faithful sha256 o old text h =
      let back = faithful.back (some (issuer_id_of sha256 o)) text in ground (arith, back)
