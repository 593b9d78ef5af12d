-- ===== src/MockBackend.antt =====
-- `MockBackend` of storage/mockbackend.go. Issuers are their identifiers, and a text of a certificate
-- log or of a list of serials is made by the library `encoding/json`, which the arguments stand for.
pub mod Allocation
pub mod Dates
pub mod Stored
use ct_mapreduce.Prelude.{
  ℕ, ◌*◌, ◌-◌, ◌%◌, Bool, true, false, not, ◌&&◌, ltb, Bytes, bytes, bytes_eq, compare_bytes,
  Ordering, Error, Result, ok, err, Option, none, some, List, [], ◌∷◌, ◌++◌, map, length, get_or,
  if◌then◌else◌,
}
use ct_mapreduce.Cache.{CertificateLog, Call}
use ct_mapreduce.Cache.Codec.{LogCodec}
use ct_mapreduce.GoLib.Assoc.{lookup, put}
use ct_mapreduce.GoLib.Calendar.{parse_day, time_of}
use ct_mapreduce.GoLib.Search.{search_index}
use ct_mapreduce.GoLib.Time.{Time, hour, zero_time, before, truncate}
use ct_mapreduce.MockCache.{insert_at}
use ct_mapreduce.Storage.Backend.{StorageBackend}
use ct_mapreduce.Storage.ExpDate
use ct_mapreduce.Storage.ExpDate.{ExpDate, new_exp_date}
use ct_mapreduce.Storage.Serial
use ct_mapreduce.Storage.Serial.{Serial}

pub record MockBackend : Type 0 where
  pub exp_date_to_issuer : List (Bytes × List Bytes)
  pub exp_date_issuer_id_to_serials : List (Bytes × List Serial)
  pub texts : List (Bytes × Bytes)

unfoldable pub new_mock_backend : MockBackend
new_mock_backend = record {
  exp_date_to_issuer = [];
  exp_date_issuer_id_to_serials = [];
  texts = [];
}

-- The value at a key, or nil.
abbrev pub or_nil {ℓ} : {A : Type ℓ} → Option (List A) → List A
or_nil none = []
or_nil (some l) = l

unfoldable pub mark_dirty : Bytes → Call MockBackend (Unit {0})
mark_dirty dir db = (tt, none, db)

-- strings.Compare(x, issuer) >= 0
unfoldable pub at_least : Bytes → Bytes → Bool
at_least issuer x = elim (compare_bytes x issuer) [ Ordering.lt ↦ false | _ ↦ true ]

unfoldable pub issuers_of : ExpDate → MockBackend → List Bytes
issuers_of exp_date db = or_nil (lookup (ExpDate.id exp_date) db.exp_date_to_issuer)

unfoldable pub allocate_exp_date_and_issuer : ExpDate → Bytes → Call MockBackend (Unit {0})
allocate_exp_date_and_issuer exp_date issuer db =
    let l = issuers_of exp_date db in
    let i = search_index (length l) (λ i. at_least issuer (get_or l i [])) in
    if ltb i (length l) && bytes_eq (get_or l i []) issuer then (tt, none, db) else (
      tt,
      none,
      record db {
        exp_date_to_issuer = put (ExpDate.id exp_date) (insert_at i issuer l) db.exp_date_to_issuer;
      },
    )

abbrev pub pem_key : Serial → ExpDate → Bytes → Bytes
pem_key serial exp_date issuer =
    bytes "pem" ++ (ExpDate.id exp_date ++ (issuer ++ Serial.id serial))

abbrev pub serials_key : ExpDate → Bytes → Bytes
serials_key exp_date issuer = ExpDate.id exp_date ++ issuer

unfoldable pub store_certificate_pem :
    Serial → ExpDate → Bytes → Bytes → Call MockBackend (Unit {0})
store_certificate_pem serial exp_date issuer b db =
    let key = serials_key exp_date issuer in
    let val = or_nil (lookup key db.exp_date_issuer_id_to_serials) in
    (
      tt,
      none,
      record db {
        texts = put (pem_key serial exp_date issuer) b db.texts;
        exp_date_issuer_id_to_serials =
            put key (val ++ serial ∷ []) db.exp_date_issuer_id_to_serials;
      },
    )

abbrev pub log_key : Bytes → Bytes
log_key url = bytes "logstate" ++ url

unfoldable pub store_log_state : LogCodec → CertificateLog → Call MockBackend (Unit {0})
store_log_state codec log db = elim (codec.marshal log) [
  | err e ↦ (tt, some e, db)
  | ok text ↦ (tt, none, record db { texts = put (log_key log.short_url) text db.texts })
]

-- `marshal` is json.Marshal of a list of serials
unfoldable pub store_known_certificate_list :
    (List Serial → Result Bytes) → Bytes → List Serial → Call MockBackend (Unit {0})
store_known_certificate_list marshal issuer serials db = elim (marshal serials) [
  | err e ↦ (tt, some e, db)
  | ok encoded ↦ (tt, none, record db { texts = put issuer encoded db.texts })
]

unfoldable pub load_certificate_pem : Serial → ExpDate → Bytes → Call MockBackend Bytes
load_certificate_pem serial exp_date issuer db =
    elim (lookup (pem_key serial exp_date issuer) db.texts) [
      | some text ↦ (text, none, db)
      | none ↦ ([], some (record { text = bytes "Couldn't find" }), db)
    ]

-- an error of `unmarshal` stands for a text that is no JSON, which leaves a nil log
unfoldable pub load_log_state : LogCodec → Bytes → Call MockBackend (Option CertificateLog)
load_log_state codec url db = elim (lookup (log_key url) db.texts) [
  | some text ↦ elim (codec.unmarshal text) [
    | ok log ↦ (some log, none, db)
    | err e ↦ (none, some e, db)
  ]
  | none ↦ (
    some (record {
      short_url = url;
      max_entry = 0;
      last_entry_time = zero_time;
      last_update_time = zero_time;
    }),
    none,
    db,
  )
]

-- the midnight of the day of a time
abbrev pub midnight : Time → Time
midnight t = truncate t (24 * hour)

-- the loop over the keys of the map, of which any order is possible
unfoldable pub dates_from : Time → List Bytes → List ExpDate → List ExpDate × Option Error
dates_from not_before [] dates = (dates, none)
dates_from not_before (key ∷ keys) dates = elim (parse_day key) [
  | none ↦ ([], some (record { text = bytes "parsing time" }))
  | some c ↦ elim (before (time_of c) not_before) [
    | true ↦ dates_from not_before keys dates
    | false ↦ elim (new_exp_date key) [
      | err e ↦ (dates, some e)
      | ok d ↦ dates_from not_before keys (dates ++ d ∷ [])
    ]
  ]
]

abbrev pub keys_of {ℓ} : {V : Type ℓ} → List (Bytes × V) → List Bytes
keys_of l = map (λ p. p.0) l

unfoldable pub list_expiration_dates : Time → Call MockBackend (List ExpDate)
list_expiration_dates not_before db =
    let (dates, e) = dates_from (midnight not_before) (keys_of db.exp_date_to_issuer) [] in
    (dates, e, db)

unfoldable pub list_issuers_for_expiration_date : ExpDate → Call MockBackend (List Bytes)
list_issuers_for_expiration_date exp_date db = (issuers_of exp_date db, none, db)

unfoldable pub list_serials_for_expiration_date_and_issuer :
    ExpDate → Bytes → Call MockBackend (List Serial)
list_serials_for_expiration_date_and_issuer exp_date issuer db =
    (or_nil (lookup (serials_key exp_date issuer) db.exp_date_issuer_id_to_serials), none, db)

-- what is sent to the channel
unfoldable pub stream_serials_for_expiration_date_and_issuer :
    ExpDate → Bytes → Call MockBackend (List Serial)
stream_serials_for_expiration_date_and_issuer exp_date issuer db =
    let (all_serials, e, db') = list_serials_for_expiration_date_and_issuer exp_date issuer db in
    elim e [ some e ↦ ([], some e, db') | none ↦ (all_serials, none, db') ]

-- MockBackend as a StorageBackend.
abbrev pub mock_backend : LogCodec → (List Serial → Result Bytes) → StorageBackend MockBackend
mock_backend codec marshal = record {
  mark_dirty = mark_dirty;
  store_certificate_pem = store_certificate_pem;
  store_log_state = store_log_state codec;
  store_known_certificate_list = store_known_certificate_list marshal;
  load_certificate_pem = load_certificate_pem;
  load_log_state = load_log_state codec;
  allocate_exp_date_and_issuer = allocate_exp_date_and_issuer;
  list_expiration_dates = list_expiration_dates;
  list_issuers_for_expiration_date = list_issuers_for_expiration_date;
  list_serials_for_expiration_date_and_issuer = list_serials_for_expiration_date_and_issuer;
  stream_serials_for_expiration_date_and_issuer = stream_serials_for_expiration_date_and_issuer;
}
