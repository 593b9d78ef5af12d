-- ===== src/LocalDisk.antt =====
-- `LocalDiskBackend` of storage/localdiskbackend.go over a file system. Issuers are their identifiers.
pub mod Files
pub mod Laws
pub mod Stored
pub mod Listing
use ct_mapreduce.Prelude.{
  ℕ, ◌*◌, Bool, true, false, ◌==◌, ◌&&◌, not, Bytes, bytes, bytes_eq, Error, Result, ok, err,
  Option, none, some, List, [], ◌∷◌, ◌++◌, length, if◌then◌else◌,
}
use ct_mapreduce.Cache.{CertificateLog, Call}
use ct_mapreduce.Cache.Codec.{LogCodec}
use ct_mapreduce.GoLib.Base64.{base64_encode}
use ct_mapreduce.GoLib.FilePath.{join, Answer, go_on, skip_dir, fail, Node, walk}
use ct_mapreduce.GoLib.Text.{has_suffix, trim_suffix}
use ct_mapreduce.GoLib.Time.{Time, hour, zero_time, truncate}
use ct_mapreduce.LocalDisk.Files.{FileSystem, make_directory_if_not_exist, store, load}
use ct_mapreduce.Storage.Backend.{StorageBackend}
use ct_mapreduce.Storage.ExpDate
use ct_mapreduce.Storage.ExpDate.{ExpDate, new_exp_date, is_expired_at}
use ct_mapreduce.Storage.Serial
use ct_mapreduce.Storage.Serial.{Serial, hex_string}

abbrev pub state_dir_name : Bytes
state_dir_name = bytes "state"

abbrev pub suffix_certificates : Bytes
suffix_certificates = bytes ".pem"

abbrev pub dirty_marker : Bytes
dirty_marker = bytes "dirty"

pub record LocalDiskBackend : Type 0 where
  pub perms : ℕ
  pub root_path : Bytes

unfoldable pub new_local_disk_backend : ℕ → Bytes → LocalDiskBackend
new_local_disk_backend perms path = record { perms = perms; root_path = path }

-- CertificateLogIDFromShortURL, which CertificateLog.ID calls
unfoldable pub certificate_log_id_from_short_url : Bytes → Bytes
certificate_log_id_from_short_url short_url = base64_encode short_url

abbrev pub new_log : Bytes → CertificateLog
new_log url = record {
  short_url = url;
  max_entry = 0;
  last_entry_time = zero_time;
  last_update_time = zero_time;
}

-- The callback of ListExpirationDates: `not_before` is a midnight.
unfoldable pub visit_date :
    Time → Bytes → Bool → Option Error → List ExpDate → Answer × List ExpDate
visit_date not_before name is_dir (some e) dates = (fail e, dates)
visit_date not_before name false none dates = (go_on, dates)
visit_date not_before name true none dates = elim (bytes_eq name state_dir_name) [
  | true ↦ (skip_dir, dates)
  | false ↦ elim (new_exp_date name) [
    | err e ↦ (go_on, dates)
    | ok d ↦ if is_expired_at d not_before then (go_on, dates) else (skip_dir, dates ++ d ∷ [])
  ]
]

-- The callback of ListIssuersForExpirationDate.
unfoldable pub visit_issuer : Bytes → Bool → Option Error → List Bytes → Answer × List Bytes
visit_issuer name is_dir (some e) found = (fail e, found)
visit_issuer name is_dir none found =
    if has_suffix name suffix_certificates
    then (go_on, found ++ trim_suffix name suffix_certificates ∷ [])
    else (go_on, found)

-- The callback of StreamSerialsForExpirationDateAndIssuer: what it sends is collected.
unfoldable pub visit_serial : Bytes → Bool → Option Error → List Serial → Answer × List Serial
visit_serial name is_dir (some e) sent = (fail e, sent)
visit_serial name is_dir none sent = elim (has_suffix name suffix_certificates) [
  | false ↦ (go_on, sent)
  | true ↦ elim (Serial.new_serial_from_id_string (trim_suffix name suffix_certificates)) [
    | err e ↦ (fail e, sent)
    | ok serial ↦ (fail (record { text = bytes "Unimplemented" }), sent ++ serial ∷ [])
  ]
]

module _ {F H : Type 0} (fs : FileSystem F H) (db : LocalDiskBackend) (codec : LogCodec) where
  unfoldable pub mark_dirty : Bytes → Call F (Unit {0})
  mark_dirty id f =
      let (e, f') = store fs db.perms (join (id ∷ dirty_marker ∷ [])) (0 ∷ []) f in (tt, e, f')

  unfoldable pub list_expiration_dates : Time → Call F (List ExpDate)
  list_expiration_dates not_before f =
      let midnight : Time = truncate not_before (24 * hour) in
      let (e, dates) =
        walk (visit_date midnight) (fs.name_of db.root_path) (fs.node_at db.root_path f) [] in
      (dates, e, f)

  unfoldable pub list_issuers_for_expiration_date : ExpDate → Call F (List Bytes)
  list_issuers_for_expiration_date exp_date f =
      let path = join (db.root_path ∷ ExpDate.id exp_date ∷ []) in
      let (e, found) = walk visit_issuer (fs.name_of path) (fs.node_at path f) [] in (found, e, f)

  unfoldable pub stream_serials_for_expiration_date_and_issuer :
      ExpDate → Bytes → Call F (List Serial)
  stream_serials_for_expiration_date_and_issuer exp_date issuer f =
      let path = join (db.root_path ∷ ExpDate.id exp_date ∷ issuer ∷ []) in
      let (e, sent) = walk visit_serial (fs.name_of path) (fs.node_at path f) [] in (sent, e, f)

  -- the channel has room for what is sent
  unfoldable pub list_serials_for_expiration_date_and_issuer :
      ExpDate → Bytes → Call F (List Serial)
  list_serials_for_expiration_date_and_issuer exp_date issuer f =
      let (sent, e, f') = stream_serials_for_expiration_date_and_issuer exp_date issuer f in
      elim e [ some e ↦ ([], some e, f') | none ↦ (sent, none, f') ]

  unfoldable pub allocate_exp_date_and_issuer : ExpDate → Bytes → Call F (Unit {0})
  allocate_exp_date_and_issuer exp_date issuer f =
      let path = join (db.root_path ∷ ExpDate.id exp_date ∷ issuer ∷ []) in
      let (e, f') = make_directory_if_not_exist fs path f in (tt, e, f')

  unfoldable pub store_certificate_pem : Serial → ExpDate → Bytes → Bytes → Call F (Unit {0})
  store_certificate_pem serial exp_date issuer b f =
      let (_, _, f') = allocate_exp_date_and_issuer exp_date issuer f in
      let path = join (db.root_path ∷ ExpDate.id exp_date ∷ issuer ∷ Serial.id serial ∷ []) in
      let (e, f'') = store fs db.perms path b f' in (tt, e, f'')

  abbrev pub log_path : Bytes → Bytes
  log_path url = join (db.root_path ∷ state_dir_name ∷ certificate_log_id_from_short_url url ∷ [])

  unfoldable pub store_log_state : CertificateLog → Call F (Unit {0})
  store_log_state log f = elim (codec.marshal log) [
    | err e ↦ (tt, some e, f)
    | ok encoded ↦ let (e, f') = store fs db.perms (log_path log.short_url) encoded f in (tt, e, f')
  ]

  -- the loop over the serials, on an open file, while the context is not done
  unfoldable pub write_serials : H → List Serial → F → Option Error × F
  write_serials fd [] f = (none, f)
  write_serials fd (s ∷ serials) f =
      let (_, e, f') = fs.write fd (hex_string s ++ 10 ∷ []) f in
      elim e [ some e ↦ (some e, f') | none ↦ write_serials fd serials f' ]

  unfoldable pub store_known_certificate_list : Bytes → List Serial → Call F (Unit {0})
  store_known_certificate_list issuer serials f =
      let path = join (db.root_path ∷ issuer ∷ []) in
      let (e, f') = make_directory_if_not_exist fs path f in
      elim e [
        | some e ↦ (tt, some e, f')
        | none ↦
            let (opened, f'') = fs.open_file path db.perms f' in
            elim opened [
              | err e ↦ (tt, some e, f'')
              | ok fd ↦
                  let (e, f3) = write_serials fd serials f'' in
                  let (_, f4) = fs.close fd f3 in (tt, e, f4)
            ]
      ]

  unfoldable pub load_certificate_pem : Serial → ExpDate → Bytes → Call F Bytes
  load_certificate_pem serial exp_date issuer f =
      ([], some (record { text = bytes "Unimplemented" }), f)

  unfoldable pub load_log_state : Bytes → Call F (Option CertificateLog)
  load_log_state url f =
      let (text, e, f') = load fs (log_path url) f in
      elim e [
        | some e ↦ (some (new_log url), none, f')
        | none ↦ elim (codec.unmarshal text) [
          | err e ↦ (none, some e, f')
          | ok log ↦ (some log, none, f')
        ]
      ]

  -- LocalDiskBackend as a StorageBackend.
  abbrev pub local_disk_backend : StorageBackend F
  local_disk_backend = record {
    mark_dirty = mark_dirty;
    store_certificate_pem = store_certificate_pem;
    store_log_state = store_log_state;
    store_known_certificate_list = store_known_certificate_list;
    load_certificate_pem = load_certificate_pem;
    load_log_state = load_log_state;
    allocate_exp_date_and_issuer = allocate_exp_date_and_issuer;
    list_expiration_dates = list_expiration_dates;
    list_issuers_for_expiration_date = list_issuers_for_expiration_date;
    list_serials_for_expiration_date_and_issuer = list_serials_for_expiration_date_and_issuer;
    stream_serials_for_expiration_date_and_issuer = stream_serials_for_expiration_date_and_issuer;
  }
