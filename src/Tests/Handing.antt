-- ===== src/Tests/Handing.antt =====
-- A worker that finds one certificate twice, over a backend that counts what it is handed.
use ct_mapreduce.Prelude.{
  ℕ, ◌+◌, ◌≤◌, ◌%◌, Bytes, ok, some, none, List, [], ◌∷◌, length, ◌≡◌, refl, arith, if◌then◌else◌,
}
use ct_mapreduce.Certificate.{LogEntry}
use ct_mapreduce.CtFetch.Worker.{
  insert_ct_worker, wanted_certs, wanted_of, leaf_of, issuer_of, is_wanted,
}
use ct_mapreduce.CtFetch.Worker.Once.{AreAhead, HaveWidth, handed_over_once}
use ct_mapreduce.CtFetch.Filter.{some_prefix_fits}
use ct_mapreduce.GoLib.Base64.{base64_encode}
use ct_mapreduce.GoLib.Text.{split}
use ct_mapreduce.GoLib.Time.{Time}
use ct_mapreduce.MockCache.{MockRemoteCache}
use ct_mapreduce.MockCache.Remote.{mock_set_laws}
use ct_mapreduce.Storage.Backend.{StorageBackend}
use ct_mapreduce.Storage.Database.{Database, Libraries, new_filesystem_database}
use ct_mapreduce.Storage.Database.Counted.{Counts, is_counted}
use ct_mapreduce.Storage.ExpDate.{new_exp_date_from_time}
use ct_mapreduce.Storage.Identifiers.{
  new_issuer, issuer_id_of, ask_id, sha256_digest_url_encoded_base64,
}
use ct_mapreduce.Storage.IssuerMetadata.Keeping.{IsReliable}
use ct_mapreduce.Storage.KnownCertificates.{new_known_certificates, serial_id}
use ct_mapreduce.Storage.Serial.{binary_string}
use ct_mapreduce.Tests.Data.{
  plain_codec, match_all, remote, leaf_cert, serial, parse_url, empty_cache, empty_cache-IsOrdered,
}
use ct_mapreduce.Tests.Parsing.{certificate_entry, filter}
use ct_mapreduce.Tests.Storing.{insert_answers}

-- A digest of one byte.
abbrev libraries : Libraries
libraries = record {
  sha256 = λ s. length s % 256 ∷ [];
  parse_url = parse_url;
  pem_encode = λ s. s;
  serial_of = λ c. serial;
  evict = λ l. l;
}

abbrev key : Bytes
key = serial_id (
    new_known_certificates (new_exp_date_from_time leaf_cert.not_after)
      (issuer_id_of libraries.sha256 (new_issuer leaf_cert.raw_spki)))

abbrev x : Bytes
x = binary_string serial

-- Its state is how often it was handed the certificate.
abbrev backend : StorageBackend ℕ
backend = record {
  mark_dirty = λ dir n. (tt, none, n);
  store_certificate_pem = λ serial exp_date issuer pem n.
      (tt, none, n + (if is_counted key x serial exp_date issuer then 1 else 0));
  store_log_state = λ log n. (tt, none, n);
  store_known_certificate_list = λ issuer serials n. (tt, none, n);
  load_certificate_pem = λ serial exp_date issuer n. ([], none, n);
  load_log_state = λ url n. (none, none, n);
  allocate_exp_date_and_issuer = λ exp_date issuer n. (tt, none, n);
  list_expiration_dates = λ not_before n. ([], none, n);
  list_issuers_for_expiration_date = λ exp_date n. ([], none, n);
  list_serials_for_expiration_date_and_issuer = λ exp_date issuer n. ([], none, n);
  stream_serials_for_expiration_date_and_issuer = λ exp_date issuer n. ([], none, n);
}

counts : Counts backend (is_counted key x) (λ n. n)
counts = record {
  pem_adds = λ serial d issuer pem n. omega arith;
  allocation_adds_none = λ d issuer n. omega arith;
  dirt_adds_none = λ day n. omega arith;
}

reliable : IsReliable remote (mock_set_laws plain_codec match_all)
reliable key e s good = insert_answers key e s

wide :
    HaveWidth
      (λ s. ok leaf_cert)
      filter
      remote
      backend
      libraries
      (mock_set_laws plain_codec match_all)
      4
unfolding ask_id new_issuer sha256_digest_url_encoded_base64 base64_encode
wide raw_spki = refl

abbrev entries : List (Time × LogEntry)
entries = (2_000, certificate_entry) ∷ (2_100, certificate_entry) ∷ []

ahead :
    AreAhead
      (λ s. ok leaf_cert)
      filter
      remote
      backend
      libraries
      (mock_set_laws plain_codec match_all)
      (wanted_certs (λ s. ok leaf_cert) filter remote backend libraries entries)
      (new_filesystem_database 0 empty_cache)
unfolding AreAhead wanted_certs mock_set_laws split wanted_of leaf_of issuer_of is_wanted
    some_prefix_fits
ahead = (refl, (refl, tt))

handed_over_once_example :
    (db : Database MockRemoteCache ℕ) × (insert_ct_worker
        (λ s. ok leaf_cert)
        filter
        remote
        backend
        libraries
        entries
        (new_filesystem_database 0 empty_cache)
      ≡ some db)
    × (db.backend ≤ 1)
unfolding mock_set_laws
handed_over_once_example =
    handed_over_once (λ s. ok leaf_cert) filter remote backend libraries
      (mock_set_laws plain_codec match_all) reliable 4 (λ m h. h) wide key x (λ n. n) counts entries
      0 empty_cache empty_cache-IsOrdered refl (tt, (tt, tt)) ahead
