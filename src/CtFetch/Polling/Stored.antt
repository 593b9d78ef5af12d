-- ===== src/CtFetch/Polling/Stored.antt =====
-- The database of storage/filesystemdatabase.go as the one that a polled log is kept in.
use ct_mapreduce.Prelude.{
  ℕ, Bool, Bytes, bytes, Error, Result, ok, err, Option, none, some, ◌++◌, ◌≡◌, refl, arith,
}
use ct_mapreduce.Cache.{RemoteCache, CertificateLog}
use ct_mapreduce.Cache.Codec.{LogCodec, IsFaithful}
use ct_mapreduce.Certificate.{LogEntry}
use ct_mapreduce.CtFetch.Bounds.{BoundsConfig}
use ct_mapreduce.CtFetch.Polling.{LogStore}
use ct_mapreduce.CtFetch.Polling.Rounds.{IsKept}
use ct_mapreduce.MockCache.{MockRemoteCache, load_log_state}
use ct_mapreduce.MockCache.Remote.{mock_remote}
use ct_mapreduce.Storage.Backend.{StorageBackend}
use ct_mapreduce.Storage.Database.{Database, Libraries, get_log_state, save_log_state}
use ct_mapreduce.Storage.Database.Logs.{get_log_state-save_log_state}

-- The two results of GetLogState: an error first, as its caller reads them.
abbrev pub checked : Option CertificateLog → Option Error → Result CertificateLog
checked log (some e) = err e
checked (some l) none = ok l
checked none none = err (record { text = bytes "no log state" })

module _ {S B : Type 0} (cache : RemoteCache S) (backend : StorageBackend B) (lib : Libraries)
    (host path : Bytes) where
  abbrev pub log_store : LogStore (Database S B)
  log_store = record {
    load = λ db.
        let (log, e, db') = get_log_state cache backend lib host path db in (checked log e, db');
    save = λ l db. (save_log_state cache backend lib l db).1;
  }

module _ {B : Type 0} (codec : LogCodec) (match : Bytes → Bytes → Bool) (backend : StorageBackend B)
    (lib : Libraries) (host path : Bytes) where
  abbrev mock_store : LogStore (Database MockRemoteCache B)
  mock_store = log_store (mock_remote codec match) backend lib host path

  -- Every state can be encoded.
  abbrev Encodes : Type 0
  Encodes = (log : CertificateLog) → (text : Bytes) × (codec.marshal log ≡ ok text)

  -- A load from the backend gives what the load before gave.
  abbrev LoadsAgain : Type 0
  LoadsAgain =
      (url : Bytes) (b : B)
      → ((backend.load_log_state url (backend.load_log_state url b).2).0
          ≡ (backend.load_log_state url b).0)
        × ((backend.load_log_state url (backend.load_log_state url b).2).1
            ≡ (backend.load_log_state url b).1)

  load-save :
      (faithful : IsFaithful codec) (encodes : Encodes) (l : CertificateLog)
      (db : Database MockRemoteCache B)
      → l.short_url ≡ host ++ path
      → (mock_store.load (mock_store.save l db)).0 ≡ ok l
  load-save faithful encodes l db named =
      let (text, encoded) = encodes l in
      let (log, e) =
        get_log_state-save_log_state codec match backend lib l host path text db faithful encoded
          named in
      rw (log, e) refl

  load-load :
      (again : LoadsAgain) (db : Database MockRemoteCache B)
      → (mock_store.load (mock_store.load db).1).0 ≡ (mock_store.load db).0
  unfolding get_log_state load_log_state
  load-load again db = ground (arith, again (host ++ path) db.backend)

  -- Over the mock cache the database keeps the state of a log.
  log_store-IsKept :
      {Leaf : Type 0} (faithful : IsFaithful codec) (encodes : Encodes) (again : LoadsAgain)
      (parse : ℕ → Leaf → Result LogEntry) (log : ℕ → Leaf) (config : BoundsConfig) (url : Bytes)
      → IsKept parse log config mock_store url
  log_store-IsKept faithful encodes again parse log config url = record {
    short = host ++ path;
    load-save = load-save faithful encodes;
    load-load = load-load again;
  }
