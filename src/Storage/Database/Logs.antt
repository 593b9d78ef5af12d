-- ===== src/Storage/Database/Logs.antt =====
-- The state of a log, from SaveLogState to GetLogState.
use ct_mapreduce.Prelude.{Bool, Bytes, ok, none, some, [], ◌∷◌, ◌++◌, ◌≡◌, arith}
use ct_mapreduce.Cache.{CertificateLog}
use ct_mapreduce.Cache.Codec.{LogCodec, IsFaithful}
use ct_mapreduce.GoLib.Assoc.{lookup-put_self}
use ct_mapreduce.MockCache.{MockRemoteCache, store_log_state, load_log_state, decode_log}
use ct_mapreduce.MockCache.Remote.{mock_remote}
use ct_mapreduce.Storage.Backend.{StorageBackend}
use ct_mapreduce.Storage.Database.{Database, Libraries, save_log_state, get_log_state}

-- In the mock cache a stored state is loaded again.
pub load-store_log_state :
    (codec : LogCodec) (log : CertificateLog) (text : Bytes) (c : MockRemoteCache)
    → IsFaithful codec
    → codec.marshal log ≡ ok text
    → load_log_state codec log.short_url (store_log_state codec log c).2
      ≡ (some log, none, (store_log_state codec log c).2)
unfolding load_log_state store_log_state decode_log
load-store_log_state codec log text c faithful h =
    ground (arith, faithful log text h, lookup-put_self log.short_url (text ∷ []) c.entries)

module _ {B : Type 0} (codec : LogCodec) (match : Bytes → Bytes → Bool) (backend : StorageBackend B)
    (lib : Libraries) where
  -- With the mock cache and a faithful codec that encodes the state, GetLogState returns the
  -- state that SaveLogState has stored for its URL, even where the backend failed to store it.
  pub get_log_state-save_log_state :
      (log : CertificateLog) (host path text : Bytes) (db : Database MockRemoteCache B)
      → IsFaithful codec
      → codec.marshal log ≡ ok text
      → log.short_url ≡ host ++ path
      → ((get_log_state
            (mock_remote codec match)
            backend
            lib
            host
            path
            (save_log_state (mock_remote codec match) backend lib log db).1).0
          ≡ some log)
        × ((get_log_state
              (mock_remote codec match)
              backend
              lib
              host
              path
              (save_log_state (mock_remote codec match) backend lib log db).1).1
            ≡ none)
  unfolding get_log_state save_log_state
  get_log_state-save_log_state log host path text db faithful h url =
      ground (arith, load-store_log_state codec log text db.ext_cache faithful h)
