-- ===== src/Cache.antt =====
-- The interface `RemoteCache` of storage/types.go, and the state of a log that it stores.
pub mod Codec
pub mod Laws
use ct_mapreduce.Prelude.{ℕ, Bool, Bytes, Error, Option, List}
use ct_mapreduce.GoLib.Time.{Time, Duration}

-- storage.CertificateLog. `max_entry` is an int64, kept as its 64-bit pattern.
pub record CertificateLog : Type 0 where
  pub short_url : Bytes
  pub max_entry : ℕ
  pub last_entry_time : Time
  pub last_update_time : Time

-- A method on a value of state `S` that returns `(A, error)`: the result, the error if it is not
-- nil, and the state afterwards.
abbrev pub Call : Type 0 → Type 0 → Type 0
Call S A = S → A × Option Error × S

-- The methods of `RemoteCache`. What is sent to a channel is returned as a list.
pub record RemoteCache (S : Type 0) : Type 0 where
  pub exists : Bytes → Call S Bool
  pub set_insert : Bytes → Bytes → Call S Bool
  pub set_remove : Bytes → Bytes → Call S Bool
  pub set_contains : Bytes → Bytes → Call S Bool
  pub set_list : Bytes → Call S (List Bytes)
  pub set_to_chan : Bytes → Call S (List Bytes)
  pub set_cardinality : Bytes → Call S ℕ
  pub expire_at : Bytes → Time → Call S (Unit {0})
  pub expire_in : Bytes → Duration → Call S (Unit {0})
  pub queue : Bytes → Bytes → Call S ℕ
  pub pop : Bytes → Call S Bytes
  pub queue_length : Bytes → Call S ℕ
  pub blocking_pop_copy : Bytes → Bytes → Duration → Call S Bytes
  pub list_remove : Bytes → Bytes → Call S (Unit {0})
  pub try_set : Bytes → Bytes → Duration → Call S Bytes
  pub keys_to_chan : Bytes → Call S (List Bytes)
  pub store_log_state : CertificateLog → Call S (Unit {0})
  pub load_log_state : Bytes → Call S (Option CertificateLog)

-- What the clients of a cache rely on: it holds a set of entries at each key, and a key of TrySet
-- keeps the first value.
