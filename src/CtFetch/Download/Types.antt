-- ===== src/CtFetch/Download/Types.antt =====
-- The state of a download, and how a part of it ends.
use ct_mapreduce.Prelude.{ℕ, Bytes, Error, Option, none, some, List}
use ct_mapreduce.Cache.{CertificateLog}
use ct_mapreduce.Certificate.{LogEntry}
use ct_mapreduce.GoLib.Time.{Time}

pub record CtLogEntry : Type 0 where
  pub log_entry : LogEntry
  pub log_url : Bytes

-- What the `select` receives: a signal, a tick of the save ticker while `time.Now` is as given, or
-- room in the entry channel.
pub data Event : Type 0 where
  signal : Event
  tick : Time → Event
  room : Event

-- `lw.LogState` with what was handed to the channel and to SaveLogState, the next index, the last
-- timestamp, and the events still to come.
pub record Progress : Type 0 where
  pub log_state : CertificateLog
  pub index : ℕ
  pub last_entry_timestamp : Option Time
  pub sent : List CtLogEntry
  pub saved : List CertificateLog
  pub requests : List (ℕ × ℕ)
  pub events : List Event

-- How a part of the download ends: it goes on, a signal or an error ends it, or it waits for an
-- event or an answer that the lists no longer hold.
pub data Outcome : Type 0 where
  continued : Progress → Outcome
  stopped : Progress → Outcome
  failed : Error → Progress → Outcome
  waiting : Progress → Outcome

-- The progress that an outcome stands at.
abbrev pub progress : Outcome → Progress
progress (continued p) = p
progress (stopped p) = p
progress (failed e p) = p
progress (waiting p) = p

abbrev pub time_or : Option Time → Time → Time
time_or none old = old
time_or (some t) old = t

-- An early return ends the part behind it too.
abbrev pub and_then : Outcome → (Progress → Outcome) → Outcome
and_then (continued p) k = k p
and_then (stopped p) k = stopped p
and_then (failed e p) k = failed e p
and_then (waiting p) k = waiting p
