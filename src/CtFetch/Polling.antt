-- ===== src/CtFetch/Polling.antt =====
-- `SyncLog`, and the goroutine of `main` that polls a log. The database enters by what it does with
-- the state of the log.
pub mod Named
pub mod Runs
pub mod Rounds
pub mod Resume
pub mod Stored
use ct_mapreduce.Prelude.{
  ℕ, Bool, true, false, Bytes, Error, Result, ok, err, Option, none, some, List, [], ◌∷◌, ◌++◌,
}
use ct_mapreduce.Cache.{CertificateLog}
use ct_mapreduce.Certificate.{LogEntry}
use ct_mapreduce.GoLib.Time.{Time}
use ct_mapreduce.CtFetch.Bounds.{BoundsConfig, Answers, new_log_worker}
use ct_mapreduce.CtFetch.Download.{run, download_ct_range_to_channel}
use ct_mapreduce.CtFetch.Download.Types.{
  CtLogEntry, Event, Outcome, waiting, continued, stopped, failed,
}

-- GetLogState and SaveLogState of the database, for the log that is polled.
pub record LogStore (D : Type 0) : Type 0 where
  pub load : D → Result CertificateLog × D
  pub save : CertificateLog → D → D

-- What the last `select` of a round receives: a signal, or the end of the sleep.
pub data Wake : Type 0 where
  signal_caught : Wake
  slept : Wake

-- What a round meets: the answers to NewLogWorker, but for the log's state, the answers of the log
-- and the events of the download, the clock at its end, and what ends the sleep.
pub record Round (Leaf : Type 0) : Type 0 where
  pub setup : Answers
  pub pages : List (ℕ → ℕ → Result (List Leaf))
  pub events : List Event
  pub now : Time
  pub wake : Wake

-- How SyncLog ends: its error, what the channel has received, and the database; `blocked` says that
-- it has not returned.
pub record Synced (D : Type 0) : Type 0 where
  pub error : Option Error
  pub sent : List CtLogEntry
  pub store : D
  pub blocked : Bool

abbrev pub is_waiting : Outcome → Bool
is_waiting (waiting p) = true
is_waiting (continued p) = false
is_waiting (stopped p) = false
is_waiting (failed e p) = false

module _ {Leaf D : Type 0} (parse : ℕ → Leaf → Result LogEntry) (config : BoundsConfig)
    (logs : LogStore D) where
  -- the states that a run saves, one after another
  unfoldable pub save_all : List CertificateLog → D → D
  save_all [] d = d
  save_all (log ∷ rest) d = save_all rest (logs.save log d)

  -- The state of the log that NewLogWorker asks the database for, which it does only behind a client,
  -- a tree head and a URL without an error.
  unfoldable pub loaded : Answers → D → Result CertificateLog × D
  loaded answers d = elim answers.client [
    | err e ↦ (err e, d)
    | ok ct_log ↦ elim answers.sth [
      | err e ↦ (err e, d)
      | ok tree_size ↦ elim answers.log_url_obj [
        | err e ↦ (err e, d)
        | ok log_url_obj ↦ logs.load d
      ]
    ]
  ]

  -- SyncLog
  unfoldable pub sync_log : Bytes → Round Leaf → D → Synced D
  sync_log url round d0 =
      let (log_obj, d) = loaded round.setup d0 in
      elim (new_log_worker config url (record round.setup { log_obj = log_obj })) [
        | err e ↦ record { error = some e; sent = []; store = d; blocked = false }
        | ok worker ↦
            let (e, p) = run parse worker round.pages round.events round.now in
            record {
              error = e;
              sent = p.sent;
              store = save_all p.saved d;
              blocked =
                  is_waiting (download_ct_range_to_channel parse worker round.pages round.events);
            }
      ]

  -- The goroutine: what the channel has received from it, and the database. An error of SyncLog is
  -- only logged.
  unfoldable pub poll : Bool → Bytes → List (Round Leaf) → D → List CtLogEntry × D
  poll run_forever url [] d = ([], d)
  poll run_forever url (round ∷ rounds) d =
      let r = sync_log url round d in
      let (later, d') = poll run_forever url rounds r.store in
      elim r.blocked [
        | true ↦ (r.sent, r.store)
        | false ↦ elim run_forever [
          | false ↦ (r.sent, r.store)
          | true ↦ elim round.wake [
            | signal_caught ↦ (r.sent, r.store)
            | slept ↦ (r.sent ++ later, d')
          ]
        ]
      ]
