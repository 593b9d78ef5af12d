-- ===== src/CtFetch/Download.antt =====
-- `Run`, `saveState` and `downloadCTRangeToChannel` of ct-fetch.go. What happens outside comes as
-- lists: the log's answer to each request, and what each round of the `select` receives.
pub mod Types
pub mod Slice
pub mod Entries
pub mod Exact
pub mod Complete
pub mod Resume
use Types.{
  CtLogEntry, Event, signal, tick, room, Progress, Outcome, continued, stopped, failed, waiting,
  time_or, and_then,
}
use ct_mapreduce.Prelude.{
  ℕ, zero, suc, ◌+◌, ◌-◌, ◌^◌, Bool, true, false, ◌&&◌, ◌||◌, ltb, leb, ◌==◌, Bytes, bytes, Error,
  Result, ok, err, Option, none, some, List, [], ◌∷◌, ◌++◌, if◌then◌else◌,
}
use ct_mapreduce.Cache.{CertificateLog}
use ct_mapreduce.Certificate.{LogEntry}
use ct_mapreduce.GoLib.Text.{contains}
use ct_mapreduce.GoLib.Time.{Time}
use ct_mapreduce.CtFetch.Bounds.{LogWorker, u64}
use ct_mapreduce.CtFetch.Filter.{uint64_to_timestamp}

-- saveState, at the clock `now`
unfoldable pub save_state : ℕ → Option Time → Time → Progress → Progress
save_state index entry_time now p =
    if ltb (2 ^ 63 - 1) index
    then p
    else let log : CertificateLog = record p.log_state {
      max_entry = index;
      last_entry_time = time_or entry_time p.log_state.last_entry_time;
      last_update_time = now;
    } in
      record p { log_state = log; saved = p.saved ++ log ∷ [] }

-- entrySavedLoop, over the events
unfoldable pub submit : CtLogEntry → List Event → Progress → Outcome
submit entry [] p = waiting (record p { events = [] })
submit entry (signal ∷ events) p = stopped (record p { events = events })
submit entry (tick now ∷ events) p =
    submit entry events (save_state p.index p.last_entry_timestamp now p)
submit entry (room ∷ events) p = continued (record p {
  sent = p.sent ++ entry ∷ [];
  last_entry_timestamp = some (uint64_to_timestamp entry.log_entry.timestamp);
  index = u64 (p.index + 1);
  events = events;
})

-- err.Error() says that the log wants fewer requests.
unfoldable pub is_too_many_requests : Error → Bool
is_too_many_requests e =
    contains e.text (bytes "HTTP Status")
    && (contains e.text (bytes "429") || contains e.text (bytes "Too Many Requests"))

-- the last index of the next request
unfoldable pub request_max : ℕ → ℕ → ℕ
request_max index end_pos =
    let max = u64 (index + 1_000) in if leb end_pos max then end_pos - 1 else max

-- `Leaf` is ct.LeafEntry, and `parse` ct.LogEntryFromLeaf; it gives `ok` where its error is nil or a
-- NonFatalErrors.
module _ {Leaf : Type 0} (parse : ℕ → Leaf → Result LogEntry) (worker : LogWorker) where
  -- An answer of GetRawEntries to the request for the entries from one index to another.
  abbrev pub Answer : Type 0
  Answer = ℕ → ℕ → Result (List Leaf)

  -- one entry: `index++` is in `submit`, behind the send, and here where the entry is skipped
  unfoldable pub process_entry : Leaf → Progress → Outcome
  process_entry leaf p = elim (parse p.index leaf) [
    | err e ↦ continued (record p { index = u64 (p.index + 1) })
    | ok entry ↦ submit (record { log_entry = entry; log_url = worker.log_url }) p.events p
  ]

  -- `for _, entry := range resp.Entries`
  unfoldable pub process_entries : List Leaf → Progress → Outcome
  process_entries [] p = continued p
  process_entries (leaf ∷ leaves) p = and_then (process_entry leaf p) (process_entries leaves)

  -- `for index < lw.EndPos`, a round for each answer
  unfoldable pub download_loop : List Answer → Progress → Outcome
  download_loop [] p = if ltb p.index worker.end_pos then waiting p else continued p
  download_loop (answer ∷ answers) p = elim (ltb p.index worker.end_pos) [
    | false ↦ continued p
    | true ↦
        let max = request_max p.index worker.end_pos in
        let p' : Progress = record p { requests = p.requests ++ (p.index, max) ∷ [] } in
        elim (answer p.index max) [
          | err e ↦ elim (is_too_many_requests e) [
            | true ↦ download_loop answers p'
            | false ↦ failed e p'
          ]
          | ok leaves ↦ and_then (process_entries leaves p') (download_loop answers)
        ]
  ]

  unfoldable pub start : List Event → Progress
  start events = record {
    log_state = worker.log_state;
    index = worker.start_pos;
    last_entry_timestamp = none;
    sent = [];
    saved = [];
    requests = [];
    events = events;
  }

  -- downloadCTRangeToChannel
  unfoldable pub download_ct_range_to_channel : List Answer → List Event → Outcome
  unfolding start download_loop
  download_ct_range_to_channel answers events = download_loop answers (start events)

  -- what Run does behind the download: save, at the clock `now`, and pass the error on
  unfoldable pub finish : Time → Outcome → Option Error × Progress
  finish now (continued p) = (none, save_state p.index p.last_entry_timestamp now p)
  finish now (stopped p) = (none, save_state p.index p.last_entry_timestamp now p)
  finish now (failed e p) = (some e, save_state p.index p.last_entry_timestamp now p)
  finish now (waiting p) = (none, p)

  -- Run; it saves nothing where there is nothing to do
  unfoldable pub run : List Answer → List Event → Time → Option Error × Progress
  unfolding start finish download_ct_range_to_channel
  run answers events now =
      if worker.start_pos == worker.end_pos
      then (none, start events)
      else finish now (download_ct_range_to_channel answers events)
