-- ===== src/Tests/Threads.antt =====
-- The goroutines of ct-fetch on two entries and one worker, and on the log that is polled, and the
-- callers of GetIssuerMetadata.
use ct_mapreduce.Prelude.{
  ℕ, ◌+◌, ◌-◌, ◌*◌, ◌≤◌, Bool, true, false, ◌==◌, bytes, List, [], ◌∷◌, length, sum_by, some, ◌≡◌,
  refl, arith, ◌⊎◌,
}
use ct_mapreduce.Cache.{CertificateLog}
use ct_mapreduce.Certificate.{other_entry}
use ct_mapreduce.CtFetch.Download.Types.{CtLogEntry}
use ct_mapreduce.CtFetch.Download.Slice.{wanted}
use ct_mapreduce.CtFetch.Bounds.{new_log_worker, start_pos, end_pos}
use ct_mapreduce.CtFetch.Download.{
  run, request_max, process_entries, process_entry, submit, save_state, is_too_many_requests,
  download_ct_range_to_channel,
}
use ct_mapreduce.GoLib.Text.{contains, has_prefix}
use ct_mapreduce.CtFetch.Polling.{poll, sync_log, loaded, save_all}
use ct_mapreduce.CtFetch.Pipeline.{
  System, Step, send, start, receive, handle, return, close, Reach, here, next, Exits, started,
  start_database_threads, capacity, working, returned,
}
use ct_mapreduce.CtFetch.Pipeline.Counting.{count, steps}
use ct_mapreduce.CtFetch.Pipeline.Exit.{all_handled}
use ct_mapreduce.CtFetch.Pipeline.Flight.{in_flight, in_flight_bound}
use ct_mapreduce.CtFetch.Pipeline.Polled.{nothing_skipped}
use ct_mapreduce.CtFetch.Pipeline.Progress.{pipeline_ends}
use ct_mapreduce.CtFetch.Pipeline.Unstarted.{unstarted_loses_all}
use ct_mapreduce.Storage.Database.Callers
use ct_mapreduce.Storage.Database.Callers.{called, given_from, all_apart}
use ct_mapreduce.Tests.Fetch.{log, parse, start_state}
use ct_mapreduce.Tests.Polling.{
  logs, no_limit, rounds, logs-IsKept, start_state-named, rounds-IsServed,
}

module _ {E : Type 0} (x y : E) where
  abbrev two : List (List E)
  two = (x ∷ y ∷ []) ∷ []

  -- The second entry is in the channel while the first is in the worker's hands.
  abbrev busy : System E
  busy = record {
    unsent = [] ∷ [];
    channel = y ∷ [];
    closed = false;
    workers = working x ∷ [];
    handled = [];
  }

  to_busy : Reach (started two 1) busy
  unfolding started start_database_threads
  to_busy =
      next
        (next (next (next here (start 0 refl)) (send 0 x (y ∷ []) refl (omega arith)))
          (receive 0 x [] refl refl))
        (send 0 y [] refl (omega arith))

  -- The worker has returned.
  abbrev over : System E
  over = record {
    unsent = [] ∷ [];
    channel = [];
    closed = true;
    workers = returned ∷ [];
    handled = x ∷ y ∷ [];
  }

  to_over : Reach (started two 1) over
  to_over =
      next
        (next
          (next (next (next to_busy (handle 0 x refl)) (close refl refl))
            (receive 0 y [] refl refl))
          (handle 0 y refl))
        (return 0 refl refl refl)

abbrev entries : List (List ℕ)
entries = two 7 8

abbrev in_work : System ℕ
in_work = busy 7 8

abbrev ended : System ℕ
ended = over 7 8

in_flight_bound_example :
    (sum_by length in_work.unsent + in_flight in_work + length in_work.handled
      ≡ sum_by length entries)
    × (in_flight in_work ≤ capacity + 1)
in_flight_bound_example = in_flight_bound entries 1 (to_busy 7 8)

all_handled_example : count (λ n. n == 8) ended.handled ≡ sum_by (count (λ n. n == 8)) entries
all_handled_example =
    all_handled entries 1 (λ n. n == 8) (to_over 7 8)
      (record { stopped = refl; none_counted = refl }) (omega arith)

pipeline_ends_example :
    (steps {E = ℕ} (to_busy 7 8) ≤ 3 * sum_by length entries + 2 * 1 + 1)
    × (Exits in_work ⊎ ((t : System ℕ) × Step in_work t))
pipeline_ends_example = pipeline_ends entries 1 (to_busy 7 8) (omega arith)

unstarted_loses_all_example :
    (s : System ℕ) × Reach (started entries 3) s
    × Exits s
    × (length s.channel ≡ sum_by length entries)
    × (s.handled ≡ [])
unstarted_loses_all_example = unstarted_loses_all entries 3 (omega arith)

-- What the polled log sends: the entry at 4 cannot be parsed.
abbrev entry : ℕ → CtLogEntry
entry i = record {
  log_entry = record { index = i; timestamp = i; entry_type = other_entry; chain = [] };
  log_url = bytes "log";
}

abbrev is_fifth : CtLogEntry → Bool
is_fifth e = e.log_entry.index == 5

abbrev held : CertificateLog
held = (poll parse no_limit logs true (bytes "log") rounds start_state).1

nothing_skipped_example :
    count is_fifth (wanted parse (bytes "log") log 3 (held.max_entry - 3))
    ≤ count is_fifth (over (entry 3) (entry 5)).handled
unfolding poll sync_log loaded save_all new_log_worker start_pos end_pos
    download_ct_range_to_channel run request_max process_entries process_entry submit save_state
    is_too_many_requests contains has_prefix
nothing_skipped_example =
    nothing_skipped parse log no_limit logs (bytes "log") logs-IsKept true rounds start_state
      start_state held (two (entry 3) (entry 5)) 0 1 is_fifth refl refl start_state-named
      (omega arith) rounds-IsServed refl refl (to_over (entry 3) (entry 5))
      (record { stopped = refl; none_counted = refl }) (omega arith)

all_apart_example :
    Callers.Reach (called 3) (record { entry = some 2; objects = 3; callers = given_from 0 3 })
all_apart_example = all_apart 2
