-- ===== src/CtFetch/Download/Resume.antt =====
-- A run leaves a saved state from which the next run goes on without a gap and without a repetition.
use ct_mapreduce.Prelude.{
  ℕ, ◌+◌, ◌-◌, ◌^◌, ◌≤◌, ◌<◌, false, ◌==◌, List, ◌++◌, All, Result, Bytes, Option, ◌≡◌, sym, ◌∙◌,
  arith,
}
use ct_mapreduce.Certificate.{LogEntry}
use ct_mapreduce.GoLib.Time.{Time}
use ct_mapreduce.CtFetch.Bounds.{LogWorker}
use ct_mapreduce.CtFetch.Download.Types.{
  CtLogEntry, Event, Progress, Outcome, continued, stopped, failed, waiting,
}
use ct_mapreduce.CtFetch.Download.{save_state, finish, run, download_ct_range_to_channel}
use ct_mapreduce.CtFetch.Download.Entries.{IsExact, save_state-IsExact}
use ct_mapreduce.CtFetch.Download.Exact.{IsHonest, Downloaded, download-Downloaded}
use ct_mapreduce.CtFetch.Download.Slice.{wanted, wanted-append}

module _ {Leaf : Type 0} (parse : ℕ → Leaf → Result LogEntry) (log : ℕ → Leaf) where
  module _ (worker : LogWorker) where
    saved_index :
        (t : Option Time) (now : Time) (p : Progress)
        → p.index < 2 ^ 63
        → (save_state p.index t now p).log_state.max_entry ≡ p.index
    unfolding save_state
    saved_index t now p h = ground arith

    same_index :
        (t : Option Time) (now : Time) (p : Progress) → (save_state p.index t now p).index ≡ p.index
    unfolding save_state
    same_index t now p = ground arith

    -- The download returned.
    abbrev pub HasReturned : Outcome → Type 0
    HasReturned (waiting p) = ⊥
    HasReturned o = Unit

    saved_lem :
        (now : Time) (p : Progress)
        → worker.end_pos < 2 ^ 63
        → IsExact parse worker log p
        → IsExact parse worker log (save_state p.index p.last_entry_timestamp now p)
          × ((save_state p.index p.last_entry_timestamp now p).log_state.max_entry
              ≡ (save_state p.index p.last_entry_timestamp now p).index)
    saved_lem now p small h = (
      save_state-IsExact parse worker log p.last_entry_timestamp now p h,
      saved_index p.last_entry_timestamp now p (omega (arith, h.within))
          ∙ sym (same_index p.last_entry_timestamp now p),
    )

    finish_lem :
        (now : Time) (o : Outcome)
        → worker.end_pos < 2 ^ 63
        → HasReturned o
        → Downloaded parse worker log o
        → IsExact parse worker log (finish parse worker now o).1
          × ((finish parse worker now o).1.log_state.max_entry
              ≡ (finish parse worker now o).1.index)
    unfolding finish
    finish_lem now (continued p) small r h = saved_lem now p small h.0
    finish_lem now (stopped p) small r h = saved_lem now p small h
    finish_lem now (failed e p) small r h = saved_lem now p small h
    finish_lem now (waiting p) small r h = absurd r

    -- A run that returns has saved the index up to which the channel has received the entries.
    run-IsExact :
        (answers : List (ℕ → ℕ → Result (List Leaf))) (events : List Event) (now : Time)
        → worker.start_pos < worker.end_pos
        → worker.end_pos < 2 ^ 63
        → All (IsHonest parse worker log) answers
        → HasReturned (download_ct_range_to_channel parse worker answers events)
        → IsExact parse worker log (run parse worker answers events now).1
          × ((run parse worker answers events now).1.log_state.max_entry
              ≡ (run parse worker answers events now).1.index)
    unfolding run
    run-IsExact answers events now lt small honest returned =
        let works : (worker.start_pos == worker.end_pos) ≡ false = ground arith in
        rw (works, run)
          (finish_lem now _ small returned
            (download-Downloaded parse worker log answers events (omega arith) small honest))

  pub wanted-join :
      (url : Bytes) (s i j : ℕ)
      → s ≤ i
      → i ≤ j
      → wanted parse url log s (i - s) ++ wanted parse url log i (j - i)
        ≡ wanted parse url log s (j - s)
  wanted-join url s i j h k =
      let whole : j - s ≡ (i - s) + (j - i) = omega arith in
      let middle : s + (i - s) ≡ i = omega arith in
      rw (whole, wanted-append parse url log s (i - s) (j - i), middle)

  joined :
      (url url' : Bytes) (s i s' j : ℕ) (l l' : List CtLogEntry)
      → url ≡ url'
      → s' ≡ i
      → s ≤ i
      → s' ≤ j
      → l ≡ wanted parse url log s (i - s)
      → l' ≡ wanted parse url' log s' (j - s')
      → l ++ l' ≡ wanted parse url log s (j - s)
  joined url url' s i s' j l l' same here h k e e' =
      rw (e, e', ← same, here) (wanted-join url s i j h (omega arith))

  -- Against a log that answers honestly, where the second run of the same log starts at the state
  -- that the first has saved, both return, and each has something to do below 2 ^ 63: what the
  -- two runs send is what one run over both stretches is to send.
  pub run_resumes :
      (first second : LogWorker) (answers answers' : List (ℕ → ℕ → Result (List Leaf)))
      (events events' : List Event) (now now' : Time)
      → first.log_url ≡ second.log_url
      → first.start_pos < first.end_pos
      → first.end_pos < 2 ^ 63
      → second.start_pos ≡ (run parse first answers events now).1.log_state.max_entry
      → second.start_pos < second.end_pos
      → second.end_pos < 2 ^ 63
      → All (IsHonest parse first log) answers
      → All (IsHonest parse second log) answers'
      → HasReturned first (download_ct_range_to_channel parse first answers events)
      → HasReturned second (download_ct_range_to_channel parse second answers' events')
      → (run parse first answers events now).1.sent
          ++ (run parse second answers' events' now').1.sent
        ≡ wanted parse first.log_url log first.start_pos
            ((run parse second answers' events' now').1.index - first.start_pos)
  run_resumes first second answers answers' events events' now now' url lt small here lt' small'
        honest honest' r r' =
      let (one, saved) = run-IsExact first answers events now lt small honest r in
      let (two, saved') = run-IsExact second answers' events' now' lt' small' honest' r' in
      joined first.log_url second.log_url first.start_pos
        (run parse first answers events now).1.index second.start_pos
        (run parse second answers' events' now').1.index _ _ url (here ∙ saved) one.started
        two.started one.exact two.exact
