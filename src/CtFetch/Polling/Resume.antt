-- ===== src/CtFetch/Polling/Resume.antt =====
-- What a polled log hands to the channel over all rounds.
use ct_mapreduce.Prelude.{
  ℕ, ◌-◌, ◌^◌, ◌≤◌, ◌<◌, Bool, true, false, Bytes, Result, ok, Bool-cases, List, [], ◌∷◌, ◌++◌, All,
  ◌≡◌, subst, arith, inl, inr,
}
use ct_mapreduce.Cache.{CertificateLog}
use ct_mapreduce.Certificate.{LogEntry}
use ct_mapreduce.CtFetch.Bounds.{BoundsConfig}
use ct_mapreduce.CtFetch.Download.Types.{CtLogEntry}
use ct_mapreduce.CtFetch.Download.Slice.{wanted}
use ct_mapreduce.CtFetch.Download.Resume.{wanted-join}
use ct_mapreduce.CtFetch.Polling.{
  LogStore, Round, Synced, sync_log, poll, Wake, signal_caught, slept,
}
use ct_mapreduce.CtFetch.Polling.Rounds.{IsKept, IsServed, Advances, sync_log-Advances}

module _ {Leaf D : Type 0} (parse : ℕ → Leaf → Result LogEntry) (log : ℕ → Leaf)
    (config : BoundsConfig) (logs : LogStore D) (url : Bytes) where
  module _ (kept : IsKept parse log config logs url) where
    -- A stretch of rounds from position `s`.
    record Polled (s : ℕ) (r : List CtLogEntry × D) : Type 0 where
      last : ℕ
      held : CertificateLog
      forward : s ≤ last
      exact : r.0 ≡ wanted parse url log s (last - s)
      loads : (logs.load r.1).0 ≡ ok held
      named : held.short_url ≡ kept.short
      behind : held.max_entry ≤ last

    one_round :
        (s : ℕ) (r : Synced D)
        → Advances parse log config logs url kept.short s r
        → Polled s (r.sent, r.store)
    one_round s r a = record {
      last = a.index;
      held = a.held;
      forward = a.forward;
      exact = a.exact;
      loads = a.loads;
      named = a.named;
      behind = a.behind;
    }

    more_rounds :
        (s : ℕ) (r : Synced D) (later : List CtLogEntry × D)
        (a : Advances parse log config logs url kept.short s r)
        → Polled a.index later
        → Polled s (r.sent ++ later.0, later.1)
    more_rounds s r later a b = record {
      last = b.last;
      held = b.held;
      forward = omega (arith, a.forward, b.forward);
      exact =
          rw (a.exact, b.exact) (wanted-join parse log url s a.index b.last a.forward b.forward);
      loads = b.loads;
      named = b.named;
      behind = b.behind;
    }

    -- The end of a round: it is the last one, or the goroutine goes on.
    wakes {κ} :
        (P : List CtLogEntry × D → Type κ) (run_forever : Bool) (w : Wake)
        (x y : List CtLogEntry × D)
        → P x
        → P y
        → P (elim run_forever [ false ↦ x | true ↦ elim w [ signal_caught ↦ x | slept ↦ y ] ])
    wakes P false w x y h k = h
    wakes P true signal_caught x y h k = h
    wakes P true slept x y h k = k

    poll-Polled :
        (run_forever : Bool) (rounds : List (Round Leaf)) (d : D) (l : CertificateLog)
        → config.offset ≡ 0
        → (logs.load d).0 ≡ ok l
        → l.short_url ≡ kept.short
        → l.max_entry < 2 ^ 63
        → All (IsServed parse log config logs url) rounds
        → Polled l.max_entry (poll parse config logs run_forever url rounds d)
    unfolding poll wanted
    poll-Polled run_forever [] d l no_offset h short low served =
        let none_yet : l.max_entry - l.max_entry ≡ 0 = omega arith in
        record {
          last = l.max_entry;
          held = l;
          forward = omega arith;
          exact = rw none_yet;
          loads = h;
          named = short;
          behind = omega arith;
        }
    poll-Polled run_forever (round ∷ rounds) d l no_offset h short low served =
        let a =
          sync_log-Advances parse log config logs url kept round d l no_offset h short low
            served.0 in
        let r = sync_log parse config logs url round d in
        elim (Bool-cases r.blocked) [
          | inl blocked ↦ rw (blocked, poll) (one_round l.max_entry r a)
          | inr returned ↦
              let at_index : a.held.max_entry ≡ a.index = a.caught_up returned in
              let later = poll parse config logs run_forever url rounds r.store in
              let rest : Polled a.index later =
                subst (λ (i : ℕ). Polled i later) at_index
                  (poll-Polled run_forever rounds r.store a.held no_offset a.loads a.named
                    (omega (arith, a.small)) served.1) in
              rw (returned, poll)
                (wakes (Polled l.max_entry) run_forever round.wake (r.sent, r.store)
                  (r.sent ++ later.0, later.1) (one_round l.max_entry r a)
                  (more_rounds l.max_entry r later a rest))
        ]

    -- Over a database that returns the state of the log that it was given last, a log is polled
    -- from the state that the database holds, which is one of the log with a position below 2 ^
    -- 63, with no offset, by requests that are answered honestly and trees below 2 ^ 63. Over all
    -- rounds together, whatever errors, signals and waits end them, the channel receives exactly
    -- the entries from that position up to some later one, once and in order, and the state that
    -- the database then holds is one of the log, with a position not ahead of what was sent.
    pub poll_resumes :
        (run_forever : Bool) (rounds : List (Round Leaf)) (d : D) (l : CertificateLog)
        → config.offset ≡ 0
        → (logs.load d).0 ≡ ok l
        → l.short_url ≡ kept.short
        → l.max_entry < 2 ^ 63
        → All (IsServed parse log config logs url) rounds
        → (last : ℕ) × (l.max_entry ≤ last)
          × ((poll parse config logs run_forever url rounds d).0
              ≡ wanted parse url log l.max_entry (last - l.max_entry))
          × (held : CertificateLog) × ((logs.load
                (poll parse config logs run_forever url rounds d).1).0
              ≡ ok held)
          × (held.short_url ≡ kept.short)
          × (held.max_entry ≤ last)
    poll_resumes run_forever rounds d l no_offset h short low served =
        let r = poll-Polled run_forever rounds d l no_offset h short low served in
        (r.last, r.forward, r.exact, r.held, r.loads, r.named, r.behind)
