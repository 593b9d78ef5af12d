-- ===== src/CtFetch/Pipeline/Polled.antt =====
-- From the polled logs through the channel to the workers: what stands behind a saved position when
-- the process has ended.
use ct_mapreduce.Prelude.{
  ℕ, ◌+◌, ◌-◌, ◌^◌, ◌<◌, ◌≤◌, Bool, Bytes, Result, ok, some, List, ◌++◌, All, get_elem?, sum_by,
  le-sum_by, ◌≡◌, ◌∙◌, ap, arith,
}
use ct_mapreduce.Cache.{CertificateLog}
use ct_mapreduce.Certificate.{LogEntry}
use ct_mapreduce.CtFetch.Bounds.{BoundsConfig}
use ct_mapreduce.CtFetch.Download.Types.{CtLogEntry}
use ct_mapreduce.CtFetch.Download.Slice.{wanted, wanted-append}
use ct_mapreduce.CtFetch.Polling.{LogStore, Round, poll}
use ct_mapreduce.CtFetch.Polling.Rounds.{IsKept, IsServed}
use ct_mapreduce.CtFetch.Polling.Resume.{poll_resumes}
use ct_mapreduce.CtFetch.Pipeline.{System, Reach, Exits, started}
use ct_mapreduce.CtFetch.Pipeline.Counting.{count, count-append}
use ct_mapreduce.CtFetch.Pipeline.Exit.{has_started, all_handled}

module _ {Leaf D : Type 0} (parse : ℕ → Leaf → Result LogEntry) (log : ℕ → Leaf)
    (config : BoundsConfig) (logs : LogStore D) (url : Bytes) where
  -- A longer stretch of a log holds no fewer entries that pass a test.
  count-wanted-le :
      (p : CtLogEntry → Bool) (s i j : ℕ)
      → i ≤ j
      → count p (wanted parse url log s (i - s)) ≤ count p (wanted parse url log s (j - s))
  count-wanted-le p s i j h =
      let whole : j - s ≡ (i - s) + ((j - s) - (i - s)) = omega arith in
      let a = wanted parse url log s (i - s) in
      let b = wanted parse url log (s + (i - s)) ((j - s) - (i - s)) in
      let split : wanted parse url log s (j - s) ≡ a ++ b =
        ap (wanted parse url log s) whole ∙ wanted-append parse url log s (i - s) _ in
      omega (arith, ap (count p) split, count-append p a b)

  -- One of the downloads is a log that is polled over a database that returns the state of the
  -- log that it was given last, from the state that the database holds, which is one of the log
  -- with a position below 2 ^ 63, with no offset, by requests that are answered honestly and
  -- trees below 2 ^ 63. Where the process ends in a state in which a worker has started, of the
  -- entries of the log from that position up to the one that the database holds after the
  -- polling, the workers are done with at least as many that pass a test as stand there, for
  -- every test.
  pub nothing_skipped :
      (kept : IsKept parse log config logs url) (run_forever : Bool) (rounds : List (Round Leaf))
      (d : D) (l held : CertificateLog) (entries : List (List CtLogEntry)) (i num_threads : ℕ)
      {s : System CtLogEntry} (p : CtLogEntry → Bool)
      → config.offset ≡ 0
      → (logs.load d).0 ≡ ok l
      → l.short_url ≡ kept.short
      → l.max_entry < 2 ^ 63
      → All (IsServed parse log config logs url) rounds
      → (logs.load (poll parse config logs run_forever url rounds d).1).0 ≡ ok held
      → get_elem? entries i ≡ some (poll parse config logs run_forever url rounds d).0
      → Reach (started entries num_threads) s
      → Exits s
      → 0 < sum_by has_started s.workers
      → count p (wanted parse url log l.max_entry (held.max_entry - l.max_entry))
        ≤ count p s.handled
  nothing_skipped kept run_forever rounds d l held entries i num_threads {s} p no_offset loads short
        low served loads' at r exits one =
      let (last, forward, exact, held', holds, named, behind) =
        poll_resumes parse log config logs url kept run_forever rounds d l no_offset loads short low
          served in
      let same : held'.max_entry ≡ held.max_entry = cc (holds, loads') in
      omega (
        arith,
        ap (count p) exact,
        le-sum_by (count p) entries i _ at,
        all_handled entries num_threads p r exits one,
        count-wanted-le p l.max_entry held'.max_entry last behind,
        ap (λ n. count p (wanted parse url log l.max_entry (n - l.max_entry))) same,
      )
