-- ===== src/CtFetch/Polling/Named.antt =====
-- The states that a run saves are those of one log: they keep its short URL.
use ct_mapreduce.Prelude.{
  ℕ, ◌-◌, ◌^◌, ltb, ◌==◌, Bytes, Result, Result-cases, Option, List, [], ◌∷◌, ◌++◌, All, All-append,
  Bool-cases, inl, inr, ◌≡◌,
}
use ct_mapreduce.Cache.{CertificateLog}
use ct_mapreduce.Certificate.{LogEntry}
use ct_mapreduce.GoLib.Time.{Time}
use ct_mapreduce.CtFetch.Bounds.{LogWorker}
use ct_mapreduce.CtFetch.Download.Types.{
  CtLogEntry, Event, signal, tick, room, Progress, Outcome, progress, continued, stopped, failed,
  waiting, and_then,
}
use ct_mapreduce.CtFetch.Download.{
  save_state, submit, process_entry, process_entries, download_loop, start,
  download_ct_range_to_channel, finish, run, request_max, is_too_many_requests,
}

module _ (short : Bytes) where
  record IsNamed (p : Progress) : Type 0 where
    state : p.log_state.short_url ≡ short
    saves : All (λ (s : CertificateLog). s.short_url ≡ short) p.saved

  save_state-IsNamed :
      (i : ℕ) (t : Option Time) (now : Time) (p : Progress)
      → IsNamed p
      → IsNamed (save_state i t now p)
  unfolding save_state
  save_state-IsNamed i t now p h = elim (Bool-cases (ltb (2 ^ 63 - 1) i)) [
    | inl e ↦ rw e h
    | inr e ↦ rw e (record {
      state = h.state;
      saves =
          All-append (λ (s : CertificateLog). s.short_url ≡ short) p.saved _ h.saves (h.state, tt);
    })
  ]

  submit-IsNamed :
      (entry : CtLogEntry) (events : List Event) (p : Progress)
      → IsNamed p
      → IsNamed (progress (submit entry events p))
  unfolding submit
  submit-IsNamed entry [] p h = record { state = h.state; saves = h.saves }
  submit-IsNamed entry (signal ∷ events) p h = record { state = h.state; saves = h.saves }
  submit-IsNamed entry (tick now ∷ events) p h =
      submit-IsNamed entry events (save_state p.index p.last_entry_timestamp now p)
        (save_state-IsNamed p.index p.last_entry_timestamp now p h)
  submit-IsNamed entry (room ∷ events) p h = record { state = h.state; saves = h.saves }

  and_then-IsNamed :
      (o : Outcome) (k : Progress → Outcome)
      → IsNamed (progress o)
      → ((p : Progress) → IsNamed p → IsNamed (progress (k p)))
      → IsNamed (progress (and_then o k))
  and_then-IsNamed (continued p) k h f = f p h
  and_then-IsNamed (stopped p) k h f = h
  and_then-IsNamed (failed e p) k h f = h
  and_then-IsNamed (waiting p) k h f = h

  module _ {Leaf : Type 0} (parse : ℕ → Leaf → Result LogEntry) (worker : LogWorker) where
    process_entry-IsNamed :
        (leaf : Leaf) (p : Progress)
        → IsNamed p
        → IsNamed (progress (process_entry parse worker leaf p))
    unfolding process_entry
    process_entry-IsNamed leaf p h = elim (Result-cases (parse p.index leaf)) [
      | inl (entry, fine) ↦ rw (fine, process_entry) (submit-IsNamed _ p.events p h)
      | inr (e, bad) ↦ rw (bad, process_entry) (record { state = h.state; saves = h.saves })
    ]

    process_entries-IsNamed :
        (leaves : List Leaf) (p : Progress)
        → IsNamed p
        → IsNamed (progress (process_entries parse worker leaves p))
    unfolding process_entries
    process_entries-IsNamed [] p h = h
    process_entries-IsNamed (leaf ∷ leaves) p h =
        and_then-IsNamed (process_entry parse worker leaf p) (process_entries parse worker leaves)
          (process_entry-IsNamed leaf p h) (process_entries-IsNamed leaves)

    download_loop-IsNamed :
        (answers : List (ℕ → ℕ → Result (List Leaf))) (p : Progress)
        → IsNamed p
        → IsNamed (progress (download_loop parse worker answers p))
    unfolding download_loop
    download_loop-IsNamed [] p h = elim (Bool-cases (ltb p.index worker.end_pos)) [
      | inl more ↦ rw (more, download_loop) h
      | inr over ↦ rw (over, download_loop) h
    ]
    download_loop-IsNamed (answer ∷ answers) p h =
        let max = request_max p.index worker.end_pos in
        let p' : Progress = record p { requests = p.requests ++ (p.index, max) ∷ [] } in
        let h' : IsNamed p' = record { state = h.state; saves = h.saves } in
        elim (Bool-cases (ltb p.index worker.end_pos)) [
          | inr over ↦ rw (over, download_loop) h
          | inl more ↦ elim (Result-cases (answer p.index max)) [
            | inl (leaves, fine) ↦
                rw (more, fine, download_loop)
                  (and_then-IsNamed (process_entries parse worker leaves p')
                    (download_loop parse worker answers) (process_entries-IsNamed leaves p' h')
                    (download_loop-IsNamed answers))
            | inr (e, bad) ↦ elim (Bool-cases (is_too_many_requests e)) [
              | inl busy ↦ rw (more, bad, busy, download_loop) (download_loop-IsNamed answers p' h')
              | inr fatal ↦ rw (more, bad, fatal, download_loop) h'
            ]
          ]
        ]

    finish-IsNamed :
        (now : Time) (o : Outcome) → IsNamed (progress o) → IsNamed (finish parse worker now o).1
    unfolding finish
    finish-IsNamed now (continued p) h = save_state-IsNamed p.index p.last_entry_timestamp now p h
    finish-IsNamed now (stopped p) h = save_state-IsNamed p.index p.last_entry_timestamp now p h
    finish-IsNamed now (failed e p) h = save_state-IsNamed p.index p.last_entry_timestamp now p h
    finish-IsNamed now (waiting p) h = h

    start-IsNamed :
        (events : List Event)
        → worker.log_state.short_url ≡ short
        → IsNamed (start parse worker events)
    unfolding start
    start-IsNamed events h = record { state = h; saves = tt }

    pub run-named :
        (answers : List (ℕ → ℕ → Result (List Leaf))) (events : List Event) (now : Time)
        → worker.log_state.short_url ≡ short
        → All
            (λ (s : CertificateLog). s.short_url ≡ short)
            (run parse worker answers events now).1.saved
    unfolding run download_ct_range_to_channel
    run-named answers events now h =
        let begun = start-IsNamed events h in
        elim (Bool-cases (worker.start_pos == worker.end_pos)) [
          | inl idle ↦ rw (idle, run) begun.saves
          | inr works ↦
              rw (works, run)
                (finish-IsNamed now (download_loop parse worker answers (start parse worker events))
                  (download_loop-IsNamed answers _ begun)).saves
        ]
