-- ===== src/CtFetch/Polling/Runs.antt =====
-- What one run sends and saves, wherever it starts.
use ct_mapreduce.Prelude.{
  ℕ, ◌-◌, ◌^◌, ◌≤◌, ◌<◌, Bool, false, leb, ◌==◌, Result, Bool-cases, Option, List, [], ◌∷◌, ◌++◌,
  All, ◌≡◌, refl, sym, ◌∙◌, arith, inl, inr,
}
use ct_mapreduce.Cache.{CertificateLog}
use ct_mapreduce.Certificate.{LogEntry}
use ct_mapreduce.GoLib.Time.{Time}
use ct_mapreduce.CtFetch.Bounds.{LogWorker}
use ct_mapreduce.CtFetch.Download.Types.{
  Event, Progress, Outcome, progress, time_or, continued, stopped, failed, waiting,
}
use ct_mapreduce.CtFetch.Download.{
  save_state, finish, run, download_ct_range_to_channel, download_loop, start,
}
use ct_mapreduce.CtFetch.Download.Slice.{wanted}
use ct_mapreduce.CtFetch.Download.Entries.{IsExact}
use ct_mapreduce.CtFetch.Download.Exact.{IsHonest, Downloaded, download-Downloaded}
use ct_mapreduce.CtFetch.Polling.{is_waiting}

-- The last of the saved states, else an older one.
abbrev pub last_saved : CertificateLog → List CertificateLog → CertificateLog
last_saved l [] = l
last_saved l (s ∷ rest) = last_saved s rest

last_saved-append :
    (l s : CertificateLog) (saved : List CertificateLog) → last_saved l (saved ++ s ∷ []) ≡ s
last_saved-append l s [] = refl
last_saved-append l s (t ∷ saved) = last_saved-append t s saved

last_saved-le :
    (j : ℕ) (l : CertificateLog) (saved : List CertificateLog)
    → l.max_entry ≤ j
    → All (λ (s : CertificateLog). s.max_entry ≤ j) saved
    → (last_saved l saved).max_entry ≤ j
last_saved-le j l [] h a = h
last_saved-le j l (s ∷ saved) h a = last_saved-le j s saved a.0 a.1

module _ {Leaf : Type 0} (parse : ℕ → Leaf → Result LogEntry) (log : ℕ → Leaf) where
  module _ (worker : LogWorker) where
    -- What holds of a download, wherever it starts.
    record IsSound (p : Progress) : Type 0 where
      started : worker.start_pos ≤ p.index
      small : p.index < 2 ^ 63
      exact : p.sent ≡ wanted parse worker.log_url log worker.start_pos (p.index - worker.start_pos)
      saves : All (λ (s : CertificateLog). s.max_entry ≤ p.index) p.saved

    Exact-IsSound :
        (p : Progress) → worker.end_pos < 2 ^ 63 → IsExact parse worker log p → IsSound p
    Exact-IsSound p h e = record {
      started = e.started;
      small = omega (arith, e.within);
      exact = e.exact;
      saves = e.saves;
    }

    Downloaded-IsSound :
        (o : Outcome)
        → worker.end_pos < 2 ^ 63
        → Downloaded parse worker log o
        → IsSound (progress o)
    Downloaded-IsSound (continued p) small h = Exact-IsSound p small h.0
    Downloaded-IsSound (stopped p) small h = Exact-IsSound p small h
    Downloaded-IsSound (failed e p) small h = Exact-IsSound p small h
    Downloaded-IsSound (waiting p) small h = Exact-IsSound p small h

    start-IsSound :
        (events : List Event) → worker.start_pos < 2 ^ 63 → IsSound (start parse worker events)
    unfolding start wanted
    start-IsSound events h =
        let none_yet : worker.start_pos - worker.start_pos ≡ 0 = omega arith in
        record { started = omega arith; small = h; exact = rw none_yet; saves = tt }

    -- A worker that starts behind its end does nothing.
    nothing_to_do :
        (pages : List (ℕ → ℕ → Result (List Leaf))) (events : List Event)
        → worker.end_pos < worker.start_pos
        → download_ct_range_to_channel parse worker pages events
          ≡ continued (start parse worker events)
    unfolding download_ct_range_to_channel download_loop start
    nothing_to_do [] events h = ground arith
    nothing_to_do (page ∷ pages) events h = ground arith

    download-IsSound :
        (pages : List (ℕ → ℕ → Result (List Leaf))) (events : List Event)
        → worker.start_pos < 2 ^ 63
        → worker.end_pos < 2 ^ 63
        → All (IsHonest parse worker log) pages
        → IsSound (progress (download_ct_range_to_channel parse worker pages events))
    download-IsSound pages events low high honest =
        elim (Bool-cases (leb worker.start_pos worker.end_pos)) [
          | inl le ↦
              Downloaded-IsSound _ high
                (download-Downloaded parse worker log pages events (ground arith) high honest)
          | inr gt ↦ rw (nothing_to_do pages events (ground arith)) (start-IsSound events low)
        ]

    save_state_sent :
        (t : Option Time) (now : Time) (p : Progress)
        → ((save_state p.index t now p).index ≡ p.index)
          × ((save_state p.index t now p).sent ≡ p.sent)
    unfolding save_state
    save_state_sent t now p = ground arith

    save_state_saved :
        (t : Option Time) (now : Time) (p : Progress)
        → p.index < 2 ^ 63
        → (s : CertificateLog) × (s.max_entry ≡ p.index)
          × ((save_state p.index t now p).saved ≡ p.saved ++ s ∷ [])
    unfolding save_state
    save_state_saved t now p h = (
      record p.log_state {
        max_entry = p.index;
        last_entry_time = time_or t p.log_state.last_entry_time;
        last_update_time = now;
      },
      refl,
      ground arith,
    )

    -- What a run leaves: the states that it saves, and what it sends.
    pub record Leaves (l : CertificateLog) (blocked : Bool) (p : Progress) : Type 0 where
      pub sound : worker.start_pos ≤ p.index
      pub small : p.index < 2 ^ 63
      pub exact :
          p.sent ≡ wanted parse worker.log_url log worker.start_pos (p.index - worker.start_pos)
      pub behind : (last_saved l p.saved).max_entry ≤ p.index
      pub caught_up : blocked ≡ false → (last_saved l p.saved).max_entry ≡ p.index

    finish-Leaves :
        (l : CertificateLog) (now : Time) (p : Progress)
        → IsSound p
        → Leaves l false (save_state p.index p.last_entry_timestamp now p)
    finish-Leaves l now p h =
        let (s, at_index, saved) = save_state_saved p.last_entry_timestamp now p h.small in
        let (index, sent) = save_state_sent p.last_entry_timestamp now p in
        let last : (last_saved l (save_state p.index p.last_entry_timestamp now p).saved).max_entry
            ≡ p.index =
          rw (saved, last_saved-append l s p.saved) at_index in
        record {
          sound = omega (arith, h.started);
          small = omega (arith, h.small);
          exact = rw (sent, index) h.exact;
          behind = omega arith;
          caught_up = λ returned. last ∙ sym index;
        }

    finished :
        (l : CertificateLog) (now : Time) (o : Outcome)
        → l.max_entry ≡ worker.start_pos
        → IsSound (progress o)
        → Leaves l (is_waiting o) (finish parse worker now o).1
    unfolding finish
    finished l now (continued p) here h = finish-Leaves l now p h
    finished l now (stopped p) here h = finish-Leaves l now p h
    finished l now (failed e p) here h = finish-Leaves l now p h
    finished l now (waiting p) here h = record {
      sound = h.started;
      small = h.small;
      exact = h.exact;
      behind = last_saved-le p.index l p.saved (omega (arith, h.started)) h.saves;
      caught_up = λ returned. cc;
    }

    start-Leaves :
        (l : CertificateLog) (blocked : Bool) (events : List Event)
        → l.max_entry ≡ worker.start_pos
        → worker.start_pos < 2 ^ 63
        → Leaves l blocked (start parse worker events)
    unfolding start wanted
    start-Leaves l blocked events here low =
        let h : IsSound (start parse worker events) = start-IsSound events low in
        record {
          sound = h.started;
          small = h.small;
          exact = h.exact;
          behind = omega arith;
          caught_up = λ returned. here;
        }

    pub run-Leaves :
        (l : CertificateLog) (pages : List (ℕ → ℕ → Result (List Leaf))) (events : List Event)
        (now : Time)
        → l.max_entry ≡ worker.start_pos
        → worker.start_pos < 2 ^ 63
        → worker.end_pos < 2 ^ 63
        → All (IsHonest parse worker log) pages
        → Leaves l
            (is_waiting (download_ct_range_to_channel parse worker pages events))
            (run parse worker pages events now).1
    unfolding run
    run-Leaves l pages events now here low high honest =
        elim (Bool-cases (worker.start_pos == worker.end_pos)) [
          | inl idle ↦ rw (idle, run) (start-Leaves l _ events here low)
          | inr works ↦
              rw (works, run)
                (finished l now (download_ct_range_to_channel parse worker pages events) here
                  (download-IsSound pages events low high honest))
        ]
