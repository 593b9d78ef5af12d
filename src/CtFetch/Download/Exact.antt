-- ===== src/CtFetch/Download/Exact.antt =====
-- What a download hands to the channel: each entry of the log once, in order, and none before its
-- turn, however the signals, the save ticks and the log's answers fall.
use ct_mapreduce.Prelude.{
  ℕ, ◌+◌, ◌-◌, ◌^◌, ◌≤◌, ◌<◌, ltb, ltb→lt, List, [], ◌∷◌, ◌++◌, All, length, Result, Result-cases,
  ok, ◌≡◌, refl, sym, subst, arith, Bool-cases, inl, inr,
}
use ct_mapreduce.Certificate.{LogEntry}
use ct_mapreduce.CtFetch.Bounds.{LogWorker}
use ct_mapreduce.CtFetch.Download.Types.{
  Event, Progress, Outcome, continued, stopped, failed, waiting, and_then,
}
use ct_mapreduce.CtFetch.Download.{
  process_entries, download_loop, request_max, is_too_many_requests, download_ct_range_to_channel,
  start,
}
use ct_mapreduce.CtFetch.Download.Slice.{wanted, leaves_from}
use ct_mapreduce.CtFetch.Download.Entries.{IsExact, Good, same_index-IsExact, process_entries-Good}

-- While the index is below an end below 2 ^ 63, a request ends before the end of the download and
-- holds 1001 entries at most.
pub request_max_bounds :
    (end_pos index : ℕ)
    → index < end_pos
    → end_pos < 2 ^ 63
    → (index ≤ request_max index end_pos)
      × (request_max index end_pos < end_pos)
      × (request_max index end_pos ≤ index + 1000)
unfolding request_max
request_max_bounds end_pos index lt small = ground arith

module _ {Leaf : Type 0} (parse : ℕ → Leaf → Result LogEntry) (worker : LogWorker)
    (log : ℕ → Leaf) where
  -- The answers hold leaves of the log from the index that was asked for, not more than were asked
  -- for.
  abbrev pub IsHonest : (ℕ → ℕ → Result (List Leaf)) → Type 0
  IsHonest answer =
      (i m : ℕ) (leaves : List Leaf)
      → answer i m ≡ ok leaves
      → (leaves ≡ leaves_from parse worker.log_url log i (length leaves))
        × (i + length leaves ≤ m + 1)

  -- What holds at the end of the download: it goes on to the caller only at its end position.
  abbrev pub Downloaded : Outcome → Type 0
  Downloaded (continued p) = IsExact parse worker log p × (p.index ≡ worker.end_pos)
  Downloaded (stopped p) = IsExact parse worker log p
  Downloaded (failed e p) = IsExact parse worker log p
  Downloaded (waiting p) = IsExact parse worker log p

  Downloaded-and_then :
      (i : ℕ) (o : Outcome) (k : Progress → Outcome)
      → Good parse worker log i o
      → ((p : Progress) → IsExact parse worker log p → p.index ≡ i → Downloaded (k p))
      → Downloaded (and_then o k)
  Downloaded-and_then i (continued p) k h f = f p h.0 h.1
  Downloaded-and_then i (stopped p) k h f = h
  Downloaded-and_then i (failed e p) k h f = absurd h
  Downloaded-and_then i (waiting p) k h f = h

  download_loop-Downloaded :
      (answers : List (ℕ → ℕ → Result (List Leaf))) (p : Progress)
      → worker.end_pos < 2 ^ 63
      → All IsHonest answers
      → IsExact parse worker log p
      → Downloaded (download_loop parse worker answers p)
  unfolding download_loop
  download_loop-Downloaded [] p small honest h = elim (Bool-cases (ltb p.index worker.end_pos)) [
    | inl more ↦ rw more h
    | inr done ↦ rw done (h, ground (arith, h.within))
  ]
  download_loop-Downloaded (answer ∷ answers) p small honest h =
      elim (Bool-cases (ltb p.index worker.end_pos)) [
        | inr done ↦ rw (done, download_loop) (h, ground (arith, h.within))
        | inl more ↦
            rw (more, download_loop)
              (let m : ℕ = request_max p.index worker.end_pos in
                let bounds = request_max_bounds worker.end_pos p.index (ltb→lt _ _ more) small in
                let p' : Progress = record p { requests = p.requests ++ (p.index, m) ∷ [] } in
                let exact : IsExact parse worker log p' =
                  same_index-IsExact parse worker log p p' h refl refl refl in
                elim (Result-cases (answer p.index m)) [
                  | inr (e, bad) ↦
                      rw (bad, download_loop)
                        (elim (Bool-cases (is_too_many_requests e)) [
                          | inl again ↦
                              rw (again, download_loop)
                                (download_loop-Downloaded answers p' small honest.1 exact)
                          | inr over ↦ rw (over, download_loop) exact
                        ])
                  | inl (leaves, ok_answer) ↦
                      rw (ok_answer, download_loop)
                        (let (prefix, few) = honest.0 p.index m leaves ok_answer in
                          Downloaded-and_then (p.index + length leaves)
                            (process_entries parse worker leaves p')
                            (download_loop parse worker answers)
                            (subst
                              (λ l.
                                Good parse worker log (p.index + length leaves)
                                  (process_entries parse worker l p'))
                              (sym prefix)
                              (process_entries-Good parse worker log (length leaves) p.index p'
                                (omega arith) exact refl (omega (arith, bounds.1))))
                            (λ q hq e. download_loop-Downloaded answers q small honest.1 hq))
                ])
      ]

  start-IsExact :
      (events : List Event)
      → worker.start_pos ≤ worker.end_pos
      → IsExact parse worker log (start parse worker events)
  unfolding start wanted
  start-IsExact events h =
      let none_yet : worker.start_pos - worker.start_pos ≡ 0 = omega arith in
      record { started = omega arith; within = h; exact = rw none_yet; saves = tt }

  -- Against a log that answers honestly, with the start not behind an end below 2 ^ 63, whatever
  -- the events: the channel has received exactly the entries from the start up to the index, once
  -- and in order; no saved state is ahead of it; and the download comes to its own end only at
  -- the end position.
  pub download-Downloaded :
      (answers : List (ℕ → ℕ → Result (List Leaf))) (events : List Event)
      → worker.start_pos ≤ worker.end_pos
      → worker.end_pos < 2 ^ 63
      → All IsHonest answers
      → Downloaded (download_ct_range_to_channel parse worker answers events)
  unfolding download_ct_range_to_channel
  download-Downloaded answers events le small honest =
      download_loop-Downloaded answers (start parse worker events) small honest
        (start-IsExact events le)
