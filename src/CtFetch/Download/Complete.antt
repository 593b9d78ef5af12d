-- ===== src/CtFetch/Download/Complete.antt =====
-- A download that no signal ends comes to its end position.
use ct_mapreduce.Prelude.{
  ℕ, suc, ◌+◌, ◌^◌, ◌≤◌, ◌<◌, true, false, ltb, ltb→lt, List, [], ◌∷◌, ◌++◌, length, Result,
  Result-cases, ok, err, Error, ◌≡◌, refl, subst, ◌∙◌, arith, Bool-cases, inl, inr,
}
use ct_mapreduce.Certificate.{LogEntry}
use ct_mapreduce.CtFetch.Bounds.{LogWorker, u64}
use ct_mapreduce.CtFetch.Download.Types.{
  CtLogEntry, Event, signal, tick, room, Progress, Outcome, continued, stopped, failed, waiting,
  and_then,
}
use ct_mapreduce.CtFetch.Download.{
  save_state, submit, process_entry, process_entries, download_loop, request_max,
  is_too_many_requests, download_ct_range_to_channel, start,
}
use ct_mapreduce.CtFetch.Download.Exact.{request_max_bounds}

-- No signal arrives.
abbrev pub IsQuiet : List Event → Type 0
IsQuiet [] = Unit
IsQuiet (signal ∷ events) = ⊥
IsQuiet (tick now ∷ events) = IsQuiet events
IsQuiet (room ∷ events) = IsQuiet events

-- How often there is room in the channel.
abbrev pub rooms : List Event → ℕ
rooms [] = 0
rooms (room ∷ events) = suc (rooms events)
rooms (signal ∷ events) = rooms events
rooms (tick now ∷ events) = rooms events

module _ {Leaf : Type 0} where
  -- The answer to a request for an entry or more holds an entry or more, and not more than were
  -- asked for.
  abbrev pub IsPrompt : (ℕ → ℕ → Result (List Leaf)) → Type 0
  IsPrompt answer =
      (i m : ℕ)
      → i ≤ m
      → (leaves : List Leaf) × (answer i m ≡ ok leaves)
        × (0 < length leaves)
        × (i + length leaves ≤ m + 1)

  -- The log is busy, in the words that the loop looks for.
  abbrev pub IsBusy : (ℕ → ℕ → Result (List Leaf)) → Type 0
  IsBusy answer = (i m : ℕ) → (e : Error) × (answer i m ≡ err e) × (is_too_many_requests e ≡ true)

  -- At least `n` of the answers are prompt, and in all others the log is busy.
  pub data Serves : ℕ → List (ℕ → ℕ → Result (List Leaf)) → Type 0 where
    nothing : Serves 0 []
    prompt :
        {n m : ℕ} {answer : ℕ → ℕ → Result (List Leaf)}
        {answers : List (ℕ → ℕ → Result (List Leaf))}
        → IsPrompt answer
        → Serves n answers
        → m ≤ suc n
        → Serves m (answer ∷ answers)
    busy :
        {n : ℕ} {answer : ℕ → ℕ → Result (List Leaf)} {answers : List (ℕ → ℕ → Result (List Leaf))}
        → IsBusy answer
        → Serves n answers
        → Serves n (answer ∷ answers)

module _ {Leaf : Type 0} (parse : ℕ → Leaf → Result LogEntry) (worker : LogWorker) where
  -- No signal arrives, and there is room for what is left.
  record IsReady (p : Progress) : Type 0 where
    quiet : IsQuiet p.events
    enough : worker.end_pos ≤ p.index + rooms p.events

  abbrev Goes : ℕ → Outcome → Type 0
  Goes j (continued p) = IsReady p × (p.index ≡ j)
  Goes j o = ⊥

  save_state-keeps :
      (now : ℕ) (p : Progress)
      → ((save_state p.index p.last_entry_timestamp now p).index ≡ p.index)
        × ((save_state p.index p.last_entry_timestamp now p).events ≡ p.events)
  unfolding save_state
  save_state-keeps now p = ground arith

  submit-Goes :
      (i : ℕ) (entry : CtLogEntry) (events : List Event) (p : Progress)
      → worker.end_pos < 2 ^ 64
      → i < worker.end_pos
      → p.index ≡ i
      → IsQuiet events
      → worker.end_pos ≤ i + rooms events
      → Goes (i + 1) (submit entry events p)
  unfolding submit
  submit-Goes i entry [] p small lt here quiet enough = omega arith
  submit-Goes i entry (signal ∷ events) p small lt here quiet enough = absurd quiet
  submit-Goes i entry (tick now ∷ events) p small lt here quiet enough =
      submit-Goes i entry events (save_state p.index p.last_entry_timestamp now p) small lt
        ((save_state-keeps now p).0 ∙ here) quiet enough
  submit-Goes i entry (room ∷ events) p small lt here quiet enough =
      let next : u64 (p.index + 1) ≡ i + 1 = omega arith in
      (record { quiet = quiet; enough = omega arith }, next)

  process_entry-Goes :
      (leaf : Leaf) (i : ℕ) (p : Progress)
      → worker.end_pos < 2 ^ 64
      → i < worker.end_pos
      → p.index ≡ i
      → IsReady p
      → Goes (i + 1) (process_entry parse worker leaf p)
  unfolding process_entry
  process_entry-Goes leaf i p small lt here r = elim (Result-cases (parse p.index leaf)) [
    | inl (entry, ok_parse) ↦
        rw (ok_parse, process_entry)
          (submit-Goes i _ p.events p small lt here r.quiet (omega (arith, r.enough)))
    | inr (e, bad) ↦
        rw (bad, process_entry)
          (let next : u64 (p.index + 1) ≡ i + 1 = omega arith in
            (record { quiet = r.quiet; enough = omega (arith, r.enough) }, next))
  ]

  Goes-and_then {κ} :
      (P : Outcome → Type κ) (i : ℕ) (o : Outcome) (k : Progress → Outcome)
      → Goes i o
      → ((p : Progress) → IsReady p → p.index ≡ i → P (k p))
      → P (and_then o k)
  Goes-and_then P i (continued p) k h f = f p h.0 h.1
  Goes-and_then P i (stopped p) k h f = absurd h
  Goes-and_then P i (failed e p) k h f = absurd h
  Goes-and_then P i (waiting p) k h f = absurd h

  process_entries-Goes :
      (leaves : List Leaf) (i : ℕ) (p : Progress)
      → worker.end_pos < 2 ^ 64
      → i + length leaves ≤ worker.end_pos
      → p.index ≡ i
      → IsReady p
      → Goes (i + length leaves) (process_entries parse worker leaves p)
  unfolding process_entries
  process_entries-Goes [] i p small fits here r = (r, omega arith)
  process_entries-Goes (leaf ∷ leaves) i p small fits here r =
      Goes-and_then (Goes (i + suc (length leaves))) (i + 1) (process_entry parse worker leaf p)
        (process_entries parse worker leaves)
        (process_entry-Goes leaf i p small (omega arith) here r)
        (λ q ready_q at_q.
          let same : i + 1 + length leaves ≡ i + suc (length leaves) = omega arith in
          subst (λ (m : ℕ). Goes m (process_entries parse worker leaves q)) same
            (process_entries-Goes leaves (i + 1) q small (omega arith) at_q ready_q))

  -- The download ended by its own test.
  abbrev pub Completed : Outcome → Type 0
  Completed (continued p) = worker.end_pos ≤ p.index
  Completed o = ⊥

  at_end : (p : Progress) → ltb p.index worker.end_pos ≡ false → worker.end_pos ≤ p.index
  at_end p h = ground arith

  download_loop-Completed :
      {n : ℕ} {answers : List (ℕ → ℕ → Result (List Leaf))} (serves : Serves n answers)
      (p : Progress)
      → worker.end_pos < 2 ^ 63
      → worker.end_pos ≤ p.index + n
      → IsReady p
      → Completed (download_loop parse worker answers p)
  unfolding download_loop
  download_loop-Completed nothing p small enough r =
      elim (Bool-cases (ltb p.index worker.end_pos)) [
        | inl more ↦ absurd (omega (arith, ltb→lt _ _ more))
        | inr done ↦ rw done (omega arith)
      ]
  download_loop-Completed
        (prompt {n = k} {answer = answer} {answers = answers} is_prompt serves few) p small enough
        r =
      elim (Bool-cases (ltb p.index worker.end_pos)) [
        | inr done ↦ rw (done, download_loop) (at_end p done)
        | inl more ↦
            rw (more, download_loop)
              (let m : ℕ = request_max p.index worker.end_pos in
                let bounds = request_max_bounds worker.end_pos p.index (ltb→lt _ _ more) small in
                let (leaves, ok_answer, some_leaf, fits) = is_prompt p.index m bounds.0 in
                let p' : Progress = record p { requests = p.requests ++ (p.index, m) ∷ [] } in
                rw (ok_answer, download_loop)
                  (Goes-and_then Completed (p.index + length leaves)
                    (process_entries parse worker leaves p') (download_loop parse worker answers)
                    (process_entries-Goes leaves p.index p' (omega arith) (omega (arith, bounds.1))
                      refl (record { quiet = r.quiet; enough = r.enough }))
                    (λ q ready_q at_q.
                      download_loop-Completed serves q small (omega arith) ready_q)))
      ]
  download_loop-Completed (busy {answer = answer} {answers = answers} is_busy serves) p small enough
        r =
      elim (Bool-cases (ltb p.index worker.end_pos)) [
        | inr done ↦ rw (done, download_loop) (at_end p done)
        | inl more ↦
            rw (more, download_loop)
              (let m : ℕ = request_max p.index worker.end_pos in
                let (e, bad, again) = is_busy p.index m in
                rw (bad, download_loop)
                  (rw (again, download_loop)
                    (download_loop-Completed serves
                      (record p { requests = p.requests ++ (p.index, m) ∷ [] }) small enough
                      (record { quiet = r.quiet; enough = r.enough }))))
      ]

  -- Where no signal arrives, there is room in the channel for each entry, the end is below 2 ^
  -- 63, and the log answers at least as many requests with an entry or more as positions are
  -- left, and else says that it is busy, the download comes to its end position.
  pub download-Completed :
      (n : ℕ) (answers : List (ℕ → ℕ → Result (List Leaf))) (events : List Event)
      → worker.end_pos < 2 ^ 63
      → Serves n answers
      → worker.end_pos ≤ worker.start_pos + n
      → IsQuiet events
      → worker.end_pos ≤ worker.start_pos + rooms events
      → Completed (download_ct_range_to_channel parse worker answers events)
  unfolding download_ct_range_to_channel start
  download-Completed n answers events small serves enough quiet room_left =
      download_loop-Completed serves (start parse worker events) small enough
        (record { quiet = quiet; enough = room_left })
