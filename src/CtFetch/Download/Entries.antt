-- ===== src/CtFetch/Download/Entries.antt =====
-- What the entries of one answer add to what is sent: each once, in order, and none before its turn.
use ct_mapreduce.Prelude.{
  ℕ, zero, suc, ◌+◌, ◌-◌, ◌^◌, ◌≤◌, ◌<◌, ltb, List, [], ◌∷◌, ◌++◌, append-nil, All, All-append,
  Result, Result-cases, ok, err, Error, Option, ◌≡◌, refl, ap, sym, subst, ◌∙◌, arith, Bool-cases,
  inl, inr,
}
use ct_mapreduce.Cache.{CertificateLog}
use ct_mapreduce.Certificate.{LogEntry}
use ct_mapreduce.GoLib.Time.{Time}
use ct_mapreduce.CtFetch.Bounds.{LogWorker, u64}
use ct_mapreduce.CtFetch.Download.Types.{
  Event, signal, tick, room, Progress, Outcome, continued, stopped, failed, waiting, and_then,
}
use ct_mapreduce.CtFetch.Download.{save_state, submit, process_entry, process_entries}
use ct_mapreduce.CtFetch.Download.Slice.{entry_at, wanted, wanted-suc, leaves_from}

module _ {Leaf : Type 0} (parse : ℕ → Leaf → Result LogEntry) (worker : LogWorker)
    (log : ℕ → Leaf) where
  -- The channel has received exactly the entries from the start up to the index, and no saved state
  -- is ahead of the index.
  pub record IsExact (p : Progress) : Type 0 where
    pub started : worker.start_pos ≤ p.index
    pub within : p.index ≤ worker.end_pos
    pub exact :
        p.sent ≡ wanted parse worker.log_url log worker.start_pos (p.index - worker.start_pos)
    pub saves : All (λ (s : CertificateLog). s.max_entry ≤ p.index) p.saved

  save_state-index :
      (i : ℕ) (t : Option Time) (now : Time) (p : Progress) → (save_state i t now p).index ≡ p.index
  unfolding save_state
  save_state-index i t now p = ground arith

  pub save_state-IsExact :
      (t : Option Time) (now : Time) (p : Progress)
      → IsExact p
      → IsExact (save_state p.index t now p)
  unfolding save_state
  save_state-IsExact t now p h = elim (Bool-cases (ltb (2 ^ 63 - 1) p.index)) [
    | inl e ↦ rw e h
    | inr e ↦ rw e (record {
      started = h.started;
      within = h.within;
      exact = h.exact;
      saves =
          All-append (λ (s : CertificateLog). s.max_entry ≤ p.index) p.saved _ h.saves
            (omega arith, tt);
    })
  ]

  All-le_suc :
      (i j : ℕ) (l : List CertificateLog)
      → i ≤ j
      → All (λ (s : CertificateLog). s.max_entry ≤ i) l
      → All (λ (s : CertificateLog). s.max_entry ≤ j) l
  All-le_suc i j [] h a = tt
  All-le_suc i j (s ∷ l) h a = (omega arith, All-le_suc i j l h a.1)

  -- One more position is done, with what it holds sent.
  advance-IsExact :
      (p q : Progress)
      → IsExact p
      → p.index < worker.end_pos
      → q.index ≡ p.index + 1
      → q.sent ≡ p.sent ++ entry_at parse worker.log_url log p.index
      → q.saved ≡ p.saved
      → IsExact q
  advance-IsExact p q h lt i s v =
      let n : ℕ = p.index - worker.start_pos in
      let next : q.index - worker.start_pos ≡ suc n = omega (arith, h.started) in
      let here : worker.start_pos + n ≡ p.index = omega (arith, h.started) in
      record {
        started = omega arith;
        within = omega arith;
        exact =
            s
            ∙ ap (λ l. l ++ entry_at parse worker.log_url log p.index) h.exact
            ∙ rw (next, wanted-suc parse worker.log_url log worker.start_pos n, here);
        saves = rw v (All-le_suc p.index q.index p.saved (omega arith) h.saves);
      }

  pub same_index-IsExact :
      (p q : Progress)
      → IsExact p
      → q.index ≡ p.index
      → q.sent ≡ p.sent
      → q.saved ≡ p.saved
      → IsExact q
  same_index-IsExact p q h i s v = record {
    started = omega (arith, h.started);
    within = omega (arith, h.within);
    exact = rw (i, s) h.exact;
    saves = rw (v, i) h.saves;
  }

  entry_at_ok :
      (i : ℕ) (entry : LogEntry)
      → parse i (log i) ≡ ok entry
      → entry_at parse worker.log_url log i
        ≡ record { log_entry = entry; log_url = worker.log_url } ∷ []
  unfolding entry_at
  entry_at_ok i entry h = ground arith

  entry_at_err :
      (i : ℕ) (e : Error) → parse i (log i) ≡ err e → entry_at parse worker.log_url log i ≡ []
  unfolding entry_at
  entry_at_err i e h = ground arith

  -- What holds of an outcome at the end of `n` positions from `i` on.
  abbrev pub Good : ℕ → Outcome → Type 0
  Good j (continued p) = IsExact p × (p.index ≡ j)
  Good j (stopped p) = IsExact p
  Good j (failed e p) = ⊥
  Good j (waiting p) = IsExact p

  submit-Good :
      (i : ℕ) (entry : LogEntry) (events : List Event) (p : Progress)
      → worker.end_pos < 2 ^ 64
      → IsExact p
      → i < worker.end_pos
      → p.index ≡ i
      → parse i (log i) ≡ ok entry
      → Good (i + 1) (submit (record { log_entry = entry; log_url = worker.log_url }) events p)
  unfolding submit
  submit-Good i entry [] p small h lt here parses = same_index-IsExact p _ h refl refl refl
  submit-Good i entry (signal ∷ events) p small h lt here parses =
      same_index-IsExact p _ h refl refl refl
  submit-Good i entry (tick now ∷ events) p small h lt here parses =
      submit-Good i entry events (save_state p.index p.last_entry_timestamp now p) small
        (save_state-IsExact p.last_entry_timestamp now p h) lt
        (save_state-index p.index p.last_entry_timestamp now p ∙ here) parses
  submit-Good i entry (room ∷ events) p small h lt here parses =
      let next : u64 (p.index + 1) ≡ p.index + 1 = omega arith in
      (
        advance-IsExact p _ h (omega arith) next
            (ap (λ l. p.sent ++ l) (sym (entry_at_ok p.index entry (rw here parses)))) refl,
        next ∙ ap (λ (j : ℕ). j + 1) here,
      )

  -- An entry that cannot be parsed is passed over; any other is sent before the index moves on.
  process_entry-Good :
      (p : Progress)
      → worker.end_pos < 2 ^ 64
      → IsExact p
      → p.index < worker.end_pos
      → Good (p.index + 1) (process_entry parse worker (log p.index) p)
  unfolding process_entry
  process_entry-Good p small h lt = elim (Result-cases (parse p.index (log p.index))) [
    | inl (entry, ok_parse) ↦
        rw (ok_parse, process_entry) (submit-Good p.index entry p.events p small h lt refl ok_parse)
    | inr (e, bad) ↦
        rw (bad, process_entry)
          (let next : u64 (p.index + 1) ≡ p.index + 1 = omega arith in
            (
              advance-IsExact p _ h lt next
                  (sym (ap (λ l. p.sent ++ l) (entry_at_err p.index e bad) ∙ append-nil p.sent))
                  refl,
              next,
            ))
  ]

  Good-and_then :
      (i j : ℕ) (o : Outcome) (k : Progress → Outcome)
      → Good i o
      → ((p : Progress) → IsExact p → p.index ≡ i → Good j (k p))
      → Good j (and_then o k)
  Good-and_then i j (continued p) k h f = f p h.0 h.1
  Good-and_then i j (stopped p) k h f = h
  Good-and_then i j (failed e p) k h f = h
  Good-and_then i j (waiting p) k h f = h

  pub process_entries-Good :
      (n i : ℕ) (p : Progress)
      → worker.end_pos < 2 ^ 64
      → IsExact p
      → p.index ≡ i
      → i + n ≤ worker.end_pos
      → Good (i + n) (process_entries parse worker (leaves_from parse worker.log_url log i n) p)
  unfolding process_entries leaves_from
  process_entries-Good zero i p small h here fits = (h, omega arith)
  process_entries-Good (suc n) i p small h here fits =
      let step : ℕ → Type 0 = λ m. Good (m + 1) (process_entry parse worker (log m) p) in
      Good-and_then (i + 1) (i + suc n) (process_entry parse worker (log i) p)
        (process_entries parse worker (leaves_from parse worker.log_url log (suc i) n))
        (subst step here (process_entry-Good p small h (omega arith)))
        (λ q exact_q at_q.
          let same : suc i + n ≡ i + suc n = omega arith in
          subst
            (λ (m : ℕ).
              Good m
                (process_entries parse worker (leaves_from parse worker.log_url log (suc i) n) q))
            same (process_entries-Good n (suc i) q small exact_q (omega arith) (omega arith)))
