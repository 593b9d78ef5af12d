-- ===== src/CtFetch/Pipeline/Exit.antt =====
-- What has become of the entries when the process ends.
use ct_mapreduce.Prelude.{
  ℕ, ◌+◌, ◌<◌, ◌≤◌, Bool, true, some, List, [], ◌∷◌, length, get_elem?, sum_by, sum_by-set,
  le-sum_by, sum_by-le, ◌≡◌, ◌≢◌, refl, ap, arith,
}
use ct_mapreduce.CtFetch.Pipeline.{
  Worker, spawned, receiving, working, returned, System, Step, send, start, receive, handle, return,
  close, Reach, here, next, Exits, waited_for, started,
}
use ct_mapreduce.CtFetch.Pipeline.Counting.{
  count, in_hand, tally, sum_by-start_database_threads, Reach-tally, tally-started,
}

module _ {E : Type 0} where
  abbrev pub has_returned : Worker E → ℕ
  has_returned returned = 1
  has_returned spawned = 0
  has_returned receiving = 0
  has_returned (working e) = 0

  -- Once a goroutine has started it is waited for until it has returned.
  abbrev pub has_started : Worker E → ℕ
  has_started spawned = 0
  has_started receiving = 1
  has_started (working e) = 1
  has_started returned = 1

  -- A channel is closed behind the last entry, and a worker returns when it has run empty.
  pub record IsOrderly (s : System E) : Type 0 where
    pub none_left : s.closed ≡ true → sum_by length s.unsent ≡ 0
    pub run_empty : 0 < sum_by has_returned s.workers → (s.closed ≡ true) × (length s.channel ≡ 0)

  started-IsOrderly : (entries : List (List E)) (n : ℕ) → IsOrderly (started entries n)
  unfolding started
  started-IsOrderly entries n = record {
    none_left = λ h. cc;
    run_empty =
        λ h. absurd (omega (arith, sum_by-start_database_threads {E = E} has_returned n refl));
  }

  -- A download with an entry to send has not returned.
  open_yet :
      (s : System E) (i : ℕ) (e : E) (rest : List E)
      → IsOrderly s
      → get_elem? s.unsent i ≡ some (e ∷ rest)
      → s.closed ≢ true
  open_yet s i e rest o at closed =
      omega (arith, o.none_left closed, le-sum_by length s.unsent i (e ∷ rest) at)

  Step-IsOrderly : {s t : System E} → Step s t → IsOrderly s → IsOrderly t
  Step-IsOrderly {s} (send i e rest at room) o = record {
    none_left = λ h. absurd (open_yet s i e rest o at h);
    run_empty = λ h. absurd (open_yet s i e rest o at (o.run_empty h).0);
  }
  Step-IsOrderly {s} (start j at) o = record {
    none_left = o.none_left;
    run_empty =
        λ h. o.run_empty (omega (arith, sum_by-set has_returned s.workers j spawned receiving at));
  }
  Step-IsOrderly {s} (receive j e rest at front) o = record {
    none_left = o.none_left;
    run_empty = λ h.
        let before : 0 < sum_by has_returned s.workers =
          omega (arith, sum_by-set has_returned s.workers j receiving (working e) at) in
        absurd (omega (arith, (o.run_empty before).1, ap length front));
  }
  Step-IsOrderly {s} (handle j e at) o = record {
    none_left = o.none_left;
    run_empty = λ h.
        o.run_empty (omega (arith, sum_by-set has_returned s.workers j (working e) receiving at));
  }
  Step-IsOrderly {s} (return j at empty closed) o = record {
    none_left = o.none_left;
    run_empty = λ h. (closed, ap length empty);
  }
  Step-IsOrderly (close over fresh) o = record {
    none_left = λ h. over;
    run_empty = λ h. (refl, (o.run_empty h).1);
  }

  pub Reach-IsOrderly :
      (entries : List (List E)) (n : ℕ) {s : System E} → Reach (started entries n) s → IsOrderly s
  Reach-IsOrderly entries n here = started-IsOrderly entries n
  Reach-IsOrderly entries n (next r st) = Step-IsOrderly st (Reach-IsOrderly entries n r)

  count-le-length : (p : E → Bool) (xs : List E) → count p xs ≤ length xs
  count-le-length p [] = omega arith
  count-le-length p (x ∷ xs) = ground (arith, count-le-length p xs)

  in_hand-le : (p : E → Bool) (w : Worker E) → in_hand p w ≤ waited_for w
  unfolding in_hand
  in_hand-le p spawned = omega arith
  in_hand-le p receiving = omega arith
  in_hand-le p (working e) = ground arith
  in_hand-le p returned = omega arith

  started_cases :
      (ws : List (Worker E)) → sum_by has_started ws ≡ sum_by waited_for ws + sum_by has_returned ws
  started_cases [] = omega arith
  started_cases (spawned ∷ ws) = omega (arith, started_cases ws)
  started_cases (receiving ∷ ws) = omega (arith, started_cases ws)
  started_cases (working e ∷ ws) = omega (arith, started_cases ws)
  started_cases (returned ∷ ws) = omega (arith, started_cases ws)

  -- Where the process ends in a state in which a goroutine of insertCTWorker has started,
  -- whatever the order of the steps: of the entries that pass a test the workers are done with as
  -- many as the downloads had to send, for every test.
  pub all_handled :
      (entries : List (List E)) (num_threads : ℕ) {s : System E} (p : E → Bool)
      → Reach (started entries num_threads) s
      → Exits s
      → 0 < sum_by has_started s.workers
      → count p s.handled ≡ sum_by (count p) entries
  unfolding tally
  all_handled entries num_threads {s} p r exits one =
      let o = Reach-IsOrderly entries num_threads r in
      let (closed, empty) =
        o.run_empty (omega (arith, exits.none_counted, started_cases s.workers)) in
      omega (
        arith,
        Reach-tally p r,
        tally-started p entries num_threads,
        o.none_left closed,
        empty,
        exits.none_counted,
        count-le-length p s.channel,
        sum_by-le (count p) length s.unsent (count-le-length p),
        sum_by-le (in_hand p) waited_for s.workers (in_hand-le p),
      )
