-- ===== src/CtFetch/Pipeline/Flight.antt =====
-- How many entries the process loses if it is killed: the state of a log counts an entry once it is
-- sent.
use ct_mapreduce.Prelude.{
  ℕ, zero, suc, ◌+◌, ◌≤◌, true, List, [], ◌∷◌, length, length-append, sum_by, ◌≡◌, refl, ap, arith,
}
use ct_mapreduce.CtFetch.Pipeline.{
  Worker, spawned, receiving, working, returned, System, Step, send, start, receive, handle, return,
  close, Reach, approximate_remaining_entries, here, next, capacity, start_database_threads,
  started,
}
use ct_mapreduce.CtFetch.Pipeline.Counting.{
  count, in_hand, tally, Reach-tally, tally-started, Reach-length,
}

pub length-start_database_threads :
    (E : Type 0) (n : ℕ) → length (start_database_threads {E = E} n) ≡ n
unfolding start_database_threads
length-start_database_threads E zero = refl
length-start_database_threads E (suc n) = omega (arith, length-start_database_threads E n)

module _ {E : Type 0} where
  -- What stands in the channel, and what the workers have in their hands.
  unfoldable pub in_flight : System E → ℕ
  in_flight s = approximate_remaining_entries s + sum_by (in_hand (λ e. true)) s.workers

  Step-channel :
      {s t : System E} → Step s t → length s.channel ≤ capacity → length t.channel ≤ capacity
  Step-channel {s} (send i e rest at room) h = omega (arith, length-append s.channel (e ∷ []))
  Step-channel (start j at) h = h
  Step-channel (receive j e rest at front) h = omega (arith, ap length front)
  Step-channel (handle j e at) h = h
  Step-channel (return j at empty closed) h = h
  Step-channel (close over fresh) h = h

  Reach-channel :
      (entries : List (List E)) (n : ℕ) {s : System E}
      → Reach (started entries n) s
      → length s.channel ≤ capacity
  unfolding started
  Reach-channel entries n here = omega arith
  Reach-channel entries n (next r st) = Step-channel st (Reach-channel entries n r)

  count_all : (xs : List E) → count (λ e. true) xs ≡ length xs
  count_all [] = refl
  count_all (x ∷ xs) = omega (arith, count_all xs)

  sum_count_all : (xss : List (List E)) → sum_by (count (λ e. true)) xss ≡ sum_by length xss
  sum_count_all [] = refl
  sum_count_all (xs ∷ xss) = omega (arith, count_all xs, sum_count_all xss)

  length-started : (entries : List (List E)) (n : ℕ) → length (started entries n).workers ≡ n
  unfolding started
  length-started entries n = length-start_database_threads E n

  hands-le-length : (ws : List (Worker E)) → sum_by (in_hand (λ e. true)) ws ≤ length ws
  unfolding in_hand
  hands-le-length [] = omega arith
  hands-le-length (spawned ∷ ws) = omega (arith, hands-le-length ws)
  hands-le-length (receiving ∷ ws) = omega (arith, hands-le-length ws)
  hands-le-length (working e ∷ ws) = omega (arith, hands-le-length ws)
  hands-le-length (returned ∷ ws) = omega (arith, hands-le-length ws)

  -- In every state that the goroutines reach, the entries are those still to be sent, those in
  -- flight and those that are handled, and in flight are no more than the channel holds and one
  -- for each thread.
  pub in_flight_bound :
      (entries : List (List E)) (num_threads : ℕ) {s : System E}
      → Reach (started entries num_threads) s
      → (sum_by length s.unsent + in_flight s + length s.handled ≡ sum_by length entries)
        × (in_flight s ≤ capacity + num_threads)
  unfolding in_flight tally
  in_flight_bound entries num_threads {s} r = (
    omega (
      arith,
      Reach-tally (λ e. true) r,
      tally-started (λ e. true) entries num_threads,
      count_all s.channel,
      count_all s.handled,
      sum_count_all s.unsent,
      sum_count_all entries,
    ),
    omega (
      arith,
      Reach-channel entries num_threads r,
      hands-le-length s.workers,
      Reach-length r,
      length-started entries num_threads,
    ),
  )
