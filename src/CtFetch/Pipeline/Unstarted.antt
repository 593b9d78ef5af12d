-- ===== src/CtFetch/Pipeline/Unstarted.antt =====
-- What is lost if the process ends before a worker has started: ThreadWaitGroup.Add is the first
-- statement of the goroutine, and does not stand in front of the `go` statement.
use ct_mapreduce.Prelude.{
  ℕ, zero, suc, ◌+◌, ◌≤◌, true, List, [], ◌∷◌, ◌++◌, length, set, length-append, sum_by, sum_by-set,
  ◌≡◌, refl, ap, ◌∙◌, arith,
}
use ct_mapreduce.CtFetch.Pipeline.{
  System, send, close, Reach, here, next, Exits, capacity, waited_for, started,
}
use ct_mapreduce.CtFetch.Pipeline.Counting.{sum_by-start_database_threads}
use ct_mapreduce.CtFetch.Pipeline.Progress.{to_send}

module _ {E : Type 0} (s0 : System E) where
  -- The downloads send all that is left while there is room for it.
  record Emptied (s : System E) : Type 0 where
    last : System E
    reach : Reach s0 last
    none_left : sum_by length last.unsent ≡ 0
    in_channel : length last.channel ≡ length s.channel + sum_by length s.unsent
    same_workers : last.workers ≡ s.workers
    same_closed : last.closed ≡ s.closed
    same_handled : last.handled ≡ s.handled

  send_all :
      (n : ℕ) (s : System E)
      → Reach s0 s
      → sum_by length s.unsent ≡ n
      → length s.channel + n ≤ capacity
      → Emptied s
  send_all zero s r h room = record {
    last = s;
    reach = r;
    none_left = h;
    in_channel = omega arith;
    same_workers = refl;
    same_closed = refl;
    same_handled = refl;
  }
  send_all (suc n) s r h room =
      let (i, e, rest, at) = to_send s (omega arith) in
      let t : System E = record s { unsent = set s.unsent i rest; channel = s.channel ++ e ∷ [] } in
      let less = sum_by-set length s.unsent i (e ∷ rest) rest at in
      let longer = length-append s.channel (e ∷ []) in
      let later =
        send_all n t (next r (send i e rest at (omega arith))) (omega (arith, less))
          (omega (arith, longer)) in
      record {
        last = later.last;
        reach = later.reach;
        none_left = later.none_left;
        in_channel = omega (arith, later.in_channel, less, longer);
        same_workers = later.same_workers;
        same_closed = later.same_closed;
        same_handled = later.same_handled;
      }

-- Whatever the number of threads, if the downloads send no more in all than the channel holds,
-- the goroutines reach a state in which the process ends with all the entries in the channel and
-- none handled.
pub unstarted_loses_all :
    {E : Type 0} (entries : List (List E)) (num_threads : ℕ)
    → sum_by length entries ≤ capacity
    → (s : System E) × Reach (started entries num_threads) s
      × Exits s
      × (length s.channel ≡ sum_by length entries)
      × (s.handled ≡ [])
unfolding started
unstarted_loses_all {E} entries num_threads small =
    let s0 : System E = started entries num_threads in
    let e = send_all s0 (sum_by length entries) s0 here refl (omega arith) in
    (
      record e.last { closed = true },
      next e.reach (close e.none_left e.same_closed),
      record {
        stopped = refl;
        none_counted =
            ap (sum_by waited_for) e.same_workers
            ∙ sum_by-start_database_threads waited_for num_threads refl;
      },
      omega (arith, e.in_channel),
      e.same_handled,
    )
