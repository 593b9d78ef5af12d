-- ===== src/CtFetch/Pipeline/Counting.antt =====
-- No step of the pipeline loses an entry or makes one, and each takes the pipeline nearer to its end.
use ct_mapreduce.Prelude.{
  ℕ, zero, suc, ◌+◌, ◌*◌, Bool, true, false, List, [], ◌∷◌, ◌++◌, length, sum_by, sum_by-set,
  length-set, length-append, ◌≡◌, refl, ◌∙◌, ap, arith, if◌then◌else◌,
}
use ct_mapreduce.CtFetch.Pipeline.{
  Worker, spawned, receiving, working, returned, System, Step, send, start, receive, handle, return,
  close, Reach, here, next, start_database_threads, started,
}

abbrev pub close_left : Bool → ℕ
close_left true = 0
close_left false = 1

module _ {E : Type 0} where
  -- How many elements pass a test.
  abbrev pub count : (E → Bool) → List E → ℕ
  count p [] = 0
  count p (x ∷ xs) = (if p x then 1 else 0) + count p xs

  pub count-append : (p : E → Bool) (xs ys : List E) → count p (xs ++ ys) ≡ count p xs + count p ys
  count-append p [] ys = omega arith
  count-append p (x ∷ xs) ys = omega (arith, count-append p xs ys)

  unfoldable pub in_hand : (E → Bool) → Worker E → ℕ
  in_hand p spawned = 0
  in_hand p receiving = 0
  in_hand p (working e) = if p e then 1 else 0
  in_hand p returned = 0

  -- The entries of the pipeline that pass a test, wherever they stand.
  unfoldable pub tally : (E → Bool) → System E → ℕ
  unfolding in_hand
  tally p s =
      sum_by (count p) s.unsent
      + count p s.channel
      + sum_by (in_hand p) s.workers
      + count p s.handled

  Step-tally : (p : E → Bool) {s t : System E} → Step s t → tally p t ≡ tally p s
  unfolding tally
  Step-tally p {s} (send i e rest at room) =
      omega (
        arith,
        sum_by-set (count p) s.unsent i (e ∷ rest) rest at,
        count-append p s.channel (e ∷ []),
      )
  Step-tally p {s} (start j at) =
      omega (arith, sum_by-set (in_hand p) s.workers j spawned receiving at)
  Step-tally p {s} (receive j e rest at front) =
      omega (arith, sum_by-set (in_hand p) s.workers j receiving (working e) at, ap (count p) front)
  Step-tally p {s} (handle j e at) = omega (
    arith,
    sum_by-set (in_hand p) s.workers j (working e) receiving at,
    count-append p s.handled (e ∷ []),
  )
  Step-tally p {s} (return j at empty closed) =
      omega (arith, sum_by-set (in_hand p) s.workers j receiving returned at)
  Step-tally p (close over fresh) = refl

  pub Reach-tally : (p : E → Bool) {s t : System E} → Reach s t → tally p t ≡ tally p s
  Reach-tally p here = refl
  Reach-tally p (next r st) = Step-tally p st ∙ Reach-tally p r

  pub sum_by-start_database_threads :
      (w : Worker E → ℕ) (n : ℕ) → w spawned ≡ 0 → sum_by w (start_database_threads n) ≡ 0
  unfolding start_database_threads
  sum_by-start_database_threads w zero h = refl
  sum_by-start_database_threads w (suc n) h = omega (arith, h, sum_by-start_database_threads w n h)

  pub tally-started :
      (p : E → Bool) (entries : List (List E)) (n : ℕ)
      → tally p (started entries n) ≡ sum_by (count p) entries
  unfolding tally started in_hand
  tally-started p entries n = omega (arith, sum_by-start_database_threads (in_hand p) n refl)

  -- The steps that a goroutine of insertCTWorker has before it, but for those of new entries.
  abbrev pub left_of : Worker E → ℕ
  left_of spawned = 2
  left_of receiving = 1
  left_of (working e) = 2
  left_of returned = 0

  -- An entry is sent, received and handled.
  unfoldable pub weight : System E → ℕ
  weight s =
      3 * sum_by length s.unsent
      + 2 * length s.channel
      + sum_by left_of s.workers
      + close_left s.closed

  Step-weight : {s t : System E} → Step s t → weight t + 1 ≡ weight s
  unfolding weight
  Step-weight {s} (send i e rest at room) =
      omega
        (arith, sum_by-set length s.unsent i (e ∷ rest) rest at, length-append s.channel (e ∷ []))
  Step-weight {s} (start j at) = omega (arith, sum_by-set left_of s.workers j spawned receiving at)
  Step-weight {s} (receive j e rest at front) =
      omega (arith, sum_by-set left_of s.workers j receiving (working e) at, ap length front)
  Step-weight {s} (handle j e at) =
      omega (arith, sum_by-set left_of s.workers j (working e) receiving at)
  Step-weight {s} (return j at empty closed) =
      omega (arith, sum_by-set left_of s.workers j receiving returned at)
  Step-weight {s} (close over fresh) = ground arith

  pub steps : {s t : System E} → Reach s t → ℕ
  steps here = 0
  steps (next r st) = steps r + 1

  pub Reach-weight : {s t : System E} (r : Reach s t) → steps r + weight t ≡ weight s
  unfolding steps
  Reach-weight here = omega arith
  Reach-weight (next r st) = omega (arith, Reach-weight r, Step-weight st)

  Step-length : {s t : System E} → Step s t → length t.workers ≡ length s.workers
  Step-length (send i e rest at room) = refl
  Step-length {s} (start j at) = length-set s.workers j receiving
  Step-length {s} (receive j e rest at front) = length-set s.workers j (working e)
  Step-length {s} (handle j e at) = length-set s.workers j receiving
  Step-length {s} (return j at empty closed) = length-set s.workers j returned
  Step-length (close over fresh) = refl

  pub Reach-length : {s t : System E} → Reach s t → length t.workers ≡ length s.workers
  Reach-length here = refl
  Reach-length (next r st) = Step-length st ∙ Reach-length r
