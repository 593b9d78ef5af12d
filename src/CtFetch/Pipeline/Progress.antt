-- ===== src/CtFetch/Pipeline/Progress.antt =====
-- The pipeline comes to its end.
use ct_mapreduce.Prelude.{
  ℕ, zero, suc, ◌+◌, ◌*◌, ◌<◌, ◌≤◌, Bool-cases, List, [], ◌∷◌, length, some, get_elem?, sum_by,
  sum_by-pos, pos_or_zero, ◌≡◌, refl, ap, arith, inl, inr, ◌⊎◌,
}
use ct_mapreduce.CtFetch.Pipeline.{
  Worker, spawned, receiving, working, returned, System, Step, send, start, receive, handle, return,
  close, Reach, Exits, waited_for, start_database_threads, started,
}
use ct_mapreduce.CtFetch.Pipeline.Counting.{weight, steps, Reach-weight, Reach-length, left_of}
use ct_mapreduce.CtFetch.Pipeline.Exit.{IsOrderly, Reach-IsOrderly, has_returned}
use ct_mapreduce.CtFetch.Pipeline.Flight.{length-start_database_threads}

List-cases {ℓ} :
    {A : Type ℓ} (xs : List A) → (xs ≡ []) ⊎ ((x : A) × (rest : List A) × (xs ≡ x ∷ rest))
List-cases [] = inl refl
List-cases (x ∷ rest) = inr (x, rest, refl)

left_of-threads : (E : Type 0) (n : ℕ) → sum_by (left_of {E = E}) (start_database_threads n) ≡ 2 * n
unfolding start_database_threads
left_of-threads E zero = refl
left_of-threads E (suc n) = omega (arith, left_of-threads E n)

module _ {E : Type 0} where
  -- What a download can do that has something left.
  pub to_send :
      (s : System E)
      → 0 < sum_by length s.unsent
      → (i : ℕ) × (e : E) × (rest : List E) × (get_elem? s.unsent i ≡ some (e ∷ rest))
  to_send s h =
      let (i, xs, at, some_left) = sum_by-pos length s.unsent h in
      elim (List-cases xs) [
        | inl empty ↦ absurd (omega (arith, ap length empty))
        | inr (e, rest, full) ↦ (i, e, rest, rw full at at)
      ]

  -- A worker at the receive of its loop goes on, or another goroutine does.
  receiver :
      (s : System E) (j : ℕ) → get_elem? s.workers j ≡ some receiving → (t : System E) × Step s t
  receiver s j at = elim (List-cases s.channel) [
    | inr (e, rest, front) ↦ (_, receive j e rest at front)
    | inl empty ↦ elim (Bool-cases s.closed) [
      | inl closed ↦ (_, return j at empty closed)
      | inr fresh ↦ elim (pos_or_zero (sum_by length s.unsent)) [
        | inr over ↦ (_, close over fresh)
        | inl more ↦
            let (i, e, rest, at_i) = to_send s more in
            (_, send i e rest at_i (omega (arith, ap length empty)))
      ]
    ]
  ]

  worker :
      (s : System E) (j : ℕ) (w : Worker E)
      → get_elem? s.workers j ≡ some w
      → 0 < waited_for w
      → (t : System E) × Step s t
  worker s j spawned at h = absurd (omega arith)
  worker s j receiving at h = receiver s j at
  worker s j (working e) at h = (_, handle j e at)
  worker s j returned at h = absurd (omega arith)

  abbrev is_spawned : Worker E → ℕ
  is_spawned spawned = 1
  is_spawned receiving = 0
  is_spawned (working e) = 0
  is_spawned returned = 0

  three_kinds :
      (ws : List (Worker E))
      → length ws ≡ sum_by is_spawned ws + sum_by waited_for ws + sum_by has_returned ws
  three_kinds [] = refl
  three_kinds (spawned ∷ ws) = omega (arith, three_kinds ws)
  three_kinds (receiving ∷ ws) = omega (arith, three_kinds ws)
  three_kinds (working e ∷ ws) = omega (arith, three_kinds ws)
  three_kinds (returned ∷ ws) = omega (arith, three_kinds ws)

  starter :
      (s : System E) (j : ℕ) (w : Worker E)
      → get_elem? s.workers j ≡ some w
      → 0 < is_spawned w
      → (t : System E) × Step s t
  starter s j spawned at h = (_, start j at)
  starter s j receiving at h = absurd (omega arith)
  starter s j (working e) at h = absurd (omega arith)
  starter s j returned at h = absurd (omega arith)

  goes_on :
      (s : System E) → IsOrderly s → 0 < length s.workers → Exits s ⊎ ((t : System E) × Step s t)
  goes_on s o one = elim (pos_or_zero (sum_by waited_for s.workers)) [
    | inl busy ↦
        let (j, w, at, counts) = sum_by-pos waited_for s.workers busy in
        inr (worker s j w at counts)
    | inr quiet ↦ elim (Bool-cases s.closed) [
      | inl closed ↦ inl (record { stopped = closed; none_counted = quiet })
      | inr fresh ↦ elim (pos_or_zero (sum_by has_returned s.workers)) [
        | inl gone ↦ let (closed, empty) = o.run_empty gone in cc
        | inr none_gone ↦
            let (j, w, at, first) =
              sum_by-pos is_spawned s.workers (omega (arith, three_kinds s.workers)) in
            inr (starter s j w at first)
      ]
    ]
  ]

  length-threads :
      (entries : List (List E)) (n : ℕ)
      → (weight (started entries n) ≡ 3 * sum_by length entries + 2 * n + 1)
        × (length (started entries n).workers ≡ n)
  unfolding weight started
  length-threads entries n = (omega (arith, left_of-threads E n), length-start_database_threads E n)

  -- With one thread or more: in no order do the goroutines take more than three steps for each
  -- entry, two for each thread and one; and in every state that they reach the process ends, or
  -- some goroutine can take a step.
  pub pipeline_ends :
      (entries : List (List E)) (num_threads : ℕ) {s : System E}
      → (r : Reach (started entries num_threads) s) → 0 < num_threads
      → (steps r ≤ 3 * sum_by length entries + 2 * num_threads + 1)
        × (Exits s ⊎ ((t : System E) × Step s t))
  pipeline_ends entries num_threads {s} r one =
      let (heavy, many) = length-threads entries num_threads in
      (
        omega (arith, Reach-weight r, heavy),
        goes_on s (Reach-IsOrderly entries num_threads r) (omega (arith, Reach-length r, many)),
      )
