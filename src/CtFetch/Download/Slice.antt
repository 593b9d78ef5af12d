-- ===== src/CtFetch/Download/Slice.antt =====
-- The entries that the channel is to receive of a stretch of a log.
use ct_mapreduce.Prelude.{
  ℕ, zero, suc, ◌+◌, List, [], ◌∷◌, ◌++◌, append_assoc, append-nil, Result, ok, err, Bytes, ◌≡◌, ap,
  ◌∙◌, arith,
}
use native.Mathlib.Nat.{add-zero, zero-add, add-suc, suc-add}
use ct_mapreduce.Certificate.{LogEntry}
use ct_mapreduce.CtFetch.Download.Types.{CtLogEntry}

module _ {Leaf : Type 0} (parse : ℕ → Leaf → Result LogEntry) (log_url : Bytes)
    (log : ℕ → Leaf) where
  -- The entry at a position of the log, none if it cannot be parsed.
  unfoldable pub entry_at : ℕ → List CtLogEntry
  entry_at i = elim (parse i (log i)) [
    | err e ↦ []
    | ok entry ↦ record { log_entry = entry; log_url = log_url } ∷ []
  ]

  -- The entries of `n` positions from `i` on.
  unfoldable pub wanted : ℕ → ℕ → List CtLogEntry
  wanted i zero = []
  wanted i (suc n) = entry_at i ++ wanted (suc i) n

  -- `n` leaves of the log from `i` on
  unfoldable pub leaves_from : ℕ → ℕ → List Leaf
  leaves_from i zero = []
  leaves_from i (suc n) = log i ∷ leaves_from (suc i) n

  pub wanted-suc : (i n : ℕ) → wanted i (suc n) ≡ wanted i n ++ entry_at (i + n)
  unfolding wanted
  wanted-suc i zero = rw (append-nil, add-zero)
  wanted-suc i (suc n) =
      ap (λ l. entry_at i ++ l) (wanted-suc (suc i) n) ∙ rw (add-suc, suc-add, append_assoc)

  pub wanted-append : (i m n : ℕ) → wanted i (m + n) ≡ wanted i m ++ wanted (i + m) n
  unfolding wanted
  wanted-append i zero n = rw (zero-add, add-zero)
  wanted-append i (suc m) n =
      let shift : suc i + m ≡ i + suc m = omega arith in
      rw suc-add (ap (λ l. entry_at i ++ l) (wanted-append (suc i) m n) ∙ rw (append_assoc, shift))
