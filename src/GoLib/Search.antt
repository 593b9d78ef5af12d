-- ===== src/GoLib/Search.antt =====
-- Go's `sort.Search`: the binary search for the first index at which a test holds.
use ct_mapreduce.Prelude.{
  ℕ, zero, suc, ◌+◌, ◌/◌, ◌≤◌, ◌<◌, ◌≡◌, Bool, true, false, ltb, inl, inr, Bool-cases, arith,
}

-- `for i < j { h := int(uint(i+j) >> 1); … }` with a round of fuel for each step.
unfoldable pub search_loop : ℕ → (ℕ → Bool) → ℕ → ℕ → ℕ
search_loop zero f i j = i
search_loop (suc fuel) f i j = elim (ltb i j) [
  | false ↦ i
  | true ↦ elim (f ((i + j) / 2)) [
    | true ↦ search_loop fuel f i ((i + j) / 2)
    | false ↦ search_loop fuel f ((i + j) / 2 + 1) j
  ]
]

-- sort.Search(n, f). The interval shrinks in each round, so `n` rounds are enough.
unfoldable pub search_index : ℕ → (ℕ → Bool) → ℕ
unfolding search_loop
search_index n f = search_loop n f 0 n

-- `k` is the first index below `n` at which `f` holds, or `n`.
pub record IsFirst (f : ℕ → Bool) (n k : ℕ) : Type 0 where
  pub within : k ≤ n
  pub misses : (m : ℕ) → m < k → f m ≡ false
  pub holds : (m : ℕ) → k ≤ m → m < n → f m ≡ true

module _ (f : ℕ → Bool) (n : ℕ) (mono : (i j : ℕ) → i ≤ j → j < n → f i ≡ true → f j ≡ true) where
  false_below : (h m : ℕ) → h < n → f h ≡ false → m < h + 1 → f m ≡ false
  false_below h m lt miss le = elim (Bool-cases (f m)) [
    | inl hit ↦ cc (mono m h (omega arith) lt hit)
    | inr e ↦ e
  ]

  search_loop-IsFirst :
      (fuel i j : ℕ)
      → i ≤ j
      → j ≤ n
      → j ≤ i + fuel
      → ((m : ℕ) → m < i → f m ≡ false)
      → ((m : ℕ) → j ≤ m → m < n → f m ≡ true)
      → IsFirst f n (search_loop fuel f i j)
  unfolding search_loop
  search_loop-IsFirst zero i j ij jn enough low high = record {
    within = omega arith;
    misses = low;
    holds = λ m h k. high m (omega arith) k;
  }
  search_loop-IsFirst (suc fuel) i j ij jn enough low high = elim (Bool-cases (ltb i j)) [
    | inr stop ↦
        rw (stop, search_loop)
          (record { within = ground arith; misses = low; holds = λ m h k. high m (ground arith) k })
    | inl go ↦
        rw (go, search_loop)
          (elim (Bool-cases (f ((i + j) / 2))) [
            | inl hit ↦
                rw (hit, search_loop)
                  (search_loop-IsFirst fuel i ((i + j) / 2) (ground arith) (ground arith)
                    (ground arith) low (λ m h k. mono ((i + j) / 2) m h k hit))
            | inr miss ↦
                rw (miss, search_loop)
                  (search_loop-IsFirst fuel ((i + j) / 2 + 1) j (ground arith) jn (ground arith)
                    (λ m h. false_below ((i + j) / 2) m (ground arith) miss h) high)
          ])
  ]

  -- On a test that stays true once it is true, `sort.Search` returns the first index at which it holds.
  pub search_index-IsFirst : IsFirst f n (search_index n f)
  unfolding search_index
  search_index-IsFirst =
      search_loop-IsFirst n 0 n (omega arith) (omega arith) (omega arith)
        (λ m h. absurd (omega arith)) (λ m h k. absurd (omega arith))
