-- ===== src/GoLib/Assoc.antt =====
-- Go's `map[string]V` as an association list. A new key goes to the end.
use ct_mapreduce.Prelude.{
  Bytes, bytes_eq, bytes_eq_iff, bytes_eq_refl, ◌≡◌, refl, Option, none, some, List, [], ◌∷◌, arith,
  if◌then◌else◌, All, Bool-cases, inl, inr,
}

module _ {ℓ} {V : Type ℓ} where
  unfoldable pub lookup : Bytes → List (Bytes × V) → Option V
  lookup k [] = none
  lookup k ((j, v) ∷ m) = if bytes_eq j k then some v else lookup k m

  -- m[k] = v
  unfoldable pub put : Bytes → V → List (Bytes × V) → List (Bytes × V)
  put k v [] = (k, v) ∷ []
  put k v ((j, w) ∷ m) = if bytes_eq j k then (k, v) ∷ m else (j, w) ∷ put k v m

  -- delete(m, k)
  unfoldable pub delete : Bytes → List (Bytes × V) → List (Bytes × V)
  delete k [] = []
  delete k ((j, w) ∷ m) = let rest = delete k m in if bytes_eq j k then rest else (j, w) ∷ rest

  pub lookup-put :
      (k j : Bytes) (v : V) (m : List (Bytes × V))
      → lookup j (put k v m) ≡ (if bytes_eq k j then some v else lookup j m)
  unfolding lookup put
  lookup-put k j v [] = refl
  lookup-put k j v ((i, w) ∷ m) =
      ground (arith, bytes_eq_iff k j, bytes_eq_iff i k, bytes_eq_iff i j, lookup-put k j v m)

  pub lookup-put_self : (k : Bytes) (v : V) (m : List (Bytes × V)) → lookup k (put k v m) ≡ some v
  lookup-put_self k v m = simp (lookup-put, bytes_eq_refl)

  pub lookup-delete :
      (k j : Bytes) (m : List (Bytes × V))
      → lookup j (delete k m) ≡ (if bytes_eq k j then none else lookup j m)
  unfolding lookup delete
  lookup-delete k j [] = ground arith
  lookup-delete k j ((i, w) ∷ m) =
      ground (arith, bytes_eq_iff k j, bytes_eq_iff i k, bytes_eq_iff i j, lookup-delete k j m)

-- What holds of every entry.
pub lookup-All {ℓ} :
    {V : Type 0} (P : Bytes × V → Type ℓ) (k : Bytes) (v : V) (m : List (Bytes × V))
    → All P m
    → lookup k m ≡ some v
    → P (k, v)
unfolding lookup
lookup-All P k v [] h at = cc
lookup-All P k v ((j, w) ∷ m) h at = elim (Bool-cases (bytes_eq j k)) [
  | inl same ↦
      let key : j ≡ k = (bytes_eq_iff j k).0 same in
      let found : some w ≡ some v = rw (same, lookup) at at in
      let value : w ≡ v = cc in rw (← key, ← value) h.0
  | inr other ↦ lookup-All P k v m h.1 (rw (other, lookup) at at)
]

pub put-All {ℓ} :
    {V : Type 0} (P : Bytes × V → Type ℓ) (k : Bytes) (v : V) (m : List (Bytes × V))
    → P (k, v)
    → All P m
    → All P (put k v m)
unfolding put
put-All P k v [] p h = (p, tt)
put-All P k v ((j, w) ∷ m) p h = elim (Bool-cases (bytes_eq j k)) [
  | inl same ↦ rw (same, put) (p, h.1)
  | inr other ↦ rw (other, put) (h.0, put-All P k v m p h.1)
]
