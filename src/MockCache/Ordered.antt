-- ===== src/MockCache/Ordered.antt =====
-- Ascending lists of entries: the binary search of the mock cache finds an entry's place in them.
use ct_mapreduce.Prelude.{
  ℕ, zero, suc, ◌≤◌, ◌<◌, Bool, true, false, Bytes, bytes_eq, member, bytes_eq_iff, compare_bytes,
  compare_bytes-eq_sound, compare_bytes_self, compare_bytes_trans, List, [], ◌∷◌, length, get_or,
  All, Ordering, ◌≡◌, refl, arith, ltb, if◌then◌else◌, Bool-cases, inl, inr,
}
use ct_mapreduce.GoLib.Search.{IsFirst, search_index-IsFirst}
use ct_mapreduce.MockCache.{at_most, search_entry, found_at}

-- Strictly ascending in the order of strings.Compare.
abbrev pub IsAscending : List Bytes → Type 0
IsAscending [] = Unit
IsAscending (x ∷ xs) = All (λ y. compare_bytes x y ≡ Ordering.lt) xs × IsAscending xs

-- How many entries at the front lie below `e`.
unfoldable pub rank : Bytes → List Bytes → ℕ
rank e [] = 0
rank e (x ∷ xs) = if at_most e x then 0 else suc (rank e xs)

at_most_above :
    (e x y : Bytes)
    → compare_bytes x y ≡ Ordering.lt
    → at_most e x ≡ true
    → compare_bytes e y ≡ Ordering.lt
unfolding at_most
at_most_above e x y lt h = ground (arith, compare_bytes_trans e x y, compare_bytes-eq_sound e x)

pub All-above :
    (e x : Bytes) (l : List Bytes)
    → All (λ y. compare_bytes x y ≡ Ordering.lt) l
    → at_most e x ≡ true
    → All (λ y. compare_bytes e y ≡ Ordering.lt) l
All-above e x [] a h = tt
All-above e x (y ∷ l) a h = (at_most_above e x y a.0 h, All-above e x l a.1 h)

at_most_of_lt : (e y : Bytes) → compare_bytes e y ≡ Ordering.lt → at_most e y ≡ true
unfolding at_most
at_most_of_lt e y h = rw (h, at_most)

All-at_most :
    (e : Bytes) (l : List Bytes) (m : ℕ)
    → All (λ y. compare_bytes e y ≡ Ordering.lt) l
    → m < length l
    → at_most e (get_or l m []) ≡ true
All-at_most e [] m a h = absurd (omega arith)
All-at_most e (y ∷ l) zero a h = at_most_of_lt e y a.0
All-at_most e (y ∷ l) (suc m) a h = All-at_most e l m a.1 (omega arith)

rank-le : (e : Bytes) (l : List Bytes) → rank e l ≤ length l
unfolding rank
rank-le e [] = omega arith
rank-le e (x ∷ xs) = ground (arith, rank-le e xs)

below_rank : (e : Bytes) (l : List Bytes) (m : ℕ) → m < rank e l → at_most e (get_or l m []) ≡ false
unfolding rank
below_rank e [] m h = absurd (omega arith)
below_rank e (x ∷ xs) zero h = ground arith
below_rank e (x ∷ xs) (suc m) h = ground (arith, below_rank e xs m)

from_rank :
    (e : Bytes) (l : List Bytes) (m : ℕ)
    → IsAscending l
    → rank e l ≤ m
    → m < length l
    → at_most e (get_or l m []) ≡ true
unfolding rank
from_rank e [] m a h k = absurd (omega arith)
from_rank e (x ∷ xs) zero a h k = ground arith
from_rank e (x ∷ xs) (suc m) a h k = elim (Bool-cases (at_most e x)) [
  | inl p ↦ All-at_most e xs m (All-above e x xs a.0 p) (omega arith)
  | inr p ↦ from_rank e xs m a.1 (ground arith) (omega arith)
]

-- The test of the search stays true once it is true.
at_most_mono :
    (e : Bytes) (l : List Bytes)
    → IsAscending l
    → (i j : ℕ) → i ≤ j
    → j < length l
    → at_most e (get_or l i []) ≡ true
    → at_most e (get_or l j []) ≡ true
at_most_mono e l a i j ij jn h = elim (Bool-cases (leb_rank i)) [
  | inl p ↦ from_rank e l j a (ground arith) jn
  | inr p ↦ cc (below_rank e l i (ground arith))
]
  where
    leb_rank : ℕ → Bool
    leb_rank i = if ltb i (rank e l) then false else true

IsFirst-unique : (f : ℕ → Bool) (n : ℕ) {j k : ℕ} → IsFirst f n j → IsFirst f n k → j ≡ k
IsFirst-unique f n {j} {k} p q =
    grind (arith, p.misses k, p.holds k, q.misses j, q.holds j, p.within, q.within)

-- The binary search finds the number of entries below `e`.
pub search_entry-rank : (e : Bytes) (l : List Bytes) → IsAscending l → search_entry e l ≡ rank e l
unfolding search_entry
search_entry-rank e l a =
    IsFirst-unique (λ i. at_most e (get_or l i [])) (length l)
      (search_index-IsFirst (λ i. at_most e (get_or l i [])) (length l) (at_most_mono e l a))
      (record {
        within = rank-le e l;
        misses = below_rank e l;
        holds = λ m h k. from_rank e l m a h k;
      })

at_most_self : (e x : Bytes) → at_most e x ≡ false → bytes_eq e x ≡ false
unfolding at_most
at_most_self e x p = ground (arith, bytes_eq_iff e x, compare_bytes_self e)

not_member_above :
    (e : Bytes) (l : List Bytes) → All (λ y. compare_bytes e y ≡ Ordering.lt) l → member e l ≡ false
unfolding member
not_member_above e [] a = refl
not_member_above e (y ∷ l) a =
    ground (arith, bytes_eq_iff e y, compare_bytes_self e, a.0, not_member_above e l a.1)

-- At the place of `e` the comparison of the source finds `e` exactly when it is in the list.
pub found_at-rank :
    (e : Bytes) (l : List Bytes) → IsAscending l → found_at e l (rank e l) ≡ member e l
unfolding found_at rank member
found_at-rank e [] a = refl
found_at-rank e (x ∷ xs) a = elim (Bool-cases (at_most e x)) [
  | inl p ↦ ground (arith, above p)
  | inr p ↦ ground (arith, found_at-rank e xs a.1, at_most_self e x p)
]
  where
    above : at_most e x ≡ true → member e xs ≡ false
    above p = not_member_above e xs (All-above e x xs a.0 p)
