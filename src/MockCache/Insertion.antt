-- ===== src/MockCache/Insertion.antt =====
-- What an insertion at an index and the removal of the source do to a list.
use ct_mapreduce.Prelude.{
  ℕ, zero, suc, true, false, ◌||◌, Bytes, bytes_eq, member, bytes_eq_iff, compare_bytes,
  compare_bytes_flip, compare_bytes-eq_sound, List, [], ◌∷◌, length, take-append-drop, All,
  Ordering, ◌≡◌, refl, arith, Bool-cases, inl, inr, ◌+◌,
}
use ct_mapreduce.MockCache.{at_most, insert_at, remove_at}
use ct_mapreduce.MockCache.Ordered.{IsAscending, rank, All-above}

-- Writing a list without its middle element copies it whole: nothing is removed.
pub remove_at_lem : (idx : ℕ) (l : List Bytes) → remove_at idx l ≡ l
unfolding remove_at
remove_at_lem idx l = take-append-drop idx l

length-insert_at : (i : ℕ) (e : Bytes) (l : List Bytes) → length (insert_at i e l) ≡ length l + 1
unfolding insert_at
length-insert_at zero e l = omega arith
length-insert_at (suc i) e [] = refl
length-insert_at (suc i) e (x ∷ l) = omega (arith, length-insert_at i e l)

pub member-insert_at :
    (i : ℕ) (e x : Bytes) (l : List Bytes)
    → member x (insert_at i e l) ≡ (bytes_eq x e || member x l)
unfolding insert_at member
member-insert_at zero e x l = refl
member-insert_at (suc i) e x [] = refl
member-insert_at (suc i) e x (y ∷ l) = ground (arith, member-insert_at i e x l)

All-insert_at {κ} :
    (P : Bytes → Type κ) (i : ℕ) (e : Bytes) (l : List Bytes)
    → P e
    → All P l
    → All P (insert_at i e l)
unfolding insert_at
All-insert_at P zero e l h a = (h, a)
All-insert_at P (suc i) e [] h a = (h, a)
All-insert_at P (suc i) e (x ∷ l) h a = (a.0, All-insert_at P i e l h a.1)

lt_of_not-at_most : (e x : Bytes) → at_most e x ≡ false → compare_bytes x e ≡ Ordering.lt
unfolding at_most
lt_of_not-at_most e x h = ground (arith, compare_bytes_flip x e)

lt_of_at_most :
    (e x : Bytes) → at_most e x ≡ true → bytes_eq e x ≡ false → compare_bytes e x ≡ Ordering.lt
unfolding at_most
lt_of_at_most e x h k = ground (arith, bytes_eq_iff e x, compare_bytes-eq_sound e x)

-- An entry that is not in an ascending list is inserted at its place in the order.
pub insert_at-IsAscending :
    (e : Bytes) (l : List Bytes)
    → IsAscending l
    → member e l ≡ false
    → IsAscending (insert_at (rank e l) e l)
unfolding insert_at rank member
insert_at-IsAscending e [] a h = (tt, tt)
insert_at-IsAscending e (x ∷ xs) a h = elim (Bool-cases (at_most e x)) [
  | inl p ↦ rw p (
      let lt : compare_bytes e x ≡ Ordering.lt = lt_of_at_most e x p (ground arith) in
      ((lt, All-above e x xs a.0 p), a))
  | inr p ↦ rw p (
      unfold insert_at in
      (
        All-insert_at (λ y. compare_bytes x y ≡ Ordering.lt) (rank e xs) e xs
            (lt_of_not-at_most e x p) a.0,
        insert_at-IsAscending e xs a.1 (ground arith),
      ))
]
