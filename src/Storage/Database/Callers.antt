-- ===== src/Storage/Database/Callers.antt =====
-- `GetIssuerMetadata` as several goroutines call it for one issuer: it gives up the read lock before it
-- takes the write lock, and does not look again.
use ct_mapreduce.Prelude.{
  ℕ, zero, suc, ◌+◌, ◌≤◌, Option, none, some, List, [], ◌∷◌, ◌++◌, append_assoc, append-nil, length,
  get_elem?, set, sum_by, sum_by-set, ◌≡◌, refl, ap, arith,
}

-- Where a caller stands: in front of the read lock, in front of the write lock, as the map had no
-- object, or behind the call, with an object that it was given.
pub data Caller : Type 0 where
  looking : Caller
  missed : Caller
  given : ℕ → Caller

-- The object at the issuer's identifier in the map, and how many were made: they are numbered.
pub record Meta : Type 0 where
  pub entry : Option ℕ
  pub objects : ℕ
  pub callers : List Caller

-- What a look into the map leads to.
unfoldable pub look : Option ℕ → Caller
look none = missed
look (some o) = given o

abbrev pub all_of : Caller → ℕ → List Caller
all_of c zero = []
all_of c (suc n) = c ∷ all_of c n

unfoldable pub called : ℕ → Meta
called n = record { entry = none; objects = 0; callers = all_of looking n }

-- What a caller does under one lock.
pub data Step (s : Meta) : Meta → Type 0 where
  looks :
      (j : ℕ)
      → get_elem? s.callers j ≡ some looking
      → Step s (record s { callers = set s.callers j (look s.entry) })
  makes :
      (j : ℕ)
      → get_elem? s.callers j ≡ some missed
      → Step s (record {
        entry = some s.objects;
        objects = s.objects + 1;
        callers = set s.callers j (given s.objects);
      })

pub data Reach (s : Meta) : Meta → Type 0 where
  here : Reach s s
  next : {t u : Meta} → Reach s t → Step t u → Reach s u

get_elem?-middle :
    {A : Type 0} (pre : List A) (x : A) (rest : List A)
    → get_elem? (pre ++ x ∷ rest) (length pre) ≡ some x
get_elem?-middle [] x rest = refl
get_elem?-middle (p ∷ pre) x rest = get_elem?-middle pre x rest

set-middle :
    {A : Type 0} (pre : List A) (x y : A) (rest : List A)
    → set (pre ++ x ∷ rest) (length pre) y ≡ (pre ++ y ∷ []) ++ rest
set-middle [] x y rest = refl
set-middle (p ∷ pre) x y rest = ap (◌∷◌ p) (set-middle pre x y rest)

-- `n` callers with the objects from `k` on.
abbrev pub given_from : ℕ → ℕ → List Caller
given_from k zero = []
given_from k (suc n) = given k ∷ given_from (k + 1) n

module _ (s0 : Meta) where
  all_look :
      (pre : List Caller) (n : ℕ)
      → Reach s0 (record { entry = none; objects = 0; callers = pre ++ all_of looking n })
      → Reach s0 (record { entry = none; objects = 0; callers = pre ++ all_of missed n })
  unfolding look
  all_look pre zero r = r
  all_look pre (suc n) r =
      let step = next r (looks (length pre) (get_elem?-middle pre looking (all_of looking n))) in
      let moved : Reach s0 (record {
        entry = none;
        objects = 0;
        callers = (pre ++ missed ∷ []) ++ all_of looking n;
      }) =
        rw (set-middle pre looking missed (all_of looking n)) at step in
      rw append_assoc at (all_look (pre ++ missed ∷ []) n moved)

  one_makes :
      (pre : List Caller) (k : ℕ) (rest : List Caller) (e : Option ℕ)
      → Reach s0 (record { entry = e; objects = k; callers = pre ++ missed ∷ rest })
      → Reach s0
          (record { entry = some k; objects = k + 1; callers = (pre ++ given k ∷ []) ++ rest })
  one_makes pre k rest e r =
      rw (set-middle pre missed (given k) rest) at
        (next r (makes (length pre) (get_elem?-middle pre missed rest)))

  all_make :
      (pre : List Caller) (k n : ℕ) (e : Option ℕ)
      → Reach s0 (record { entry = e; objects = k; callers = pre ++ all_of missed (suc n) })
      → Reach s0 (record {
        entry = some (k + n);
        objects = k + suc n;
        callers = pre ++ given_from k (suc n);
      })
  all_make pre k zero e r =
      let last : k + 0 ≡ k = omega arith in
      rw (last, ← append-nil (pre ++ given k ∷ [])) (one_makes pre k [] e r)
  all_make pre k (suc n) e r =
      let last : k + 1 + n ≡ k + suc n = omega arith in
      let made : k + 1 + suc n ≡ k + suc (suc n) = omega arith in
      let later =
        all_make (pre ++ given k ∷ []) (k + 1) n (some k)
          (one_makes pre k (all_of missed (suc n)) e r) in
      rw (last, made, append_assoc) at later

-- Of any number of callers that ask for the metadata of an issuer that the map does not have, at
-- least one, each may be given an object of its own: the map then has the last object, and no
-- other.
pub all_apart :
    (n : ℕ)
    → Reach
        (called (suc n))
        (record { entry = some n; objects = suc n; callers = given_from 0 (suc n) })
unfolding called
all_apart n =
    let looked = all_look (called (suc n)) [] (suc n) here in
    let made = all_make (called (suc n)) [] 0 n none looked in
    let last : 0 + n ≡ n = omega arith in
    let all : 0 + suc n ≡ suc n = omega arith in rw (last, all) at made

-- A caller that may still make an object.
abbrev may_make : Caller → ℕ
may_make looking = 1
may_make missed = 1
may_make (given o) = 0

-- The object that was made last.
abbrev pub latest : ℕ → Option ℕ
latest zero = none
latest (suc k) = some k

may_make-look : (e : Option ℕ) → may_make (look e) ≤ 1
unfolding look
may_make-look none = omega arith
may_make-look (some o) = omega arith

Step-bound :
    {s t : Meta} (n : ℕ)
    → Step s t
    → s.objects + sum_by may_make s.callers ≤ n
    → t.objects + sum_by may_make t.callers ≤ n
Step-bound {s} n (looks j at) h =
    omega
      (arith, h, sum_by-set may_make s.callers j looking (look s.entry) at, may_make-look s.entry)
Step-bound {s} n (makes j at) h =
    omega (arith, h, sum_by-set may_make s.callers j missed (given s.objects) at)

Step-latest : {s t : Meta} → Step s t → s.entry ≡ latest s.objects → t.entry ≡ latest t.objects
Step-latest (looks j at) h = h
Step-latest {s} (makes j at) h = let one : s.objects + 1 ≡ suc s.objects = omega arith in rw one

sum_by-all_of : (n : ℕ) → sum_by may_make (all_of looking n) ≡ n
sum_by-all_of zero = refl
sum_by-all_of (suc n) = omega (arith, sum_by-all_of n)

Reach-bound :
    (n : ℕ) {s : Meta}
    → Reach (called n) s
    → (s.objects + sum_by may_make s.callers ≤ n) × (s.entry ≡ latest s.objects)
unfolding called
Reach-bound n here = (omega (arith, sum_by-all_of n), refl)
Reach-bound n (next r st) =
    let (bound, last) = Reach-bound n r in (Step-bound n st bound, Step-latest st last)

-- In every state that any number of callers for one issuer reach, however their calls are
-- interleaved, no more objects are made than there are callers, and the map has the object that
-- was made last.
one_each : (n : ℕ) {s : Meta} → Reach (called n) s → (s.objects ≤ n) × (s.entry ≡ latest s.objects)
one_each n r = let (bound, last) = Reach-bound n r in (omega (arith, bound), last)
