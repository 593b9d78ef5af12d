-- ===== src/Prelude/Lists.antt =====
-- Lists measured and indexed by native numbers, under the library's names.
use Prim.Native.Nat.{ℕ, zero, suc, ◌+◌, ◌<◌, ◌≤◌}
use mathlib.Core.Logic.{◌⊎◌, inl, inr}
use mathlib.Core.Path.{◌≡◌, refl, ap}
use mathlib.Core.List.{List, [], ◌∷◌, ◌++◌}
use mathlib.Core.Option.{Option, none, some}
use native.Mathlib.Omega.{arith}

module _ {ℓ} {A : Type ℓ} where
  abbrev pub length : List A → ℕ
  length [] = 0
  length (x ∷ xs) = suc (length xs)

  abbrev pub get_elem? : List A → ℕ → Option A
  get_elem? [] i = none
  get_elem? (x ∷ xs) zero = some x
  get_elem? (x ∷ xs) (suc i) = get_elem? xs i

  -- A write out of bounds changes nothing.
  abbrev pub set : List A → ℕ → A → List A
  set [] i v = []
  set (x ∷ xs) zero v = v ∷ xs
  set (x ∷ xs) (suc i) v = x ∷ set xs i v

  abbrev pub sum_by : (A → ℕ) → List A → ℕ
  sum_by w [] = 0
  sum_by w (x ∷ xs) = w x + sum_by w xs

  abbrev pub get_or : List A → ℕ → A → A
  get_or [] i d = d
  get_or (x ∷ xs) zero d = x
  get_or (x ∷ xs) (suc i) d = get_or xs i d

  abbrev pub take : ℕ → List A → List A
  take zero xs = []
  take (suc n) [] = []
  take (suc n) (x ∷ xs) = x ∷ take n xs

  abbrev pub drop : ℕ → List A → List A
  drop zero xs = xs
  drop (suc n) [] = []
  drop (suc n) (x ∷ xs) = drop n xs

  pub length-append : (xs ys : List A) → length (xs ++ ys) ≡ length xs + length ys
  length-append [] ys = omega arith
  length-append (x ∷ xs) ys = omega (arith, length-append xs ys)

  pub take-append-drop : (n : ℕ) (xs : List A) → take n xs ++ drop n xs ≡ xs
  take-append-drop zero xs = refl
  take-append-drop (suc n) [] = refl
  take-append-drop (suc n) (x ∷ xs) = ap (◌∷◌ x) (take-append-drop n xs)

pub pos_or_zero : (n : ℕ) → (0 < n) ⊎ (n ≡ 0)
pos_or_zero zero = inr refl
pos_or_zero (suc n) = inl (omega arith)

-- An element that is written over takes its share with it.
pub sum_by-set {ℓ} :
    {A : Type ℓ} (w : A → ℕ) (xs : List A) (i : ℕ) (x y : A)
    → get_elem? xs i ≡ some x
    → sum_by w (set xs i y) + w x ≡ sum_by w xs + w y
sum_by-set w [] i x y h = cc
sum_by-set w (a ∷ xs) zero x y h = ground arith
sum_by-set w (a ∷ xs) (suc i) x y h = omega (arith, sum_by-set w xs i x y h)

pub length-set {ℓ} : {A : Type ℓ} (xs : List A) (i : ℕ) (y : A) → length (set xs i y) ≡ length xs
length-set [] i y = refl
length-set (x ∷ xs) zero y = refl
length-set (x ∷ xs) (suc i) y = ap suc (length-set xs i y)

-- A share is no larger than the sum.
pub le-sum_by {ℓ} :
    {A : Type ℓ} (w : A → ℕ) (xs : List A) (i : ℕ) (x : A)
    → get_elem? xs i ≡ some x
    → w x ≤ sum_by w xs
le-sum_by w [] i x h = cc
le-sum_by w (a ∷ xs) zero x h = ground arith
le-sum_by w (a ∷ xs) (suc i) x h = omega (arith, le-sum_by w xs i x h)

pub sum_by-le {ℓ} :
    {A : Type ℓ} (v w : A → ℕ) (xs : List A) → ((x : A) → v x ≤ w x) → sum_by v xs ≤ sum_by w xs
sum_by-le v w [] h = omega arith
sum_by-le v w (x ∷ xs) h = omega (arith, h x, sum_by-le v w xs h)

-- Where a sum is not 0, neither is some share.
pub sum_by-pos {ℓ} :
    {A : Type ℓ} (w : A → ℕ) (xs : List A)
    → 0 < sum_by w xs
    → (i : ℕ) × (x : A) × (get_elem? xs i ≡ some x) × (0 < w x)
sum_by-pos w [] h = absurd (omega arith)
sum_by-pos w (x ∷ xs) h = elim (pos_or_zero (w x)) [
  | inl p ↦ (0, x, refl, p)
  | inr z ↦ let (i, y, at, p) = sum_by-pos w xs (omega (arith, z)) in (suc i, y, at, p)
]

-- A predicate that holds of every element.
abbrev pub All {ℓ κ} : {A : Type ℓ} → (A → Type κ) → List A → Type κ
All P [] = Unit
All P (x ∷ xs) = P x × All P xs

pub All-append {ℓ κ} :
    {A : Type ℓ} (P : A → Type κ) (xs ys : List A) → All P xs → All P ys → All P (xs ++ ys)
All-append P [] ys hx hy = hy
All-append P (x ∷ xs) ys hx hy = (hx.0, All-append P xs ys hx.1 hy)

-- Where two lists end in parts of one length, they are equal in both parts.
pub append-injective {ℓ} :
    {A : Type ℓ} (a b c d : List A) → length b ≡ length d → a ++ b ≡ c ++ d → (a ≡ c) × (b ≡ d)
append-injective [] b [] d h e = (refl, e)
append-injective [] b (x ∷ c) d h e = absurd (omega (arith, h, ap length e, length-append c d))
append-injective (x ∷ a) b [] d h e = absurd (omega (arith, h, ap length e, length-append a b))
append-injective (x ∷ a) b (y ∷ c) d h e =
    let tails : a ++ b ≡ c ++ d = cc in
    let (one, two) = append-injective a b c d h tails in let heads : x ≡ y = cc in (cc, two)
