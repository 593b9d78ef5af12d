-- ===== src/GoLib/Text.antt =====
-- Go's `strings`: prefixes, Split, TrimSpace and Contains, over bytes.
use ct_mapreduce.Prelude.{
  ℕ, zero, suc, ◌-◌, ◌||◌, ◌&&◌, ◌==◌, Bool, true, false, Bytes, bytes_eq, List, [], ◌∷◌, ◌++◌,
  length, All, ◌≡◌, refl, ◌∙◌, arith, if◌then◌else◌, append_assoc, leb, append-nil,
}

-- strings.HasPrefix(s, prefix)
unfoldable pub has_prefix : Bytes → Bytes → Bool
has_prefix s [] = true
has_prefix [] (p ∷ ps) = false
has_prefix (c ∷ s) (p ∷ ps) = c == p && has_prefix s ps

-- strings.HasSuffix(s, suffix)
unfoldable pub has_suffix : Bytes → Bytes → Bool
has_suffix [] suffix = bytes_eq [] suffix
has_suffix (c ∷ s) suffix = bytes_eq (c ∷ s) suffix || has_suffix s suffix

-- strings.TrimSuffix(s, suffix)
unfoldable pub trim_suffix : Bytes → Bytes → Bytes
trim_suffix [] suffix = []
trim_suffix (c ∷ s) suffix =
    let rest = trim_suffix s suffix in if bytes_eq (c ∷ s) suffix then [] else c ∷ rest

-- strings.Contains(s, sub)
unfoldable pub contains : Bytes → Bytes → Bool
contains [] sub = has_prefix [] sub
contains (c ∷ s) sub = has_prefix (c ∷ s) sub || contains s sub

-- The parts of `cur ++ s` between the occurrences of `sep`, where `skip` bytes of one are still to pass.
unfoldable pub split_loop : Bytes → ℕ → Bytes → Bytes → List Bytes
split_loop sep skip cur [] = cur ∷ []
split_loop sep (suc skip) cur (c ∷ s) = split_loop sep skip cur s
split_loop sep zero cur (c ∷ s) = elim (has_prefix (c ∷ s) sep) [
  | true ↦ cur ∷ split_loop sep (length sep - 1) [] s
  | false ↦ split_loop sep 0 (cur ++ c ∷ []) s
]

-- strings.Split(s, sep), for a `sep` that is not empty
unfoldable pub split : Bytes → Bytes → List Bytes
unfolding split_loop has_prefix
split s sep = split_loop sep 0 [] s

-- The ASCII part of unicode.IsSpace.
unfoldable pub is_space : ℕ → Bool
is_space c = c == 32 || (leb 9 c && leb c 13)

unfoldable pub trim_left : Bytes → Bytes
trim_left [] = []
trim_left (c ∷ s) = let rest = trim_left s in if is_space c then rest else c ∷ s

-- `c ∷ s` without its trailing spaces, where `s` has lost its own
unfoldable pub trim_cons : ℕ → Bytes → Bytes
trim_cons c [] = if is_space c then [] else c ∷ []
trim_cons c (d ∷ s) = c ∷ d ∷ s

unfoldable pub trim_right : Bytes → Bytes
trim_right [] = []
trim_right (c ∷ s) = trim_cons c (trim_right s)

-- strings.TrimSpace(s), for ASCII spaces
unfoldable pub trim_space : Bytes → Bytes
unfolding trim_left trim_right trim_cons is_space
trim_space s = trim_right (trim_left s)

-- The byte does not occur.
abbrev pub Lacks : ℕ → Bytes → Type 0
Lacks b s = All (λ c. (c == b) ≡ false) s

split_loop-Lacks :
    (b : ℕ) (bs cur s : Bytes) → Lacks b s → split_loop (b ∷ bs) 0 cur s ≡ (cur ++ s) ∷ []
unfolding split_loop has_prefix
split_loop-Lacks b bs cur [] h = rw append-nil
split_loop-Lacks b bs cur (c ∷ s) h =
    rw (h.0, split_loop, split_loop-Lacks b bs (cur ++ c ∷ []) s h.1, append_assoc)

has_prefix-append : (p s : Bytes) → has_prefix (p ++ s) p ≡ true
unfolding has_prefix
has_prefix-append [] s = refl
has_prefix-append (c ∷ p) s = ground (arith, has_prefix-append p s)

split_loop_skip :
    (sep cur d s : Bytes) → split_loop sep (length d) cur (d ++ s) ≡ split_loop sep 0 cur s
unfolding split_loop
split_loop_skip sep cur [] s = refl
split_loop_skip sep cur (c ∷ d) s = split_loop_skip sep cur d s

has_prefix_ne : (b c : ℕ) (bs s : Bytes) → (c == b) ≡ false → has_prefix (c ∷ s) (b ∷ bs) ≡ false
unfolding has_prefix
has_prefix_ne b c bs s h = rw h

suc_pred : (n : ℕ) → suc n - 1 ≡ n
suc_pred n = omega arith

split_loop_here :
    (b : ℕ) (bs cur r : Bytes)
    → split_loop (b ∷ bs) 0 cur ((b ∷ bs) ++ r) ≡ cur ∷ split_loop (b ∷ bs) 0 [] r
unfolding split_loop
split_loop_here b bs cur r =
    let p : has_prefix (b ∷ bs ++ r) (b ∷ bs) ≡ true = has_prefix-append (b ∷ bs) r in
    rw (p, split_loop, suc_pred (length bs), split_loop_skip (b ∷ bs) [] bs r)

split_loop_at :
    (b : ℕ) (bs cur a r : Bytes)
    → Lacks b a
    → split_loop (b ∷ bs) 0 cur (a ++ ((b ∷ bs) ++ r)) ≡ (cur ++ a) ∷ split_loop (b ∷ bs) 0 [] r
unfolding split_loop
split_loop_at b bs cur [] r h = rw append-nil (split_loop_here b bs cur r)
split_loop_at b bs cur (c ∷ a) r h =
    rw (has_prefix_ne b c bs (a ++ ((b ∷ bs) ++ r)) h.0, split_loop)
      (split_loop_at b bs (cur ++ c ∷ []) a r h.1 ∙ rw append_assoc)

-- The part in front of the first separator, and the parts of what follows it.
pub split_at_separator :
    (b : ℕ) (bs a r : Bytes)
    → Lacks b a
    → split (a ++ ((b ∷ bs) ++ r)) (b ∷ bs) ≡ a ∷ split r (b ∷ bs)
unfolding split
split_at_separator b bs a r h = split_loop_at b bs [] a r h

-- A text without the first byte of the separator is one part.
pub split-Lacks : (b : ℕ) (bs s : Bytes) → Lacks b s → split s (b ∷ bs) ≡ s ∷ []
unfolding split
split-Lacks b bs s h = split_loop-Lacks b bs [] s h

-- A text without the first byte of a suffix does not end in it.
pub has_suffix-Lacks : (b : ℕ) (bs s : Bytes) → Lacks b s → has_suffix s (b ∷ bs) ≡ false
unfolding has_suffix bytes_eq
has_suffix-Lacks b bs [] h = refl
has_suffix-Lacks b bs (c ∷ s) h = ground (arith, has_suffix-Lacks b bs s h.1)
