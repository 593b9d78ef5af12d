-- ===== src/Telemetry.antt =====
-- telemetry/telemetry.go: the names under which the metrics are dumped.
pub mod Dump
use ct_mapreduce.Prelude.{
  ℕ, false, ◌==◌, ◌||◌, Bytes, bytes, List, [], ◌∷◌, ◌++◌, map, ◌≡◌, refl, sym, append-nil,
  append_assoc, arith, if◌then◌else◌,
}
use ct_mapreduce.GoLib.Text.{Lacks}

-- strings.NewReplacer(" ", "_", ":", "_"), at a byte
unfoldable pub replaced : ℕ → ℕ
replaced c = if c == 32 || c == 58 then 95 else c

abbrev pub replace : Bytes → Bytes
replace s = map replaced s

-- The labels of a metric are their values.
unfoldable pub flatten_labels : Bytes → List Bytes → Bytes
flatten_labels name [] = name
flatten_labels name (label ∷ labels) =
    flatten_labels (name ++ replace (bytes ".") ++ replace label) labels

-- What stands behind the name.
abbrev suffix_of : List Bytes → Bytes
suffix_of [] = []
suffix_of (label ∷ labels) = replace (bytes ".") ++ (replace label ++ suffix_of labels)

append-Lacks : (b : ℕ) (s t : Bytes) → Lacks b s → Lacks b t → Lacks b (s ++ t)
append-Lacks b [] t h k = k
append-Lacks b (c ∷ s) t h k = (h.0, append-Lacks b s t h.1 k)

module _ (b : ℕ) (gone : (c : ℕ) → (replaced c == b) ≡ false) where
  replace-Lacks : (s : Bytes) → Lacks b (replace s)
  replace-Lacks [] = tt
  replace-Lacks (c ∷ s) = (gone c, replace-Lacks s)

  suffix_of-Lacks : (labels : List Bytes) → Lacks b (suffix_of labels)
  suffix_of-Lacks [] = tt
  suffix_of-Lacks (label ∷ labels) =
      append-Lacks b (replace (bytes ".")) (replace label ++ suffix_of labels)
        (replace-Lacks (bytes "."))
        (append-Lacks b (replace label) (suffix_of labels) (replace-Lacks label)
          (suffix_of-Lacks labels))

no_blank : (c : ℕ) → (replaced c == 32) ≡ false
unfolding replaced
no_blank c = ground arith

no_colon : (c : ℕ) → (replaced c == 58) ≡ false
unfolding replaced
no_colon c = ground arith

flatten_labels-append :
    (name : Bytes) (labels : List Bytes) → flatten_labels name labels ≡ name ++ suffix_of labels
unfolding flatten_labels
flatten_labels-append name [] = sym (append-nil name)
flatten_labels-append name (label ∷ labels) =
    let longer = name ++ replace (bytes ".") ++ replace label in
    let later : flatten_labels name (label ∷ labels) ≡ longer ++ suffix_of labels =
      flatten_labels-append longer labels in
    rw (later, append_assoc, append_assoc) refl

-- A flattened name is the metric's name as it is, blanks and colons included, and behind it a text
-- of the labels in which neither a blank nor a colon stands.
flatten_labels_lem :
    (name : Bytes) (labels : List Bytes)
    → (s : Bytes) × (flatten_labels name labels ≡ name ++ s) × Lacks 32 s × Lacks 58 s
flatten_labels_lem name labels = (
  suffix_of labels,
  flatten_labels-append name labels,
  suffix_of-Lacks 32 no_blank labels,
  suffix_of-Lacks 58 no_colon labels,
)
