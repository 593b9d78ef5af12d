-- ===== src/GetCert.antt =====
-- cmd/ct-getcert/ct-getcert.go: the certificate at an index of a log, as PEM.
use ct_mapreduce.Prelude.{
  ℕ, Bytes, Error, Result, ok, ◌>>=◌, List, [], ◌∷◌, ◌++◌, map, All, ◌≡◌, refl, ap,
}

-- What ct.RawLogEntryFromLeaf answers: the certificate's bytes, those with an x509.NonFatalErrors, or
-- another error.
pub data RawEntry : Type 0 where
  parsed : Bytes → RawEntry
  parsed_with_errors : Bytes → RawEntry
  failed : Error → RawEntry

module _ {Leaf : Type 0} (raw_log_entry_from_leaf : ℕ → Leaf → RawEntry)
    (pem_encode : Bytes → Bytes) (index : ℕ) where
  -- the loop over the entries: what is written to the standard output, where a write that fails is
  -- only logged; each entry is parsed with the one index that was asked for
  unfoldable write_entries : List Leaf → List Bytes
  write_entries [] = []
  write_entries (entry ∷ entries) = elim (raw_log_entry_from_leaf index entry) [
    | failed e ↦ write_entries entries
    | parsed cert ↦ pem_encode cert ∷ write_entries entries
    | parsed_with_errors cert ↦ pem_encode cert ∷ write_entries entries
  ]

  -- main, with the answers of client.New and GetRawEntries; `err` where glog.Fatal ends the process
  unfoldable main : Result (Unit {0}) → Result (List Leaf) → Result (List Bytes)
  main ct_client resp = do client ← ct_client; entries ← resp; ok (write_entries entries)

  -- An entry stands for its certificate.
  abbrev HasCert : Leaf × Bytes → Type 0
  HasCert (leaf, cert) = raw_log_entry_from_leaf index leaf ≡ parsed cert

  -- What an entry adds stands in front of what the others write.
  answered :
      (r : RawEntry) {xs : List Bytes} (ys zs : List Bytes)
      → xs ≡ ys ++ zs
      → elim r [
        | failed e ↦ xs
        | parsed cert ↦ pem_encode cert ∷ xs
        | parsed_with_errors cert ↦ pem_encode cert ∷ xs
      ]
        ≡ elim r [
          | failed e ↦ ys
          | parsed cert ↦ pem_encode cert ∷ ys
          | parsed_with_errors cert ↦ pem_encode cert ∷ ys
        ]
          ++ zs
  answered (failed e) ys zs h = h
  answered (parsed cert) ys zs h = ap (◌∷◌ (pem_encode cert)) h
  answered (parsed_with_errors cert) ys zs h = ap (◌∷◌ (pem_encode cert)) h

  -- An entry has no part in what another writes.
  write_entries-append :
      (l m : List Leaf) → write_entries (l ++ m) ≡ write_entries l ++ write_entries m
  unfolding write_entries
  write_entries-append [] m = refl
  write_entries-append (leaf ∷ l) m =
      answered (raw_log_entry_from_leaf index leaf) (write_entries l) (write_entries m)
        (write_entries-append l m)

  write_entries-map :
      (l : List (Leaf × Bytes))
      → All HasCert l
      → write_entries (map (λ r. r.0) l) ≡ map (λ r. pem_encode r.1) l
  unfolding write_entries
  write_entries-map [] h = refl
  write_entries-map ((leaf, cert) ∷ l) h =
      rw (h.0, write_entries) (ap (◌∷◌ (pem_encode cert)) (write_entries-map l h.1))

  -- Where each entry that the log answers with parses, main writes each certificate once, in order.
  main-writes :
      (l : List (Leaf × Bytes))
      → All HasCert l
      → main (ok tt) (ok (map (λ r. r.0) l)) ≡ ok (map (λ r. pem_encode r.1) l)
  unfolding main
  main-writes l h = ap ok (write_entries-map l h)
