-- ===== src/CtFetch/Worker.antt =====
-- `insertCTWorker`: what a worker does with the entries that it takes from the channel, and, apart
-- from its steps, which certificates it is to store.
pub mod Once
use ct_mapreduce.Prelude.{
  Bytes, Result, ok, err, Option, none, some, List, [], ◌∷◌, All, ◌≡◌, refl, arith, if◌then◌else◌,
  inl, inr, ◌⊎◌, ◌≢◌, Bool, true, false, not, ◌&&◌, ◌||◌, ◌==◌, bytes, ◌++◌, length, Result-cases,
  Bool-cases, sym,
}
use ct_mapreduce.Cache.{RemoteCache}
use ct_mapreduce.Certificate.{
  Certificate, EntryType, x509_entry, precert_entry, other_entry, LogEntry,
}
use ct_mapreduce.CtFetch.Filter.{
  FilterConfig, cert_is_filtered_out, cert_is_filtered_out_iff, some_prefix_fits,
}
use ct_mapreduce.GoLib.Text.{split}
use ct_mapreduce.GoLib.Time.{Time, before}
use ct_mapreduce.Storage.Backend.{StorageBackend}
use ct_mapreduce.Storage.Database.{Database, Libraries, store}

-- What becomes of an entry: passed over or handed to Store, or it panics, for an entry of another
-- type has no certificate for the filter.
pub data Verdict : Type 0 where
  passed_over : Verdict
  to_store : Certificate → Certificate → Verdict
  panic : Verdict

pub Verdict-cases :
    (v : Verdict)
    → (v ≡ passed_over)
      ⊎ ((v ≡ panic) ⊎ ((c : Certificate) × (i : Certificate) × (v ≡ to_store c i)))
Verdict-cases passed_over = inl refl
Verdict-cases panic = inr (inl refl)
Verdict-cases (to_store c i) = inr (inr (c, i, refl))

abbrev parsed : Result Certificate → Option Certificate
parsed (ok cert) = some cert
parsed (err e) = none

module _ (parse_certificate : Bytes → Result Certificate) (config : FilterConfig) where
  -- the issuing certificate is the first of the chain
  unfoldable pub with_issuer : Certificate → List Bytes → Verdict
  with_issuer cert [] = passed_over
  with_issuer cert (issuer ∷ chain) = elim (parse_certificate issuer) [
    | err e ↦ passed_over
    | ok issuing_cert ↦ to_store cert issuing_cert
  ]

  unfoldable pub judge_cert : Time → List Bytes → Certificate → Verdict
  judge_cert now chain cert =
      if cert_is_filtered_out config now cert then passed_over else with_issuer cert chain

  -- the `switch` on the entry's type, and the checks behind it
  unfoldable pub judge : Time → EntryType → List Bytes → Verdict
  judge now (x509_entry cert) chain = judge_cert now chain cert
  judge now (precert_entry submitted) chain = elim (parse_certificate submitted) [
    | err e ↦ passed_over
    | ok cert ↦ judge_cert now chain cert
  ]
  judge now other_entry chain = panic

  -- What is to be stored, told without the steps of the worker: the certificate of an entry, ...
  unfoldable pub leaf_of : EntryType → Option Certificate
  leaf_of (x509_entry cert) = some cert
  leaf_of (precert_entry submitted) = parsed (parse_certificate submitted)
  leaf_of other_entry = none

  -- ... that of its issuer, ...
  unfoldable pub issuer_of : List Bytes → Option Certificate
  issuer_of [] = none
  issuer_of (issuer ∷ chain) = parsed (parse_certificate issuer)

  -- ... what is asked of the certificate, ...
  unfoldable pub is_wanted : Time → Certificate → Bool
  is_wanted now cert =
      not (cert.basic_constraints_valid && cert.is_ca)
      && (not (before cert.not_after now) || config.log_expired_entries)
      && (length config.issuer_cn_filter == 0
          || some_prefix_fits cert.issuer_common_name (split config.issuer_cn_filter (bytes ",")))

  -- ... and the two together, where both are there.
  unfoldable pub wanted_of :
      Time → Option Certificate → Option Certificate → List (Certificate × Certificate)
  wanted_of now (some cert) (some issuer) = if is_wanted now cert then (cert, issuer) ∷ [] else []
  wanted_of now (some cert) none = []
  wanted_of now none issuer = []

  -- What a verdict hands to Store.
  abbrev handed : Verdict → List (Certificate × Certificate)
  handed (to_store cert issuer) = (cert, issuer) ∷ []
  handed passed_over = []
  handed panic = []

  with_issuer-handed :
      (now : Time) (cert : Certificate) (chain : List Bytes)
      → is_wanted now cert ≡ true
      → handed (with_issuer cert chain) ≡ wanted_of now (some cert) (issuer_of chain)
  unfolding with_issuer issuer_of wanted_of
  with_issuer-handed now cert [] h = refl
  with_issuer-handed now cert (issuer ∷ chain) h = ground arith

  unwanted :
      (now : Time) (cert : Certificate) (issuer : Option Certificate)
      → is_wanted now cert ≡ false
      → wanted_of now (some cert) issuer ≡ []
  unfolding wanted_of
  unwanted now cert (some issuer) h = rw h
  unwanted now cert none h = refl

  filtered_out-wanted :
      (now : Time) (cert : Certificate)
      → not (cert_is_filtered_out config now cert) ≡ is_wanted now cert
  unfolding is_wanted
  filtered_out-wanted now cert = cert_is_filtered_out_iff config now cert

  judge_cert-handed :
      (now : Time) (chain : List Bytes) (cert : Certificate)
      → handed (judge_cert now chain cert) ≡ wanted_of now (some cert) (issuer_of chain)
  unfolding judge_cert
  judge_cert-handed now chain cert = elim (Bool-cases (is_wanted now cert)) [
    | inl p ↦
        let passes : cert_is_filtered_out config now cert ≡ false =
          ground (arith, filtered_out-wanted now cert) in
        rw (passes, judge_cert) (with_issuer-handed now cert chain p)
    | inr p ↦
        let fails : cert_is_filtered_out config now cert ≡ true =
          ground (arith, filtered_out-wanted now cert) in
        rw (fails, judge_cert) (sym (unwanted now cert (issuer_of chain) p))
  ]

  judge-handed :
      (now : Time) (t : EntryType) (chain : List Bytes)
      → handed (judge now t chain) ≡ wanted_of now (leaf_of t) (issuer_of chain)
  unfolding judge leaf_of wanted_of
  judge-handed now (x509_entry cert) chain = judge_cert-handed now chain cert
  judge-handed now (precert_entry s) chain = elim (Result-cases (parse_certificate s)) [
    | inl (cert, p) ↦ rw (p, judge) (judge_cert-handed now chain cert)
    | inr (e, p) ↦ rw (p, judge)
  ]
  judge-handed now other_entry chain = refl

  module _ {S B : Type 0} (cache : RemoteCache S) (backend : StorageBackend B)
      (lib : Libraries) where
    -- The loop over the channel, with the time that is read for each entry; `none` after a panic. An
    -- error of Store is only logged.
    unfoldable pub insert_ct_worker : List (Time × LogEntry) → Database S B → Option (Database S B)
    insert_ct_worker [] db = some db
    insert_ct_worker ((now, entry) ∷ entries) db = elim (judge now entry.entry_type entry.chain) [
      | passed_over ↦ insert_ct_worker entries db
      | to_store cert issuer ↦ insert_ct_worker entries (store cache backend lib cert issuer db).1
      | panic ↦ none
    ]

    -- The stores of a list of certificates, each with its issuer's, one after another.
    unfoldable pub store_all : List (Certificate × Certificate) → Database S B → Database S B
    store_all [] db = db
    store_all ((cert, issuer) ∷ rest) db = store_all rest (store cache backend lib cert issuer db).1

    -- The certificates to store, each with its issuer's, in the order of the entries.
    unfoldable pub wanted_certs : List (Time × LogEntry) → List (Certificate × Certificate)
    wanted_certs [] = []
    wanted_certs ((now, entry) ∷ entries) =
        wanted_of now (leaf_of entry.entry_type) (issuer_of entry.chain) ++ wanted_certs entries

    -- The type is one of the two that the worker knows.
    abbrev pub IsKnownType : EntryType → Type 0
    IsKnownType (x509_entry cert) = Unit
    IsKnownType (precert_entry submitted) = Unit
    IsKnownType other_entry = ⊥

    judge_lem :
        (now : Time) (t : EntryType) (chain : List Bytes)
        → IsKnownType t
        → judge now t chain ≢ panic
    unfolding judge judge_cert with_issuer
    judge_lem now (x509_entry cert) [] h = ground arith
    judge_lem now (x509_entry cert) (i ∷ chain) h = ground arith
    judge_lem now (precert_entry s) [] h = ground arith
    judge_lem now (precert_entry s) (i ∷ chain) h = ground arith
    judge_lem now other_entry chain h = absurd h

    -- If every entry is a certificate or a precertificate, the worker ends without a panic, and
    -- has stored, in the order of the channel, each with the first certificate of its chain, just
    -- those that parse, are not of a CA, have not expired or expired ones are wanted, fit a
    -- prefix of the filter or none is set, and have an issuer that parses.
    pub insert_ct_worker_lem :
        (entries : List (Time × LogEntry)) (db : Database S B)
        → All (λ (e : Time × LogEntry). IsKnownType e.1.entry_type) entries
        → insert_ct_worker entries db ≡ some (store_all (wanted_certs entries) db)
    unfolding insert_ct_worker store_all wanted_certs
    insert_ct_worker_lem [] db h = refl
    insert_ct_worker_lem ((now, entry) ∷ entries) db h =
        let handed_is = judge-handed now entry.entry_type entry.chain in
        elim (Verdict-cases (judge now entry.entry_type entry.chain)) [
          | inl p ↦ rw (← handed_is, p, insert_ct_worker) (insert_ct_worker_lem entries db h.1)
          | inr (inl p) ↦ absurd (judge_lem now entry.entry_type entry.chain h.0 p)
          | inr (inr (cert, issuer, p)) ↦
              rw (← handed_is, p, insert_ct_worker, store_all)
                (insert_ct_worker_lem entries (store cache backend lib cert issuer db).1 h.1)
        ]
