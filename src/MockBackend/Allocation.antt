-- ===== src/MockBackend/Allocation.antt =====
-- The issuers of a date in the mock backend are a sorted set.
use mathlib.Core.Path.{fun_ext}
use ct_mapreduce.Prelude.{
  ℕ, true, ◌&&◌, ◌||◌, ltb, Bytes, bytes_eq, bytes_eq_iff, member, compare_bytes_flip, List, [],
  length, get_or, ◌≡◌, ap, arith, Bool-cases, inl, inr, if◌then◌else◌,
}
use ct_mapreduce.GoLib.Assoc.{put, lookup-put}
use ct_mapreduce.GoLib.Search.{search_index}
use ct_mapreduce.MockBackend.{MockBackend, at_least, issuers_of, allocate_exp_date_and_issuer}
use ct_mapreduce.MockCache.{at_most, search_entry, found_at, insert_at}
use ct_mapreduce.MockCache.Ordered.{IsAscending, rank, search_entry-rank}
use ct_mapreduce.MockCache.Insertion.{member-insert_at, insert_at-IsAscending}
use ct_mapreduce.MockCache.Sets.{found_at-member}
use ct_mapreduce.Storage.ExpDate
use ct_mapreduce.Storage.ExpDate.{ExpDate}

-- The lists of issuers are ascending, which is what the binary search assumes.
pub record IsSorted (db : MockBackend) : Type 0 where
  pub lists : (d : ExpDate) → IsAscending (issuers_of d db)

at_least-at_most : (issuer x : Bytes) → at_least issuer x ≡ at_most issuer x
unfolding at_least at_most
at_least-at_most issuer x = ground (arith, compare_bytes_flip issuer x, compare_bytes_flip x issuer)

same_index :
    (issuer : Bytes) (l : List Bytes)
    → search_index (length l) (λ i. at_least issuer (get_or l i [])) ≡ search_entry issuer l
unfolding search_entry
same_index issuer l =
    ap (search_index (length l)) (fun_ext (λ i. at_least-at_most issuer (get_or l i [])))

same_test :
    (issuer : Bytes) (l : List Bytes) (i : ℕ)
    → (ltb i (length l) && bytes_eq (get_or l i []) issuer) ≡ found_at issuer l i
unfolding found_at
same_test issuer l i =
    ground (arith, bytes_eq_iff (get_or l i []) issuer, bytes_eq_iff issuer (get_or l i []))

module _ (d : ExpDate) (issuer : Bytes) (db : MockBackend) (sorted : IsSorted db) where
  -- What the method makes of the date's list.
  allocated : (allocate_exp_date_and_issuer d issuer db).2 ≡ (
      if member issuer (issuers_of d db) then db else record db {
        exp_date_to_issuer =
            put
              (ExpDate.id d)
              (insert_at (rank issuer (issuers_of d db)) issuer (issuers_of d db))
              db.exp_date_to_issuer;
      })
  unfolding allocate_exp_date_and_issuer
  allocated = ground (
    arith,
    same_index issuer (issuers_of d db),
    same_test issuer (issuers_of d db) (search_entry issuer (issuers_of d db)),
    found_at-member issuer (issuers_of d db) (sorted.lists d),
    search_entry-rank issuer (issuers_of d db) (sorted.lists d),
  )

  issuers_of-put :
      (c : ExpDate) (l : List Bytes)
      → issuers_of c (record db { exp_date_to_issuer = put (ExpDate.id d) l db.exp_date_to_issuer })
        ≡ (if bytes_eq (ExpDate.id d) (ExpDate.id c) then l else issuers_of c db)
  unfolding issuers_of
  issuers_of-put c l =
      ground (arith, lookup-put (ExpDate.id d) (ExpDate.id c) l db.exp_date_to_issuer)

  issuers_of-id :
      (c : ExpDate)
      → bytes_eq (ExpDate.id d) (ExpDate.id c) ≡ true
      → issuers_of c db ≡ issuers_of d db
  unfolding issuers_of
  issuers_of-id c h = ground (arith, bytes_eq_iff (ExpDate.id d) (ExpDate.id c))

  known :
      (c : ExpDate) (x : Bytes)
      → member issuer (issuers_of d db) ≡ true
      → member x (issuers_of c db) ≡ (
          bytes_eq (ExpDate.id d) (ExpDate.id c) && bytes_eq x issuer || member x (issuers_of c db))
  known c x h = ground (arith, issuers_of-id c, bytes_eq_iff x issuer)

  -- On sorted lists an allocation adds the issuer to those of its date, and leaves all else; the
  -- lists stay sorted.
  pub allocate_exp_date_and_issuer_refines :
      (c : ExpDate) (x : Bytes)
      → (member x (issuers_of c (allocate_exp_date_and_issuer d issuer db).2) ≡ (
          bytes_eq (ExpDate.id d) (ExpDate.id c) && bytes_eq x issuer
          || member x (issuers_of c db)))
        × IsSorted (allocate_exp_date_and_issuer d issuer db).2
  allocate_exp_date_and_issuer_refines c x =
      let l = issuers_of d db in
      let i = rank issuer l in
      elim (Bool-cases (member issuer l)) [
        | inl h ↦ rw (allocated, h) (known c x h, sorted)
        | inr h ↦
            rw (allocated, h)
              (
                ground (
                  arith,
                  issuers_of-put c (insert_at i issuer l),
                  member-insert_at i issuer x l,
                  issuers_of-id c,
                ),
                record {
                  lists = λ e. elim (Bool-cases (bytes_eq (ExpDate.id d) (ExpDate.id e))) [
                    | inl same ↦
                        rw (issuers_of-put e (insert_at i issuer l), same)
                          (insert_at-IsAscending issuer l (sorted.lists d) h)
                    | inr other ↦
                        rw (issuers_of-put e (insert_at i issuer l), other) (sorted.lists e)
                  ];
                },
              )
      ]
