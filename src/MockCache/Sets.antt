-- ===== src/MockCache/Sets.antt =====
-- The mock cache keeps a set at each key.
use ct_mapreduce.Prelude.{
  Bool, true, false, not, ◌&&◌, ◌||◌, Bytes, bytes_eq, member, bytes_eq_iff, none, List, [], ◌∷◌,
  ◌≡◌, refl, arith, if◌then◌else◌, Bool-cases, inl, inr,
}
use ct_mapreduce.GoLib.Assoc.{lookup, put, delete, lookup-put, lookup-delete}
use ct_mapreduce.GoLib.Time.{Time, before}
use ct_mapreduce.MockCache.{
  MockRemoteCache, at_key, drop_expired, search_entry, found_at, insert_at, set_insert,
}
use ct_mapreduce.MockCache.Ordered.{IsAscending, rank, search_entry-rank, found_at-rank}
use ct_mapreduce.MockCache.Insertion.{member-insert_at, insert_at-IsAscending}

-- The abstract view: which entries stand at a key.
unfoldable pub contains : MockRemoteCache → Bytes → Bytes → Bool
contains c key e = member e (at_key c key)

-- The lists of `Data` are ascending, which is what the binary searches assume.
pub record IsOrdered (c : MockRemoteCache) : Type 0 where
  pub lists : (key : Bytes) → IsAscending (at_key c key)

at_key-put :
    (c : MockRemoteCache) (key k : Bytes) (l : List Bytes)
    → at_key (record c { entries = put key l c.entries }) k
      ≡ (if bytes_eq key k then l else at_key c k)
unfolding at_key
at_key-put c key k l = ground (arith, lookup-put key k l c.entries)

put-IsOrdered :
    (c : MockRemoteCache) (key : Bytes) (l : List Bytes)
    → IsOrdered c
    → IsAscending l
    → IsOrdered (record c { entries = put key l c.entries })
put-IsOrdered c key l ordered a = record {
  lists = λ k. elim (Bool-cases (bytes_eq key k)) [
    | inl e ↦ rw (at_key-put c key k l, e) a
    | inr e ↦ rw (at_key-put c key k l, e) (ordered.lists k)
  ];
}

pub contains-put :
    (c : MockRemoteCache) (key k x : Bytes) (l : List Bytes)
    → contains (record c { entries = put key l c.entries }) k x
      ≡ (if bytes_eq key k then member x l else contains c k x)
unfolding contains
contains-put c key k x l = ground (arith, at_key-put c key k l)

-- The binary search of every method tells whether the entry is there.
pub found_at-member :
    (e : Bytes) (l : List Bytes) → IsAscending l → found_at e l (search_entry e l) ≡ member e l
found_at-member e l a = rw (search_entry-rank e l a) (found_at-rank e l a)

module _ (key e : Bytes) (c : MockRemoteCache) (ordered : IsOrdered c) where
  set_insert_known : member e (at_key c key) ≡ true → set_insert key e c ≡ (false, none, c)
  unfolding set_insert
  set_insert_known h = rw (found_at-member e (at_key c key) (ordered.lists key), h)

  set_insert_new :
      member e (at_key c key) ≡ false
      → set_insert key e c ≡ (
        true,
        none,
        record c {
          entries = put key (insert_at (rank e (at_key c key)) e (at_key c key)) c.entries;
        },
      )
  unfolding set_insert
  set_insert_new h = rw (
    found_at-member e (at_key c key) (ordered.lists key),
    h,
    search_entry-rank e (at_key c key) (ordered.lists key),
  )

  -- On ordered lists SetInsert reports whether the entry was new, adds it at its key, and leaves all else.
  pub set_insert_refines :
      (k x : Bytes)
      → ((set_insert key e c).0 ≡ not (contains c key e))
        × ((set_insert key e c).1 ≡ none)
        × (contains (set_insert key e c).2 k x ≡ (bytes_eq key k && bytes_eq x e || contains c k x))
  unfolding contains
  set_insert_refines k x = elim (Bool-cases (member e (at_key c key))) [
    | inl h ↦ rw (set_insert_known h, h) (ground (arith, bytes_eq_iff key k, bytes_eq_iff x e))
    | inr h ↦
        rw (set_insert_new h, h)
          (
            refl,
            refl,
            (ground (
              arith,
              contains-put c key k x (insert_at (rank e (at_key c key)) e (at_key c key)),
              member-insert_at (rank e (at_key c key)) e x (at_key c key),
              bytes_eq_iff key k,
            )),
          )
  ]

  -- SetInsert keeps the lists of the cache ordered and without repetition.
  pub set_insert-IsOrdered : IsOrdered (set_insert key e c).2
  set_insert-IsOrdered = elim (Bool-cases (member e (at_key c key))) [
    | inl h ↦ rw (set_insert_known h) ordered
    | inr h ↦ rw (set_insert_new h) (
        put-IsOrdered c key (insert_at (rank e (at_key c key)) e (at_key c key)) ordered
          (insert_at-IsAscending e (at_key c key) (ordered.lists key) h))
  ]

-- An entry stands at its key after its insertion, and inserting it again reports that it is known.
set_insert_twice :
    (key e : Bytes) (c : MockRemoteCache)
    → IsOrdered c
    → (set_insert key e (set_insert key e c).2).0 ≡ false
set_insert_twice key e c ordered = ground (
  arith,
  set_insert_refines key e c ordered key e,
  set_insert_refines key e (set_insert key e c).2 (set_insert-IsOrdered key e c ordered) key e,
  bytes_eq_iff key key,
  bytes_eq_iff e e,
)

-- Some recorded expiration of the key is earlier than `now`.
unfoldable pub is_past : Bytes → List (Bytes × Time) → Time → Bool
is_past k [] now = false
is_past k ((key, t) ∷ rest) now = bytes_eq key k && before t now || is_past k rest now

pub lookup-drop_expired :
    (k : Bytes) (es : List (Bytes × Time)) (now : Time) (c : MockRemoteCache)
    → lookup k (drop_expired es now c).entries
      ≡ (if is_past k es now then none else lookup k c.entries)
unfolding drop_expired is_past
lookup-drop_expired k [] now c = refl
lookup-drop_expired k ((key, t) ∷ rest) now c = elim (Bool-cases (before t now)) [
  | inl p ↦ rw p (
      ground (
        arith,
        lookup-drop_expired k rest now
            (record c { entries = delete key c.entries; expirations = delete key c.expirations }),
        lookup-delete key k c.entries,
      ))
  | inr p ↦ rw p (ground (arith, lookup-drop_expired k rest now c))
]
