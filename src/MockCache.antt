-- ===== src/MockCache.antt =====
-- `MockRemoteCache` of storage/mockcache.go, the cache that the tests of the storage package use.
pub mod Ordered
pub mod Insertion
pub mod Sets
pub mod Expiry
pub mod Remote
pub mod Values
use ct_mapreduce.Prelude.{
  ℕ, ◌+◌, ◌&&◌, String, Bool, true, false, Bytes, bytes, compare_bytes, bytes_eq, ltb, ◌==◌, Error,
  Result, ok, err, Option, none, some, List, [], ◌∷◌, ◌++◌, length, get_or, take, drop, leb,
  if◌then◌else◌, Ordering, zero, suc,
}
use ct_mapreduce.GoLib.Assoc.{lookup, put, delete}
use ct_mapreduce.GoLib.Search.{search_index}
use ct_mapreduce.GoLib.Time.{Time, Duration, before}
use ct_mapreduce.Cache.{CertificateLog, Call}
use ct_mapreduce.Cache.Codec.{LogCodec}

-- `now` is the clock that `time.Now` reads.
pub record MockRemoteCache : Type 0 where
  pub entries : List (Bytes × List Bytes)
  pub expirations : List (Bytes × Time)
  pub duplicate : ℕ
  pub now : Time

-- ec.Data[key], which is nil for a missing key
unfoldable pub at_key : MockRemoteCache → Bytes → List Bytes
at_key c key = elim (lookup key c.entries) [ none ↦ [] | some l ↦ l ]

unfoldable pub new_mock_remote_cache : Time → MockRemoteCache
new_mock_remote_cache now = record { entries = []; expirations = []; duplicate = 0; now = now }

-- the loop of CleanupExpiry over `ec.Expirations`
unfoldable pub drop_expired : List (Bytes × Time) → Time → MockRemoteCache → MockRemoteCache
drop_expired [] now c = c
drop_expired ((key, timestamp) ∷ rest) now c = drop_expired rest now (
    if before timestamp now
    then record c { entries = delete key c.entries; expirations = delete key c.expirations }
    else c)

unfoldable pub cleanup_expiry : MockRemoteCache → MockRemoteCache
cleanup_expiry c = drop_expired c.expirations c.now c

-- strings.Compare(entry, x) <= 0
unfoldable pub at_most : Bytes → Bytes → Bool
at_most entry x = elim (compare_bytes entry x) [ Ordering.gt ↦ false | _ ↦ true ]

-- sort.Search(count, func(i int) bool { … })
unfoldable pub search_entry : Bytes → List Bytes → ℕ
search_entry entry l = search_index (length l) (λ i. at_most entry (get_or l i []))

-- idx < count && cmp == 0
unfoldable pub found_at : Bytes → List Bytes → ℕ → Bool
found_at entry l idx = ltb idx (length l) && bytes_eq entry (get_or l idx [])

-- append(l, ""); copy(l[idx+1:], l[idx:]); l[idx] = entry, for an idx of at most len(l)
unfoldable pub insert_at : ℕ → Bytes → List Bytes → List Bytes
insert_at idx entry l = take idx l ++ entry ∷ drop idx l

unfoldable pub set_insert : Bytes → Bytes → Call MockRemoteCache Bool
set_insert key entry c =
    let l = at_key c key in
    let idx = search_entry entry l in
    if found_at entry l idx
    then (false, none, c)
    else (true, none, record c { entries = put key (insert_at idx entry l) c.entries })

-- append(l[:idx], l[idx:]...)
unfoldable pub remove_at : ℕ → List Bytes → List Bytes
remove_at idx l = take idx l ++ drop idx l

unfoldable pub set_remove : Bytes → Bytes → Call MockRemoteCache Bool
set_remove key entry c0 =
    let c = cleanup_expiry c0 in
    let l = at_key c key in
    let idx = search_entry entry l in
    if found_at entry l idx
    then (true, none, record c { entries = put key (remove_at idx l) c.entries })
    else (false, none, c)

unfoldable pub set_contains : Bytes → Bytes → Call MockRemoteCache Bool
set_contains key entry c0 =
    let c = cleanup_expiry c0 in
    let l = at_key c key in (found_at entry l (search_entry entry l), none, c)

unfoldable pub set_list : Bytes → Call MockRemoteCache (List Bytes)
set_list key c0 = let c = cleanup_expiry c0 in (at_key c key, none, c)

-- the body of the outer loop of SetToChan, `n` times
unfoldable pub repeated : ℕ → List Bytes → List Bytes
repeated zero l = []
repeated (suc n) l = l ++ repeated n l

unfoldable pub set_to_chan : Bytes → Call MockRemoteCache (List Bytes)
set_to_chan key c0 =
    let c = cleanup_expiry c0 in (repeated (c.duplicate + 1) (at_key c key), none, c)

unfoldable pub set_cardinality : Bytes → Call MockRemoteCache ℕ
set_cardinality key c = (length (at_key c key), none, c)

unfoldable pub exists : Bytes → Call MockRemoteCache Bool
exists key c0 =
    let c = cleanup_expiry c0 in
    elim (lookup key c.entries) [ none ↦ (false, none, c) | some l ↦ (true, none, c) ]

unfoldable pub expire_at : Bytes → Time → Call MockRemoteCache (Unit {0})
expire_at key exp_time c = (tt, none, record c { expirations = put key exp_time c.expirations })

unfoldable pub expire_in : Bytes → Duration → Call MockRemoteCache (Unit {0})
expire_in key dur c = (tt, none, record c { expirations = put key (c.now + dur) c.expirations })

-- fmt.Errorf
abbrev error_text : String → Error
error_text what = record { text = bytes what }

unfoldable pub queue : Bytes → Bytes → Call MockRemoteCache ℕ
queue key identifier c = (0, some (error_text "Queue unimplemented"), c)

unfoldable pub pop : Bytes → Call MockRemoteCache Bytes
pop key c = ([], some (error_text "Pop unimplemented"), c)

unfoldable pub queue_length : Bytes → Call MockRemoteCache ℕ
queue_length key c = (0, some (error_text "QueueLength unimplemented"), c)

unfoldable pub blocking_pop_copy : Bytes → Bytes → Duration → Call MockRemoteCache Bytes
blocking_pop_copy key dest timeout c =
    let (v, popped, c') = pop key c in
    elim popped [
      | some e ↦ ([], some e, c')
      | none ↦
          let (n, queued, c'') = queue dest v c' in
          elim queued [ some e ↦ ([], some e, c'') | none ↦ (v, none, c'') ]
    ]

unfoldable pub list_remove : Bytes → Bytes → Call MockRemoteCache (Unit {0})
list_remove key value c = let (removed, e, c') = set_remove key value c in (tt, e, c')

-- val[0], where `set_insert`, `try_set` and `store_log_state` leave no empty list
abbrev pub first : List Bytes → Bytes
first [] = []
first (x ∷ xs) = x

unfoldable pub try_set : Bytes → Bytes → Duration → Call MockRemoteCache Bytes
try_set key v life c = elim (lookup key c.entries) [
  | some val ↦ (first val, none, c)
  | none ↦
      let c' : MockRemoteCache = record c { entries = put key (v ∷ []) c.entries } in
      let (_, e, c'') = expire_at key (c'.now + life) c' in (v, e, c'')
]

-- the keys of `ec.Data` that the pattern matches
unfoldable pub matching_keys : (Bytes → Bool) → List (Bytes × List Bytes) → List Bytes
matching_keys matches [] = []
matching_keys matches ((key, l) ∷ rest) =
    let found = matching_keys matches rest in if matches key then key ∷ found else found

-- `matches` is filepath.Match(pattern, ·), for a pattern without a syntax error
unfoldable pub keys_to_chan : (Bytes → Bool) → Call MockRemoteCache (List Bytes)
keys_to_chan matches c = (matching_keys matches c.entries, none, c)

unfoldable pub store_log_state : LogCodec → CertificateLog → Call MockRemoteCache (Unit {0})
store_log_state codec log c = elim (codec.marshal log) [
  | err e ↦ (tt, some e, c)
  | ok encoded ↦ (tt, none, record c { entries = put log.short_url (encoded ∷ []) c.entries })
]

unfoldable pub decode_log : LogCodec → List Bytes → Option CertificateLog × Option Error
decode_log codec (encoded ∷ []) = elim (codec.unmarshal encoded) [
  | err e ↦ (none, some e)
  | ok log ↦ (some log, none)
]
decode_log codec l = (none, some (error_text "Unexpected number of log states"))

unfoldable pub load_log_state : LogCodec → Bytes → Call MockRemoteCache (Option CertificateLog)
load_log_state codec short_url c = elim (lookup short_url c.entries) [
  | none ↦ (none, some (error_text "Log state not found"), c)
  | some l ↦ let (log, e) = decode_log codec l in (log, e, c)
]

-- A run of the mock cache unfolds this.
unfoldable pub mock_cache : Unit {0}
unfolding lookup put delete compare_bytes bytes_eq search_index at_key new_mock_remote_cache
    drop_expired cleanup_expiry at_most search_entry found_at insert_at set_insert remove_at
    set_remove set_contains set_list repeated set_to_chan set_cardinality exists expire_at expire_in
    queue pop queue_length blocking_pop_copy list_remove try_set matching_keys keys_to_chan
    store_log_state decode_log load_log_state
mock_cache = tt
