-- ===== src/MockCache/Remote.antt =====
-- The mock cache as a `RemoteCache`, with the laws that the clients rely on.
use ct_mapreduce.Prelude.{
  ℕ, zero, suc, ◌+◌, ◌*◌, Bool, true, Bytes, member, member-append, Option, none, some, List, [],
  ◌∷◌, length, length-append, ◌≡◌, refl, arith, Bool-cases, inl, inr,
}
use ct_mapreduce.GoLib.Assoc.{lookup, delete, lookup-put_self}
use native.Mathlib.Numerals.{add-one}
use ct_mapreduce.GoLib.Time.{Time, Duration, before}
use ct_mapreduce.Cache.{RemoteCache}
use ct_mapreduce.Cache.Codec.{LogCodec}
use ct_mapreduce.Cache.Laws.{SetLaws}
use ct_mapreduce.MockCache
use ct_mapreduce.MockCache.{
  MockRemoteCache, at_key, first, expire_at, set_to_chan, repeated, try_set, set_cardinality,
  drop_expired, cleanup_expiry, store_log_state, load_log_state, decode_log,
}
use ct_mapreduce.MockCache.Sets.{IsOrdered, contains, set_insert_refines, set_insert-IsOrdered}

abbrev pub mock_remote : LogCodec → (Bytes → Bytes → Bool) → RemoteCache MockRemoteCache
mock_remote codec match = record {
  exists = MockCache.exists;
  set_insert = MockCache.set_insert;
  set_remove = MockCache.set_remove;
  set_contains = MockCache.set_contains;
  set_list = MockCache.set_list;
  set_to_chan = MockCache.set_to_chan;
  set_cardinality = MockCache.set_cardinality;
  expire_at = MockCache.expire_at;
  expire_in = MockCache.expire_in;
  queue = MockCache.queue;
  pop = MockCache.pop;
  queue_length = MockCache.queue_length;
  blocking_pop_copy = MockCache.blocking_pop_copy;
  list_remove = MockCache.list_remove;
  try_set = MockCache.try_set;
  keys_to_chan = λ pattern. MockCache.keys_to_chan (match pattern);
  store_log_state = MockCache.store_log_state codec;
  load_log_state = MockCache.load_log_state codec;
}

member-repeated : (x : Bytes) (n : ℕ) (l : List Bytes) → member x (repeated (suc n) l) ≡ member x l
unfolding repeated member
member-repeated x zero l = rw member-append (ground arith)
member-repeated x (suc n) l =
    ground (arith, member-append x l (repeated (suc n) l), member-repeated x n l)

length-repeated : (n : ℕ) (l : List Bytes) → length (repeated n l) ≡ n * length l
unfolding repeated
length-repeated zero l = omega arith
length-repeated (suc n) l = grind (arith, length-append l (repeated n l), length-repeated n l)

duplicate-drop_expired :
    (es : List (Bytes × Time)) (now : Time) (c : MockRemoteCache)
    → (drop_expired es now c).duplicate ≡ c.duplicate
unfolding drop_expired
duplicate-drop_expired [] now c = refl
duplicate-drop_expired ((key, t) ∷ rest) now c = elim (Bool-cases (before t now)) [
  | inl p ↦
      rw (p, drop_expired)
        (duplicate-drop_expired rest now
          (record c { entries = delete key c.entries; expirations = delete key c.expirations }))
  | inr p ↦ rw (p, drop_expired) (duplicate-drop_expired rest now c)
]

duplicate-cleanup_expiry : (c : MockRemoteCache) → (cleanup_expiry c).duplicate ≡ c.duplicate
unfolding cleanup_expiry
duplicate-cleanup_expiry c = duplicate-drop_expired c.expirations c.now c

-- SetToChan sends an entry exactly if it stands at the key, and in all `duplicate + 1` times as
-- many as the key has.
pub set_to_chan_sends :
    (key x : Bytes) (c : MockRemoteCache)
    → (member x (set_to_chan key c).0 ≡ contains (set_to_chan key c).2 key x)
      × (length (set_to_chan key c).0
          ≡ (c.duplicate + 1) * (set_cardinality key (cleanup_expiry c)).0)
unfolding set_to_chan contains set_cardinality
set_to_chan_sends key x c = ground (
  arith,
  duplicate-cleanup_expiry c,
  add-one c.duplicate,
  member-repeated x c.duplicate (at_key (cleanup_expiry c) key),
  length-repeated (c.duplicate + 1) (at_key (cleanup_expiry c) key),
)

pub expire_at-IsOrdered :
    (key : Bytes) (t : Time) (c : MockRemoteCache) → IsOrdered c → IsOrdered (expire_at key t c).2
unfolding expire_at at_key
expire_at-IsOrdered key t c h = record { lists = h.lists }

pub contains-expire_at :
    (key : Bytes) (t : Time) (c : MockRemoteCache) (k x : Bytes)
    → contains (expire_at key t c).2 k x ≡ contains c k x
unfolding expire_at contains at_key
contains-expire_at key t c k x = refl

-- The value that TrySet keeps at a key.
abbrev pub first_value : MockRemoteCache → Bytes → Option Bytes
first_value c key = elim (lookup key c.entries) [ none ↦ none | some l ↦ some (first l) ]

pub try_set_first_lem :
    (key v : Bytes) (life : Duration) (c : MockRemoteCache)
    → (try_set key v life c).1 ≡ none
    → first_value c key ≡ none
    → ((try_set key v life c).0 ≡ v) × (first_value (try_set key v life c).2 key ≡ some v)
unfolding try_set expire_at
try_set_first_lem key v life c ok h = ground (arith, lookup-put_self key (v ∷ []) c.entries)

pub try_set_again_lem :
    (key v w : Bytes) (life : Duration) (c : MockRemoteCache)
    → (try_set key v life c).1 ≡ none
    → first_value c key ≡ some w
    → ((try_set key v life c).0 ≡ w) × (first_value (try_set key v life c).2 key ≡ some w)
unfolding try_set expire_at
try_set_again_lem key v w life c ok h = ground arith

-- The mock cache keeps the laws of a set at each key.
unfoldable pub mock_set_laws :
    (codec : LogCodec) (match : Bytes → Bytes → Bool) → SetLaws (mock_remote codec match)
mock_set_laws codec match = record {
  IsGood = IsOrdered;
  contains = contains;
  expires_later = λ s t. true;
  insert_keeps = set_insert-IsOrdered;
  insert_result = λ key e s good ok. (set_insert_refines key e s good key e).0;
  insert_adds = λ key e s good ok k x. (set_insert_refines key e s good k x).2;
  expire_keeps = expire_at-IsOrdered;
  expire_later = λ key t s later k x. contains-expire_at key t s k x;
  chan_sends = λ key s good ok x. (set_to_chan_sends key x s).0;
}
