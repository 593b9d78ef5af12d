-- ===== src/MockCache/Values.antt =====
-- The mock cache keeps the laws of a value at each key.
use ct_mapreduce.Prelude.{
  ◌+◌, Bool, true, false, Bytes, none, some, List, [], ◌∷◌, ◌≡◌, refl, arith, Bool-cases, inl, inr,
}
use ct_mapreduce.GoLib.Assoc.{lookup, put, delete}
use ct_mapreduce.GoLib.Time.{Time, Duration, before}
use ct_mapreduce.Cache.Codec.{LogCodec}
use ct_mapreduce.Cache.Laws.{ValueLaws}
use ct_mapreduce.MockCache.{
  MockRemoteCache, exists, expire_at, try_set, drop_expired, cleanup_expiry,
}
use ct_mapreduce.MockCache.Sets.{is_past, lookup-drop_expired}
use ct_mapreduce.MockCache.Remote.{mock_remote, first_value, try_set_first_lem, try_set_again_lem}

-- No recorded expiration of the key has passed.
abbrev pub IsLive : MockRemoteCache → Bytes → Type 0
IsLive c key = is_past key c.expirations c.now ≡ false

is_past-put :
    (k : Bytes) (t : Time) (es : List (Bytes × Time)) (now : Time)
    → is_past k es now ≡ false
    → before t now ≡ false
    → is_past k (put k t es) now ≡ false
unfolding is_past put
is_past-put k t [] now h e = ground arith
is_past-put k t ((j, u) ∷ es) now h e = ground (arith, is_past-put k t es now)

is_past-delete :
    (k j : Bytes) (es : List (Bytes × Time)) (now : Time)
    → is_past k es now ≡ false
    → is_past k (delete j es) now ≡ false
unfolding is_past delete
is_past-delete k j [] now h = refl
is_past-delete k j ((i, u) ∷ es) now h = ground (arith, is_past-delete k j es now)

now-drop_expired :
    (es : List (Bytes × Time)) (now : Time) (c : MockRemoteCache)
    → (drop_expired es now c).now ≡ c.now
unfolding drop_expired
now-drop_expired [] now c = refl
now-drop_expired ((key, t) ∷ rest) now c = elim (Bool-cases (before t now)) [
  | inl p ↦
      rw (p, drop_expired)
        (now-drop_expired rest now
          (record c { entries = delete key c.entries; expirations = delete key c.expirations }))
  | inr p ↦ rw (p, drop_expired) (now-drop_expired rest now c)
]

drop_expired_live :
    (k : Bytes) (es : List (Bytes × Time)) (now : Time) (c : MockRemoteCache)
    → is_past k c.expirations now ≡ false
    → is_past k (drop_expired es now c).expirations now ≡ false
unfolding drop_expired
drop_expired_live k [] now c h = h
drop_expired_live k ((key, t) ∷ rest) now c h = elim (Bool-cases (before t now)) [
  | inl p ↦
      rw (p, drop_expired)
        (drop_expired_live k rest now
          (record c { entries = delete key c.entries; expirations = delete key c.expirations })
          (is_past-delete k key c.expirations now h))
  | inr p ↦ rw (p, drop_expired) (drop_expired_live k rest now c h)
]

cleanup-IsLive : (k : Bytes) (c : MockRemoteCache) → IsLive c k → IsLive (cleanup_expiry c) k
unfolding cleanup_expiry
cleanup-IsLive k c h =
    rw (now-drop_expired c.expirations c.now c) (drop_expired_live k c.expirations c.now c h)

cleanup_value :
    (k : Bytes) (c : MockRemoteCache)
    → IsLive c k
    → lookup k (cleanup_expiry c).entries ≡ lookup k c.entries
unfolding cleanup_expiry
cleanup_value k c h = ground (arith, lookup-drop_expired k c.expirations c.now c)

pub exists_finds_lem :
    (key w : Bytes) (c : MockRemoteCache)
    → (exists key c).1 ≡ none
    → IsLive c key
    → first_value c key ≡ some w
    → (exists key c).0 ≡ true
unfolding exists
exists_finds_lem key w c ok live h = ground (arith, cleanup_value key c live)

state-exists : (key : Bytes) (c : MockRemoteCache) → (exists key c).2 ≡ cleanup_expiry c
unfolding exists
state-exists key c = ground arith

pub exists_keeps_lem :
    (key k : Bytes) (c : MockRemoteCache)
    → IsLive c k
    → (first_value (exists key c).2 k ≡ first_value c k) × IsLive (exists key c).2 k
exists_keeps_lem key k c live =
    rw (state-exists key c) (ground (arith, cleanup_value k c live), cleanup-IsLive k c live)

pub try_set_live_lem :
    (key v : Bytes) (life : Duration) (c : MockRemoteCache)
    → IsLive c key
    → IsLive (try_set key v life c).2 key
unfolding try_set expire_at
try_set_live_lem key v life c live =
    ground (arith, is_past-put key (c.now + life) c.expirations c.now)

-- TrySet of the mock cache keeps the first value of a key and returns it to every later caller.
unfoldable pub mock_value_laws :
    (codec : LogCodec) (match : Bytes → Bytes → Bool) → ValueLaws (mock_remote codec match)
mock_value_laws codec match = record {
  value = first_value;
  IsLive = IsLive;
  try_set_first = try_set_first_lem;
  try_set_again = try_set_again_lem;
  try_set_live = try_set_live_lem;
  exists_finds = exists_finds_lem;
  exists_keeps = exists_keeps_lem;
}
