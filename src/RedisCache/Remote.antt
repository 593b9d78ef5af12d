-- ===== src/RedisCache/Remote.antt =====
-- The Redis cache as the remote cache of the program, and the laws that its clients rely on.
use ct_mapreduce.Prelude.{
  true, not, ◌&&◌, ◌||◌, Bytes, Error, ◌≢◌, bytes_eq, member, Option, Option-cases, none, some, inl,
  inr, ◌≡◌, refl, ◌∙◌, arith,
}
use ct_mapreduce.Cache.{RemoteCache}
use ct_mapreduce.Cache.Codec.{LogCodec}
use ct_mapreduce.Cache.Laws.{SetLaws, ValueLaws}
use ct_mapreduce.GoLib.Time.{Time, Duration}
use ct_mapreduce.RedisCache
use ct_mapreduce.RedisCache.{
  RedisCache, RedisClient, set_insert, set_to_chan, expire_at, try_set, exists,
}
use ct_mapreduce.RedisCache.Laws.{RedisLaws}

abbrev pub redis_remote : {S : Type 0} → RedisClient S → LogCodec → RemoteCache (RedisCache S)
redis_remote client codec = record {
  exists = RedisCache.exists client;
  set_insert = RedisCache.set_insert client;
  set_remove = RedisCache.set_remove client;
  set_contains = RedisCache.set_contains client;
  set_list = RedisCache.set_list client;
  set_to_chan = RedisCache.set_to_chan client;
  set_cardinality = RedisCache.set_cardinality client;
  expire_at = RedisCache.expire_at client;
  expire_in = RedisCache.expire_in client;
  queue = RedisCache.queue client;
  pop = RedisCache.pop client;
  queue_length = RedisCache.queue_length client;
  blocking_pop_copy = RedisCache.blocking_pop_copy client;
  list_remove = RedisCache.list_remove client;
  try_set = RedisCache.try_set client;
  keys_to_chan = RedisCache.keys_to_chan client;
  store_log_state = RedisCache.store_log_state client codec;
  load_log_state = RedisCache.load_log_state client codec;
}

-- What TrySet returns and leaves: the text that stood at the key, else the one that it was given.
abbrev pub kept : Option Bytes → Bytes → Bytes
kept none v = v
kept (some w) v = w

module _ {S : Type 0} (client : RedisClient S) (laws : RedisLaws client) where
  open laws use {holds, text, is_ahead}

  set_text :
      (key v : Bytes) (life : Duration) (s : S)
      → (client.set_nx key v life s).1 ≡ none
      → text (client.set_nx key v life s).2 key ≡ some (kept (text s key) v)
  set_text key v life s h = ground (arith, laws.set_nx_text key v life s h)

  fails :
      (key v : Bytes) (life : Duration) (c : RedisCache S) (e : Error)
      → (client.set_nx key v life c.server).1 ≡ some e
      → (try_set client key v life c).1 ≢ none
  unfolding try_set
  fails key v life c e bad = ground arith

  -- Over a client that keeps the documented behaviour of Redis, and without an error, TrySet
  -- returns the text that stands at the key, which is the given one only if there was none, and
  -- the key keeps it.
  pub try_set_lem :
      (key v : Bytes) (life : Duration) (c : RedisCache S)
      → (try_set client key v life c).1 ≡ none
      → ((try_set client key v life c).0 ≡ kept (text c.server key) v)
        × (text (try_set client key v life c).2.server key ≡ some (kept (text c.server key) v))
        × ((try_set client key v life c).2.aborted ≡ c.aborted)
  unfolding try_set
  try_set_lem key v life c h =
      let (_, e, s) = client.set_nx key v life c.server in
      elim (Option-cases (client.set_nx key v life c.server).1) [
        | inr (e', bad) ↦ absurd (fails key v life c e' bad h)
        | inl fine ↦
            let stands = set_text key v life c.server fine in
            let answered : (client.get key s).1 ≡ none = rw (fine, try_set) at h in
            rw (fine, try_set)
              (
                laws.get_text key (kept (text c.server key) v) s answered stands,
                laws.get_keeps key key s ∙ stands,
                refl,
              )
      ]

  pub set_insert_result :
      (key e : Bytes) (c : RedisCache S)
      → (set_insert client key e c).1 ≡ none
      → (set_insert client key e c).0 ≡ not (holds c.server key e)
  unfolding set_insert
  set_insert_result key e c h = ground (arith, laws.s_add_count key e c.server)

  pub set_insert_adds :
      (key e : Bytes) (c : RedisCache S)
      → (set_insert client key e c).1 ≡ none
      → (k x : Bytes)
      → holds (set_insert client key e c).2.server k x
        ≡ (bytes_eq key k && bytes_eq x e || holds c.server k x)
  unfolding set_insert
  set_insert_adds key e c h k x =
      let fine : (client.s_add key e c.server).1 ≡ none = ground arith in
      ground (arith, laws.s_add_adds key e c.server fine k x)

  pub expire_later :
      (key : Bytes) (t : Time) (c : RedisCache S)
      → is_ahead c.server t ≡ true
      → (k x : Bytes) → holds (expire_at client key t c).2.server k x ≡ holds c.server k x
  unfolding expire_at
  expire_later key t c h k x = laws.expire_at_keeps key t c.server h k x

  scan_fails :
      (key : Bytes) (c : RedisCache S) (e : Error)
      → (client.s_scan key c.server).0.error ≡ some e
      → (set_to_chan client key c).1 ≢ none
  unfolding set_to_chan
  scan_fails key c e bad = ground arith

  pub chan_sends :
      (key : Bytes) (c : RedisCache S)
      → (set_to_chan client key c).1 ≡ none
      → (x : Bytes)
      → member x (set_to_chan client key c).0 ≡ holds (set_to_chan client key c).2.server key x
  unfolding set_to_chan
  chan_sends key c h x = elim (Option-cases (client.s_scan key c.server).0.error) [
    | inr (e, bad) ↦ absurd (scan_fails key c e bad h)
    | inl fine ↦
        let ended : (client.s_scan key c.server).0.iter_error ≡ none = ground arith in
        ground (arith, laws.s_scan_values key c.server fine ended x)
  ]

  pub exists_finds :
      (key w : Bytes) (c : RedisCache S)
      → (exists client key c).1 ≡ none
      → text c.server key ≡ some w
      → (exists client key c).0 ≡ true
  unfolding exists
  exists_finds key w c h stands = ground (arith, laws.exists_count key w c.server h stands)

  pub exists_keeps_text :
      (key k : Bytes) (c : RedisCache S) → text (exists client key c).2.server k ≡ text c.server k
  unfolding exists
  exists_keeps_text key k c = laws.exists_keeps key k c.server

  pub try_set_first_lem :
      (key v : Bytes) (life : Duration) (c : RedisCache S)
      → (try_set client key v life c).1 ≡ none
      → text c.server key ≡ none
      → ((try_set client key v life c).0 ≡ v)
        × (text (try_set client key v life c).2.server key ≡ some v)
  try_set_first_lem key v life c h absent = ground (arith, try_set_lem key v life c h)

  pub try_set_again_lem :
      (key v w : Bytes) (life : Duration) (c : RedisCache S)
      → (try_set client key v life c).1 ≡ none
      → text c.server key ≡ some w
      → ((try_set client key v life c).0 ≡ w)
        × (text (try_set client key v life c).2.server key ≡ some w)
  try_set_again_lem key v w life c h stands = ground (arith, try_set_lem key v life c h)

  module _ (codec : LogCodec) where
    -- The Redis cache keeps the laws of a set at each key.
    unfoldable pub redis_set_laws : SetLaws (redis_remote client codec)
    redis_set_laws = record {
      IsGood = λ c. Unit {0};
      contains = λ c key x. holds c.server key x;
      expires_later = λ c t. is_ahead c.server t;
      insert_keeps = λ key e c good. tt;
      insert_result = λ key e c good ok. set_insert_result key e c ok;
      insert_adds = λ key e c good ok k x. set_insert_adds key e c ok k x;
      expire_keeps = λ key t c good. tt;
      expire_later = expire_later;
      chan_sends = λ key c good ok x. chan_sends key c ok x;
    }

    -- A key is live as long as the server answers for it: no time passes within a call.
    unfoldable pub redis_value_laws : ValueLaws (redis_remote client codec)
    redis_value_laws = record {
      value = λ c key. text c.server key;
      IsLive = λ c key. Unit {0};
      try_set_first = try_set_first_lem;
      try_set_again = try_set_again_lem;
      try_set_live = λ key v life c live. tt;
      exists_finds = λ key w c ok live stands. exists_finds key w c ok stands;
      exists_keeps = λ key k c live. (exists_keeps_text key k c, tt);
    }
