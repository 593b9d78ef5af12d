-- ===== src/RedisCache.antt =====
-- storage/rediscache.go over a Redis client, which is the package go-redis with its server. Metrics
-- are left out.
pub mod Laws
pub mod Remote
pub mod Logs
pub mod LastHour
use ct_mapreduce.Prelude.{
  ℕ, ◌<◌, Bool, true, false, ◌&&◌, ltb, ◌==◌, Bytes, bytes, Error, Result, ok, err, Option, none,
  some, List, [], ◌++◌, if◌then◌else◌,
}
use ct_mapreduce.Cache.{CertificateLog, Call, RemoteCache}
use ct_mapreduce.Cache.Codec.{LogCodec}
use ct_mapreduce.GoLib.Text.{contains, has_prefix}
use ct_mapreduce.GoLib.Time.{Time, Duration}

-- The answer to SCAN or SSCAN: the error of the first call, else what the iterator yields until it
-- ends, and the iterator's error.
pub record Scan : Type 0 where
  pub error : Option Error
  pub values : List Bytes
  pub iter_error : Option Error

-- The commands of the client that the cache sends.
pub record RedisClient (S : Type 0) : Type 0 where
  pub ping : Call S (Unit {0})
  pub info : Bytes → Call S Bytes
  pub s_add : Bytes → Bytes → Call S ℕ
  pub s_rem : Bytes → Bytes → Call S ℕ
  pub s_is_member : Bytes → Bytes → Call S Bool
  pub s_members : Bytes → Call S (List Bytes)
  pub s_scan : Bytes → S → Scan × S
  pub s_card : Bytes → Call S ℕ
  pub exists : Bytes → Call S ℕ
  pub expire_at : Bytes → Time → Call S Bool
  pub expire : Bytes → Duration → Call S Bool
  pub r_push : Bytes → Bytes → Call S ℕ
  pub b_r_pop_l_push : Bytes → Bytes → Duration → Call S Bytes
  pub l_rem : Bytes → ℕ → Bytes → Call S ℕ
  pub l_pop : Bytes → Call S Bytes
  pub l_len : Bytes → Call S ℕ
  pub scan : Bytes → S → Scan × S
  pub set_nx : Bytes → Bytes → Duration → Call S Bool
  pub get : Bytes → Call S Bytes
  pub set : Bytes → Bytes → Duration → Call S (Unit {0})

-- `aborted` says that glog.Fatalf has ended the process.
pub record RedisCache (S : Type 0) : Type 0 where
  pub server : S
  pub aborted : Bool

abbrev pub no_expiration : Duration
no_expiration = 0

unfoldable pub short_url_to_log_key : Bytes → Bytes
short_url_to_log_key short_url = bytes "log::" ++ short_url

abbrev begins_with_oom : Option Error → Bool
begins_with_oom none = false
begins_with_oom (some e) = has_prefix e.text (bytes "OOM")

module _ {S : Type 0} (client : RedisClient S) where
  -- A call of the client.
  abbrev on_server : {A : Type 0} → Call S A → Call (RedisCache S) A
  on_server call c = let (a, e, s) = call c.server in (a, e, record c { server = s })

  -- The channel receives the values that the scan yields, whatever its end.
  abbrev to_chan : (S → Scan × S) → Call (RedisCache S) (List Bytes)
  to_chan scan c =
      let (r, s) = scan c.server in
      elim r.error [
        | some e ↦ ([], some e, record c { server = s })
        | none ↦ (r.values, r.iter_error, record c { server = s })
      ]

  -- MemoryPolicyCorrect
  unfoldable pub memory_policy_correct : RedisCache S → Option Error × RedisCache S
  memory_policy_correct c =
      let (val, e, s) = client.info (bytes "memory") c.server in
      elim e [
        | some e ↦ (some e, record c { server = s })
        | none ↦
            if contains val (bytes "maxmemory_policy:noeviction")
            then (none, record c { server = s })
            else (
              some (record {
                text =
                    bytes "Redis maxmemory_policy should be `noeviction`. Memory config is set to "
                    ++ val;
              }),
              record c { server = s },
            )
      ]

  -- NewRedisCache, on a server in the state `s`; a wrong memory policy is only logged
  unfoldable pub new_redis_cache : S → Result (RedisCache S)
  new_redis_cache s =
      let (_, e, s') = client.ping s in
      elim e [
        | some e ↦ err e
        | none ↦ ok (memory_policy_correct (record { server = s'; aborted = false })).1
      ]

  -- At an OOM error the code ends the process: the state is then `aborted`, and what a caller of the
  -- model does behind it is no step of the program.
  unfoldable pub set_insert : Bytes → Bytes → Call (RedisCache S) Bool
  set_insert key entry c =
      let (added, e, s) = client.s_add key entry c.server in
      if begins_with_oom e
      then (added == 1, e, record c { server = s; aborted = true })
      else (added == 1, e, record c { server = s })

  unfoldable pub set_remove : Bytes → Bytes → Call (RedisCache S) Bool
  set_remove key entry c =
      let (removed, e, s) = client.s_rem key entry c.server in
      (ltb 0 removed, e, record c { server = s })

  unfoldable pub set_contains : Bytes → Bytes → Call (RedisCache S) Bool
  set_contains key entry = on_server (client.s_is_member key entry)

  unfoldable pub set_list : Bytes → Call (RedisCache S) (List Bytes)
  set_list key = on_server (client.s_members key)

  unfoldable pub set_to_chan : Bytes → Call (RedisCache S) (List Bytes)
  set_to_chan key = to_chan (client.s_scan key)

  unfoldable pub set_cardinality : Bytes → Call (RedisCache S) ℕ
  set_cardinality key = on_server (client.s_card key)

  unfoldable pub exists : Bytes → Call (RedisCache S) Bool
  exists key c =
      let (count, e, s) = client.exists key c.server in (count == 1, e, record c { server = s })

  unfoldable pub expire_at : Bytes → Time → Call (RedisCache S) (Unit {0})
  expire_at key exp_time c =
      let (_, e, s) = client.expire_at key exp_time c.server in (tt, e, record c { server = s })

  unfoldable pub expire_in : Bytes → Duration → Call (RedisCache S) (Unit {0})
  expire_in key duration c =
      let (_, e, s) = client.expire key duration c.server in (tt, e, record c { server = s })

  unfoldable pub queue : Bytes → Bytes → Call (RedisCache S) ℕ
  queue key identifier = on_server (client.r_push key identifier)

  unfoldable pub blocking_pop_copy : Bytes → Bytes → Duration → Call (RedisCache S) Bytes
  blocking_pop_copy key dest timeout = on_server (client.b_r_pop_l_push key dest timeout)

  unfoldable pub list_remove : Bytes → Bytes → Call (RedisCache S) (Unit {0})
  list_remove key value c =
      let (_, e, s) = client.l_rem key 1 value c.server in (tt, e, record c { server = s })

  unfoldable pub pop : Bytes → Call (RedisCache S) Bytes
  pop key = on_server (client.l_pop key)

  unfoldable pub queue_length : Bytes → Call (RedisCache S) ℕ
  queue_length key = on_server (client.l_len key)

  unfoldable pub keys_to_chan : Bytes → Call (RedisCache S) (List Bytes)
  keys_to_chan pattern = to_chan (client.scan pattern)

  -- two commands, with no step of another client between them
  unfoldable pub try_set : Bytes → Bytes → Duration → Call (RedisCache S) Bytes
  try_set k v life c =
      let (_, e, s) = client.set_nx k v life c.server in
      elim e [
        | some e ↦ ([], some e, record c { server = s })
        | none ↦ on_server (client.get k) (record c { server = s })
      ]

  unfoldable pub store_log_state : LogCodec → CertificateLog → Call (RedisCache S) (Unit {0})
  store_log_state codec log c = elim (codec.marshal log) [
    | err e ↦ (tt, some e, c)
    | ok encoded ↦
        on_server (client.set (short_url_to_log_key log.short_url) encoded no_expiration) c
  ]

  -- the part of LoadLogState behind the command GET, which gave `text`
  unfoldable pub decode_log : LogCodec → Bytes → Option CertificateLog × Option Error
  decode_log codec text = elim (codec.unmarshal text) [
    | err e ↦ (none, some e)
    | ok log ↦ (some log, none)
  ]

  unfoldable pub load_log_state : LogCodec → Bytes → Call (RedisCache S) (Option CertificateLog)
  load_log_state codec short_url c =
      let (text, e, s) = client.get (short_url_to_log_key short_url) c.server in
      elim e [
        | some e ↦ (none, some e, record c { server = s })
        | none ↦ let (log, e') = decode_log codec text in (log, e', record c { server = s })
      ]
