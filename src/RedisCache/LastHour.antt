-- ===== src/RedisCache/LastHour.antt =====
-- storage/knowncertificates.go over the Redis cache, for a certificate in the hour in which it expires.
use ct_mapreduce.Prelude.{◌≤◌, true, false, ◌&&◌, Bytes, none, ◌≡◌, [], arith, refl}
use ct_mapreduce.Cache.Codec.{LogCodec}
use ct_mapreduce.Certificate.{Certificate}
use ct_mapreduce.CtFetch.Filter.{FilterConfig, cert_is_filtered_out, cert_is_filtered_out_iff}
use ct_mapreduce.GoLib.Time.{Time, hour, truncate}
use ct_mapreduce.RedisCache
use ct_mapreduce.RedisCache.{RedisCache, RedisClient, expire_at}
use ct_mapreduce.RedisCache.Laws.{RedisLaws}
use ct_mapreduce.RedisCache.Remote.{redis_remote, redis_set_laws, set_insert_result}
use ct_mapreduce.Storage.ExpDate.{new_exp_date_from_time, expire_time}
use ct_mapreduce.Storage.KnownCertificates.{
  KnownCertificates, new_known_certificates, was_unknown, set_expiry_flag, serial_id, same_key,
}
use ct_mapreduce.Storage.Serial.{Serial, binary_string}

module _ {S : Type 0} (client : RedisClient S) (laws : RedisLaws client) where
  open laws use {holds}

  -- What Redis documents of EXPIREAT at a time that is not ahead: it deletes the key.
  pub record DeletionLaws : Type 0 where
    pub clock : S → Time
    pub expire_at_deletes :
        (key : Bytes) (t : Time) (s : S)
        → t ≤ clock s
        → (client.expire_at key t s).1 ≡ none
        → (x : Bytes) → holds (client.expire_at key t s).2 key x ≡ false

  module _ (deletion : DeletionLaws) (codec : LogCodec) where
    open deletion use {clock}

    expire_at_forgets :
        (key : Bytes) (t : Time) (c : RedisCache S)
        → t ≤ clock c.server
        → (expire_at client key t c).1 ≡ none
        → (x : Bytes) → holds (expire_at client key t c).2.server key x ≡ false
    unfolding expire_at
    expire_at_forgets key t c past fine x = deletion.expire_at_deletes key t c.server past fine x

    -- The first call of an object leaves the cache as the expiration has left it.
    first_call :
        (serial : Serial) (kc : KnownCertificates) (c : RedisCache S)
        → kc.expiry_set ≡ false
        → (RedisCache.set_insert client (serial_id kc) (binary_string serial) c).1 ≡ none
        → (was_unknown (redis_remote client codec) serial kc c).3
          ≡ (expire_at client
              (serial_id kc)
              (expire_time kc.exp_date)
              (RedisCache.set_insert client (serial_id kc) (binary_string serial) c).2).2
    unfolding was_unknown set_expiry_flag
    first_call serial kc c unset fine = ground arith

    second_call :
        (serial : Serial) (kc : KnownCertificates) (c : RedisCache S)
        → holds c.server (serial_id kc) (binary_string serial) ≡ false
        → (was_unknown (redis_remote client codec) serial kc c).1 ≡ none
        → (was_unknown (redis_remote client codec) serial kc c).0 ≡ true
    unfolding was_unknown
    second_call serial kc c absent fine =
        ground (arith, set_insert_result client laws (serial_id kc) (binary_string serial) c)

    -- Over a Redis client that keeps the documented behaviour, where an expiration that is not
    -- ahead deletes the key: without a filter a certificate that is not of a CA passes while it
    -- has not expired, and from the beginning of the hour in which it expires on, where no
    -- command fails, the second call of WasUnknown for its serial reports again that it was
    -- unknown.
    pub unknown_again :
        (config : FilterConfig) (cert : Certificate) (issuer : Bytes) (now : Time) (serial : Serial)
        (c : RedisCache S)
        → let kc : KnownCertificates =
            new_known_certificates (new_exp_date_from_time cert.not_after) issuer in
          let inserted = RedisCache.set_insert client (serial_id kc) (binary_string serial) c in
          let first = was_unknown (redis_remote client codec) serial kc c in
          let second = was_unknown (redis_remote client codec) serial first.2 first.3 in
          (cert.basic_constraints_valid && cert.is_ca) ≡ false
          → config.issuer_cn_filter ≡ []
          → now ≤ cert.not_after
          → truncate cert.not_after hour ≤ clock inserted.2.server
          → inserted.1 ≡ none
          → (expire_at client (serial_id kc) (truncate cert.not_after hour) inserted.2).1 ≡ none
          → second.1 ≡ none
          → (cert_is_filtered_out config now cert ≡ false) × (second.0 ≡ true)
    unfolding new_known_certificates new_exp_date_from_time expire_time
    unknown_again config cert issuer now serial c leaf no_filter valid past fine expired answered =
        let kc : KnownCertificates =
          new_known_certificates (new_exp_date_from_time cert.not_after) issuer in
        let key : Bytes = serial_id kc in
        let inserted = RedisCache.set_insert client key (binary_string serial) c in
        let first = was_unknown (redis_remote client codec) serial kc c in
        let forgotten : holds first.3.server key (binary_string serial) ≡ false =
          rw (first_call serial kc c refl fine) (
            expire_at_forgets key (truncate cert.not_after hour) inserted.2 past expired
              (binary_string serial)) in
        let same : serial_id first.2 ≡ key =
          same_key (redis_remote client codec) (redis_set_laws client laws codec) serial kc c in
        (
          ground (arith, cert_is_filtered_out_iff config now cert),
          second_call serial first.2 first.3 (rw same forgotten) answered,
        )
