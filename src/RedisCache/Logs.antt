-- ===== src/RedisCache/Logs.antt =====
-- The state of a log in the Redis cache, under a key of its own.
use ct_mapreduce.Prelude.{Bytes, ok, none, some, ◌≡◌, arith}
use ct_mapreduce.Cache.{CertificateLog}
use ct_mapreduce.Cache.Codec.{LogCodec, IsFaithful}
use ct_mapreduce.RedisCache.{
  RedisCache, RedisClient, store_log_state, load_log_state, decode_log, short_url_to_log_key,
  no_expiration,
}
use ct_mapreduce.RedisCache.Laws.{RedisLaws}

module _ {S : Type 0} (client : RedisClient S) (laws : RedisLaws client) (codec : LogCodec)
    (faithful : IsFaithful codec) where
  open laws use {text}

  -- Where neither call fails, LoadLogState returns the state that StoreLogState has stored for the
  -- log's URL.
  load_log_state-store_log_state :
      (log : CertificateLog) (encoded : Bytes) (c : RedisCache S)
      → codec.marshal log ≡ ok encoded
      → (store_log_state client codec log c).1 ≡ none
      → (client.get
          (short_url_to_log_key log.short_url)
          (store_log_state client codec log c).2.server).1
        ≡ none
      → ((load_log_state client codec log.short_url (store_log_state client codec log c).2).0
          ≡ some log)
        × ((load_log_state client codec log.short_url (store_log_state client codec log c).2).1
            ≡ none)
  unfolding store_log_state load_log_state decode_log
  load_log_state-store_log_state log encoded c h stored read =
      let key : Bytes = short_url_to_log_key log.short_url in
      let s = (client.set key encoded no_expiration c.server).2 in
      let fine : (client.set key encoded no_expiration c.server).1 ≡ none = ground arith in
      let answered : (client.get key s).1 ≡ none = ground arith in
      ground (
        arith,
        faithful log encoded h,
        laws.get_text key encoded s answered
            (laws.set_text key encoded no_expiration c.server fine),
      )
