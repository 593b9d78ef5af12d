-- ===== src/Tests/Redis.antt =====
-- The Redis cache, over a server that holds sets and texts.
use ct_mapreduce.Prelude.{
  ◌*◌, ◌+◌, ◌/◌, Bool, Option, Error, ◌≤◌, ltb, true, false, ◌&&◌, ◌||◌, Bytes, bytes, bytes_eq,
  bytes_eq_iff, member, none, some, List, [], ◌∷◌, length, ◌≡◌, refl, arith, if◌then◌else◌,
}
use ct_mapreduce.GoLib.Assoc.{lookup, put, delete, lookup-delete, lookup-put, lookup-put_self}
use ct_mapreduce.GoLib.Time.{Time, hour, second, truncate}
use ct_mapreduce.RedisCache.{RedisCache, RedisClient, try_set, set_insert, expire_at}
use ct_mapreduce.RedisCache.Laws.{RedisLaws}
use ct_mapreduce.RedisCache.LastHour.{DeletionLaws, unknown_again}
use ct_mapreduce.RedisCache.Remote.{kept, redis_remote, try_set_lem}
use ct_mapreduce.Certificate.{Certificate}
use ct_mapreduce.CtFetch.Filter.{FilterConfig, cert_is_filtered_out}
use ct_mapreduce.Storage.ExpDate.{new_exp_date_from_time}
use ct_mapreduce.Storage.KnownCertificates.{
  KnownCertificates, new_known_certificates, was_unknown, serial_id,
}
use ct_mapreduce.Storage.Serial.{binary_string}
use ct_mapreduce.Tests.Data.{plain_codec, leaf_cert, serial, key, entry_a, entry_b}

record Server : Type 0 where
  sets : List (Bytes × List Bytes)
  texts : List (Bytes × Bytes)

abbrev elements : Server → Bytes → List Bytes
elements s key = elim (lookup key s.sets) [ none ↦ [] | some l ↦ l ]

abbrev text_at : Server → Bytes → Bytes
text_at s key = elim (lookup key s.texts) [ none ↦ [] | some w ↦ w ]

abbrev add : Bytes → Bytes → Server → Server
add key x s = record s { sets = put key (x ∷ elements s key) s.sets }

abbrev set_text : Bytes → Bytes → Server → Server
set_text key v s = record s { texts = put key v s.texts }

-- the clock of the server: 2020-09-13 at 12
abbrev noon : Time
noon = 884_143 * 24 * hour + 12 * hour

abbrev client : RedisClient Server
client = record {
  ping = λ s. (tt, none, s);
  info = λ section s. (bytes "maxmemory_policy:noeviction", none, s);
  s_add = λ key x s. (if member x (elements s key) then 0 else 1, none, add key x s);
  s_rem = λ key x s. (0, none, s);
  s_is_member = λ key x s. (member x (elements s key), none, s);
  s_members = λ key s. (elements s key, none, s);
  s_scan = λ key s. (record { error = none; values = elements s key; iter_error = none }, s);
  s_card = λ key s. (length (elements s key), none, s);
  exists = λ key s. (elim (lookup key s.texts) [ none ↦ 0 | some w ↦ 1 ], none, s);
  expire_at = λ key t s.
      if ltb noon t then (true, none, s) else (true, none, record s { sets = delete key s.sets });
  expire = λ key d s. (true, none, s);
  r_push = λ key x s. (1, none, s);
  b_r_pop_l_push = λ key dest d s. ([], none, s);
  l_rem = λ key n x s. (0, none, s);
  l_pop = λ key s. ([], none, s);
  l_len = λ key s. (0, none, s);
  scan = λ pattern s. (record { error = none; values = []; iter_error = none }, s);
  set_nx = λ key v d s. elim (lookup key s.texts) [
    | none ↦ (true, none, set_text key v s)
    | some w ↦ (false, none, s)
  ];
  get = λ key s. (text_at s key, none, s);
  set = λ key v d s. (tt, none, set_text key v s);
}

added :
    (j x : Bytes) (s : Server) (k y : Bytes)
    → member y (elements (add j x s) k) ≡ (bytes_eq j k && bytes_eq y x || member y (elements s k))
unfolding member
added j x s k y = ground (arith, bytes_eq_iff j k, lookup-put j k (x ∷ elements s j) s.sets)

set_nx_sets :
    (key v : Bytes) (s : Server)
    → lookup key (client.set_nx key v 0 s).2.texts
      ≡ (elim (lookup key s.texts) [ none ↦ some v | some w ↦ some w ])
set_nx_sets k v s = ground (arith, lookup-put_self k v s.texts)

read_text :
    (k w : Bytes) (s : Server)
    → (client.get k s).1 ≡ none
    → lookup k s.texts ≡ some w
    → text_at s k ≡ w
read_text k w s fine stands = ground (arith, stands)

count_one :
    (k w : Bytes) (s : Server)
    → (client.exists k s).1 ≡ none
    → lookup k s.texts ≡ some w
    → (client.exists k s).0 ≡ 1
count_one k w s fine stands = ground (arith, stands)

kept_ahead :
    (key : Bytes) (t : Time) (s : Server)
    → ltb noon t ≡ true
    → (k y : Bytes) → member y (elements (client.expire_at key t s).2 k) ≡ member y (elements s k)
kept_ahead key t s h k y = rw h

abbrev laws : RedisLaws client
laws = record {
  holds = λ s key x. member x (elements s key);
  text = λ s key. lookup key s.texts;
  is_ahead = λ s t. ltb noon t;
  s_add_count = λ key x s h. refl;
  s_add_adds = λ key x s h k y. added key x s k y;
  expire_at_keeps = kept_ahead;
  s_scan_values = λ key s h h' x. refl;
  set_nx_text = λ key v life s h. set_nx_sets key v s;
  get_text = read_text;
  get_keeps = λ key k s. refl;
  set_text = λ key v life s h. lookup-put_self key v s.texts;
  exists_count = count_one;
  exists_keeps = λ key k s. refl;
}

-- A server on which a leader has set its name.
abbrev cache : RedisCache Server
cache = record { server = record { sets = []; texts = (key, entry_a) ∷ [] }; aborted = false }

asks : (try_set client key entry_b hour cache).1 ≡ none
unfolding try_set lookup bytes_eq
asks = refl

try_set_lem_example :
    ((try_set client key entry_b hour cache).0 ≡ kept (lookup key cache.server.texts) entry_b)
    × (lookup key (try_set client key entry_b hour cache).2.server.texts
        ≡ some (kept (lookup key cache.server.texts) entry_b))
    × ((try_set client key entry_b hour cache).2.aborted ≡ false)
try_set_lem_example = try_set_lem client laws key entry_b hour cache asks

deleted :
    (key : Bytes) (t : Time) (s : Server)
    → t ≤ noon
    → (x : Bytes) → member x (elements (client.expire_at key t s).2 key) ≡ false
unfolding member
deleted key t s past x = ground (arith, lookup-delete key key s.sets, bytes_eq_iff key key)

abbrev deletion : DeletionLaws client laws
deletion = record {
  clock = λ s. noon;
  expire_at_deletes = λ key t s past fine x. deleted key t s past x;
}

-- A certificate that is good until half past twelve.
abbrev late_cert : Certificate
late_cert = record leaf_cert { not_after = noon + hour / 2 }

abbrev no_filter : FilterConfig
no_filter = record { issuer_cn_filter = []; log_expired_entries = false }

abbrev empty_server : RedisCache Server
empty_server = record { server = record { sets = []; texts = [] }; aborted = false }

abbrev late : KnownCertificates
late = new_known_certificates (new_exp_date_from_time late_cert.not_after) (bytes "iss")

abbrev first : Bool × Option Error × KnownCertificates × RedisCache Server
first = was_unknown (redis_remote client plain_codec) serial late empty_server

expires : (key : Bytes) (t : Time) (c : RedisCache Server) → (expire_at client key t c).1 ≡ none
unfolding expire_at
expires key t c = ground arith

inserts : (key x : Bytes) (c : RedisCache Server) → (set_insert client key x c).1 ≡ none
unfolding set_insert
inserts key x c = ground arith

answers :
    (kc : KnownCertificates) (c : RedisCache Server)
    → (was_unknown (redis_remote client plain_codec) serial kc c).1 ≡ none
unfolding was_unknown
answers kc c = ground (arith, inserts (serial_id kc) (binary_string serial) c)

unknown_again_example :
    (cert_is_filtered_out no_filter (noon + 60 * second) late_cert ≡ false)
    × ((was_unknown (redis_remote client plain_codec) serial first.2 first.3).0 ≡ true)
unknown_again_example =
    unknown_again client laws deletion plain_codec no_filter late_cert (bytes "iss")
      (noon + 60 * second) serial empty_server refl refl (omega arith) (omega arith)
      (inserts (serial_id late) (binary_string serial) empty_server)
      (expires (serial_id late) (truncate late_cert.not_after hour)
        (set_insert client (serial_id late) (binary_string serial) empty_server).2)
      (answers first.2 first.3)
