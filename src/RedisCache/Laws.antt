-- ===== src/RedisCache/Laws.antt =====
-- What Redis documents of the commands that the cache sends, for the commands that return no error:
-- a set at a key, and a text at a key.
use ct_mapreduce.Prelude.{
  Bool, true, ◌&&◌, ◌||◌, Bytes, bytes_eq, member, Option, none, some, ◌≡◌, if◌then◌else◌,
}
use ct_mapreduce.GoLib.Time.{Time, Duration}
use ct_mapreduce.RedisCache.{RedisClient}

module _ {S : Type 0} (client : RedisClient S) where
  open client use {s_add, s_scan, exists, expire_at, set_nx, get, set}

  -- `holds s key x` says that `x` is in the set at the key; `text s key` is the text at the key.
  pub record RedisLaws : Type 1 where
    pub holds : S → Bytes → Bytes → Bool
    pub text : S → Bytes → Option Bytes
    -- the clock of the server
    pub is_ahead : S → Time → Bool
    -- SADD returns how many elements were added to the set.
    pub s_add_count :
        (key x : Bytes) (s : S)
        → (s_add key x s).1 ≡ none
        → (s_add key x s).0 ≡ (if holds s key x then 0 else 1)
    pub s_add_adds :
        (key x : Bytes) (s : S)
        → (s_add key x s).1 ≡ none
        → (k y : Bytes)
        → holds (s_add key x s).2 k y ≡ (bytes_eq key k && bytes_eq y x || holds s k y)
    -- EXPIREAT at a later time deletes nothing yet.
    pub expire_at_keeps :
        (key : Bytes) (t : Time) (s : S)
        → is_ahead s t ≡ true
        → (k y : Bytes) → holds (expire_at key t s).2 k y ≡ holds s k y
    -- A full iteration of SSCAN returns every element, some perhaps several times.
    pub s_scan_values :
        (key : Bytes) (s : S)
        → (s_scan key s).0.error ≡ none
        → (s_scan key s).0.iter_error ≡ none
        → (x : Bytes) → member x (s_scan key s).0.values ≡ holds (s_scan key s).1 key x
    -- SETNX sets the text of a key that holds none, and else leaves it.
    pub set_nx_text :
        (key v : Bytes) (life : Duration) (s : S)
        → (set_nx key v life s).1 ≡ none
        → text (set_nx key v life s).2 key ≡ (elim (text s key) [ none ↦ some v | some w ↦ some w ])
    pub get_text :
        (key w : Bytes) (s : S) → (get key s).1 ≡ none → text s key ≡ some w → (get key s).0 ≡ w
    pub get_keeps : (key k : Bytes) (s : S) → text (get key s).2 k ≡ text s k
    pub set_text :
        (key v : Bytes) (life : Duration) (s : S)
        → (set key v life s).1 ≡ none
        → text (set key v life s).2 key ≡ some v
    -- EXISTS counts the keys that exist.
    pub exists_count :
        (key w : Bytes) (s : S)
        → (exists key s).1 ≡ none
        → text s key ≡ some w
        → (exists key s).0 ≡ 1
    pub exists_keeps : (key k : Bytes) (s : S) → text (exists key s).2 k ≡ text s k
