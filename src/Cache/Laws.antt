-- ===== src/Cache/Laws.antt =====
-- What the clients of a remote cache rely on: a set of entries at each key, and a value at each key
-- of TrySet. A method may fail; the laws speak of the calls that return no error.
use ct_mapreduce.Prelude.{
  Bool, true, not, ◌&&◌, ◌||◌, Bytes, bytes_eq, member, Option, none, some, ◌≡◌,
}
use ct_mapreduce.GoLib.Time.{Time, Duration}
use ct_mapreduce.Cache.{RemoteCache}

module _ {S : Type 0} (cache : RemoteCache S) where
  open cache use {set_insert, set_to_chan, set_list, expire_at, try_set, exists}

  pub record SetLaws : Type 1 where
    pub IsGood : S → Type 0
    pub contains : S → Bytes → Bytes → Bool
    pub expires_later : S → Time → Bool
    pub insert_keeps : (key e : Bytes) (s : S) → IsGood s → IsGood (set_insert key e s).2
    pub insert_result :
        (key e : Bytes) (s : S)
        → IsGood s
        → (set_insert key e s).1 ≡ none
        → (set_insert key e s).0 ≡ not (contains s key e)
    pub insert_adds :
        (key e : Bytes) (s : S)
        → IsGood s
        → (set_insert key e s).1 ≡ none
        → (k x : Bytes)
        → contains (set_insert key e s).2 k x ≡ (bytes_eq key k && bytes_eq x e || contains s k x)
    pub expire_keeps : (key : Bytes) (t : Time) (s : S) → IsGood s → IsGood (expire_at key t s).2
    pub expire_later :
        (key : Bytes) (t : Time) (s : S)
        → expires_later s t ≡ true
        → (k x : Bytes) → contains (expire_at key t s).2 k x ≡ contains s k x
    pub chan_sends :
        (key : Bytes) (s : S)
        → IsGood s
        → (set_to_chan key s).1 ≡ none
        → (x : Bytes) → member x (set_to_chan key s).0 ≡ contains (set_to_chan key s).2 key x

  -- `IsLive s key` says that no expiration of the key has passed, whether it holds a value or not.
  pub record ValueLaws : Type 1 where
    pub value : S → Bytes → Option Bytes
    pub IsLive : S → Bytes → Type 0
    pub try_set_first :
        (key v : Bytes) (life : Duration) (s : S)
        → (try_set key v life s).1 ≡ none
        → value s key ≡ none
        → ((try_set key v life s).0 ≡ v) × (value (try_set key v life s).2 key ≡ some v)
    pub try_set_again :
        (key v w : Bytes) (life : Duration) (s : S)
        → (try_set key v life s).1 ≡ none
        → value s key ≡ some w
        → ((try_set key v life s).0 ≡ w) × (value (try_set key v life s).2 key ≡ some w)
    pub try_set_live :
        (key v : Bytes) (life : Duration) (s : S)
        → IsLive s key
        → IsLive (try_set key v life s).2 key
    pub exists_finds :
        (key w : Bytes) (s : S)
        → (exists key s).1 ≡ none
        → IsLive s key
        → value s key ≡ some w
        → (exists key s).0 ≡ true
    pub exists_keeps :
        (key k : Bytes) (s : S)
        → IsLive s k
        → (value (exists key s).2 k ≡ value s k) × IsLive (exists key s).2 k
