-- ===== src/Coordinator.antt =====
-- coordinator/coordinator.go: the election of a leader by TrySet, and the start signal.
pub mod Election
pub mod Start
use ct_mapreduce.Prelude.{
  ◌*◌, Bool, true, false, ◌&&◌, not, Bytes, bytes, bytes_eq, Error, Result, ok, err, Option, none,
  some, List, [], ◌∷◌, ◌++◌, if◌then◌else◌,
}
use ct_mapreduce.Cache.{RemoteCache}
use ct_mapreduce.GoLib.Time.{Duration, minute, millisecond}

abbrev pub leader_prefix : Bytes
leader_prefix = bytes "leader-"

abbrev pub started_prefix : Bytes
started_prefix = bytes "started-"

-- The cache is an argument of the methods.
pub record Coordinator : Type 0 where
  pub name : Bytes
  pub is_leader : Bool
  pub identifier : Bytes
  pub key_life_initial : Duration
  pub key_life_renewal : Duration
  pub renewal_period : Duration
  pub await_sleep_period : Duration

unfoldable pub new_coordinator : Bytes → Coordinator
new_coordinator name = record {
  name = name;
  is_leader = false;
  identifier = [];
  key_life_initial = 5 * minute;
  key_life_renewal = 2 * minute;
  renewal_period = minute;
  await_sleep_period = 250 * millisecond;
}

-- What a method returns, with the state of the cache and the key whose life the goroutine that it
-- starts renews. `aborted` stands for glog.Fatalf, which ends the process.
pub record Ending (S A : Type 0) : Type 0 where
  pub value : A
  pub error : Option Error
  pub coordinator : Coordinator
  pub cache : S
  pub renewing : Option Bytes
  pub aborted : Bool

abbrev is_error : Option Error → Bool
is_error none = false
is_error (some e) = true

abbrev message : Bytes → Option Error
message text = some (record { text = text })

module _ {S : Type 0} (cache : RemoteCache S) where
  abbrev ends : {A : Type 0} → A → Option Error → Coordinator → S → Ending S A
  ends a e c s = record {
    value = a;
    error = e;
    coordinator = c;
    cache = s;
    renewing = none;
    aborted = false;
  }

  -- the part of AwaitLeader behind TrySet, which gave `result`
  unfoldable pub take_office : Bytes → Bytes → Coordinator → S → Ending S Bool
  take_office our_identifier result c s =
      let c' : Coordinator = record c {
        identifier = result;
        is_leader = bytes_eq result our_identifier;
      } in
      if c'.is_leader
      then (let (started, e, s') = cache.exists (started_prefix ++ c'.identifier) s in
          record {
            value = true;
            error = none;
            coordinator = c';
            cache = s';
            renewing = some (leader_prefix ++ c'.name);
            aborted = is_error e && started;
          })
      else ends false none c' s

  -- AwaitLeader, on a host of the given name (os.Hostname may fail); `random_hex` is the text that
  -- `%X` makes of the random number
  unfoldable pub await_leader : Result Bytes → Bytes → Coordinator → S → Ending S Bool
  await_leader (err e) random_hex c s = ends false (some e) c s
  await_leader (ok hostname) random_hex c s =
      let our_identifier = hostname ++ (bytes "-" ++ random_hex) in
      let (result, e, s') =
        cache.try_set (leader_prefix ++ c.name) our_identifier c.key_life_initial s in
      elim e [ some e ↦ ends false (some e) c s' | none ↦ take_office our_identifier result c s' ]

  -- a round of the goroutine that a leader starts
  unfoldable pub renew : Bytes → Coordinator → S → S
  renew key c s = let (_, _, s') = cache.expire_in key c.key_life_renewal s in s'

  -- the polls of AwaitStart: between two of them the cache goes through a step of the others
  unfoldable pub poll_start : Coordinator → List (S → S) → S → Ending S (Option (Unit {0}))
  poll_start c [] s = ends none none c s
  poll_start c (others ∷ rest) s =
      let (started, e, s') = cache.exists (started_prefix ++ c.identifier) s in
      elim e [
        | some e ↦ ends (some tt) (some e) c s'
        | none ↦ elim started [
          | true ↦ ends (some tt) none c s'
          | false ↦ poll_start c rest (others s')
        ]
      ]

  -- AwaitStart; its value is `none` while it has not returned
  unfoldable pub await_start : Coordinator → List (S → S) → S → Ending S (Option (Unit {0}))
  await_start c steps s =
      if bytes_eq c.identifier []
      then ends (some tt) (message (bytes "Must not call before AwaitLeader completes")) c s
      else if c.is_leader
      then ends (some tt) (message (bytes "Must not call unless we're a follower")) c s
      else poll_start c steps s

  -- the part of SendStart behind its two checks
  unfoldable pub announce_start : Coordinator → S → Ending S (Unit {0})
  announce_start c s =
      let started_key = started_prefix ++ c.identifier in
      let (result, e, s') = cache.try_set started_key c.identifier c.key_life_initial s in
      elim e [
        | some e ↦ ends tt (some e) c s'
        | none ↦ record {
          value = tt;
          error = none;
          coordinator = c;
          cache = s';
          renewing = some started_key;
          aborted = not (bytes_eq result c.identifier);
        }
      ]

  -- SendStart
  unfoldable pub send_start : Coordinator → S → Ending S (Unit {0})
  send_start c s =
      if bytes_eq c.identifier []
      then ends tt (message (bytes "Must not call before AwaitLeader completes")) c s
      else if c.is_leader
      then announce_start c s
      else ends tt (message (bytes "Must not call unless we're leader")) c s
