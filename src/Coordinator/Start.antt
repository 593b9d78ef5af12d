-- ===== src/Coordinator/Start.antt =====
-- The start signal: who may send it and who may wait for it.
use ct_mapreduce.Prelude.{
  true, false, Bytes, bytes_eq, bytes_eq_iff, bytes_eq_refl, none, some, List, [], ◌∷◌, ◌++◌, ◌≡◌,
  ◌≢◌, arith,
}
use ct_mapreduce.Cache.{RemoteCache}
use ct_mapreduce.Cache.Laws.{ValueLaws}
use ct_mapreduce.Coordinator.{
  Coordinator, await_start, poll_start, send_start, announce_start, started_prefix,
}
use ct_mapreduce.GoLib.Time.{Duration}

module _ {S : Type 0} (cache : RemoteCache S) where
  -- Before AwaitLeader has given an identifier both methods refuse, and change nothing.
  start_needs_identifier :
      (c : Coordinator) (steps : List (S → S)) (s : S)
      → c.identifier ≡ []
      → ((send_start cache c s).error ≢ none)
        × ((send_start cache c s).cache ≡ s)
        × ((await_start cache c steps s).error ≢ none)
        × ((await_start cache c steps s).cache ≡ s)
  unfolding send_start await_start
  start_needs_identifier c steps s h = ground (arith, bytes_eq_iff c.identifier [])

  module _ (laws : ValueLaws cache) where
    open laws use {value, IsLive}

    announced_lem :
        (c : Coordinator) (s : S)
        → c.is_leader ≡ true
        → bytes_eq c.identifier [] ≡ false
        → (cache.try_set (started_prefix ++ c.identifier) c.identifier c.key_life_initial s).1
          ≡ none
        → (send_start cache c s).cache
          ≡ (cache.try_set (started_prefix ++ c.identifier) c.identifier c.key_life_initial s).2
    unfolding send_start announce_start
    announced_lem c s lead named h = ground arith

    -- Where no call fails and the key of the signal is not set and stays alive, the leader does
    -- not abort, and a follower that knows the leader returns from AwaitStart at its first poll
    -- once the leader has sent the start signal.
    pub await_start-send_start :
        (leader follower : Coordinator) (others : S → S) (steps : List (S → S)) (s : S)
        → leader.is_leader ≡ true
        → follower.is_leader ≡ false
        → follower.identifier ≡ leader.identifier
        → bytes_eq leader.identifier [] ≡ false
        → value s (started_prefix ++ leader.identifier) ≡ none
        → IsLive s (started_prefix ++ leader.identifier)
        → (send_start cache leader s).error ≡ none
        → (cache.exists (started_prefix ++ leader.identifier) (send_start cache leader s).cache).1
          ≡ none
        → ((send_start cache leader s).aborted ≡ false)
          × ((await_start cache follower (others ∷ steps) (send_start cache leader s).cache).error
              ≡ none)
          × ((await_start cache follower (others ∷ steps) (send_start cache leader s).cache).value
              ≡ some tt)
    unfolding send_start announce_start await_start poll_start
    await_start-send_start leader follower others steps s lead follow same named absent live sent
          asked =
        let key : Bytes = started_prefix ++ leader.identifier in
        let life : Duration = leader.key_life_initial in
        let no_error : (cache.try_set key leader.identifier life s).1 ≡ none = ground arith in
        let (result, stored) = laws.try_set_first key leader.identifier life s no_error absent in
        let announced = announced_lem leader s lead named no_error in
        let found =
          laws.exists_finds key leader.identifier (cache.try_set key leader.identifier life s).2
            (rw announced at asked) (laws.try_set_live key leader.identifier life s live) stored in
        rw announced (ground (arith, bytes_eq_refl leader.identifier))
