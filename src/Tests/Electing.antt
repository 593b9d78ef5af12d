-- ===== src/Tests/Electing.antt =====
-- The election and the start signal.
use ct_mapreduce.Prelude.{
  true, false, Bytes, bytes, bytes_eq, none, some, [], ◌∷◌, ◌++◌, ◌≡◌, refl, arith,
}
use ct_mapreduce.GoLib.Time.{Duration}
use ct_mapreduce.GoLib.Assoc.{lookup}
use ct_mapreduce.MockCache.{MockRemoteCache, mock_cache, try_set, expire_at, exists}
use ct_mapreduce.MockCache.Values.{mock_value_laws}
use ct_mapreduce.MockCache.Sets.{is_past}
use ct_mapreduce.MockCache.Remote.{first_value}
use ct_mapreduce.Coordinator.{
  Coordinator, await_start, send_start, announce_start, leader_prefix, started_prefix,
}
use ct_mapreduce.Coordinator.Election.{elect, elect_lem, Process}
use ct_mapreduce.Coordinator.Start.{await_start-send_start}
use ct_mapreduce.Tests.Data.{plain_codec, match_all, remote, empty_cache}

abbrev first_process : Process
first_process = (bytes "a", bytes "01")

abbrev second_process : Process
second_process = (bytes "b", bytes "02")

try_set_answers :
    (k v : Bytes) (life : Duration) (c : MockRemoteCache) → (try_set k v life c).1 ≡ none
unfolding try_set expire_at
try_set_answers k v life c = ground arith

exists_answers : (key : Bytes) (c : MockRemoteCache) → (exists key c).1 ≡ none
unfolding exists
exists_answers key c = ground arith

no_value : (key : Bytes) → first_value empty_cache key ≡ none
unfolding lookup
no_value key = refl

elect_lem_example :
    elect remote (bytes "mr") (first_process ∷ second_process ∷ []) empty_cache
    ≡ (true, bytes "a-01") ∷ (false, bytes "a-01") ∷ []
unfolding bytes_eq mock_value_laws is_past
elect_lem_example =
    elect_lem remote (bytes "mr") (mock_value_laws plain_codec match_all) try_set_answers
      first_process (second_process ∷ []) empty_cache (refl, tt)
      (no_value (leader_prefix ++ bytes "mr")) refl

abbrev leader : Coordinator
leader = record {
  name = bytes "mr";
  is_leader = true;
  identifier = bytes "a-01";
  key_life_initial = 300;
  key_life_renewal = 120;
  renewal_period = 60;
  await_sleep_period = 1;
}

abbrev follower : Coordinator
follower = record leader { is_leader = false }

leader_sends : (send_start remote leader empty_cache).error ≡ none
unfolding send_start announce_start mock_cache
leader_sends = refl

await_start-send_start_example :
    ((send_start remote leader empty_cache).aborted ≡ false)
    × ((await_start remote follower
          ((λ s. s) ∷ [])
          (send_start remote leader empty_cache).cache).error
        ≡ none)
    × ((await_start remote follower
          ((λ s. s) ∷ [])
          (send_start remote leader empty_cache).cache).value
        ≡ some tt)
unfolding bytes_eq mock_value_laws is_past
await_start-send_start_example =
    await_start-send_start remote (mock_value_laws plain_codec match_all) leader follower (λ s. s)
      [] empty_cache refl refl refl refl (no_value (started_prefix ++ bytes "a-01")) refl
      leader_sends
      (exists_answers (started_prefix ++ bytes "a-01") (send_start remote leader empty_cache).cache)
