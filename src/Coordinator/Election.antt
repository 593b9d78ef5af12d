-- ===== src/Coordinator/Election.antt =====
-- Of the processes that stand for one name exactly one is elected, and all agree on it.
use ct_mapreduce.Prelude.{
  ◌*◌, Bool, true, false, Bytes, bytes, bytes_eq, bytes_eq_refl, Error, ok, Option, none, some,
  List, [], ◌∷◌, ◌++◌, map, All, ◌≡◌, refl, ◌∙◌,
}
use ct_mapreduce.Cache.{RemoteCache}
use ct_mapreduce.Cache.Laws.{ValueLaws}
use ct_mapreduce.GoLib.Time.{Duration, minute}
use ct_mapreduce.Coordinator.{
  Coordinator, Ending, new_coordinator, await_leader, take_office, leader_prefix, started_prefix,
}

-- A process is its host's name and its random number's text.
abbrev pub Process : Type 0
Process = Bytes × Bytes

abbrev pub identifier_of : Process → Bytes
identifier_of p = p.0 ++ (bytes "-" ++ p.1)

module _ {S : Type 0} (cache : RemoteCache S) (name : Bytes) where
  -- The processes call AwaitLeader one after another; whether each leads, and whom it knows as the
  -- leader.
  unfoldable pub elect : List Process → S → List (Bool × Bytes)
  elect [] s = []
  elect (p ∷ ps) s =
      let r = await_leader cache (ok p.0) p.1 (new_coordinator name) s in
      (r.value, r.coordinator.identifier) ∷ elect ps r.cache

  module _ (laws : ValueLaws cache)
      (answers : (k v : Bytes) (life : Duration) (s : S)
        → (cache.try_set k v life s).1 ≡ none) where
    open laws use {value, IsLive}

    -- The cache knows the leader of the name.
    record Knows (leader : Bytes) (s : S) : Type 0 where
      known : value s (leader_prefix ++ name) ≡ some leader
      live : IsLive s (leader_prefix ++ name)

    -- What a call of AwaitLeader leaves, where `leader` is known in the end.
    record Elected (leader : Bytes) (own : Bool) (r : Ending S Bool) : Type 0 where
      leads : r.value ≡ own
      knows : r.coordinator.identifier ≡ leader
      state : Knows leader r.cache

    take_office_own :
        (id : Bytes) (c : Coordinator) (s : S)
        → Knows id s
        → Elected id true (take_office cache id id c s)
    unfolding take_office
    take_office_own id c s k = rw (bytes_eq_refl id) (record {
      leads = refl;
      knows = refl;
      state = record {
        known =
            (laws.exists_keeps (started_prefix ++ id) (leader_prefix ++ name) s k.live).0 ∙ k.known;
        live = (laws.exists_keeps (started_prefix ++ id) (leader_prefix ++ name) s k.live).1;
      };
    })

    take_office_other :
        (id leader : Bytes) (c : Coordinator) (s : S)
        → bytes_eq leader id ≡ false
        → Knows leader s
        → Elected leader false (take_office cache id leader c s)
    unfolding take_office
    take_office_other id leader c s ne k = rw ne (record { leads = refl; knows = refl; state = k })

    -- The key, the identifier and the life that a process gives to TrySet.
    abbrev set_for : Process → S → Bytes × Option Error × S
    set_for p s = cache.try_set (leader_prefix ++ name) (identifier_of p) (5 * minute) s

    await_leader_answered :
        (p : Process) (s : S)
        → await_leader cache (ok p.0) p.1 (new_coordinator name) s
          ≡ take_office cache
              (identifier_of p)
              (set_for p s).0
              (new_coordinator name)
              (set_for p s).2
    unfolding await_leader new_coordinator
    await_leader_answered p s =
        rw (answers (leader_prefix ++ name) (identifier_of p) (5 * minute) s, await_leader)

    await_leader_first :
        (p : Process) (s : S)
        → value s (leader_prefix ++ name) ≡ none
        → IsLive s (leader_prefix ++ name)
        → Elected (identifier_of p) true (await_leader cache (ok p.0) p.1 (new_coordinator name) s)
    await_leader_first p s absent live =
        let key : Bytes = leader_prefix ++ name in
        let (result, stored) =
          laws.try_set_first key (identifier_of p) (5 * minute) s (answers _ _ _ s) absent in
        rw (await_leader_answered p s, result)
          (take_office_own (identifier_of p) (new_coordinator name) (set_for p s).2 (record {
            known = stored;
            live = laws.try_set_live key (identifier_of p) (5 * minute) s live;
          }))

    await_leader_later :
        (p : Process) (leader : Bytes) (s : S)
        → bytes_eq leader (identifier_of p) ≡ false
        → Knows leader s
        → Elected leader false (await_leader cache (ok p.0) p.1 (new_coordinator name) s)
    await_leader_later p leader s ne k =
        let key : Bytes = leader_prefix ++ name in
        let (result, stored) =
          laws.try_set_again key (identifier_of p) leader (5 * minute) s (answers _ _ _ s)
            k.known in
        rw (await_leader_answered p s, result)
          (take_office_other (identifier_of p) leader (new_coordinator name) (set_for p s).2 ne
            (record {
              known = stored;
              live = laws.try_set_live key (identifier_of p) (5 * minute) s k.live;
            }))

    elect_later :
        (ps : List Process) (leader : Bytes) (s : S)
        → All (λ p. bytes_eq leader (identifier_of p) ≡ false) ps
        → Knows leader s
        → elect ps s ≡ map (λ p. (false, leader)) ps
    unfolding elect
    elect_later [] leader s others k = refl
    elect_later (p ∷ ps) leader s others k =
        let r = await_leader_later p leader s others.0 k in
        rw (r.leads, r.knows, elect_later ps leader _ others.1 r.state)

    -- Where no call of TrySet fails, the leader's key is not set, and it stays alive: the process
    -- that calls first leads, no other with another identifier does, and all know the first.
    pub elect_lem :
        (p : Process) (ps : List Process) (s : S)
        → All (λ q. bytes_eq (identifier_of p) (identifier_of q) ≡ false) ps
        → value s (leader_prefix ++ name) ≡ none
        → IsLive s (leader_prefix ++ name)
        → elect (p ∷ ps) s ≡ (true, identifier_of p) ∷ map (λ q. (false, identifier_of p)) ps
    unfolding elect
    elect_lem p ps s others absent live =
        let r = await_leader_first p s absent live in
        rw (r.leads, r.knows, elect_later ps (identifier_of p) _ others r.state)
