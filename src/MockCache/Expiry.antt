-- ===== src/MockCache/Expiry.antt =====
-- The methods of the mock cache that first drop the keys whose expiration has passed, and its removal.
use ct_mapreduce.Prelude.{
  true, not, ◌&&◌, Bytes, bytes_eq, member, bytes_eq_iff, List, [], ◌≡◌, ◌∙◌, arith, if◌then◌else◌,
  Bool-cases, inl, inr,
}
use ct_mapreduce.MockCache.{
  MockRemoteCache, at_key, cleanup_expiry, set_remove, set_contains, search_entry, found_at,
  remove_at,
}
use ct_mapreduce.MockCache.Insertion.{remove_at_lem}
use ct_mapreduce.MockCache.Sets.{
  IsOrdered, contains, is_past, lookup-drop_expired, found_at-member, contains-put,
}

-- The cleanup empties the keys with a past expiration, and those alone.
at_key-cleanup_expiry :
    (c : MockRemoteCache) (k : Bytes)
    → at_key (cleanup_expiry c) k ≡ (if is_past k c.expirations c.now then [] else at_key c k)
unfolding at_key cleanup_expiry
at_key-cleanup_expiry c k = ground (arith, lookup-drop_expired k c.expirations c.now c)

cleanup_expiry-IsOrdered : (c : MockRemoteCache) → IsOrdered c → IsOrdered (cleanup_expiry c)
cleanup_expiry-IsOrdered c ordered = record {
  lists = λ k. elim (Bool-cases (is_past k c.expirations c.now)) [
    | inl e ↦ rw (at_key-cleanup_expiry c k, e) tt
    | inr e ↦ rw (at_key-cleanup_expiry c k, e) (ordered.lists k)
  ];
}

contains-cleanup_expiry :
    (c : MockRemoteCache) (k e : Bytes)
    → contains (cleanup_expiry c) k e ≡ (not (is_past k c.expirations c.now) && contains c k e)
unfolding contains member
contains-cleanup_expiry c k e = ground (arith, at_key-cleanup_expiry c k)

member-at_key :
    (c : MockRemoteCache) (key k x : Bytes)
    → bytes_eq key k ≡ true
    → member x (at_key c key) ≡ contains c k x
unfolding contains
member-at_key c key k x h = ground (arith, bytes_eq_iff key k)

module _ (key e : Bytes) (c : MockRemoteCache) (ordered : IsOrdered c) where
  found_after_cleanup :
      found_at e (at_key (cleanup_expiry c) key) (search_entry e (at_key (cleanup_expiry c) key))
      ≡ (not (is_past key c.expirations c.now) && contains c key e)
  found_after_cleanup =
      found_at-member e (at_key (cleanup_expiry c) key)
        ((cleanup_expiry-IsOrdered c ordered).lists key)
      ∙ contains_cleanup_member
    where
      contains_cleanup_member :
          member e (at_key (cleanup_expiry c) key)
          ≡ (not (is_past key c.expirations c.now) && contains c key e)
      contains_cleanup_member = unfold contains in contains-cleanup_expiry c key e

  -- On ordered lists SetContains finds an entry exactly if it stands at a key that has not
  -- expired.
  pub set_contains_lem :
      (set_contains key e c).0 ≡ (not (is_past key c.expirations c.now) && contains c key e)
  unfolding set_contains
  set_contains_lem = found_after_cleanup

  -- On ordered lists SetRemove reports whether the entry stands at a key that has not expired,
  -- and removes nothing but the keys that have: the entry stays.
  pub set_remove_keeps :
      (k x : Bytes)
      → ((set_remove key e c).0 ≡ (not (is_past key c.expirations c.now) && contains c key e))
        × (contains (set_remove key e c).2 k x ≡ contains (cleanup_expiry c) k x)
  unfolding set_remove
  set_remove_keeps k x =
      let c' : MockRemoteCache = cleanup_expiry c in
      let l : List Bytes = at_key c' key in
      ground (
        arith,
        found_after_cleanup,
        remove_at_lem (search_entry e l) l,
        contains-put c' key k x (remove_at (search_entry e l) l),
        member-at_key c' key k x,
      )
