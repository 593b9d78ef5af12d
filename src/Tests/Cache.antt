-- ===== src/Tests/Cache.antt =====
-- The mock cache.
use ct_mapreduce.Prelude.{true, not, ◌&&◌, ◌||◌, bytes_eq, none, [], ◌∷◌, ◌≡◌, refl}
use ct_mapreduce.MockCache.{mock_cache, set_insert, set_remove, set_contains, cleanup_expiry}
use ct_mapreduce.MockCache.Expiry.{set_contains_lem, set_remove_keeps}
use ct_mapreduce.MockCache.Sets.{contains, is_past, set_insert_refines}
use ct_mapreduce.Tests.Data.{key, entry_a, entry_b, one_entry, one_entry-IsOrdered}

-- Entries are kept in order, and an entry that is removed stays.
insertion_runs :
    ((set_insert key entry_a one_entry).2.entries ≡ (key, entry_a ∷ entry_b ∷ []) ∷ [])
    × ((set_remove key entry_b one_entry).0 ≡ true)
    × ((set_contains key entry_b (set_remove key entry_b one_entry).2).0 ≡ true)
unfolding mock_cache
insertion_runs = (refl, refl, refl)

set_insert_refines_example :
    ((set_insert key entry_a one_entry).0 ≡ not (contains one_entry key entry_a))
    × ((set_insert key entry_a one_entry).1 ≡ none)
    × (contains (set_insert key entry_a one_entry).2 key entry_b
        ≡ (bytes_eq key key && bytes_eq entry_b entry_a || contains one_entry key entry_b))
set_insert_refines_example =
    set_insert_refines key entry_a one_entry one_entry-IsOrdered key entry_b

set_contains_lem_example :
    (set_contains key entry_b one_entry).0
    ≡ (not (is_past key one_entry.expirations one_entry.now) && contains one_entry key entry_b)
set_contains_lem_example = set_contains_lem key entry_b one_entry one_entry-IsOrdered

set_remove_keeps_example :
    ((set_remove key entry_b one_entry).0
      ≡ (not (is_past key one_entry.expirations one_entry.now) && contains one_entry key entry_b))
    × (contains (set_remove key entry_b one_entry).2 key entry_b
        ≡ contains (cleanup_expiry one_entry) key entry_b)
set_remove_keeps_example = set_remove_keeps key entry_b one_entry one_entry-IsOrdered key entry_b
