-- ===== src/PrefixMap/Insert.antt =====
-- `insert` of server/src/prefix_map.rs.
use chiselstrike.Prelude.{Str, ◌≡◌, refl, some, lookup, str_eq, if◌then◌else◌}
use chiselstrike.PrefixMap.{PrefixMap, insert}
use chiselstrike.BTree.Order.{IsSorted}
use chiselstrike.BTree.Insert.{insert_entry-IsSorted, lookup-insert_entry}

-- After an insertion into a map in key order, the map is in key order, its key has the new value and
-- every other key the value it had; the value returned is the one that the key had before.
pub insert_correct :
    {T : Type 0} (k j : Str) (v : T) (m : PrefixMap T)
    → IsSorted m.entries
    → IsSorted (insert k v m).0.entries
      × (lookup j (insert k v m).0.entries ≡ (if str_eq k j then some v else lookup j m.entries))
      × ((insert k v m).1 ≡ lookup k m.entries)
unfolding insert
insert_correct k j v m s =
    (insert_entry-IsSorted k v m.entries s, lookup-insert_entry k j v m.entries, refl)
