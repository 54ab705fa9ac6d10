-- ===== src/Types/Laws.antt =====
-- The order of field maps, and the names of new objects (server/src/types/mod.rs).
use chiselstrike.Prelude.{Str, List, [], ◌∷◌, ◌≡◌, Result, ok, >>=-eq-ok, sym, ap}
use chiselstrike.BTree.{insert_entry}
use chiselstrike.BTree.Order.{IsSorted}
use chiselstrike.BTree.Insert.{insert_entry-IsSorted}
use chiselstrike.Types.{
  Field, ObjectType, field_map, field_map_from, object_new, ObjectDescriptor, DbIndex,
  check_versions, check_indexes,
}

field_map_from-IsSorted :
    (fs : List Field) (m : List (Str × Field)) → IsSorted m → IsSorted (field_map_from fs m)
unfolding field_map_from
field_map_from-IsSorted [] m s = s
field_map_from-IsSorted (f ∷ fs) m s =
    field_map_from-IsSorted fs (insert_entry f.name f m) (insert_entry-IsSorted f.name f m s)

pub field_map-IsSorted : (o : ObjectType) → IsSorted (field_map o)
unfolding field_map
field_map-IsSorted o = field_map_from-IsSorted o.fields [] tt

ok_injective : {E A : Type 0} {a b : A} → ◌≡◌ {A = Result E A} (ok a) (ok b) → a ≡ b
ok_injective h = cc h

pub name-object_new :
    (desc : ObjectDescriptor) (fields : List Field) (indexes : List DbIndex) (o : ObjectType)
    → object_new desc fields indexes ≡ ok o
    → o.name ≡ desc.name
unfolding object_new
name-object_new desc fields indexes o h =
    let (u, eu, h1) = >>=-eq-ok (check_versions desc.version_id fields) _ h in
    let (v, ev, h2) = >>=-eq-ok (check_indexes fields indexes) _ h1 in
    sym (ap (λ (x : ObjectType). x.name) (ok_injective h2))
