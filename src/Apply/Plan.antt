-- ===== src/Apply/Plan.antt =====
-- server/src/apply.rs: the first part of `apply`, which reads the stored types and decides what is
-- inserted, updated and removed. The row counts of the metadata store and the UUIDs of new tables are
-- parameters.
use chiselstrike.Prelude.{
  ℕ, ◌==◌, Str, Bool, true, false, not, Option, none, some, List, [], ◌∷◌, ◌++◌, lookup, insert,
  map, is_empty, Result, ok, err, ensure, ok_or, ◌>>=◌, ◌>>◌, text, if◌then◌else◌, ◌||◌,
}
use chiselstrike.Types.{
  Entity, custom, FieldType, Field, DbIndex, ObjectType, ObjectDescriptor, FieldDescriptor,
  object_type, object_new, field_new,
}
use chiselstrike.TypeSystem.{
  TypeSystem, TypeSystemError, ObjectDelta, no_such_type, lookup_builtin_type, lookup_custom_type,
  generate_type_delta,
}
use chiselstrike.Apply.{
  ApplyError, map_err, models_have_data, custom_type_expected, undefined_entity, undefined_type,
  neither_entity_nor_builtin, types, type_system, TypeEnum, FieldDefinition, AddTypeRequest,
  IndexCandidate, field_type, is_ok, is_builtin, get_builtin, aggregate_indexes,
}
use chiselstrike.Apply.Sort.{Graphs, has, sort_custom_types}

-- `NewObject::new`, with the UUID that it draws.
abbrev pub new_object : Str → Str → Str → ObjectDescriptor
new_object uuid name version = record {
  name = name;
  id = none;
  backing_table = text "ty_" ++ (name ++ (text "_" ++ uuid));
  version_id = version;
}

-- `NewField::new`
abbrev pub new_field : Str → FieldType → Str → FieldDescriptor
new_field name ty version = record { name = name; id = none; ty = ty; version_id = version }

-- What is decided: the types to remove without and with rows, and those to insert and to update.
pub record Removals : Type 0 where
  pub without_data : List Entity
  pub with_data : List (Entity × ℕ)

pub record Plan : Type 0 where
  pub new_types : List (Str × Entity)
  pub to_insert : List ObjectType
  pub to_update : List (Entity × ObjectDelta)

-- The type of a field that is no built-in type: a type of the request before this one.
abbrev pub resolve_custom : List (Str × Entity) → TypeEnum → Result ApplyError FieldType
resolve_custom new_types (TypeEnum.entity name) = do
  e ← ok_or (lookup name new_types) (undefined_type name)
  ok (FieldType.entity e)
resolve_custom new_types t = err neither_entity_nor_builtin

abbrev pub resolve_checked :
    TypeSystem → List (Str × Entity) → TypeEnum → Bool → Result ApplyError FieldType
resolve_checked ts new_types t true = get_builtin ts t
resolve_checked ts new_types t false = resolve_custom new_types t

-- The type of a field: `names` are the types of the request, `owner` and `field` go into the message.
unfoldable pub resolve :
    TypeSystem → List Str → List (Str × Entity) → Str → Str → TypeEnum → Result ApplyError FieldType
resolve ts names new_types owner field (TypeEnum.entity_id name) = do
  ensure (has name names) (undefined_entity field owner name)
  ok (FieldType.entity_id name)
resolve ts names new_types owner field t = do
  builtin ← is_builtin ts t
  resolve_checked ts new_types t builtin

-- The loop over the fields of a type.
unfoldable pub make_fields :
    TypeSystem
    → List Str
    → List (Str × Entity)
    → Str
    → Str
    → List FieldDefinition
    → Result ApplyError (List Field)
unfolding resolve field_type
make_fields ts names new_types version owner [] = ok []
make_fields ts names new_types version owner (field ∷ rest) = do
  t ← field_type field
  ty ← resolve ts names new_types owner field.name t
  fields ← make_fields ts names new_types version owner rest
  ok (
      field_new (new_field field.name ty version) field.labels field.default_value field.is_optional
        field.is_unique
      ∷ fields)

-- `unwrap_or_default` on the indexes of a type.
abbrev pub indexes_or_none : Option (List DbIndex) → List DbIndex
indexes_or_none none = []
indexes_or_none (some l) = l

-- A removed type with its number of rows.
abbrev pub add_counted : Entity → ℕ → Removals → Removals
add_counted removed cnt r =
    if cnt == 0
    then record r { without_data = removed ∷ r.without_data }
    else record r { with_data = (removed, cnt) ∷ r.with_data }

abbrev pub names_with_counts : List (Entity × ℕ) → List (Str × ℕ)
names_with_counts rs = map (λ r. ((object_type r.0).name, r.1)) rs

abbrev pub names_of : List AddTypeRequest → List Str
names_of request = map (λ (t : AddTypeRequest). t.name) request

abbrev pub empty_plan : Plan
empty_plan = record { new_types = []; to_insert = []; to_update = [] }

module _ (count_rows : Entity → Result ApplyError ℕ) (uuid_of : Str → Str) where
  abbrev pub count_removed : Entity → Result ApplyError Removals → Result ApplyError Removals
  count_removed removed others = do
    cnt ← count_rows removed
    r ← others
    ok (add_counted removed cnt r)

  -- The loop over the stored types, for those that the request does not name.
  unfoldable pub find_removed : List (Str × Entity) → List Str → Result ApplyError Removals
  find_removed [] names = ok (record { without_data = []; with_data = [] })
  find_removed ((existing, removed) ∷ rest) names =
      let others = find_removed rest names in
      if has existing names then others else count_removed removed others

  -- The types to remove, if all are empty or their deletion is allowed.
  unfoldable pub plan_removal : TypeSystem → List Str → Bool → Result ApplyError (List Entity)
  unfolding find_removed
  plan_removal ts names allow_type_deletion = do
    r ← find_removed ts.custom_types names
    ensure (is_empty r.with_data || allow_type_deletion)
        (models_have_data (names_with_counts r.with_data))
    ok (r.without_data ++ map (λ x. x.0) r.with_data)

  -- The match on the stored type: an update, or an insertion.
  abbrev pub insert_or_update :
      TypeSystem → ObjectType → Plan → Result TypeSystemError Entity → Result ApplyError Plan
  insert_or_update ts ty plan (ok old) = do
    cnt ← count_rows old
    delta ← map_err type_system (generate_type_delta ts (object_type old) ty (cnt == 0))
    ok (record plan { to_update = plan.to_update ++ (old, delta) ∷ [] })
  insert_or_update ts ty plan (err (no_such_type n)) =
      ok (record plan { to_insert = plan.to_insert ++ ty ∷ [] })
  insert_or_update ts ty plan (err e) = err (type_system e)

  -- The body of the loop over the types of the request.
  unfoldable pub plan_type :
      TypeSystem
      → List Str
      → List (Str × List DbIndex)
      → Str
      → AddTypeRequest
      → Plan
      → Result ApplyError Plan
  unfolding make_fields
  plan_type ts names indexes version type_def plan = do
    ensure (not (is_ok (lookup_builtin_type ts type_def.name))) (custom_type_expected type_def.name)
    fields ← make_fields ts names plan.new_types version type_def.name type_def.field_defs
    ty ← map_err types (
        object_new (new_object (uuid_of type_def.name) type_def.name version) fields
          (indexes_or_none (lookup type_def.name indexes)))
    insert_or_update ts ty
        (record plan { new_types = insert type_def.name (custom ty) plan.new_types })
        (lookup_custom_type ts type_def.name)

  unfoldable pub plan_types :
      TypeSystem
      → List Str
      → List (Str × List DbIndex)
      → Str
      → List AddTypeRequest
      → Plan
      → Result ApplyError Plan
  unfolding plan_type
  plan_types ts names indexes version [] plan = ok plan
  plan_types ts names indexes version (type_def ∷ rest) plan = do
    next ← plan_type ts names indexes version type_def plan
    plan_types ts names indexes version rest next

  -- Everything that is decided before the first write.
  unfoldable pub plan_apply :
      Graphs
      → TypeSystem
      → List AddTypeRequest
      → List IndexCandidate
      → Bool
      → Str
      → Result ApplyError (List Entity × Plan)
  unfolding plan_removal plan_types sort_custom_types aggregate_indexes
  plan_apply graphs ts request candidates allow_type_deletion version = do
    to_remove ← plan_removal ts (names_of request) allow_type_deletion
    sorted ← sort_custom_types graphs ts request
    plan ← plan_types ts (names_of request) (aggregate_indexes candidates) version sorted empty_plan
    ok (to_remove, plan)
