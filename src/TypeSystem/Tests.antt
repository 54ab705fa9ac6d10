-- ===== src/TypeSystem/Tests.antt =====
-- Runs of server/src/types/type_system.rs on two versions of an object.
use chiselstrike.Prelude.Int.{pos}
use chiselstrike.BTree.{insert_entry, bytes_ltb}
use chiselstrike.Prelude.{
  strip_prefix, remove, Str, text, ◌≡◌, refl, true, false, some, none, List, [], ◌∷◌, lookup,
  str_eq, All, ok, Bool,
}
use chiselstrike.Types.{
  TypeId, FieldType, Field, ObjectType, chisel_id_field, field_map, object_eq, type_id_of,
  type_id_name, type_eq,
}
use chiselstrike.TypeSystem.{
  TypeSystem, ObjectDelta, generate_type_delta, get, can_be_absent, new_fields_loop, step_field,
  update_field, lookup_builtin_type, lookup_builtin, removed_loop, opt_eq, strs_eq, index_diff,
  sort_labels,
}
use chiselstrike.TypeSystem.Lookup.{HasScalars, get-type_id_of}
use chiselstrike.TypeSystem.Delta.{
  missing_from, IsSafeField, generate_type_delta_partition, generate_type_delta_safe,
}

abbrev scalars : TypeSystem
scalars = record {
  custom_types = [];
  builtin =
      (text "string", FieldType.string)
      ∷ (text "number", FieldType.float)
      ∷ (text "boolean", FieldType.boolean)
      ∷ (text "jsDate", FieldType.js_date)
      ∷ (text "ArrayBuffer", FieldType.array_buffer)
      ∷ [];
  version_id = text "v1";
}

scalars-HasScalars : HasScalars scalars
unfolding lookup str_eq
scalars-HasScalars = record {
  string_at = refl;
  float_at = refl;
  boolean_at = refl;
  js_date_at = refl;
  array_buffer_at = refl;
}

get-type_id_of_example :
    get scalars (type_id_of (FieldType.array FieldType.float))
    ≡ ok (FieldType.array FieldType.float)
get-type_id_of_example =
    get-type_id_of scalars (FieldType.array FieldType.float) scalars-HasScalars tt

abbrev text_field : Str → Bool → Field
text_field n optional = record {
  id = some (pos 7);
  name = n;
  type_id = TypeId.string;
  labels = [];
  is_optional = optional;
  is_unique = false;
  default = none;
  effective_default = none;
  version_id = text "v1";
}

abbrev person : List Field → ObjectType
person fields = record {
  meta_id = none;
  name = text "Person";
  fields = fields;
  indexes = [];
  chisel_id = chisel_id_field;
  backing_table = text "ty_person";
  version_id = text "v1";
}

abbrev old_person : ObjectType
old_person = person (text_field (text "a") false ∷ text_field (text "b") true ∷ [])

abbrev new_person : ObjectType
new_person = person (text_field (text "a") false ∷ text_field (text "c") true ∷ [])

abbrev person_delta : ObjectDelta
person_delta = record {
  added_fields = text_field (text "c") true ∷ [];
  removed_fields = text_field (text "b") true ∷ [];
  updated_fields = record { id = pos 7; attrs = none; labels = none } ∷ [];
  added_indexes = [];
  removed_indexes = [];
}

person_delta_run : generate_type_delta scalars old_person new_person false ≡ ok person_delta
unfolding generate_type_delta object_eq str_eq new_fields_loop field_map insert_entry bytes_ltb
    step_field lookup update_field get lookup_builtin_type lookup_builtin type_id_name strip_prefix
    type_eq remove removed_loop opt_eq strs_eq index_diff sort_labels
person_delta_run = refl

generate_type_delta_partition_example :
    (person_delta.added_fields ≡ missing_from (field_map old_person) (field_map new_person))
    × (person_delta.removed_fields ≡ missing_from (field_map new_person) (field_map old_person))
generate_type_delta_partition_example =
    generate_type_delta_partition scalars old_person new_person person_delta false person_delta_run

generate_type_delta_safe_example :
    (object_eq old_person new_person ≡ true)
    × All (λ e. IsSafeField scalars e.1 (lookup e.0 (field_map old_person))) (field_map new_person)
    × All (λ f. can_be_absent f ≡ true) person_delta.removed_fields
generate_type_delta_safe_example =
    generate_type_delta_safe scalars old_person new_person person_delta person_delta_run
