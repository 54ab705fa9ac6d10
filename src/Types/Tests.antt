-- ===== src/Types/Tests.antt =====
-- A run of `check_if_safe_to_populate` (server/src/types/mod.rs) on a target with one more field.
use chiselstrike.Prelude.{
  Str, text, str_eq, ◌≡◌, refl, false, some, none, Option, List, [], ◌∷◌, lookup, err,
}
use chiselstrike.BTree.{insert_entry}
use chiselstrike.Types.{
  TypeId, Field, ObjectType, chisel_id_field, field_map, added_without_default,
  check_if_safe_to_populate,
}

abbrev flag : Option Str → Field
flag default = record {
  id = none;
  name = text "flag";
  type_id = TypeId.string;
  labels = [];
  is_optional = false;
  is_unique = false;
  default = default;
  effective_default = default;
  version_id = text "v1";
}

abbrev person : List Field → ObjectType
person fields = record {
  meta_id = none;
  name = text "Person";
  fields = fields;
  indexes = [];
  chisel_id = chisel_id_field;
  backing_table = text "ty_person";
  version_id = text "v1";
}

-- The default value of the added field is the reason for the refusal.
default_refused :
    check_if_safe_to_populate (person (flag (some (text "on")) ∷ [])) (person [])
    ≡ err (added_without_default (text "flag"))
unfolding check_if_safe_to_populate lookup str_eq field_map insert_entry
default_refused = refl
