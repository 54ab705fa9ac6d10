-- ===== src/Apply/Messages.antt =====
-- The types in the messages of a request, against the types of the type system.
use chiselstrike.Prelude.{◌≡◌, refl, true, ok}
use chiselstrike.Types.{FieldType, object_type}
use chiselstrike.TypeSystem.{TypeSystem, lookup_builtin_type}
use chiselstrike.Apply.{
  is_builtin, value_is_builtin, msg_is_builtin, get_builtin, get_value_builtin, get_msg_builtin,
  type_msg_from,
}

-- The entities in a type are built-in types under their names.
abbrev pub AllBuiltin : TypeSystem → FieldType → Type 0
AllBuiltin ts (FieldType.entity e) =
    lookup_builtin_type ts (object_type e).name ≡ ok (FieldType.entity e)
AllBuiltin ts (FieldType.array t) = AllBuiltin ts t
AllBuiltin ts _ = Unit

-- The message of a type whose entities are built-in types is a built-in type, and it is that type.
pub get_msg_builtin-type_msg_from :
    (ts : TypeSystem) (t : FieldType)
    → AllBuiltin ts t
    → (msg_is_builtin ts (type_msg_from t) ≡ ok true)
      × (get_msg_builtin ts (type_msg_from t) ≡ ok t)
unfolding type_msg_from is_builtin value_is_builtin msg_is_builtin get_builtin get_value_builtin
    get_msg_builtin
get_msg_builtin-type_msg_from ts FieldType.string h = (refl, refl)
get_msg_builtin-type_msg_from ts FieldType.float h = (refl, refl)
get_msg_builtin-type_msg_from ts FieldType.boolean h = (refl, refl)
get_msg_builtin-type_msg_from ts FieldType.js_date h = (refl, refl)
get_msg_builtin-type_msg_from ts FieldType.array_buffer h = (refl, refl)
get_msg_builtin-type_msg_from ts (FieldType.entity_id n) h = (refl, refl)
get_msg_builtin-type_msg_from ts (FieldType.entity e) h = (rw h refl, rw h refl)
get_msg_builtin-type_msg_from ts (FieldType.array t) h =
    let (first, second) = get_msg_builtin-type_msg_from ts t h in (first, rw second refl)
