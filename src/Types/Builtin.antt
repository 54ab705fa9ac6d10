-- ===== src/Types/Builtin.antt =====
-- server/src/types/builtin.rs: the built-in types. `ObjectType::new(…).unwrap()` does not fail here:
-- every built-in field has the version of the internal objects, and there are no indexes.
use chiselstrike.Prelude.{Str, text, Bool, true, false, none, List, [], ◌∷◌, insert, ok, err}
use chiselstrike.Types.{
  TypeId, FieldType, Field, ObjectType, Entity, custom, auth, ObjectDescriptor, object_new,
  chiselstrike_version,
}

-- `InternalObject`
abbrev internal_object : Str → Str → ObjectDescriptor
internal_object name table = record {
  name = name;
  id = none;
  backing_table = table;
  version_id = chiselstrike_version;
}

builtin_field : Str → TypeId → Bool → Field
builtin_field n t optional = record {
  id = none;
  name = n;
  type_id = t;
  labels = [];
  is_optional = optional;
  is_unique = false;
  default = none;
  effective_default = none;
  version_id = chiselstrike_version;
}

string_field : Str → Field
unfolding builtin_field
string_field n = builtin_field n TypeId.string false

optional_string_field : Str → Field
unfolding builtin_field
optional_string_field n = builtin_field n TypeId.string true

number_field : Str → Field
unfolding builtin_field
number_field n = builtin_field n TypeId.float false

optional_number_field : Str → Field
unfolding builtin_field
optional_number_field n = builtin_field n TypeId.float true

date_field : Str → Field
unfolding builtin_field
date_field n = builtin_field n TypeId.js_date false

optional_array_buffer_field : Str → Field
unfolding builtin_field
optional_array_buffer_field n = builtin_field n TypeId.array_buffer true

abbrev Types : Type 0
Types = List (Str × FieldType)

-- The entry of a built-in object; a panic of `unwrap` would leave the map as it is.
add_entity : (ObjectType → Entity) → Str → List Field → Str → Types → Types
add_entity wrap name fields table types = elim (object_new (internal_object name table) fields []) [
  | ok o ↦ insert name (FieldType.entity (wrap o)) types
  | err e ↦ types
]

add_auth_entity : Str → List Field → Str → Types → Types
unfolding add_entity
add_auth_entity = add_entity auth

add_custom_entity : Str → List Field → Str → Types → Types
unfolding add_entity
add_custom_entity = add_entity custom

abbrev pub auth_user_name : Str
auth_user_name = text "AuthUser"

scalar_types : Types
scalar_types = insert (text "ArrayBuffer") FieldType.array_buffer (
    insert (text "jsDate") FieldType.js_date (
      insert (text "boolean") FieldType.boolean
        (insert (text "number") FieldType.float (insert (text "string") FieldType.string []))))

add_auth_types : Types → Types
unfolding add_auth_entity string_field optional_string_field optional_number_field
add_auth_types t =
    let t1 =
      add_auth_entity auth_user_name
        (optional_string_field (text "emailVerified")
          ∷ optional_string_field (text "name")
          ∷ optional_string_field (text "email")
          ∷ optional_string_field (text "image")
          ∷ [])
        (text "auth_user") t in
    let t2 =
      add_auth_entity (text "AuthSession")
        (string_field (text "sessionToken")
          ∷ string_field (text "userId")
          ∷ string_field (text "expires")
          ∷ [])
        (text "auth_session") t1 in
    let t3 =
      add_auth_entity (text "AuthToken")
        (string_field (text "identifier")
          ∷ string_field (text "expires")
          ∷ string_field (text "token")
          ∷ [])
        (text "auth_token") t2 in
    add_auth_entity (text "AuthAccount")
      (string_field (text "providerAccountId")
        ∷ string_field (text "userId")
        ∷ string_field (text "provider")
        ∷ string_field (text "type")
        ∷ optional_string_field (text "access_token")
        ∷ optional_string_field (text "token_type")
        ∷ optional_string_field (text "id_token")
        ∷ optional_string_field (text "refresh_token")
        ∷ optional_string_field (text "scope")
        ∷ optional_string_field (text "session_state")
        ∷ optional_string_field (text "oauth_token_secret")
        ∷ optional_string_field (text "oauth_token")
        ∷ optional_number_field (text "expires_at")
        ∷ [])
      (text "auth_account") t3

-- `BuiltinTypes::new`
unfoldable pub builtin_types : Types
unfolding scalar_types add_auth_types add_custom_entity date_field number_field string_field
    optional_array_buffer_field
builtin_types =
    add_custom_entity (text "ChiselOutbox")
      (date_field (text "timestamp")
        ∷ number_field (text "seqNo")
        ∷ string_field (text "topic")
        ∷ optional_array_buffer_field (text "key")
        ∷ optional_array_buffer_field (text "value")
        ∷ [])
      (text "outbox") (add_auth_types scalar_types)
