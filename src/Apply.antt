-- ===== src/Apply.antt =====
-- server/src/apply.rs: the messages of a request to apply a version, and their types. The generated
-- messages are data types: an `Option` field that is absent is a constructor of its own.
pub mod Sort
pub mod Plan
pub mod Transaction
pub mod Messages
pub mod Order
pub mod Deletion
pub mod Data
pub mod Planned
mod ToyGraphs
mod Tests
use chiselstrike.Prelude.{
  ℕ, Str, Bool, true, Option, none, some, List, [], ◌∷◌, ◌++◌, lookup, insert, Result, ok, err,
  ok_or, ◌>>=◌,
}
use chiselstrike.Types.{FieldType, DbIndex, TypeError, object_type}
use chiselstrike.TypeSystem.{TypeSystem, TypeSystemError, lookup_builtin_type}

-- The errors of `apply`; a failed assertion of the crate `permutation` is `permutation_panic`, and
-- `service` stands for the errors of the metadata store and of the query engine.
pub data ApplyError : Type 0 where
  no_field_type no_field_type_enum : Str → ApplyError
  no_value_type no_value_type_enum : ApplyError
  types : TypeError → ApplyError
  type_system : TypeSystemError → ApplyError
  models_have_data : List (Str × ℕ) → ApplyError
  custom_type_expected : Str → ApplyError
  undefined_entity : Str → Str → Str → ApplyError
  undefined_type : Str → ApplyError
  unknown_type : Str → ApplyError
  cycle permutation_panic neither_entity_nor_builtin : ApplyError
  invalid_policy_path invalid_policy two_policy_files : ApplyError
  service : ℕ → ApplyError

abbrev pub map_err : {E F A : Type 0} → (E → F) → Result E A → Result F A
map_err f (ok a) = ok a
map_err f (err e) = err (f e)

mutual
  pub data TypeEnum : Type 0 where
    string number bool js_date array_buffer : Bool → TypeEnum
    entity entity_id : Str → TypeEnum
    array : ContainerType → TypeEnum

  pub data ContainerType : Type 0 where
    no_value : ContainerType
    value : TypeMsg → ContainerType

  pub data TypeMsg : Type 0 where
    no_enum : TypeMsg
    type_enum : TypeEnum → TypeMsg

pub record FieldDefinition : Type 0 where
  pub name : Str
  pub field_type : Option TypeMsg
  pub labels : List Str
  pub is_optional : Bool
  pub default_value : Option Str
  pub is_unique : Bool

pub record AddTypeRequest : Type 0 where
  pub name : Str
  pub field_defs : List FieldDefinition

pub record IndexCandidate : Type 0 where
  pub entity_name : Str
  pub properties : List Str

-- The enum of a message, if it is there.
abbrev pub enum_of : TypeMsg → Option TypeEnum
enum_of no_enum = none
enum_of (type_enum t) = some t

-- `FieldDefinition::field_type`
unfoldable pub field_type : FieldDefinition → Result ApplyError TypeEnum
field_type field = do
  msg ← ok_or field.field_type (no_field_type field.name)
  ok_or (enum_of msg) (no_field_type_enum field.name)

-- Whether a lookup succeeded.
abbrev pub is_ok : {E A : Type 0} → Result E A → Bool
is_ok (ok a) = true
is_ok (err e) = Bool.false

-- `TypeEnum::is_builtin`, with `ContainerType::value_type` on its way to the element.
unfoldable mutual
  pub is_builtin : TypeSystem → TypeEnum → Result ApplyError Bool
  is_builtin ts (TypeEnum.string b) = ok true
  is_builtin ts (TypeEnum.number b) = ok true
  is_builtin ts (TypeEnum.bool b) = ok true
  is_builtin ts (TypeEnum.js_date b) = ok true
  is_builtin ts (TypeEnum.array_buffer b) = ok true
  is_builtin ts (TypeEnum.entity_id n) = ok true
  is_builtin ts (TypeEnum.entity n) = ok (is_ok (lookup_builtin_type ts n))
  is_builtin ts (TypeEnum.array inner) = value_is_builtin ts inner

  pub value_is_builtin : TypeSystem → ContainerType → Result ApplyError Bool
  value_is_builtin ts no_value = err no_value_type
  value_is_builtin ts (value msg) = msg_is_builtin ts msg

  pub msg_is_builtin : TypeSystem → TypeMsg → Result ApplyError Bool
  msg_is_builtin ts no_enum = err no_value_type_enum
  msg_is_builtin ts (type_enum t) = is_builtin ts t

-- `TypeEnum::get_builtin`
unfoldable mutual
  pub get_builtin : TypeSystem → TypeEnum → Result ApplyError FieldType
  get_builtin ts (TypeEnum.string b) = ok FieldType.string
  get_builtin ts (TypeEnum.number b) = ok FieldType.float
  get_builtin ts (TypeEnum.bool b) = ok FieldType.boolean
  get_builtin ts (TypeEnum.js_date b) = ok FieldType.js_date
  get_builtin ts (TypeEnum.array_buffer b) = ok FieldType.array_buffer
  get_builtin ts (TypeEnum.entity n) = map_err type_system (lookup_builtin_type ts n)
  get_builtin ts (TypeEnum.entity_id n) = ok (FieldType.entity_id n)
  get_builtin ts (TypeEnum.array inner) = do t ← get_value_builtin ts inner; ok (FieldType.array t)

  pub get_value_builtin : TypeSystem → ContainerType → Result ApplyError FieldType
  get_value_builtin ts no_value = err no_value_type
  get_value_builtin ts (value msg) = get_msg_builtin ts msg

  pub get_msg_builtin : TypeSystem → TypeMsg → Result ApplyError FieldType
  get_msg_builtin ts no_enum = err no_value_type_enum
  get_msg_builtin ts (type_enum t) = get_builtin ts t

-- `impl From<Type> for TypeMsg`
unfoldable pub type_msg_from : FieldType → TypeMsg
type_msg_from FieldType.float = type_enum (TypeEnum.number true)
type_msg_from FieldType.string = type_enum (TypeEnum.string true)
type_msg_from FieldType.boolean = type_enum (TypeEnum.bool true)
type_msg_from FieldType.js_date = type_enum (TypeEnum.js_date true)
type_msg_from FieldType.array_buffer = type_enum (TypeEnum.array_buffer true)
type_msg_from (FieldType.entity e) = type_enum (TypeEnum.entity (object_type e).name)
type_msg_from (FieldType.entity_id n) = type_enum (TypeEnum.entity_id n)
type_msg_from (FieldType.array t) = type_enum (TypeEnum.array (value (type_msg_from t)))

-- `DbIndex::new_from_fields`
abbrev pub new_from_fields : List Str → DbIndex
new_from_fields fields = record { meta_id = none; backing_table = none; fields = fields }

-- The indexes of a type with one more.
abbrev pub push_to : Option (List DbIndex) → DbIndex → List DbIndex
push_to none idx = idx ∷ []
push_to (some type_indexes) idx = type_indexes ++ idx ∷ []

-- The loop of `aggregate_indexes`.
unfoldable pub aggregate_from :
    List IndexCandidate → List (Str × List DbIndex) → List (Str × List DbIndex)
aggregate_from [] index_map = index_map
aggregate_from (candidate ∷ rest) index_map = aggregate_from rest (
    insert candidate.entity_name
      (push_to (lookup candidate.entity_name index_map) (new_from_fields candidate.properties))
      index_map)

unfoldable pub aggregate_indexes : List IndexCandidate → List (Str × List DbIndex)
unfolding aggregate_from
aggregate_indexes indexes = aggregate_from indexes []
