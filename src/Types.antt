-- ===== src/Types.antt =====
-- server/src/types/mod.rs: the types of the models, their names, and the construction and checks of
-- object types and fields. Metadata ids (`i32`) are integers; a version-4 UUID is an argument.
pub mod Builtin
pub mod Laws
mod Tests
use chiselstrike.Prelude.{
  Str, text, Bool, true, false, ◌&&◌, ◌||◌, Option, none, some, List, [], ◌∷◌, ◌++◌, lookup, any,
  find, str_eq, if◌then◌else◌, Result, ok, ensure, ◌>>=◌, ◌>>◌,
}
use chiselstrike.Prelude.Int.{ℤ}
use chiselstrike.BTree.{insert_entry}

-- `TypeId`
pub data TypeId : Type 0 where
  string float int64 boolean js_date array_buffer id : TypeId
  entity_id : Str → TypeId
  entity : Str → Str → TypeId
  array : TypeId → TypeId

pub record Field : Type 0 where
  pub id : Option ℤ
  pub name : Str
  pub type_id : TypeId
  pub labels : List Str
  pub is_optional : Bool
  pub is_unique : Bool
  pub default : Option Str
  pub effective_default : Option Str
  pub version_id : Str

pub record DbIndex : Type 0 where
  pub meta_id : Option ℤ
  pub backing_table : Option Str
  pub fields : List Str

pub record ObjectType : Type 0 where
  pub meta_id : Option ℤ
  pub name : Str
  pub fields : List Field
  pub indexes : List DbIndex
  pub chisel_id : Field
  pub backing_table : Str
  pub version_id : Str

pub data Entity : Type 0 where
  custom : ObjectType → Entity
  auth : ObjectType → Entity

-- `Entity::object_type` and `Deref`
abbrev pub object_type : Entity → ObjectType
object_type (custom o) = o
object_type (auth o) = o

abbrev pub is_auth : Entity → Bool
is_auth (custom o) = false
is_auth (auth o) = true

-- The enum `Type`
pub data FieldType : Type 0 where
  string float boolean js_date array_buffer : FieldType
  entity : Entity → FieldType
  entity_id : Str → FieldType
  array : FieldType → FieldType

-- `Type::name`
unfoldable pub type_name : FieldType → Str
type_name FieldType.float = text "number"
type_name FieldType.string = text "string"
type_name FieldType.boolean = text "boolean"
type_name FieldType.js_date = text "jsDate"
type_name FieldType.array_buffer = text "ArrayBuffer"
type_name (FieldType.entity e) = (object_type e).name
type_name (FieldType.entity_id n) = text "Id<" ++ (n ++ text ">")
type_name (FieldType.array t) = text "Array<" ++ (type_name t ++ text ">")

-- `TypeId::name`
unfoldable pub type_id_name : TypeId → Str
type_id_name TypeId.id = text "string"
type_id_name TypeId.string = text "string"
type_id_name TypeId.float = text "number"
type_id_name TypeId.int64 = text "int64"
type_id_name TypeId.boolean = text "boolean"
type_id_name TypeId.js_date = text "jsDate"
type_id_name TypeId.array_buffer = text "ArrayBuffer"
type_id_name (TypeId.entity_id n) = text "Id<" ++ (n ++ text ">")
type_id_name (TypeId.entity n v) = n
type_id_name (TypeId.array t) = text "Array<" ++ (type_id_name t ++ text ">")

-- `impl From<Type> for TypeId`
unfoldable pub type_id_of : FieldType → TypeId
type_id_of FieldType.string = TypeId.string
type_id_of FieldType.float = TypeId.float
type_id_of FieldType.boolean = TypeId.boolean
type_id_of FieldType.js_date = TypeId.js_date
type_id_of FieldType.array_buffer = TypeId.array_buffer
type_id_of (FieldType.entity_id n) = TypeId.entity_id n
type_id_of (FieldType.entity e) = TypeId.entity (object_type e).name (object_type e).version_id
type_id_of (FieldType.array t) = TypeId.array (type_id_of t)

-- `impl PartialEq for ObjectType`: the name and the version.
unfoldable pub object_eq : ObjectType → ObjectType → Bool
object_eq a b = str_eq a.name b.name && str_eq a.version_id b.version_id

-- The derived `PartialEq` of `Entity` and of `Type`.
unfoldable pub entity_eq : Entity → Entity → Bool
unfolding object_eq
entity_eq (custom a) (custom b) = object_eq a b
entity_eq (auth a) (auth b) = object_eq a b
entity_eq _ _ = false

unfoldable pub type_eq : FieldType → FieldType → Bool
unfolding entity_eq
type_eq FieldType.string FieldType.string = true
type_eq FieldType.float FieldType.float = true
type_eq FieldType.boolean FieldType.boolean = true
type_eq FieldType.js_date FieldType.js_date = true
type_eq FieldType.array_buffer FieldType.array_buffer = true
type_eq (FieldType.entity a) (FieldType.entity b) = entity_eq a b
type_eq (FieldType.entity_id a) (FieldType.entity_id b) = str_eq a b
type_eq (FieldType.array a) (FieldType.array b) = type_eq a b
type_eq _ _ = false

-- What the traits `ObjectDescriptor` and `FieldDescriptor` give.
pub record ObjectDescriptor : Type 0 where
  pub name : Str
  pub id : Option ℤ
  pub backing_table : Str
  pub version_id : Str

pub record FieldDescriptor : Type 0 where
  pub name : Str
  pub id : Option ℤ
  pub ty : FieldType
  pub version_id : Str

pub data TypeError : Type 0 where
  field_version_mismatch : Field → TypeError
  no_index_field : Str → TypeError
  type_mismatch : Str → TypeError
  added_without_default : Str → TypeError

abbrev pub chiselstrike_version : Str
chiselstrike_version = text "__chiselstrike"

abbrev pub id_name : Str
id_name = text "id"

-- The field `id` that every object has.
abbrev pub chisel_id_field : Field
chisel_id_field = record {
  id = none;
  name = id_name;
  type_id = TypeId.id;
  labels = [];
  is_optional = false;
  is_unique = true;
  default = none;
  effective_default = none;
  version_id = chiselstrike_version;
}

-- The loops of `ObjectType::new`
check_versions : Str → List Field → Result TypeError (Unit {0})
check_versions version [] = ok tt
check_versions version (f ∷ fs) =
    ensure (str_eq version f.version_id) (field_version_mismatch f) >> check_versions version fs

check_index_fields : List Field → List Str → Result TypeError (Unit {0})
check_index_fields fields [] = ok tt
check_index_fields fields (n ∷ ns) =
    ensure (str_eq n id_name || any (λ f. str_eq f.name n) fields) (no_index_field n)
    >> check_index_fields fields ns

check_indexes : List Field → List DbIndex → Result TypeError (Unit {0})
check_indexes fields [] = ok tt
check_indexes fields (i ∷ is) = check_index_fields fields i.fields >> check_indexes fields is

-- `ObjectType::new`
unfoldable pub object_new :
    ObjectDescriptor → List Field → List DbIndex → Result TypeError ObjectType
unfolding check_versions check_index_fields check_indexes
object_new desc fields indexes = do
  check_versions desc.version_id fields
  check_indexes fields indexes
  ok (record {
    meta_id = desc.id;
    name = desc.name;
    fields = fields;
    indexes = indexes;
    chisel_id = chisel_id_field;
    backing_table = desc.backing_table;
    version_id = desc.version_id;
  })

unfoldable pub all_fields : ObjectType → List Field
all_fields o = o.chisel_id ∷ o.fields

unfoldable pub has_field : ObjectType → Str → Bool
unfolding all_fields
has_field o n = any (λ f. str_eq f.name n) (all_fields o)

unfoldable pub get_field : ObjectType → Str → Option Field
unfolding all_fields
get_field o n = find (λ f. str_eq f.name n) (all_fields o)

-- `x == "false"` becomes "false" and anything else "true".
boolean_default : Str → Str
boolean_default x = if str_eq x (text "false") then text "false" else text "true"

effective_default_of : FieldType → Option Str → Option Str
unfolding boolean_default
effective_default_of FieldType.boolean none = none
effective_default_of FieldType.boolean (some x) = some (boolean_default x)
effective_default_of t d = d

-- `Field::new`
unfoldable pub field_new : FieldDescriptor → List Str → Option Str → Bool → Bool → Field
unfolding effective_default_of
field_new desc labels default is_optional is_unique = record {
  id = desc.id;
  name = desc.name;
  type_id = type_id_of desc.ty;
  labels = labels;
  is_optional = is_optional;
  is_unique = is_unique;
  default = default;
  effective_default = effective_default_of desc.ty default;
  version_id = desc.version_id;
}

-- `Field::generate_value`; the UUID that it would draw is an argument.
unfoldable pub generate_value : Str → Field → Option Str
generate_value uuid f = elim f.type_id [ TypeId.id ↦ some uuid | _ ↦ f.effective_default ]

-- `impl From<&ObjectType> for FieldMap`
field_map_from : List Field → List (Str × Field) → List (Str × Field)
field_map_from [] m = m
field_map_from (f ∷ fs) m = field_map_from fs (insert_entry f.name f m)

unfoldable pub field_map : ObjectType → List (Str × Field)
unfolding field_map_from
field_map o = field_map_from o.fields []

abbrev pub is_none {ℓ} : {A : Type ℓ} → Option A → Bool
is_none none = true
is_none (some a) = false

-- The loop of `FieldMap::check_populate_from`
check_field : Str → Field → Option Field → Result TypeError (Unit {0})
check_field n field none = ensure (is_none field.default) (added_without_default n)
check_field n field (some existing) =
    ensure (str_eq (type_id_name existing.type_id) (type_id_name field.type_id)) (type_mismatch n)

check_populate_from : List (Str × Field) → List (Str × Field) → Result TypeError (Unit {0})
unfolding check_field
check_populate_from [] source = ok tt
check_populate_from ((n, field) ∷ fs) source =
    check_field n field (lookup n source) >> check_populate_from fs source

-- `ObjectType::check_if_safe_to_populate`
unfoldable pub check_if_safe_to_populate : ObjectType → ObjectType → Result TypeError (Unit {0})
unfolding check_populate_from
check_if_safe_to_populate to source = check_populate_from (field_map to) (field_map source)
