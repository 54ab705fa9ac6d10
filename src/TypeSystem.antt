-- ===== src/TypeSystem.antt =====
-- server/src/types/type_system.rs: the types of one version, their lookup by name, and the delta that
-- evolves a stored type into a new one.
pub mod Lookup
pub mod Delta
mod Tests
use chiselstrike.Prelude.{
  ℕ, zero, suc, Str, text, length, Bool, true, false, ◌&&◌, ◌||◌, not, Option, none, some, List, [],
  ◌∷◌, ◌++◌, lookup, insert, remove, any, filter, str_eq, strip_prefix, strip_suffix_char,
  if◌then◌else◌, Result, ok, err, ensure, ok_or, ◌>>=◌, ◌>>◌, beq,
}
use chiselstrike.Prelude.Int.{ℤ}
use chiselstrike.BTree.{bytes_ltb}
use chiselstrike.Types.{
  TypeId, FieldType, Field, DbIndex, ObjectType, Entity, custom, auth, object_eq, type_id_name,
  type_eq, field_map, is_none, chiselstrike_version,
}

-- Why a replacement of a type is unsafe: the cases of the message of `UnsafeReplacement`.
pub data Reason : Type 0 where
  types_dont_match : Reason
  added_required : Str → Reason
  changed_type : Str → Reason
  added_unique : Str → Reason
  removed_required : Str → Reason

-- `TypeSystemError`; `version_panic` is the failed `assert_eq!` of `get`.
pub data TypeSystemError : Type 0 where
  custom_type_exists : Entity → TypeSystemError
  no_such_type : Str → TypeSystemError
  not_a_builtin_type : Str → TypeSystemError
  not_a_custom_type : Str → TypeSystemError
  unsafe_replacement : Str → Reason → TypeSystemError
  internal_server_error : TypeSystemError
  version_panic : TypeSystemError

pub record TypeSystem : Type 0 where
  pub custom_types : List (Str × Entity)
  pub builtin : List (Str × FieldType)
  pub version_id : Str

-- `TypeSystem::new`
unfoldable pub new : List (Str × FieldType) → Str → TypeSystem
new builtin version = record { custom_types = []; builtin = builtin; version_id = version }

unfoldable pub lookup_custom_type : TypeSystem → Str → Result TypeSystemError Entity
lookup_custom_type ts n = ok_or (lookup n ts.custom_types) (no_such_type n)

-- The match on the lookup in `add_custom_type`.
not_yet_there : Result TypeSystemError Entity → Result TypeSystemError (Unit {0})
not_yet_there (ok old) = err (custom_type_exists old)
not_yet_there (err (no_such_type n)) = ok tt
not_yet_there (err x) = err x

unfoldable pub add_custom_type : Entity → TypeSystem → Result TypeSystemError TypeSystem
unfolding not_yet_there lookup_custom_type
add_custom_type (auth o) ts = err (not_a_custom_type o.name)
add_custom_type (custom o) ts = do
  not_yet_there (lookup_custom_type ts o.name)
  ok (record ts { custom_types = insert o.name (custom o) ts.custom_types })

-- What stands between `typ<` and a last `>`.
unfoldable pub extract_type : Str → Str → Option Str
extract_type typ name = elim (strip_prefix (typ ++ text "<") name) [
  | none ↦ none
  | some template ↦ strip_suffix_char b'>' template
]

abbrev pub array_text : Str
array_text = text "Array"

abbrev pub id_text : Str
id_text = text "Id"

-- The names that are no `Array<…>`.
unfoldable pub lookup_plain : TypeSystem → Str → Result TypeSystemError FieldType
unfolding extract_type
lookup_plain ts name = elim (extract_type id_text name) [
  | some entity ↦ ok (FieldType.entity_id entity)
  | none ↦ ok_or (lookup name ts.builtin) (not_a_builtin_type name)
]

array_of : Result TypeSystemError FieldType → Result TypeSystemError FieldType
array_of r = do t ← r; ok (FieldType.array t)

-- The recursion strips `Array<` and `>`; the fuel bounds the length of the name.
unfoldable pub lookup_builtin : ℕ → TypeSystem → Str → Result TypeSystemError FieldType
unfolding lookup_plain array_of
lookup_builtin zero ts name = lookup_plain ts name
lookup_builtin (suc f) ts name = elim (extract_type array_text name) [
  | some elem ↦ array_of (lookup_builtin f ts elem)
  | none ↦ lookup_plain ts name
]

-- `lookup_builtin_type`
unfoldable pub lookup_builtin_type : TypeSystem → Str → Result TypeSystemError FieldType
lookup_builtin_type ts name = lookup_builtin (length name) ts name

unfoldable pub lookup_type : TypeSystem → Str → Result TypeSystemError FieldType
lookup_type ts n = elim (lookup_builtin_type ts n) [
  | ok t ↦ ok t
  | err _ ↦ elim (lookup_custom_type ts n) [
    | ok e ↦ ok (FieldType.entity e)
    | err _ ↦ err (no_such_type n)
  ]
]

-- The match of `lookup_entity` on the built-in lookup.
entity_or_custom :
    TypeSystem → Str → Result TypeSystemError FieldType → Result TypeSystemError Entity
unfolding lookup_custom_type
entity_or_custom ts n (ok (FieldType.entity e)) = ok e
entity_or_custom ts n (err (not_a_builtin_type _)) = lookup_custom_type ts n
entity_or_custom ts n _ = err (no_such_type n)

unfoldable pub lookup_entity : TypeSystem → Str → Result TypeSystemError Entity
unfolding entity_or_custom
lookup_entity ts n = entity_or_custom ts n (lookup_builtin_type ts n)

unfoldable pub get : TypeSystem → TypeId → Result TypeSystemError FieldType
get ts (TypeId.entity n version) =
    if str_eq version chiselstrike_version then lookup_builtin_type ts n else do
      ensure (str_eq version ts.version_id) version_panic
      e ← lookup_entity ts n
      ok (FieldType.entity e)
get ts (TypeId.entity_id n) = ok (FieldType.entity_id n)
get ts t = lookup_builtin_type ts (type_id_name t)

-- `fields == fields`, `Option<String> == Option<String>`
unfoldable pub strs_eq : List Str → List Str → Bool
strs_eq [] [] = true
strs_eq (a ∷ xs) (b ∷ ys) = str_eq a b && strs_eq xs ys
strs_eq _ _ = false

unfoldable pub opt_eq : Option Str → Option Str → Bool
opt_eq none none = true
opt_eq (some a) (some b) = str_eq a b
opt_eq _ _ = false

-- `index_diff`
unfoldable pub index_diff : List DbIndex → List DbIndex → List DbIndex
index_diff lhs rhs = filter (λ l. not (any (λ r. strs_eq l.fields r.fields) rhs)) lhs

pub record FieldAttrDelta : Type 0 where
  pub type_id : TypeId
  pub default : Option Str
  pub is_optional : Bool
  pub is_unique : Bool

pub record FieldDelta : Type 0 where
  pub id : ℤ
  pub attrs : Option FieldAttrDelta
  pub labels : Option (List Str)

pub record ObjectDelta : Type 0 where
  pub added_fields : List Field
  pub removed_fields : List Field
  pub updated_fields : List FieldDelta
  pub added_indexes : List DbIndex
  pub removed_indexes : List DbIndex

-- `Vec<String>::sort`
insert_label : Str → List Str → List Str
insert_label l [] = l ∷ []
insert_label l (m ∷ ms) = if bytes_ltb m l then m ∷ insert_label l ms else l ∷ m ∷ ms

unfoldable pub sort_labels : List Str → List Str
unfolding insert_label
sort_labels [] = []
sort_labels (l ∷ ls) = insert_label l (sort_labels ls)

-- A field that can be absent from a row: it has a default value or is optional.
abbrev pub can_be_absent : Field → Bool
can_be_absent f = not (is_none f.default) || f.is_optional

attrs_delta : Field → FieldType → Field → FieldType → Option FieldAttrDelta
attrs_delta field field_ty old old_ty =
    if not (opt_eq field.default old.default)
      || (not (type_eq field_ty old_ty)
          || (not (beq field.is_optional old.is_optional)
              || not (beq field.is_unique old.is_unique)))
    then some (record {
      type_id = field.type_id;
      default = field.default;
      is_optional = field.is_optional;
      is_unique = field.is_unique;
    })
    else none

labels_delta : Field → Field → Option (List Str)
labels_delta field old =
    let old_labels = sort_labels old.labels in
    let new_labels = sort_labels field.labels in
    if strs_eq old_labels new_labels then none else some new_labels

-- The branch of a field that the old type has too. `force` is `allow_unsafe_replacement`.
unfoldable pub update_field :
    TypeSystem → Bool → Str → Field → Field → Result TypeSystemError FieldDelta
unfolding attrs_delta labels_delta
update_field ts force ty_name field old = do
  field_ty ← get ts field.type_id
  old_ty ← get ts old.type_id
  ensure (force || type_eq field_ty old_ty) (unsafe_replacement ty_name (changed_type field.name))
  ensure (force || (not field.is_unique || old.is_unique))
      (unsafe_replacement ty_name (added_unique field.name))
  id ← ok_or old.id internal_server_error
  ok (record {
    id = id;
    attrs = attrs_delta field field_ty old old_ty;
    labels = labels_delta field old;
  })

-- The state of the loop over the new fields: what was pushed, and the old fields that are left.
pub record Progress : Type 0 where
  pub added : List Field
  pub updated : List FieldDelta
  pub left : List (Str × Field)

unfoldable pub step_field :
    TypeSystem → Bool → Str → Str → Field → Progress → Result TypeSystemError Progress
step_field ts force ty_name n field p = elim (lookup n p.left) [
  | none ↦ do
    ensure (force || can_be_absent field) (unsafe_replacement ty_name (added_required field.name))
    ok (record p { added = p.added ++ field ∷ []; left = remove n p.left })
  | some old ↦ do
    delta ← update_field ts force ty_name field old
    ok (record p { updated = p.updated ++ delta ∷ []; left = remove n p.left })
]

unfoldable pub new_fields_loop :
    TypeSystem → Bool → Str → List (Str × Field) → Progress → Result TypeSystemError Progress
new_fields_loop ts force ty_name [] p = ok p
new_fields_loop ts force ty_name ((n, field) ∷ fs) p =
    step_field ts force ty_name n field p >>= λ q. new_fields_loop ts force ty_name fs q

-- The loop over the old fields that are left.
unfoldable pub removed_loop : Bool → Str → List (Str × Field) → Result TypeSystemError (List Field)
removed_loop force ty_name [] = ok []
removed_loop force ty_name ((n, field) ∷ fs) = do
  ensure (force || can_be_absent field) (unsafe_replacement ty_name (removed_required field.name))
  rest ← removed_loop force ty_name fs
  ok (field ∷ rest)

-- `generate_type_delta`
unfoldable pub generate_type_delta :
    TypeSystem → ObjectType → ObjectType → Bool → Result TypeSystemError ObjectDelta
generate_type_delta ts old_type new_type force = do
  ensure (object_eq old_type new_type) (unsafe_replacement new_type.name types_dont_match)
  p ←
      new_fields_loop ts force new_type.name (field_map new_type)
        (record { added = []; updated = []; left = field_map old_type })
  removed ← removed_loop force new_type.name p.left
  ok (record {
    added_fields = p.added;
    removed_fields = removed;
    updated_fields = p.updated;
    added_indexes = index_diff new_type.indexes old_type.indexes;
    removed_indexes = index_diff old_type.indexes new_type.indexes;
  })
