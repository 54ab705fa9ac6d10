-- ===== src/Apply/Tests.antt =====
-- Requests to apply a version, on concrete servers.
use chiselstrike.Prelude.{
  ℕ, ◌≡◌, refl, ap, subst, Str, str_eq, str_eq_iff, text, any, Bool, Bool-cases, ◌||◌, inl, inr,
  Memᴰ, arith, true, false, none, some, List, [], ◌∷◌, strip_prefix, lookup, insert, All, Result,
  ok, err, not, filter, remove,
}
use chiselstrike.Types.{
  Entity, custom, auth, FieldType, ObjectType, chisel_id_field, field_new, object_new, Field,
}
use chiselstrike.TypeSystem.{TypeSystem, lookup_builtin, lookup_builtin_type, lookup_custom_type}
use chiselstrike.Apply.{
  ApplyError, models_have_data, TypeEnum, type_enum, FieldDefinition, AddTypeRequest, field_type,
  is_builtin, msg_is_builtin, get_builtin, get_msg_builtin, type_msg_from, aggregate_indexes,
  object_type,
}
use chiselstrike.Apply.Messages.{get_msg_builtin-type_msg_from}
use chiselstrike.Apply.Sort.{link_fields, link_types, positions_of, sort_custom_types}
use chiselstrike.Apply.Order.Sorted.{IsSortOf, sort_custom_types-IsSortOf}
use chiselstrike.Apply.Plan.{
  find_removed, plan_removal, make_fields, plan_type, plan_types, plan_apply, resolve, Plan,
  empty_plan, new_field,
}
use chiselstrike.Apply.Transaction.{
  ApplyRequest, ApplyResult, Services, VersionInfo, World, apply, parse_policies, prepare,
  write_meta, write_tables,
}
use chiselstrike.Apply.Planned.{IsPlanned, plan_types-IsPlanned}
use chiselstrike.Apply.Data.{IsKept, MayGo, apply_keeps_data}
use chiselstrike.Apply.ToyGraphs.{
  toy_graphs, toy_toposort, fits, is_distinct, is_topological, edge_fits,
}

abbrev object_named : Str → ObjectType
object_named name = record {
  meta_id = none;
  name = name;
  fields = [];
  indexes = [];
  chisel_id = chisel_id_field;
  backing_table = name;
  version_id = text "main";
}

abbrev auth_user : FieldType
auth_user = FieldType.entity (auth (object_named (text "AuthUser")))

-- One stored type, and the built-in types of a string and of a user.
abbrev stored_types : TypeSystem
stored_types = record {
  custom_types = (text "Old", custom (object_named (text "Old"))) ∷ [];
  builtin = (text "AuthUser", auth_user) ∷ [];
  version_id = text "main";
}

get_msg_builtin-type_msg_from_example :
    (msg_is_builtin stored_types (type_msg_from (FieldType.array auth_user)) ≡ ok true)
    × (get_msg_builtin stored_types (type_msg_from (FieldType.array auth_user))
        ≡ ok (FieldType.array auth_user))
unfolding lookup_builtin_type lookup_builtin strip_prefix lookup str_eq
get_msg_builtin-type_msg_from_example =
    get_msg_builtin-type_msg_from stored_types (FieldType.array auth_user) refl

abbrev field_of_type : Str → TypeEnum → FieldDefinition
field_of_type name t = record {
  name = name;
  field_type = some (type_enum t);
  labels = [];
  is_optional = false;
  default_value = none;
  is_unique = false;
}

abbrev post : AddTypeRequest
post = record {
  name = text "Post";
  field_defs =
      field_of_type (text "author") (TypeEnum.entity (text "User"))
      ∷ field_of_type (text "editor") (TypeEnum.entity (text "AuthUser"))
      ∷ [];
}

abbrev user : AddTypeRequest
user = record {
  name = text "User";
  field_defs = field_of_type (text "name") (TypeEnum.string true) ∷ [];
}

sort_run : sort_custom_types toy_graphs stored_types (post ∷ user ∷ []) ≡ ok (user ∷ post ∷ [])
unfolding sort_custom_types link_types link_fields positions_of is_builtin field_type toy_toposort
    fits is_distinct is_topological edge_fits lookup_builtin_type lookup insert str_eq
    lookup_builtin strip_prefix
sort_run = refl

sort_custom_types-IsSortOf_example : IsSortOf stored_types (post ∷ user ∷ []) (user ∷ post ∷ [])
sort_custom_types-IsSortOf_example =
    sort_custom_types-IsSortOf toy_graphs stored_types (post ∷ user ∷ []) (user ∷ post ∷ [])
      sort_run

-- Metadata that hold the type system to load, and tables that are a list of names. Every stored type
-- has as many rows as `rows` says.
abbrev toy_services : ℕ → Services TypeSystem (List Str) (List Str)
toy_services rows = record {
  count_rows = λ m e. ok rows;
  persist_policy_sources = λ version sources m. ok m;
  persist_policy_version = λ version policies m. ok m;
  persist_version_info = λ version info m. ok m;
  persist_modules = λ version modules m. ok m;
  insert_type = λ ty m. ok (record m { custom_types = insert ty.name (custom ty) m.custom_types });
  update_type = λ e delta m. ok m;
  remove_type = λ e m. ok (record m { custom_types = remove (object_type e).name m.custom_types });
  commit_meta = λ m. ok m;
  load_type_systems = λ m. ok ((text "main", m) ∷ []);
  create_table = λ e d. ok ((object_type e).name ∷ d);
  drop_table = λ e d. ok (filter (λ n. not (str_eq n (object_type e).name)) d);
  alter_table = λ e delta d. ok d;
  commit_data = λ d. ok d;
  from_yaml = λ s. ok [];
  default_policies = [];
  labels_of = λ p. p;
  parse_code = λ s. ok tt;
  typescript_policies = true;
  graphs = toy_graphs;
  uuid_of = λ n. text "1";
}

abbrev toy_world : World TypeSystem (List Str)
toy_world = record { meta = stored_types; tables = text "Old" ∷ []; types = stored_types }

abbrev no_types : Bool → ApplyRequest
no_types allow = record {
  types = [];
  index_candidates = [];
  policies = [];
  allow_type_deletion = allow;
}

abbrev info : VersionInfo
info = record { name = text "app"; tag = text "1" }

-- The type `Old` has rows, and its deletion is not allowed.
refused_run :
    apply (toy_services 3) (text "main") info [] (no_types false) toy_world
    ≡ (err (models_have_data ((text "Old", 3) ∷ [])), toy_world)
unfolding apply prepare plan_apply plan_removal find_removed
refused_run = refl

abbrev emptied_types : TypeSystem
emptied_types = record stored_types { custom_types = [] }

abbrev emptied_result : ApplyResult (List Str)
emptied_result = record {
  type_system = emptied_types;
  policy_system = [];
  type_names_user_order = [];
  labels = [];
  policy_sources = [];
}

abbrev emptied_world : World TypeSystem (List Str)
emptied_world = record { meta = emptied_types; tables = []; types = emptied_types }

-- With its deletion allowed, the type, its table and its rows are gone.
emptied_run :
    apply (toy_services 3) (text "main") info [] (no_types true) toy_world
    ≡ (ok emptied_result, emptied_world)
unfolding apply prepare plan_apply plan_removal find_removed plan_types sort_custom_types link_types
    positions_of toy_toposort fits is_distinct is_topological parse_policies write_meta write_tables
    aggregate_indexes lookup remove str_eq
emptied_run = refl

-- The table `Kept` is there, whatever else.
abbrev HasKept : List Str → Type 0
HasKept tables = any (str_eq (text "Kept")) tables ≡ true

-- Dropping the table `Old` keeps it.
filter-HasKept :
    (tables : List Str)
    → HasKept tables
    → HasKept (filter (λ n. not (str_eq n (text "Old"))) tables)
unfolding str_eq
filter-HasKept [] h = cc h
filter-HasKept (n ∷ ns) h = elim (Bool-cases (str_eq n (text "Old"))) [
  | inl old ↦ rw old (
      filter-HasKept ns (
        subst (λ m. (str_eq (text "Kept") m || any (str_eq (text "Kept")) ns) ≡ true)
          ((str_eq_iff n (text "Old")).0 old) h))
  | inr other ↦ rw other (beside n ns h (filter-HasKept ns))
]
  where
    beside :
        (n : Str) (ns : List Str)
        → HasKept (n ∷ ns)
        → (HasKept ns → HasKept (filter (λ n. not (str_eq n (text "Old"))) ns))
        → HasKept (n ∷ filter (λ n. not (str_eq n (text "Old"))) ns)
    beside n ns h k = elim (Bool-cases (str_eq (text "Kept") n)) [
      | inl same ↦ rw same refl
      | inr other ↦ rw other (k (subst (λ b. (b || any (str_eq (text "Kept")) ns) ≡ true) other h))
    ]

abbrev kept_world : World TypeSystem (List Str)
kept_world = record toy_world { tables = text "Old" ∷ text "Kept" ∷ [] }

abbrev ok_list : List Str → Result ApplyError (List Str)
ok_list d = ok d

or_true : (b : Bool) → (b || true) ≡ true
or_true b = ground arith

-- Only `Old` is stored, so no other table may go.
drop-HasKept :
    (e : Entity) (d d' : List Str)
    → MayGo (toy_services 3) (no_types true) kept_world e
    → Services.drop_table (toy_services 3) e d ≡ ok d'
    → HasKept d
    → HasKept d'
drop-HasKept e d d' ((n, Memᴰ.head m, u), g) h k =
    let is : e ≡ custom (object_named (text "Old")) = ap (λ (x : Str × Entity). x.1) m in
    let same : filter (λ n. not (str_eq n (text "Old"))) d ≡ d' = cc (
      subst
        (λ (x : Entity). ok_list (filter (λ n. not (str_eq n (object_type x).name)) d) ≡ ok_list d')
        is h) in
    subst HasKept same (filter-HasKept d k)
drop-HasKept e d d' ((n, Memᴰ.tail m, u), g) h k = elim m [ ]

services-IsKept :
    IsKept (toy_services 3) HasKept (MayGo (toy_services 3) (no_types true) kept_world)
services-IsKept = record {
  created = λ e d d' h k.
      let same : (object_type e).name ∷ d ≡ d' = cc h in
      subst HasKept same (rw k (or_true (str_eq (text "Kept") (object_type e).name)));
  altered = λ u d d' h k. let same : d ≡ d' = cc h in subst HasKept same k;
  committed = λ d d' h k. let same : d ≡ d' = cc h in subst HasKept same k;
  dropped = drop-HasKept;
}

apply_keeps_data_example :
    HasKept
      (World.tables (apply (toy_services 3) (text "main") info [] (no_types true) kept_world).1)
unfolding str_eq
apply_keeps_data_example =
    apply_keeps_data (toy_services 3) HasKept (text "main") info [] (no_types true) kept_world
      services-IsKept refl

-- A new type is inserted and its table is made; the stored type has no rows and goes.
user_run :
    (apply
      (toy_services 0)
      (text "main")
      info
      []
      (record (no_types false) { types = user ∷ [] })
      toy_world).1.tables
    ≡ text "User" ∷ []
unfolding apply prepare plan_apply plan_removal find_removed plan_types plan_type make_fields
    resolve field_type is_builtin get_builtin sort_custom_types link_types link_fields positions_of
    toy_toposort fits is_distinct is_topological edge_fits parse_policies write_meta write_tables
    aggregate_indexes lookup insert str_eq lookup_builtin_type lookup_builtin strip_prefix
    object_new field_new lookup_custom_type remove
user_run = refl

abbrev user_field : Field
user_field = field_new (new_field (text "name") FieldType.string (text "main")) [] none false false

abbrev user_object : ObjectType
user_object = record {
  meta_id = none;
  name = text "User";
  fields = user_field ∷ [];
  indexes = [];
  chisel_id = chisel_id_field;
  backing_table = text "ty_User_1";
  version_id = text "main";
}

abbrev user_plan : Plan
user_plan = record {
  new_types = (text "User", custom user_object) ∷ [];
  to_insert = user_object ∷ [];
  to_update = [];
}

user_plan_run :
    plan_types
      (λ e. ok 3)
      (λ n. text "1")
      stored_types
      (text "User" ∷ [])
      []
      (text "main")
      (user ∷ [])
      empty_plan
    ≡ ok user_plan
unfolding plan_types plan_type make_fields resolve field_type is_builtin get_builtin lookup insert
    str_eq lookup_builtin_type lookup_builtin strip_prefix object_new field_new lookup_custom_type
user_plan_run = refl

plan_types-IsPlanned_example :
    All (λ t. IsPlanned (λ e. ok 3) (λ n. text "1") stored_types user_plan t.name) (user ∷ [])
plan_types-IsPlanned_example =
    plan_types-IsPlanned (λ e. ok 3) (λ n. text "1") stored_types (text "User" ∷ []) []
      (text "main") (user ∷ []) user_plan user_plan_run
