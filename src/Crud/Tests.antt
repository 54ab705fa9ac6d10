-- ===== src/Crud/Tests.antt =====
-- Runs of server/src/datastore/crud.rs on an entity with one text field.
use chiselstrike.Prelude.{
  Str, text, ◌≡◌, refl, true, false, Bool, some, none, List, [], ◌∷◌, ◌++◌, lookup, str_eq,
  strip_prefix, ok,
}
use chiselstrike.Json.{Json}
use chiselstrike.Expr.{Value, BinaryOp, Expr, value, property, parameter, binary}
use chiselstrike.Expr.Eval.{Row, holds, unknown, truth}
use chiselstrike.Types.{
  TypeId, FieldType, Field, ObjectType, custom, chisel_id_field, get_field, has_field, type_id_name,
}
use chiselstrike.TypeSystem.{
  TypeSystem, get as type_get, lookup_builtin_type, lookup_builtin, lookup_type, lookup_custom_type,
}
use chiselstrike.QueryPlan.{
  QueryOp, QueryPlan, queried, end, Sql, core, select, make_raw_query, make_clauses,
  split_on_first_take,
}
use chiselstrike.QueryPlan.Pipeline.{Database, IsOrdering, rows, run}
use chiselstrike.Crud.{
  Codec, Cursor, get_sort, get_filter, make_property_chain, json_to_value, axis_pairs, disjoin,
  parse_sort, filter_from_param, split_char, convert_operator, param_value,
}
use chiselstrike.Crud.Query.{
  Query, from_url_query, make_query_ops, page_params, delete_from_url_query, params_loop,
  param_step, parse_u64, apply_cursor, ensure_sort_by_id, delete_query_to_filter, conjoin_all,
  delete_conditions, delete_field, cursor_from_pivot,
}
use chiselstrike.Crud.Lexicographic.{after, axis_values, get_filter-after}
use chiselstrike.Prelude
use chiselstrike.Crud.Axes.{cursor_from_pivot-nonempty}
use chiselstrike.Crud.Paging.{page_rows, query-page}
use chiselstrike.Crud.NextPage.{OwnFilters, from_url_query-page_params}
use chiselstrike.Crud.Deletion.{IsAllowed, delete_from_url_query-IsAllowed}

abbrev name_field : Field
name_field = record {
  id = none;
  name = text "name";
  type_id = TypeId.string;
  labels = [];
  is_optional = false;
  is_unique = false;
  default = none;
  effective_default = none;
  version_id = text "v1";
}

abbrev person_object : ObjectType
person_object = record {
  meta_id = none;
  name = text "Person";
  fields = name_field ∷ [];
  indexes = [];
  chisel_id = chisel_id_field;
  backing_table = text "ty_person";
  version_id = text "v1";
}

abbrev types : TypeSystem
types = record {
  custom_types = (text "Person", custom person_object) ∷ [];
  builtin = (text "string", FieldType.string) ∷ [];
  version_id = text "v1";
}

abbrev by_name : Bool → Cursor
by_name inclusive = record {
  axes =
      record {
        key = record { field_name = text "name"; ascending = true };
        value = Json.string (text "b");
      }
      ∷ [];
  forward = true;
  inclusive = inclusive;
}

abbrev codec : Codec
codec = record {
  parse_json = λ s. none;
  parse_cursor = λ s. some (by_name false);
  print_cursor = λ c. text "c";
  as_f64 = λ n. 0;
  parse_f64 = λ s. none;
  encode_pairs = λ ps. [];
}

by_name_values :
    (inclusive : Bool)
    → axis_values codec (custom person_object) types (by_name inclusive).axes
      ≡ ok (Value.string (text "b") ∷ [])
unfolding axis_values make_property_chain json_to_value get_field type_get lookup_builtin_type
    lookup_builtin lookup str_eq type_id_name strip_prefix
by_name_values inclusive = refl

get_filter-after_example :
    (e : Expr) × (get_filter codec (by_name false) (custom person_object) types ≡ ok e)
    × ((r : Row)
        → truth r e ≡ after r (get_sort (by_name false)).keys (Value.string (text "b") ∷ []))
get_filter-after_example =
    get_filter-after codec (by_name false) (custom person_object) types (Value.string (text "b")) []
      refl (by_name_values false)

abbrev row : Row
row = record {
  read = λ path. Value.string (text "b");
  compares = λ op a b. holds;
  other_truth = λ v. unknown;
}

abbrev by_name_filter : Expr
by_name_filter =
    binary BinaryOp.gt (property (text "name") (parameter 0)) (value (Value.string (text "b")))

abbrev params : List (Str × Str)
params = (text "sort", text "-name") ∷ (text "offset", text "7") ∷ []

abbrev first_page : Query
first_page = record {
  page_size = 1000;
  offset = some 7;
  cursor = none;
  sort = record {
    keys =
        record { field_name = text "name"; ascending = false }
        ∷ record { field_name = text "id"; ascending = true }
        ∷ [];
  };
  filters = [];
}

first_page_run : from_url_query codec (custom person_object) types params ≡ ok first_page
unfolding from_url_query params_loop param_step str_eq parse_sort has_field parse_u64 apply_cursor
    ensure_sort_by_id
first_page_run = refl

by_name_run : get_filter codec (by_name false) (custom person_object) types ≡ ok by_name_filter
unfolding get_filter axis_pairs make_property_chain get_field str_eq type_get lookup_builtin_type
    lookup_builtin type_id_name strip_prefix lookup json_to_value disjoin
by_name_run = refl

from_url_query-page_params_example :
    (p : Query) × (own : List Expr) × (from_url_query codec
        (custom person_object)
        types
        (page_params params (text "c"))
      ≡ ok p)
    × OwnFilters codec (custom person_object) types first_page.cursor first_page.filters own
    × (p.filters ≡ own ++ by_name_filter ∷ [])
    × (p.sort ≡ get_sort (by_name false))
    × (p.page_size ≡ first_page.page_size)
    × (p.offset ≡ first_page.offset)
from_url_query-page_params_example =
    from_url_query-page_params codec (custom person_object) types params first_page (text "c")
      (by_name false) by_name_filter first_page_run refl refl by_name_run

abbrev database : Database
database = record { table = row ∷ row ∷ row ∷ []; order = λ s xs. xs }

database-IsOrdering : IsOrdering database
database-IsOrdering = record { keeps_length = λ s xs. refl; order-filter = λ s p xs. refl }

abbrev small_page : Query
small_page = record {
  page_size = 2;
  offset = none;
  cursor = none;
  sort = record { keys = record { field_name = text "id"; ascending = true } ∷ [] };
  filters = by_name_filter ∷ [];
}

abbrev plan : QueryPlan
plan = record {
  entity = queried person_object end;
  base_type = person_object;
  allowed_fields = none;
  operators = QueryOp.sort_by small_page.sort ∷ QueryOp.filter by_name_filter ∷ QueryOp.take 2 ∷ [];
}

plan_ops : plan.operators ≡ make_query_ops small_page
unfolding make_query_ops
plan_ops = refl

abbrev plan_sql : Sql
plan_sql =
    select
      (record {
        counting = false;
        condition = some by_name_filter;
        order = some small_page.sort;
        limit = some 2;
        offset = none;
      })
      core

plan_run : make_raw_query plan ≡ ok plan_sql
unfolding make_raw_query make_clauses split_on_first_take has_field str_eq
plan_run = refl

query-page_example : run database plan_sql ≡ rows (page_rows database small_page)
query-page_example =
    query-page database plan small_page plan_sql database-IsOrdering plan_ops plan_run

abbrev name_is_b : Expr
name_is_b =
    binary BinaryOp.eq (property (text "name") (parameter 0)) (value (Value.string (text "b")))

deletion_run :
    delete_from_url_query codec types (text "Person") ((text ".name", text "b") ∷ [])
    ≡ ok (custom person_object, some name_is_b)
unfolding delete_from_url_query lookup_type lookup_builtin_type lookup_builtin strip_prefix lookup
    str_eq lookup_custom_type delete_query_to_filter conjoin_all delete_conditions delete_field
    filter_from_param split_char convert_operator make_property_chain param_value get_field type_get
    type_id_name
deletion_run = refl

delete_from_url_query-IsAllowed_example :
    IsAllowed codec (custom person_object) types ((text ".name", text "b") ∷ []) (some name_is_b)
delete_from_url_query-IsAllowed_example =
    delete_from_url_query-IsAllowed codec types (text "Person") ((text ".name", text "b") ∷ [])
      (custom person_object) (some name_is_b) deletion_run

cursor_from_pivot-nonempty_example :
    Prelude.is_empty
      (cursor_from_pivot first_page ((text "name", Json.string (text "b")) ∷ []) true).axes
    ≡ false
cursor_from_pivot-nonempty_example =
    cursor_from_pivot-nonempty codec (custom person_object) types params first_page
      ((text "name", Json.string (text "b")) ∷ []) true first_page_run
