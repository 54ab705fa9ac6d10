-- ===== src/Crud/Query.antt =====
-- server/src/datastore/crud.rs: the query of a URL, its operators, the pages around a result, and
-- the condition of a deletion.
use Prim.Native.Nat.{◌*◌, ◌^◌}
use chiselstrike.Prelude
use chiselstrike.Prelude.{
  ℕ, ◌+◌, ◌-◌, Str, text, Bool, true, false, not, ◌&&◌, ◌||◌, Option, none, some, List, [], ◌∷◌,
  ◌++◌, any, lookup, get_last?, str_eq, ltb, leb, ◌==◌, beq, if◌then◌else◌, map, Result, ok, err,
  ensure, ok_or, ◌>>=◌, ◌>>◌,
}
use chiselstrike.Json.{Json}
use chiselstrike.Expr.{Expr, and_expr}
use chiselstrike.Filter.{to_expr}
use chiselstrike.Types.{FieldType, Entity, id_name}
use chiselstrike.TypeSystem.{TypeSystem, lookup_type}
use chiselstrike.QueryPlan.{SortKey, SortBy, QueryOp}
use chiselstrike.Crud.{
  Codec, Cursor, CursorAxis, CrudError, bad_number, bad_filter_json, bad_filter, several_cursors,
  bad_cursor, empty_cursor, unknown_type, scalar_type, unfiltered_delete, lift_err, reversed,
  get_sort, get_filter, parse_sort, filter_from_param,
}

pub record Query : Type 0 where
  pub page_size : ℕ
  pub offset : Option ℕ
  pub cursor : Option Cursor
  pub sort : SortBy
  pub filters : List Expr

abbrev pub id_key : SortKey
id_key = record { field_name = id_name; ascending = true }

-- `Query::new`
abbrev pub new_query : Query
new_query = record {
  page_size = 1000;
  offset = none;
  cursor = none;
  sort = record { keys = id_key ∷ [] };
  filters = [];
}

-- `str::parse::<u64>`: decimal digits, with an optional `+`, below 2 ^ 64.
u64_digits : ℕ → Str → Option ℕ
u64_digits n [] = some n
u64_digits n (c ∷ s) =
    let m = n * 10 + (c - b'0') in
    let rest = u64_digits m s in if leb b'0' c && (leb c b'9' && ltb m (2 ^ 64)) then rest else none

unfoldable pub parse_u64 : Str → Option ℕ
unfolding u64_digits
parse_u64 [] = none
parse_u64 (c ∷ []) = if c == b'+' then none else u64_digits 0 (c ∷ [])
parse_u64 (c ∷ d ∷ s) = if c == b'+' then u64_digits 0 (d ∷ s) else u64_digits 0 (c ∷ d ∷ s)

-- The arm `"filter"`: the JSON of the parameter as an expression.
unfoldable pub json_filter : Codec → Str → Result CrudError Expr
json_filter codec v = do
  json ← ok_or (codec.parse_json v) bad_filter_json
  lift_err bad_filter (to_expr json)

-- `Cursor::from_string`
unfoldable pub cursor_from_string : Codec → Str → Result CrudError Cursor
cursor_from_string codec v = do
  c ← ok_or (codec.parse_cursor v) bad_cursor
  ensure (not (Prelude.is_empty c.axes)) empty_cursor
  ok c

abbrev pub is_none {ℓ} : {A : Type ℓ} → Option A → Bool
is_none none = true
is_none (some a) = false

-- `ensure_sort_by_id`
unfoldable pub ensure_sort_by_id : SortBy → SortBy
ensure_sort_by_id s =
    if any (λ k. str_eq (SortKey.field_name k) id_name) s.keys
    then s
    else record { keys = s.keys ++ id_key ∷ [] }

module _ (codec : Codec) (base : Entity) (ts : TypeSystem) where
  -- The arm of a parameter whose name is no keyword: `.field` is a filter, others are ignored.
  unfoldable pub field_param : Str → Str → Query → Result CrudError Query
  field_param [] v q = ok q
  field_param (c ∷ name) v q =
      if c == b'.'
      then (do
        e ← filter_from_param codec base name v ts
        ok (record q { filters = q.filters ++ e ∷ [] }))
      else ok q

  -- One parameter of the URL.
  unfoldable pub param_step : Str → Str → Query → Result CrudError Query
  unfolding field_param
  param_step key v q =
      if str_eq key (text "sort")
      then (do s ← parse_sort base v; ok (record q { sort = s }))
      else if str_eq key (text "limit") || str_eq key (text "page_size")
      then (do n ← ok_or (parse_u64 v) (bad_number v); ok (record q { page_size = n }))
      else if str_eq key (text "offset")
      then (do n ← ok_or (parse_u64 v) (bad_number v); ok (record q { offset = some n }))
      else if str_eq key (text "filter")
      then (do e ← json_filter codec v; ok (record q { filters = q.filters ++ e ∷ [] }))
      else if str_eq key (text "cursor")
      then (do
        ensure (is_none q.cursor) several_cursors
        c ← cursor_from_string codec v
        ok (record q { cursor = some c }))
      else field_param key v q

  unfoldable pub params_loop : List (Str × Str) → Query → Result CrudError Query
  params_loop [] q = ok q
  params_loop ((key, v) ∷ params) q = param_step key v q >>= λ r. params_loop params r

  -- The end of `from_url_query`: the sort and the filter of the cursor.
  unfoldable pub apply_cursor : Option Cursor → Query → Result CrudError Query
  apply_cursor none q = ok q
  apply_cursor (some c) q = do
    e ← get_filter codec c base ts
    ok (record q { sort = get_sort c; filters = q.filters ++ e ∷ [] })

  -- `Query::from_url_query`
  unfoldable pub from_url_query : List (Str × Str) → Result CrudError Query
  from_url_query params = do
    q ← params_loop params new_query
    apply_cursor q.cursor (record q { sort = ensure_sort_by_id q.sort })

-- `Query::make_query_ops`
unfoldable pub make_query_ops : Query → List QueryOp
make_query_ops q =
    QueryOp.sort_by q.sort
    ∷ (map QueryOp.filter q.filters
        ++ (elim q.offset [ none ↦ [] | some n ↦ QueryOp.skip n ∷ [] ]
            ++ QueryOp.take q.page_size ∷ []))

abbrev pub JsonObject : Type 0
JsonObject = List (Str × Json)

-- The sort keys in the order that the user sees.
unfoldable pub visible_keys : Query → List SortKey
visible_keys q = elim q.cursor [ none ↦ q.sort.keys | some c ↦ map (λ a. CursorAxis.key a) c.axes ]

abbrev pub field_of : JsonObject → Str → Json
field_of pivot name = elim (lookup name pivot) [ none ↦ Json.null | some v ↦ v ]

-- `cursor_from_pivot`
unfoldable pub cursor_from_pivot : Query → JsonObject → Bool → Cursor
unfolding visible_keys
cursor_from_pivot q pivot forward = record {
  axes =
      map (λ k. record { key = k; value = field_of pivot (SortKey.field_name k) }) (visible_keys q);
  forward = forward;
  inclusive = false;
}

-- The parameters of the URL of a page: those of this page, with the new cursor.
abbrev pub is_kept : Str × Str → Bool
is_kept p = not (str_eq p.0 (text "cursor") || str_eq p.0 (text "sort"))

abbrev pub page_params : List (Str × Str) → Str → List (Str × Str)
page_params params cursor = Prelude.filter is_kept params ++ (text "cursor", cursor) ∷ []

-- `make_page_url`, up to the encoding of the pairs.
unfoldable pub make_page_url : Codec → Str → List (Str × Str) → Str → Str
make_page_url codec path params cursor =
    path ++ (text "?" ++ codec.encode_pairs (page_params params cursor))

-- The cursor of the page that `get_page` links to, if it links to one.
unfoldable pub page_cursor : Query → List JsonObject → Bool → Option Cursor
page_cursor q [] forward = elim q.cursor [
  | none ↦ none
  | some c ↦ if beq c.forward forward then none else some (reversed c)
]
page_cursor q (r ∷ rs) forward =
    if forward
    then (elim (get_last? (r ∷ rs)) [ none ↦ none | some p ↦ some (cursor_from_pivot q p forward) ])
    else some (cursor_from_pivot q r forward)

-- `get_page`
unfoldable pub get_page :
    Codec → Str → List (Str × Str) → Query → List JsonObject → Bool → Option Str
get_page codec path params q results forward = elim (page_cursor q results forward) [
  | none ↦ none
  | some c ↦ some (make_page_url codec path params (codec.print_cursor c))
]

-- The fold over the conditions.
unfoldable pub conjoin_all : Option Expr → List Expr → Option Expr
conjoin_all acc [] = acc
conjoin_all none (e ∷ es) = conjoin_all (some e) es
conjoin_all (some f) (e ∷ es) = conjoin_all (some (and_expr f e)) es

-- The loop of `delete_query_to_filter`.
module _ (codec : Codec) (base : Entity) (ts : TypeSystem) where
  unfoldable pub delete_field : Str → Str → Result CrudError (Option Expr)
  delete_field [] v = ok none
  delete_field (c ∷ name) v =
      if c == b'.'
      then (do e ← filter_from_param codec base name v ts; ok (some e))
      else if str_eq (c ∷ name) (text "filter")
      then (do e ← json_filter codec v; ok (some e))
      else ok none

  unfoldable pub delete_conditions : List (Str × Str) → Result CrudError (List Expr)
  unfolding delete_field
  delete_conditions [] = ok []
  delete_conditions ((key, v) ∷ params) = do
    e ← delete_field key v
    es ← delete_conditions params
    ok (elim e [ none ↦ es | some x ↦ x ∷ es ])

  unfoldable pub delete_query_to_filter : List (Str × Str) → Result CrudError (Option Expr)
  unfolding delete_conditions
  delete_query_to_filter params = do es ← delete_conditions params; ok (conjoin_all none es)

-- The entity of a deletion.
unfoldable pub delete_base : TypeSystem → Str → Result CrudError Entity
delete_base ts name = elim (lookup_type ts name) [
  | ok (FieldType.entity e) ↦ ok e
  | ok _ ↦ err scalar_type
  | err _ ↦ err unknown_type
]

-- `delete_from_url_query`, up to the arguments of `Mutation::delete_from_expr`.
unfoldable pub delete_from_url_query :
    Codec → TypeSystem → Str → List (Str × Str) → Result CrudError (Entity × Option Expr)
unfolding delete_base
delete_from_url_query codec ts name params = do
  base ← delete_base ts name
  filter_expr ← delete_query_to_filter codec base ts params
  ensure
      (not (is_none filter_expr)
        || any (λ p. str_eq p.0 (text "all") && str_eq p.1 (text "true")) params)
      unfiltered_delete
  ok (base, filter_expr)
