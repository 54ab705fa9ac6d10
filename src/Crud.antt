-- ===== src/Crud.antt =====
-- server/src/datastore/crud.rs: paging cursors, and the filters and sorts of URL parameters. JSON,
-- base64, URL encoding and the text of floats belong to other libraries: the record `Codec`.
pub mod Query
pub mod Lexicographic
pub mod Paging
pub mod NextPage
pub mod Axes
pub mod Asked
pub mod Conditions
pub mod Deletion
mod Tests
use chiselstrike.Prelude.{
  ℕ, Str, text, Bool, true, false, not, Option, none, some, List, [], ◌∷◌, ◌++◌, map, is_empty,
  str_eq, ◌==◌, beq, if◌then◌else◌, Result, ok, err, ensure, ok_or, ◌>>=◌, ◌>>◌,
}
use chiselstrike.Json.{Json, Number}
use chiselstrike.Expr.{
  BinaryOp, Value, Expr, parameter, property, binary, value, FilterError, and_expr, or_expr,
  eq_expr,
}
use chiselstrike.Types.{FieldType, Entity, object_type, get_field, has_field}
use chiselstrike.TypeSystem.{TypeSystem, TypeSystemError, get as type_get}
use chiselstrike.QueryPlan.{SortKey, SortBy}

pub record CursorAxis : Type 0 where
  pub key : SortKey
  pub value : Json

pub record Cursor : Type 0 where
  pub axes : List CursorAxis
  pub forward : Bool
  pub inclusive : Bool

-- What other libraries do: `serde_json::from_str`; base64 with `serde_json` on cursors, both ways;
-- `Number::as_f64`; `str::parse::<f64>`; and `form_urlencoded` on the pairs of a query.
pub record Codec : Type 0 where
  pub parse_json : Str → Option Json
  pub parse_cursor : Str → Option Cursor
  pub print_cursor : Cursor → Str
  pub as_f64 : Number → ℕ
  pub parse_f64 : Str → Option ℕ
  pub encode_pairs : List (Str × Str) → Str

pub data CrudError : Type 0 where
  bad_number : Str → CrudError
  bad_filter_json : CrudError
  bad_filter : FilterError → CrudError
  several_cursors : CrudError
  bad_cursor : CrudError
  empty_cursor : CrudError
  no_sort_field : Str → CrudError
  no_fields : CrudError
  no_such_field : Str → CrudError
  not_an_entity : Str → CrudError
  type_error : TypeSystemError → CrudError
  bad_value : CrudError
  unsupported_type : CrudError
  several_operators : CrudError
  unsupported_operator : Str → CrudError
  unknown_type : CrudError
  scalar_type : CrudError
  unfiltered_delete : CrudError

-- An error of another component in this one's result.
abbrev pub lift_err : {E A : Type 0} → (E → CrudError) → Result E A → Result CrudError A
lift_err f (ok a) = ok a
lift_err f (err e) = err (f e)

-- `Cursor::reversed`
unfoldable pub reversed : Cursor → Cursor
reversed c = record c { forward = not c.forward; inclusive = not c.inclusive }

-- The key of an axis in the direction of the cursor.
abbrev pub directed : Bool → SortKey → SortKey
directed forward key = record key { ascending = beq key.ascending forward }

-- `Cursor::get_sort`
unfoldable pub get_sort : Cursor → SortBy
get_sort c = record { keys = map (λ a. directed c.forward (CursorAxis.key a)) c.axes }

-- One step of the loop of `make_property_chain`.
chain_step : TypeSystem → Str → Expr → FieldType → Result CrudError (Expr × FieldType)
chain_step ts name chain (FieldType.entity e) = elim (get_field (object_type e) name) [
  | none ↦ err (no_such_field name)
  | some field ↦ do t ← lift_err type_error (type_get ts field.type_id); ok (property name chain, t)
]
chain_step ts name chain _ = err (not_an_entity name)

chain_loop : TypeSystem → List Str → Expr × FieldType → Result CrudError (Expr × FieldType)
unfolding chain_step
chain_loop ts [] state = ok state
chain_loop ts (name ∷ names) (chain, ty) =
    chain_step ts name chain ty >>= λ next. chain_loop ts names next

-- `make_property_chain`
unfoldable pub make_property_chain :
    Entity → List Str → TypeSystem → Result CrudError (Expr × FieldType)
unfolding chain_loop
make_property_chain base fields ts =
    ensure (not (is_empty fields)) no_fields
    >> chain_loop ts fields (parameter 0, FieldType.entity base)

abbrev as_str : Json → Option Str
as_str (Json.string s) = some s
as_str _ = none

abbrev as_bool : Json → Option Bool
as_bool (Json.bool b) = some b
as_bool _ = none

abbrev number_of : Codec → Json → Option ℕ
number_of codec (Json.number n) = some (codec.as_f64 n)
number_of codec _ = none

-- A converted value, or the error of the conversion.
abbrev converted : {A : Type 0} → (A → Value) → Option A → Result CrudError Value
converted f none = err bad_value
converted f (some a) = ok (f a)

-- `json_to_value`
unfoldable pub json_to_value : Codec → FieldType → Json → Result CrudError Value
json_to_value codec FieldType.string json = converted Value.string (as_str json)
json_to_value codec FieldType.float json = converted Value.f64 (number_of codec json)
json_to_value codec FieldType.js_date json = converted Value.f64 (number_of codec json)
json_to_value codec FieldType.boolean json = converted Value.bool (as_bool json)
json_to_value codec (FieldType.entity_id n) json = converted Value.string (as_str json)
json_to_value codec _ json = err unsupported_type

-- The operator of an axis.
abbrev pub axis_op : Bool → Bool → Bool → BinaryOp
axis_op ascending forward inclusive =
    if beq ascending forward
    then (if inclusive then BinaryOp.gt_eq else BinaryOp.gt)
    else (if inclusive then BinaryOp.lt_eq else BinaryOp.lt)

-- A comparison of a property chain with the value of the axis.
pub record Pair : Type 0 where
  pub chain : Expr
  pub op : BinaryOp
  pub bound : Value

abbrev pub pair_expr : Pair → Expr
pair_expr p = binary p.op p.chain (value p.bound)

-- The first loop of `get_filter`.
axis_pair : Codec → Entity → TypeSystem → Bool → Bool → CursorAxis → Result CrudError Pair
axis_pair codec base ts forward inclusive axis = do
  (chain, ty) ← make_property_chain base (axis.key.field_name ∷ []) ts
  v ← json_to_value codec ty axis.value
  ok (record { chain = chain; op = axis_op axis.key.ascending forward inclusive; bound = v })

unfoldable pub axis_pairs :
    Codec → Entity → TypeSystem → Bool → Bool → List CursorAxis → Result CrudError (List Pair)
unfolding axis_pair
axis_pairs codec base ts forward inclusive [] = ok []
axis_pairs codec base ts forward inclusive (a ∷ axes) = do
  p ← axis_pair codec base ts forward inclusive a
  ps ← axis_pairs codec base ts forward inclusive axes
  ok (p ∷ ps)

-- The inner loop of `get_filter`: the earlier axes are equal.
unfoldable pub with_equal : List Pair → Expr → Expr
with_equal [] e = e
with_equal (p ∷ ps) e = with_equal ps (and_expr (eq_expr p.chain (value p.bound)) e)

-- The second loop of `get_filter`; `earlier` is `cmp_pairs[0..i]`.
unfoldable pub disjoin : List Pair → List Pair → Option Expr → Option Expr
disjoin earlier [] acc = acc
disjoin earlier (p ∷ ps) none = disjoin (earlier ++ p ∷ []) ps (some (pair_expr p))
disjoin earlier (p ∷ ps) (some acc) =
    disjoin (earlier ++ p ∷ []) ps (some (or_expr acc (with_equal earlier (pair_expr p))))

-- `Cursor::get_filter`; the `unwrap` at its end panics on a cursor without axes.
unfoldable pub get_filter : Codec → Cursor → Entity → TypeSystem → Result CrudError Expr
get_filter codec c base ts = do
  pairs ← axis_pairs codec base ts c.forward c.inclusive c.axes
  ok_or (disjoin [] pairs none) empty_cursor

-- `convert_operator`
unfoldable pub convert_operator : Option Str → Result CrudError BinaryOp
convert_operator none = ok BinaryOp.eq
convert_operator (some op) =
    if str_eq op (text "ne")
    then ok BinaryOp.not_eq
    else if str_eq op (text "lt")
    then ok BinaryOp.lt
    else if str_eq op (text "lte")
    then ok BinaryOp.lt_eq
    else if str_eq op (text "gt")
    then ok BinaryOp.gt
    else if str_eq op (text "gte")
    then ok BinaryOp.gt_eq
    else if str_eq op (text "like")
    then ok BinaryOp.like
    else if str_eq op (text "unlike")
    then ok BinaryOp.not_like
    else err (unsupported_operator op)

-- `parse_sort`: a leading `-` or `+` gives the direction.
sort_name : Str → Str × Bool
sort_name [] = ([], true)
sort_name (c ∷ s) = if c == b'-' then (s, false) else if c == b'+' then (s, true) else (c ∷ s, true)

unfoldable pub parse_sort : Entity → Str → Result CrudError SortBy
unfolding sort_name
parse_sort base v =
    let (name, ascending) = sort_name v in
    ensure (has_field (object_type base) name) (no_sort_field name)
    >> ok (record { keys = record { field_name = name; ascending = ascending } ∷ [] })

-- `str::split` on one character.
abbrev push_first : ℕ → List Str → List Str
push_first d [] = (d ∷ []) ∷ []
push_first d (t ∷ ts) = (d ∷ t) ∷ ts

unfoldable pub split_char : ℕ → Str → List Str
split_char k [] = [] ∷ []
split_char k (c ∷ s) = let rest = split_char k s in if c == k then [] ∷ rest else push_first c rest

parse_bool : Str → Option Bool
parse_bool s =
    if str_eq s (text "true")
    then some true
    else if str_eq s (text "false")
    then some false
    else none

-- The value of a filter parameter, by the type of the field.
unfoldable pub param_value : Codec → FieldType → Str → Result CrudError Value
unfolding parse_bool
param_value codec FieldType.string v = ok (Value.string v)
param_value codec FieldType.float v = converted Value.f64 (codec.parse_f64 v)
param_value codec FieldType.js_date v = converted Value.f64 (codec.parse_f64 v)
param_value codec FieldType.boolean v = converted Value.bool (parse_bool v)
param_value codec (FieldType.entity_id n) v = ok (Value.string v)
param_value codec _ v = err unsupported_type

-- The field names and the operator of a parameter `a.b~op`.
param_parts : List Str → Result CrudError (List Str × Option Str)
param_parts (fields ∷ []) = ok (split_char b'.' fields, none)
param_parts (fields ∷ op ∷ []) = ok (split_char b'.' fields, some op)
param_parts _ = err several_operators

-- `filter_from_param`
unfoldable pub filter_from_param : Codec → Entity → Str → Str → TypeSystem → Result CrudError Expr
unfolding param_parts
filter_from_param codec base key v ts = do
  (fields, op_text) ← param_parts (split_char b'~' key)
  op ← convert_operator op_text
  (chain, ty) ← make_property_chain base fields ts
  x ← param_value codec ty v
  ok (binary op chain (value x))
