-- ===== src/QueryPlan.antt =====
-- server/src/datastore/query.rs: query operators, the conversion of an operator chain, and the
-- nesting of SQL selects that carries the operators out. The text of a select is represented by the
-- tree `Sql` of its clauses.
pub mod Pipeline
pub mod Stage
pub mod Staged
pub mod Fuel
mod Tests
use chiselstrike.Prelude
use chiselstrike.Prelude.{
  ℕ, zero, suc, ◌-◌, Str, Bool, true, false, Option, none, some, List, [], ◌∷◌, ◌++◌, length, leb,
  ◌==◌, if◌then◌else◌, str_eq, not, is_empty, Result, ok, err, ensure, ◌>>=◌, ◌>>◌, ◌||◌,
}
use chiselstrike.Json.{Json}
use chiselstrike.Expr.{Expr, parameter, property, binary, value, FilterError, and_expr}
use chiselstrike.Filter.{to_expr}
use chiselstrike.Types.{ObjectType, has_field}

pub record SortKey : Type 0 where
  pub field_name : Str
  pub ascending : Bool

pub record SortBy : Type 0 where
  pub keys : List SortKey

pub data QueryOp : Type 0 where
  filter : Expr → QueryOp
  projection : List Str → QueryOp
  take : ℕ → QueryOp
  skip : ℕ → QueryOp
  sort_by : SortBy → QueryOp
  count : QueryOp

pub data QueryOpChain : Type 0 where
  base_entity : Str → QueryOpChain
  filter : Expr → QueryOpChain → QueryOpChain
  expression_filter : Json → QueryOpChain → QueryOpChain
  projection : List Str → QueryOpChain → QueryOpChain
  take : ℕ → QueryOpChain → QueryOpChain
  skip : ℕ → QueryOpChain → QueryOpChain
  sort_by : List SortKey → QueryOpChain → QueryOpChain
  count : QueryOpChain → QueryOpChain

-- `ops.push(query_op)` on the operators of the inner chain.
push_op :
    QueryOp → Result FilterError (Str × List QueryOp) → Result FilterError (Str × List QueryOp)
push_op op (ok (name, ops)) = ok (name, ops ++ op ∷ [])
push_op op (err e) = err e

-- `convert_ops`
unfoldable pub convert_ops : QueryOpChain → Result FilterError (Str × List QueryOp)
unfolding push_op
convert_ops (QueryOpChain.base_entity name) = ok (name, [])
convert_ops (QueryOpChain.filter e inner) = push_op (QueryOp.filter e) (convert_ops inner)
convert_ops (QueryOpChain.expression_filter json inner) =
    let rest = convert_ops inner in to_expr json >>= λ e. push_op (QueryOp.filter e) rest
convert_ops (QueryOpChain.projection fields inner) =
    push_op (QueryOp.projection fields) (convert_ops inner)
convert_ops (QueryOpChain.take n inner) = push_op (QueryOp.take n) (convert_ops inner)
convert_ops (QueryOpChain.skip n inner) = push_op (QueryOp.skip n) (convert_ops inner)
convert_ops (QueryOpChain.sort_by keys inner) =
    push_op (QueryOp.sort_by (record { keys = keys })) (convert_ops inner)
convert_ops (QueryOpChain.count inner) = push_op QueryOp.count (convert_ops inner)

-- The entity that is queried, with the entities joined to its fields.
mutual
  pub data QueriedEntity : Type 0 where
    queried : ObjectType → Joins → QueriedEntity

  pub data Joins : Type 0 where
    end : Joins
    join : Str → QueriedEntity → Joins → Joins

pub record QueryPlan : Type 0 where
  pub entity : QueriedEntity
  pub base_type : ObjectType
  pub allowed_fields : Option (List Str)
  pub operators : List QueryOp

-- The loop of `process_projections`: the last `Projection` or `Count` decides.
allowed_after : Option (List Str) → List QueryOp → Option (List Str)
allowed_after allowed [] = allowed
allowed_after allowed (QueryOp.projection fields ∷ ops) = allowed_after (some fields) ops
allowed_after allowed (QueryOp.count ∷ ops) = allowed_after none ops
allowed_after allowed (op ∷ ops) = allowed_after allowed ops

abbrev pub is_projection : QueryOp → Bool
is_projection (QueryOp.projection fields) = true
is_projection _ = false

-- `process_projections` and `extend_operators`
unfoldable pub extend_operators : QueryPlan → List QueryOp → QueryPlan
unfolding allowed_after
extend_operators plan ops = record plan {
  allowed_fields = allowed_after plan.allowed_fields ops;
  operators = plan.operators ++ Prelude.filter (λ op. not (is_projection op)) ops;
}

pub data PlanError : Type 0 where
  standalone_parameter : PlanError
  bad_property_chain : PlanError
  no_such_field : Str → PlanError
  no_join : Str → PlanError
  count_not_last : PlanError
  several_limits : PlanError
  out_of_fuel : PlanError

-- `get_property_chain`
get_property_chain : Str → Expr → Result PlanError (List Str)
get_property_chain name (property inner object) = do
  properties ← get_property_chain inner object
  ok (properties ++ name ∷ [])
get_property_chain name (parameter i) = ok (name ∷ [])
get_property_chain name _ = err bad_property_chain

find_join : Str → Joins → Option QueriedEntity
find_join n end = none
find_join n (join m e js) = if str_eq m n then some e else find_join n js

abbrev type_of : QueriedEntity → ObjectType
type_of (queried ty joins) = ty

abbrev joins_of : QueriedEntity → Joins
joins_of (queried ty joins) = joins

check_field : QueriedEntity → Str → Result PlanError (Unit {0})
check_field entity field = ensure (has_field (type_of entity) field) (no_such_field field)

-- The walk through the joined entities.
check_fields : QueriedEntity → Str → List Str → Result PlanError (Unit {0})
unfolding check_field find_join
check_fields entity field [] = ok tt
check_fields entity field (next ∷ rest) = elim (find_join field (joins_of entity)) [
  | none ↦ err (no_join field)
  | some joined ↦ check_field joined next >> check_fields joined next rest
]

check_chain : QueriedEntity → List Str → Result PlanError (Unit {0})
unfolding check_fields
check_chain entity [] = err bad_property_chain
check_chain entity (field ∷ rest) = check_field entity field >> check_fields entity field rest

-- The errors of `filter_expr_to_string` and `property_expr_to_string`.
unfoldable pub check_expr : QueriedEntity → Expr → Result PlanError (Unit {0})
unfolding get_property_chain check_chain
check_expr entity (value v) = ok tt
check_expr entity (parameter i) = err standalone_parameter
check_expr entity (property name object) =
    get_property_chain name object >>= λ properties. check_chain entity properties
check_expr entity (binary op l r) = check_expr entity l >> check_expr entity r
check_expr entity (Expr.not e) = check_expr entity e

pub check_filter : QueriedEntity → Option Expr → Result PlanError (Unit {0})
unfolding check_expr
check_filter entity none = ok tt
check_filter entity (some e) = check_expr entity e

-- The errors of `make_sort_string`.
check_keys : ObjectType → List SortKey → Result PlanError (Unit {0})
check_keys ty [] = ok tt
check_keys ty (k ∷ ks) =
    ensure (has_field ty k.field_name) (no_such_field k.field_name) >> check_keys ty ks

pub check_sort : ObjectType → Option SortBy → Result PlanError (Unit {0})
unfolding check_keys
check_sort ty none = ok tt
check_sort ty (some s) = check_keys ty s.keys

-- `split_on_first_take`
unfoldable pub split_on_first_take : List QueryOp → List QueryOp × List QueryOp
split_on_first_take [] = ([], [])
split_on_first_take (QueryOp.take n ∷ ops) = (QueryOp.take n ∷ [], ops)
split_on_first_take (QueryOp.skip n ∷ ops) = (QueryOp.skip n ∷ [], ops)
split_on_first_take (op ∷ ops) =
    let (before, after) = split_on_first_take ops in (op ∷ before, after)

-- The loop of `gather_filters` over the accumulated expression.
conjoin : Option Expr → Expr → Expr
conjoin none e = e
conjoin (some f) e = and_expr f e

pub gather_from : Option Expr → List QueryOp → Option Expr
unfolding conjoin
gather_from acc [] = acc
gather_from acc (QueryOp.filter e ∷ ops) = gather_from (some (conjoin acc e)) ops
gather_from acc (op ∷ ops) = gather_from acc ops

unfoldable pub gather_filters : List QueryOp → Option Expr
unfolding gather_from
gather_filters ops = gather_from none ops

abbrev pub as_sort_by : QueryOp → Option SortBy
as_sort_by (QueryOp.sort_by s) = some s
as_sort_by _ = none

abbrev pub as_take : QueryOp → Option ℕ
as_take (QueryOp.take n) = some n
as_take _ = none

abbrev pub as_skip : QueryOp → Option ℕ
as_skip (QueryOp.skip n) = some n
as_skip _ = none

abbrev pub is_count : QueryOp → Bool
is_count QueryOp.count = true
is_count _ = false

abbrev pub is_some {ℓ} : {A : Type ℓ} → Option A → Bool
is_some none = false
is_some (some a) = true

-- `iter().rfind(|op| f(op).is_some()).map(f)`
unfoldable pub last_of {ℓ} : {A : Type ℓ} → (QueryOp → Option A) → List QueryOp → Option A
last_of f [] = none
last_of f (op ∷ ops) = elim (last_of f ops) [ none ↦ f op | some a ↦ some a ]

find_last_sort_by : List QueryOp → Option SortBy
unfolding last_of
find_last_sort_by = last_of as_sort_by

-- `find_take_count` and `find_skip_count`, with the assertion that there is one at most.
unfoldable pub find_at_most_one : (QueryOp → Option ℕ) → List QueryOp → Result PlanError (Option ℕ)
unfolding last_of
find_at_most_one f ops =
    ensure (leb (length (Prelude.filter (λ op. is_some (f op)) ops)) 1) several_limits
    >> ok (last_of f ops)

-- `position(|op| matches!(op, Count))`
position_of_count : List QueryOp → Option ℕ
position_of_count [] = none
position_of_count (QueryOp.count ∷ ops) = some 0
position_of_count (op ∷ ops) = elim (position_of_count ops) [ none ↦ none | some p ↦ some (suc p) ]

-- `contains_count`, with its assertion.
unfoldable pub contains_count : List QueryOp → Result PlanError Bool
unfolding position_of_count
contains_count ops = elim (position_of_count ops) [
  | none ↦ ok false
  | some p ↦ ensure (p == (length ops - 1)) count_not_last >> ok true
]

-- `SELECT <COUNT(*) or *> FROM (<source>) AS subquery WHERE … ORDER BY … LIMIT … OFFSET …`
pub record Clauses : Type 0 where
  pub counting : Bool
  pub condition : Option Expr
  pub order : Option SortBy
  pub limit : Option ℕ
  pub offset : Option ℕ

pub data Sql : Type 0 where
  core : Sql
  select : Clauses → Sql → Sql

-- One round of the loop of `make_raw_query`: the clauses of the operators up to a limit.
unfoldable pub make_clauses : QueryPlan → List QueryOp → Result PlanError Clauses
unfolding check_filter check_sort find_last_sort_by gather_filters find_at_most_one contains_count
make_clauses plan ops = do
  check_filter plan.entity (gather_filters ops)
  check_sort plan.base_type (find_last_sort_by ops)
  limit ← find_at_most_one as_take ops
  offset ← find_at_most_one as_skip ops
  counting ← contains_count ops
  ok (record {
    counting = counting;
    condition = gather_filters ops;
    order = find_last_sort_by ops;
    limit = limit;
    offset = offset;
  })

-- `assert!(remaining_ops.is_empty())` after a count.
abbrev pub nothing_after_count : Bool → List QueryOp → Bool
nothing_after_count counting remaining = not counting || is_empty remaining

-- The loop of `make_raw_query`; each round takes at least one operator off, which bounds the fuel.
unfoldable pub raw_query_loop : ℕ → QueryPlan → List QueryOp → Sql → Result PlanError Sql
raw_query_loop fuel plan [] sql = ok sql
raw_query_loop zero plan (op ∷ ops) sql = err out_of_fuel
raw_query_loop (suc fuel) plan (op ∷ ops) sql =
    let (stage, remaining) = split_on_first_take (op ∷ ops) in
    make_clauses plan stage >>= λ c.
    ensure (nothing_after_count c.counting remaining) count_not_last
    >> raw_query_loop fuel plan remaining (select c sql)

-- `make_raw_query`
unfoldable pub make_raw_query : QueryPlan → Result PlanError Sql
unfolding raw_query_loop
make_raw_query plan = raw_query_loop (length plan.operators) plan plan.operators core
