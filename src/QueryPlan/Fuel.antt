-- ===== src/QueryPlan/Fuel.antt =====
-- The fuel of the loop of `make_raw_query` (server/src/datastore/query.rs).
use chiselstrike.Prelude
use chiselstrike.Prelude.{
  ◌==◌, ◌-◌, leb, subst, ℕ, zero, suc, ◌≤◌, Str, Bool, true, false, Option, none, some, List, [],
  ◌∷◌, length, Result, ok, err, ensure, ◌>>=◌, ◌>>◌, ◌≢◌, arith, subst,
}
use chiselstrike.Expr.{Expr, value, parameter, property, binary}
use chiselstrike.Types.{ObjectType}
use chiselstrike.QueryPlan.{
  PlanError, out_of_fuel, QueryOp, QueryPlan, QueriedEntity, SortKey, SortBy, Sql, select, core,
  get_property_chain, check_field, check_fields, check_chain, check_expr, check_filter, check_keys,
  check_sort, find_at_most_one, contains_count, make_clauses, split_on_first_take, raw_query_loop,
  make_raw_query, no_join, gather_filters, find_last_sort_by, as_take, as_skip, find_join, is_some,
  count_not_last, joins_of, several_limits, position_of_count, last_of,
}

-- A result other than the end of the fuel.
abbrev InFuel : {A : Type 0} → Result PlanError A → Type 0
InFuel (ok a) = Unit
InFuel (err out_of_fuel) = ⊥
InFuel (err _) = Unit

>>=-InFuel :
    {A B : Type 0} (m : Result PlanError A) (f : A → Result PlanError B)
    → InFuel m
    → ((a : A) → InFuel (f a))
    → InFuel (m >>= f)
>>=-InFuel (ok a) f h g = g a
>>=-InFuel {A} {B} (err e) f h g = same e h
  where
    same : (e : PlanError) → InFuel {A = A} (err e) → InFuel {A = B} (err e)
    same out_of_fuel h = h
    same _ h = tt

ensure-InFuel : (b : Bool) (e : PlanError) → InFuel {A = Unit {0}} (err e) → InFuel (ensure b e)
ensure-InFuel true e h = tt
ensure-InFuel false e h = h

check_keys-InFuel : (ty : ObjectType) (ks : List SortKey) → InFuel (check_keys ty ks)
unfolding check_keys
check_keys-InFuel ty [] = tt
check_keys-InFuel ty (k ∷ ks) = >>=-InFuel _ _ (ensure-InFuel _ _ tt) (λ _. check_keys-InFuel ty ks)

get_property_chain-InFuel : (name : Str) (e : Expr) → InFuel (get_property_chain name e)
unfolding get_property_chain
get_property_chain-InFuel name (property inner object) =
    >>=-InFuel _ _ (get_property_chain-InFuel inner object) (λ _. tt)
get_property_chain-InFuel name (parameter i) = tt
get_property_chain-InFuel name _ = tt

check_field-InFuel : (entity : QueriedEntity) (field : Str) → InFuel (check_field entity field)
unfolding check_field
check_field-InFuel entity field = ensure-InFuel _ _ tt

check_fields-InFuel :
    (entity : QueriedEntity) (field : Str) (rest : List Str)
    → InFuel (check_fields entity field rest)
unfolding check_fields
check_fields-InFuel entity field [] = tt
check_fields-InFuel entity field (next ∷ rest) =
    walk (λ joined. check_fields-InFuel joined next rest) (find_join field (joins_of entity))
  where
    walk :
        ((joined : QueriedEntity) → InFuel (check_fields joined next rest))
        → (o : Option QueriedEntity)
        → InFuel (elim o [
          | none ↦ err (no_join field)
          | some joined ↦ check_field joined next >> check_fields joined next rest
        ])
    walk go none = tt
    walk go (some joined) = >>=-InFuel _ _ (check_field-InFuel joined next) (λ _. go joined)

check_chain-InFuel :
    (entity : QueriedEntity) (fields : List Str) → InFuel (check_chain entity fields)
unfolding check_chain
check_chain-InFuel entity [] = tt
check_chain-InFuel entity (field ∷ rest) =
    >>=-InFuel _ _ (check_field-InFuel entity field) (λ _. check_fields-InFuel entity field rest)

check_expr-InFuel : (entity : QueriedEntity) (e : Expr) → InFuel (check_expr entity e)
unfolding check_expr
check_expr-InFuel entity (value v) = tt
check_expr-InFuel entity (parameter i) = tt
check_expr-InFuel entity (property name object) =
    >>=-InFuel _ _ (get_property_chain-InFuel name object) (λ ps. check_chain-InFuel entity ps)
check_expr-InFuel entity (binary op l r) =
    >>=-InFuel _ _ (check_expr-InFuel entity l) (λ _. check_expr-InFuel entity r)
check_expr-InFuel entity (Expr.not e) = check_expr-InFuel entity e

check_filter-InFuel : (entity : QueriedEntity) (e : Option Expr) → InFuel (check_filter entity e)
unfolding check_filter
check_filter-InFuel entity none = tt
check_filter-InFuel entity (some e) = check_expr-InFuel entity e

check_sort-InFuel : (ty : ObjectType) (s : Option SortBy) → InFuel (check_sort ty s)
unfolding check_sort
check_sort-InFuel ty none = tt
check_sort-InFuel ty (some s) = check_keys-InFuel ty s.keys

find_at_most_one-InFuel :
    (f : QueryOp → Option ℕ) (ops : List QueryOp) → InFuel (find_at_most_one f ops)
unfolding find_at_most_one
find_at_most_one-InFuel f ops =
    >>=-InFuel {A = Unit {0}} {B = Option ℕ}
      (ensure (leb (length (Prelude.filter (λ op. is_some (f op)) ops)) 1) several_limits)
      (λ _. ok (last_of f ops)) (ensure-InFuel _ several_limits tt) (λ _. tt)

contains_count-InFuel : (ops : List QueryOp) → InFuel (contains_count ops)
unfolding contains_count
contains_count-InFuel ops = at (position_of_count ops)
  where
    at :
        (o : Option ℕ)
        → InFuel (elim o [
          | none ↦ ok false
          | some p ↦ ensure (p == (length ops - 1)) count_not_last >> ok true
        ])
    at none = tt
    at (some p) =
        >>=-InFuel {A = Unit {0}} {B = Bool} (ensure (p == (length ops - 1)) count_not_last)
          (λ _. ok true) (ensure-InFuel _ count_not_last tt) (λ _. tt)

make_clauses-InFuel : (plan : QueryPlan) (ops : List QueryOp) → InFuel (make_clauses plan ops)
unfolding make_clauses
make_clauses-InFuel plan ops =
    >>=-InFuel _ _ (check_filter-InFuel plan.entity (gather_filters ops)) (λ _.
      >>=-InFuel _ _ (check_sort-InFuel plan.base_type (find_last_sort_by ops)) (λ _.
        >>=-InFuel _ _ (find_at_most_one-InFuel as_take ops) (λ _.
          >>=-InFuel _ _ (find_at_most_one-InFuel as_skip ops)
            (λ _. >>=-InFuel _ _ (contains_count-InFuel ops) (λ _. tt)))))

split-length : (ops : List QueryOp) → length (split_on_first_take ops).1 ≤ length ops
unfolding split_on_first_take
split-length [] = omega arith
split-length (QueryOp.take n ∷ ops) = omega arith
split-length (QueryOp.skip n ∷ ops) = omega arith
split-length (_ ∷ ops) = omega (arith, split-length ops)

split-shorter :
    (op : QueryOp) (ops : List QueryOp) → length (split_on_first_take (op ∷ ops)).1 ≤ length ops
unfolding split_on_first_take
split-shorter (QueryOp.take n) ops = omega arith
split-shorter (QueryOp.skip n) ops = omega arith
split-shorter _ ops = split-length ops

raw_query_loop-InFuel :
    (fuel : ℕ) (plan : QueryPlan) (ops : List QueryOp) (sql : Sql)
    → length ops ≤ fuel
    → InFuel (raw_query_loop fuel plan ops sql)
unfolding raw_query_loop
raw_query_loop-InFuel zero plan [] sql h = tt
raw_query_loop-InFuel (suc fuel) plan [] sql h = tt
raw_query_loop-InFuel zero plan (op ∷ ops) sql h = absurd (omega arith)
raw_query_loop-InFuel (suc fuel) plan (op ∷ ops) sql h =
    >>=-InFuel _ _ (make_clauses-InFuel plan (split_on_first_take (op ∷ ops)).0) (λ c.
      >>=-InFuel _ _ (ensure-InFuel _ _ tt) (λ _.
        raw_query_loop-InFuel fuel plan (split_on_first_take (op ∷ ops)).1 (select c sql)
          (omega (arith, split-shorter op ops))))

-- The loop of `make_raw_query` ends for every plan: it returns a select or an error of the program,
-- and never runs out of the fuel, which is the number of the plan's operators.
pub make_raw_query-ends : (plan : QueryPlan) → make_raw_query plan ≢ err out_of_fuel
unfolding make_raw_query
make_raw_query-ends plan h =
    subst InFuel h
      (raw_query_loop-InFuel (length plan.operators) plan plan.operators core (omega arith))
