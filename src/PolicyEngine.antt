-- ===== src/PolicyEngine.antt =====
-- server/src/policy: the partial evaluation of a read policy (interpreter.rs) and its translation to a
-- query expression (engine.rs). The JavaScript engine boa computes on JSON values: the record `Boa`.
-- A panic is an error.
pub mod Eval
pub mod Translate
pub mod RowValue
pub mod Known
pub mod OnRow
mod Tests
use chiselstrike.Prelude.{
  ℕ, zero, suc, Str, str_eq, Bool, true, false, Option, none, some, [], ◌∷◌, length, get_elem?,
  Result, ok, err, ok_or, ◌>>=◌, if◌then◌else◌,
}
use chiselstrike.Prelude
use chiselstrike.Json.{Json, Members}
use chiselstrike.Expr
use chiselstrike.Expr.{
  Expr, Value, BinaryOp, FilterError, and_expr, or_expr, bool_expr, value_try_from,
}
use chiselstrike.PolicyCompiler.{
  Failure, LogicOp, Var, VarId, Predicate, Predicates, Cond, Simplifier, get_predicate, simplify,
  index_out_of_bounds,
}
use chiselstrike.PolicyCompiler.Vars.{Environment, get_var}
use chiselstrike.PolicyCompiler.Rules.{FilterPolicy}

pub data EngineError : Type 0 where
  compiler : Failure → EngineError
  unknown_variable : Var → EngineError
  not_a_boolean : EngineError
  value_failed : FilterError → EngineError
  out_of_fuel : EngineError

abbrev pub lift : {A : Type 0} → Result Failure A → Result EngineError A
lift (ok a) = ok a
lift (err e) = err (compiler e)

-- The comparisons of boa, and the negation of its truthiness.
pub record Boa : Type 0 where
  pub equals : Json → Json → Bool
  pub gt : Json → Json → Bool
  pub ge : Json → Json → Bool
  pub lt : Json → Json → Bool
  pub le : Json → Json → Bool
  pub not : Json → Bool

-- `serde_json::Value::get` with a text.
get_member : Str → Members → Option Json
get_member prop Members.end = none
get_member prop (Members.member key value rest) =
    let found = get_member prop rest in if str_eq key prop then some value else found

-- `value.get(prop).or(Some(&JsonValue::Null))`
unfoldable pub json_get : Json → Str → Json
unfolding get_member
json_get (Json.object members) prop = elim (get_member prop members) [
  | none ↦ Json.null
  | some value ↦ value
]
json_get _ prop = Json.null

-- `JsonResolver`
pub record JsonResolver : Type 0 where
  pub name : Str
  pub value : Json

-- `JsonResolver::get_value`. The object of a variable has a smaller id, so the number of variables is
-- enough fuel.
get_value : ℕ → JsonResolver → Environment → Var → Result EngineError (Option Json)
get_value fuel r env (Var.ident s) = if str_eq r.name s then ok (some r.value) else ok none
get_value zero r env (Var.member obj prop) = err out_of_fuel
get_value (suc fuel) r env (Var.member obj prop) = do
  var ← lift (get_var env obj)
  found ← get_value fuel r env var
  ok (elim found [ none ↦ none | some value ↦ some (json_get value prop) ])

-- `InterpreterContext::var_to_value`
var_to_value : JsonResolver → Environment → VarId → Result EngineError (Option Json)
unfolding get_value
var_to_value r env id = do var ← lift (get_var env id); get_value (length env) r env var

-- `as_boolean().unwrap()`
abbrev as_boolean : Json → Result EngineError Bool
as_boolean (Json.bool b) = ok b
as_boolean _ = err not_a_boolean

-- `eval_bin_lit`; `&&` and `||` do not look at the right side when the left side decides.
pub eval_bin_lit : Boa → LogicOp → Json → Json → Result EngineError Json
eval_bin_lit boa LogicOp.eq x y = ok (Json.bool (boa.equals x y))
eval_bin_lit boa LogicOp.neq x y = ok (Json.bool (Prelude.not (boa.equals x y)))
eval_bin_lit boa LogicOp.gt x y = ok (Json.bool (boa.gt x y))
eval_bin_lit boa LogicOp.gte x y = ok (Json.bool (boa.ge x y))
eval_bin_lit boa LogicOp.lt x y = ok (Json.bool (boa.lt x y))
eval_bin_lit boa LogicOp.lte x y = ok (Json.bool (boa.le x y))
eval_bin_lit boa LogicOp.and x y = do
  a ← as_boolean x
  b ← (if a then as_boolean y else ok false)
  ok (Json.bool b)
eval_bin_lit boa LogicOp.or x y = do
  a ← as_boolean x
  b ← (if a then ok true else as_boolean y)
  ok (Json.bool b)

-- `maybe_js_value`
abbrev pub maybe_value : Predicate → Option Json
maybe_value (Predicate.lit value) = some value
maybe_value _ = none

-- The matches of `eval` on the evaluated operands.
eval_bin : Boa → LogicOp → Predicate → Predicate → Result EngineError Predicate
unfolding eval_bin_lit
eval_bin boa op (Predicate.lit x) (Predicate.lit y) = do
  value ← eval_bin_lit boa op x y
  ok (Predicate.lit value)
eval_bin boa op l r = ok (Predicate.bin op l r)

eval_not : Boa → Predicate → Predicate
eval_not boa (Predicate.lit x) = Predicate.lit (Json.bool (boa.not x))
eval_not boa p = Predicate.not p

abbrev eval_var : VarId → Option Json → Predicate
eval_var id none = Predicate.var id
eval_var id (some value) = Predicate.lit value

-- `interpreter::eval`
pub eval : Boa → JsonResolver → Environment → Predicate → Result EngineError Predicate
unfolding eval_bin eval_not var_to_value
eval boa r env (Predicate.bin op lhs rhs) = do
  x ← eval boa r env lhs
  y ← eval boa r env rhs
  eval_bin boa op x y
eval boa r env (Predicate.not p) = do x ← eval boa r env p; ok (eval_not boa x)
eval boa r env (Predicate.var id) = do value ← var_to_value r env id; ok (eval_var id value)
eval boa r env (Predicate.lit value) = ok (Predicate.lit value)

-- `impl From<LogicOp> for BinaryOp`
abbrev pub binary_op : LogicOp → BinaryOp
binary_op LogicOp.eq = BinaryOp.eq
binary_op LogicOp.neq = BinaryOp.not_eq
binary_op LogicOp.gt = BinaryOp.gt
binary_op LogicOp.gte = BinaryOp.gt_eq
binary_op LogicOp.lt = BinaryOp.lt
binary_op LogicOp.lte = BinaryOp.lt_eq
binary_op LogicOp.and = BinaryOp.and
binary_op LogicOp.or = BinaryOp.or

-- `Value::from` a JSON value, which unwraps.
abbrev value_from_json : Json → Result EngineError Value
value_from_json value = elim (value_try_from value) [ ok v ↦ ok v | err e ↦ err (value_failed e) ]

-- The match on the variable.
var_to_expr : Str → Environment → Var → Result EngineError Expr
var_to_expr entity env (Var.ident id) = err (unknown_variable (Var.ident id))
var_to_expr entity env (Var.member obj prop) = do
  var ← lift (get_var env obj)
  elim var [
    | Var.ident n ↦
        if str_eq n entity
        then ok (Expr.property prop (Expr.parameter 0))
        else err (unknown_variable (Var.ident n))
    | Var.member o p ↦ err (unknown_variable (Var.member o p))
  ]

pub predicate_to_expr : Str → Environment → Predicate → Result EngineError Expr
unfolding var_to_expr
predicate_to_expr entity env (Predicate.bin op lhs rhs) = do
  left ← predicate_to_expr entity env lhs
  right ← predicate_to_expr entity env rhs
  ok (Expr.binary (binary_op op) left right)
predicate_to_expr entity env (Predicate.not p) = do
  e ← predicate_to_expr entity env p
  ok (Expr.not e)
predicate_to_expr entity env (Predicate.lit value) = do v ← value_from_json value; ok (Expr.value v)
predicate_to_expr entity env (Predicate.var id) = do
  var ← lift (get_var env id)
  var_to_expr entity env var

pub cond_to_expr : Predicates → Str → Environment → Cond → Result EngineError Expr
cond_to_expr preds entity env (Cond.and l r) = do
  right ← cond_to_expr preds entity env r
  left ← cond_to_expr preds entity env l
  ok (and_expr left right)
cond_to_expr preds entity env (Cond.or l r) = do
  right ← cond_to_expr preds entity env r
  left ← cond_to_expr preds entity env l
  ok (or_expr left right)
cond_to_expr preds entity env (Cond.not c) = do e ← cond_to_expr preds entity env c; ok (Expr.not e)
cond_to_expr preds entity env (Cond.predicate id) = do
  p ← lift (get_predicate preds id)
  predicate_to_expr entity env p
cond_to_expr preds entity env Cond.holds = ok (bool_expr true)
cond_to_expr preds entity env Cond.fails = ok (bool_expr false)

-- `ReadPolicy`; its function is the JavaScript code.
pub record ReadPolicy : Type 0 where
  pub filter : Option Cond
  pub predicates : Predicates
  pub env : Environment
  pub ctx_param_name : Str
  pub entity_param_name : Str
  pub function : Str

-- `ReadPolicy::new`; a policy function without two parameters panics.
pub read_policy_new : Str → FilterPolicy → Result EngineError ReadPolicy
read_policy_new function policy = do
  entity ← lift (ok_or (get_elem? policy.params 0) index_out_of_bounds)
  ctx ← lift (ok_or (get_elem? policy.params 1) index_out_of_bounds)
  ok (record {
    filter = policy.where_conds;
    predicates = policy.predicates;
    env = policy.env;
    ctx_param_name = ctx;
    entity_param_name = entity;
    function = function;
  })

-- `Predicates::map` with `eval`.
pub eval_all : Boa → JsonResolver → Environment → Predicates → Result EngineError Predicates
unfolding eval
eval_all boa r env [] = ok []
eval_all boa r env (p ∷ ps) = do q ← eval boa r env p; qs ← eval_all boa r env ps; ok (q ∷ qs)

-- The body of `eval_read_policy_expr` for a policy that has a filter.
filter_to_expr : Boa → Simplifier → ReadPolicy → Json → Cond → Result EngineError Expr
unfolding eval_all cond_to_expr
filter_to_expr boa s policy ctx filter = do
  preds ←
      eval_all boa (record { name = policy.ctx_param_name; value = ctx }) policy.env
        policy.predicates
  cond ← lift (simplify s preds filter)
  cond_to_expr preds policy.entity_param_name policy.env cond

-- `PolicyEngine::eval_read_policy_expr`, with the JSON value of the request.
unfoldable pub eval_read_policy_expr :
    Boa → Simplifier → ReadPolicy → Json → Result EngineError (Option Expr)
unfolding filter_to_expr
eval_read_policy_expr boa s policy ctx = elim policy.filter [
  | none ↦ ok none
  | some filter ↦ do e ← filter_to_expr boa s policy ctx filter; ok (some e)
]
