-- ===== src/PolicyCompiler/Vars.antt =====
-- chiselc/src/policies.rs: the variables of a policy and `Predicate::parse_expr`. The expressions are
-- those of swc_ecmascript that the parser tells apart; `other` stands for the rest. A `BiMap` from
-- variables to the ids that `insert` hands out is the list of the variables in the order of their ids.
pub mod Meaning
pub mod Parse
use chiselstrike.Prelude.{
  ℕ, suc, ◌/◌, ◌%◌, ◌==◌, Str, str_eq, Bool, false, ◌&&◌, Option, none, some, List, [], ◌∷◌, ◌++◌,
  length, get_elem?, Result, ok, err, ok_or, ◌>>=◌, if◌then◌else◌,
}
use chiselstrike.Json.{Json, Number}
use chiselstrike.PolicyCompiler.{
  Failure, LogicOp, Var, VarId, Predicate, unwrap_on_none, invalid_member, unsupported_expr,
  unsupported_op, not_implemented,
}

abbrev pub Environment : Type 0
Environment = List Var

-- The derived equality of `Var`.
unfoldable pub var_eq : Var → Var → Bool
var_eq (Var.ident s) (Var.ident t) = str_eq s t
var_eq (Var.member o s) (Var.member p t) = (o == p) && str_eq s t
var_eq _ _ = false

-- `get_by_left`
unfoldable pub get_by_left : Var → Environment → Option VarId
unfolding var_eq
get_by_left var [] = none
get_by_left var (x ∷ xs) =
    let rest = get_by_left var xs in
    if var_eq x var then some 0 else elim rest [ none ↦ none | some i ↦ some (suc i) ]

-- `Environment::insert`
unfoldable pub insert_var : Var → Environment → VarId × Environment
unfolding get_by_left
insert_var var env = elim (get_by_left var env) [
  | some idx ↦ (idx, env)
  | none ↦ (length env, env ++ var ∷ [])
]

-- `Environment::get`
abbrev pub get_var : Environment → VarId → Result Failure Var
get_var env id = ok_or (get_elem? env id) unwrap_on_none

pub data UnaryOp : Type 0 where
  bang other : UnaryOp

pub data BinaryOp : Type 0 where
  eq_eq not_eq lt lt_eq gt gt_eq logical_or logical_and other : BinaryOp

pub data Lit : Type 0 where
  str : Str → Lit
  bool : Bool → Lit
  null : Lit
  num : ℕ → Lit
  big_int regex jsx_text : Lit

-- The three kinds of `MemberExpr` are a constructor each.
pub data JsExpr : Type 0 where
  unary : UnaryOp → JsExpr → JsExpr
  bin : BinaryOp → JsExpr → JsExpr → JsExpr
  lit : Lit → JsExpr
  ident : Str → JsExpr
  paren : JsExpr → JsExpr
  member : JsExpr → Str → JsExpr
  member_computed : JsExpr → JsExpr → JsExpr
  member_private : JsExpr → JsExpr
  other : JsExpr

-- The match on the operator.
abbrev pub op_of : BinaryOp → Option LogicOp
op_of BinaryOp.eq_eq = some LogicOp.eq
op_of BinaryOp.not_eq = some LogicOp.neq
op_of BinaryOp.lt = some LogicOp.lt
op_of BinaryOp.lt_eq = some LogicOp.lte
op_of BinaryOp.gt = some LogicOp.gt
op_of BinaryOp.gt_eq = some LogicOp.gte
op_of BinaryOp.logical_or = some LogicOp.or
op_of BinaryOp.logical_and = some LogicOp.and
op_of BinaryOp.other = none

-- `Value::from` an `f64`: null if all bits of the exponent are set.
abbrev pub from_f64 : ℕ → Json
from_f64 bits =
    if (bits / 4503599627370496) % 2048 == 2047 then Json.null else Json.number (Number.f64 bits)

-- The match on the literal.
abbrev pub lit_of : Lit → Option Json
lit_of (Lit.str s) = some (Json.string s)
lit_of (Lit.bool b) = some (Json.bool b)
lit_of Lit.null = some Json.null
lit_of (Lit.num n) = some (from_f64 n)
lit_of _ = none

-- The string of a computed property.
abbrev pub computed_prop : JsExpr → Option Str
computed_prop (JsExpr.lit (Lit.str s)) = some s
computed_prop _ = none

-- The property of a variable.
abbrev pub member_of : Predicate → Str → Environment → Result Failure (Predicate × Environment)
member_of (Predicate.var v) prop env =
    ok
      (Predicate.var (insert_var (Var.member v prop) env).0, (insert_var (Var.member v prop) env).1)
member_of _ prop env = err invalid_member

-- What is no property of a variable: whether the object is a variable is asked first, but either way
-- it panics.
abbrev pub no_member : Predicate → Result Failure (Predicate × Environment)
no_member (Predicate.var v) = err unsupported_expr
no_member _ = err invalid_member

-- `Predicate::parse_expr`
unfoldable pub parse_expr : JsExpr → Environment → Result Failure (Predicate × Environment)
parse_expr (JsExpr.unary UnaryOp.bang e) env = do
  (p, env1) ← parse_expr e env
  ok (Predicate.not p, env1)
parse_expr (JsExpr.unary UnaryOp.other e) env = err unsupported_op
parse_expr (JsExpr.bin op l r) env = do
  o ← ok_or (op_of op) unsupported_op
  (lhs, env1) ← parse_expr l env
  (rhs, env2) ← parse_expr r env1
  ok (Predicate.bin o lhs rhs, env2)
parse_expr (JsExpr.lit l) env = do
  value ← ok_or (lit_of l) not_implemented
  ok (Predicate.lit value, env)
parse_expr (JsExpr.ident s) env =
    ok (Predicate.var (insert_var (Var.ident s) env).0, (insert_var (Var.ident s) env).1)
parse_expr (JsExpr.paren e) env = parse_expr e env
parse_expr (JsExpr.member obj prop) env = do (p, env1) ← parse_expr obj env; member_of p prop env1
parse_expr (JsExpr.member_computed obj prop) env = do
  (p, env1) ← parse_expr obj env
  elim (computed_prop prop) [ none ↦ no_member p | some s ↦ member_of p s env1 ]
parse_expr (JsExpr.member_private obj) env = do (p, env1) ← parse_expr obj env; no_member p
parse_expr JsExpr.other env = err unsupported_expr
