-- ===== src/Expr.antt =====
-- server/src/datastore/expr.rs: the query expressions. The structs `PropertyAccess` and `BinaryExpr`
-- are the fields of the constructors `property` and `binary`.
pub mod Eval
use chiselstrike.Prelude.{ℕ, Str, Bool, Result, ok, err}
use chiselstrike.Prelude.Int.{ℤ}
use chiselstrike.Json.{Number, Json}

pub data Value : Type 0 where
  bool : Bool → Value
  u64 : ℕ → Value
  i64 : ℤ → Value
  f64 : ℕ → Value
  string : Str → Value
  null : Value

pub data BinaryOp : Type 0 where
  eq not_eq lt lt_eq gt gt_eq and or like not_like : BinaryOp

pub data Expr : Type 0 where
  value : Value → Expr
  parameter : ℕ → Expr
  property : Str → Expr → Expr
  binary : BinaryOp → Expr → Expr → Expr
  not : Expr → Expr

-- The errors of `Value::try_from` and of `filter::to_expr`.
pub data FilterError : Type 0 where
  unsupported_json : FilterError
  too_deep : FilterError
  not_an_object : FilterError
  operator_needs_array : FilterError
  unknown_operator : Str → FilterError
  unknown_comparison : Str → FilterError

-- `Value::try_from`
unfoldable pub value_try_from : Json → Result FilterError Value
value_try_from Json.null = ok Value.null
value_try_from (Json.bool b) = ok (Value.bool b)
value_try_from (Json.number (Number.i64 n)) = ok (Value.i64 n)
value_try_from (Json.number (Number.u64 n)) = ok (Value.u64 n)
value_try_from (Json.number (Number.f64 n)) = ok (Value.f64 n)
value_try_from (Json.string s) = ok (Value.string s)
value_try_from (Json.array items) = err unsupported_json
value_try_from (Json.object members) = err unsupported_json

-- `BinaryExpr::and`, `or` and `eq`
abbrev pub and_expr : Expr → Expr → Expr
and_expr l r = binary and l r

abbrev pub or_expr : Expr → Expr → Expr
or_expr l r = binary or l r

abbrev pub eq_expr : Expr → Expr → Expr
eq_expr l r = binary eq l r

-- `Expr::Value` of a Boolean
abbrev pub bool_expr : Bool → Expr
bool_expr b = value (Value.bool b)
