-- ===== src/QueryCompiler/Emit.antt =====
-- chiselc/src/transforms/filter/emit.rs: the call that replaces a filter, with the query expression as
-- an object.
pub mod Read
use chiselstrike.Prelude.{
  ℕ, suc, Str, str_eq, text, false, Option, none, some, List, [], ◌∷◌, Result, ok, err, ◌>>=◌,
  if◌then◌else◌,
}
use chiselstrike.QueryCompiler.{
  Expr, Callee, Args, MemberProp, Lit, PropName, Props, Failure, unsupported_callee, QBinaryOp,
  QValue, QExpr, Filter,
}

abbrev pub make_str_lit : Str → Expr
make_str_lit s = Expr.lit (Lit.str s)

-- One property of an object, under a name.
abbrev pub prop : Str → Expr → Props → Props
prop key e rest = Props.key_value (PropName.ident key) e rest

abbrev pub make_expr_type : Str → Props → Props
make_expr_type expr_type rest = prop (text "exprType") (make_str_lit expr_type) rest

abbrev pub binary_op_name : QBinaryOp → Str
binary_op_name QBinaryOp.and = text "And"
binary_op_name QBinaryOp.eq = text "Eq"
binary_op_name QBinaryOp.gt = text "Gt"
binary_op_name QBinaryOp.gt_eq = text "GtEq"
binary_op_name QBinaryOp.lt = text "Lt"
binary_op_name QBinaryOp.lt_eq = text "LtEq"
binary_op_name QBinaryOp.not_eq = text "NotEq"
binary_op_name QBinaryOp.or = text "Or"

abbrev pub binary_op_to_ts : QBinaryOp → Expr
binary_op_to_ts op = make_str_lit (binary_op_name op)

abbrev pub lit_of : QValue → Lit
lit_of (QValue.bool b) = Lit.bool b
lit_of (QValue.str s) = Lit.str s
lit_of (QValue.num n) = Lit.num n

abbrev pub value_to_ts : QValue → Expr
value_to_ts v =
    Expr.object
      (make_expr_type (text "Value") (prop (text "value") (Expr.lit (lit_of v)) Props.no_props))

-- `params.iter().position(|param| param == ident)`
unfoldable pub position : List Str → Str → Option ℕ
position [] ident = none
position (p ∷ ps) ident =
    let rest = position ps ident in
    if str_eq p ident then some 0 else elim rest [ none ↦ none | some i ↦ some (suc i) ]

-- `f64_of` is the conversion of a position, `pos as f64`.
module _ (f64_of : ℕ → ℕ) where
  abbrev pub identifier_at : Option ℕ → Str → Expr
  identifier_at (some pos) ident = Expr.object (
      make_expr_type (text "Parameter")
        (prop (text "position") (Expr.lit (Lit.num (f64_of pos))) Props.no_props))
  identifier_at none ident =
      Expr.object
        (make_expr_type (text "Value") (prop (text "value") (Expr.ident ident) Props.no_props))

  abbrev pub identifier_to_ts : Str → List Str → Expr
  identifier_to_ts ident params = identifier_at (position params ident) ident

  -- `expr_to_ts`, with `binary_expr_to_ts` and `property_access_to_ts` as its cases.
  unfoldable pub expr_to_ts : QExpr → List Str → Expr
  unfolding position
  expr_to_ts (QExpr.binary l op r) params = Expr.object (
      make_expr_type (text "Binary") (
        prop (text "left") (expr_to_ts l params) (
          prop (text "op") (binary_op_to_ts op)
            (prop (text "right") (expr_to_ts r params) Props.no_props))))
  expr_to_ts (QExpr.property o name) params = Expr.object (
      make_expr_type (text "Property") (
        prop (text "object") (expr_to_ts o params)
          (prop (text "property") (make_str_lit name) Props.no_props)))
  expr_to_ts (QExpr.identifier ident) params = identifier_to_ts ident params
  expr_to_ts (QExpr.value v) params = value_to_ts v

  abbrev pub filter_to_ts : Filter → Expr
  filter_to_ts filter = expr_to_ts filter.predicate filter.parameters

  abbrev pub rewrite_filter_callee : Callee → Str → Result Failure Callee
  rewrite_filter_callee (Callee.callee_expr (Expr.member obj prop)) function =
      ok (Callee.callee_expr (Expr.member obj (MemberProp.prop_ident function)))
  rewrite_filter_callee _ function = err unsupported_callee

  -- The third argument, if there is one.
  abbrev pub post_args : Option Expr → Args
  post_args none = Args.no_args
  post_args (some post) = Args.arg false post Args.no_args

  unfoldable pub to_ts_expr : Filter → Result Failure Expr
  unfolding expr_to_ts
  to_ts_expr filter = do
    callee ← rewrite_filter_callee filter.callee filter.function
    let args =
        Args.arg false filter.query_expr
          (Args.arg false (filter_to_ts filter) (post_args filter.post_expr))
    ok (Expr.call callee args none)
