-- ===== src/QueryCompiler/Convert.antt =====
-- chiselc/src/transforms/utils.rs: the conversion of an expression of the program into a query
-- expression, and chiselc/src/transforms/filter/splitting.rs. An expression that no query can hold
-- gives none; a property in brackets or a private one reaches a `todo!()`.
pub mod Meaning
use chiselstrike.Prelude.{Option, none, some, Result, ok, err, ◌>>=◌}
use chiselstrike.QueryCompiler.{
  BinaryOp, Lit, Expr, MemberProp, Failure, computed_property, QBinaryOp, QValue, QExpr,
}

unfoldable pub convert_binary_op : BinaryOp → Option QBinaryOp
convert_binary_op BinaryOp.eq_eq = some QBinaryOp.eq
convert_binary_op BinaryOp.gt = some QBinaryOp.gt
convert_binary_op BinaryOp.gt_eq = some QBinaryOp.gt_eq
convert_binary_op BinaryOp.lt = some QBinaryOp.lt
convert_binary_op BinaryOp.lt_eq = some QBinaryOp.lt_eq
convert_binary_op BinaryOp.not_eq = some QBinaryOp.not_eq
convert_binary_op BinaryOp.logical_and = some QBinaryOp.and
convert_binary_op BinaryOp.logical_or = some QBinaryOp.or
convert_binary_op (BinaryOp.other n) = none

-- The three parts of a binary expression, if all are there.
abbrev pub binary_of : Option QExpr → Option QBinaryOp → Option QExpr → Option QExpr
binary_of (some l) (some op) (some r) = some (QExpr.binary l op r)
binary_of none _ _ = none
binary_of (some l) none _ = none
binary_of (some l) (some op) none = none

-- The property of a converted object. The `?` on the object comes before the property is looked at.
abbrev pub property_of : Option QExpr → MemberProp → Result Failure (Option QExpr)
property_of none prop = ok none
property_of (some o) (MemberProp.prop_ident name) = ok (some (QExpr.property o name))
property_of (some o) (MemberProp.computed e) = err computed_property
property_of (some o) (MemberProp.private name) = err computed_property

-- `convert_expr`, with `convert_bin_expr` as its case of a binary expression: both sides are converted
-- whatever the operator is.
unfoldable pub convert_expr : Expr → Result Failure (Option QExpr)
unfolding convert_binary_op
convert_expr (Expr.bin op l r) = do
  left ← convert_expr l
  right ← convert_expr r
  ok (binary_of left (convert_binary_op op) right)
convert_expr (Expr.paren e) = convert_expr e
convert_expr (Expr.lit (Lit.num n)) = ok (some (QExpr.value (QValue.num n)))
convert_expr (Expr.lit (Lit.str s)) = ok (some (QExpr.value (QValue.str s)))
convert_expr (Expr.lit (Lit.bool b)) = ok none
convert_expr (Expr.lit (Lit.other n)) = ok none
convert_expr (Expr.member obj prop) = do o ← convert_expr obj; property_of o prop
convert_expr (Expr.ident s) = ok (some (QExpr.identifier s))
convert_expr (Expr.arrow p b c) = ok none
convert_expr (Expr.await e) = ok none
convert_expr (Expr.call c a t) = ok none
convert_expr (Expr.object p) = ok none
convert_expr (Expr.other n) = ok none

unfoldable pub convert_filter_expr : Expr → Result Failure (Option QExpr)
unfolding convert_expr
convert_filter_expr (Expr.bin op l r) = convert_expr (Expr.bin op l r)
convert_filter_expr (Expr.lit (Lit.bool b)) = ok (some (QExpr.value (QValue.bool b)))
convert_filter_expr _ = ok none
