-- ===== src/QueryCompiler/Split.antt =====
-- chiselc/src/transforms/filter/splitting.rs: what of a predicate becomes a query, and what is left to
-- evaluate afterwards.
pub mod Keep
use chiselstrike.Prelude.{ℕ, Option, none, some, List, Result, ok, err, ◌>>=◌}
use chiselstrike.QueryCompiler.{
  BinaryOp, Expr, Body, Pat, Stmts, Stmt, Failure, not_one_statement, not_a_return, empty_return,
  QExpr,
}
use chiselstrike.QueryCompiler.Convert.{convert_filter_expr}

-- What `split_and_convert_expr` returns: the part that became a query, as an expression and as a
-- query expression, and the part to evaluate afterwards.
abbrev pub Pieces : Type 0
Pieces = Option (Expr × QExpr) × Option Expr

-- The two sides of a conjunction whose left side was converted or not.
abbrev pub split_sides : Option QExpr → Expr → Expr → Pieces
split_sides (some q) left right = (some (left, q), some right)
split_sides none left right = (none, none)

-- The match on an expression that was not converted as a whole.
abbrev pub split_expr : Expr → Result Failure Pieces
split_expr (Expr.bin BinaryOp.logical_and l r) = do
  q ← convert_filter_expr l
  ok (split_sides q l r)
split_expr _ = ok (none, none)

-- The whole expression, if it was converted.
abbrev pub split_or_whole : Option QExpr → Expr → Result Failure Pieces
split_or_whole (some q) e = ok (some (e, q), none)
split_or_whole none e = split_expr e

unfoldable pub split_and_convert_expr : Expr → Result Failure Pieces
unfolding convert_filter_expr
split_and_convert_expr e = do q ← convert_filter_expr e; split_or_whole q e

-- The block of the arrow with another returned expression.
abbrev pub replace_return : Stmts → Expr → Result Failure Stmts
replace_return (Stmts.next (Stmt.return_value _) Stmts.end) e =
    ok (Stmts.next (Stmt.return_value e) Stmts.end)
replace_return (Stmts.next Stmt.return_none Stmts.end) e = err empty_return
replace_return (Stmts.next _ Stmts.end) e = err not_a_return
replace_return _ e = err not_one_statement

-- `rewrite_filter_arrow`, on the parts of the arrow.
unfoldable pub rewrite_filter_arrow : List Pat → Body → ℕ → Expr → Result Failure Expr
rewrite_filter_arrow params (Body.block body) copied e = do
  block ← replace_return body e
  ok (Expr.arrow params (Body.block block) copied)
rewrite_filter_arrow params (Body.body_expr body) copied e =
    ok (Expr.arrow params (Body.body_expr e) copied)
