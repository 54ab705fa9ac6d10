-- ===== src/Crud/Paging.antt =====
-- server/src/datastore/crud.rs: the rows of a page, and the operators of its query.
use chiselstrike.Prelude
use chiselstrike.Prelude.{
  Bool, true, false, none, some, List, [], ◌∷◌, ◌++◌, all, drop, map, ok, ◌≡◌, refl, sym, ap, ◌∙◌,
  arith,
}
use chiselstrike.Expr.{Expr}
use chiselstrike.Expr.Eval.{Row}
use chiselstrike.QueryPlan.{QueryOp, QueryPlan, Sql, make_raw_query}
use chiselstrike.QueryPlan.Pipeline.{
  Database, IsOrdering, rows, satisfies, apply_op, pipeline, run, sorts_once,
}
use chiselstrike.QueryPlan.Staged.{make_raw_query-run}
use chiselstrike.Crud.Query.{Query, make_query_ops}

-- The rows of a page: those of the table, ordered, that satisfy every filter, less the offset, up to
-- the page size.
unfoldable pub page_rows : Database → Query → List Row
unfolding satisfies
page_rows db q =
    let found =
      Prelude.filter (λ r. all (λ e. satisfies e r) q.filters) (db.order q.sort db.table) in
    Prelude.take q.page_size (elim q.offset [ none ↦ found | some n ↦ drop n found ])

filters-pipeline :
    (db : Database) (es : List Expr) (ops : List QueryOp) (xs : List Row)
    → pipeline db (map QueryOp.filter es ++ ops) (rows xs)
      ≡ pipeline db ops (rows (Prelude.filter (λ r. all (λ e. satisfies e r) es) xs))
unfolding pipeline apply_op
filters-pipeline db [] ops xs = ap (λ ys. pipeline db ops (rows ys)) (sym (all_kept xs))
  where
    all_kept : (ys : List Row) → Prelude.filter (λ r. true) ys ≡ ys
    all_kept [] = refl
    all_kept (y ∷ ys) = ap (◌∷◌ y) (all_kept ys)
filters-pipeline db (e ∷ es) ops xs =
    filters-pipeline db es ops (Prelude.filter (satisfies e) xs)
    ∙ ap (λ ys. pipeline db ops (rows ys))
        (Prelude.filter-filter (λ r. all (λ e'. satisfies e' r) es) (satisfies e) xs)

filters-sorts_once :
    (seen : Bool) (es : List Expr) (ops : List QueryOp)
    → sorts_once seen (map QueryOp.filter es ++ ops) ≡ sorts_once seen ops
unfolding sorts_once
filters-sorts_once seen [] ops = refl
filters-sorts_once seen (e ∷ es) ops = filters-sorts_once seen es ops

make_query_ops-sorts_once : (q : Query) → sorts_once false (make_query_ops q) ≡ true
unfolding make_query_ops sorts_once
make_query_ops-sorts_once q = filters-sorts_once true q.filters _ ∙ ground arith

make_query_ops-pipeline :
    (db : Database) (q : Query)
    → pipeline db (make_query_ops q) (rows db.table) ≡ rows (page_rows db q)
unfolding make_query_ops pipeline apply_op page_rows
make_query_ops-pipeline db q = filters-pipeline db q.filters _ _ ∙ ground arith

-- The nested selects made from a plan whose operators are those of `make_query_ops`, run by a database
-- whose ORDER BY keeps the number of rows and commutes with WHERE, give the rows of the page: the
-- table's rows in the order of the query, those that satisfy every filter, without the first `offset`
-- and at most `page_size`.
pub query-page :
    (db : Database) (plan : QueryPlan) (q : Query) (sql : Sql)
    → IsOrdering db
    → plan.operators ≡ make_query_ops q
    → make_raw_query plan ≡ ok sql
    → run db sql ≡ rows (page_rows db q)
query-page db plan q sql laws h e =
    make_raw_query-run db plan sql laws (ap (sorts_once false) h ∙ make_query_ops-sorts_once q) e
    ∙ ap (λ ops. pipeline db ops (rows db.table)) h
    ∙ make_query_ops-pipeline db q
