-- ===== src/QueryPlan/Staged.antt =====
-- The nested selects of `make_raw_query` (server/src/datastore/query.rs) against its operators.
use chiselstrike.Prelude.{
  ℕ, zero, suc, Bool, true, false, Option, none, List, [], ◌∷◌, length, ◌≡◌, refl, sym, ap, ◌∙◌,
  arith, Result, ok, >>=-eq-ok, ensure,
}
use chiselstrike.Expr.{Expr}
use chiselstrike.Expr.Eval.{Row}
use chiselstrike.QueryPlan.{
  QueryOp, SortBy, Clauses, Sql, core, select, QueryPlan, PlanError, split_on_first_take,
  gather_from, gather_filters, last_of, as_sort_by, as_take, as_skip, contains_count, make_clauses,
  raw_query_loop, make_raw_query, find_last_sort_by, find_at_most_one, check_filter,
  nothing_after_count, check_sort, count_not_last,
}
use chiselstrike.QueryPlan.Pipeline.{
  Database, IsOrdering, Answer, rows, number, pipeline, filtered, ordered, run_clauses, run,
  sorts_once,
}
use chiselstrike.QueryPlan.Stage.{
  split-append, pipeline-append, pipeline-number, sorts_once-split, later, later-none, finish,
  length-ordered, stage-pipeline,
}

-- What the clauses of a stage are.
record IsClausesOf (ops : List QueryOp) (c : Clauses) : Type 0 where
  condition_lem : c.condition ≡ gather_filters ops
  order_lem : c.order ≡ last_of as_sort_by ops
  limit_lem : c.limit ≡ last_of as_take ops
  offset_lem : c.offset ≡ last_of as_skip ops
  counting_lem : contains_count ops ≡ ok c.counting

find_at_most_one-last_of :
    (f : QueryOp → Option ℕ) (ops : List QueryOp) (r : Option ℕ)
    → find_at_most_one f ops ≡ ok r
    → r ≡ last_of f ops
unfolding find_at_most_one
find_at_most_one-last_of f ops r h = ground arith

make_clauses-IsClausesOf :
    (plan : QueryPlan) (ops : List QueryOp) (c : Clauses)
    → make_clauses plan ops ≡ ok c
    → IsClausesOf ops c
unfolding make_clauses
make_clauses-IsClausesOf plan ops c h =
    let (_, _, h1) = >>=-eq-ok (check_filter plan.entity (gather_filters ops)) _ h in
    let (_, _, h2) = >>=-eq-ok (check_sort plan.base_type (find_last_sort_by ops)) _ h1 in
    let (l, limit, h3) = >>=-eq-ok (find_at_most_one as_take ops) _ h2 in
    let (o, offset, h4) = >>=-eq-ok (find_at_most_one as_skip ops) _ h3 in
    let (n, counted, h5) = >>=-eq-ok (contains_count ops) _ h4 in
    record {
      condition_lem = cc;
      order_lem = cc;
      limit_lem = cc (find_at_most_one-last_of as_take ops l limit);
      offset_lem = cc (find_at_most_one-last_of as_skip ops o offset);
      counting_lem = cc;
    }

same_ok : {sql out : Sql} → ◌≡◌ {A = Result PlanError Sql} (ok sql) (ok out) → out ≡ sql
same_ok e = cc

module _ (db : Database) (laws : IsOrdering db) where
  finish-if :
      (b : Bool) (condition : Option Expr) (order : Option SortBy) (limit offset : Option ℕ)
      (xs : List Row)
      → run_clauses db
          (record {
            counting = b;
            condition = condition;
            order = order;
            limit = limit;
            offset = offset;
          })
          (rows xs)
        ≡ finish b limit offset (ordered db order (filtered condition xs))
  finish-if true condition order limit offset xs =
      ap number (sym (length-ordered db laws order (filtered condition xs)))
  finish-if false condition order limit offset xs = refl

  run_clauses-finish :
      (ops : List QueryOp) (c : Clauses) (xs : List Row)
      → IsClausesOf ops c
      → run_clauses db c (rows xs)
        ≡ finish c.counting
            (last_of as_take ops)
            (last_of as_skip ops)
            (ordered db (later none (last_of as_sort_by ops)) (filtered (gather_from none ops) xs))
  unfolding gather_filters
  run_clauses-finish ops c xs is =
      finish-if c.counting c.condition c.order c.limit c.offset xs ∙ λ i.
      finish c.counting (is.limit_lem i) (is.offset_lem i) (
        ordered db ((is.order_lem ∙ sym (later-none (last_of as_sort_by ops))) i)
          (filtered (is.condition_lem i) xs))

  -- One select does what the operators of its stage do.
  run_clauses-stage :
      (ops : List QueryOp) (c : Clauses) (a : Answer)
      → sorts_once false ops ≡ true
      → IsClausesOf (split_on_first_take ops).0 c
      → run_clauses db c a ≡ pipeline db (split_on_first_take ops).0 a
  run_clauses-stage ops c (number n) h is = sym (pipeline-number db (split_on_first_take ops).0 n)
  run_clauses-stage ops c (rows xs) h is =
      run_clauses-finish (split_on_first_take ops).0 c xs is
      ∙ sym (stage-pipeline db laws ops none none c.counting xs h is.counting_lem)

  raw_query_loop-run :
      (fuel : ℕ) (plan : QueryPlan) (ops : List QueryOp) (sql out : Sql)
      → sorts_once false ops ≡ true
      → raw_query_loop fuel plan ops sql ≡ ok out
      → run db out ≡ pipeline db ops (run db sql)
  unfolding raw_query_loop run
  raw_query_loop-run zero plan [] sql out h e = unfold pipeline in ap (run db) (same_ok e)
  raw_query_loop-run (suc fuel) plan [] sql out h e = unfold pipeline in ap (run db) (same_ok e)
  raw_query_loop-run zero plan (op ∷ ops) sql out h e = cc
  raw_query_loop-run (suc fuel) plan (op ∷ ops) sql out h e =
      let split = split_on_first_take (op ∷ ops) in
      let (c, one, e1) = >>=-eq-ok (make_clauses plan split.0) _ e in
      let (_, _, e2) =
        >>=-eq-ok (ensure (nothing_after_count c.counting split.1) count_not_last) _ e1 in
      raw_query_loop-run fuel plan split.1 (select c sql) out (sorts_once-split false (op ∷ ops) h)
        e2
      ∙ ap (pipeline db split.1) (
          run_clauses-stage (op ∷ ops) c (run db sql) h
            (make_clauses-IsClausesOf plan split.0 c one))
      ∙ sym (pipeline-append db split.0 split.1 (run db sql))
      ∙ ap (λ x. pipeline db x (run db sql)) (split-append (op ∷ ops))

-- The nested selects of a plan, run by a database whose ORDER BY keeps the number of rows and commutes
-- with WHERE, give what the plan's operators give when they are applied to the table one after the other,
-- in order, provided that the rows are ordered at most once between two limits.
pub make_raw_query-run :
    (db : Database) (plan : QueryPlan) (sql : Sql)
    → IsOrdering db
    → sorts_once false plan.operators ≡ true
    → make_raw_query plan ≡ ok sql
    → run db sql ≡ pipeline db plan.operators (rows db.table)
unfolding make_raw_query
make_raw_query-run db plan sql laws h e =
    raw_query_loop-run db laws (length plan.operators) plan plan.operators core sql h e
    ∙ ap (pipeline db plan.operators) (unfold run in refl)
