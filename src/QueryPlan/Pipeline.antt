-- ===== src/QueryPlan/Pipeline.antt =====
-- The meaning of the operators of server/src/datastore/query.rs, and of nested selects.
use chiselstrike.Prelude
use chiselstrike.Prelude.{
  ℕ, Bool, true, false, Option, none, some, List, [], ◌∷◌, length, drop, ◌≡◌, not, ◌&&◌,
}
use chiselstrike.Expr.{Expr}
use chiselstrike.Expr.Eval.{Truth, holds, Row, truth}
use chiselstrike.QueryPlan.{QueryOp, SortBy, Clauses, Sql, core, select}

abbrev pub is_holds : Truth → Bool
is_holds holds = true
is_holds _ = false

-- A WHERE condition keeps the rows of which it holds.
unfoldable pub satisfies : Expr → Row → Bool
satisfies e r = is_holds (truth r e)

-- A database: the rows of the core select, and how it orders rows.
pub record Database : Type 0 where
  pub table : List Row
  pub order : SortBy → List Row → List Row

-- Ordering keeps the number of the rows, and filtering may come before or after it.
pub record IsOrdering (db : Database) : Type 0 where
  pub keeps_length : (s : SortBy) (xs : List Row) → length (db.order s xs) ≡ length xs
  pub order-filter :
      (s : SortBy) (p : Row → Bool) (xs : List Row)
      → Prelude.filter p (db.order s xs) ≡ db.order s (Prelude.filter p xs)

pub data Answer : Type 0 where
  rows : List Row → Answer
  number : ℕ → Answer

-- The operator applied to the rows, as its comment in the source says.
unfoldable pub apply_op : Database → QueryOp → Answer → Answer
unfolding satisfies
apply_op db (QueryOp.filter e) (rows xs) = rows (Prelude.filter (satisfies e) xs)
apply_op db (QueryOp.projection fields) (rows xs) = rows xs
apply_op db (QueryOp.take n) (rows xs) = rows (Prelude.take n xs)
apply_op db (QueryOp.skip n) (rows xs) = rows (drop n xs)
apply_op db (QueryOp.sort_by s) (rows xs) = rows (db.order s xs)
apply_op db QueryOp.count (rows xs) = number (length xs)
apply_op db op (number n) = number n

unfoldable pub pipeline : Database → List QueryOp → Answer → Answer
pipeline db [] a = a
pipeline db (op ∷ ops) a = pipeline db ops (apply_op db op a)

abbrev pub filtered : Option Expr → List Row → List Row
filtered none xs = xs
filtered (some e) xs = Prelude.filter (satisfies e) xs

abbrev pub ordered : Database → Option SortBy → List Row → List Row
ordered db none xs = xs
ordered db (some s) xs = db.order s xs

abbrev pub limited : Option ℕ → List Row → List Row
limited none xs = xs
limited (some n) xs = Prelude.take n xs

abbrev pub skipped : Option ℕ → List Row → List Row
skipped none xs = xs
skipped (some n) xs = drop n xs

-- A select: WHERE, then COUNT(*), or ORDER BY, OFFSET and LIMIT in this order.
abbrev pub run_clauses : Database → Clauses → Answer → Answer
run_clauses db c (number n) = number n
run_clauses db c (rows xs) =
    let found = filtered c.condition xs in
    Prelude.if◌then◌else◌ c.counting (number (length found))
      (rows (limited c.limit (skipped c.offset (ordered db c.order found))))

unfoldable pub run : Database → Sql → Answer
run db core = rows db.table
run db (select c source) = run_clauses db c (run db source)

-- Between two limits the rows are ordered at most once; `seen` tells whether they are already.
unfoldable pub sorts_once : Bool → List QueryOp → Bool
sorts_once seen [] = true
sorts_once seen (QueryOp.sort_by s ∷ ops) = not seen && sorts_once true ops
sorts_once seen (QueryOp.take n ∷ ops) = sorts_once false ops
sorts_once seen (QueryOp.skip n ∷ ops) = sorts_once false ops
sorts_once seen (op ∷ ops) = sorts_once seen ops
