-- ===== src/QueryPlan/Tests.antt =====
-- Runs of `make_raw_query` (server/src/datastore/query.rs) on a plan with two limits and a count.
use chiselstrike.Prelude.{text, ◌≡◌, refl, ◌≢◌, err, true, false, some, none, ok, [], ◌∷◌}
use chiselstrike.Expr.{Value}
use chiselstrike.Expr.Eval.{Row, holds, unknown}
use chiselstrike.Types.{ObjectType, chisel_id_field}
use chiselstrike.QueryPlan.{
  QueryOp, QueryPlan, queried, end, Sql, core, select, make_raw_query, out_of_fuel, make_clauses,
  split_on_first_take, find_at_most_one, last_of, contains_count, gather_filters,
}
use chiselstrike.QueryPlan.Pipeline.{Database, IsOrdering, rows, pipeline, run, sorts_once}
use chiselstrike.QueryPlan.Staged.{make_raw_query-run}
use chiselstrike.QueryPlan.Fuel.{make_raw_query-ends}

abbrev row : Row
row = record {
  read = λ path. Value.string (text "b");
  compares = λ op a b. holds;
  other_truth = λ v. unknown;
}

abbrev database : Database
database = record { table = row ∷ row ∷ row ∷ []; order = λ s xs. xs }

database-IsOrdering : IsOrdering database
database-IsOrdering = record { keeps_length = λ s xs. refl; order-filter = λ s p xs. refl }

abbrev person : ObjectType
person = record {
  meta_id = none;
  name = text "Person";
  fields = [];
  indexes = [];
  chisel_id = chisel_id_field;
  backing_table = text "ty_person";
  version_id = text "v1";
}

abbrev plan : QueryPlan
plan = record {
  entity = queried person end;
  base_type = person;
  allowed_fields = none;
  operators = QueryOp.take 2 ∷ QueryOp.skip 1 ∷ QueryOp.count ∷ [];
}

abbrev plan_sql : Sql
plan_sql =
    select (record { counting = true; condition = none; order = none; limit = none; offset = none })
      (select
        (record { counting = false; condition = none; order = none; limit = none; offset = some 1 })
        (select
          (record {
            counting = false;
            condition = none;
            order = none;
            limit = some 2;
            offset = none;
          })
          core))

plan_run : make_raw_query plan ≡ ok plan_sql
unfolding make_raw_query make_clauses split_on_first_take find_at_most_one last_of contains_count
    gather_filters
plan_run = refl

plan_once : sorts_once false plan.operators ≡ true
unfolding sorts_once
plan_once = refl

make_raw_query-run_example :
    run database plan_sql ≡ pipeline database plan.operators (rows database.table)
make_raw_query-run_example =
    make_raw_query-run database plan plan_sql database-IsOrdering plan_once plan_run

make_raw_query-ends_example : make_raw_query plan ≢ err out_of_fuel
make_raw_query-ends_example = make_raw_query-ends plan
