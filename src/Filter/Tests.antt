-- ===== src/Filter/Tests.antt =====
-- A run of server/src/datastore/filter.rs on `{"$not": {"n": {"$gt": "a"}}}`.
use chiselstrike.Prelude.{text, ◌≡◌, ◌≤◌, refl, true, ok, str_eq, starts_with_char}
use chiselstrike.Json.{Json, end, member, object}
use chiselstrike.Expr.{
  Value, BinaryOp, Expr, value, parameter, property, binary, and_expr, bool_expr, value_try_from,
}
use chiselstrike.Expr.Eval.{Row, holds, unknown, truth}
use chiselstrike.Filter.{to_expr}
use chiselstrike.Filter.Meaning.{matches}
use chiselstrike.Filter.Sound.{to_expr_sound}
use chiselstrike.Filter.Depth.{nesting, field_nesting, to_expr_bound}

abbrev row : Row
row = record {
  read = λ path. Value.string (text "b");
  compares = λ op a b. holds;
  other_truth = λ v. unknown;
}

abbrev not_greater : Json
not_greater = object (
    member (text "$not")
      (object (member (text "n") (object (member (text "$gt") (Json.string (text "a")) end)) end))
      end)

abbrev not_greater_expr : Expr
not_greater_expr = and_expr (bool_expr true) (
    Expr.not (
      and_expr (bool_expr true) (
        and_expr (bool_expr true) (
          binary BinaryOp.gt (property (text "n") (parameter 0))
            (value (Value.string (text "a")))))))

not_greater_run : to_expr not_greater ≡ ok not_greater_expr
unfolding to_expr str_eq starts_with_char value_try_from
not_greater_run = refl

to_expr_sound_example : truth row not_greater_expr ≡ matches row not_greater
to_expr_sound_example = to_expr_sound row not_greater not_greater_expr not_greater_run

to_expr_bound_example :
    (nesting (λ _. 0) not_greater ≤ 100) × (nesting field_nesting not_greater ≤ 200)
to_expr_bound_example = to_expr_bound not_greater not_greater_expr not_greater_run
