-- ===== src/PolicyEngine/Tests.antt =====
-- Runs of server/src/policy on the policy that skips the persons of one name on requests of one path.
use chiselstrike.Prelude.{
  Str, text, str_eq, Bool, true, false, some, List, [], ◌∷◌, ok, ◌≡◌, refl, arith,
}
use chiselstrike.Prelude
use chiselstrike.Json.{Json, Members}
use chiselstrike.Expr.{Expr, Value, value_try_from}
use chiselstrike.Expr.Eval.{Row, Truth, of_bool, truth}
use chiselstrike.PolicyCompiler.{
  position, LogicOp, Var, Predicate, Predicates, Cond, Simplifier, simplify,
}
use chiselstrike.PolicyCompiler.Simplify.{cond_truth, IsSimplifier}
use chiselstrike.PolicyCompiler.Vars.Meaning.{pred_value, var_value}
use chiselstrike.PolicyEngine.{
  Boa, JsonResolver, json_get, eval, ReadPolicy, eval_all, eval_read_policy_expr, predicate_to_expr,
}
use chiselstrike.PolicyEngine.Eval.{request_semantics, eval-pred_value}
use chiselstrike.PolicyEngine.OnRow.{on_row, AreTruths, eval_read_policy_expr-truth}

abbrev same_text : Json → Json → Bool
same_text (Json.string s) (Json.string t) = str_eq s t
same_text _ _ = false

abbrev falsy : Json → Bool
falsy (Json.bool b) = Prelude.not b
falsy _ = false

-- An engine for texts.
abbrev boa : Boa
boa = record {
  equals = same_text;
  gt = λ x y. false;
  ge = λ x y. false;
  lt = λ x y. false;
  le = λ x y. false;
  not = falsy;
}

abbrev request : Json
request = Json.object (Members.member (text "path") (Json.string (text "/a")) Members.end)

abbrev resolver : JsonResolver
resolver = record { name = text "ctx"; value = request }

abbrev vars : List Var
vars =
    Var.ident (text "p")
    ∷ Var.member 0 (text "name")
    ∷ Var.ident (text "ctx")
    ∷ Var.member 2 (text "path")
    ∷ []

-- `ctx.path == "/a"`
abbrev on_path : Predicate
on_path = Predicate.bin LogicOp.eq (Predicate.var 3) (Predicate.lit (Json.string (text "/a")))

abbrev others : Str → Json
others s = Json.null

on_path_value :
    pred_value (request_semantics boa resolver others) vars on_path ≡ some (Json.bool true)
unfolding pred_value var_value str_eq json_get
on_path_value = refl

on_path_run : eval boa resolver vars on_path ≡ ok (Predicate.lit (Json.bool true))
unfolding eval str_eq json_get
on_path_run = refl

eval-pred_value_example :
    pred_value (request_semantics boa resolver others) vars (Predicate.lit (Json.bool true))
    ≡ some (Json.bool true)
eval-pred_value_example = eval-pred_value boa resolver others vars on_path on_path_value on_path_run

-- `p.name == "ann"`
abbrev is_ann : Predicate
is_ann = Predicate.bin LogicOp.eq (Predicate.var 1) (Predicate.lit (Json.string (text "ann")))

abbrev unchanged : Simplifier
unchanged = record { simplify = λ b. b ∷ []; max_terms = 32 }

unchanged-IsSimplifier : IsSimplifier unchanged
unchanged-IsSimplifier n b le well = (b, [], refl, well, λ v. refl)

abbrev filter : Cond
filter = Cond.not (Cond.and (Cond.predicate 0) (Cond.predicate 1))

abbrev policy : ReadPolicy
policy = record {
  filter = some filter;
  predicates = is_ann ∷ on_path ∷ [];
  env = vars;
  ctx_param_name = text "ctx";
  entity_param_name = text "p";
  function = text "code";
}

abbrev evaluated : Predicates
evaluated = is_ann ∷ Predicate.lit (Json.bool true) ∷ []

evaluated_run : eval_all boa resolver vars (is_ann ∷ on_path ∷ []) ≡ ok evaluated
unfolding eval_all eval str_eq json_get
evaluated_run = refl

abbrev is_ann_expr : Expr
is_ann_expr =
    Expr.binary chiselstrike.Expr.eq (Expr.property (text "name") (Expr.parameter 0))
      (Expr.value (Value.string (text "ann")))

abbrev filter_expr : Expr
filter_expr =
    Expr.not (Expr.binary chiselstrike.Expr.and is_ann_expr (Expr.value (Value.bool true)))

policy_run : eval_read_policy_expr boa unchanged policy request ≡ ok (some filter_expr)
unfolding eval_read_policy_expr str_eq json_get simplify position value_try_from predicate_to_expr
policy_run = refl

-- A row on which every comparison holds.
abbrev row : Row
row = record {
  read = λ path. Value.null;
  compares = λ op x y. Truth.holds;
  other_truth = λ x. Truth.unknown;
}

policy-AreTruths : AreTruths boa resolver vars row (text "p") (λ i. true) 0 (is_ann ∷ on_path ∷ [])
unfolding str_eq on_row var_value json_get
policy-AreTruths = (refl, (refl, tt))

eval_read_policy_expr-truth_example :
    truth row filter_expr ≡ of_bool (cond_truth (λ i. true) filter)
eval_read_policy_expr-truth_example =
    eval_read_policy_expr-truth boa unchanged policy request row (λ i. true) evaluated filter
      filter_expr unchanged-IsSimplifier refl evaluated_run (omega arith) (omega arith)
      (omega arith, omega arith) policy-AreTruths policy_run
