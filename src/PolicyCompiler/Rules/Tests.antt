-- ===== src/PolicyCompiler/Rules/Tests.antt =====
-- Runs of chiselc/src/policies.rs on a policy that skips the persons of one name.
use chiselstrike.Prelude.{
  text, str_eq, Bool, true, false, some, List, [], ◌∷◌, length, ok, ◌≡◌, refl, arith, ◌==◌,
  if◌then◌else◌,
}
use chiselstrike.Prelude
use chiselstrike.Json.{Json}
use chiselstrike.PolicyCompiler.{
  position, LogicOp, Var, Predicate, Predicates, Cond, Simplifier, simplify,
}
use chiselstrike.PolicyCompiler.Simplify.{
  cond_truth, PredicatesBelow, IsSimplifier, simplify_correct,
}
use chiselstrike.PolicyCompiler.Vars.{BinaryOp, JsExpr, Lit, parse_expr, insert_var}
use chiselstrike.PolicyCompiler.Vars.Meaning.{Semantics, js_value}
use chiselstrike.PolicyCompiler.Vars.Parse.{HasValue, parse_expr-HasValue}
use chiselstrike.PolicyCompiler.Rules.{
  Region, Stmt, StmtMap, Action, Actions, RulesBuilder, infer_rules_from_region, ArrowFunction,
  FilterPolicy, from_arrow,
}
use chiselstrike.PolicyCompiler.Rules.Merge.{action_truth}
use chiselstrike.PolicyCompiler.Rules.Infer.{
  valuation, is_action, empty_builder, infer_rules-is_action,
}
use chiselstrike.PolicyCompiler.Rules.Run.{run_region}
use chiselstrike.PolicyCompiler.Rules.Where.{IsTruthful, KeepsUnskipped, from_arrow-KeepsUnskipped}

-- A simplifier that leaves everything as it is.
abbrev unchanged : Simplifier
unchanged = record { simplify = λ b. b ∷ []; max_terms = 32 }

unchanged-IsSimplifier : IsSimplifier unchanged
unchanged-IsSimplifier n b le well = (b, [], refl, well, λ v. refl)

abbrev preds : Predicates
preds = Predicate.lit (Json.bool true) ∷ Predicate.var 0 ∷ []

simplify_correct_example :
    (out : Cond) × (simplify unchanged preds
        (Cond.and (Cond.predicate 0) (Cond.not (Cond.predicate 1)))
      ≡ ok out)
    × (cond_truth (λ i. i == 0) out
        ≡ cond_truth (λ i. i == 0) (Cond.and (Cond.predicate 0) (Cond.not (Cond.predicate 1))))
    × PredicatesBelow (length preds) out
simplify_correct_example =
    simplify_correct unchanged preds (λ i. i == 0)
      (Cond.and (Cond.predicate 0) (Cond.not (Cond.predicate 1))) unchanged-IsSimplifier
      (omega arith) (omega arith) (refl, (tt, tt)) (omega arith, omega arith)

abbrev equal_text : Json → Json → Bool
equal_text (Json.string s) (Json.string t) = str_eq s t
equal_text _ _ = false

abbrev is_true : Json → Bool
is_true (Json.bool b) = b
is_true _ = false

-- A JavaScript in which every property of a person is its own name.
abbrev names : Semantics
names = record {
  V = Json;
  ident = Json.string;
  member = λ object prop. Json.string prop;
  lit = λ value. value;
  bin = λ op x y. Json.bool (equal_text x y);
  bang = λ x. Json.bool (Prelude.not (is_true x));
  truthy = is_true;
}

names-IsTruthful : IsTruthful names
names-IsTruthful b = refl

abbrev is_name : JsExpr
is_name =
    JsExpr.bin BinaryOp.eq_eq (JsExpr.member (JsExpr.ident (text "p")) (text "name"))
      (JsExpr.lit (Lit.str (text "name")))

abbrev vars : List Var
vars = Var.ident (text "p") ∷ Var.member 0 (text "name") ∷ []

abbrev name_predicate : Predicate
name_predicate =
    Predicate.bin LogicOp.eq (Predicate.var 1) (Predicate.lit (Json.string (text "name")))

is_name_run : parse_expr is_name [] ≡ ok (name_predicate, vars)
unfolding parse_expr insert_var
is_name_run = refl

parse_expr-HasValue_example : HasValue names (js_value names is_name) [] (name_predicate, vars)
parse_expr-HasValue_example = parse_expr-HasValue names is_name [] tt is_name_run

abbrev stmts : StmtMap
stmts i =
    if i == 0
    then some (Stmt.conditional is_name)
    else some (Stmt.returned (some (JsExpr.member (JsExpr.ident (text "Action")) (text "Skip"))))

abbrev regions : Region
regions =
    Region.cond (Region.basic_block (0 ∷ [])) (Region.basic_block (1 ∷ [])) (Region.basic_block [])

abbrev skip_cond : Cond
skip_cond = Cond.and (Cond.predicate 0) Cond.holds

abbrev rules : Actions
rules =
    (Action.skip, skip_cond) ∷ (Action.deny, Cond.and (Cond.not (Cond.predicate 0)) Cond.holds) ∷ []

abbrev built : RulesBuilder
built = record { predicates = name_predicate ∷ []; env = vars }

rules_run : infer_rules_from_region stmts regions Cond.holds empty_builder ≡ ok (rules, built)
unfolding infer_rules_from_region parse_expr insert_var str_eq
rules_run = refl

infer_rules-is_action_example :
    action_truth (valuation names built.predicates built.env) rules Action.skip
    ≡ is_action Action.skip (run_region names stmts regions)
infer_rules-is_action_example =
    infer_rules-is_action names stmts regions Action.skip rules built rules_run

abbrev arrow : ArrowFunction
arrow = record {
  params = text "p" ∷ text "ctx" ∷ [];
  stmt_map = stmts;
  regions = regions;
  code = some (text "code");
}

abbrev policy : FilterPolicy
policy = record {
  where_conds = some (Cond.not skip_cond);
  predicates = name_predicate ∷ [];
  env = vars;
  js_code = text "code";
  params = text "p" ∷ text "ctx" ∷ [];
}

policy_run : from_arrow unchanged arrow ≡ ok policy
unfolding from_arrow infer_rules_from_region parse_expr insert_var str_eq simplify position
policy_run = refl

from_arrow-KeepsUnskipped_example : KeepsUnskipped names arrow policy
from_arrow-KeepsUnskipped_example =
    from_arrow-KeepsUnskipped names unchanged arrow policy names-IsTruthful unchanged-IsSimplifier
      policy_run (omega arith) (omega arith)
