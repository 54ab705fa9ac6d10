-- ===== src/PolicyCompiler/Rules.antt =====
-- chiselc/src/policies.rs: the rules of a filter policy, inferred from the regions of its arrow
-- function (chiselc/src/tools/analysis/region.rs). The analysis that finds the regions and the
-- statements, and the emitted code, are given with the arrow function.
pub mod Merge
pub mod Run
pub mod Infer
pub mod Where
mod Tests
use chiselstrike.Prelude.{
  ◌==◌, ℕ, Str, text, str_eq, Bool, Option, none, some, List, [], ◌∷◌, Result, ok, err, ok_or,
  ◌>>=◌, if◌then◌else◌,
}
use chiselstrike.PolicyCompiler.{
  Failure, Predicates, Cond, Simplifier, insert_predicate, simplify, unknown_statement,
  invalid_test, invalid_return, multiline_block, not_implemented, emit_failed, expected_return,
  loops_not_supported,
}
use chiselstrike.PolicyCompiler.Vars.{Environment, JsExpr, parse_expr}

-- A statement's index in the control-flow graph.
abbrev pub Idx : Type 0
Idx = ℕ

-- `LoopRegion`, `SeqRegion` and `CondRegion` are the fields of the constructors.
pub data Region : Type 0 where
  basic_block : List Idx → Region
  seq : Region → Region → Region
  cond : Region → Region → Region → Region
  loop : Idx → Region → Region

-- The statements that the rules tell apart.
pub data Stmt : Type 0 where
  conditional : JsExpr → Stmt
  returned : Option JsExpr → Stmt
  other : Stmt

abbrev pub StmtMap : Type 0
StmtMap = Idx → Option Stmt

pub data Action : Type 0 where
  allow log deny skip : Action

abbrev pub discriminant : Action → ℕ
discriminant Action.allow = 0
discriminant Action.log = 1
discriminant Action.deny = 2
discriminant Action.skip = 3

-- The derived equality of `Action`.
abbrev pub action_eq : Action → Action → Bool
action_eq a b = discriminant a == discriminant b

-- The constant `ACTIONS`.
abbrev pub all_actions : List Action
all_actions = Action.allow ∷ Action.skip ∷ Action.deny ∷ Action.log ∷ []

-- `Actions`, a map from actions to conditions.
abbrev pub Actions : Type 0
Actions = List (Action × Cond)

pub get_action : Action → Actions → Option Cond
get_action a [] = none
get_action a ((b, c) ∷ actions) = if action_eq b a then some c else get_action a actions

pub insert_action : Action → Cond → Actions → Actions
insert_action a c [] = (a, c) ∷ []
insert_action a c ((b, d) ∷ actions) =
    if action_eq b a then (a, c) ∷ actions else (b, d) ∷ insert_action a c actions

-- The match of `Actions::merge`.
abbrev pub merged_cond : Option Cond → Option Cond → Option Cond
merged_cond (some lhs) (some rhs) = some (Cond.or lhs rhs)
merged_cond (some c) none = some c
merged_cond none (some c) = some c
merged_cond none none = none

add_merged : Action → Option Cond → Actions → Actions
unfolding insert_action
add_merged a none out = out
add_merged a (some c) out = insert_action a c out

merge_loop : List Action → Actions → Actions → Actions → Actions
unfolding get_action add_merged
merge_loop [] x y out = out
merge_loop (a ∷ actions) x y out =
    merge_loop actions x y (add_merged a (merged_cond (get_action a x) (get_action a y)) out)

-- `Actions::merge`
pub merge : Actions → Actions → Actions
unfolding merge_loop
merge x y = merge_loop all_actions x y []

-- `Actions::simplify`
simplify_actions : Simplifier → Predicates → Actions → Result Failure Actions
simplify_actions s preds [] = ok []
simplify_actions s preds ((a, c) ∷ actions) = do
  d ← simplify s preds c
  rest ← simplify_actions s preds actions
  ok ((a, d) ∷ rest)

-- `RulesBuilder`, without the statements.
pub record RulesBuilder : Type 0 where
  pub predicates : Predicates
  pub env : Environment

stmt_at : StmtMap → Idx → Result Failure Stmt
stmt_at stmts i = ok_or (stmts i) unknown_statement

-- `Predicates::insert` of what `parse_expr` returns.
insert_test : JsExpr → RulesBuilder → Result Failure (Cond × RulesBuilder)
insert_test e b = do
  (p, env) ← parse_expr e b.env
  ok (
    Cond.predicate (insert_predicate p b.predicates).0,
    record { predicates = (insert_predicate p b.predicates).1; env = env },
  )

test_of : Stmt → RulesBuilder → Result Failure (Cond × RulesBuilder)
unfolding insert_test
test_of (Stmt.conditional e) b = insert_test e b
test_of _ b = err invalid_test

-- `RulesBuilder::extract_cond_from_test`
extract_cond_from_test : StmtMap → Region → RulesBuilder → Result Failure (Cond × RulesBuilder)
unfolding test_of stmt_at
extract_cond_from_test stmts (Region.basic_block (i ∷ [])) b = do s ← stmt_at stmts i; test_of s b
extract_cond_from_test stmts _ b = err invalid_test

-- The matches on the returned expression.
action_of : Str → Result Failure Action
action_of s =
    if str_eq s (text "Allow")
    then ok Action.allow
    else if str_eq s (text "Skip")
    then ok Action.skip
    else if str_eq s (text "Deny")
    then ok Action.deny
    else if str_eq s (text "Log")
    then ok Action.log
    else err invalid_return

pub returned_action : Stmt → Result Failure Action
unfolding action_of
returned_action (Stmt.returned (some (JsExpr.member (JsExpr.ident s) prop))) =
    if str_eq s (text "Action") then action_of prop else err invalid_return
returned_action (Stmt.returned _) = err invalid_return
returned_action _ = err expected_return

-- `RulesBuilder::infer_basic_block`
infer_basic_block : StmtMap → List Idx → Cond → Result Failure Actions
unfolding returned_action stmt_at insert_action
infer_basic_block stmts [] held = ok (insert_action Action.deny held [])
infer_basic_block stmts (i ∷ []) held = do
  s ← stmt_at stmts i
  a ← returned_action s
  ok (insert_action a held [])
infer_basic_block stmts (i ∷ j ∷ is) held = err multiline_block

-- `RulesBuilder::infer_rules_from_region`
pub infer_rules_from_region :
    StmtMap → Region → Cond → RulesBuilder → Result Failure (Actions × RulesBuilder)
unfolding extract_cond_from_test infer_basic_block merge
infer_rules_from_region stmts (Region.cond test cons alt) held b = do
  (test_cond, b1) ← extract_cond_from_test stmts test b
  (cons_rules, b2) ← infer_rules_from_region stmts cons (Cond.and test_cond held) b1
  (alt_rules, b3) ← infer_rules_from_region stmts alt (Cond.and (Cond.not test_cond) held) b2
  ok (merge cons_rules alt_rules, b3)
infer_rules_from_region stmts (Region.seq first second) held b = err not_implemented
infer_rules_from_region stmts (Region.basic_block is) held b = do
  actions ← infer_basic_block stmts is held
  ok (actions, b)
infer_rules_from_region stmts (Region.loop header body) held b = err loops_not_supported

-- `generate_where_from_rules`
abbrev pub generate_where_from_rules : Actions → Option Cond
generate_where_from_rules actions = elim (get_action Action.skip actions) [
  | none ↦ none
  | some c ↦ some (Cond.not c)
]

pub record ArrowFunction : Type 0 where
  pub params : List Str
  pub stmt_map : StmtMap
  pub regions : Region
  pub code : Option Str

pub record FilterPolicy : Type 0 where
  pub where_conds : Option Cond
  pub predicates : Predicates
  pub env : Environment
  pub js_code : Str
  pub params : List Str

simplify_where : Simplifier → Predicates → Option Cond → Result Failure (Option Cond)
simplify_where s preds none = ok none
simplify_where s preds (some c) = do d ← simplify s preds c; ok (some d)

-- `FilterPolicy::from_arrow`
pub from_arrow : Simplifier → ArrowFunction → Result Failure FilterPolicy
unfolding infer_rules_from_region simplify_actions simplify_where get_action
from_arrow s arrow = do
  (inferred, b) ←
      infer_rules_from_region arrow.stmt_map arrow.regions Cond.holds
        (record { predicates = []; env = [] })
  actions ← simplify_actions s b.predicates inferred
  where_conds ← simplify_where s b.predicates (generate_where_from_rules actions)
  js_code ← ok_or arrow.code emit_failed
  ok (record {
    where_conds = where_conds;
    predicates = b.predicates;
    env = b.env;
    js_code = js_code;
    params = arrow.params;
  })
