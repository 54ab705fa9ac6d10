-- ===== src/PolicyCompiler/Rules/Run.antt =====
-- chiselc/src/policies.rs: what a policy function does when it is run.
use chiselstrike.Prelude.{
  Str, text, str_eq, Bool, true, false, Option, none, some, [], ◌∷◌, ok, err, ◌≡◌, arith,
  if◌then◌else◌,
}
use chiselstrike.PolicyCompiler.Vars.{JsExpr}
use chiselstrike.PolicyCompiler.Vars.Meaning.{Semantics, js_value}
use chiselstrike.PolicyCompiler.Rules.{
  Region, Stmt, StmtMap, Action, action_of, returned_action, invalid_return,
}

abbrev pub truth : (sem : Semantics) → Option sem.V → Bool
truth sem none = false
truth sem (some x) = sem.truthy x

-- The action that a text after `Action.` stands for.
abbrev pub named_action : Str → Option Action
named_action name =
    if str_eq name (text "Allow")
    then some Action.allow
    else if str_eq name (text "Skip")
    then some Action.skip
    else if str_eq name (text "Deny")
    then some Action.deny
    else if str_eq name (text "Log")
    then some Action.log
    else none

-- The action of a statement `return Action.Allow` and its like.
abbrev pub return_value : Stmt → Option Action
return_value (Stmt.returned (some (JsExpr.member (JsExpr.ident s) name))) =
    if str_eq s (text "Action") then named_action name else none
return_value _ = none

action_of-named_action :
    (name : Str) {a : Action} → action_of name ≡ ok a → named_action name ≡ some a
unfolding action_of
action_of-named_action name {a} h =
    chosen (str_eq name (text "Allow")) (str_eq name (text "Skip")) (str_eq name (text "Deny"))
      (str_eq name (text "Log")) h
  where
    chosen :
        (x y z u : Bool)
        → (if x
            then ok Action.allow
            else if y
            then ok Action.skip
            else if z
            then ok Action.deny
            else if u
            then ok Action.log
            else err invalid_return)
          ≡ ok a
        → (if x
            then some Action.allow
            else if y
            then some Action.skip
            else if z
            then some Action.deny
            else if u
            then some Action.log
            else none)
          ≡ some a
    chosen x y z u h = ground (arith, h)

pub returned_action-return_value :
    (s : Stmt) {a : Action} → returned_action s ≡ ok a → return_value s ≡ some a
unfolding returned_action
returned_action-return_value (Stmt.returned (some (JsExpr.member (JsExpr.ident s) name))) {a} h =
    chosen (str_eq s (text "Action")) h
  where
    chosen :
        (b : Bool)
        → (if b then action_of name else err invalid_return) ≡ ok a
        → (if b then named_action name else none) ≡ some a
    chosen true h = action_of-named_action name h
    chosen false h = cc
returned_action-return_value _ h = cc

abbrev pub run_test : Semantics → Option Stmt → Bool
run_test sem (some (Stmt.conditional e)) = truth sem (js_value sem e)
run_test sem _ = false

module _ (sem : Semantics) (stmts : StmtMap) where
  -- The action of the function on one entity, by running its statements: a test takes one of two
  -- ways, a block returns its action, and the end of the function denies.
  unfoldable pub run_region : Region → Option Action
  run_region (Region.cond (Region.basic_block (i ∷ [])) cons alt) =
      let yes = run_region cons in
      let no = run_region alt in if run_test sem (stmts i) then yes else no
  run_region (Region.cond test cons alt) = none
  run_region (Region.basic_block []) = some Action.deny
  run_region (Region.basic_block (i ∷ [])) = elim (stmts i) [
    | none ↦ none
    | some s ↦ return_value s
  ]
  run_region (Region.basic_block (i ∷ j ∷ is)) = none
  run_region (Region.seq first second) = none
  run_region (Region.loop header body) = none
