-- ===== src/PolicyCompiler/Rules/Where.antt =====
-- chiselc/src/policies.rs: the condition of a filter policy, `FilterPolicy::from_arrow`.
use chiselstrike.Prelude.{
  ℕ, suc, ◌+◌, ◌≤◌, Bool, true, false, Option, none, some, [], ◌∷◌, length, get_elem?, ok, ok_or,
  >>=-eq-ok, ◌≡◌, refl, sym, ap, ◌∙◌, subst, arith, Bool-cases, inl, inr,
}
use chiselstrike.Prelude
use chiselstrike.Json.{Json}
use chiselstrike.PolicyCompiler.{
  Predicate, Predicates, Cond, Simplifier, simplify, emit_failed, Str,
}
use chiselstrike.PolicyCompiler.Simplify.{
  cond_truth, PredicatesBelow, IsSimplifier, IsLiteral, LiteralsHold, simplify_correct,
}
use chiselstrike.PolicyCompiler.Vars.{Environment}
use chiselstrike.PolicyCompiler.Vars.Meaning.{Semantics, pred_value}
use chiselstrike.PolicyCompiler.Rules.{
  Action, action_eq, Actions, get_action, simplify_actions, RulesBuilder, infer_rules_from_region,
  generate_where_from_rules, ArrowFunction, FilterPolicy, simplify_where, from_arrow,
}
use chiselstrike.PolicyCompiler.Rules.Merge.{
  truth_of, action_truth, ActionsBelow, get_action-below, OptionBelow,
}
use chiselstrike.PolicyCompiler.Rules.Infer.{
  valuation, is_action, empty_builder, infer_rules-is_action, infer_rules-ActionsBelow,
}
use chiselstrike.PolicyCompiler.Rules.Run.{truth, run_region}

-- A Boolean is as true as it says.
abbrev pub IsTruthful : Semantics → Type 0
IsTruthful sem = (b : Bool) → sem.truthy (sem.lit (Json.bool b)) ≡ b

-- A policy without condition keeps everything.
abbrev pub where_truth : (ℕ → Bool) → Option Cond → Bool
where_truth v none = true
where_truth v (some c) = cond_truth v c

module _ (sem : Semantics) (truthful : IsTruthful sem) (env : Environment) (v : ℕ → Bool) where
  value-IsLiteral :
      (p : Predicate) (i : ℕ) → v i ≡ truth sem (pred_value sem env p) → IsLiteral p (v i)
  unfolding pred_value
  value-IsLiteral (Predicate.lit (Json.bool b)) i e = e ∙ truthful b
  value-IsLiteral (Predicate.lit Json.null) i e = tt
  value-IsLiteral (Predicate.lit (Json.number n)) i e = tt
  value-IsLiteral (Predicate.lit (Json.string s)) i e = tt
  value-IsLiteral (Predicate.lit (Json.array items)) i e = tt
  value-IsLiteral (Predicate.lit (Json.object members)) i e = tt
  value-IsLiteral (Predicate.bin op l r) i e = tt
  value-IsLiteral (Predicate.not p) i e = tt
  value-IsLiteral (Predicate.var id) i e = tt

  values-LiteralsHold :
      (i : ℕ) (ps : Predicates)
      → ((j : ℕ) (p : Predicate)
          → get_elem? ps j ≡ some p
          → v (j + i) ≡ truth sem (pred_value sem env p))
      → LiteralsHold v i ps
  values-LiteralsHold i [] h = tt
  values-LiteralsHold i (p ∷ ps) h =
      let here : v i ≡ truth sem (pred_value sem env p) =
        subst (λ n. v n ≡ truth sem (pred_value sem env p)) (omega arith) (h 0 p refl) in
      (
        value-IsLiteral p i here,
        values-LiteralsHold (suc i) ps (λ j q e.
            subst (λ n. v n ≡ truth sem (pred_value sem env q)) (omega arith) (h (suc j) q e)),
      )

pub valuation-LiteralsHold :
    (sem : Semantics) (preds : Predicates) (env : Environment)
    → IsTruthful sem
    → LiteralsHold (valuation sem preds env) 0 preds
valuation-LiteralsHold sem preds env truthful =
    values-LiteralsHold sem truthful env (valuation sem preds env) 0 preds (λ j p e.
      let found : valuation sem preds env j ≡ truth sem (pred_value sem env p) =
        rw (valuation, e) refl in
      let same : j ≡ j + 0 = omega arith in
      subst (λ n. valuation sem preds env n ≡ truth sem (pred_value sem env p)) same found)

module _ (s : Simplifier) (preds : Predicates) (v : ℕ → Bool) (correct : IsSimplifier s)
    (fits : length preds ≤ s.max_terms) (few : length preds ≤ 256)
    (literals : LiteralsHold v 0 preds) where
  simplified :
      (c : Cond) {d : Cond}
      → simplify s preds c ≡ ok d
      → PredicatesBelow (length preds) c
      → (cond_truth v d ≡ cond_truth v c) × PredicatesBelow (length preds) d
  simplified c {d} h below =
      let (out, e, same, out_below) =
        simplify_correct s preds v c correct fits few literals below in
      let eo : out ≡ d = cc (e, h) in
      (
        subst (λ x. cond_truth v x ≡ cond_truth v c) eo same,
        subst (PredicatesBelow (length preds)) eo out_below,
      )

  one_more :
      (a b : Action) (c d : Cond) (actions rest : Actions)
      → cond_truth v d ≡ cond_truth v c
      → action_truth v rest a ≡ action_truth v actions a
      → action_truth v ((b, d) ∷ rest) a ≡ action_truth v ((b, c) ∷ actions) a
  unfolding get_action
  one_more a b c d actions rest same others = elim (Bool-cases (action_eq b a)) [
    | inl e ↦ rw (e, get_action) same
    | inr e ↦ rw (e, get_action) others
  ]

  simplify_actions-truth :
      (a : Action) (actions : Actions) {out : Actions}
      → simplify_actions s preds actions ≡ ok out
      → ActionsBelow (length preds) actions
      → (action_truth v out a ≡ action_truth v actions a) × ActionsBelow (length preds) out
  unfolding simplify_actions get_action
  simplify_actions-truth a [] {out} h below =
      let eo : [] ≡ out = cc h in
      subst (λ x. (action_truth v x a ≡ false) × ActionsBelow (length preds) x) eo (refl, tt)
  simplify_actions-truth a ((b, c) ∷ actions) {out} h below =
      let (d, ed, h1) = >>=-eq-ok (simplify s preds c) _ h in
      let (rest, er, h2) = >>=-eq-ok (simplify_actions s preds actions) _ h1 in
      let (same, d_below) = simplified c ed below.0 in
      let (others, rest_below) = simplify_actions-truth a actions er below.1 in
      let eo : (b, d) ∷ rest ≡ out = cc h2 in
      subst
        (λ x.
          (action_truth v x a ≡ action_truth v ((b, c) ∷ actions) a)
          × ActionsBelow (length preds) x)
        eo (one_more a b c d actions rest same others, (d_below, rest_below))

  simplify_where-truth :
      (w : Option Cond) {out : Option Cond}
      → simplify_where s preds w ≡ ok out
      → OptionBelow (length preds) w
      → (where_truth v out ≡ where_truth v w) × OptionBelow (length preds) out
  unfolding simplify_where
  simplify_where-truth none {out} h below =
      let eo : none ≡ out = cc h in
      subst (λ x. (where_truth v x ≡ true) × OptionBelow (length preds) x) eo (refl, tt)
  simplify_where-truth (some c) {out} h below =
      let (d, ed, h1) = >>=-eq-ok (simplify s preds c) _ h in
      let eo : some d ≡ out = cc h1 in
      subst (λ x. (where_truth v x ≡ cond_truth v c) × OptionBelow (length preds) x) eo
        (simplified c ed below)

  generate_where-truth :
      (actions : Actions)
      → where_truth v (generate_where_from_rules actions)
        ≡ Prelude.not (action_truth v actions Action.skip)
  generate_where-truth actions = of_skip (get_action Action.skip actions)
    where
      of_skip :
          (o : Option Cond)
          → where_truth v (elim o [ none ↦ none | some c ↦ some (Cond.not c) ])
            ≡ Prelude.not (truth_of v o)
      of_skip none = refl
      of_skip (some c) = refl

  generate_where-below :
      (actions : Actions)
      → ActionsBelow (length preds) actions
      → OptionBelow (length preds) (generate_where_from_rules actions)
  generate_where-below actions h =
      of_skip (get_action Action.skip actions)
        (get_action-below (length preds) Action.skip actions h)
    where
      of_skip :
          (o : Option Cond)
          → OptionBelow (length preds) o
          → OptionBelow (length preds) (elim o [ none ↦ none | some c ↦ some (Cond.not c) ])
      of_skip none h = tt
      of_skip (some c) h = h

-- What the condition of a policy says, and how far its predicates reach.
abbrev pub KeepsUnskipped : Semantics → ArrowFunction → FilterPolicy → Type 0
KeepsUnskipped sem arrow policy =
    (where_truth (valuation sem policy.predicates policy.env) policy.where_conds
      ≡ Prelude.not (is_action Action.skip (run_region sem arrow.stmt_map arrow.regions)))
    × OptionBelow (length policy.predicates) policy.where_conds

abbrev policy_of : ArrowFunction → RulesBuilder → Option Cond → Str → FilterPolicy
policy_of arrow b conds code = record {
  where_conds = conds;
  predicates = b.predicates;
  env = b.env;
  js_code = code;
  params = arrow.params;
}

policy_of-KeepsUnskipped :
    (sem : Semantics) (s : Simplifier) (arrow : ArrowFunction) (b : RulesBuilder)
    (inferred actions : Actions) (conds : Option Cond) (code : Str)
    → IsTruthful sem
    → IsSimplifier s
    → length b.predicates ≤ s.max_terms
    → length b.predicates ≤ 256
    → infer_rules_from_region arrow.stmt_map arrow.regions Cond.holds empty_builder
      ≡ ok (inferred, b)
    → simplify_actions s b.predicates inferred ≡ ok actions
    → simplify_where s b.predicates (generate_where_from_rules actions) ≡ ok conds
    → KeepsUnskipped sem arrow (policy_of arrow b conds code)
policy_of-KeepsUnskipped sem s arrow b inferred actions conds code truthful correct fits few ei ea
      ew =
    let v = valuation sem b.predicates b.env in
    let literals = valuation-LiteralsHold sem b.predicates b.env truthful in
    let below = infer_rules-ActionsBelow sem arrow.stmt_map arrow.regions inferred b ei in
    let returned =
      infer_rules-is_action sem arrow.stmt_map arrow.regions Action.skip inferred b ei in
    let (same, below_a) =
      simplify_actions-truth s b.predicates v correct fits few literals Action.skip inferred ea
        below in
    let below_w = generate_where-below s b.predicates v correct fits few literals actions below_a in
    let (same_w, below_c) =
      simplify_where-truth s b.predicates v correct fits few literals
        (generate_where_from_rules actions) ew below_w in
    let negated = generate_where-truth s b.predicates v correct fits few literals actions in
    (same_w ∙ negated ∙ ap Prelude.not (same ∙ returned), below_c)

-- With a simplifier that keeps to its documentation, JavaScript in which Booleans are what they say,
-- and no more predicates than the simplifier works for and a `u8` counts: if a policy is made of an
-- arrow function, its condition is true, with the predicates valued as JavaScript values the tests,
-- exactly if running the function does not return `Action.Skip`; it names only the policy's predicates.
pub from_arrow-KeepsUnskipped :
    (sem : Semantics) (s : Simplifier) (arrow : ArrowFunction) (policy : FilterPolicy)
    → IsTruthful sem
    → IsSimplifier s
    → from_arrow s arrow ≡ ok policy
    → length policy.predicates ≤ s.max_terms
    → length policy.predicates ≤ 256
    → KeepsUnskipped sem arrow policy
unfolding from_arrow
from_arrow-KeepsUnskipped sem s arrow policy truthful correct h fits few =
    let ((inferred, b), ei, h1) =
      >>=-eq-ok (infer_rules_from_region arrow.stmt_map arrow.regions Cond.holds empty_builder) _
        h in
    let (actions, ea, h2) = >>=-eq-ok (simplify_actions s b.predicates inferred) _ h1 in
    let (conds, ew, h3) =
      >>=-eq-ok (simplify_where s b.predicates (generate_where_from_rules actions)) _ h2 in
    let (code, ec, h4) = >>=-eq-ok (ok_or arrow.code emit_failed) _ h3 in
    let eo : policy_of arrow b conds code ≡ policy = cc h4 in
    let fits_b = subst (λ p. length (FilterPolicy.predicates p) ≤ s.max_terms) (sym eo) fits in
    let few_b = subst (λ p. length (FilterPolicy.predicates p) ≤ 256) (sym eo) few in
    subst (KeepsUnskipped sem arrow) eo (
      policy_of-KeepsUnskipped sem s arrow b inferred actions conds code truthful correct fits_b
        few_b ei ea ew)
