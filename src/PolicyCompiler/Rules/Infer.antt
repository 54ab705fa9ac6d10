-- ===== src/PolicyCompiler/Rules/Infer.antt =====
-- chiselc/src/policies.rs: the rules that are inferred from a policy function, against its runs.
use chiselstrike.PolicyCompiler.Rules.Run.{
  truth, returned_action-return_value, run_test, run_region,
}
use chiselstrike.Prelude.{
  ℕ, ◌≤◌, Bool, true, false, ◌&&◌, ◌||◌, Option, none, some, List, [], ◌∷◌, ◌++◌, length,
  length-append, get_elem?, ok, >>=-eq-ok, ok_or-eq-ok, ◌≡◌, refl, sym, ap, ◌∙◌, subst, arith,
  append_assoc, append-nil, if◌then◌else◌,
}
use chiselstrike.Prelude
use chiselstrike.PolicyCompiler.{Predicate, Predicates, Cond, unknown_statement}
use chiselstrike.PolicyCompiler.Mapping.{get_elem?-append, get_elem?-last}
use chiselstrike.PolicyCompiler.Simplify.{cond_truth, PredicatesBelow}
use chiselstrike.PolicyCompiler.Vars.{Environment, JsExpr, parse_expr}
use chiselstrike.PolicyCompiler.Vars.Meaning.{
  Semantics, js_value, pred_value, IsOrdered, pred_value-append,
}
use chiselstrike.PolicyCompiler.Vars.Parse.{parse_expr-HasValue}
use chiselstrike.PolicyCompiler.Rules.{
  Idx, Region, Stmt, StmtMap, Action, action_eq, Actions, get_action, insert_action, merge,
  RulesBuilder, stmt_at, insert_test, test_of, extract_cond_from_test, returned_action,
  infer_basic_block, infer_rules_from_region,
}
use chiselstrike.PolicyCompiler.Rules.Merge.{
  action_truth, ActionsBelow, get-insert_action, merge-action_truth, insert_action-below,
  merge-below, truth_of,
}

-- Whether the action is the one returned.
abbrev pub is_action : Action → Option Action → Bool
is_action a none = false
is_action a (some b) = action_eq b a

-- The truth of the predicates of a builder.
abbrev pub valuation : Semantics → Predicates → Environment → ℕ → Bool
valuation sem preds env id = elim (get_elem? preds id) [
  | none ↦ false
  | some p ↦ truth sem (pred_value sem env p)
]

abbrev Later : RulesBuilder → RulesBuilder → Type 0
Later b c =
    ((ext : Predicates) × (c.predicates ≡ b.predicates ++ ext))
    × ((ext : Environment) × (c.env ≡ b.env ++ ext))

Later-refl : (b : RulesBuilder) → Later b b
Later-refl b = (([], sym (append-nil b.predicates)), ([], sym (append-nil b.env)))

Later-trans : (b c d : RulesBuilder) → Later b c → Later c d → Later b d
Later-trans b c d ((p, ep), (e, ee)) ((q, eq), (f, ef)) = (
  (p ++ q, eq ∙ ap (λ x. x ++ q) ep ∙ append_assoc b.predicates p q),
  (e ++ f, ef ∙ ap (λ x. x ++ f) ee ∙ append_assoc b.env e f),
)

Later-length : (b c : RulesBuilder) → Later b c → length b.predicates ≤ length c.predicates
Later-length b c ((ext, e), env) = rw e (omega (arith, length-append b.predicates ext))

PredicatesBelow-more : (m n : ℕ) (c : Cond) → m ≤ n → PredicatesBelow m c → PredicatesBelow n c
PredicatesBelow-more m n (Cond.and l r) le (hl, hr) =
    (PredicatesBelow-more m n l le hl, PredicatesBelow-more m n r le hr)
PredicatesBelow-more m n (Cond.or l r) le (hl, hr) =
    (PredicatesBelow-more m n l le hl, PredicatesBelow-more m n r le hr)
PredicatesBelow-more m n (Cond.not c) le h = PredicatesBelow-more m n c le h
PredicatesBelow-more m n (Cond.predicate id) le h = omega (arith, le, h)
PredicatesBelow-more m n Cond.holds le h = tt
PredicatesBelow-more m n Cond.fails le h = tt

ActionsBelow-more : (m n : ℕ) (acts : Actions) → m ≤ n → ActionsBelow m acts → ActionsBelow n acts
ActionsBelow-more m n [] le h = tt
ActionsBelow-more m n ((a, c) ∷ acts) le h =
    (PredicatesBelow-more m n c le h.0, ActionsBelow-more m n acts le h.1)

module _ (sem : Semantics) where
  -- A test's condition is the truth of its expression, and stays so in all later builders.
  Tested : Bool → Cond → RulesBuilder → Type 0
  Tested x c b =
      (d : RulesBuilder) → Later b d → cond_truth (valuation sem d.predicates d.env) c ≡ x

  TestedOut : Bool → RulesBuilder → Cond × RulesBuilder → Type 0
  TestedOut x b out =
      IsOrdered 0 (RulesBuilder.env out.1)
      × Later b out.1
      × PredicatesBelow (length (RulesBuilder.predicates out.1)) out.0
      × Tested x out.0 out.1

  -- The predicate that was added last has its value in all later builders.
  last-Tested :
      (p : Predicate) (b : RulesBuilder) (env : Environment) (x : sem.V)
      → pred_value sem env p ≡ some x
      → Tested
          (sem.truthy x)
          (Cond.predicate (length b.predicates))
          (record { predicates = b.predicates ++ p ∷ []; env = env })
  unfolding Tested
  last-Tested p b env x e d ((q, eq), (f, ef)) =
      let found : get_elem? d.predicates (length b.predicates) ≡ some p = rw eq (
        get_elem?-append (b.predicates ++ p ∷ []) q (length b.predicates)
          (get_elem?-last b.predicates p)) in
      let value : pred_value sem d.env p ≡ some x = rw ef (pred_value-append sem env f p e) in
      rw (valuation, found, value) refl

  insert_test-TestedOut :
      (e : JsExpr) (b : RulesBuilder) {out : Cond × RulesBuilder}
      → IsOrdered 0 b.env
      → insert_test e b ≡ ok out
      → TestedOut (truth sem (js_value sem e)) b out
  unfolding insert_test TestedOut
  insert_test-TestedOut e b {out} h k =
      let ((p, env), ep, k1) = >>=-eq-ok (parse_expr e b.env) _ k in
      let (ordered, longer, (x, ex, px)) = parse_expr-HasValue sem e b.env h ep in
      let eo : (
        Cond.predicate (length b.predicates),
        record { predicates = b.predicates ++ p ∷ []; env = env },
      )
          ≡ out =
        cc k1 in
      subst (TestedOut (truth sem (js_value sem e)) b) eo (
        ordered,
        ((p ∷ [], refl), longer),
        omega (arith, length-append b.predicates (p ∷ [])),
        subst
            (λ y.
              Tested y (Cond.predicate (length b.predicates))
                (record { predicates = b.predicates ++ p ∷ []; env = env }))
            (sym (ap (truth sem) ex)) (last-Tested p b env x px),
      )

  test_of-TestedOut :
      (t : Stmt) (b : RulesBuilder) {out : Cond × RulesBuilder}
      → IsOrdered 0 b.env
      → test_of t b ≡ ok out
      → TestedOut (run_test sem (some t)) b out
  unfolding test_of
  test_of-TestedOut (Stmt.conditional e) b h k = insert_test-TestedOut e b h k
  test_of-TestedOut (Stmt.returned r) b h k = cc
  test_of-TestedOut Stmt.other b h k = cc

truth_of-if :
    (v : ℕ → Bool) (b : Bool) (c : Cond)
    → truth_of v (if b then some c else none) ≡ (cond_truth v c && b)
truth_of-if v true c = ground arith
truth_of-if v false c = ground arith

-- The two ways of a test.
choose :
    (a : Action) (b : Bool) (x y : Option Action) (held : Bool) {test p q : Bool}
    → p ≡ ((test && held) && is_action a x)
    → q ≡ ((Prelude.not test && held) && is_action a y)
    → test ≡ b
    → (p || q) ≡ (held && is_action a (if b then x else y))
choose a true x y held ep eq e = ground (arith, ep, eq, e)
choose a false x y held ep eq e = ground (arith, ep, eq, e)

module _ (sem : Semantics) (stmts : StmtMap) where
  -- What is inferred from a region: in all later builders, the condition of every action says that
  -- the region is reached and returns the action.
  InferredOut : Region → Cond → RulesBuilder → Actions × RulesBuilder → Type 0
  InferredOut region held b out =
      IsOrdered 0 (RulesBuilder.env out.1)
      × Later b out.1
      × ActionsBelow (length (RulesBuilder.predicates out.1)) out.0
      × ((d : RulesBuilder) (a : Action)
          → Later out.1 d
          → action_truth (valuation sem d.predicates d.env) out.0 a ≡ (
              cond_truth (valuation sem d.predicates d.env) held
              && is_action a (run_region sem stmts region)))

  one_action-InferredOut :
      (region : Region) (r : Action) (held : Cond) (b : RulesBuilder)
      → run_region sem stmts region ≡ some r
      → IsOrdered 0 b.env
      → PredicatesBelow (length b.predicates) held
      → InferredOut region held b (insert_action r held [], b)
  unfolding InferredOut get_action
  one_action-InferredOut region r held b e h below = (
    h,
    Later-refl b,
    insert_action-below (length b.predicates) r held [] below tt,
    λ d a later.
        rw (e, get-insert_action a r held [])
          (truth_of-if (valuation sem d.predicates d.env) (action_eq r a) held),
  )

  infer_basic_block-InferredOut :
      (is : List Idx) (held : Cond) (b : RulesBuilder) {actions : Actions}
      → infer_basic_block stmts is held ≡ ok actions
      → IsOrdered 0 b.env
      → PredicatesBelow (length b.predicates) held
      → InferredOut (Region.basic_block is) held b (actions, b)
  unfolding infer_basic_block stmt_at run_region
  infer_basic_block-InferredOut [] held b k h below =
      subst (λ acts. InferredOut (Region.basic_block []) held b (acts, b)) (cc k)
        (one_action-InferredOut (Region.basic_block []) Action.deny held b refl h below)
  infer_basic_block-InferredOut (i ∷ []) held b k h below =
      let (s, es, k1) = >>=-eq-ok (stmt_at stmts i) _ k in
      let (r, er, k2) = >>=-eq-ok (returned_action s) _ k1 in
      subst (λ acts. InferredOut (Region.basic_block (i ∷ [])) held b (acts, b)) (cc k2)
        (one_action-InferredOut (Region.basic_block (i ∷ [])) r held b
          (returns i s r (ok_or-eq-ok (stmts i) unknown_statement es) er) h below)
    where
      returns :
          (i : Idx) (s : Stmt) (r : Action)
          → stmts i ≡ some s
          → returned_action s ≡ ok r
          → run_region sem stmts (Region.basic_block (i ∷ [])) ≡ some r
      returns i s r es er = rw (es, returned_action-return_value s er, run_region) refl
  infer_basic_block-InferredOut (i ∷ j ∷ is) held b k h below = cc

  extract-TestedOut :
      (test : Region) (b : RulesBuilder) {out : Cond × RulesBuilder}
      → extract_cond_from_test stmts test b ≡ ok out
      → IsOrdered 0 b.env
      → (i : Idx) × (test ≡ Region.basic_block (i ∷ []))
        × TestedOut sem (run_test sem (stmts i)) b out
  unfolding extract_cond_from_test stmt_at
  extract-TestedOut (Region.basic_block []) b k h = cc
  extract-TestedOut (Region.basic_block (i ∷ [])) b {out} k h =
      let (s, es, k1) = >>=-eq-ok (stmt_at stmts i) _ k in
      let tested = test_of-TestedOut sem s b h k1 in
      (
        i,
        refl,
        subst (λ o. TestedOut sem (run_test sem o) b out)
            (sym (ok_or-eq-ok (stmts i) unknown_statement es)) tested,
      )
  extract-TestedOut (Region.basic_block (i ∷ j ∷ is)) b k h = cc
  extract-TestedOut (Region.seq first second) b k h = cc
  extract-TestedOut (Region.cond test cons alt) b k h = cc
  extract-TestedOut (Region.loop header body) b k h = cc

  inferred_parts :
      (region : Region) (held : Cond) (b : RulesBuilder) (out : Actions × RulesBuilder)
      → InferredOut region held b out
      → IsOrdered 0 (RulesBuilder.env out.1) × Later b out.1
  unfolding InferredOut
  inferred_parts region held b out h = (h.0, h.1)

  tested_parts :
      (x : Bool) (b : RulesBuilder) (out : Cond × RulesBuilder)
      → TestedOut sem x b out
      → IsOrdered 0 (RulesBuilder.env out.1)
        × Later b out.1
        × PredicatesBelow (length (RulesBuilder.predicates out.1)) out.0
  unfolding TestedOut
  tested_parts x b out h = (h.0, h.1, h.2)

  cond-InferredOut :
      (i : Idx) (cons alt : Region) (held t : Cond) (b b1 b2 b3 : RulesBuilder) (cr ar : Actions)
      → TestedOut sem (run_test sem (stmts i)) b (t, b1)
      → InferredOut cons (Cond.and t held) b1 (cr, b2)
      → InferredOut alt (Cond.and (Cond.not t) held) b2 (ar, b3)
      → InferredOut (Region.cond (Region.basic_block (i ∷ [])) cons alt) held b (merge cr ar, b3)
  unfolding InferredOut TestedOut Tested run_region
  cond-InferredOut i cons alt held t b b1 b2 b3 cr ar (o1, l1, bt, tested) (o2, l2, below2, rules2)
        (o3, l3, below3, rules3) =
      (
        o3,
        Later-trans b b1 b3 l1 (Later-trans b1 b2 b3 l2 l3),
        merge-below (length b3.predicates) cr ar
            (ActionsBelow-more _ _ cr (Later-length b2 b3 l3) below2) below3,
        λ d a later.
            let v = valuation sem d.predicates d.env in
            let c = rules2 d a (Later-trans b2 b3 d l3 later) in
            let e = rules3 d a later in
            let x = tested d (Later-trans b1 b2 d l2 (Later-trans b2 b3 d l3 later)) in
            merge-action_truth v a cr ar
            ∙ choose a (run_test sem (stmts i)) (run_region sem stmts cons)
                (run_region sem stmts alt) (cond_truth v held) c e x,
      )

  infer-InferredOut :
      (region : Region) (held : Cond) (b : RulesBuilder) {out : Actions × RulesBuilder}
      → infer_rules_from_region stmts region held b ≡ ok out
      → IsOrdered 0 b.env
      → PredicatesBelow (length b.predicates) held
      → InferredOut region held b out
  unfolding infer_rules_from_region
  infer-InferredOut (Region.cond test cons alt) held b {out} k h below =
      let ((t, b1), et, k1) = >>=-eq-ok (extract_cond_from_test stmts test b) _ k in
      let ((cr, b2), ec, k2) =
        >>=-eq-ok (infer_rules_from_region stmts cons (Cond.and t held) b1) _ k1 in
      let ((ar, b3), ea, k3) =
        >>=-eq-ok (infer_rules_from_region stmts alt (Cond.and (Cond.not t) held) b2) _ k2 in
      let (i, ei, tested) = extract-TestedOut test b et h in
      let (o1, l1, bt) = tested_parts (run_test sem (stmts i)) b (t, b1) tested in
      let below1 = PredicatesBelow-more _ _ held (Later-length b b1 l1) below in
      let first = infer-InferredOut cons (Cond.and t held) b1 ec o1 (bt, below1) in
      let (o2, l2) = inferred_parts cons (Cond.and t held) b1 (cr, b2) first in
      let le2 = Later-length b1 b2 l2 in
      let second =
        infer-InferredOut alt (Cond.and (Cond.not t) held) b2 ea o2
          (PredicatesBelow-more _ _ t le2 bt, PredicatesBelow-more _ _ held le2 below1) in
      let eo : (merge cr ar, b3) ≡ out = cc k3 in
      subst (InferredOut (Region.cond test cons alt) held b) eo (
        subst (λ r. InferredOut (Region.cond r cons alt) held b (merge cr ar, b3)) (sym ei)
          (cond-InferredOut i cons alt held t b b1 b2 b3 cr ar tested first second))
  infer-InferredOut (Region.seq first second) held b k h below = cc
  infer-InferredOut (Region.basic_block is) held b {out} k h below =
      let (actions, ea, k1) = >>=-eq-ok (infer_basic_block stmts is held) _ k in
      let eo : (actions, b) ≡ out = cc k1 in
      subst (InferredOut (Region.basic_block is) held b) eo
        (infer_basic_block-InferredOut is held b ea h below)
  infer-InferredOut (Region.loop header body) held b k h below = cc

abbrev pub empty_builder : RulesBuilder
empty_builder = record { predicates = []; env = [] }

-- If the rules of a function are inferred, then for every action, its condition is true, with the
-- predicates valued as JavaScript values the tests, exactly if running the function returns it; an
-- action without condition is never returned.
pub infer_rules-is_action :
    (sem : Semantics) (stmts : StmtMap) (region : Region) (a : Action) (actions : Actions)
    (b : RulesBuilder)
    → infer_rules_from_region stmts region Cond.holds empty_builder ≡ ok (actions, b)
    → action_truth (valuation sem b.predicates b.env) actions a
      ≡ is_action a (run_region sem stmts region)
unfolding InferredOut
infer_rules-is_action sem stmts region a actions b h =
    let (o, l, below, rules) =
      infer-InferredOut sem stmts region Cond.holds empty_builder h tt tt in
    rules b a (Later-refl b)

pub infer_rules-ActionsBelow :
    (sem : Semantics) (stmts : StmtMap) (region : Region) (actions : Actions) (b : RulesBuilder)
    → infer_rules_from_region stmts region Cond.holds empty_builder ≡ ok (actions, b)
    → ActionsBelow (length b.predicates) actions
unfolding InferredOut
infer_rules-ActionsBelow sem stmts region actions b h =
    let (o, l, below, rules) =
      infer-InferredOut sem stmts region Cond.holds empty_builder h tt tt in
    below
