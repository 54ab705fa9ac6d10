-- ===== src/PolicyEngine/Translate.antt =====
-- server/src/policy/engine.rs: conditions and read policies as query expressions on a row.
use chiselstrike.PolicyEngine.RowValue.{
  value_on_row, IsTruth, lift-eq-ok, predicate_to_expr-value_on_row,
}
use chiselstrike.Prelude.{
  ℕ, zero, suc, ◌+◌, ◌≤◌, Str, Bool, true, false, ◌&&◌, ◌||◌, none, some, [], ◌∷◌, length,
  get_elem?, ok, ◌>>=◌, >>=-eq-ok, ok_or-eq-ok, ◌≡◌, refl, sym, ap, ◌∙◌, subst, arith, ap₂,
}
use chiselstrike.Prelude
use chiselstrike.Json.{Json}
use chiselstrike.Expr.{Expr}
use chiselstrike.Expr.Eval.{
  both, either, negate, of_bool, Row, truth, truth-and, truth-or, truth-not, truth-bool,
}
use chiselstrike.PolicyCompiler.{
  Predicate, Predicates, Cond, Simplifier, simplify, get_predicate, invalid_predicate_id,
}
use chiselstrike.PolicyCompiler.Simplify.{
  cond_truth, PredicatesBelow, IsSimplifier, IsLiteral, LiteralsHold, simplify_correct,
}
use chiselstrike.PolicyCompiler.Vars.{Environment}
use chiselstrike.PolicyEngine.{
  lift, Boa, predicate_to_expr, cond_to_expr, ReadPolicy, eval_all, filter_to_expr,
  eval_read_policy_expr,
}

of_bool-and : (a b : Bool) → both (of_bool a) (of_bool b) ≡ of_bool (a && b)
of_bool-and a b = ground arith

of_bool-or : (a b : Bool) → either (of_bool a) (of_bool b) ≡ of_bool (a || b)
of_bool-or a b = ground arith

of_bool-not : (a : Bool) → negate (of_bool a) ≡ of_bool (Prelude.not a)
of_bool-not a = ground arith

of_bool-injective : (a b : Bool) → of_bool a ≡ of_bool b → a ≡ b
of_bool-injective a b h = ground (arith, h)

-- The predicate is true or false on the row, as the Boolean says.
abbrev pub IsDecided : Row → Str → Environment → Predicate → Bool → Type 0
IsDecided r entity env p b = IsTruth r (value_on_row r entity env p) b

abbrev pub AllDecided : Row → Str → Environment → (ℕ → Bool) → ℕ → Predicates → Type 0
AllDecided r entity env v i [] = Unit
AllDecided r entity env v i (p ∷ ps) =
    IsDecided r entity env p (v i) × AllDecided r entity env v (suc i) ps

module _ (r : Row) (entity : Str) (env : Environment) (v : ℕ → Bool) where
  AllDecided-get :
      (i : ℕ) (ps : Predicates) (id : ℕ) {p : Predicate}
      → AllDecided r entity env v i ps
      → get_elem? ps id ≡ some p
      → IsDecided r entity env p (v (id + i))
  AllDecided-get i [] id h e = cc
  AllDecided-get i (q ∷ qs) zero {p} h e =
      let ep : q ≡ p = cc e in
      subst (λ n. IsDecided r entity env p (v n)) (omega arith)
        (subst (λ x. IsDecided r entity env x (v i)) ep h.0)
  AllDecided-get i (q ∷ qs) (suc id) {p} h e =
      subst (λ n. IsDecided r entity env p (v n)) (omega arith) (AllDecided-get (suc i) qs id h.1 e)

  decided_truth :
      (p : Predicate) (x : Bool) {e : Expr}
      → IsDecided r entity env p x
      → predicate_to_expr entity env p ≡ ok e
      → truth r e ≡ of_bool x
  unfolding truth
  decided_truth p x h k =
      subst (λ o. IsTruth r o x) (predicate_to_expr-value_on_row r entity env p k) h

  IsDecided-IsLiteral : (p : Predicate) (x : Bool) → IsDecided r entity env p x → IsLiteral p x
  unfolding value_on_row truth
  IsDecided-IsLiteral (Predicate.lit (Json.bool b)) x h = of_bool-injective x b (sym h)
  IsDecided-IsLiteral (Predicate.lit Json.null) x h = tt
  IsDecided-IsLiteral (Predicate.lit (Json.number n)) x h = tt
  IsDecided-IsLiteral (Predicate.lit (Json.string s)) x h = tt
  IsDecided-IsLiteral (Predicate.lit (Json.array items)) x h = tt
  IsDecided-IsLiteral (Predicate.lit (Json.object members)) x h = tt
  IsDecided-IsLiteral (Predicate.bin op l r') x h = tt
  IsDecided-IsLiteral (Predicate.not p) x h = tt
  IsDecided-IsLiteral (Predicate.var id) x h = tt

  AllDecided-LiteralsHold :
      (i : ℕ) (ps : Predicates) → AllDecided r entity env v i ps → LiteralsHold v i ps
  AllDecided-LiteralsHold i [] h = tt
  AllDecided-LiteralsHold i (p ∷ ps) h =
      (IsDecided-IsLiteral p (v i) h.0, AllDecided-LiteralsHold (suc i) ps h.1)

  -- If a condition becomes an expression and its predicates are decided on the row, the expression
  -- has the truth of the condition.
  pub cond_to_expr-truth :
      (preds : Predicates) (c : Cond) {e : Expr}
      → AllDecided r entity env v 0 preds
      → cond_to_expr preds entity env c ≡ ok e
      → truth r e ≡ of_bool (cond_truth v c)
  unfolding cond_to_expr
  cond_to_expr-truth preds (Cond.and a b) h k =
      let (right, er, k1) = >>=-eq-ok (cond_to_expr preds entity env b) _ k in
      let (left, el, k2) = >>=-eq-ok (cond_to_expr preds entity env a) _ k1 in
      subst (λ x. truth r x ≡ of_bool (cond_truth v a && cond_truth v b)) (cc k2)
        (truth-and r left right
          ∙ ap₂ both (cond_to_expr-truth preds a h el) (cond_to_expr-truth preds b h er)
          ∙ of_bool-and (cond_truth v a) (cond_truth v b))
  cond_to_expr-truth preds (Cond.or a b) h k =
      let (right, er, k1) = >>=-eq-ok (cond_to_expr preds entity env b) _ k in
      let (left, el, k2) = >>=-eq-ok (cond_to_expr preds entity env a) _ k1 in
      subst (λ x. truth r x ≡ of_bool (cond_truth v a || cond_truth v b)) (cc k2)
        (truth-or r left right
          ∙ ap₂ either (cond_to_expr-truth preds a h el) (cond_to_expr-truth preds b h er)
          ∙ of_bool-or (cond_truth v a) (cond_truth v b))
  cond_to_expr-truth preds (Cond.not a) h k =
      let (d, ed, k1) = >>=-eq-ok (cond_to_expr preds entity env a) _ k in
      subst (λ x. truth r x ≡ of_bool (Prelude.not (cond_truth v a))) (cc k1)
        (truth-not r d ∙ ap negate (cond_to_expr-truth preds a h ed) ∙ of_bool-not (cond_truth v a))
  cond_to_expr-truth preds (Cond.predicate id) h k =
      let (p, ep, k1) = >>=-eq-ok (lift (get_predicate preds id)) _ k in
      let found =
        ok_or-eq-ok (get_elem? preds id) invalid_predicate_id
          (lift-eq-ok (get_predicate preds id) ep) in
      let same : id + 0 ≡ id = omega arith in
      decided_truth p (v id)
        (subst (λ n. IsDecided r entity env p (v n)) same (AllDecided-get 0 preds id h found)) k1
  cond_to_expr-truth preds Cond.holds h k =
      subst (λ x. truth r x ≡ of_bool true) (cc k) (truth-bool r true)
  cond_to_expr-truth preds Cond.fails h k =
      subst (λ x. truth r x ≡ of_bool false) (cc k) (truth-bool r false)

filter_to_expr-truth :
    (boa : Boa) (s : Simplifier) (policy : ReadPolicy) (ctx : Json) (r : Row) (v : ℕ → Bool)
    (preds : Predicates) (filter : Cond) {e : Expr}
    → IsSimplifier s
    → eval_all boa
        (record { name = policy.ctx_param_name; value = ctx })
        policy.env
        policy.predicates
      ≡ ok preds
    → length preds ≤ s.max_terms
    → length preds ≤ 256
    → PredicatesBelow (length preds) filter
    → AllDecided r policy.entity_param_name policy.env v 0 preds
    → filter_to_expr boa s policy ctx filter ≡ ok e
    → truth r e ≡ of_bool (cond_truth v filter)
unfolding filter_to_expr
filter_to_expr-truth boa s policy ctx r v preds filter {e} correct ep fits few below decided h =
    let literals =
      AllDecided-LiteralsHold r policy.entity_param_name policy.env v 0 preds decided in
    let (out, eo, same, out_below) =
      simplify_correct s preds v filter correct fits few literals below in
    let here : cond_to_expr preds policy.entity_param_name policy.env out ≡ ok e =
      sym (evaluated out eo) ∙ h in
    cond_to_expr-truth r policy.entity_param_name policy.env v preds out decided here
    ∙ ap of_bool same
  where
    evaluated :
        (out : Cond)
        → simplify s preds filter ≡ ok out
        → filter_to_expr boa s policy ctx filter
          ≡ cond_to_expr preds policy.entity_param_name policy.env out
    evaluated out eo = rw (filter_to_expr, ep, eo) refl

-- With a simplifier that keeps to its documentation, for no more predicates than it works for and a
-- `u8` counts, and on a row on which the policy's predicates, evaluated for the request, are true or
-- false: if a read policy becomes an expression, the expression is as true on the row as the policy's
-- condition is where its predicates have these truth values.
pub eval_read_policy_expr-evaluated :
    (boa : Boa) (s : Simplifier) (policy : ReadPolicy) (ctx : Json) (r : Row) (v : ℕ → Bool)
    (preds : Predicates) (filter : Cond) (e : Expr)
    → IsSimplifier s
    → policy.filter ≡ some filter
    → eval_all boa
        (record { name = policy.ctx_param_name; value = ctx })
        policy.env
        policy.predicates
      ≡ ok preds
    → length preds ≤ s.max_terms
    → length preds ≤ 256
    → PredicatesBelow (length preds) filter
    → AllDecided r policy.entity_param_name policy.env v 0 preds
    → eval_read_policy_expr boa s policy ctx ≡ ok (some e)
    → truth r e ≡ of_bool (cond_truth v filter)
unfolding eval_read_policy_expr
eval_read_policy_expr-evaluated boa s policy ctx r v preds filter e correct ef ep fits few below
      decided h =
    let h1 : (elim (some filter) [
      | none ↦ ok none
      | some f ↦ (filter_to_expr boa s policy ctx f >>= λ d. ok (some d))
    ])
        ≡ ok (some e) =
      subst
        (λ o.
          (elim o [
            | none ↦ ok none
            | some f ↦ (filter_to_expr boa s policy ctx f >>= λ d. ok (some d))
          ])
          ≡ ok (some e))
        ef h in
    let (d, ed, h2) = >>=-eq-ok (filter_to_expr boa s policy ctx filter) _ h1 in
    subst (λ x. truth r x ≡ of_bool (cond_truth v filter)) (cc h2)
      (filter_to_expr-truth boa s policy ctx r v preds filter correct ep fits few below decided ed)
