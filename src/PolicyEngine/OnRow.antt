-- ===== src/PolicyEngine/OnRow.antt =====
-- server/src/policy: what the predicates of a read policy mean for a request and a row, and that the
-- expression of the policy means the same.
use chiselstrike.PolicyEngine.Known.{known, eval-known}
use chiselstrike.Prelude.{
  ℕ, suc, ◌≤◌, Str, Bool, Option, none, some, [], ◌∷◌, length, Result, ok, >>=-eq-ok, ◌≡◌, refl,
  sym, ap, ap₂, ◌∙◌, subst, get_elem?,
}
use chiselstrike.Json.{Json}
use chiselstrike.Expr.{Expr, Value}
use chiselstrike.Expr.Eval.{Row, truth, of_bool, of_truth, truth_of, negate}
use chiselstrike.Filter.Meaning.{literal}
use chiselstrike.PolicyCompiler.{LogicOp, VarId, Predicate, Predicates, Cond, Simplifier}
use chiselstrike.PolicyCompiler.Simplify.{cond_truth, PredicatesBelow, IsSimplifier}
use chiselstrike.PolicyCompiler.Vars.{Environment}
use chiselstrike.PolicyCompiler.Vars.Meaning.{opt_map, opt_map2}
use chiselstrike.PolicyEngine.{
  EngineError, Boa, JsonResolver, var_to_value, eval_bin, eval_bin_lit, eval_not, eval_var, eval,
  maybe_value, ReadPolicy, eval_all, eval_read_policy_expr,
}
use chiselstrike.PolicyEngine.Translate.{AllDecided, eval_read_policy_expr-evaluated}
use chiselstrike.PolicyEngine.RowValue.{row_op, variable_on_row, value_on_row, IsTruth}

abbrev pub known_or : Option Json → Option Value → Option Value
known_or none other = other
known_or (some j) other = some (literal j)

module _ (boa : Boa) (r : JsonResolver) (env : Environment) (row : Row) (entity : Str) where
  -- The value of a predicate for the request and on the row: what the request gives, or else what
  -- the database computes from the values of its parts.
  unfoldable pub on_row : Predicate → Option Value
  unfolding known
  on_row (Predicate.bin op a b) =
      let here = opt_map2 (row_op row op) (on_row a) (on_row b) in
      known_or (known boa r env (Predicate.bin op a b)) here
  on_row (Predicate.not a) =
      let here = opt_map (λ x. of_truth (negate (truth_of row x))) (on_row a) in
      known_or (known boa r env (Predicate.not a)) here
  on_row (Predicate.lit j) = some (literal j)
  on_row (Predicate.var id) =
      known_or (known boa r env (Predicate.var id))
        (variable_on_row row entity env (get_elem? env id))

  literal_or :
      (q : Predicate) (k : Option Json) (other : Option Value)
      → maybe_value q ≡ k
      → (maybe_value q ≡ none → value_on_row row entity env q ≡ other)
      → value_on_row row entity env q ≡ known_or k other
  unfolding value_on_row
  literal_or (Predicate.lit j) k other h f = ap (λ x. known_or x other) h
  literal_or (Predicate.bin op a b) k other h f = f refl ∙ ap (λ x. known_or x other) h
  literal_or (Predicate.not a) k other h f = f refl ∙ ap (λ x. known_or x other) h
  literal_or (Predicate.var id) k other h f = f refl ∙ ap (λ x. known_or x other) h

  same_value :
      {p q : Predicate}
      → ◌≡◌ {A = Result EngineError Predicate} (ok p) (ok q)
      → value_on_row row entity env q ≡ value_on_row row entity env p
  same_value {p} {q} h = let same : p ≡ q = cc h in ap (value_on_row row entity env) (sym same)

  eval_bin-value_on_row :
      (op : LogicOp) (l m : Predicate) {q : Predicate}
      → eval_bin boa op l m ≡ ok q
      → maybe_value q ≡ none
      → value_on_row row entity env q
        ≡ opt_map2 (row_op row op) (value_on_row row entity env l) (value_on_row row entity env m)
  unfolding eval_bin value_on_row
  eval_bin-value_on_row op (Predicate.lit x) (Predicate.lit y) {q} h n =
      let (z, ez, h1) = >>=-eq-ok (eval_bin_lit boa op x y) _ h in
      let same : Predicate.lit z ≡ q = cc h1 in absurd (no_literal z (ap maybe_value same ∙ n))
    where
      no_literal : (z : Json) → ◌≡◌ {A = Option Json} (some z) none → ⊥
      no_literal z e = cc e
  eval_bin-value_on_row op (Predicate.lit x) (Predicate.bin o a b) h n = same_value h
  eval_bin-value_on_row op (Predicate.lit x) (Predicate.not a) h n = same_value h
  eval_bin-value_on_row op (Predicate.lit x) (Predicate.var id) h n = same_value h
  eval_bin-value_on_row op (Predicate.bin o a b) m h n = same_value h
  eval_bin-value_on_row op (Predicate.not a) m h n = same_value h
  eval_bin-value_on_row op (Predicate.var id) m h n = same_value h

  eval_not-value_on_row :
      (p : Predicate)
      → maybe_value (eval_not boa p) ≡ none
      → value_on_row row entity env (eval_not boa p)
        ≡ opt_map (λ x. of_truth (negate (truth_of row x))) (value_on_row row entity env p)
  unfolding eval_not value_on_row
  eval_not-value_on_row (Predicate.lit x) n = cc n
  eval_not-value_on_row (Predicate.bin op a b) n = refl
  eval_not-value_on_row (Predicate.not a) n = refl
  eval_not-value_on_row (Predicate.var id) n = refl

  eval_var-value_on_row :
      (id : VarId) (o : Option Json)
      → maybe_value (eval_var id o) ≡ none
      → value_on_row row entity env (eval_var id o)
        ≡ variable_on_row row entity env (get_elem? env id)
  unfolding value_on_row
  eval_var-value_on_row id none n = refl
  eval_var-value_on_row id (some y) n = cc n

  -- Evaluation for the request keeps the value of a predicate on the row.
  eval-on_row :
      (p : Predicate) {q : Predicate}
      → eval boa r env p ≡ ok q
      → value_on_row row entity env q ≡ on_row p
  unfolding eval on_row value_on_row
  eval-on_row (Predicate.bin op a b) {q} h =
      let (l, el, h1) = >>=-eq-ok (eval boa r env a) _ h in
      let (m, em, h2) = >>=-eq-ok (eval boa r env b) _ h1 in
      literal_or q (known boa r env (Predicate.bin op a b)) _
        (eval-known boa r env (Predicate.bin op a b) h)
        (λ n.
          eval_bin-value_on_row op l m h2 n
          ∙ ap₂ (opt_map2 (row_op row op)) (eval-on_row a el) (eval-on_row b em))
  eval-on_row (Predicate.not a) {q} h =
      let (l, el, h1) = >>=-eq-ok (eval boa r env a) _ h in
      let same : eval_not boa l ≡ q = cc h1 in
      literal_or q (known boa r env (Predicate.not a)) _ (eval-known boa r env (Predicate.not a) h)
        (λ n.
          ap (value_on_row row entity env) (sym same)
          ∙ eval_not-value_on_row l (ap maybe_value same ∙ n)
          ∙ ap (opt_map (λ x. of_truth (negate (truth_of row x)))) (eval-on_row a el))
  eval-on_row (Predicate.lit j) h = same_value h
  eval-on_row (Predicate.var id) {q} h =
      let (o, eo, h1) = >>=-eq-ok (var_to_value r env id) _ h in
      let same : eval_var id o ≡ q = cc h1 in
      literal_or q (known boa r env (Predicate.var id)) _
        (eval-known boa r env (Predicate.var id) h)
        (λ n.
          ap (value_on_row row entity env) (sym same)
          ∙ eval_var-value_on_row id o (ap maybe_value same ∙ n))

  -- Every predicate that has a value for the request and on the row is true or false, as the
  -- Booleans say.
  abbrev pub AreTruths : (ℕ → Bool) → ℕ → Predicates → Type 0
  AreTruths v i [] = Unit
  AreTruths v i (p ∷ ps) = IsTruth row (on_row p) (v i) × AreTruths v (suc i) ps

  pub eval_all-AllDecided :
      (v : ℕ → Bool) (i : ℕ) (ps : Predicates) {qs : Predicates}
      → eval_all boa r env ps ≡ ok qs
      → AreTruths v i ps
      → AllDecided row entity env v i qs
  unfolding eval_all
  eval_all-AllDecided v i [] {qs} h k =
      let same : [] ≡ qs = cc h in subst (AllDecided row entity env v i) same tt
  eval_all-AllDecided v i (p ∷ ps) {qs} h k =
      let (q, eq, h1) = >>=-eq-ok (eval boa r env p) _ h in
      let (rest, er, h2) = >>=-eq-ok (eval_all boa r env ps) _ h1 in
      let same : q ∷ rest ≡ qs = cc h2 in
      subst (AllDecided row entity env v i) same (
        subst (λ o. IsTruth row o (v i)) (sym (eval-on_row p eq)) k.0,
        eval_all-AllDecided v (suc i) ps er k.1,
      )

-- The value of a predicate for a request and on a row is what JavaScript computes from the request
-- alone or, where that is not enough, what the database computes from the values of the parts. With a
-- simplifier that keeps to its documentation, for no more predicates than it works for and a `u8`
-- counts, and for a request and on a row for which the policy's predicates are true or false: if a
-- read policy becomes an expression, the expression is as true on the row as the policy's condition is
-- with the truth values of its predicates.
pub eval_read_policy_expr-truth :
    (boa : Boa) (s : Simplifier) (policy : ReadPolicy) (ctx : Json) (row : Row) (v : ℕ → Bool)
    (preds : Predicates) (filter : Cond) (e : Expr)
    → IsSimplifier s
    → policy.filter ≡ some filter
    → eval_all boa
        (record { name = policy.ctx_param_name; value = ctx })
        policy.env
        policy.predicates
      ≡ ok preds
    → length preds ≤ s.max_terms
    → length preds ≤ 256
    → PredicatesBelow (length preds) filter
    → AreTruths boa
        (record { name = policy.ctx_param_name; value = ctx })
        policy.env
        row
        policy.entity_param_name
        v
        0
        policy.predicates
    → eval_read_policy_expr boa s policy ctx ≡ ok (some e)
    → truth row e ≡ of_bool (cond_truth v filter)
eval_read_policy_expr-truth boa s policy ctx row v preds filter e correct ef ep fits few below
      truths h =
    eval_read_policy_expr-evaluated boa s policy ctx row v preds filter e correct ef ep fits few
      below
      (eval_all-AllDecided boa (record { name = policy.ctx_param_name; value = ctx }) policy.env row
        policy.entity_param_name v 0 policy.predicates ep truths)
      h
