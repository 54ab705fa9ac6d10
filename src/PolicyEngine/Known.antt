-- ===== src/PolicyEngine/Known.antt =====
-- server/src/policy/interpreter.rs: the values that a request gives to predicates, and that partial
-- evaluation finds them.
use chiselstrike.Prelude.{
  ℕ, suc, str_eq, Bool, true, false, zero, Option, none, some, length, Result, ok, >>=-eq-ok,
  ok_or-eq-ok, ◌≡◌, refl, sym, ap, ap₂, ◌∙◌, subst, if◌then◌else◌, get_elem?,
}
use chiselstrike.Json.{Json}
use chiselstrike.PolicyCompiler.{LogicOp, Var, VarId, Predicate, unwrap_on_none}
use chiselstrike.PolicyCompiler.Vars.{Environment, get_var}
use chiselstrike.PolicyCompiler.Vars.Meaning.{Semantics, opt_map, opt_map2, value_from, var_value}
use chiselstrike.PolicyEngine.{
  EngineError, lift, Boa, JsonResolver, json_get, get_value, var_to_value, eval_bin, eval_bin_lit,
  eval_not, eval_var, eval, maybe_value,
}
use chiselstrike.PolicyEngine.Eval.{op_value, as_bool, eval_bin_lit-value}
use chiselstrike.PolicyEngine.RowValue.{lift-eq-ok}

-- JavaScript where only the request has a value: an expression on other variables has none.
abbrev pub request_only : Boa → JsonResolver → Semantics
request_only boa r = record {
  V = Option Json;
  ident = λ s. if str_eq r.name s then some r.value else none;
  member = λ x prop. opt_map (λ j. json_get j prop) x;
  lit = λ j. some j;
  bin = λ op. opt_map2 (λ x y. Json.bool (op_value boa op x y));
  bang = opt_map (λ x. Json.bool (boa.not x));
  truthy = λ x. elim x [ none ↦ as_bool Json.null | some j ↦ as_bool j ];
}

abbrev join : {A : Type 0} → Option (Option A) → Option A
join none = none
join (some o) = o

module _ (boa : Boa) (r : JsonResolver) (env : Environment) where
  abbrev only : Semantics
  only = request_only boa r

  -- The value that the request gives a predicate, if it does.
  unfoldable pub known : Predicate → Option Json
  known (Predicate.bin op a b) =
      opt_map2 (λ x y. Json.bool (op_value boa op x y)) (known a) (known b)
  known (Predicate.not a) = opt_map (λ x. Json.bool (boa.not x)) (known a)
  known (Predicate.lit j) = some j
  known (Predicate.var id) = join (var_value only (suc (length env)) env id)

  get_value-known :
      (fuel : ℕ) (var : Var) {o : Option Json}
      → get_value fuel r env var ≡ ok o
      → value_from only (λ obj. var_value only fuel env obj) (some var) ≡ some o
  unfolding get_value var_value
  get_value-known fuel (Var.ident s) {o} h = named (str_eq r.name s) h
    where
      answer : Option Json → Result EngineError (Option Json)
      answer x = ok x

      named :
          (b : Bool)
          → (if b then answer (some r.value) else answer none) ≡ ok o
          → some (if b then some r.value else none) ≡ some o
      named true k = ap some (cc k)
      named false k = ap some (cc k)
  get_value-known zero (Var.member obj prop) h = cc
  get_value-known (suc fuel) (Var.member obj prop) {o} h =
      let (var, ev, h1) = >>=-eq-ok (lift (get_var env obj)) _ h in
      let (found, ef, h2) = >>=-eq-ok (get_value fuel r env var) _ h1 in
      through var found
        (ok_or-eq-ok (get_elem? env obj) unwrap_on_none (lift-eq-ok (get_var env obj) ev))
        (get_value-known fuel var ef) (cc h2)
    where
      through :
          (var : Var) (found : Option Json)
          → get_elem? env obj ≡ some var
          → value_from only (λ i. var_value only fuel env i) (some var) ≡ some found
          → (elim found [ none ↦ none | some value ↦ some (json_get value prop) ]) ≡ o
          → opt_map
              (opt_map (λ y. json_get y prop))
              (value_from only (λ i. var_value only fuel env i) (get_elem? env obj))
            ≡ some o
      through var none e rec k = rw (e, rec) (ap some k)
      through var (some y) e rec k = rw (e, rec) (ap some k)

  unchanged :
      {p q : Predicate}
      → ◌≡◌ {A = Result EngineError Predicate} (ok p) (ok q)
      → maybe_value q ≡ maybe_value p
  unchanged {p} {q} h = let same : p ≡ q = cc h in ap maybe_value (sym same)

  eval_bin-known :
      (op : LogicOp) (l m : Predicate) {q : Predicate}
      → eval_bin boa op l m ≡ ok q
      → maybe_value q
        ≡ opt_map2 (λ x y. Json.bool (op_value boa op x y)) (maybe_value l) (maybe_value m)
  unfolding eval_bin
  eval_bin-known op (Predicate.lit x) (Predicate.lit y) {q} h =
      let (z, ez, h1) = >>=-eq-ok (eval_bin_lit boa op x y) _ h in
      let same : Predicate.lit z ≡ q = cc h1 in
      ap maybe_value (sym same)
      ∙ ap some (sym (eval_bin_lit-value boa r (λ s. Json.null) env op x y ez))
  eval_bin-known op (Predicate.lit x) (Predicate.bin o a b) h = unchanged h
  eval_bin-known op (Predicate.lit x) (Predicate.not a) h = unchanged h
  eval_bin-known op (Predicate.lit x) (Predicate.var id) h = unchanged h
  eval_bin-known op (Predicate.bin o a b) m h = unchanged h
  eval_bin-known op (Predicate.not a) m h = unchanged h
  eval_bin-known op (Predicate.var id) m h = unchanged h

  eval_not-known :
      (p : Predicate)
      → maybe_value (eval_not boa p) ≡ opt_map (λ x. Json.bool (boa.not x)) (maybe_value p)
  unfolding eval_not
  eval_not-known (Predicate.lit x) = refl
  eval_not-known (Predicate.bin op a b) = refl
  eval_not-known (Predicate.not a) = refl
  eval_not-known (Predicate.var id) = refl

  eval_var-known : (id : VarId) (o : Option Json) → maybe_value (eval_var id o) ≡ o
  eval_var-known id none = refl
  eval_var-known id (some y) = refl

  -- Evaluation gives a literal exactly where the request gives the predicate a value: that value.
  pub eval-known :
      (p : Predicate) {q : Predicate} → eval boa r env p ≡ ok q → maybe_value q ≡ known p
  unfolding eval known var_to_value var_value
  eval-known (Predicate.bin op a b) h =
      let (l, el, h1) = >>=-eq-ok (eval boa r env a) _ h in
      let (m, em, h2) = >>=-eq-ok (eval boa r env b) _ h1 in
      eval_bin-known op l m h2
      ∙ ap₂ (opt_map2 (λ x y. Json.bool (op_value boa op x y))) (eval-known a el) (eval-known b em)
  eval-known (Predicate.not a) h =
      let (l, el, h1) = >>=-eq-ok (eval boa r env a) _ h in
      unchanged h1 ∙ eval_not-known l ∙ ap (opt_map (λ x. Json.bool (boa.not x))) (eval-known a el)
  eval-known (Predicate.lit j) h = unchanged h
  eval-known (Predicate.var id) h =
      let (o, eo, h1) = >>=-eq-ok (var_to_value r env id) _ h in
      unchanged h1 ∙ eval_var-known id o ∙ sym (variable id o eo)
    where
      variable :
          (id : VarId) (o : Option Json)
          → var_to_value r env id ≡ ok o
          → join (var_value only (suc (length env)) env id) ≡ o
      variable id o e =
          let (var, ev, h1) = >>=-eq-ok (lift (get_var env id)) _ e in
          let found =
            ok_or-eq-ok (get_elem? env id) unwrap_on_none (lift-eq-ok (get_var env id) ev) in
          let here = get_value-known (length env) var h1 in
          let at : value_from only (λ obj. var_value only (length env) env obj) (get_elem? env id)
              ≡ some o =
            subst (λ x. value_from only (λ obj. var_value only (length env) env obj) x ≡ some o)
              (sym found) here in
          ap join at
