-- ===== src/PolicyEngine/Eval.antt =====
-- server/src/policy/interpreter.rs: partial evaluation and the values of predicates.
use chiselstrike.Prelude.{
  ℕ, zero, suc, Str, str_eq, Bool, true, false, ◌&&◌, ◌||◌, Option, none, some, [], append-nil,
  length, get_elem?, Result, ok, >>=-eq-ok, ok_or-eq-ok, ◌≡◌, refl, sym, ap, ◌∙◌, subst, arith,
  if◌then◌else◌, ap₂,
}
use chiselstrike.Prelude
use chiselstrike.Json.{Json}
use chiselstrike.PolicyCompiler.{LogicOp, Var, VarId, Predicate, unwrap_on_none}
use chiselstrike.PolicyCompiler.Vars.{Environment, get_var}
use chiselstrike.PolicyCompiler.Vars.Meaning.{
  Semantics, opt_map, value_from, var_value, pred_value, opt_map-eq-some, opt_map2-eq-some,
  var_value-append, var_value-bound,
}
use chiselstrike.PolicyEngine.{
  EngineError, lift, Boa, JsonResolver, json_get, get_value, var_to_value, eval_bin_lit, eval_bin,
  eval_not, eval_var, eval, as_boolean,
}
use chiselstrike.PolicyEngine.RowValue.{lift-eq-ok}

abbrev pub as_bool : Json → Bool
as_bool (Json.bool b) = b
as_bool _ = false

-- What the operators compute: comparisons are boa's, `&&` and `||` are those of Booleans.
abbrev pub op_value : Boa → LogicOp → Json → Json → Bool
op_value boa LogicOp.eq x y = boa.equals x y
op_value boa LogicOp.neq x y = Prelude.not (boa.equals x y)
op_value boa LogicOp.gt x y = boa.gt x y
op_value boa LogicOp.gte x y = boa.ge x y
op_value boa LogicOp.lt x y = boa.lt x y
op_value boa LogicOp.lte x y = boa.le x y
op_value boa LogicOp.and x y = as_bool x && as_bool y
op_value boa LogicOp.or x y = as_bool x || as_bool y

-- JavaScript on JSON values, when one variable is the request and the others have any values.
abbrev pub request_semantics : Boa → JsonResolver → (Str → Json) → Semantics
request_semantics boa r others = record {
  V = Json;
  ident = λ s. if str_eq r.name s then r.value else others s;
  member = json_get;
  lit = λ value. value;
  bin = λ op x y. Json.bool (op_value boa op x y);
  bang = λ x. Json.bool (boa.not x);
  truthy = as_bool;
}

as_boolean-as_bool : (x : Json) {a : Bool} → as_boolean x ≡ ok a → as_bool x ≡ a
as_boolean-as_bool (Json.bool b) h = cc h
as_boolean-as_bool Json.null h = cc
as_boolean-as_bool (Json.number n) h = cc
as_boolean-as_bool (Json.string s) h = cc
as_boolean-as_bool (Json.array items) h = cc
as_boolean-as_bool (Json.object members) h = cc

and_value :
    (a : Bool) (x y : Json) {b : Bool}
    → as_bool x ≡ a
    → (if a then as_boolean y else ok false) ≡ ok b
    → (as_bool x && as_bool y) ≡ b
and_value true x y e h = rw e (as_boolean-as_bool y h)
and_value false x y e h = rw e (cc h)

or_value :
    (a : Bool) (x y : Json) {b : Bool}
    → as_bool x ≡ a
    → (if a then ok true else as_boolean y) ≡ ok b
    → (as_bool x || as_bool y) ≡ b
or_value true x y e h = rw e (cc h)
or_value false x y e h = rw e (as_boolean-as_bool y h)

module _ (boa : Boa) (r : JsonResolver) (others : Str → Json) (env : Environment) where
  abbrev sem : Semantics
  sem = request_semantics boa r others

  get_value-value_from :
      (fuel : ℕ) (var : Var) {x : Json}
      → get_value fuel r env var ≡ ok (some x)
      → value_from sem (λ obj. var_value sem fuel env obj) (some var) ≡ some x
  unfolding get_value var_value
  get_value-value_from fuel (Var.ident s) h = named (str_eq r.name s) refl h
    where
      yes : Json → Result EngineError (Option Json)
      yes x = ok (some x)

      named :
          (b : Bool) {x : Json}
          → str_eq r.name s ≡ b
          → (if b then ok (some r.value) else ok none) ≡ yes x
          → some (if str_eq r.name s then r.value else others s) ≡ some x
      named true e h = rw e (cc h)
      named false e h = cc
  get_value-value_from zero (Var.member obj prop) h = cc
  get_value-value_from (suc fuel) (Var.member obj prop) {x} h =
      let (var, ev, h1) = >>=-eq-ok (lift (get_var env obj)) _ h in
      let (found, ef, h2) = >>=-eq-ok (get_value fuel r env var) _ h1 in
      through var found
        (ok_or-eq-ok (get_elem? env obj) unwrap_on_none (lift-eq-ok (get_var env obj) ev))
        (λ y e. get_value-value_from fuel var (ef ∙ ap ok e)) (cc h2)
    where
      through :
          (var : Var) (found : Option Json) {x : Json}
          → get_elem? env obj ≡ some var
          → ((y : Json)
              → found ≡ some y
              → value_from sem (λ o. var_value sem fuel env o) (some var) ≡ some y)
          → (elim found [ none ↦ none | some value ↦ some (json_get value prop) ]) ≡ some x
          → opt_map
              (λ y. json_get y prop)
              (value_from sem (λ o. var_value sem fuel env o) (get_elem? env obj))
            ≡ some x
      through var none e rec h = cc
      through var (some y) e rec h = rw (e, rec y refl) h

  pub eval_bin_lit-value :
      (op : LogicOp) (x y : Json) {z : Json}
      → eval_bin_lit boa op x y ≡ ok z
      → Json.bool (op_value boa op x y) ≡ z
  unfolding eval_bin_lit
  eval_bin_lit-value LogicOp.eq x y h = cc h
  eval_bin_lit-value LogicOp.neq x y h = cc h
  eval_bin_lit-value LogicOp.gt x y h = cc h
  eval_bin_lit-value LogicOp.gte x y h = cc h
  eval_bin_lit-value LogicOp.lt x y h = cc h
  eval_bin_lit-value LogicOp.lte x y h = cc h
  eval_bin_lit-value LogicOp.and x y h =
      let (a, ea, h1) = >>=-eq-ok (as_boolean x) _ h in
      let (b, eb, h2) = >>=-eq-ok (if a then as_boolean y else ok false) _ h1 in
      ap Json.bool (and_value a x y (as_boolean-as_bool x ea) eb) ∙ cc h2
  eval_bin_lit-value LogicOp.or x y h =
      let (a, ea, h1) = >>=-eq-ok (as_boolean x) _ h in
      let (b, eb, h2) = >>=-eq-ok (if a then ok true else as_boolean y) _ h1 in
      ap Json.bool (or_value a x y (as_boolean-as_bool x ea) eb) ∙ cc h2

  kept :
      (op : LogicOp) (p q : Predicate) (x y : Json) {out : Predicate}
      → pred_value sem env p ≡ some x
      → pred_value sem env q ≡ some y
      → ◌≡◌ {A = Result EngineError Predicate} (ok (Predicate.bin op p q)) (ok out)
      → pred_value sem env out ≡ some (Json.bool (op_value boa op x y))
  unfolding pred_value
  kept op p q x y {out} ex ey h =
      let eo : Predicate.bin op p q ≡ out = cc h in
      subst (λ o. pred_value sem env o ≡ some (Json.bool (op_value boa op x y))) eo
        (rw (ex, ey) refl)

  eval_bin-value :
      (op : LogicOp) (p q : Predicate) (x y : Json) {out : Predicate}
      → pred_value sem env p ≡ some x
      → pred_value sem env q ≡ some y
      → eval_bin boa op p q ≡ ok out
      → pred_value sem env out ≡ some (Json.bool (op_value boa op x y))
  unfolding eval_bin pred_value
  eval_bin-value op (Predicate.lit a) (Predicate.lit b) x y {out} ex ey h =
      let (v, ev, h1) = >>=-eq-ok (eval_bin_lit boa op a b) _ h in
      let eo : Predicate.lit v ≡ out = cc h1 in
      let ea : a ≡ x = cc ex in
      let eb : b ≡ y = cc ey in
      subst (λ o. pred_value sem env o ≡ some (Json.bool (op_value boa op x y))) eo
        (ap some
          (sym (eval_bin_lit-value op a b ev) ∙ ap₂ (λ m n. Json.bool (op_value boa op m n)) ea eb))
  eval_bin-value op (Predicate.lit a) (Predicate.bin o l m) x y ex ey h =
      kept op (Predicate.lit a) (Predicate.bin o l m) x y ex ey h
  eval_bin-value op (Predicate.lit a) (Predicate.not l) x y ex ey h =
      kept op (Predicate.lit a) (Predicate.not l) x y ex ey h
  eval_bin-value op (Predicate.lit a) (Predicate.var i) x y ex ey h =
      kept op (Predicate.lit a) (Predicate.var i) x y ex ey h
  eval_bin-value op (Predicate.bin o l m) q x y ex ey h =
      kept op (Predicate.bin o l m) q x y ex ey h
  eval_bin-value op (Predicate.not l) q x y ex ey h = kept op (Predicate.not l) q x y ex ey h
  eval_bin-value op (Predicate.var i) q x y ex ey h = kept op (Predicate.var i) q x y ex ey h

  of_length :
      (id : VarId) (var : Var) (y : Json)
      → get_elem? env id ≡ some var
      → value_from sem (λ obj. var_value sem (length env) env obj) (some var) ≡ some y
      → var_value sem (suc (length env)) env id ≡ some y
  unfolding var_value
  of_length id var y found h = rw found h

  negated :
      (l : Predicate) {a : Json}
      → pred_value sem env l ≡ some a
      → pred_value sem env (eval_not boa l) ≡ some (Json.bool (boa.not a))
  unfolding eval_not pred_value
  negated (Predicate.lit b) {a} e =
      let eb : b ≡ a = cc e in ap (λ y. some (Json.bool (boa.not y))) eb
  negated (Predicate.bin o m n) e = rw e refl
  negated (Predicate.not m) e = rw e refl
  negated (Predicate.var i) e = rw e refl

  variable :
      (id : VarId) (value : Option Json) {x : Json}
      → pred_value sem env (Predicate.var id) ≡ some x
      → var_to_value r env id ≡ ok value
      → pred_value sem env (eval_var id value) ≡ some x
  unfolding var_to_value pred_value
  variable id none e h = e
  variable id (some y) {x} e h =
      let (var, ev, h1) = >>=-eq-ok (lift (get_var env id)) _ h in
      let found = ok_or-eq-ok (get_elem? env id) unwrap_on_none (lift-eq-ok (get_var env id) ev) in
      let here : var_value sem (suc (length env)) env id ≡ some y =
        of_length id var y found (get_value-value_from (length env) var h1) in
      let bound = var_value-bound sem id env id e in
      let more =
        var_value-append sem (suc id) (suc (length env)) env [] id (omega (arith, bound)) e in
      let same : var_value sem (suc (length env)) env id ≡ some x =
        subst (λ l. var_value sem (suc (length env)) l id ≡ some x) (append-nil env) more in
      sym here ∙ same

  -- A predicate that has a value keeps it when it is evaluated as far as the request allows.
  pub eval-pred_value :
      (p : Predicate) {q : Predicate} {x : Json}
      → pred_value sem env p ≡ some x
      → eval boa r env p ≡ ok q
      → pred_value sem env q ≡ some x
  unfolding eval pred_value
  eval-pred_value (Predicate.bin op lhs rhs) {q} {x} e h =
      let (a, b, ea, eb, ex) =
        opt_map2-eq-some (λ x y. Json.bool (op_value boa op x y)) (pred_value sem env lhs)
          (pred_value sem env rhs) e in
      let (l, el, h1) = >>=-eq-ok (eval boa r env lhs) _ h in
      let (m, em, h2) = >>=-eq-ok (eval boa r env rhs) _ h1 in
      eval_bin-value op l m a b (eval-pred_value lhs ea el) (eval-pred_value rhs eb em) h2
      ∙ ap some ex
  eval-pred_value (Predicate.not p) {q} {x} e h =
      let (a, ea, ex) = opt_map-eq-some (λ x. Json.bool (boa.not x)) (pred_value sem env p) e in
      let (l, el, h1) = >>=-eq-ok (eval boa r env p) _ h in
      let eq : eval_not boa l ≡ q = cc h1 in
      subst (λ o. pred_value sem env o ≡ some x) eq
        (negated l (eval-pred_value p ea el) ∙ ap some ex)
  eval-pred_value (Predicate.lit value) {q} {x} e h =
      let eq : Predicate.lit value ≡ q = cc h in subst (λ o. pred_value sem env o ≡ some x) eq e
  eval-pred_value (Predicate.var id) {q} {x} e h =
      let (value, ev, h1) = >>=-eq-ok (var_to_value r env id) _ h in
      let eq : eval_var id value ≡ q = cc h1 in
      subst (λ o. pred_value sem env o ≡ some x) eq (variable id value e ev)
