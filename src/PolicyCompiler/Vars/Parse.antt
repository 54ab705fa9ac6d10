-- ===== src/PolicyCompiler/Vars/Parse.antt =====
-- chiselc/src/policies.rs: `Predicate::parse_expr` keeps the value of the expression.
use chiselstrike.Prelude.{
  ap, suc, ◌+◌, ◌<◌, Str, Option, none, some, [], ◌++◌, ok, ok_or, >>=-eq-ok, ◌≡◌, refl, sym, ◌∙◌,
  subst, arith, append_assoc, append-nil, ok_or-eq-ok,
}
use chiselstrike.PolicyCompiler.{LogicOp, Var, VarId, Predicate, unsupported_op, not_implemented}
use chiselstrike.PolicyCompiler.Vars.{
  Environment, insert_var, UnaryOp, BinaryOp, JsExpr, op_of, lit_of, member_of, no_member,
  parse_expr,
}
use chiselstrike.PolicyCompiler.Vars.Meaning.{
  Semantics, computes, literal, property_name, op_of-computes, lit_of-literal,
  computed_prop-property_name, opt_map, opt_map2, js_value, var_value, pred_value, IsOrdered,
  IsOrdered-get_elem?, var_value-append, pred_value-append, insert_var-Inserted, var_value-bound,
}

module _ (sem : Semantics) where
  -- The predicate has the value, in an environment that extends the one before.
  abbrev pub HasValue : Option sem.V → Environment → Predicate × Environment → Type 0
  HasValue value env out =
      IsOrdered 0 out.1
      × ((ext : Environment) × (out.1 ≡ env ++ ext))
      × ((x : sem.V) × (value ≡ some x) × (pred_value sem out.1 out.0 ≡ some x))

  ident-HasValue :
      (s : Str) (env : Environment)
      → IsOrdered 0 env
      → HasValue
          (some (sem.ident s))
          env
          (Predicate.var (insert_var (Var.ident s) env).0, (insert_var (Var.ident s) env).1)
  unfolding pred_value var_value
  ident-HasValue s env h =
      let (ordered, longer, found) = insert_var-Inserted (Var.ident s) env h tt in
      (ordered, longer, (sem.ident s, refl, rw found refl))

  member-HasValue :
      (v : VarId) (prop : Str) (env : Environment) (x : sem.V)
      → IsOrdered 0 env
      → pred_value sem env (Predicate.var v) ≡ some x
      → HasValue (some (sem.member x prop)) env (
        Predicate.var (insert_var (Var.member v prop) env).0,
        (insert_var (Var.member v prop) env).1,
      )
  unfolding pred_value var_value
  member-HasValue v prop env x h e =
      let var = Var.member v prop in
      let (ordered, (ext, longer), found) =
        insert_var-Inserted var env h (var_value-bound sem v env v e) in
      let earlier : v < (insert_var var env).0 + 0 =
        IsOrdered-get_elem? 0 (insert_var var env).1 (insert_var var env).0 ordered found in
      let object : var_value sem (insert_var var env).0 (insert_var var env).1 v ≡ some x =
        rw longer (
          var_value-append sem (suc v) (insert_var var env).0 env ext v (omega (arith, earlier))
            e) in
      (ordered, (ext, longer), (sem.member x prop, refl, rw (found, object) refl))

  member_of-HasValue :
      (p : Predicate) (prop : Str) (env : Environment) (x : sem.V) {out : Predicate × Environment}
      → IsOrdered 0 env
      → pred_value sem env p ≡ some x
      → member_of p prop env ≡ ok out
      → HasValue (some (sem.member x prop)) env out
  member_of-HasValue (Predicate.var v) prop env x {out} h e k =
      let eo : (
        Predicate.var (insert_var (Var.member v prop) env).0,
        (insert_var (Var.member v prop) env).1,
      )
          ≡ out =
        cc k in
      subst (HasValue (some (sem.member x prop)) env) eo (member-HasValue v prop env x h e)
  member_of-HasValue (Predicate.bin op l r) prop env x h e k = cc
  member_of-HasValue (Predicate.not p) prop env x h e k = cc
  member_of-HasValue (Predicate.lit value) prop env x h e k = cc

  no_member-fails : (p : Predicate) {out : Predicate × Environment} → no_member p ≡ ok out → ⊥
  no_member-fails (Predicate.var v) k = cc k
  no_member-fails (Predicate.bin op l r) k = cc k
  no_member-fails (Predicate.not p) k = cc k
  no_member-fails (Predicate.lit value) k = cc k

  HasValue-after :
      (value : Option sem.V) (env env1 : Environment) (out : Predicate × Environment)
      → ((ext : Environment) × (env1 ≡ env ++ ext))
      → HasValue value env1 out
      → HasValue value env out
  HasValue-after value env env1 out (d, e) (ordered, (f, g), has) =
      (ordered, (d ++ f, g ∙ ap (λ y. y ++ f) e ∙ append_assoc env d f), has)

  computed-HasValue :
      (prop : Option Str) (value : Option sem.V) (p : Predicate) (env : Environment) (x : sem.V)
      {out : Predicate × Environment}
      → IsOrdered 0 env
      → value ≡ some x
      → pred_value sem env p ≡ some x
      → (elim prop [ none ↦ no_member p | some s ↦ member_of p s env ]) ≡ ok out
      → HasValue (elim prop [ none ↦ none | some s ↦ opt_map (λ y. sem.member y s) value ]) env out
  computed-HasValue none value p env x h ev e k = elim (no_member-fails p k) [ ]
  computed-HasValue (some s) value p env x h ev e k = rw ev (member_of-HasValue p s env x h e k)

  bin-HasValue :
      (o : LogicOp) (a b : Option sem.V) (lhs rhs : Predicate) (env env1 env2 : Environment)
      → HasValue a env (lhs, env1)
      → HasValue b env1 (rhs, env2)
      → HasValue (opt_map2 (sem.bin o) a b) env (Predicate.bin o lhs rhs, env2)
  unfolding pred_value
  bin-HasValue o a b lhs rhs env env1 env2 (o1, x1, (x, ex, px)) (o2, (ext, x2), (y, ey, py)) =
      let px2 : pred_value sem env2 lhs ≡ some x = rw x2 (pred_value-append sem env1 ext lhs px) in
      HasValue-after (opt_map2 (sem.bin o) a b) env env1 (Predicate.bin o lhs rhs, env2) x1
        (o2, (ext, x2), (sem.bin o x y, rw (ex, ey) refl, rw (px2, py) refl))

  js_value-bin :
      (op : BinaryOp) (l r : JsExpr) {o : LogicOp}
      → computes op ≡ some o
      → js_value sem (JsExpr.bin op l r) ≡ opt_map2 (sem.bin o) (js_value sem l) (js_value sem r)
  unfolding js_value
  js_value-bin op l r e = rw (e, js_value) refl

  -- If an expression is parsed, in an environment in which the object of every member comes before it,
  -- the variables so far keep their ids and the order, the expression has a value in JavaScript, and
  -- the predicate has the same.
  pub parse_expr-HasValue :
      (e : JsExpr) (env : Environment) {out : Predicate × Environment}
      → IsOrdered 0 env
      → parse_expr e env ≡ ok out
      → HasValue (js_value sem e) env out
  unfolding parse_expr js_value pred_value
  parse_expr-HasValue (JsExpr.unary UnaryOp.bang e) env {out} h k =
      let ((p, env1), ep, k1) = >>=-eq-ok (parse_expr e env) _ k in
      let (o1, x1, (x, ex, px)) = parse_expr-HasValue e env h ep in
      let eo : (Predicate.not p, env1) ≡ out = cc k1 in
      subst (HasValue (opt_map sem.bang (js_value sem e)) env) eo
        (o1, x1, (sem.bang x, rw ex refl, rw px refl))
  parse_expr-HasValue (JsExpr.unary UnaryOp.other e) env h k = cc
  parse_expr-HasValue (JsExpr.bin op l r) env {out} h k =
      let (o, eo, k1) = >>=-eq-ok (ok_or (op_of op) unsupported_op) _ k in
      let ((lhs, env1), el, k2) = >>=-eq-ok (parse_expr l env) _ k1 in
      let ((rhs, env2), er, k3) = >>=-eq-ok (parse_expr r env1) _ k2 in
      let left = parse_expr-HasValue l env h el in
      let right = parse_expr-HasValue r env1 left.0 er in
      let eout : (Predicate.bin o lhs rhs, env2) ≡ out = cc k3 in
      let value =
        js_value-bin op l r (sym (op_of-computes op) ∙ ok_or-eq-ok (op_of op) unsupported_op eo) in
      subst (HasValue (js_value sem (JsExpr.bin op l r)) env) eout (
        subst (λ a. HasValue a env (Predicate.bin o lhs rhs, env2)) (sym value)
          (bin-HasValue o (js_value sem l) (js_value sem r) lhs rhs env env1 env2 left right))
  parse_expr-HasValue (JsExpr.lit l) env {out} h k =
      let (value, ev, k1) = >>=-eq-ok (ok_or (lit_of l) not_implemented) _ k in
      let eout : (Predicate.lit value, env) ≡ out = cc k1 in
      let found : literal l ≡ some value =
        sym (lit_of-literal l) ∙ ok_or-eq-ok (lit_of l) not_implemented ev in
      subst (HasValue (opt_map sem.lit (literal l)) env) eout
        (h, ([], sym (append-nil env)), (sem.lit value, rw found refl, refl))
  parse_expr-HasValue (JsExpr.ident s) env {out} h k =
      let eo : (Predicate.var (insert_var (Var.ident s) env).0, (insert_var (Var.ident s) env).1)
          ≡ out =
        cc k in
      subst (HasValue (some (sem.ident s)) env) eo (ident-HasValue s env h)
  parse_expr-HasValue (JsExpr.paren e) env h k = parse_expr-HasValue e env h k
  parse_expr-HasValue (JsExpr.member obj prop) env {out} h k =
      let ((p, env1), ep, k1) = >>=-eq-ok (parse_expr obj env) _ k in
      let (o1, x1, (x, ex, px)) = parse_expr-HasValue obj env h ep in
      HasValue-after (opt_map (λ y. sem.member y prop) (js_value sem obj)) env env1 out x1
        (rw ex (member_of-HasValue p prop env1 x o1 px k1))
  parse_expr-HasValue (JsExpr.member_computed obj prop) env {out} h k =
      let ((p, env1), ep, k1) = >>=-eq-ok (parse_expr obj env) _ k in
      let (o1, x1, (x, ex, px)) = parse_expr-HasValue obj env h ep in
      HasValue-after (js_value sem (JsExpr.member_computed obj prop)) env env1 out x1 (
        computed-HasValue (property_name prop) (js_value sem obj) p env1 x o1 ex px (
          subst (λ s. (elim s [ none ↦ no_member p | some n ↦ member_of p n env1 ]) ≡ ok out)
            (computed_prop-property_name prop) k1))
  parse_expr-HasValue (JsExpr.member_private obj) env h k =
      let ((p, env1), ep, k1) = >>=-eq-ok (parse_expr obj env) _ k in
      elim (no_member-fails p k1) [ ]
  parse_expr-HasValue JsExpr.other env h k = cc
