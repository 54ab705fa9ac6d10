-- ===== src/QueryCompiler/Convert/Meaning.antt =====
-- The meaning of a converted expression. What the JavaScript engine does is a parameter: how it runs an
-- expression on one row, in a state that expressions may change, with the laws of the operators that
-- the conversion knows. Names have one value throughout, and neither names nor properties change the
-- state.
use chiselstrike.Prelude.{
  ◌≡◌, refl, sym, ap, ◌∙◌, Str, Bool, Option, none, some, ok, >>=-eq-ok, if◌then◌else◌, arith,
  subst,
}
use chiselstrike.QueryCompiler.{BinaryOp, Lit, Expr, MemberProp, QBinaryOp, QValue, QExpr}
use chiselstrike.QueryCompiler.Convert.{
  convert_binary_op, convert_expr, convert_filter_expr, binary_of, property_of,
}

-- The literal that a value is written as.
abbrev pub written : QValue → Lit
written (QValue.bool b) = Lit.bool b
written (QValue.num n) = Lit.num n
written (QValue.str s) = Lit.str s

-- The operator of the program that a query operator stands for.
abbrev pub operator_of : QBinaryOp → BinaryOp
operator_of QBinaryOp.and = BinaryOp.logical_and
operator_of QBinaryOp.or = BinaryOp.logical_or
operator_of QBinaryOp.eq = BinaryOp.eq_eq
operator_of QBinaryOp.not_eq = BinaryOp.not_eq
operator_of QBinaryOp.lt = BinaryOp.lt
operator_of QBinaryOp.lt_eq = BinaryOp.lt_eq
operator_of QBinaryOp.gt = BinaryOp.gt
operator_of QBinaryOp.gt_eq = BinaryOp.gt_eq

-- Operators that run both of their sides.
abbrev pub RunsBoth : QBinaryOp → Type 0
RunsBoth QBinaryOp.and = ⊥
RunsBoth QBinaryOp.or = ⊥
RunsBoth _ = Unit

pub record Engine (V S : Type 0) : Type 0 where
  pub run : Expr → S → V × S
  pub truthy : V → Bool
  pub name : Str → V
  pub literal : QValue → V
  pub get : V → Str → V
  pub operate : QBinaryOp → V → V → V
  pub run_ident : (s : Str) (σ : S) → run (Expr.ident s) σ ≡ (name s, σ)
  pub run_lit : (v : QValue) (σ : S) → run (Expr.lit (written v)) σ ≡ (literal v, σ)
  pub run_paren : (e : Expr) (σ : S) → run (Expr.paren e) σ ≡ run e σ
  pub run_member :
      (o : Expr) (n : Str) (σ : S)
      → run (Expr.member o (MemberProp.prop_ident n)) σ ≡ (get (run o σ).0 n, (run o σ).1)
  pub run_and :
      (l r : Expr) (σ : S)
      → run (Expr.bin BinaryOp.logical_and l r) σ
        ≡ (if truthy (run l σ).0 then run r (run l σ).1 else run l σ)
  pub run_or :
      (l r : Expr) (σ : S)
      → run (Expr.bin BinaryOp.logical_or l r) σ
        ≡ (if truthy (run l σ).0 then run l σ else run r (run l σ).1)
  pub run_both :
      (q : QBinaryOp) (l r : Expr) (σ : S)
      → RunsBoth q
      → run (Expr.bin (operator_of q) l r) σ
        ≡ (operate q (run l σ).0 (run r (run l σ).1).0, (run r (run l σ).1).1)

module _ {V S : Type 0} (engine : Engine V S) where
  open engine use {
    run, truthy, name, literal, get, operate, run_ident, run_lit, run_paren, run_member, run_and,
    run_or, run_both,
  }

  abbrev pub combine : QBinaryOp → V → V → V
  combine QBinaryOp.and a b = if truthy a then b else a
  combine QBinaryOp.or a b = if truthy a then a else b
  combine op a b = operate op a b

  -- The value of a query expression.
  unfoldable pub value_of : QExpr → V
  value_of (QExpr.binary l op r) = combine op (value_of l) (value_of r)
  value_of (QExpr.property o n) = get (value_of o) n
  value_of (QExpr.identifier s) = name s
  value_of (QExpr.value v) = literal v

  -- A run of a binary expression whose sides have values.
  run_binary :
      (op : BinaryOp) (q : QBinaryOp) (l r : Expr) (a b : V) (σ : S)
      → convert_binary_op op ≡ some q
      → ((τ : S) → run l τ ≡ (a, τ))
      → ((τ : S) → run r τ ≡ (b, τ))
      → run (Expr.bin op l r) σ ≡ (combine q a b, σ)
  unfolding convert_binary_op
  run_binary BinaryOp.logical_and q l r a b σ h hl hr = ground (arith, run_and l r σ, hl σ, hr σ)
  run_binary BinaryOp.logical_or q l r a b σ h hl hr = ground (arith, run_or l r σ, hl σ, hr σ)
  run_binary BinaryOp.eq_eq q l r a b σ h hl hr =
      ground (arith, run_both QBinaryOp.eq l r σ tt, hl σ, hr σ)
  run_binary BinaryOp.not_eq q l r a b σ h hl hr =
      ground (arith, run_both QBinaryOp.not_eq l r σ tt, hl σ, hr σ)
  run_binary BinaryOp.lt q l r a b σ h hl hr =
      ground (arith, run_both QBinaryOp.lt l r σ tt, hl σ, hr σ)
  run_binary BinaryOp.lt_eq q l r a b σ h hl hr =
      ground (arith, run_both QBinaryOp.lt_eq l r σ tt, hl σ, hr σ)
  run_binary BinaryOp.gt q l r a b σ h hl hr =
      ground (arith, run_both QBinaryOp.gt l r σ tt, hl σ, hr σ)
  run_binary BinaryOp.gt_eq q l r a b σ h hl hr =
      ground (arith, run_both QBinaryOp.gt_eq l r σ tt, hl σ, hr σ)
  run_binary (BinaryOp.other n) q l r a b σ h hl hr = cc

  -- What a converted binary expression was made of.
  binary_of-eq-some :
      (l : Option QExpr) (op : Option QBinaryOp) (r : Option QExpr) (q : QExpr)
      → binary_of l op r ≡ some q
      → (a : QExpr) × (o : QBinaryOp) × (b : QExpr) × (l ≡ some a)
        × (op ≡ some o)
        × (r ≡ some b)
        × (QExpr.binary a o b ≡ q)
  binary_of-eq-some (some l) (some op) (some r) q h = (l, op, r, refl, refl, refl, cc)
  binary_of-eq-some none op r q h = cc
  binary_of-eq-some (some l) none r q h = cc
  binary_of-eq-some (some l) (some op) none q h = cc

  property_of-eq-some :
      (o : Option QExpr) (p : MemberProp) (q : QExpr)
      → property_of o p ≡ ok (some q)
      → (a : QExpr) × (n : Str) × (o ≡ some a)
        × (p ≡ MemberProp.prop_ident n)
        × (QExpr.property a n ≡ q)
  property_of-eq-some none p q h = cc
  property_of-eq-some (some o) (MemberProp.prop_ident n) q h = (o, n, refl, refl, cc)
  property_of-eq-some (some o) (MemberProp.computed e) q h = cc
  property_of-eq-some (some o) (MemberProp.private n) q h = cc

  -- The step of the induction at a binary expression.
  run_binary_value :
      (op : BinaryOp) (l r : Expr) (ql qr : Option QExpr) (q : QExpr) (σ : S)
      → ((a : QExpr) → ql ≡ some a → (τ : S) → run l τ ≡ (value_of a, τ))
      → ((b : QExpr) → qr ≡ some b → (τ : S) → run r τ ≡ (value_of b, τ))
      → binary_of ql (convert_binary_op op) qr ≡ some q
      → run (Expr.bin op l r) σ ≡ (value_of q, σ)
  unfolding value_of
  run_binary_value op l r ql qr q σ hl hr h =
      let (a, o, b, ea, eo, eb, eq) = binary_of-eq-some ql (convert_binary_op op) qr q h in
      subst (λ t. run (Expr.bin op l r) σ ≡ (value_of t, σ)) eq
        (run_binary op o l r (value_of a) (value_of b) σ eo (hl a ea) (hr b eb))

  -- The step at a property.
  run_property_value :
      (o : Expr) (p : MemberProp) (qo : Option QExpr) (q : QExpr) (σ : S)
      → ((a : QExpr) → qo ≡ some a → (τ : S) → run o τ ≡ (value_of a, τ))
      → property_of qo p ≡ ok (some q)
      → run (Expr.member o p) σ ≡ (value_of q, σ)
  unfolding value_of
  run_property_value o p qo q σ ho h =
      let (a, n, ea, ep, eq) = property_of-eq-some qo p q h in
      subst (λ t. run (Expr.member o p) σ ≡ (value_of t, σ)) eq
        (subst (λ x. run (Expr.member o x) σ ≡ (get (value_of a) n, σ)) (sym ep)
          (run_member o n σ ∙ ap (λ (x : V × S). (get x.0 n, x.1)) (ho a ea σ)))

  -- An expression that was converted runs to the value of its query expression and leaves the state
  -- as it is, in every state.
  pub convert_expr-run :
      (e : Expr) (q : QExpr) → convert_expr e ≡ ok (some q) → (σ : S) → run e σ ≡ (value_of q, σ)
  unfolding convert_expr value_of
  convert_expr-run (Expr.bin op l r) q h σ =
      let (ql, el, h1) = >>=-eq-ok (convert_expr l) _ h in
      let (qr, er, h2) = >>=-eq-ok (convert_expr r) _ h1 in
      run_binary_value op l r ql qr q σ (λ a ea. convert_expr-run l a (el ∙ ap ok ea))
        (λ b eb. convert_expr-run r b (er ∙ ap ok eb)) (cc h2)
  convert_expr-run (Expr.paren e) q h σ = run_paren e σ ∙ convert_expr-run e q h σ
  convert_expr-run (Expr.lit (Lit.num n)) q h σ = cc (h, run_lit (QValue.num n) σ)
  convert_expr-run (Expr.lit (Lit.str s)) q h σ = cc (h, run_lit (QValue.str s) σ)
  convert_expr-run (Expr.lit (Lit.bool b)) q h σ = cc
  convert_expr-run (Expr.lit (Lit.other n)) q h σ = cc
  convert_expr-run (Expr.member obj prop) q h σ =
      let (qo, eo, h1) = >>=-eq-ok (convert_expr obj) _ h in
      run_property_value obj prop qo q σ (λ a ea. convert_expr-run obj a (eo ∙ ap ok ea)) h1
  convert_expr-run (Expr.ident s) q h σ = ground (arith, run_ident s σ)
  convert_expr-run (Expr.arrow p b c) q h σ = cc
  convert_expr-run (Expr.await e) q h σ = cc
  convert_expr-run (Expr.call c a t) q h σ = cc
  convert_expr-run (Expr.object p) q h σ = cc
  convert_expr-run (Expr.other n) q h σ = cc

  -- When a predicate is converted to a query expression, running the predicate gives the value of the
  -- query expression and leaves the state as it is, in every state.
  pub convert_filter_expr-run :
      (e : Expr) (q : QExpr)
      → convert_filter_expr e ≡ ok (some q)
      → (σ : S) → run e σ ≡ (value_of q, σ)
  unfolding convert_filter_expr value_of
  convert_filter_expr-run (Expr.bin op l r) q h σ = convert_expr-run (Expr.bin op l r) q h σ
  convert_filter_expr-run (Expr.lit (Lit.bool b)) q h σ = ground (arith, run_lit (QValue.bool b) σ)
  convert_filter_expr-run (Expr.lit (Lit.num n)) q h σ = cc
  convert_filter_expr-run (Expr.lit (Lit.str n)) q h σ = cc
  convert_filter_expr-run (Expr.lit (Lit.other n)) q h σ = cc
  convert_filter_expr-run (Expr.paren e) q h σ = cc
  convert_filter_expr-run (Expr.member o p) q h σ = cc
  convert_filter_expr-run (Expr.ident s) q h σ = cc
  convert_filter_expr-run (Expr.arrow p b c) q h σ = cc
  convert_filter_expr-run (Expr.await e) q h σ = cc
  convert_filter_expr-run (Expr.call c a t) q h σ = cc
  convert_filter_expr-run (Expr.object p) q h σ = cc
  convert_filter_expr-run (Expr.other n) q h σ = cc
