-- ===== src/QueryCompiler/Split/Keep.antt =====
-- The rows that a filter keeps, before and after its predicate is split. The engine on each row is a
-- parameter (Convert/Meaning.antt); the state is what the predicate's side effects change.
use chiselstrike.Prelude.{
  ◌≡◌, refl, subst, Bool, Bool-cases, Option, none, some, inl, inr, List, [], ◌∷◌, filter, ok,
  >>=-eq-ok, if◌then◌else◌,
}
use chiselstrike.QueryCompiler.{BinaryOp, Expr, QExpr}
use chiselstrike.QueryCompiler.Convert.{convert_filter_expr}
use chiselstrike.QueryCompiler.Convert.Meaning.{Engine, value_of, convert_filter_expr-run}
use chiselstrike.QueryCompiler.Split.{
  Pieces, split_sides, split_expr, split_or_whole, split_and_convert_expr,
}

module _ {R V S : Type 0} (engine : R → Engine V S) where
  abbrev pub cons_if : Bool → R → List R × S → List R × S
  cons_if b r (rows, σ) = (if b then r ∷ rows else rows, σ)

  -- The rows for which the expression is truthy, run on one row after the other.
  unfoldable pub keep : Expr → List R → S → List R × S
  keep e [] σ = ([], σ)
  keep e (r ∷ rows) σ =
      cons_if ((engine r).truthy ((engine r).run e σ).0) r (keep e rows ((engine r).run e σ).1)

  abbrev pub accepts : QExpr → R → Bool
  accepts q r = (engine r).truthy (value_of (engine r) q)

  -- The rows that the query returns.
  abbrev pub keep_query : QExpr → List R → List R
  keep_query q rows = filter (accepts q) rows

  -- The filter that is left to evaluate, if there is one.
  abbrev pub keep_post : Option Expr → List R → S → List R × S
  keep_post none rows σ = (rows, σ)
  keep_post (some e) rows σ = keep e rows σ

  keep-query :
      (e : Expr) (q : QExpr)
      → ((r : R) (σ : S) → (engine r).run e σ ≡ (value_of (engine r) q, σ))
      → (rows : List R) (σ : S) → keep e rows σ ≡ (keep_query q rows, σ)
  unfolding keep
  keep-query e q h [] σ = refl
  keep-query e q h (r ∷ rows) σ = rw (h r σ) (rw (keep-query e q h rows σ) refl)

  -- One row of a conjunction.
  keep-and :
      (l r : Expr) (q : QExpr)
      → ((x : R) (σ : S) → (engine x).run l σ ≡ (value_of (engine x) q, σ))
      → (rows : List R) (σ : S)
      → keep (Expr.bin BinaryOp.logical_and l r) rows σ ≡ keep r (keep_query q rows) σ
  unfolding keep
  keep-and l r q h [] σ = refl
  keep-and l r q h (x ∷ rows) σ = elim (Bool-cases (accepts q x)) [
    | inl taken ↦
        rw ((engine x).run_and l r σ) (rw (h x σ) (rw taken (rw (keep-and l r q h rows _) refl)))
    | inr left ↦
        rw ((engine x).run_and l r σ)
          (rw (h x σ) (rw left (rw left (rw (keep-and l r q h rows σ) refl))))
  ]

  -- What the pieces of a split promise: the query and then the rest keep what the whole keeps, and the
  -- first piece as an expression keeps what the query keeps.
  abbrev pub KeepsAll : Expr → Pieces → Type 0
  KeepsAll e (none, post) = Unit
  KeepsAll e (some (query, q), post) =
      (rows : List R) (σ : S)
      → (keep e rows σ ≡ keep_post post (keep_query q rows) σ)
        × (keep query rows σ ≡ (keep_query q rows, σ))

  split_sides-KeepsAll :
      (l r : Expr) (q : Option QExpr)
      → convert_filter_expr l ≡ ok q
      → KeepsAll (Expr.bin BinaryOp.logical_and l r) (split_sides q l r)
  split_sides-KeepsAll l r none h = tt
  split_sides-KeepsAll l r (some q) h = λ rows σ. (
    keep-and l r q (λ x. convert_filter_expr-run (engine x) l q h) rows σ,
    keep-query l q (λ x. convert_filter_expr-run (engine x) l q h) rows σ,
  )

  none_kept :
      (e : Expr) (pieces : Pieces) → ◌≡◌ {A = Pieces} (none, none) pieces → KeepsAll e pieces
  none_kept e pieces h = subst (KeepsAll e) h tt

  split_expr-KeepsAll : (e : Expr) (pieces : Pieces) → split_expr e ≡ ok pieces → KeepsAll e pieces
  split_expr-KeepsAll (Expr.bin BinaryOp.logical_and l r) pieces h =
      let (q, eq, h1) = >>=-eq-ok (convert_filter_expr l) _ h in
      let same : split_sides q l r ≡ pieces = cc h1 in
      subst (KeepsAll (Expr.bin BinaryOp.logical_and l r)) same (split_sides-KeepsAll l r q eq)
  split_expr-KeepsAll (Expr.bin BinaryOp.eq_eq l r) pieces h = none_kept _ pieces (cc h)
  split_expr-KeepsAll (Expr.bin BinaryOp.not_eq l r) pieces h = none_kept _ pieces (cc h)
  split_expr-KeepsAll (Expr.bin BinaryOp.lt l r) pieces h = none_kept _ pieces (cc h)
  split_expr-KeepsAll (Expr.bin BinaryOp.lt_eq l r) pieces h = none_kept _ pieces (cc h)
  split_expr-KeepsAll (Expr.bin BinaryOp.gt l r) pieces h = none_kept _ pieces (cc h)
  split_expr-KeepsAll (Expr.bin BinaryOp.gt_eq l r) pieces h = none_kept _ pieces (cc h)
  split_expr-KeepsAll (Expr.bin BinaryOp.logical_or l r) pieces h = none_kept _ pieces (cc h)
  split_expr-KeepsAll (Expr.bin (BinaryOp.other n) l r) pieces h = none_kept _ pieces (cc h)
  split_expr-KeepsAll (Expr.arrow p b c) pieces h = none_kept _ pieces (cc h)
  split_expr-KeepsAll (Expr.await e) pieces h = none_kept _ pieces (cc h)
  split_expr-KeepsAll (Expr.call c a t) pieces h = none_kept _ pieces (cc h)
  split_expr-KeepsAll (Expr.member o p) pieces h = none_kept _ pieces (cc h)
  split_expr-KeepsAll (Expr.ident n) pieces h = none_kept _ pieces (cc h)
  split_expr-KeepsAll (Expr.lit l) pieces h = none_kept _ pieces (cc h)
  split_expr-KeepsAll (Expr.paren e) pieces h = none_kept _ pieces (cc h)
  split_expr-KeepsAll (Expr.object p) pieces h = none_kept _ pieces (cc h)
  split_expr-KeepsAll (Expr.other n) pieces h = none_kept _ pieces (cc h)

  split_or_whole-KeepsAll :
      (e : Expr) (q : Option QExpr) (pieces : Pieces)
      → convert_filter_expr e ≡ ok q
      → split_or_whole q e ≡ ok pieces
      → KeepsAll e pieces
  split_or_whole-KeepsAll e none pieces eq h = split_expr-KeepsAll e pieces h
  split_or_whole-KeepsAll e (some q) pieces eq h =
      let same : ◌≡◌ {A = Pieces} (some (e, q), none) pieces = cc h in
      subst (KeepsAll e) same (λ rows σ. (
        keep-query e q (λ x. convert_filter_expr-run (engine x) e q eq) rows σ,
        keep-query e q (λ x. convert_filter_expr-run (engine x) e q eq) rows σ,
      ))

  pub split_and_convert_expr-KeepsAll :
      (e : Expr) (pieces : Pieces) → split_and_convert_expr e ≡ ok pieces → KeepsAll e pieces
  unfolding split_and_convert_expr
  split_and_convert_expr-KeepsAll e pieces h =
      let (q, eq, h1) = >>=-eq-ok (convert_filter_expr e) _ h in
      split_or_whole-KeepsAll e q pieces eq h1
