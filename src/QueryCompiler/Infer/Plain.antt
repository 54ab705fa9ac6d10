-- ===== src/QueryCompiler/Infer/Plain.antt =====
-- The calls on which the inference of a filter does not panic.
use chiselstrike.Prelude.{
  ℕ, ◌≡◌, refl, Str, Option, none, some, List, [], ◌∷◌, Result, ok, err, ◌>>=◌,
}
use chiselstrike.QueryCompiler.{
  BinaryOp, Lit, Expr, Callee, Args, MemberProp, Body, Pat, Stmts, Stmt, Props, Failure, QExpr,
}
use chiselstrike.QueryCompiler.Convert.{
  convert_binary_op, binary_of, property_of, convert_expr, convert_filter_expr,
}
use chiselstrike.QueryCompiler.Split.{
  Pieces, split_sides, split_expr, split_or_whole, split_and_convert_expr, rewrite_filter_arrow,
}
use chiselstrike.QueryCompiler.Infer.{split_body}

-- A computation that does not panic.
abbrev pub Succeeds : {A : Type 0} → Result Failure A → Type 0
Succeeds {A} m = (a : A) × (m ≡ ok a)

-- Properties are named, in what the conversion looks at.
unfoldable pub IsPlain : Expr → Type 0
IsPlain (Expr.bin op l r) = IsPlain l × IsPlain r
IsPlain (Expr.paren e) = IsPlain e
IsPlain (Expr.member o (MemberProp.prop_ident n)) = IsPlain o
IsPlain (Expr.member o (MemberProp.computed e)) = ⊥
IsPlain (Expr.member o (MemberProp.private n)) = ⊥
IsPlain _ = Unit

-- The predicate returns a value.
abbrev pub IsPlainBody : Body → Type 0
IsPlainBody (Body.body_expr e) = IsPlain e
IsPlainBody (Body.block (Stmts.next (Stmt.return_value e) Stmts.end)) = IsPlain e
IsPlainBody (Body.block (Stmts.next Stmt.return_none Stmts.end)) = ⊥
IsPlainBody (Body.block _) = Unit

-- A single parameter is a name.
abbrev pub IsPlainParams : List Pat → Type 0
IsPlainParams (Pat.other n ∷ []) = ⊥
IsPlainParams _ = Unit

unfoldable pub IsPlainProps : Props → Type 0
IsPlainProps Props.no_props = Unit
IsPlainProps (Props.key_value key e rest) = IsPlainProps rest
IsPlainProps (Props.shorthand name rest) = IsPlainProps rest
IsPlainProps (Props.other_prop n rest) = ⊥
IsPlainProps (Props.spread e rest) = ⊥

abbrev pub IsPlainArg : Expr → Type 0
IsPlainArg (Expr.arrow params body copied) = IsPlainParams params × IsPlainBody body
IsPlainArg (Expr.object props) = IsPlainProps props
IsPlainArg _ = Unit

abbrev pub IsPlainArgs : Args → Type 0
IsPlainArgs (Args.arg spread e Args.no_args) = IsPlainArg e
IsPlainArgs _ = Unit

-- The chain of calls does not start at `super` or `import`.
unfoldable mutual
  pub IsRooted : Expr → Type 0
  IsRooted (Expr.member o prop) = IsRooted o
  IsRooted (Expr.call callee args t) = IsRootedCallee callee
  IsRooted _ = Unit

  pub IsRootedCallee : Callee → Type 0
  IsRootedCallee (Callee.callee_expr e) = IsRooted e
  IsRootedCallee _ = ⊥

>>=-Succeeds :
    {A B : Type 0} (m : Result Failure A) (f : A → Result Failure B)
    → Succeeds m
    → ((a : A) → m ≡ ok a → Succeeds (f a))
    → Succeeds (m >>= f)
>>=-Succeeds (ok a) f h k = k a refl
>>=-Succeeds (err e) f h k = absurd (cc h.1)

property_of-Succeeds :
    (o : Option QExpr) (n : Str) → Succeeds (property_of o (MemberProp.prop_ident n))
property_of-Succeeds none n = (none, refl)
property_of-Succeeds (some o) n = (some (QExpr.property o n), refl)

convert_expr-Succeeds : (e : Expr) → IsPlain e → Succeeds (convert_expr e)
unfolding convert_expr IsPlain
convert_expr-Succeeds (Expr.bin op l r) h =
    >>=-Succeeds (convert_expr l) _ (convert_expr-Succeeds l h.0) (λ a ea.
      >>=-Succeeds (convert_expr r) _ (convert_expr-Succeeds r h.1)
        (λ b eb. (binary_of a (convert_binary_op op) b, refl)))
convert_expr-Succeeds (Expr.paren e) h = convert_expr-Succeeds e h
convert_expr-Succeeds (Expr.member o (MemberProp.prop_ident n)) h =
    >>=-Succeeds (convert_expr o) _ (convert_expr-Succeeds o h) (λ a ea. property_of-Succeeds a n)
convert_expr-Succeeds (Expr.member o (MemberProp.computed e)) h = absurd h
convert_expr-Succeeds (Expr.member o (MemberProp.private n)) h = absurd h
convert_expr-Succeeds (Expr.lit (Lit.num n)) h = (_, refl)
convert_expr-Succeeds (Expr.lit (Lit.str s)) h = (_, refl)
convert_expr-Succeeds (Expr.lit (Lit.bool b)) h = (_, refl)
convert_expr-Succeeds (Expr.lit (Lit.other n)) h = (_, refl)
convert_expr-Succeeds (Expr.ident s) h = (_, refl)
convert_expr-Succeeds (Expr.arrow p b c) h = (_, refl)
convert_expr-Succeeds (Expr.await e) h = (_, refl)
convert_expr-Succeeds (Expr.call c a t) h = (_, refl)
convert_expr-Succeeds (Expr.object p) h = (_, refl)
convert_expr-Succeeds (Expr.other n) h = (_, refl)

convert_filter_expr-Succeeds : (e : Expr) → IsPlain e → Succeeds (convert_filter_expr e)
unfolding convert_filter_expr
convert_filter_expr-Succeeds (Expr.bin op l r) h = convert_expr-Succeeds (Expr.bin op l r) h
convert_filter_expr-Succeeds (Expr.lit (Lit.bool b)) h = (_, refl)
convert_filter_expr-Succeeds x h = (_, refl)

split_expr-Succeeds : (e : Expr) → IsPlain e → Succeeds (split_expr e)
unfolding IsPlain
split_expr-Succeeds (Expr.bin BinaryOp.logical_and l r) h =
    >>=-Succeeds (convert_filter_expr l) _ (convert_filter_expr-Succeeds l h.0)
      (λ q eq. (split_sides q l r, refl))
split_expr-Succeeds x h = ((none, none), refl)

split-Succeeds : (e : Expr) → IsPlain e → Succeeds (split_and_convert_expr e)
unfolding split_and_convert_expr
split-Succeeds e h =
    >>=-Succeeds (convert_filter_expr e) _ (convert_filter_expr-Succeeds e h) (λ q eq. whole q)
  where
    whole : (q : Option QExpr) → Succeeds (split_or_whole q e)
    whole none = split_expr-Succeeds e h
    whole (some q) = (_, refl)

-- A body that yields pieces is one returned expression, which can be replaced.
pub split_body-Succeeds : (body : Body) → IsPlainBody body → Succeeds (split_body body)
split_body-Succeeds (Body.body_expr e) h =
    >>=-Succeeds (split_and_convert_expr e) _ (split-Succeeds e h) (λ p ep. (some p, refl))
split_body-Succeeds (Body.block (Stmts.next (Stmt.return_value e) Stmts.end)) h =
    >>=-Succeeds (split_and_convert_expr e) _ (split-Succeeds e h) (λ p ep. (some p, refl))
split_body-Succeeds (Body.block (Stmts.next Stmt.return_none Stmts.end)) h = absurd h
split_body-Succeeds (Body.block b) h = (none, refl)

pub replace-Succeeds :
    (params : List Pat) (body : Body) (copied : ℕ) (e : Expr) (pieces : Pieces)
    → split_body body ≡ ok (some pieces)
    → Succeeds (rewrite_filter_arrow params body copied e)
unfolding rewrite_filter_arrow
replace-Succeeds params (Body.body_expr b) copied e pieces h = (_, refl)
replace-Succeeds params (Body.block (Stmts.next (Stmt.return_value b) Stmts.end)) copied e pieces
      h =
    (_, refl)
replace-Succeeds params (Body.block (Stmts.next Stmt.return_none Stmts.end)) copied e pieces h =
    absurd (cc h)
replace-Succeeds params (Body.block b) copied e pieces h = absurd (cc h)
