-- ===== src/QueryCompiler/Rewrite/NoQuery.antt =====
-- Calls that are no query, and that the inference finds nothing for them.
use chiselstrike.Prelude.{◌≡◌, refl, Str, text, false, ◌⊎◌, inl, inr, ok, arith}
use chiselstrike.QueryCompiler.{Expr, Callee, Args, MemberProp, Symbols, is_entity}
use chiselstrike.QueryCompiler.Infer.{nothing, infer_filter, infer_find, is_ident_member_prop}

abbrev pub IsNot : MemberProp → Str → Type 0
IsNot prop name = is_ident_member_prop prop name ≡ false

module _ (symbols : Symbols) where
  -- A name that is not that of an entity.
  abbrev pub IsForeign : Expr → Type 0
  IsForeign (Expr.ident s) = is_entity symbols s ≡ false
  IsForeign _ = ⊥

  -- The result of a method of such a name.
  abbrev pub IsForeignCursor : Expr → Type 0
  IsForeignCursor (Expr.call (Callee.callee_expr (Expr.member o p)) a t) = IsForeign o
  IsForeignCursor _ = ⊥

  -- A call that is no query: its method has another name, or it is called on a foreign name.
  abbrev pub IsNoQuery : Callee → Type 0
  IsNoQuery (Callee.callee_expr (Expr.member o prop)) =
      (IsNot prop (text "filter") ⊎ IsForeignCursor o)
      × ((IsNot prop (text "findMany") × IsNot prop (text "findOne")) ⊎ IsForeign o)
  IsNoQuery _ = Unit

  infer_filter-foreign :
      (o : Expr) (prop : MemberProp) (args : Args)
      → IsForeignCursor o
      → infer_filter (Callee.callee_expr (Expr.member o prop)) args symbols ≡ ok nothing
  unfolding infer_filter
  infer_filter-foreign (Expr.call (Callee.callee_expr (Expr.member (Expr.ident s) p)) a t) prop args
        h =
      ground (arith, h)
  infer_filter-foreign o prop args h = absurd h

  infer_find-foreign :
      (o : Expr) (prop : MemberProp) (args : Args)
      → IsForeign o
      → infer_find (Callee.callee_expr (Expr.member o prop)) args symbols ≡ ok nothing
  unfolding infer_find
  infer_find-foreign (Expr.ident s) prop args h = rw h refl
  infer_find-foreign o prop args h = absurd h

  infer_find-other :
      (o : Expr) (prop : MemberProp) (args : Args)
      → IsNot prop (text "findMany")
      → IsNot prop (text "findOne")
      → infer_find (Callee.callee_expr (Expr.member o prop)) args symbols ≡ ok nothing
  unfolding infer_find
  infer_find-other o prop args h k = ground (arith, h, k)

  pub infer_filter-IsNoQuery :
      (c : Callee) (args : Args) → IsNoQuery c → infer_filter c args symbols ≡ ok nothing
  unfolding infer_filter
  infer_filter-IsNoQuery Callee.super args h = refl
  infer_filter-IsNoQuery Callee.import args h = refl
  infer_filter-IsNoQuery (Callee.callee_expr (Expr.member o prop)) args h = elim h.0 [
    | inl other ↦ rw other refl
    | inr foreign ↦ infer_filter-foreign o prop args foreign
  ]
  infer_filter-IsNoQuery (Callee.callee_expr (Expr.arrow p b c)) args h = refl
  infer_filter-IsNoQuery (Callee.callee_expr (Expr.await e)) args h = refl
  infer_filter-IsNoQuery (Callee.callee_expr (Expr.call c a t)) args h = refl
  infer_filter-IsNoQuery (Callee.callee_expr (Expr.ident n)) args h = refl
  infer_filter-IsNoQuery (Callee.callee_expr (Expr.lit l)) args h = refl
  infer_filter-IsNoQuery (Callee.callee_expr (Expr.bin o l r)) args h = refl
  infer_filter-IsNoQuery (Callee.callee_expr (Expr.paren e)) args h = refl
  infer_filter-IsNoQuery (Callee.callee_expr (Expr.object p)) args h = refl
  infer_filter-IsNoQuery (Callee.callee_expr (Expr.other n)) args h = refl

  pub infer_find-IsNoQuery :
      (c : Callee) (args : Args) → IsNoQuery c → infer_find c args symbols ≡ ok nothing
  unfolding infer_find
  infer_find-IsNoQuery Callee.super args h = refl
  infer_find-IsNoQuery Callee.import args h = refl
  infer_find-IsNoQuery (Callee.callee_expr (Expr.member o prop)) args h = elim h.1 [
    | inl other ↦ infer_find-other o prop args other.0 other.1
    | inr foreign ↦ infer_find-foreign o prop args foreign
  ]
  infer_find-IsNoQuery (Callee.callee_expr (Expr.arrow p b c)) args h = refl
  infer_find-IsNoQuery (Callee.callee_expr (Expr.await e)) args h = refl
  infer_find-IsNoQuery (Callee.callee_expr (Expr.call c a t)) args h = refl
  infer_find-IsNoQuery (Callee.callee_expr (Expr.ident n)) args h = refl
  infer_find-IsNoQuery (Callee.callee_expr (Expr.lit l)) args h = refl
  infer_find-IsNoQuery (Callee.callee_expr (Expr.bin o l r)) args h = refl
  infer_find-IsNoQuery (Callee.callee_expr (Expr.paren e)) args h = refl
  infer_find-IsNoQuery (Callee.callee_expr (Expr.object p)) args h = refl
  infer_find-IsNoQuery (Callee.callee_expr (Expr.other n)) args h = refl
