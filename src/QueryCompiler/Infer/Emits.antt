-- ===== src/QueryCompiler/Infer/Emits.antt =====
-- On plain calls the inference does not panic, and neither does the emission of what it infers.
use chiselstrike.Prelude.{
  ℕ, ◌≡◌, refl, Str, text, Bool-cases, Option, none, some, inl, inr, List, [], ◌∷◌, Result, ok, err,
  ◌>>=◌,
}
use chiselstrike.QueryCompiler.{
  Expr, Callee, Args, Body, Pat, Props, Failure, Filter, Symbols, MemberProp,
}
use chiselstrike.QueryCompiler.Split.{Pieces, rewrite_filter_arrow}
use chiselstrike.QueryCompiler.Properties.{collect_names, from_object_lit}
use chiselstrike.QueryCompiler.Infer.{
  Inferred, nothing, split_body, rewrite_post, make_filter, extract_arrow, extract_arg,
  extract_filter, extract_at, lookup_entity_type, lookup_callee_entity_type, infer_filter,
  infer_find, infer_find_as, is_rewritable_filter,
}
use chiselstrike.QueryCompiler.Infer.Plain.{
  Succeeds, IsPlainBody, IsPlainParams, IsPlainProps, IsPlainArg, IsPlainArgs, IsRooted,
  IsRootedCallee, split_body-Succeeds, replace-Succeeds,
}
use chiselstrike.QueryCompiler.Emit.{to_ts_expr}

module _ (f64_of : ℕ → ℕ) where
  -- The filter, if there is one, can be emitted.
  abbrev pub CanEmit : Inferred → Type 0
  CanEmit (none, properties) = Unit
  CanEmit (some f, properties) = Succeeds (to_ts_expr f64_of f)

  abbrev pub InfersPlainly : Result Failure Inferred → Type 0
  InfersPlainly m = (found : Inferred) × (m ≡ ok found) × CanEmit found

  infers_bind :
      {A : Type 0} (m : Result Failure A) (f : A → Result Failure Inferred)
      → Succeeds m
      → ((a : A) → m ≡ ok a → InfersPlainly (f a))
      → InfersPlainly (m >>= f)
  infers_bind (ok a) f h k = k a refl
  infers_bind (err e) f h k = absurd (cc h.1)

  -- A method call can be called by another name.
  to_ts_expr-Succeeds :
      (o : Expr) (p : MemberProp) (f : Filter)
      → f.callee ≡ Callee.callee_expr (Expr.member o p)
      → Succeeds (to_ts_expr f64_of f)
  unfolding to_ts_expr
  to_ts_expr-Succeeds o p f h = rw (h) (_, refl)

  module _ (o : Expr) (p : MemberProp) (args : Args) (function : Str) where
    make_filter-InfersPlainly :
        (pieces : Option Pieces) (params : List Pat) (body : Body) (copied : ℕ) (param entity : Str)
        → split_body body ≡ ok pieces
        → InfersPlainly (
            make_filter pieces
              (Callee.callee_expr (Expr.member o p))
              args
              params
              body
              copied
              param
              entity
              function)
    make_filter-InfersPlainly none params body copied param entity h = (nothing, refl, tt)
    make_filter-InfersPlainly (some (none, post)) params body copied param entity h =
        (nothing, refl, tt)
    make_filter-InfersPlainly (some (some (e, q), post)) params body copied param entity h =
        infers_bind (rewrite_filter_arrow params body copied e) _
          (replace-Succeeds params body copied e _ h)
          (λ query eq.
            infers_bind (rewrite_post params body copied post) _ (post_succeeds post)
              (λ out eo. (_, refl, to_ts_expr-Succeeds o p _ refl)))
      where
        post_succeeds : (r : Option Expr) → Succeeds (rewrite_post params body copied r)
        post_succeeds none = (none, refl)
        post_succeeds (some x) =
            let (a, ea) = replace-Succeeds params body copied x (some (e, q), post) h in
            (some a, rw ea refl)

    extract_arrow-InfersPlainly :
        (params : List Pat) (body : Body) (copied : ℕ) (entity : Str)
        → IsPlainParams params
        → IsPlainBody body
        → InfersPlainly (
            extract_arrow
              (Callee.callee_expr (Expr.member o p))
              args
              params
              body
              copied
              entity
              function)
    extract_arrow-InfersPlainly [] body copied entity hp hb = (nothing, refl, tt)
    extract_arrow-InfersPlainly (Pat.other n ∷ []) body copied entity hp hb = absurd hp
    extract_arrow-InfersPlainly (Pat.ident s ∷ []) body copied entity hp hb =
        infers_bind (split_body body) _ (split_body-Succeeds body hb)
          (λ pieces ep. make_filter-InfersPlainly pieces (Pat.ident s ∷ []) body copied s entity ep)
    extract_arrow-InfersPlainly (a ∷ b ∷ ps) body copied entity hp hb = (nothing, refl, tt)

  collect_names-Succeeds :
      (props : Props) (names : List Str) → IsPlainProps props → Succeeds (collect_names props names)
  unfolding collect_names IsPlainProps
  collect_names-Succeeds Props.no_props names h = (names, refl)
  collect_names-Succeeds (Props.key_value key e rest) names h = collect_names-Succeeds rest _ h
  collect_names-Succeeds (Props.shorthand name rest) names h = collect_names-Succeeds rest _ h
  collect_names-Succeeds (Props.other_prop n rest) names h = absurd h
  collect_names-Succeeds (Props.spread e rest) names h = absurd h

  from_object_lit-InfersPlainly :
      (entity : Str) (props : Props)
      → IsPlainProps props
      → InfersPlainly (do properties ← from_object_lit entity props; ok (none, properties))
  unfolding from_object_lit
  from_object_lit-InfersPlainly entity props h =
      let (names, en) = collect_names-Succeeds props [] h in rw en ((none, _), refl, tt)

  extract_arg-InfersPlainly :
      (o : Expr) (p : MemberProp) (args : Args) (e : Expr) (entity function : Str)
      → IsPlainArg e
      → InfersPlainly (extract_arg (Callee.callee_expr (Expr.member o p)) args e entity function)
  extract_arg-InfersPlainly o p args (Expr.arrow params body copied) entity function h =
      extract_arrow-InfersPlainly o p args function params body copied entity h.0 h.1
  extract_arg-InfersPlainly o p args (Expr.object props) entity function h =
      from_object_lit-InfersPlainly entity props h
  extract_arg-InfersPlainly o p args x entity function h = (nothing, refl, tt)

  extract_filter-InfersPlainly :
      (o : Expr) (p : MemberProp) (args : Args) (entity function : Str)
      → IsPlainArgs args
      → InfersPlainly (extract_filter (Callee.callee_expr (Expr.member o p)) args entity function)
  unfolding extract_filter
  extract_filter-InfersPlainly o p (Args.arg s e Args.no_args) entity function h =
      extract_arg-InfersPlainly o p (Args.arg s e Args.no_args) e entity function h
  extract_filter-InfersPlainly o p args entity function h = (nothing, refl, tt)

  mutual
    unfolding lookup_entity_type IsRooted IsRootedCallee lookup_callee_entity_type

    lookup-Succeeds : (e : Expr) → IsRooted e → Succeeds (lookup_entity_type e)
    lookup-Succeeds (Expr.member o prop) h = lookup-Succeeds o h
    lookup-Succeeds (Expr.call callee args t) h = lookup_callee-Succeeds callee h
    lookup-Succeeds (Expr.ident s) h = (some s, refl)
    lookup-Succeeds x h = (none, refl)

    lookup_callee-Succeeds :
        (c : Callee) → IsRootedCallee c → Succeeds (lookup_callee_entity_type c)
    lookup_callee-Succeeds (Callee.callee_expr e) h = lookup-Succeeds e h
    lookup_callee-Succeeds Callee.super h = absurd h
    lookup_callee-Succeeds Callee.import h = absurd h

  extract_at-InfersPlainly :
      (entity : Option Str) (o : Expr) (p : MemberProp) (args : Args) (function : Str)
      → IsPlainArgs args
      → InfersPlainly (extract_at entity (Callee.callee_expr (Expr.member o p)) args function)
  extract_at-InfersPlainly none o p args function h = (nothing, refl, tt)
  extract_at-InfersPlainly (some entity) o p args function h =
      extract_filter-InfersPlainly o p args entity function h

  entity_then_extract :
      (o : Expr) (p : MemberProp) (args : Args) (function : Str)
      → IsRootedCallee (Callee.callee_expr (Expr.member o p))
      → IsPlainArgs args
      → InfersPlainly (do
        entity ← lookup_callee_entity_type (Callee.callee_expr (Expr.member o p))
        extract_at entity (Callee.callee_expr (Expr.member o p)) args function)
  entity_then_extract o p args function hr ha =
      infers_bind (lookup_callee_entity_type (Callee.callee_expr (Expr.member o p))) _
        (lookup_callee-Succeeds _ hr)
        (λ entity ee. extract_at-InfersPlainly entity o p args function ha)

  module _ (symbols : Symbols) where
    infer_filter-member :
        (o : Expr) (p : MemberProp) (args : Args)
        → IsRootedCallee (Callee.callee_expr (Expr.member o p))
        → IsPlainArgs args
        → InfersPlainly (infer_filter (Callee.callee_expr (Expr.member o p)) args symbols)
    unfolding infer_filter
    infer_filter-member o p args hr ha =
        elim (Bool-cases (is_rewritable_filter (Callee.callee_expr (Expr.member o p)) symbols)) [
          | inl taken ↦ rw taken (entity_then_extract o p args (text "__filter") hr ha)
          | inr left ↦ rw left (nothing, refl, tt)
        ]

    pub infer_filter-InfersPlainly :
        (c : Callee) (args : Args)
        → IsRootedCallee c
        → IsPlainArgs args
        → InfersPlainly (infer_filter c args symbols)
    unfolding infer_filter
    infer_filter-InfersPlainly (Callee.callee_expr (Expr.member o p)) args hr ha =
        infer_filter-member o p args hr ha
    infer_filter-InfersPlainly c args hr ha = (nothing, refl, tt)

    infer_find_as-InfersPlainly :
        (function : Option Str) (o : Expr) (p : MemberProp) (args : Args)
        → IsRootedCallee (Callee.callee_expr (Expr.member o p))
        → IsPlainArgs args
        → InfersPlainly (infer_find_as function (Callee.callee_expr (Expr.member o p)) args)
    infer_find_as-InfersPlainly none o p args hr ha = (nothing, refl, tt)
    infer_find_as-InfersPlainly (some function) o p args hr ha =
        entity_then_extract o p args function hr ha

    pub infer_find-InfersPlainly :
        (c : Callee) (args : Args)
        → IsRootedCallee c
        → IsPlainArgs args
        → InfersPlainly (infer_find c args symbols)
    unfolding infer_find
    infer_find-InfersPlainly (Callee.callee_expr (Expr.member o p)) args hr ha =
        infer_find_as-InfersPlainly _ o p args hr ha
    infer_find-InfersPlainly c args hr ha = (nothing, refl, tt)
