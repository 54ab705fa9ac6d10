-- ===== src/Crud/Deletion.antt =====
-- server/src/datastore/crud.rs: which rows the URL of a deletion lets go.
use chiselstrike.Prelude.{
  Str, text, true, false, not, ◌&&◌, ◌||◌, Option, none, some, List, [], ◌∷◌, any, str_eq, Result,
  ok, ensure, >>=-eq-ok, ◌≡◌, sym, ap, ◌∙◌, Bool-cases, subst, inl, inr,
}
use chiselstrike.Expr.{Expr, and_expr}
use chiselstrike.Expr.Eval.{Truth, holds, both, both_assoc, both-holds, Row, truth, truth-and}
use chiselstrike.Types.{Entity}
use chiselstrike.TypeSystem.{TypeSystem}
use chiselstrike.Crud.{Codec, CrudError, unfiltered_delete}
use chiselstrike.Crud.Asked.{asked}
use chiselstrike.Crud.Conditions.{means, delete_field-asked}
use chiselstrike.Crud.Query.{
  is_none, delete_field, delete_conditions, conjoin_all, delete_query_to_filter, delete_base,
  delete_from_url_query,
}

-- All conditions of a URL.
unfoldable pub all_asked : Codec → Entity → TypeSystem → Row → List (Str × Str) → Truth
all_asked codec base ts r [] = holds
all_asked codec base ts r ((key, v) ∷ params) =
    both (asked codec base ts r key v) (all_asked codec base ts r params)

abbrev all_true : Row → List Expr → Truth
all_true r [] = holds
all_true r (e ∷ es) = both (truth r e) (all_true r es)

-- What lets a deletion go ahead: a filter that means the conditions of the URL, or `all=true`.
unfoldable pub IsAllowed : Codec → Entity → TypeSystem → List (Str × Str) → Option Expr → Type 0
IsAllowed codec base ts params none =
    any (λ p. str_eq p.0 (text "all") && str_eq p.1 (text "true")) params ≡ true
IsAllowed codec base ts params (some e) = (r : Row) → truth r e ≡ all_asked codec base ts r params

conjoin_all-truth :
    (r : Row) (f e : Expr) (es : List Expr)
    → conjoin_all (some f) es ≡ some e
    → truth r e ≡ both (truth r f) (all_true r es)
unfolding conjoin_all
conjoin_all-truth r f e [] h = let is : f ≡ e = cc in ap (truth r) (sym is) ∙ sym (both-holds _)
conjoin_all-truth r f e (x ∷ es) h =
    conjoin_all-truth r (and_expr f x) e es h
    ∙ ap (λ t. both t (all_true r es)) (truth-and r f x)
    ∙ both_assoc (truth r f) (truth r x) (all_true r es)

conjoin_all-all_true :
    (r : Row) (e : Expr) (es : List Expr) → conjoin_all none es ≡ some e → truth r e ≡ all_true r es
unfolding conjoin_all
conjoin_all-all_true r e [] h = cc
conjoin_all-all_true r e (x ∷ es) h = conjoin_all-truth r x e es h

abbrev kept_or : Option Expr → List Expr → Result CrudError (List Expr)
kept_or x rest = ok (elim x [ none ↦ rest | some y ↦ y ∷ rest ])

delete_conditions-asked :
    (codec : Codec) (base : Entity) (ts : TypeSystem) (r : Row) (params : List (Str × Str))
    (es : List Expr)
    → delete_conditions codec base ts params ≡ ok es
    → all_true r es ≡ all_asked codec base ts r params
unfolding delete_conditions all_asked
delete_conditions-asked codec base ts r [] es h = let is : [] ≡ es = cc in ap (all_true r) (sym is)
delete_conditions-asked codec base ts r ((key, v) ∷ params) es h =
    let (x, one, h1) = >>=-eq-ok (delete_field codec base ts key v) _ h in
    let (rest, more, h2) = >>=-eq-ok (delete_conditions codec base ts params) _ h1 in
    let next : all_true r rest ≡ all_asked codec base ts r params =
      delete_conditions-asked codec base ts r params rest more in
    put params rest es x h2 next
    ∙ ap (λ t. both t (all_asked codec base ts r params))
        (delete_field-asked codec base ts r key v x one)
  where
    put :
        (ps : List (Str × Str)) (rest all : List Expr) (x : Option Expr)
        → kept_or x rest ≡ ok all
        → all_true r rest ≡ all_asked codec base ts r ps
        → all_true r all ≡ both (means codec base ts r x) (all_asked codec base ts r ps)
    put ps rest all none p n = let is : rest ≡ all = cc in ap (all_true r) (sym is) ∙ n
    put ps rest all (some y) p n =
        let is : y ∷ rest ≡ all = cc in ap (all_true r) (sym is) ∙ ap (both _) n

filter-IsAllowed :
    (codec : Codec) (base : Entity) (ts : TypeSystem) (params : List (Str × Str)) (g : Option Expr)
    {u : Unit {0}}
    → delete_query_to_filter codec base ts params ≡ ok g
    → ensure
        (not (is_none g) || any (λ p. str_eq p.0 (text "all") && str_eq p.1 (text "true")) params)
        unfiltered_delete
      ≡ ok u
    → IsAllowed codec base ts params g
unfolding IsAllowed delete_query_to_filter
filter-IsAllowed codec base ts params none two guard =
    elim (Bool-cases (any (λ p. str_eq p.0 (text "all") && str_eq p.1 (text "true")) params)) [
      | inl is ↦ is
      | inr is ↦ absurd (refused (ap (λ b. ensure b unfiltered_delete) (sym is) ∙ guard))
    ]
  where
    refused : {u : Unit {0}} → ensure false unfiltered_delete ≡ ok u → ⊥
    refused h = cc
filter-IsAllowed codec base ts params (some e) two guard = λ r.
    let (es, one, folded) = >>=-eq-ok (delete_conditions codec base ts params) _ two in
    let is : conjoin_all none es ≡ some e = cc in
    conjoin_all-all_true r e es is ∙ delete_conditions-asked codec base ts r params es one

-- A deletion that goes ahead without a filter has the parameter `all=true`. The filter of one that has
-- a filter has, on every row, the truth value of the conjunction of what all parameters of the URL ask:
-- `.a.b~op=v` that the field under the path compares so with the value, `filter` that the row matches
-- the JSON filter, and any other parameter nothing.
pub delete_from_url_query-IsAllowed :
    (codec : Codec) (ts : TypeSystem) (name : Str) (params : List (Str × Str)) (base : Entity)
    (f : Option Expr)
    → delete_from_url_query codec ts name params ≡ ok (base, f)
    → IsAllowed codec base ts params f
unfolding delete_from_url_query
delete_from_url_query-IsAllowed codec ts name params base f h =
    let (b, one, h1) = >>=-eq-ok (delete_base ts name) _ h in
    let (g, two, h2) = >>=-eq-ok (delete_query_to_filter codec b ts params) _ h1 in
    let (_, guard, h3) =
      >>=-eq-ok
        (ensure
          (not (is_none g) || any (λ p. str_eq p.0 (text "all") && str_eq p.1 (text "true")) params)
          unfiltered_delete)
        _ h2 in
    let same_base : b ≡ base = cc in
    let same : g ≡ f = cc in
    subst (λ x. IsAllowed codec x ts params f) same_base
      (subst (λ y. IsAllowed codec b ts params y) same
        (filter-IsAllowed codec b ts params g two guard))
