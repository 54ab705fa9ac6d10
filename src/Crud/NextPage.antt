-- ===== src/Crud/NextPage.antt =====
-- server/src/datastore/crud.rs: the query that the URL of a page makes.
use chiselstrike.Prelude
use chiselstrike.Prelude.{
  ◌==◌, Str, text, Bool, true, false, not, ◌||◌, Option, none, some, List, [], ◌∷◌, ◌++◌, str_eq,
  if◌then◌else◌, Result, ok, err, ensure, ok_or, ◌>>=◌, >>=-eq-ok, ◌≡◌, refl, sym, ap, ◌∙◌, arith,
  Bool-cases, inl, inr, ◌⊎◌, str_eq_iff, subst,
}
use chiselstrike.Types.{Entity, is_none}
use chiselstrike.TypeSystem.{TypeSystem}
use chiselstrike.Crud.{
  Codec, Cursor, CrudError, get_sort, get_filter, bad_number, parse_sort, filter_from_param,
  several_cursors, Expr,
}
use chiselstrike.Crud.Query.{
  Query, new_query, param_step, params_loop, from_url_query, apply_cursor, ensure_sort_by_id,
  is_kept, page_params, cursor_from_string, json_filter, parse_u64, field_param,
}

-- A query without what the parameters `cursor` and `sort` set.
abbrev pub without_order : Query → Query
without_order q = record q { cursor = none; sort = new_query.sort }

-- An arm whose update commutes with `without_order`.
arm :
    {A : Type 0} (m : Result CrudError A) (f : A → Query → Query) (q q' : Query)
    → ((a : A) → without_order (f a q) ≡ f a (without_order q))
    → (m >>= λ a. ok (f a q)) ≡ ok q'
    → (m >>= λ a. ok (f a (without_order q))) ≡ ok (without_order q')
arm (ok a) f q q' commutes h =
    let is : f a q ≡ q' = cc in ap ok (sym (commutes a) ∙ ap without_order is)
arm (err e) f q q' commutes h = cc

if-ok :
    (b : Bool) {x y x' y' : Result CrudError Query} (q r : Query)
    → (b ≡ true → x ≡ ok q → x' ≡ ok r)
    → (y ≡ ok q → y' ≡ ok r)
    → (if b then x else y) ≡ ok q
    → (if b then x' else y') ≡ ok r
if-ok true q r f g h = f refl h
if-ok false q r f g h = g h

not_kept : (b c : Bool) → not (b || c) ≡ true → (b ≡ true → ⊥) × (c ≡ true → ⊥)
not_kept b c h = ((λ x. ground arith), (λ x. ground arith))

dropped : (b c : Bool) → not (b || c) ≡ false → (b ≡ true) ⊎ (c ≡ true)
dropped true c h = inl refl
dropped false c h = inr (ground arith)

module _ (codec : Codec) (base : Entity) (ts : TypeSystem) where
  field-kept :
      (key v : Str) (q q' : Query)
      → field_param codec base ts key v q ≡ ok q'
      → field_param codec base ts key v (without_order q) ≡ ok (without_order q')
  unfolding field_param
  field-kept [] v q q' h = let is : q ≡ q' = cc in ap (λ x. ok (without_order x)) is
  field-kept (c ∷ name) v q q' h =
      if-ok (c == b'.') q' (without_order q')
        (λ _.
          arm (filter_from_param codec base name v ts)
            (λ e q1. record q1 { filters = q1.filters ++ e ∷ [] }) q q' (λ a. refl))
        (λ p. let is : q ≡ q' = cc in ap (λ x. ok (without_order x)) is) h

  step-kept :
      (key v : Str) (q q' : Query)
      → is_kept (key, v) ≡ true
      → param_step codec base ts key v q ≡ ok q'
      → param_step codec base ts key v (without_order q) ≡ ok (without_order q')
  unfolding param_step
  step-kept key v q q' kept =
      if-ok (str_eq key (text "sort")) q' (without_order q')
        (λ is h. absurd ((not_kept (str_eq key (text "cursor")) _ kept).1 is))
        (if-ok (str_eq key (text "limit") || str_eq key (text "page_size")) q' (without_order q')
          (λ _.
            arm (ok_or (parse_u64 v) (bad_number v)) (λ n q1. record q1 { page_size = n }) q q'
              (λ a. refl))
          (if-ok (str_eq key (text "offset")) q' (without_order q')
            (λ _.
              arm (ok_or (parse_u64 v) (bad_number v)) (λ n q1. record q1 { offset = some n }) q q'
                (λ a. refl))
            (if-ok (str_eq key (text "filter")) q' (without_order q')
              (λ _.
                arm (json_filter codec v) (λ e q1. record q1 { filters = q1.filters ++ e ∷ [] }) q
                  q' (λ a. refl))
              (if-ok (str_eq key (text "cursor")) q' (without_order q')
                (λ is h. absurd ((not_kept (str_eq key (text "cursor")) _ kept).0 is))
                (field-kept key v q q')))))

  step-dropped :
      (key v : Str) (q q' : Query)
      → is_kept (key, v) ≡ false
      → param_step codec base ts key v q ≡ ok q'
      → without_order q ≡ without_order q'
  unfolding param_step str_eq
  step-dropped key v q q' gone h =
      elim (dropped (str_eq key (text "cursor")) (str_eq key (text "sort")) gone) [
        | inl is ↦
            let h1 : param_step codec base ts (text "cursor") v q ≡ ok q' =
              ap (λ k. param_step codec base ts k v q) (sym ((str_eq_iff key (text "cursor")).0 is))
              ∙ h in
            let (_, _, h2) = >>=-eq-ok (ensure (is_none q.cursor) several_cursors) _ h1 in
            let (c, _, made) = >>=-eq-ok (cursor_from_string codec v) _ h2 in
            let is : record q { cursor = some c } ≡ q' = cc in ap without_order is
        | inr is ↦
            let h1 : param_step codec base ts (text "sort") v q ≡ ok q' =
              ap (λ k. param_step codec base ts k v q) (sym ((str_eq_iff key (text "sort")).0 is))
              ∙ h in
            let (o, _, made) = >>=-eq-ok (parse_sort base v) _ h1 in
            let is : record q { sort = o } ≡ q' = cc in ap without_order is
      ]

  loop-kept :
      (params : List (Str × Str)) (q q' : Query)
      → params_loop codec base ts params q ≡ ok q'
      → params_loop codec base ts (Prelude.filter is_kept params) (without_order q)
        ≡ ok (without_order q')
  unfolding params_loop
  loop-kept [] q q' h = let is : q ≡ q' = cc in ap (λ x. ok (without_order x)) is
  loop-kept ((key, v) ∷ params) q q' h =
      let (r, one, h1) = >>=-eq-ok (param_step codec base ts key v q) _ h in
      elim (Bool-cases (is_kept (key, v))) [
        | inl kept ↦ rw (kept, step-kept key v q r kept one) (loop-kept params r q' h1)
        | inr gone ↦ rw (gone, step-dropped key v q r gone one) (loop-kept params r q' h1)
      ]

  cursor-last :
      (params : List (Str × Str)) (s : Str) (q q' : Query) (c : Cursor)
      → params_loop codec base ts params q ≡ ok q'
      → q'.cursor ≡ none
      → codec.parse_cursor s ≡ some c
      → Prelude.is_empty c.axes ≡ false
      → params_loop codec base ts (params ++ (text "cursor", s) ∷ []) q
        ≡ ok (record q' { cursor = some c })
  unfolding params_loop param_step str_eq cursor_from_string
  cursor-last [] s q q' c h free parsed axes =
      let is : q ≡ q' = cc in
      rw (ap Query.cursor is ∙ free, parsed, axes)
        (ap {A = Query} (λ x. ok (record x { cursor = some c })) is)
  cursor-last ((key, v) ∷ params) s q q' c h free parsed axes =
      let (r, one, h1) = >>=-eq-ok (param_step codec base ts key v q) _ h in
      rw one (cursor-last params s r q' c h1 free parsed axes)

  -- `own` are the filters of a query less the filter of its cursor, which stands last.
  abbrev pub OwnFilters : Option Cursor → List Expr → List Expr → Type 0
  OwnFilters none filters own = filters ≡ own
  OwnFilters (some c) filters own =
      (e : Expr) × (get_filter codec c base ts ≡ ok e) × (filters ≡ own ++ e ∷ [])

  own_filters :
      (k : Option Cursor) (q0 q : Query)
      → apply_cursor codec base ts k q0 ≡ ok q
      → OwnFilters k q.filters q0.filters
        × (q.page_size ≡ q0.page_size)
        × (q.offset ≡ q0.offset)
        × (q.cursor ≡ q0.cursor)
  unfolding apply_cursor
  own_filters none q0 q h =
      let is : q0 ≡ q = cc in
      (
        ap Query.filters (sym is),
        ap Query.page_size (sym is),
        ap Query.offset (sym is),
        ap Query.cursor (sym is),
      )
  own_filters (some c) q0 q h =
      let (e, got, made) = >>=-eq-ok (get_filter codec c base ts) _ h in
      let is : record q0 { sort = get_sort c; filters = q0.filters ++ e ∷ [] } ≡ q = cc in
      (
        (e, got, ap Query.filters (sym is)),
        ap Query.page_size (sym is),
        ap Query.offset (sym is),
        ap Query.cursor (sym is),
      )

-- When the parameters of a URL make a query, the cursor of a page decodes to a cursor with axes, and
-- that cursor has a filter, then the parameters of the URL of the page, those of the URL without
-- `cursor` and `sort` and with the new cursor, make a query too. It has the page size and the offset
-- of the first, the sort of the new cursor, and as its filters those of the first, less the filter of
-- the first one's cursor, followed by the filter of the new cursor.
pub from_url_query-page_params :
    (codec : Codec) (base : Entity) (ts : TypeSystem) (params : List (Str × Str)) (q : Query)
    (s : Str) (c : Cursor) (e : Expr)
    → from_url_query codec base ts params ≡ ok q
    → codec.parse_cursor s ≡ some c
    → Prelude.is_empty c.axes ≡ false
    → get_filter codec c base ts ≡ ok e
    → (p : Query) × (own : List Expr) × (from_url_query codec base ts (page_params params s) ≡ ok p)
      × OwnFilters codec base ts q.cursor q.filters own
      × (p.filters ≡ own ++ e ∷ [])
      × (p.sort ≡ get_sort c)
      × (p.page_size ≡ q.page_size)
      × (p.offset ≡ q.offset)
unfolding from_url_query
from_url_query-page_params codec base ts params q s c e h parsed axes got =
    let (q0, one, h1) = >>=-eq-ok (params_loop codec base ts params new_query) _ h in
    let (own, size, off, cur) =
      own_filters codec base ts q0.cursor (record q0 { sort = ensure_sort_by_id q0.sort }) q h1 in
    let again : params_loop codec base ts (page_params params s) new_query
        ≡ ok (record q0 { cursor = some c; sort = new_query.sort }) =
      cursor-last codec base ts (Prelude.filter is_kept params) s new_query (without_order q0) c
        (loop-kept codec base ts params new_query q0 one) refl parsed axes in
    (
      record q0 { cursor = some c; sort = get_sort c; filters = q0.filters ++ e ∷ [] },
      q0.filters,
      rw again (unfold apply_cursor in rw got refl),
      subst (λ k. OwnFilters codec base ts k q.filters q0.filters) (sym cur) own,
      refl,
      refl,
      sym size,
      sym off,
    )
