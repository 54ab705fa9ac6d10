-- ===== src/Crud/Axes.antt =====
-- server/src/datastore/crud.rs: the sort keys of the queries that URLs make.
use chiselstrike.Prelude
use chiselstrike.Prelude.{
  Str, text, Bool, true, false, not, any, Option, none, some, List, [], ◌∷◌, ◌++◌, str_eq, Result,
  ok, err, ensure, ok_or, ◌>>=◌, >>=-eq-ok, ◌≡◌, refl, sym, ap, ◌∙◌, arith, map, if◌then◌else◌,
  subst,
}
use chiselstrike.Types.{Entity}
use chiselstrike.TypeSystem.{TypeSystem}
use chiselstrike.QueryPlan.{SortKey, SortBy}
use chiselstrike.Types.{id_name}
use chiselstrike.Prelude.{◌||◌, ◌==◌, subst}
use chiselstrike.Crud.{
  bad_cursor, empty_cursor, several_cursors, bad_number, parse_sort, filter_from_param, Codec,
  Cursor, CursorAxis, CrudError, get_sort, get_filter,
}
use chiselstrike.Crud.Query.{
  is_none, parse_u64, json_filter, id_key, field_of, Query, new_query, param_step, params_loop,
  from_url_query, apply_cursor, ensure_sort_by_id, cursor_from_string, field_param, visible_keys,
  JsonObject, cursor_from_pivot,
}

-- A cursor that was decoded has axes.
HasAxes : Option Cursor → Type 0
HasAxes none = Unit
HasAxes (some c) = Prelude.is_empty c.axes ≡ false

-- An arm that does not touch the cursor.
arm-cursor :
    {A : Type 0} (m : Result CrudError A) (f : A → Query → Query) (q q' : Query)
    → ((a : A) → Query.cursor (f a q) ≡ q.cursor)
    → (m >>= λ a. ok (f a q)) ≡ ok q'
    → HasAxes q.cursor
    → HasAxes q'.cursor
arm-cursor (ok a) f q q' keeps h axes =
    let is : f a q ≡ q' = cc in subst HasAxes (sym (keeps a) ∙ ap Query.cursor is) axes
arm-cursor (err e) f q q' keeps h axes = cc

decoded-HasAxes :
    (codec : Codec) (v : Str) (c : Cursor) → cursor_from_string codec v ≡ ok c → HasAxes (some c)
unfolding cursor_from_string HasAxes
decoded-HasAxes codec v c h =
    let (d, _, h1) = >>=-eq-ok (ok_or (codec.parse_cursor v) bad_cursor) _ h in
    let (_, guard, h2) = >>=-eq-ok (ensure (not (Prelude.is_empty d.axes)) empty_cursor) _ h1 in
    let is : d ≡ c = cc in
    ap (λ x. Prelude.is_empty (Cursor.axes x)) (sym is) ∙ guarded (Prelude.is_empty d.axes) guard
  where
    guarded : (b : Bool) {u : Unit {0}} → ensure (not b) empty_cursor ≡ ok u → b ≡ false
    guarded true h = cc
    guarded false h = refl

if-HasAxes :
    (b : Bool) {x y : Result CrudError Query} (q : Query)
    → (x ≡ ok q → HasAxes q.cursor)
    → (y ≡ ok q → HasAxes q.cursor)
    → (if b then x else y) ≡ ok q
    → HasAxes q.cursor
if-HasAxes true q f g h = f h
if-HasAxes false q f g h = g h

module _ (codec : Codec) (base : Entity) (ts : TypeSystem) where
  field-HasAxes :
      (key v : Str) (q q' : Query)
      → HasAxes q.cursor
      → field_param codec base ts key v q ≡ ok q'
      → HasAxes q'.cursor
  unfolding field_param
  field-HasAxes [] v q q' axes h = let is : q ≡ q' = cc in subst HasAxes (ap Query.cursor is) axes
  field-HasAxes (c ∷ name) v q q' axes h =
      if-HasAxes (c == b'.') q'
        (λ p.
          arm-cursor (filter_from_param codec base name v ts)
            (λ e q1. record q1 { filters = q1.filters ++ e ∷ [] }) q q' (λ a. refl) p axes)
        (λ p. let is : q ≡ q' = cc in subst HasAxes (ap Query.cursor is) axes) h

  step-HasAxes :
      (key v : Str) (q q' : Query)
      → HasAxes q.cursor
      → param_step codec base ts key v q ≡ ok q'
      → HasAxes q'.cursor
  unfolding param_step
  step-HasAxes key v q q' axes =
      if-HasAxes (str_eq key (text "sort")) q'
        (λ p.
          arm-cursor (parse_sort base v) (λ s q1. record q1 { sort = s }) q q' (λ a. refl) p axes)
        (if-HasAxes (str_eq key (text "limit") || str_eq key (text "page_size")) q'
          (λ p.
            arm-cursor (ok_or (parse_u64 v) (bad_number v)) (λ n q1. record q1 { page_size = n }) q
              q' (λ a. refl) p axes)
          (if-HasAxes (str_eq key (text "offset")) q'
            (λ p.
              arm-cursor (ok_or (parse_u64 v) (bad_number v))
                (λ n q1. record q1 { offset = some n }) q q' (λ a. refl) p axes)
            (if-HasAxes (str_eq key (text "filter")) q'
              (λ p.
                arm-cursor (json_filter codec v)
                  (λ e q1. record q1 { filters = q1.filters ++ e ∷ [] }) q q' (λ a. refl) p axes)
              (if-HasAxes (str_eq key (text "cursor")) q'
                (λ p.
                  let (_, _, p1) = >>=-eq-ok (ensure (is_none q.cursor) several_cursors) _ p in
                  let (c, decoded, made) = >>=-eq-ok (cursor_from_string codec v) _ p1 in
                  let is : record q { cursor = some c } ≡ q' = cc in
                  subst HasAxes (ap Query.cursor is) (decoded-HasAxes codec v c decoded))
                (field-HasAxes key v q q' axes)))))

  loop-HasAxes :
      (params : List (Str × Str)) (q q' : Query)
      → HasAxes q.cursor
      → params_loop codec base ts params q ≡ ok q'
      → HasAxes q'.cursor
  unfolding params_loop
  loop-HasAxes [] q q' axes h = let is : q ≡ q' = cc in subst HasAxes (ap Query.cursor is) axes
  loop-HasAxes ((key, v) ∷ params) q q' axes h =
      let (r, one, h1) = >>=-eq-ok (param_step codec base ts key v q) _ h in
      loop-HasAxes params r q' (step-HasAxes key v q r axes one) h1

  -- The keys that the pages are cut by.
  visible_keys-nonempty :
      (k : Option Cursor) (q0 q : Query)
      → HasAxes k
      → q0.cursor ≡ k
      → Prelude.is_empty q0.sort.keys ≡ false
      → apply_cursor codec base ts k q0 ≡ ok q
      → Prelude.is_empty (visible_keys q) ≡ false
  unfolding apply_cursor visible_keys HasAxes
  visible_keys-nonempty none q0 q axes free sorted h =
      let is : q0 ≡ q = cc in
      subst (λ x. Prelude.is_empty (visible_keys x) ≡ false) is (rw free sorted)
  visible_keys-nonempty (some c) q0 q axes has sorted h =
      let (e, _, made) = >>=-eq-ok (get_filter codec c base ts) _ h in
      let is : record q0 { sort = get_sort c; filters = q0.filters ++ e ∷ [] } ≡ q = cc in
      subst (λ x. Prelude.is_empty (visible_keys x) ≡ false) is (rw has (mapped c.axes axes))
    where
      mapped :
          (axes : List CursorAxis)
          → Prelude.is_empty axes ≡ false
          → Prelude.is_empty (map (λ a. CursorAxis.key a) axes) ≡ false
      mapped [] h = cc
      mapped (a ∷ axes) h = refl

ensure_sort_by_id-nonempty : (s : SortBy) → Prelude.is_empty (ensure_sort_by_id s).keys ≡ false
unfolding ensure_sort_by_id
ensure_sort_by_id-nonempty s = by_keys s.keys
  where
    by_keys :
        (keys : List SortKey)
        → Prelude.is_empty (
            SortBy.keys (
              if any (λ k. str_eq (SortKey.field_name k) id_name) keys
              then record { keys = keys }
              else record { keys = keys ++ id_key ∷ [] }))
          ≡ false
    by_keys [] = refl
    by_keys (k ∷ keys) = ground arith

-- The cursor of a next or previous page of a query that a URL made has an axis at least, so that the
-- assertions of `cursor_from_pivot` and `Cursor::new` hold.
pub cursor_from_pivot-nonempty :
    (codec : Codec) (base : Entity) (ts : TypeSystem) (params : List (Str × Str)) (q : Query)
    (pivot : JsonObject) (forward : Bool)
    → from_url_query codec base ts params ≡ ok q
    → Prelude.is_empty (cursor_from_pivot q pivot forward).axes ≡ false
unfolding from_url_query cursor_from_pivot
cursor_from_pivot-nonempty codec base ts params q pivot forward h =
    let (q0, one, h1) = >>=-eq-ok (params_loop codec base ts params new_query) _ h in
    mapped (visible_keys q) (
      visible_keys-nonempty codec base ts q0.cursor (record q0 { sort = ensure_sort_by_id q0.sort })
        q (loop-HasAxes codec base ts params new_query q0 (unfold HasAxes in tt) one) refl
        (ensure_sort_by_id-nonempty q0.sort) h1)
  where
    mapped :
        (keys : List SortKey)
        → Prelude.is_empty keys ≡ false
        → Prelude.is_empty {A = CursorAxis}
            (map (λ k. record { key = k; value = field_of pivot (SortKey.field_name k) }) keys)
          ≡ false
    mapped [] h = cc
    mapped (k ∷ keys) h = refl
