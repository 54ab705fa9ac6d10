-- ===== src/Crud/Lexicographic.antt =====
-- server/src/datastore/crud.rs: the filter of a cursor and its sort.
use chiselstrike.Types.{Field, Entity}
use chiselstrike.TypeSystem.{TypeSystem, get as type_get}
use chiselstrike.QueryPlan.{SortKey}
use chiselstrike.Crud.{
  type_error, no_such_field, lift_err, Codec, Cursor, CursorAxis, CrudError, Pair, pair_expr,
  with_equal, disjoin, axis_pair, axis_pairs, axis_op, directed, get_sort, get_filter,
  json_to_value, make_property_chain, some, chain_loop, chain_step, FieldType, get_field,
  object_type, Option, map,
}
use chiselstrike.Prelude.{
  if◌then◌else◌, Str, Bool, Option, none, some, Option-cases, inl, inr, false, List, [], ◌∷◌, ◌++◌,
  ◌≡◌, refl, Result, ok, err, ◌>>=◌, >>=-eq-ok, arith, ◌∙◌, ap, sym,
}
use chiselstrike.Expr.{Value, BinaryOp, Expr, value, property, parameter, binary, and_expr, eq_expr}
use chiselstrike.Expr.Eval.{
  Truth, holds, fails, both, either, Row, truth, truth-and, truth-or, truth-compares, both-holds,
  either_assoc, both_assoc, Compares, eval,
}

-- Whether a row comes after the values in the order of the sort keys: it is beyond the first value,
-- or equal to it and after the rest.
unfoldable pub after : Row → List SortKey → List Value → Truth
after r [] vs = fails
after r ks [] = fails
after r (k ∷ ks) (v ∷ vs) =
    let x = r.read (k.field_name ∷ []) in
    either (r.compares (if k.ascending then BinaryOp.gt else BinaryOp.lt) x v)
      (both (r.compares BinaryOp.eq x v) (after r ks vs))

-- The value of an axis, by the type of its field.
abbrev axis_value : Codec → Entity → TypeSystem → CursorAxis → Result CrudError Value
axis_value codec base ts a = do
  (chain, ty) ← make_property_chain base (a.key.field_name ∷ []) ts
  json_to_value codec ty a.value

unfoldable pub axis_values :
    Codec → Entity → TypeSystem → List CursorAxis → Result CrudError (List Value)
axis_values codec base ts [] = ok []
axis_values codec base ts (a ∷ axes) = do
  v ← axis_value codec base ts a
  vs ← axis_values codec base ts axes
  ok (v ∷ vs)

-- The meaning of the pairs, one after the other.
abbrev after_pairs : Row → List Pair → Truth
after_pairs r [] = fails
after_pairs r (p ∷ ps) =
    either (truth r (pair_expr p))
      (both (truth r (eq_expr p.chain (value p.bound))) (after_pairs r ps))

abbrev all_equal : Row → List Pair → Truth
all_equal r [] = holds
all_equal r (p ∷ ps) = both (truth r (eq_expr p.chain (value p.bound))) (all_equal r ps)

both-either : (e p a : Truth) → both e (either p a) ≡ either (both e p) (both e a)
both-either e p a = ground arith

all_equal-snoc :
    (r : Row) (ps : List Pair) (p : Pair)
    → all_equal r (ps ++ p ∷ []) ≡ both (all_equal r ps) (truth r (eq_expr p.chain (value p.bound)))
all_equal-snoc r [] p = both-holds _
all_equal-snoc r (q ∷ ps) p =
    ap (both _) (all_equal-snoc r ps p) ∙ sym (both_assoc _ (all_equal r ps) _)

truth-with_equal :
    (r : Row) (ps : List Pair) (e : Expr)
    → truth r (with_equal ps e) ≡ both (all_equal r ps) (truth r e)
unfolding with_equal
truth-with_equal r [] e = refl
truth-with_equal r (p ∷ ps) e =
    truth-with_equal r ps (and_expr (eq_expr p.chain (value p.bound)) e)
    ∙ ap (both (all_equal r ps)) (truth-and r _ e)
    ∙ rotated (all_equal r ps) _ (truth r e)
  where
    rotated : (a b c : Truth) → both a (both b c) ≡ both (both b a) c
    rotated a b c = ground arith

-- What the second loop has collected, and what it has left.
disjoin-after :
    (r : Row) (earlier ps : List Pair) (acc e : Expr)
    → disjoin earlier ps (some acc) ≡ some e
    → truth r e ≡ either (truth r acc) (both (all_equal r earlier) (after_pairs r ps))
unfolding disjoin
disjoin-after r earlier [] acc e h =
    let same : e ≡ acc = cc in ap (truth r) same ∙ none_left (truth r acc) (all_equal r earlier)
  where
    none_left : (a b : Truth) → a ≡ either a (both b fails)
    none_left a b = ground arith
disjoin-after r earlier (p ∷ ps) acc e h =
    disjoin-after r (earlier ++ p ∷ []) ps _ e h
    ∙ (λ i.
        either (truth-or r acc (with_equal earlier (pair_expr p)) i)
          (both (all_equal-snoc r earlier p i) (after_pairs r ps)))
    ∙ (λ i. either (either (truth r acc) (truth-with_equal r earlier (pair_expr p) i)) (
        both (both (all_equal r earlier) (truth r (eq_expr p.chain (value p.bound))))
          (after_pairs r ps)))
    ∙ next_term (truth r acc) (all_equal r earlier) (truth r (pair_expr p)) _ (after_pairs r ps)
  where
    next_term :
        (a b c d t : Truth)
        → either (either a (both b c)) (both (both b d) t) ≡ either a (both b (either c (both d t)))
    next_term a b c d t =
        either_assoc a (both b c) (both (both b d) t)
        ∙ ap (λ x. either a (either (both b c) x)) (both_assoc b d t)
        ∙ ap (either a) (sym (both-either b c (both d t)))

disjoin-some :
    (earlier ps : List Pair) (acc : Expr) → (e : Expr) × (disjoin earlier ps (some acc) ≡ some e)
unfolding disjoin
disjoin-some earlier [] acc = (acc, refl)
disjoin-some earlier (p ∷ ps) acc = disjoin-some (earlier ++ p ∷ []) ps _

-- The step of the loop from what `get_field` gives.
abbrev found_step : Str → TypeSystem → Option Field → Result CrudError (Expr × FieldType)
found_step name ts f = elim f [
  | none ↦ err (no_such_field name)
  | some field ↦ do
    t ← lift_err type_error (type_get ts field.type_id)
    ok (property name (parameter 0), t)
]

-- A chain of one property is the property of the parameter.
chain-one :
    (base : Entity) (name : Str) (ts : TypeSystem) (chain : Expr) (ty : FieldType)
    → make_property_chain base (name ∷ []) ts ≡ ok (chain, ty)
    → chain ≡ property name (parameter 0)
unfolding make_property_chain chain_loop chain_step
chain-one base name ts chain ty h =
    let (next, one, last) =
      >>=-eq-ok (chain_step ts name (parameter 0) (FieldType.entity base)) _ h in
    elim (Option-cases (get_field (object_type base) name)) [
      | inl missed ↦ cc (ap (found_step name ts) missed, one)
      | inr (field, found) ↦
          let (t, _, made) =
            >>=-eq-ok (lift_err type_error (type_get ts field.type_id)) _
              (sym (ap (found_step name ts) found) ∙ one) in
          cc
    ]

-- What a comparison with the column of a name means on a row.
column-truth :
    (r : Row) (op : BinaryOp) (name : Str) (v : Value)
    → Compares op
    → truth r (binary op (property name (parameter 0)) (value v))
      ≡ r.compares op (r.read (name ∷ [])) v
column-truth r op name v c =
    truth-compares r op (property name (parameter 0)) (value v) c ∙ unfold eval in refl

axis_op-Compares :
    (ascending forward inclusive : Bool) → Compares (axis_op ascending forward inclusive)
axis_op-Compares ascending forward inclusive = ground arith

-- The pairs of axes whose values are converted.
abbrev column_pair : Bool → Bool → CursorAxis → Value → Pair
column_pair forward inclusive a v = record {
  chain = property a.key.field_name (parameter 0);
  op = axis_op a.key.ascending forward inclusive;
  bound = v;
}

abbrev column_pairs : Bool → Bool → List CursorAxis → List Value → List Pair
column_pairs forward inclusive [] vs = []
column_pairs forward inclusive (a ∷ axes) [] = []
column_pairs forward inclusive (a ∷ axes) (v ∷ vs) =
    column_pair forward inclusive a v ∷ column_pairs forward inclusive axes vs

module _ (codec : Codec) (base : Entity) (ts : TypeSystem) (forward inclusive : Bool) where
  axis_pair-ok :
      (a : CursorAxis) (v : Value)
      → axis_value codec base ts a ≡ ok v
      → axis_pair codec base ts forward inclusive a ≡ ok (column_pair forward inclusive a v)
  unfolding axis_pair
  axis_pair-ok a v h =
      let ((chain, ty), one, converted) =
        >>=-eq-ok (make_property_chain base (a.key.field_name ∷ []) ts) _ h in
      let is : chain ≡ property a.key.field_name (parameter 0) =
        chain-one base a.key.field_name ts chain ty one in
      rw (one, converted, is) refl

  axis_pairs-ok :
      (axes : List CursorAxis) (vs : List Value)
      → axis_values codec base ts axes ≡ ok vs
      → axis_pairs codec base ts forward inclusive axes
        ≡ ok (column_pairs forward inclusive axes vs)
  unfolding axis_pairs axis_values
  axis_pairs-ok [] vs h = refl
  axis_pairs-ok (a ∷ axes) vs h =
      let (v, one, h1) = >>=-eq-ok (axis_value codec base ts a) _ h in
      let (ws, rest, h2) = >>=-eq-ok (axis_values codec base ts axes) _ h1 in
      let is : vs ≡ v ∷ ws = cc in
      rw (axis_pair-ok a v one, axis_pairs-ok axes ws rest)
        (ap (λ x. ok (column_pairs forward inclusive (a ∷ axes) x)) (sym is))

after_pairs-column_pairs :
    (r : Row) (forward : Bool) (axes : List CursorAxis) (vs : List Value)
    → after_pairs r (column_pairs forward false axes vs)
      ≡ after r (map (λ a. directed forward (CursorAxis.key a)) axes) vs
unfolding after
after_pairs-column_pairs r forward [] vs = refl
after_pairs-column_pairs r forward (a ∷ axes) [] = refl
after_pairs-column_pairs r forward (a ∷ axes) (v ∷ vs) = λ i.
    either
      (column-truth r (axis_op a.key.ascending forward false) a.key.field_name v
        (axis_op-Compares a.key.ascending forward false) i)
      (both (column-truth r BinaryOp.eq a.key.field_name v tt i)
        (after_pairs-column_pairs r forward axes vs i))

-- The second loop on one pair at least.
disjoin-pairs :
    (p : Pair) (ps : List Pair)
    → (e : Expr) × (disjoin [] (p ∷ ps) none ≡ some e)
      × ((r : Row) → truth r e ≡ after_pairs r (p ∷ ps))
unfolding disjoin
disjoin-pairs p ps =
    let (e, is) = disjoin-some (p ∷ []) ps (pair_expr p) in
    (
      e,
      is,
      λ r.
          disjoin-after r (p ∷ []) ps (pair_expr p) e is
          ∙ ap (λ x. either (truth r (pair_expr p)) (both x (after_pairs r ps))) (both-holds _),
    )

-- The filter of a cursor with axes whose values convert.
get_filter-pairs :
    (codec : Codec) (base : Entity) (ts : TypeSystem) (forward inclusive : Bool)
    (axes : List CursorAxis) (v : Value) (vs : List Value)
    → axis_values codec base ts axes ≡ ok (v ∷ vs)
    → (e : Expr) × (get_filter codec
          (record { axes = axes; forward = forward; inclusive = inclusive })
          base
          ts
        ≡ ok e)
      × ((r : Row) → truth r e ≡ after_pairs r (column_pairs forward inclusive axes (v ∷ vs)))
unfolding get_filter axis_values
get_filter-pairs codec base ts forward inclusive [] v vs h = cc
get_filter-pairs codec base ts forward inclusive (a ∷ axes) v vs h =
    let (e, is, means) =
      disjoin-pairs (column_pair forward inclusive a v) (column_pairs forward inclusive axes vs) in
    (e, rw (axis_pairs-ok codec base ts forward inclusive (a ∷ axes) (v ∷ vs) h, is) refl, means)

-- For a cursor that is not inclusive, with one axis at least, whose axis values all convert to the
-- types of their fields, `get_filter` succeeds, and on every row its expression has the truth value
-- of the statement that the row comes after the axis values in the order that `get_sort` gives.
pub get_filter-after :
    (codec : Codec) (c : Cursor) (base : Entity) (ts : TypeSystem) (v : Value) (vs : List Value)
    → c.inclusive ≡ false
    → axis_values codec base ts c.axes ≡ ok (v ∷ vs)
    → (e : Expr) × (get_filter codec c base ts ≡ ok e)
      × ((r : Row) → truth r e ≡ after r (get_sort c).keys (v ∷ vs))
unfolding get_sort
get_filter-after codec c base ts v vs h values =
    let (e, is, means) = get_filter-pairs codec base ts c.forward c.inclusive c.axes v vs values in
    (
      e,
      is,
      λ r.
          means r
          ∙ ap (λ x. after_pairs r (column_pairs c.forward x c.axes (v ∷ vs))) h
          ∙ after_pairs-column_pairs r c.forward c.axes (v ∷ vs),
    )
