-- ===== src/Filter.antt =====
-- server/src/datastore/filter.rs: JSON filters to query expressions. Each loop over the members of an
-- object or the operands of an array is a function of the accumulated expression.
pub mod Meaning
pub mod Arms
pub mod Sound
pub mod Depth
mod Tests
use chiselstrike.Prelude.{
  ℕ, suc, Str, text, true, false, not, str_eq, starts_with_char, leb, if◌then◌else◌, Result, ok,
  err, ensure, ◌>>=◌, ◌>>◌,
}
use chiselstrike.Json.{Json, Items, Members, nil, cons, end, member, array, object}
use chiselstrike.Expr.{
  BinaryOp, Expr, value, parameter, property, binary, FilterError, too_deep, not_an_object,
  operator_needs_array, unknown_operator, unknown_comparison, value_try_from, and_expr, or_expr,
  eq_expr, bool_expr,
}

abbrev pub max_depth : ℕ
max_depth = 100

-- The `'$'` byte.
abbrev pub dollar : ℕ
dollar = b'$'

-- The comparison operators of a field filter.
unfoldable pub comparison : Str → Result FilterError BinaryOp
comparison key =
    if str_eq key (text "$eq")
    then ok BinaryOp.eq
    else if str_eq key (text "$ne")
    then ok BinaryOp.not_eq
    else if str_eq key (text "$gt")
    then ok BinaryOp.gt
    else if str_eq key (text "$gte")
    then ok BinaryOp.gt_eq
    else if str_eq key (text "$lt")
    then ok BinaryOp.lt
    else if str_eq key (text "$lte")
    then ok BinaryOp.lt_eq
    else err (unknown_comparison key)

-- A member `$op: value` of a field filter.
unfoldable pub compare_member : Str → Expr → Json → Result FilterError Expr
unfolding comparison
compare_member key prop v = do
  op ← comparison key
  expr_value ← value_try_from v
  ok (binary op prop (value expr_value))

pub equal_member : Expr → Json → Result FilterError Expr
equal_member prop v = do expr_value ← value_try_from v; ok (eq_expr prop (value expr_value))

-- `field_filter_to_expr_rec`
unfoldable mutual
  unfolding compare_member equal_member

  pub field_rec : ℕ → Expr → Json → Result FilterError Expr
  field_rec depth prop (object members) =
      let rest = field_members depth prop members (bool_expr true) in
      ensure (leb depth max_depth) too_deep >> rest
  field_rec depth prop (array items) =
      ensure (leb depth max_depth) too_deep >> equal_member prop (array items)
  field_rec depth prop Json.null =
      ensure (leb depth max_depth) too_deep >> equal_member prop Json.null
  field_rec depth prop (Json.bool b) =
      ensure (leb depth max_depth) too_deep >> equal_member prop (Json.bool b)
  field_rec depth prop (Json.number n) =
      ensure (leb depth max_depth) too_deep >> equal_member prop (Json.number n)
  field_rec depth prop (Json.string s) =
      ensure (leb depth max_depth) too_deep >> equal_member prop (Json.string s)

  pub field_members : ℕ → Expr → Members → Expr → Result FilterError Expr
  field_members depth prop end acc = ok acc
  field_members depth prop (member key v rest) acc =
      let nested = field_rec (suc depth) (property key prop) v in
      let more = λ (e : Expr). field_members depth prop rest (and_expr acc e) in
      (if starts_with_char dollar key then compare_member key prop v else nested) >>= more

-- `filed_filter_to_expr`
unfoldable pub field_filter : Str → Json → Result FilterError Expr
unfolding field_rec
field_filter name v = field_rec 0 (property name (parameter 0)) v

-- The arm of a member that is no operator of the filter.
unfoldable pub field_member : Str → Json → Result FilterError Expr
unfolding field_filter
field_member key v =
    ensure (not (starts_with_char dollar key)) (unknown_operator key) >> field_filter key v

abbrev pub and_key : Str
and_key = text "$and"

abbrev pub or_key : Str
or_key = text "$or"

abbrev pub not_key : Str
not_key = text "$not"

-- `to_expr_rec`
unfoldable mutual
  unfolding field_member

  pub to_expr_rec : ℕ → Json → Result FilterError Expr
  to_expr_rec depth (object members) =
      let rest = filter_members depth members (bool_expr true) in
      ensure (leb depth max_depth) too_deep >> rest
  to_expr_rec depth _ = ensure (leb depth max_depth) too_deep >> err not_an_object

  pub filter_members : ℕ → Members → Expr → Result FilterError Expr
  filter_members depth end acc = ok acc
  filter_members depth (member key v rest) acc =
      let conj = and_value depth v in
      let disj = or_value depth v in
      let neg = to_expr_rec (suc depth) v in
      let more = λ (e : Expr). filter_members depth rest (and_expr acc e) in
      (if str_eq key and_key
        then conj
        else if str_eq key or_key
        then disj
        else if str_eq key not_key
        then (neg >>= λ e. ok (Expr.not e))
        else field_member key v)
      >>= more

  -- `$and` and `$or`: the value must be an array.
  pub and_value : ℕ → Json → Result FilterError Expr
  and_value depth (array items) = and_operands depth items (bool_expr true)
  and_value depth _ = err operator_needs_array

  pub or_value : ℕ → Json → Result FilterError Expr
  or_value depth (array items) = or_operands depth items (bool_expr false)
  or_value depth _ = err operator_needs_array

  pub and_operands : ℕ → Items → Expr → Result FilterError Expr
  and_operands depth nil acc = ok acc
  and_operands depth (cons operand rest) acc =
      let more = λ (e : Expr). and_operands depth rest (and_expr acc e) in
      to_expr_rec (suc depth) operand >>= more

  pub or_operands : ℕ → Items → Expr → Result FilterError Expr
  or_operands depth nil acc = ok acc
  or_operands depth (cons operand rest) acc =
      let more = λ (e : Expr). or_operands depth rest (or_expr acc e) in
      to_expr_rec (suc depth) operand >>= more

unfoldable pub to_expr : Json → Result FilterError Expr
unfolding to_expr_rec
to_expr filter = to_expr_rec 0 filter
