-- ===== src/Filter/Meaning.antt =====
-- The meaning of a JSON filter (server/src/datastore/filter.rs), read off the JSON itself.
use chiselstrike.Prelude.{
  Str, text, Option, none, some, List, [], ◌∷◌, ◌++◌, str_eq, starts_with_char, if◌then◌else◌,
}
use chiselstrike.Json.{Json, Number, Items, Members, nil, cons, end, member, array, object}
use chiselstrike.Expr.{BinaryOp, Value}
use chiselstrike.Expr.Eval.{Truth, holds, fails, unknown, both, either, negate, Row}

-- The value that a JSON literal stands for.
abbrev pub literal : Json → Value
literal Json.null = Value.null
literal (Json.bool b) = Value.bool b
literal (Json.number (Number.i64 n)) = Value.i64 n
literal (Json.number (Number.u64 n)) = Value.u64 n
literal (Json.number (Number.f64 n)) = Value.f64 n
literal (Json.string s) = Value.string s
literal _ = Value.null

-- The comparison that a text such as `$gte` asks for.
abbrev pub asked_comparison : Str → Option BinaryOp
asked_comparison key =
    if str_eq key (text "$eq")
    then some BinaryOp.eq
    else if str_eq key (text "$ne")
    then some BinaryOp.not_eq
    else if str_eq key (text "$gt")
    then some BinaryOp.gt
    else if str_eq key (text "$gte")
    then some BinaryOp.gt_eq
    else if str_eq key (text "$lt")
    then some BinaryOp.lt
    else if str_eq key (text "$lte")
    then some BinaryOp.lt_eq
    else none

-- The value under a path compared with a literal; an unknown operator compares nothing.
abbrev pub compared : Row → List Str → Str → Json → Truth
compared r path key v = elim (asked_comparison key) [
  | some op ↦ r.compares op (r.read path) (literal v)
  | none ↦ unknown
]

-- A field filter: a literal is equal to the field; the members of an object are all satisfied, an
-- operator by the field itself and a name by the field of that name inside it.
unfoldable mutual
  pub field_matches : Row → List Str → Json → Truth
  field_matches r path (object members) = members_match r path members
  field_matches r path Json.null = r.compares BinaryOp.eq (r.read path) Value.null
  field_matches r path (Json.bool b) = r.compares BinaryOp.eq (r.read path) (literal (Json.bool b))
  field_matches r path (Json.number n) =
      r.compares BinaryOp.eq (r.read path) (literal (Json.number n))
  field_matches r path (Json.string s) =
      r.compares BinaryOp.eq (r.read path) (literal (Json.string s))
  field_matches r path (array items) = unknown

  pub members_match : Row → List Str → Members → Truth
  members_match r path end = holds
  members_match r path (member key v rest) =
      let nested = field_matches r (path ++ key ∷ []) v in
      let others = members_match r path rest in
      both (if starts_with_char b'$' key then compared r path key v else nested) others

-- A filter: all of its members are satisfied; `$and` by all of its operands, `$or` by one of them,
-- `$not` where its filter is not, and a name by the field of that name.
unfoldable mutual
  unfolding field_matches

  pub matches : Row → Json → Truth
  matches r (object members) = all_members r members
  matches r _ = unknown

  pub all_members : Row → Members → Truth
  all_members r end = holds
  all_members r (member key v rest) =
      let conj = all_match r v in
      let disj = any_match r v in
      let neg = negate (matches r v) in
      let others = all_members r rest in
      both
        (if str_eq key (text "$and")
          then conj
          else if str_eq key (text "$or")
          then disj
          else if str_eq key (text "$not")
          then neg
          else field_matches r (key ∷ []) v)
        others

  pub all_match : Row → Json → Truth
  all_match r (array items) = every r items
  all_match r _ = unknown

  pub any_match : Row → Json → Truth
  any_match r (array items) = some_of r items
  any_match r _ = unknown

  pub every : Row → Items → Truth
  every r nil = holds
  every r (cons v rest) = both (matches r v) (every r rest)

  pub some_of : Row → Items → Truth
  some_of r nil = fails
  some_of r (cons v rest) = either (matches r v) (some_of r rest)
