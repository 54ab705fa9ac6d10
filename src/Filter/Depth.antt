-- ===== src/Filter/Depth.antt =====
-- The depth of the recursion of server/src/datastore/filter.rs.
use Prim.Native.Nat.{max}
use chiselstrike.Prelude.{
  ℕ, suc, Str, text, not, starts_with_char, ◌+◌, ◌≤◌, ◌≡◌, Bool, true, false, str_eq, if◌then◌else◌,
  Result, ok, ensure, arith, ◌>>=◌, ◌>>◌, >>=-eq-ok, leb,
}
use chiselstrike.Json.{Json, Items, Members, nil, cons, end, member, array, object}
use chiselstrike.Expr.{
  Expr, FilterError, parameter, property, and_expr, or_expr, bool_expr, too_deep, unknown_operator,
}
use chiselstrike.Filter.{
  to_expr_rec, filter_members, and_value, or_value, and_operands, or_operands, to_expr, and_key,
  or_key, not_key, max_depth, dollar, compare_member, field_rec, field_members, field_filter,
  field_member,
}

-- How deep the objects of a field filter stand inside one another.
unfoldable mutual
  pub field_nesting : Json → ℕ
  field_nesting (object members) = field_nesting_members members
  field_nesting _ = 0

  pub field_nesting_members : Members → ℕ
  field_nesting_members end = 0
  field_nesting_members (member key v rest) =
      let inside = suc (field_nesting v) in
      let others = field_nesting_members rest in
      max (if starts_with_char b'$' key then 0 else inside) others

-- How deep `$and`, `$or` and `$not` stand inside one another, and with them what the filters of fields
-- count for.
module _ (of_field : Json → ℕ) where
  unfoldable mutual
    pub nesting : Json → ℕ
    nesting (object members) = nesting_members members
    nesting _ = 0

    pub nesting_members : Members → ℕ
    nesting_members end = 0
    nesting_members (member key v rest) =
        let operands = nesting_value v in
        let inside = suc (nesting v) in
        let others = nesting_members rest in
        let field = of_field v in
        max
          (if str_eq key (text "$and")
            then operands
            else if str_eq key (text "$or")
            then operands
            else if str_eq key (text "$not")
            then inside
            else field)
          others

    pub nesting_value : Json → ℕ
    nesting_value (array items) = nesting_items items
    nesting_value _ = 0

    pub nesting_items : Items → ℕ
    nesting_items nil = 0
    nesting_items (cons v rest) = max (suc (nesting v)) (nesting_items rest)

guard_depth :
    {A : Type 0} (depth : ℕ) (m : Result FilterError A) (a : A)
    → (ensure (leb depth max_depth) too_deep >> m) ≡ ok a
    → (depth ≤ 100) × (m ≡ ok a)
guard_depth depth m a h = (ground arith, ground arith)

-- The bound of whichever arm was taken.
arm_bound :
    (b : Bool) {m n : Result FilterError Expr} (x y depth cap : ℕ) (e : Expr)
    → (if b then m else n) ≡ ok e
    → (m ≡ ok e → depth + x ≤ cap)
    → (n ≡ ok e → depth + y ≤ cap)
    → depth + (if b then x else y) ≤ cap
arm_bound true x y depth cap e h f g = f h
arm_bound false x y depth cap e h f g = g h

mutual
  unfolding field_rec field_nesting

  field_rec_bound :
      (depth : ℕ) (prop : Expr) (v : Json) (e : Expr)
      → field_rec depth prop v ≡ ok e
      → depth + field_nesting v ≤ 100
  field_rec_bound depth prop (object members) e h =
      let (fits, rest) = guard_depth depth _ e h in
      field_members_bound depth prop members (bool_expr true) e fits rest
  field_rec_bound depth prop Json.null e h = omega (arith, (guard_depth depth _ e h).0)
  field_rec_bound depth prop (Json.bool b) e h = omega (arith, (guard_depth depth _ e h).0)
  field_rec_bound depth prop (Json.number n) e h = omega (arith, (guard_depth depth _ e h).0)
  field_rec_bound depth prop (Json.string s) e h = omega (arith, (guard_depth depth _ e h).0)
  field_rec_bound depth prop (array items) e h = omega (arith, (guard_depth depth _ e h).0)

  field_members_bound :
      (depth : ℕ) (prop : Expr) (ms : Members) (acc e : Expr)
      → depth ≤ 100
      → field_members depth prop ms acc ≡ ok e
      → depth + field_nesting_members ms ≤ 100
  field_members_bound depth prop end acc e fits h = omega arith
  field_members_bound depth prop (member key v rest) acc e fits h =
      let (e1, one, h1) =
        >>=-eq-ok
          (if starts_with_char b'$' key
            then compare_member key prop v
            else field_rec (suc depth) (property key prop) v)
          _ h in
      omega (
        arith,
        arm_bound (starts_with_char b'$' key) 0 (suc (field_nesting v)) depth 100 e1 one
            (λ two. omega (arith, fits))
            (λ two. omega (arith, field_rec_bound (suc depth) (property key prop) v e1 two)),
        field_members_bound depth prop rest (and_expr acc e1) e fits h1,
      )

field_member_bound :
    (key : Str) (v : Json) (e : Expr) → field_member key v ≡ ok e → field_nesting v ≤ 100
unfolding field_member field_filter
field_member_bound key v e h =
    let first = after (not (starts_with_char dollar key)) h in
    omega (arith, field_rec_bound 0 (property key (parameter 0)) v e first)
  where
    after :
        (b : Bool) {m : Result FilterError Expr}
        → (ensure b (unknown_operator key) >> m) ≡ ok e
        → m ≡ ok e
    after true k = k
    after false k = cc

-- What holds where a field counts at most for `cap` if it is converted.
module _ (of_field : Json → ℕ) (cap : ℕ)
    (counts : (key : Str) (v : Json) (e : Expr)
      → field_member key v ≡ ok e
      → of_field v ≤ cap) where
  mutual
    unfolding to_expr_rec nesting

    to_expr_rec_bound :
        (depth : ℕ) (v : Json) (e : Expr)
        → to_expr_rec depth v ≡ ok e
        → depth + nesting of_field v ≤ 100 + cap
    to_expr_rec_bound depth (object members) e h =
        let (fits, rest) = guard_depth depth _ e h in
        filter_members_bound depth members (bool_expr true) e fits rest
    to_expr_rec_bound depth Json.null e h = absurd (cc ((guard_depth depth _ e h).1))
    to_expr_rec_bound depth (Json.bool b) e h = absurd (cc ((guard_depth depth _ e h).1))
    to_expr_rec_bound depth (Json.number n) e h = absurd (cc ((guard_depth depth _ e h).1))
    to_expr_rec_bound depth (Json.string s) e h = absurd (cc ((guard_depth depth _ e h).1))
    to_expr_rec_bound depth (array items) e h = absurd (cc ((guard_depth depth _ e h).1))

    filter_members_bound :
        (depth : ℕ) (ms : Members) (acc e : Expr)
        → depth ≤ 100
        → filter_members depth ms acc ≡ ok e
        → depth + nesting_members of_field ms ≤ 100 + cap
    filter_members_bound depth end acc e fits h = omega arith
    filter_members_bound depth (member key v rest) acc e fits h =
        let (e1, one, h1) =
          >>=-eq-ok
            (if str_eq key and_key
              then and_value depth v
              else if str_eq key or_key
              then or_value depth v
              else if str_eq key not_key
              then (to_expr_rec (suc depth) v >>= λ x. ok (Expr.not x))
              else field_member key v)
            _ h in
        omega (
          arith,
          arm_bound (str_eq key and_key) (nesting_value of_field v)
              (if str_eq key or_key
                then nesting_value of_field v
                else if str_eq key not_key
                then suc (nesting of_field v)
                else of_field v)
              depth (100 + cap) e1 one (and_value_bound depth v e1 fits)
              (λ two.
                arm_bound (str_eq key or_key) (nesting_value of_field v)
                  (if str_eq key not_key then suc (nesting of_field v) else of_field v) depth
                  (100 + cap) e1 two (or_value_bound depth v e1 fits)
                  (λ three.
                    arm_bound (str_eq key not_key) (suc (nesting of_field v)) (of_field v) depth
                      (100 + cap) e1 three
                      (λ p.
                        let (x, q, _) = >>=-eq-ok (to_expr_rec (suc depth) v) _ p in
                        omega (arith, to_expr_rec_bound (suc depth) v x q))
                      (λ four. omega (arith, fits, counts key v e1 four)))),
          filter_members_bound depth rest (and_expr acc e1) e fits h1,
        )

    and_value_bound :
        (depth : ℕ) (v : Json) (e : Expr)
        → depth ≤ 100
        → and_value depth v ≡ ok e
        → depth + nesting_value of_field v ≤ 100 + cap
    and_value_bound depth (array items) e fits h =
        and_operands_bound depth items (bool_expr true) e fits h
    and_value_bound depth _ e fits h = omega arith

    or_value_bound :
        (depth : ℕ) (v : Json) (e : Expr)
        → depth ≤ 100
        → or_value depth v ≡ ok e
        → depth + nesting_value of_field v ≤ 100 + cap
    or_value_bound depth (array items) e fits h =
        or_operands_bound depth items (bool_expr false) e fits h
    or_value_bound depth _ e fits h = omega arith

    and_operands_bound :
        (depth : ℕ) (vs : Items) (acc e : Expr)
        → depth ≤ 100
        → and_operands depth vs acc ≡ ok e
        → depth + nesting_items of_field vs ≤ 100 + cap
    and_operands_bound depth nil acc e fits h = omega arith
    and_operands_bound depth (cons v rest) acc e fits h =
        let (e1, one, h1) = >>=-eq-ok (to_expr_rec (suc depth) v) _ h in
        omega (
          arith,
          to_expr_rec_bound (suc depth) v e1 one,
          and_operands_bound depth rest (and_expr acc e1) e fits h1,
        )

    or_operands_bound :
        (depth : ℕ) (vs : Items) (acc e : Expr)
        → depth ≤ 100
        → or_operands depth vs acc ≡ ok e
        → depth + nesting_items of_field vs ≤ 100 + cap
    or_operands_bound depth nil acc e fits h = omega arith
    or_operands_bound depth (cons v rest) acc e fits h =
        let (e1, one, h1) = >>=-eq-ok (to_expr_rec (suc depth) v) _ h in
        omega (
          arith,
          to_expr_rec_bound (suc depth) v e1 one,
          or_operands_bound depth rest (or_expr acc e1) e fits h1,
        )

-- A filter that is converted nests `$and`, `$or` and `$not` at most 100 deep, and the objects of the
-- fields below them at most 100 deep again: at most 200 levels in all.
pub to_expr_bound :
    (filter : Json) (e : Expr)
    → to_expr filter ≡ ok e
    → (nesting (λ _. 0) filter ≤ 100) × (nesting field_nesting filter ≤ 200)
unfolding to_expr
to_expr_bound filter e h = (
  omega (arith, to_expr_rec_bound (λ _. 0) 0 (λ key v x p. omega arith) 0 filter e h),
  omega (arith, to_expr_rec_bound field_nesting 100 field_member_bound 0 filter e h),
)
