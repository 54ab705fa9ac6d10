-- ===== src/Filter/Sound.antt =====
-- The expression made from a filter (server/src/datastore/filter.rs) against its meaning.
use chiselstrike.Prelude.{
  ℕ, suc, Str, ◌≡◌, sym, ◌∙◌, ap, true, false, List, [], ◌∷◌, ◌++◌, str_eq, starts_with_char,
  if◌then◌else◌, ok, ◌>>=◌, >>=-eq-ok, leb, not,
}
use chiselstrike.Json.{Json, Items, Members, nil, cons, end, member, array, object}
use chiselstrike.Expr.{
  Expr, parameter, property, and_expr, or_expr, bool_expr, too_deep, unknown_operator,
}
use chiselstrike.Expr.Eval.{both, either, negate, both-holds, either-fails, Row, truth}
use chiselstrike.Filter.{
  compare_member, field_rec, field_members, field_filter, field_member, to_expr_rec, filter_members,
  and_value, or_value, and_operands, or_operands, to_expr, and_key, or_key, not_key, dollar,
  max_depth,
}
use chiselstrike.Filter.Meaning.{
  compared, field_matches, members_match, matches, all_members, all_match, any_match, every,
  some_of,
}
use chiselstrike.Filter.Arms.{
  Reads, Reads-property, compare_member_sound, equal_member_sound, guarded, equal_member-array,
  either_arm, negated, Reads-first, push-and, push-or, start-and, start-or,
}

mutual
  unfolding field_rec field_matches

  field_rec_sound :
      (r : Row) (depth : ℕ) (prop : Expr) (path : List Str) (v : Json) (e : Expr)
      → Reads r prop path
      → field_rec depth prop v ≡ ok e
      → truth r e ≡ field_matches r path v
  field_rec_sound r depth prop path (object members) e reads h =
      start-and r e (members_match r path members) (
        field_members_sound r depth prop path members (bool_expr true) e reads
          (guarded r (leb depth max_depth) too_deep _ e h))
  field_rec_sound r depth prop path (array items) e reads h =
      absurd (equal_member-array r prop items e (guarded r (leb depth max_depth) too_deep _ e h))
  field_rec_sound r depth prop path Json.null e reads h =
      equal_member_sound r prop path Json.null e reads
        (guarded r (leb depth max_depth) too_deep _ e h)
  field_rec_sound r depth prop path (Json.bool b) e reads h =
      equal_member_sound r prop path (Json.bool b) e reads
        (guarded r (leb depth max_depth) too_deep _ e h)
  field_rec_sound r depth prop path (Json.number n) e reads h =
      equal_member_sound r prop path (Json.number n) e reads
        (guarded r (leb depth max_depth) too_deep _ e h)
  field_rec_sound r depth prop path (Json.string s) e reads h =
      equal_member_sound r prop path (Json.string s) e reads
        (guarded r (leb depth max_depth) too_deep _ e h)

  field_members_sound :
      (r : Row) (depth : ℕ) (prop : Expr) (path : List Str) (ms : Members) (acc e : Expr)
      → Reads r prop path
      → field_members depth prop ms acc ≡ ok e
      → truth r e ≡ both (truth r acc) (members_match r path ms)
  field_members_sound r depth prop path end acc e reads h =
      let same : e ≡ acc = cc in ap (truth r) same ∙ sym (both-holds (truth r acc))
  field_members_sound r depth prop path (member key v rest) acc e reads h =
      let (e1, one, h1) =
        >>=-eq-ok
          (if starts_with_char dollar key
            then compare_member key prop v
            else field_rec (suc depth) (property key prop) v)
          _ h in
      push-and r acc e1 e
        (if starts_with_char dollar key
          then compared r path key v
          else field_matches r (path ++ key ∷ []) v)
        (members_match r path rest)
        (either_arm r (starts_with_char dollar key) e1 one
          (compare_member_sound r key prop path v e1 reads)
          (field_rec_sound r (suc depth) (property key prop) (path ++ key ∷ []) v e1
            (Reads-property r prop path key reads)))
        (field_members_sound r depth prop path rest (and_expr acc e1) e reads h1)

mutual
  unfolding to_expr_rec matches field_member field_filter

  to_expr_rec_sound :
      (r : Row) (depth : ℕ) (v : Json) (e : Expr)
      → to_expr_rec depth v ≡ ok e
      → truth r e ≡ matches r v
  to_expr_rec_sound r depth (object members) e h = start-and r e (all_members r members) (
      filter_members_sound r depth members (bool_expr true) e
        (guarded r (leb depth max_depth) too_deep _ e h))
  to_expr_rec_sound r depth Json.null e h =
      absurd (cc (guarded r (leb depth max_depth) too_deep _ e h))
  to_expr_rec_sound r depth (Json.bool b) e h =
      absurd (cc (guarded r (leb depth max_depth) too_deep _ e h))
  to_expr_rec_sound r depth (Json.number n) e h =
      absurd (cc (guarded r (leb depth max_depth) too_deep _ e h))
  to_expr_rec_sound r depth (Json.string s) e h =
      absurd (cc (guarded r (leb depth max_depth) too_deep _ e h))
  to_expr_rec_sound r depth (array items) e h =
      absurd (cc (guarded r (leb depth max_depth) too_deep _ e h))

  filter_members_sound :
      (r : Row) (depth : ℕ) (ms : Members) (acc e : Expr)
      → filter_members depth ms acc ≡ ok e
      → truth r e ≡ both (truth r acc) (all_members r ms)
  filter_members_sound r depth end acc e h =
      let same : e ≡ acc = cc in ap (truth r) same ∙ sym (both-holds (truth r acc))
  filter_members_sound r depth (member key v rest) acc e h =
      let (e1, one, h1) =
        >>=-eq-ok
          (if str_eq key and_key
            then and_value depth v
            else if str_eq key or_key
            then or_value depth v
            else if str_eq key not_key
            then (to_expr_rec (suc depth) v >>= λ x. ok (Expr.not x))
            else field_member key v)
          _ h in
      push-and r acc e1 e
        (if str_eq key and_key
          then all_match r v
          else if str_eq key or_key
          then any_match r v
          else if str_eq key not_key
          then negate (matches r v)
          else field_matches r (key ∷ []) v)
        (all_members r rest)
        (either_arm r (str_eq key and_key) e1 one (and_value_sound r depth v e1) (λ two.
          either_arm r (str_eq key or_key) e1 two (or_value_sound r depth v e1) (λ three.
            either_arm r (str_eq key not_key) e1 three
              (negated r (to_expr_rec (suc depth) v) e1 (matches r v)
                (λ x p. to_expr_rec_sound r (suc depth) v x p))
              (λ four.
                field_rec_sound r 0 (property key (parameter 0)) (key ∷ []) v e1 (Reads-first r key)
                  (guarded r (not (starts_with_char dollar key)) (unknown_operator key) _ e1
                    four)))))
        (filter_members_sound r depth rest (and_expr acc e1) e h1)

  and_value_sound :
      (r : Row) (depth : ℕ) (v : Json) (e : Expr)
      → and_value depth v ≡ ok e
      → truth r e ≡ all_match r v
  and_value_sound r depth (array items) e h =
      start-and r e (every r items) (and_operands_sound r depth items (bool_expr true) e h)
  and_value_sound r depth _ e h = cc

  or_value_sound :
      (r : Row) (depth : ℕ) (v : Json) (e : Expr)
      → or_value depth v ≡ ok e
      → truth r e ≡ any_match r v
  or_value_sound r depth (array items) e h =
      start-or r e (some_of r items) (or_operands_sound r depth items (bool_expr false) e h)
  or_value_sound r depth _ e h = cc

  and_operands_sound :
      (r : Row) (depth : ℕ) (vs : Items) (acc e : Expr)
      → and_operands depth vs acc ≡ ok e
      → truth r e ≡ both (truth r acc) (every r vs)
  and_operands_sound r depth nil acc e h =
      let same : e ≡ acc = cc in ap (truth r) same ∙ sym (both-holds (truth r acc))
  and_operands_sound r depth (cons v rest) acc e h =
      let (e1, one, h1) = >>=-eq-ok (to_expr_rec (suc depth) v) _ h in
      push-and r acc e1 e (matches r v) (every r rest) (to_expr_rec_sound r (suc depth) v e1 one)
        (and_operands_sound r depth rest (and_expr acc e1) e h1)

  or_operands_sound :
      (r : Row) (depth : ℕ) (vs : Items) (acc e : Expr)
      → or_operands depth vs acc ≡ ok e
      → truth r e ≡ either (truth r acc) (some_of r vs)
  or_operands_sound r depth nil acc e h =
      let same : e ≡ acc = cc in ap (truth r) same ∙ sym (either-fails (truth r acc))
  or_operands_sound r depth (cons v rest) acc e h =
      let (e1, one, h1) = >>=-eq-ok (to_expr_rec (suc depth) v) _ h in
      push-or r acc e1 e (matches r v) (some_of r rest) (to_expr_rec_sound r (suc depth) v e1 one)
        (or_operands_sound r depth rest (or_expr acc e1) e h1)

-- On every row, the expression made from a JSON filter has the truth value of the filter itself:
-- all members, `$and`, `$or` and `$not` by the three-valued connectives, nested objects by the
-- property chain, and the comparison operators by the database's comparison.
pub to_expr_sound :
    (r : Row) (filter : Json) (e : Expr) → to_expr filter ≡ ok e → truth r e ≡ matches r filter
unfolding to_expr
to_expr_sound r filter e h = to_expr_rec_sound r 0 filter e h
