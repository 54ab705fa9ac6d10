-- ===== src/Filter/Arms.antt =====
-- What one member or operand adds to the expression of a filter (server/src/datastore/filter.rs).
use chiselstrike.Prelude.{
  Str, text, str_eq, some, none, err, ◌≡◌, refl, ◌∙◌, ap, ap₂, Bool, true, false, List, [], ◌∷◌,
  ◌++◌, if◌then◌else◌, Result, ok, ensure, arith, ◌>>=◌, ◌>>◌, >>=-eq-ok,
}
use chiselstrike.Json.{Json, Items, array}
use chiselstrike.Expr.{
  BinaryOp, Value, Expr, value, parameter, property, binary, FilterError, unknown_comparison,
  value_try_from, and_expr, or_expr, eq_expr, bool_expr,
}
use chiselstrike.Expr.Eval.{
  Truth, both, either, negate, both_assoc, either_assoc, Row, path_of, eval, truth, truth-and,
  truth-or, truth-not, truth-bool, Compares, truth-compares,
}
use chiselstrike.Filter.{comparison, compare_member, equal_member}
use chiselstrike.Filter.Meaning.{literal, asked_comparison, compared}

comparison-Compares : (key : Str) (op : BinaryOp) → comparison key ≡ ok op → Compares op
unfolding comparison
comparison-Compares key BinaryOp.and h = ground arith
comparison-Compares key BinaryOp.or h = ground arith
comparison-Compares key BinaryOp.eq h = tt
comparison-Compares key BinaryOp.not_eq h = tt
comparison-Compares key BinaryOp.lt h = tt
comparison-Compares key BinaryOp.lt_eq h = tt
comparison-Compares key BinaryOp.gt h = tt
comparison-Compares key BinaryOp.gt_eq h = tt
comparison-Compares key BinaryOp.like h = tt
comparison-Compares key BinaryOp.not_like h = tt

-- The operator of the source is the one that the text asks for.
comparison-asked :
    (key : Str) (op : BinaryOp) → comparison key ≡ ok op → asked_comparison key ≡ some op
unfolding comparison
comparison-asked key op h =
    found (str_eq key (text "$eq")) (str_eq key (text "$ne")) (str_eq key (text "$gt"))
      (str_eq key (text "$gte")) (str_eq key (text "$lt")) (str_eq key (text "$lte")) h
  where
    found :
        (a b c d e f : Bool)
        → (if a
            then ok BinaryOp.eq
            else if b
            then ok BinaryOp.not_eq
            else if c
            then ok BinaryOp.gt
            else if d
            then ok BinaryOp.gt_eq
            else if e
            then ok BinaryOp.lt
            else if f
            then ok BinaryOp.lt_eq
            else err (unknown_comparison key))
          ≡ ok op
        → (if a
            then some BinaryOp.eq
            else if b
            then some BinaryOp.not_eq
            else if c
            then some BinaryOp.gt
            else if d
            then some BinaryOp.gt_eq
            else if e
            then some BinaryOp.lt
            else if f
            then some BinaryOp.lt_eq
            else none)
          ≡ some op
    found a b c d e f h = ground (arith, h)

pub value_try_from-literal : (v : Json) (x : Value) → value_try_from v ≡ ok x → x ≡ literal v
unfolding value_try_from
value_try_from-literal Json.null x h = ground arith
value_try_from-literal (Json.number n) x h = ground arith
value_try_from-literal _ x h = ground arith

-- The expression reads the property chain.
pub record Reads (r : Row) (prop : Expr) (path : List Str) : Type 0 where
  pub path_lem : path_of prop ≡ path
  pub eval_lem : eval r prop ≡ r.read path

pub Reads-property :
    (r : Row) (prop : Expr) (path : List Str) (key : Str)
    → Reads r prop path
    → Reads r (property key prop) (path ++ key ∷ [])
unfolding eval
Reads-property r prop path key h = record {
  path_lem = ap (λ p. p ++ key ∷ []) h.path_lem;
  eval_lem = ap (λ p. r.read (p ++ key ∷ [])) h.path_lem;
}

module _ (r : Row) where
  compared-of :
      (key : Str) (prop : Expr) (path : List Str) (v : Json) (op : BinaryOp) (x : Value)
      → Reads r prop path
      → comparison key ≡ ok op
      → value_try_from v ≡ ok x
      → truth r (binary op prop (value x)) ≡ compared r path key v
  unfolding eval
  compared-of key prop path v op x reads one two =
      rw (comparison-asked key op one, compared)
        (truth-compares r op prop (value x) (comparison-Compares key op one)
          ∙ ap₂ (r.compares op) reads.eval_lem (value_try_from-literal v x two))

  pub compare_member_sound :
      (key : Str) (prop : Expr) (path : List Str) (v : Json) (e : Expr)
      → Reads r prop path
      → compare_member key prop v ≡ ok e
      → truth r e ≡ compared r path key v
  unfolding compare_member
  compare_member_sound key prop path v e reads h =
      let (op, one, h1) = >>=-eq-ok (comparison key) _ h in
      let (x, two, h2) = >>=-eq-ok (value_try_from v) _ h1 in
      let same : e ≡ binary op prop (value x) = cc in
      ap (truth r) same ∙ compared-of key prop path v op x reads one two

  pub equal_member_sound :
      (prop : Expr) (path : List Str) (v : Json) (e : Expr)
      → Reads r prop path
      → equal_member prop v ≡ ok e
      → truth r e ≡ r.compares BinaryOp.eq (r.read path) (literal v)
  unfolding equal_member eval
  equal_member_sound prop path v e reads h =
      let (x, one, h1) = >>=-eq-ok (value_try_from v) _ h in
      let same : e ≡ eq_expr prop (value x) = cc in
      ap (truth r) same
      ∙ truth-compares r BinaryOp.eq prop (value x) tt
      ∙ ap₂ (r.compares BinaryOp.eq) reads.eval_lem (value_try_from-literal v x one)

  pub guarded :
      {A : Type 0} (b : Bool) (err1 : FilterError) (m : Result FilterError A) (a : A)
      → (ensure b err1 >> m) ≡ ok a
      → m ≡ ok a
  guarded true e m a h = h
  guarded false e m a h = cc

  pub equal_member-array :
      (prop : Expr) (items : Items) (e : Expr) → equal_member prop (array items) ≡ ok e → ⊥
  unfolding equal_member value_try_from
  equal_member-array prop items e h = cc

  -- The two arms of a test have the meanings of the two arms of the same test.
  pub either_arm :
      (b : Bool) {m n : Result FilterError Expr} {t u : Truth} (e : Expr)
      → (if b then m else n) ≡ ok e
      → (m ≡ ok e → truth r e ≡ t)
      → (n ≡ ok e → truth r e ≡ u)
      → truth r e ≡ (if b then t else u)
  either_arm true e h f g = f h
  either_arm false e h f g = g h

  pub negated :
      (m : Result FilterError Expr) (e : Expr) (t : Truth)
      → ((x : Expr) → m ≡ ok x → truth r x ≡ t)
      → (m >>= λ x. ok (Expr.not x)) ≡ ok e
      → truth r e ≡ negate t
  negated m e t f h =
      let (x, one, h1) = >>=-eq-ok m _ h in
      let same : e ≡ Expr.not x = cc in ap (truth r) same ∙ truth-not r x ∙ ap negate (f x one)

  -- The property chain of a field of the entity.
  pub Reads-first : (key : Str) → Reads r (property key (parameter 0)) (key ∷ [])
  unfolding eval
  Reads-first key = record { path_lem = refl; eval_lem = refl }

  -- One more conjunct behind an accumulated expression.
  pub push-and :
      (acc e all : Expr) (t rest : Truth)
      → truth r e ≡ t
      → truth r all ≡ both (truth r (and_expr acc e)) rest
      → truth r all ≡ both (truth r acc) (both t rest)
  push-and acc e all t rest he h =
      h
      ∙ ap (λ x. both x rest) (truth-and r acc e ∙ ap (both (truth r acc)) he)
      ∙ both_assoc (truth r acc) t rest

  pub push-or :
      (acc e all : Expr) (t rest : Truth)
      → truth r e ≡ t
      → truth r all ≡ either (truth r (or_expr acc e)) rest
      → truth r all ≡ either (truth r acc) (either t rest)
  push-or acc e all t rest he h =
      h
      ∙ ap (λ x. either x rest) (truth-or r acc e ∙ ap (either (truth r acc)) he)
      ∙ either_assoc (truth r acc) t rest

  pub start-and :
      (e : Expr) (t : Truth) → truth r e ≡ both (truth r (bool_expr true)) t → truth r e ≡ t
  start-and e t h = h ∙ ap (λ x. both x t) (truth-bool r true)

  pub start-or :
      (e : Expr) (t : Truth) → truth r e ≡ either (truth r (bool_expr false)) t → truth r e ≡ t
  start-or e t h = h ∙ ap (λ x. either x t) (truth-bool r false)
