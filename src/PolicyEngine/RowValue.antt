-- ===== src/PolicyEngine/RowValue.antt =====
-- server/src/policy/engine.rs: the value of a predicate on a row, and that of its expression.
use chiselstrike.Prelude.{
  Str, str_eq, if◌then◌else◌, Option, Bool, true, false, none, some, [], ◌∷◌, get_elem?, Result, ok,
  err, >>=-eq-ok, ok_or-eq-ok, ◌≡◌, refl, sym, ap, subst,
}
use chiselstrike.Json.{Json}
use chiselstrike.Expr.{BinaryOp, Expr, FilterError, Value, value_try_from}
use chiselstrike.Filter.Meaning.{literal}
use chiselstrike.Filter.Arms.{value_try_from-literal}
use chiselstrike.Expr.Eval.{both, either, negate, of_bool, of_truth, truth_of, operate, eval, Row}
use chiselstrike.PolicyCompiler.{LogicOp, Var, unwrap_on_none, Predicate, Failure}
use chiselstrike.PolicyCompiler.Vars.{Environment, get_var}
use chiselstrike.PolicyCompiler.Vars.Meaning.{opt_map, opt_map2}
use chiselstrike.PolicyEngine.{
  unknown_variable, value_failed, lift, binary_op, value_from_json, var_to_expr, predicate_to_expr,
}

pub lift-eq-ok : {A : Type 0} (m : Result Failure A) {a : A} → lift m ≡ ok a → m ≡ ok a
lift-eq-ok (ok b) h = cc
lift-eq-ok (err e) h = cc

-- What an operator of a predicate computes from two values of the database.
abbrev pub row_op : Row → LogicOp → Value → Value → Value
row_op r LogicOp.eq x y = of_truth (r.compares BinaryOp.eq x y)
row_op r LogicOp.neq x y = of_truth (r.compares BinaryOp.not_eq x y)
row_op r LogicOp.gt x y = of_truth (r.compares BinaryOp.gt x y)
row_op r LogicOp.gte x y = of_truth (r.compares BinaryOp.gt_eq x y)
row_op r LogicOp.lt x y = of_truth (r.compares BinaryOp.lt x y)
row_op r LogicOp.lte x y = of_truth (r.compares BinaryOp.lt_eq x y)
row_op r LogicOp.and x y = of_truth (both (truth_of r x) (truth_of r y))
row_op r LogicOp.or x y = of_truth (either (truth_of r x) (truth_of r y))

-- The value of a variable on the row: only the fields of the entity have one.
abbrev pub field_of_entity : Row → Str → Str → Option Var → Option Value
field_of_entity r entity prop (some (Var.ident name)) =
    if str_eq name entity then some (r.read (prop ∷ [])) else none
field_of_entity r entity prop _ = none

abbrev pub variable_on_row : Row → Str → Environment → Option Var → Option Value
variable_on_row r entity env (some (Var.member object prop)) =
    field_of_entity r entity prop (get_elem? env object)
variable_on_row r entity env _ = none

-- The value of a predicate on the row.
unfoldable pub value_on_row : Row → Str → Environment → Predicate → Option Value
value_on_row r entity env (Predicate.bin op a b) =
    opt_map2 (row_op r op) (value_on_row r entity env a) (value_on_row r entity env b)
value_on_row r entity env (Predicate.not a) =
    opt_map (λ x. of_truth (negate (truth_of r x))) (value_on_row r entity env a)
value_on_row r entity env (Predicate.lit j) = some (literal j)
value_on_row r entity env (Predicate.var id) = variable_on_row r entity env (get_elem? env id)

-- A predicate that has a value on the row is true or false there, as the Boolean says.
abbrev pub IsTruth : Row → Option Value → Bool → Type 0
IsTruth r (some x) b = truth_of r x ≡ of_bool b
IsTruth r none b = Unit

row_op-operate :
    (r : Row) (op : LogicOp) (x y : Value) → row_op r op x y ≡ operate r (binary_op op) x y
row_op-operate r LogicOp.eq x y = refl
row_op-operate r LogicOp.neq x y = refl
row_op-operate r LogicOp.gt x y = refl
row_op-operate r LogicOp.gte x y = refl
row_op-operate r LogicOp.lt x y = refl
row_op-operate r LogicOp.lte x y = refl
row_op-operate r LogicOp.and x y = refl
row_op-operate r LogicOp.or x y = refl

value_from_json-literal : (j : Json) (x : Value) → value_from_json j ≡ ok x → x ≡ literal j
value_from_json-literal j x h = tried (value_try_from j) (value_try_from-literal j) h
  where
    tried :
        (m : Result FilterError Value)
        → ((y : Value) → m ≡ ok y → y ≡ literal j)
        → (elim m [ ok v ↦ ok v | err e ↦ err (value_failed e) ]) ≡ ok x
        → x ≡ literal j
    tried (ok y) f k = let same : y ≡ x = cc k in f x (ap ok same)
    tried (err e) f k = cc k

var_to_expr-variable_on_row :
    (r : Row) (entity : Str) (env : Environment) (var : Var) {e : Expr}
    → var_to_expr entity env var ≡ ok e
    → variable_on_row r entity env (some var) ≡ some (eval r e)
unfolding var_to_expr eval
var_to_expr-variable_on_row r entity env (Var.ident s) h = cc h
var_to_expr-variable_on_row r entity env (Var.member object prop) {e} h =
    let (var, ev, h1) = >>=-eq-ok (lift (get_var env object)) _ h in
    rw (ok_or-eq-ok (get_elem? env object) unwrap_on_none (lift-eq-ok (get_var env object) ev))
      (owner var h1)
  where
    named :
        (b : Bool) (n : Str)
        → (if b
            then ok (Expr.property prop (Expr.parameter 0))
            else err (unknown_variable (Var.ident n)))
          ≡ ok e
        → (if b then some (r.read (prop ∷ [])) else none) ≡ some (eval r e)
    named true n k =
        let same : Expr.property prop (Expr.parameter 0) ≡ e = cc k in
        subst (λ d. some (r.read (prop ∷ [])) ≡ some (eval r d)) same refl
    named false n k = cc k

    owner :
        (var : Var)
        → (elim var [
          | Var.ident n ↦
              if str_eq n entity
              then ok (Expr.property prop (Expr.parameter 0))
              else err (unknown_variable (Var.ident n))
          | Var.member o p ↦ err (unknown_variable (Var.member o p))
        ])
          ≡ ok e
        → field_of_entity r entity prop (some var) ≡ some (eval r e)
    owner (Var.ident n) k = named (str_eq n entity) n k
    owner (Var.member o p) k = cc k

-- The value of the expression of a predicate is that of the predicate.
pub predicate_to_expr-value_on_row :
    (r : Row) (entity : Str) (env : Environment) (p : Predicate) {e : Expr}
    → predicate_to_expr entity env p ≡ ok e
    → value_on_row r entity env p ≡ some (eval r e)
unfolding predicate_to_expr value_on_row eval
predicate_to_expr-value_on_row r entity env (Predicate.bin op a b) {e} h =
    let (x, ex, h1) = >>=-eq-ok (predicate_to_expr entity env a) _ h in
    let (y, ey, h2) = >>=-eq-ok (predicate_to_expr entity env b) _ h1 in
    let same : Expr.binary (binary_op op) x y ≡ e = cc h2 in
    subst (λ d. value_on_row r entity env (Predicate.bin op a b) ≡ some (eval r d)) same
      (rw
        (
          predicate_to_expr-value_on_row r entity env a ex,
          predicate_to_expr-value_on_row r entity env b ey,
        )
        (ap some (row_op-operate r op (eval r x) (eval r y))))
predicate_to_expr-value_on_row r entity env (Predicate.not a) {e} h =
    let (x, ex, h1) = >>=-eq-ok (predicate_to_expr entity env a) _ h in
    let same : Expr.not x ≡ e = cc h1 in
    subst (λ d. value_on_row r entity env (Predicate.not a) ≡ some (eval r d)) same
      (rw (predicate_to_expr-value_on_row r entity env a ex) refl)
predicate_to_expr-value_on_row r entity env (Predicate.lit j) {e} h =
    let (x, ex, h1) = >>=-eq-ok (value_from_json j) _ h in
    let same : Expr.value x ≡ e = cc h1 in
    subst (λ d. value_on_row r entity env (Predicate.lit j) ≡ some (eval r d)) same
      (ap some (sym (value_from_json-literal j x ex)))
predicate_to_expr-value_on_row r entity env (Predicate.var id) {e} h =
    let (var, ev, h1) = >>=-eq-ok (lift (get_var env id)) _ h in
    rw (ok_or-eq-ok (get_elem? env id) unwrap_on_none (lift-eq-ok (get_var env id) ev))
      (var_to_expr-variable_on_row r entity env var h1)
