-- ===== src/Expr/Eval.antt =====
-- The meaning of query expressions on one row, in the three-valued logic of SQL. What the database
-- decides is a parameter: the values of the row, its comparisons, and the truth of values that are
-- not Boolean.
use chiselstrike.Prelude.{Str, ◌≡◌, Bool, true, false, List, [], ◌∷◌, ◌++◌, arith}
use chiselstrike.Expr.{Value, BinaryOp, and, or, Expr, value, parameter, property, binary}

pub data Truth : Type 0 where
  holds fails unknown : Truth

abbrev pub both : Truth → Truth → Truth
both holds t = t
both fails t = fails
both unknown fails = fails
both unknown t = unknown

abbrev pub either : Truth → Truth → Truth
either holds t = holds
either fails t = t
either unknown holds = holds
either unknown t = unknown

abbrev pub negate : Truth → Truth
negate holds = fails
negate fails = holds
negate unknown = unknown

pub both_assoc : (a b c : Truth) → both (both a b) c ≡ both a (both b c)
both_assoc a b c = ground arith

pub either_assoc : (a b c : Truth) → either (either a b) c ≡ either a (either b c)
either_assoc a b c = ground arith

pub both-holds : (a : Truth) → both a holds ≡ a
both-holds a = ground arith

pub either-fails : (a : Truth) → either a fails ≡ a
either-fails a = ground arith

-- `of_bool b` is the truth of a Boolean.
abbrev pub of_bool : Bool → Truth
of_bool true = holds
of_bool false = fails

-- A row of the database: the value under each chain of properties, and how its values compare.
pub record Row : Type 0 where
  pub read : List Str → Value
  pub compares : BinaryOp → Value → Value → Truth
  pub other_truth : Value → Truth

abbrev pub truth_of : Row → Value → Truth
truth_of r (Value.bool b) = of_bool b
truth_of r Value.null = unknown
truth_of r v = r.other_truth v

abbrev pub of_truth : Truth → Value
of_truth holds = Value.bool true
of_truth fails = Value.bool false
of_truth unknown = Value.null

-- The property names from the entity down.
abbrev pub path_of : Expr → List Str
path_of (property n o) = path_of o ++ n ∷ []
path_of _ = []

abbrev pub operate : Row → BinaryOp → Value → Value → Value
operate r and a b = of_truth (both (truth_of r a) (truth_of r b))
operate r or a b = of_truth (either (truth_of r a) (truth_of r b))
operate r op a b = of_truth (r.compares op a b)

unfoldable pub eval : Row → Expr → Value
eval r (value v) = v
eval r (parameter i) = Value.null
eval r (property n o) = r.read (path_of o ++ n ∷ [])
eval r (binary op a b) = operate r op (eval r a) (eval r b)
eval r (Expr.not e) = of_truth (negate (truth_of r (eval r e)))

-- Whether the row satisfies the expression.
unfoldable pub truth : Row → Expr → Truth
unfolding eval
truth r e = truth_of r (eval r e)

truth_of-of_truth : (r : Row) (t : Truth) → truth_of r (of_truth t) ≡ t
truth_of-of_truth r t = ground arith

pub truth-and : (r : Row) (a b : Expr) → truth r (binary and a b) ≡ both (truth r a) (truth r b)
unfolding truth
truth-and r a b = truth_of-of_truth r (both (truth_of r (eval r a)) (truth_of r (eval r b)))

pub truth-or : (r : Row) (a b : Expr) → truth r (binary or a b) ≡ either (truth r a) (truth r b)
unfolding truth
truth-or r a b = truth_of-of_truth r (either (truth_of r (eval r a)) (truth_of r (eval r b)))

pub truth-not : (r : Row) (a : Expr) → truth r (Expr.not a) ≡ negate (truth r a)
unfolding truth
truth-not r a = truth_of-of_truth r (negate (truth_of r (eval r a)))

pub truth-bool : (r : Row) (b : Bool) → truth r (value (Value.bool b)) ≡ of_bool b
unfolding truth
truth-bool r b = ground arith

-- The operators that compare, all but `and` and `or`.
abbrev pub Compares : BinaryOp → Type 0
Compares and = ⊥
Compares or = ⊥
Compares _ = Unit

pub truth-compares :
    (r : Row) (op : BinaryOp) (a b : Expr)
    → Compares op
    → truth r (binary op a b) ≡ r.compares op (eval r a) (eval r b)
unfolding truth
truth-compares r BinaryOp.eq a b h = truth_of-of_truth r _
truth-compares r BinaryOp.and a b h = absurd h
truth-compares r BinaryOp.or a b h = absurd h
truth-compares r BinaryOp.not_eq a b h = truth_of-of_truth r _
truth-compares r BinaryOp.lt a b h = truth_of-of_truth r _
truth-compares r BinaryOp.lt_eq a b h = truth_of-of_truth r _
truth-compares r BinaryOp.gt a b h = truth_of-of_truth r _
truth-compares r BinaryOp.gt_eq a b h = truth_of-of_truth r _
truth-compares r BinaryOp.like a b h = truth_of-of_truth r _
truth-compares r BinaryOp.not_like a b h = truth_of-of_truth r _
