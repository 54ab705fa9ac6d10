-- ===== src/QueryCompiler/ToyEngine.antt =====
-- An engine to test with.
use chiselstrike.Prelude.{
  ℕ, suc, ◌≡◌, refl, Str, ltb, ◌==◌, Bool, not, Option, none, some, length, if◌then◌else◌,
}
use chiselstrike.QueryCompiler.{BinaryOp, Lit, Expr, MemberProp, QBinaryOp, QValue}
use chiselstrike.QueryCompiler.Convert.Meaning.{Engine, RunsBoth, written, operator_of}

-- An engine whose values are numbers, on rows that are numbers: every name is the row, a property is
-- its object, and a call counts up the state and is its old value.
abbrev pub toy_operate : QBinaryOp → ℕ → ℕ → ℕ
toy_operate QBinaryOp.gt a b = if ltb b a then 1 else 0
toy_operate QBinaryOp.gt_eq a b = if ltb a b then 0 else 1
toy_operate QBinaryOp.lt a b = if ltb a b then 1 else 0
toy_operate QBinaryOp.lt_eq a b = if ltb b a then 0 else 1
toy_operate QBinaryOp.not_eq a b = if a == b then 0 else 1
toy_operate _ a b = if a == b then 1 else 0

abbrev pub toy_truthy : ℕ → Bool
toy_truthy v = not (v == 0)

abbrev pub toy_literal : QValue → ℕ
toy_literal (QValue.bool b) = if b then 1 else 0
toy_literal (QValue.num n) = n
toy_literal (QValue.str s) = length s

abbrev pub toy_lit : Lit → ℕ
toy_lit (Lit.bool b) = if b then 1 else 0
toy_lit (Lit.num n) = n
toy_lit (Lit.str s) = length s
toy_lit (Lit.other n) = 0

-- What the operators of the program do.
abbrev pub toy_op : BinaryOp → Option QBinaryOp
toy_op BinaryOp.logical_and = some QBinaryOp.and
toy_op BinaryOp.logical_or = some QBinaryOp.or
toy_op BinaryOp.eq_eq = some QBinaryOp.eq
toy_op BinaryOp.not_eq = some QBinaryOp.not_eq
toy_op BinaryOp.lt = some QBinaryOp.lt
toy_op BinaryOp.lt_eq = some QBinaryOp.lt_eq
toy_op BinaryOp.gt = some QBinaryOp.gt
toy_op BinaryOp.gt_eq = some QBinaryOp.gt_eq
toy_op (BinaryOp.other n) = none

-- A binary expression, from the runs of its sides.
abbrev pub toy_bin : Option QBinaryOp → (ℕ → ℕ × ℕ) → (ℕ → ℕ × ℕ) → ℕ → ℕ × ℕ
toy_bin none l r σ = (0, σ)
toy_bin (some QBinaryOp.and) l r σ = if toy_truthy (l σ).0 then r (l σ).1 else l σ
toy_bin (some QBinaryOp.or) l r σ = if toy_truthy (l σ).0 then l σ else r (l σ).1
toy_bin (some op) l r σ = (toy_operate op (l σ).0 (r (l σ).1).0, (r (l σ).1).1)

unfoldable pub toy_run : ℕ → Expr → ℕ → ℕ × ℕ
toy_run row (Expr.ident s) σ = (row, σ)
toy_run row (Expr.lit l) σ = (toy_lit l, σ)
toy_run row (Expr.paren e) σ = toy_run row e σ
toy_run row (Expr.member o p) σ = toy_run row o σ
toy_run row (Expr.call c a t) σ = (σ, suc σ)
toy_run row (Expr.bin op l r) σ = toy_bin (toy_op op) (toy_run row l) (toy_run row r) σ
toy_run row _ σ = (0, σ)

pub toy_run_lit :
    (row : ℕ) (v : QValue) (σ : ℕ) → toy_run row (Expr.lit (written v)) σ ≡ (toy_literal v, σ)
unfolding toy_run
toy_run_lit row (QValue.bool b) σ = refl
toy_run_lit row (QValue.num n) σ = refl
toy_run_lit row (QValue.str s) σ = refl

pub toy_run_member :
    (row : ℕ) (o : Expr) (n : Str) (σ : ℕ)
    → toy_run row (Expr.member o (MemberProp.prop_ident n)) σ
      ≡ ((toy_run row o σ).0, (toy_run row o σ).1)
unfolding toy_run
toy_run_member row o n σ = refl

pub toy_run_and :
    (row : ℕ) (l r : Expr) (σ : ℕ)
    → toy_run row (Expr.bin BinaryOp.logical_and l r) σ ≡ (
        if toy_truthy (toy_run row l σ).0
        then toy_run row r (toy_run row l σ).1
        else toy_run row l σ)
unfolding toy_run
toy_run_and row l r σ = refl

pub toy_run_or :
    (row : ℕ) (l r : Expr) (σ : ℕ)
    → toy_run row (Expr.bin BinaryOp.logical_or l r) σ ≡ (
        if toy_truthy (toy_run row l σ).0
        then toy_run row l σ
        else toy_run row r (toy_run row l σ).1)
unfolding toy_run
toy_run_or row l r σ = refl

pub toy_run_both :
    (row : ℕ) (q : QBinaryOp) (l r : Expr) (σ : ℕ)
    → RunsBoth q
    → toy_run row (Expr.bin (operator_of q) l r) σ ≡ (
      toy_operate q (toy_run row l σ).0 (toy_run row r (toy_run row l σ).1).0,
      (toy_run row r (toy_run row l σ).1).1,
    )
unfolding toy_run
toy_run_both row QBinaryOp.and l r σ k = absurd k
toy_run_both row QBinaryOp.or l r σ k = absurd k
toy_run_both row q l r σ k = refl

pub toy_paren : (row : ℕ) (e : Expr) (σ : ℕ) → toy_run row (Expr.paren e) σ ≡ toy_run row e σ
unfolding toy_run
toy_paren row e σ = refl

pub toy_ident : (row : ℕ) (s : Str) (σ : ℕ) → toy_run row (Expr.ident s) σ ≡ (row, σ)
unfolding toy_run
toy_ident row s σ = refl

abbrev pub toy : ℕ → Engine ℕ ℕ
toy row = record {
  run = toy_run row;
  truthy = toy_truthy;
  name = λ s. row;
  literal = toy_literal;
  get = λ v n. v;
  operate = toy_operate;
  run_ident = toy_ident row;
  run_lit = toy_run_lit row;
  run_paren = toy_paren row;
  run_member = toy_run_member row;
  run_and = toy_run_and row;
  run_or = toy_run_or row;
  run_both = toy_run_both row;
}
