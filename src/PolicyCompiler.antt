-- ===== src/PolicyCompiler.antt =====
-- chiselc/src/policies.rs: the predicates and conditions of a filter policy, and the simplification of
-- a condition, which goes through the library quine-mc_cluskey. A panic is an error.
pub mod Mapping
pub mod Simplify
pub mod Vars
pub mod Rules
use chiselstrike.Prelude.{
  ℕ, suc, ◌+◌, ◌==◌, Str, true, false, Option, none, some, List, [], ◌∷◌, ◌++◌, length, get_elem?,
  Result, ok, err, ok_or, ◌>>=◌, if◌then◌else◌, ◌%◌,
}
use chiselstrike.Prelude
use chiselstrike.Json.{Json}

-- The panics of the compiler, and its one error.
pub data Failure : Type 0 where
  invalid_predicate_id : Failure
  index_out_of_bounds : Failure
  unwrap_on_none : Failure
  unsupported_op : Failure
  unsupported_expr : Failure
  invalid_member : Failure
  invalid_test : Failure
  invalid_return : Failure
  expected_return : Failure
  multiline_block : Failure
  not_implemented : Failure
  unknown_statement : Failure
  loops_not_supported : Failure
  emit_failed : Failure

pub data LogicOp : Type 0 where
  eq neq gt gte lt lte and or : LogicOp

-- `Var` and `VarId`
abbrev pub VarId : Type 0
VarId = ℕ

pub data Var : Type 0 where
  ident : Str → Var
  member : VarId → Str → Var

pub data Predicate : Type 0 where
  bin : LogicOp → Predicate → Predicate → Predicate
  not : Predicate → Predicate
  lit : Json → Predicate
  var : VarId → Predicate

abbrev pub Predicates : Type 0
Predicates = List Predicate

-- `Predicates::insert` and `Predicates::get`
abbrev pub insert_predicate : Predicate → Predicates → ℕ × Predicates
insert_predicate p preds = (length preds, preds ++ p ∷ [])

abbrev pub get_predicate : Predicates → ℕ → Result Failure Predicate
get_predicate preds id = ok_or (get_elem? preds id) invalid_predicate_id

pub data Cond : Type 0 where
  and : Cond → Cond → Cond
  or : Cond → Cond → Cond
  not : Cond → Cond
  predicate : ℕ → Cond
  holds : Cond
  fails : Cond

-- The library's type of Boolean expressions, as far as the program uses it. A term is a `u8`.
mutual
  pub data BoolExpr : Type 0 where
    holds : BoolExpr
    fails : BoolExpr
    term : ℕ → BoolExpr
    and : BoolExprs → BoolExpr
    or : BoolExprs → BoolExpr
    not : BoolExpr → BoolExpr

  pub data BoolExprs : Type 0 where
    nil : BoolExprs
    cons : BoolExpr → BoolExprs → BoolExprs

abbrev pub pair : BoolExpr → BoolExpr → BoolExprs
pair l r = BoolExprs.cons l (BoolExprs.cons r BoolExprs.nil)

-- `mapping.iter().position(|i| i == id)`
unfoldable pub position : ℕ → List ℕ → Option ℕ
position id [] = none
position id (i ∷ is) =
    let rest = position id is in
    if i == id then some 0 else elim rest [ none ↦ none | some n ↦ some (suc n) ]

-- `as u8`
abbrev pub as_u8 : ℕ → ℕ
as_u8 n = n % 256

-- `mapping.len() as u8 - 1`, which wraps around.
abbrev pub last_index : List ℕ → ℕ
last_index mapping = (as_u8 (length mapping) + 255) % 256

-- The arm for a predicate that is no Boolean literal.
term_of : ℕ → List ℕ → BoolExpr × List ℕ
term_of id mapping = elim (position id mapping) [
  | some n ↦ (BoolExpr.term (as_u8 n), mapping)
  | none ↦ (BoolExpr.term (last_index (mapping ++ id ∷ [])), mapping ++ id ∷ [])
]

predicate_to_bool : Predicate → ℕ → List ℕ → BoolExpr × List ℕ
unfolding term_of
predicate_to_bool (Predicate.lit (Json.bool true)) id mapping = (BoolExpr.holds, mapping)
predicate_to_bool (Predicate.lit (Json.bool false)) id mapping = (BoolExpr.fails, mapping)
predicate_to_bool _ id mapping = term_of id mapping

-- `Cond::to_bool`, with the mapping passed on.
to_bool : Predicates → Cond → List ℕ → Result Failure (BoolExpr × List ℕ)
unfolding predicate_to_bool
to_bool preds (Cond.and l r) mapping = do
  (lhs, m) ← to_bool preds l mapping
  (rhs, n) ← to_bool preds r m
  ok (BoolExpr.and (pair lhs rhs), n)
to_bool preds (Cond.or l r) mapping = do
  (lhs, m) ← to_bool preds l mapping
  (rhs, n) ← to_bool preds r m
  ok (BoolExpr.or (pair lhs rhs), n)
to_bool preds (Cond.not c) mapping = do (b, m) ← to_bool preds c mapping; ok (BoolExpr.not b, m)
to_bool preds (Cond.predicate id) mapping = do
  p ← get_predicate preds id
  ok (predicate_to_bool p id mapping)
to_bool preds Cond.holds mapping = ok (BoolExpr.holds, mapping)
to_bool preds Cond.fails mapping = ok (BoolExpr.fails, mapping)

-- `reduce(..).unwrap()`
fold_conds : (Cond → Cond → Cond) → Cond → List Cond → Cond
fold_conds f acc [] = acc
fold_conds f acc (c ∷ cs) = fold_conds f (f acc c) cs

reduce : (Cond → Cond → Cond) → List Cond → Result Failure Cond
unfolding fold_conds
reduce f [] = err unwrap_on_none
reduce f (c ∷ cs) = ok (fold_conds f c cs)

-- `Cond::from_bool`
mutual
  unfolding reduce

  from_bool : List ℕ → BoolExpr → Result Failure Cond
  from_bool mapping BoolExpr.holds = ok Cond.holds
  from_bool mapping BoolExpr.fails = ok Cond.fails
  from_bool mapping (BoolExpr.term i) = do
    id ← ok_or (get_elem? mapping i) index_out_of_bounds
    ok (Cond.predicate id)
  from_bool mapping (BoolExpr.and bs) = do cs ← from_bools mapping bs; reduce Cond.and cs
  from_bool mapping (BoolExpr.or bs) = do cs ← from_bools mapping bs; reduce Cond.or cs
  from_bool mapping (BoolExpr.not b) = do c ← from_bool mapping b; ok (Cond.not c)

  from_bools : List ℕ → BoolExprs → Result Failure (List Cond)
  from_bools mapping BoolExprs.nil = ok []
  from_bools mapping (BoolExprs.cons b bs) = do
    c ← from_bool mapping b
    cs ← from_bools mapping bs
    ok (c ∷ cs)

-- `quine_mc_cluskey::Bool::simplify`, and for how many terms it works.
pub record Simplifier : Type 0 where
  pub simplify : BoolExpr → List BoolExpr
  pub max_terms : ℕ

-- `Cond::simplify`
unfoldable pub simplify : Simplifier → Predicates → Cond → Result Failure Cond
unfolding to_bool from_bool
simplify s preds c = do
  (b, mapping) ← to_bool preds c []
  simp ← ok_or (Prelude.head? (s.simplify b)) index_out_of_bounds
  from_bool mapping simp
