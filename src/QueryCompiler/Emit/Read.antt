-- ===== src/QueryCompiler/Emit/Read.antt =====
-- A reader of the emitted objects, by their field names in any order, and the round trip through it.
use chiselstrike.Prelude.{
  ℕ, ◌<◌, ◌≡◌, Str, str_eq, text, Option, none, some, List, [], ◌∷◌, lookup, get_elem?, length,
  if◌then◌else◌,
}
use chiselstrike.QueryCompiler.{Expr, Lit, PropName, Props, QBinaryOp, QValue, QExpr}

-- An expression and what it reads as.
abbrev pub Field : Type 0
Field = Expr × Option QExpr

infixl 5 ◌>>?◌
abbrev pub ◌>>?◌ : {A B : Type 0} → Option A → (A → Option B) → Option B
none >>? f = none
some a >>? f = f a

abbrev pub read_str : Field → Option Str
read_str (Expr.lit (Lit.str s), q) = some s
read_str _ = none

abbrev pub read_num : Field → Option ℕ
read_num (Expr.lit (Lit.num n), q) = some n
read_num _ = none

-- A literal, or a variable of the program around the filter.
abbrev pub read_value : Field → Option QExpr
read_value (Expr.lit (Lit.bool b), q) = some (QExpr.value (QValue.bool b))
read_value (Expr.lit (Lit.num n), q) = some (QExpr.value (QValue.num n))
read_value (Expr.lit (Lit.str s), q) = some (QExpr.value (QValue.str s))
read_value (Expr.ident s, q) = some (QExpr.identifier s)
read_value _ = none

abbrev pub op_names : List (Str × QBinaryOp)
op_names =
    (text "And", QBinaryOp.and)
    ∷ (text "Or", QBinaryOp.or)
    ∷ (text "Eq", QBinaryOp.eq)
    ∷ (text "NotEq", QBinaryOp.not_eq)
    ∷ (text "Lt", QBinaryOp.lt)
    ∷ (text "LtEq", QBinaryOp.lt_eq)
    ∷ (text "Gt", QBinaryOp.gt)
    ∷ (text "GtEq", QBinaryOp.gt_eq)
    ∷ []

-- `nat_of` reads a position, and `params` are the parameters of the filter.
module _ (nat_of : ℕ → ℕ) (params : List Str) where
  abbrev pub read_binary : List (Str × Field) → Option QExpr
  read_binary fields = lookup (text "left") fields >>? λ l. l.1 >>? λ left.
      lookup (text "op") fields >>? λ o. read_str o >>? λ name. lookup name op_names >>? λ op.
      lookup (text "right") fields >>? λ r. r.1 >>? λ right. some (QExpr.binary left op right)

  abbrev pub read_property : List (Str × Field) → Option QExpr
  read_property fields = lookup (text "object") fields >>? λ o. o.1 >>? λ object.
      lookup (text "property") fields >>? λ p.
      read_str p >>? λ name. some (QExpr.property object name)

  abbrev pub read_parameter : List (Str × Field) → Option QExpr
  read_parameter fields = lookup (text "position") fields >>? λ p.
      read_num p >>? λ n. get_elem? params (nat_of n) >>? λ s. some (QExpr.identifier s)

  abbrev pub read_fields : List (Str × Field) → Option QExpr
  read_fields fields = lookup (text "exprType") fields >>? λ t. read_str t >>? λ expr_type.
      if str_eq expr_type (text "Binary")
      then read_binary fields
      else if str_eq expr_type (text "Property")
      then read_property fields
      else if str_eq expr_type (text "Parameter")
      then read_parameter fields
      else if str_eq expr_type (text "Value")
      then lookup (text "value") fields >>? read_value
      else none

  mutual
    unfolding lookup str_eq

    pub read_expr : Expr → Option QExpr
    read_expr (Expr.object props) = read_fields (fields_of props)
    read_expr _ = none

    pub fields_of : Props → List (Str × Field)
    fields_of (Props.key_value (PropName.ident key) e rest) =
        (key, (e, read_expr e)) ∷ fields_of rest
    fields_of _ = []

-- What the parameters hold at the position of a name is the name.
abbrev Names : List Str → Str → Option ℕ → Type 0
Names params s none = Unit
Names params s (some i) = (get_elem? params i ≡ some s) × (i < length params)
