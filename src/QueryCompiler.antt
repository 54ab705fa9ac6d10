-- ===== src/QueryCompiler.antt =====
-- chiselc/src: the rewriting of filter calls into query expressions. The syntax tree of
-- swc_ecmascript is the part that the compiler takes apart: `other` and the numbers in `copied` and
-- `type_args` stand for what is only cloned. Positions in the text are left out. Then
-- chiselc/src/query.rs, the query expressions, and chiselc/src/symbols.rs.
pub mod Convert
pub mod Split
pub mod Properties
pub mod Infer
pub mod Emit
pub mod Rewrite
mod ToyEngine
mod Tests
use chiselstrike.Prelude.{ℕ, Str, str_eq, Bool, Option, List, any}

pub data BinaryOp : Type 0 where
  eq_eq not_eq lt lt_eq gt gt_eq logical_or logical_and : BinaryOp
  other : ℕ → BinaryOp

pub data Lit : Type 0 where
  bool : Bool → Lit
  num : ℕ → Lit
  str : Str → Lit
  other : ℕ → Lit

pub data Pat : Type 0 where
  ident : Str → Pat
  other : ℕ → Pat

pub data PropName : Type 0 where
  ident : Str → PropName
  str : Str → PropName
  other : ℕ → PropName

-- Lists of nodes are constructors of their own: `Args`, `Stmts`, `Declarators`, `Props`.
mutual
  pub data Expr : Type 0 where
    arrow : (params : List Pat) (body : Body) (copied : ℕ) → Expr
    await : Expr → Expr
    call : Callee → Args → (type_args : Option ℕ) → Expr
    member : Expr → MemberProp → Expr
    ident : Str → Expr
    lit : Lit → Expr
    bin : BinaryOp → Expr → Expr → Expr
    paren : Expr → Expr
    object : Props → Expr
    other : ℕ → Expr

  -- `BlockStmtOrExpr`
  pub data Body : Type 0 where
    block : Stmts → Body
    body_expr : Expr → Body

  pub data Callee : Type 0 where
    super : Callee
    import : Callee
    callee_expr : Expr → Callee

  pub data MemberProp : Type 0 where
    prop_ident : Str → MemberProp
    computed : Expr → MemberProp
    private : Str → MemberProp

  -- `ExprOrSpread`: whether the argument is spread, and its expression.
  pub data Args : Type 0 where
    no_args : Args
    arg : Bool → Expr → Args → Args

  pub data Stmt : Type 0 where
    return_value : Expr → Stmt
    return_none : Stmt
    declare : (copied : ℕ) → Declarators → Stmt
    stmt_expr : Expr → Stmt
    other_stmt : ℕ → Stmt

  pub data Stmts : Type 0 where
    end : Stmts
    next : Stmt → Stmts → Stmts

  -- `VarDeclarator`: the name, with or without an initial value.
  pub data Declarators : Type 0 where
    no_more : Declarators
    init : Pat → Expr → Declarators → Declarators
    no_init : Pat → Declarators → Declarators

  pub data Props : Type 0 where
    no_props : Props
    key_value : PropName → Expr → Props → Props
    shorthand : Str → Props → Props
    other_prop : ℕ → Props → Props
    spread : Expr → Props → Props

pub data ModuleItem : Type 0 where
  export_fn : (copied : ℕ) (body : Stmts) → ModuleItem
  export_fn_no_body : (copied : ℕ) → ModuleItem
  other_decl : ℕ → ModuleItem
  stmt : Stmt → ModuleItem

-- What makes the compiler panic: a `todo!()`, an `unwrap` of none, or a failed assertion.
pub data Failure : Type 0 where
  unsupported_callee computed_property destructured_parameter empty_return : Failure
  unsupported_property not_one_statement not_a_return : Failure

-- query.rs
pub data QBinaryOp : Type 0 where
  and eq gt gt_eq lt lt_eq not_eq or : QBinaryOp

pub data QValue : Type 0 where
  bool : Bool → QValue
  num : ℕ → QValue
  str : Str → QValue

-- The structs `BinaryExpr` and `PropertyAccessExpr` are the fields of their constructors.
pub data QExpr : Type 0 where
  binary : QExpr → QBinaryOp → QExpr → QExpr
  property : QExpr → Str → QExpr
  identifier : Str → QExpr
  value : QValue → QExpr

-- `Scan`
pub record Scan : Type 0 where
  pub entity_type : Str
  pub alias : Str

-- `Filter`, whose input is always the scan that `extract_filter` makes. The original call is its
-- callee and its arguments.
pub record Filter : Type 0 where
  pub function : Str
  pub callee : Callee
  pub args : Args
  pub query_expr : Expr
  pub post_expr : Option Expr
  pub parameters : List Str
  pub predicate : QExpr
  pub input : Scan

-- filtering.rs
pub record FilterProperties : Type 0 where
  pub entity_name : Str
  pub properties : List Str

-- `Symbols`: the names of the entities.
abbrev pub Symbols : Type 0
Symbols = List Str

abbrev pub is_entity : Symbols → Str → Bool
is_entity symbols name = any (str_eq name) symbols
