-- ===== src/QueryCompiler/Rewrite.antt =====
-- chiselc/src/rewrite.rs: the walk over a module that replaces its queries. The state of `Rewriter` is
-- the list of the indexes; a failure is a panic.
pub mod NoQuery
pub mod Unchanged
pub mod Progress
use chiselstrike.Prelude.{ℕ, Option, none, some, List, [], ◌∷◌, ◌++◌, Result, ok, ◌>>=◌}
use chiselstrike.QueryCompiler.{
  Expr, Callee, Args, Body, Stmts, Stmt, Declarators, ModuleItem, Failure, Filter, FilterProperties,
  Symbols,
}
use chiselstrike.QueryCompiler.Infer.{infer_filter, infer_find}
use chiselstrike.QueryCompiler.Emit.{to_ts_expr}

-- A step of the rewriter gives its result and the indexes so far.
abbrev pub Rewritten : Type 0 → Type 0
Rewritten A = Result Failure (A × List FilterProperties)

-- `if let Some(index) = index { self.indexes.push(index) }`
abbrev pub push_index : Option FilterProperties → List FilterProperties → List FilterProperties
push_index none indexes = indexes
push_index (some index) indexes = indexes ++ index ∷ []

module _ (f64_of : ℕ → ℕ) (symbols : Symbols) where
  -- The early return of the call that stands for a filter.
  abbrev pub or_filter : Option Filter → List FilterProperties → Rewritten Expr → Rewritten Expr
  or_filter none indexes rest = rest
  or_filter (some filter) indexes rest = do e ← to_ts_expr f64_of filter; ok (e, indexes)

  unfoldable mutual
    pub rewrite_expr : Expr → List FilterProperties → Rewritten Expr
    rewrite_expr (Expr.arrow params body copied) indexes = do
      (b, ix) ← rewrite_body body indexes
      ok (Expr.arrow params b copied, ix)
    rewrite_expr (Expr.await e) indexes = do (a, ix) ← rewrite_expr e indexes; ok (Expr.await a, ix)
    rewrite_expr (Expr.call callee args t) indexes = do
      (filter, index) ← infer_filter callee args symbols
      or_filter filter (push_index index indexes) (do
        (find, find_index) ← infer_find callee args symbols
        or_filter find (push_index find_index (push_index index indexes)) (do
          (items, ix) ← rewrite_args args (push_index find_index (push_index index indexes))
          (c, ix2) ← rewrite_callee callee ix
          ok (Expr.call c items t, ix2)))
    rewrite_expr (Expr.member obj prop) indexes = do
      (o, ix) ← rewrite_expr obj indexes
      ok (Expr.member o prop, ix)
    rewrite_expr (Expr.ident s) indexes = ok (Expr.ident s, indexes)
    rewrite_expr (Expr.lit l) indexes = ok (Expr.lit l, indexes)
    rewrite_expr (Expr.bin op l r) indexes = ok (Expr.bin op l r, indexes)
    rewrite_expr (Expr.paren e) indexes = ok (Expr.paren e, indexes)
    rewrite_expr (Expr.object p) indexes = ok (Expr.object p, indexes)
    rewrite_expr (Expr.other n) indexes = ok (Expr.other n, indexes)

    pub rewrite_body : Body → List FilterProperties → Rewritten Body
    rewrite_body (Body.block stmts) indexes = do
      (ss, ix) ← rewrite_block_stmt stmts indexes
      ok (Body.block ss, ix)
    rewrite_body (Body.body_expr e) indexes = do
      (a, ix) ← rewrite_expr e indexes
      ok (Body.body_expr a, ix)

    pub rewrite_callee : Callee → List FilterProperties → Rewritten Callee
    rewrite_callee Callee.super indexes = ok (Callee.super, indexes)
    rewrite_callee Callee.import indexes = ok (Callee.import, indexes)
    rewrite_callee (Callee.callee_expr e) indexes = do
      (a, ix) ← rewrite_expr e indexes
      ok (Callee.callee_expr a, ix)

    pub rewrite_args : Args → List FilterProperties → Rewritten Args
    rewrite_args Args.no_args indexes = ok (Args.no_args, indexes)
    rewrite_args (Args.arg spread e rest) indexes = do
      (a, ix) ← rewrite_expr e indexes
      (items, ix2) ← rewrite_args rest ix
      ok (Args.arg spread a items, ix2)

    pub rewrite_stmt : Stmt → List FilterProperties → Rewritten Stmt
    rewrite_stmt (Stmt.declare copied decls) indexes = do
      (ds, ix) ← rewrite_declarators decls indexes
      ok (Stmt.declare copied ds, ix)
    rewrite_stmt (Stmt.stmt_expr e) indexes = do
      (a, ix) ← rewrite_expr e indexes
      ok (Stmt.stmt_expr a, ix)
    rewrite_stmt (Stmt.return_value e) indexes = ok (Stmt.return_value e, indexes)
    rewrite_stmt Stmt.return_none indexes = ok (Stmt.return_none, indexes)
    rewrite_stmt (Stmt.other_stmt n) indexes = ok (Stmt.other_stmt n, indexes)

    pub rewrite_block_stmt : Stmts → List FilterProperties → Rewritten Stmts
    rewrite_block_stmt Stmts.end indexes = ok (Stmts.end, indexes)
    rewrite_block_stmt (Stmts.next s rest) indexes = do
      (a, ix) ← rewrite_stmt s indexes
      (ss, ix2) ← rewrite_block_stmt rest ix
      ok (Stmts.next a ss, ix2)

    pub rewrite_declarators : Declarators → List FilterProperties → Rewritten Declarators
    rewrite_declarators Declarators.no_more indexes = ok (Declarators.no_more, indexes)
    rewrite_declarators (Declarators.init name e rest) indexes = do
      (a, ix) ← rewrite_expr e indexes
      (ds, ix2) ← rewrite_declarators rest ix
      ok (Declarators.init name a ds, ix2)
    rewrite_declarators (Declarators.no_init name rest) indexes = do
      (ds, ix) ← rewrite_declarators rest indexes
      ok (Declarators.no_init name ds, ix)

  -- `rewrite_item`, with `rewrite_module_decl` and `rewrite_fn_expr` as its cases.
  unfoldable pub rewrite_item : ModuleItem → List FilterProperties → Rewritten ModuleItem
  rewrite_item (ModuleItem.export_fn copied body) indexes = do
    (b, ix) ← rewrite_block_stmt body indexes
    ok (ModuleItem.export_fn copied b, ix)
  rewrite_item (ModuleItem.stmt s) indexes = do
    (a, ix) ← rewrite_stmt s indexes
    ok (ModuleItem.stmt a, ix)
  rewrite_item (ModuleItem.export_fn_no_body copied) indexes =
      ok (ModuleItem.export_fn_no_body copied, indexes)
  rewrite_item (ModuleItem.other_decl n) indexes = ok (ModuleItem.other_decl n, indexes)

  -- The loop of `rewrite` over the body of the module.
  unfoldable pub rewrite : List ModuleItem → List FilterProperties → Rewritten (List ModuleItem)
  unfolding rewrite_item
  rewrite [] indexes = ok ([], indexes)
  rewrite (item ∷ rest) indexes = do
    (a, ix) ← rewrite_item item indexes
    (items, ix2) ← rewrite rest ix
    ok (a ∷ items, ix2)
