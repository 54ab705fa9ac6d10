-- ===== src/QueryCompiler/Rewrite/Unchanged.antt =====
-- A module without queries is left as it is.
use chiselstrike.Prelude.{ℕ, ◌≡◌, refl, List, [], ◌∷◌, ok}
use chiselstrike.QueryCompiler.{
  Expr, Callee, Args, Body, Stmts, Stmt, Declarators, ModuleItem, FilterProperties, Symbols,
}
use chiselstrike.QueryCompiler.Rewrite.{
  rewrite_expr, rewrite_body, rewrite_callee, rewrite_args, rewrite_stmt, rewrite_block_stmt,
  rewrite_declarators, rewrite_item, rewrite,
}
use chiselstrike.QueryCompiler.Rewrite.NoQuery.{
  IsNoQuery, infer_filter-IsNoQuery, infer_find-IsNoQuery,
}

module _ (symbols : Symbols) where
  -- No call that the rewriter comes to is a query.
  unfoldable mutual
    pub IsQuiet : Expr → Type 0
    IsQuiet (Expr.arrow params body copied) = IsQuietBody body
    IsQuiet (Expr.await e) = IsQuiet e
    IsQuiet (Expr.call callee args t) =
        IsNoQuery symbols callee × IsQuietCallee callee × IsQuietArgs args
    IsQuiet (Expr.member o prop) = IsQuiet o
    IsQuiet _ = Unit

    pub IsQuietBody : Body → Type 0
    IsQuietBody (Body.block stmts) = IsQuietBlock stmts
    IsQuietBody (Body.body_expr e) = IsQuiet e

    pub IsQuietCallee : Callee → Type 0
    IsQuietCallee (Callee.callee_expr e) = IsQuiet e
    IsQuietCallee _ = Unit

    pub IsQuietArgs : Args → Type 0
    IsQuietArgs Args.no_args = Unit
    IsQuietArgs (Args.arg spread e rest) = IsQuiet e × IsQuietArgs rest

    pub IsQuietStmt : Stmt → Type 0
    IsQuietStmt (Stmt.declare copied decls) = IsQuietDecls decls
    IsQuietStmt (Stmt.stmt_expr e) = IsQuiet e
    IsQuietStmt _ = Unit

    pub IsQuietBlock : Stmts → Type 0
    IsQuietBlock Stmts.end = Unit
    IsQuietBlock (Stmts.next s rest) = IsQuietStmt s × IsQuietBlock rest

    pub IsQuietDecls : Declarators → Type 0
    IsQuietDecls Declarators.no_more = Unit
    IsQuietDecls (Declarators.init name e rest) = IsQuiet e × IsQuietDecls rest
    IsQuietDecls (Declarators.no_init name rest) = IsQuietDecls rest

  abbrev pub IsQuietItem : ModuleItem → Type 0
  IsQuietItem (ModuleItem.export_fn copied body) = IsQuietBlock body
  IsQuietItem (ModuleItem.stmt s) = IsQuietStmt s
  IsQuietItem _ = Unit

  abbrev pub IsQuietModule : List ModuleItem → Type 0
  IsQuietModule [] = Unit
  IsQuietModule (item ∷ rest) = IsQuietItem item × IsQuietModule rest

  module _ (f64_of : ℕ → ℕ) where
    mutual
      unfolding IsQuiet IsQuietBody IsQuietCallee IsQuietArgs IsQuietStmt IsQuietBlock IsQuietDecls
          rewrite_expr rewrite_body rewrite_callee rewrite_args rewrite_stmt rewrite_block_stmt
          rewrite_declarators

      unchanged_expr :
          (x : Expr) (ix : List FilterProperties)
          → IsQuiet x
          → rewrite_expr f64_of symbols x ix ≡ ok (x, ix)
      unchanged_expr (Expr.arrow p b c) ix h = rw (unchanged_body b ix h) refl
      unchanged_expr (Expr.await e) ix h = rw (unchanged_expr e ix h) refl
      unchanged_expr (Expr.call c a t) ix h = rw (infer_filter-IsNoQuery symbols c a h.0) (
          rw (infer_find-IsNoQuery symbols c a h.0)
            (rw (unchanged_args a ix h.2) (rw (unchanged_callee c ix h.1) refl)))
      unchanged_expr (Expr.member o p) ix h = rw (unchanged_expr o ix h) refl
      unchanged_expr (Expr.ident n) ix h = refl
      unchanged_expr (Expr.lit l) ix h = refl
      unchanged_expr (Expr.bin o l r) ix h = refl
      unchanged_expr (Expr.paren e) ix h = refl
      unchanged_expr (Expr.object p) ix h = refl
      unchanged_expr (Expr.other n) ix h = refl

      unchanged_body :
          (x : Body) (ix : List FilterProperties)
          → IsQuietBody x
          → rewrite_body f64_of symbols x ix ≡ ok (x, ix)
      unchanged_body (Body.block b) ix h = rw (unchanged_block b ix h) refl
      unchanged_body (Body.body_expr e) ix h = rw (unchanged_expr e ix h) refl

      unchanged_callee :
          (x : Callee) (ix : List FilterProperties)
          → IsQuietCallee x
          → rewrite_callee f64_of symbols x ix ≡ ok (x, ix)
      unchanged_callee Callee.super ix h = refl
      unchanged_callee Callee.import ix h = refl
      unchanged_callee (Callee.callee_expr e) ix h = rw (unchanged_expr e ix h) refl

      unchanged_args :
          (x : Args) (ix : List FilterProperties)
          → IsQuietArgs x
          → rewrite_args f64_of symbols x ix ≡ ok (x, ix)
      unchanged_args Args.no_args ix h = refl
      unchanged_args (Args.arg s e rest) ix h =
          rw (unchanged_expr e ix h.0) (rw (unchanged_args rest ix h.1) refl)

      unchanged_stmt :
          (x : Stmt) (ix : List FilterProperties)
          → IsQuietStmt x
          → rewrite_stmt f64_of symbols x ix ≡ ok (x, ix)
      unchanged_stmt (Stmt.declare n d) ix h = rw (unchanged_decls d ix h) refl
      unchanged_stmt (Stmt.stmt_expr e) ix h = rw (unchanged_expr e ix h) refl
      unchanged_stmt (Stmt.return_value e) ix h = refl
      unchanged_stmt Stmt.return_none ix h = refl
      unchanged_stmt (Stmt.other_stmt n) ix h = refl

      unchanged_block :
          (x : Stmts) (ix : List FilterProperties)
          → IsQuietBlock x
          → rewrite_block_stmt f64_of symbols x ix ≡ ok (x, ix)
      unchanged_block Stmts.end ix h = refl
      unchanged_block (Stmts.next s rest) ix h =
          rw (unchanged_stmt s ix h.0) (rw (unchanged_block rest ix h.1) refl)

      unchanged_decls :
          (x : Declarators) (ix : List FilterProperties)
          → IsQuietDecls x
          → rewrite_declarators f64_of symbols x ix ≡ ok (x, ix)
      unchanged_decls Declarators.no_more ix h = refl
      unchanged_decls (Declarators.init p e rest) ix h =
          rw (unchanged_expr e ix h.0) (rw (unchanged_decls rest ix h.1) refl)
      unchanged_decls (Declarators.no_init p rest) ix h = rw (unchanged_decls rest ix h) refl

    unchanged_item :
        (item : ModuleItem) (ix : List FilterProperties)
        → IsQuietItem item
        → rewrite_item f64_of symbols item ix ≡ ok (item, ix)
    unfolding rewrite_item
    unchanged_item (ModuleItem.export_fn n body) ix h = rw (unchanged_block body ix h) refl
    unchanged_item (ModuleItem.stmt s) ix h = rw (unchanged_stmt s ix h) refl
    unchanged_item (ModuleItem.export_fn_no_body n) ix h = refl
    unchanged_item (ModuleItem.other_decl n) ix h = refl

    -- When no call that the rewriter comes to is a query, which means that its method is not `filter`,
    -- `findMany` or `findOne`, or is called on a name that no entity has (`filter`: on the result of a
    -- method of such a name), the module comes out as it went in and no index is recorded.
    pub rewrite-IsQuietModule :
        (m : List ModuleItem) (ix : List FilterProperties)
        → IsQuietModule m
        → rewrite f64_of symbols m ix ≡ ok (m, ix)
    unfolding rewrite
    rewrite-IsQuietModule [] ix h = refl
    rewrite-IsQuietModule (item ∷ rest) ix h =
        rw (unchanged_item item ix h.0) (rw (rewrite-IsQuietModule rest ix h.1) refl)
