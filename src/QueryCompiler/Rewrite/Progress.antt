-- ===== src/QueryCompiler/Rewrite/Progress.antt =====
-- The rewriter does not panic on a module whose queries are plain.
use chiselstrike.Prelude.{ℕ, refl, ◌⊎◌, inl, inr, none, some, List, [], ◌∷◌, Result, ◌>>=◌}
use chiselstrike.QueryCompiler.{
  Expr, Callee, Args, Body, Stmts, Stmt, Declarators, ModuleItem, Failure, FilterProperties,
  Symbols,
}
use chiselstrike.QueryCompiler.Infer.{Inferred, nothing, infer_filter, infer_find}
use chiselstrike.QueryCompiler.Infer.Plain.{Succeeds, IsPlainArgs, IsRootedCallee}
use chiselstrike.QueryCompiler.Infer.Emits.{
  CanEmit, InfersPlainly, infer_filter-InfersPlainly, infer_find-InfersPlainly,
}
use chiselstrike.QueryCompiler.Rewrite.{
  Rewritten, or_filter, rewrite_expr, rewrite_body, rewrite_callee, rewrite_args, rewrite_stmt,
  rewrite_block_stmt, rewrite_declarators, rewrite_item, rewrite,
}
use chiselstrike.QueryCompiler.Rewrite.NoQuery.{
  IsNoQuery, infer_filter-IsNoQuery, infer_find-IsNoQuery,
}

module _ (f64_of : ℕ → ℕ) (symbols : Symbols) where
  -- A call is no query, or one that the inference takes apart without a panic.
  abbrev pub IsFine : Callee → Args → Type 0
  IsFine callee args = IsNoQuery symbols callee ⊎ (IsRootedCallee callee × IsPlainArgs args)

  -- Every call that the rewriter comes to is fine.
  unfoldable mutual
    pub AllFine : Expr → Type 0
    AllFine (Expr.arrow params body copied) = AllFineBody body
    AllFine (Expr.await e) = AllFine e
    AllFine (Expr.call callee args t) = IsFine callee args × AllFineCallee callee × AllFineArgs args
    AllFine (Expr.member o prop) = AllFine o
    AllFine _ = Unit

    pub AllFineBody : Body → Type 0
    AllFineBody (Body.block stmts) = AllFineBlock stmts
    AllFineBody (Body.body_expr e) = AllFine e

    pub AllFineCallee : Callee → Type 0
    AllFineCallee (Callee.callee_expr e) = AllFine e
    AllFineCallee _ = Unit

    pub AllFineArgs : Args → Type 0
    AllFineArgs Args.no_args = Unit
    AllFineArgs (Args.arg spread e rest) = AllFine e × AllFineArgs rest

    pub AllFineStmt : Stmt → Type 0
    AllFineStmt (Stmt.declare copied decls) = AllFineDecls decls
    AllFineStmt (Stmt.stmt_expr e) = AllFine e
    AllFineStmt _ = Unit

    pub AllFineBlock : Stmts → Type 0
    AllFineBlock Stmts.end = Unit
    AllFineBlock (Stmts.next s rest) = AllFineStmt s × AllFineBlock rest

    pub AllFineDecls : Declarators → Type 0
    AllFineDecls Declarators.no_more = Unit
    AllFineDecls (Declarators.init name e rest) = AllFine e × AllFineDecls rest
    AllFineDecls (Declarators.no_init name rest) = AllFineDecls rest

  abbrev pub AllFineItem : ModuleItem → Type 0
  AllFineItem (ModuleItem.export_fn copied body) = AllFineBlock body
  AllFineItem (ModuleItem.stmt s) = AllFineStmt s
  AllFineItem _ = Unit

  abbrev pub AllFineModule : List ModuleItem → Type 0
  AllFineModule [] = Unit
  AllFineModule (item ∷ rest) = AllFineItem item × AllFineModule rest

  infer_filter-IsFine :
      (c : Callee) (args : Args)
      → IsFine c args
      → InfersPlainly f64_of (infer_filter c args symbols)
  infer_filter-IsFine c args (inl h) = (nothing, infer_filter-IsNoQuery symbols c args h, tt)
  infer_filter-IsFine c args (inr h) = infer_filter-InfersPlainly f64_of symbols c args h.0 h.1

  infer_find-IsFine :
      (c : Callee) (args : Args) → IsFine c args → InfersPlainly f64_of (infer_find c args symbols)
  infer_find-IsFine c args (inl h) = (nothing, infer_find-IsNoQuery symbols c args h, tt)
  infer_find-IsFine c args (inr h) = infer_find-InfersPlainly f64_of symbols c args h.0 h.1

  -- The last step of a rewriting does not fail.
  then_done :
      {A B : Type 0} (m : Rewritten A) (f : A × List FilterProperties → Rewritten B)
      → Succeeds m
      → ((a : A × List FilterProperties) → Succeeds (f a))
      → Succeeds (m >>= f)
  then_done m f h k = let (a, e) = h in let (b, eb) = k a in (b, rw e eb)

  or_filter-Succeeds :
      (found : Inferred) (ix : List FilterProperties) (rest : Rewritten Expr)
      → CanEmit f64_of found
      → Succeeds rest
      → Succeeds (or_filter f64_of symbols found.0 ix rest)
  or_filter-Succeeds (none, p) ix rest h k = k
  or_filter-Succeeds (some f, p) ix rest h k = let (e, he) = h in ((e, ix), rw he refl)

  -- A step of the inference, when what follows does not fail on what it found.
  then_infers :
      {B : Type 0} (m : Result Failure Inferred) (f : Inferred → Rewritten B)
      → InfersPlainly f64_of m
      → ((found : Inferred) → CanEmit f64_of found → Succeeds (f found))
      → Succeeds (m >>= f)
  then_infers m f h k = let (found, e, c) = h in let (b, eb) = k found c in (b, rw e eb)

  mutual
    unfolding AllFine AllFineBody AllFineCallee AllFineArgs AllFineStmt AllFineBlock AllFineDecls
        rewrite_expr rewrite_body rewrite_callee rewrite_args rewrite_stmt rewrite_block_stmt
        rewrite_declarators

    progress_expr :
        (x : Expr) (ix : List FilterProperties)
        → AllFine x
        → Succeeds (rewrite_expr f64_of symbols x ix)
    progress_expr (Expr.arrow p b c) ix h = then_done _ _ (progress_body b ix h) (λ a. (_, refl))
    progress_expr (Expr.await e) ix h = then_done _ _ (progress_expr e ix h) (λ a. (_, refl))
    progress_expr (Expr.call c a t) ix h =
        then_infers _ _ (infer_filter-IsFine c a h.0) (λ found can.
          or_filter-Succeeds found _ _ can (
            then_infers _ _ (infer_find-IsFine c a h.0) (λ find can_find.
              or_filter-Succeeds find _ _ can_find (
                then_done _ _ (progress_args a _ h.2)
                  (λ x. then_done _ _ (progress_callee c x.1 h.1) (λ y. (_, refl)))))))
    progress_expr (Expr.member o p) ix h = then_done _ _ (progress_expr o ix h) (λ a. (_, refl))
    progress_expr (Expr.ident n) ix h = (_, refl)
    progress_expr (Expr.lit l) ix h = (_, refl)
    progress_expr (Expr.bin o l r) ix h = (_, refl)
    progress_expr (Expr.paren e) ix h = (_, refl)
    progress_expr (Expr.object p) ix h = (_, refl)
    progress_expr (Expr.other n) ix h = (_, refl)

    progress_body :
        (x : Body) (ix : List FilterProperties)
        → AllFineBody x
        → Succeeds (rewrite_body f64_of symbols x ix)
    progress_body (Body.block b) ix h = then_done _ _ (progress_block b ix h) (λ a. (_, refl))
    progress_body (Body.body_expr e) ix h = then_done _ _ (progress_expr e ix h) (λ a. (_, refl))

    progress_callee :
        (x : Callee) (ix : List FilterProperties)
        → AllFineCallee x
        → Succeeds (rewrite_callee f64_of symbols x ix)
    progress_callee Callee.super ix h = (_, refl)
    progress_callee Callee.import ix h = (_, refl)
    progress_callee (Callee.callee_expr e) ix h =
        then_done _ _ (progress_expr e ix h) (λ a. (_, refl))

    progress_args :
        (x : Args) (ix : List FilterProperties)
        → AllFineArgs x
        → Succeeds (rewrite_args f64_of symbols x ix)
    progress_args Args.no_args ix h = (_, refl)
    progress_args (Args.arg s e rest) ix h =
        then_done _ _ (progress_expr e ix h.0)
          (λ a. then_done _ _ (progress_args rest a.1 h.1) (λ b. (_, refl)))

    progress_stmt :
        (x : Stmt) (ix : List FilterProperties)
        → AllFineStmt x
        → Succeeds (rewrite_stmt f64_of symbols x ix)
    progress_stmt (Stmt.declare n d) ix h = then_done _ _ (progress_decls d ix h) (λ a. (_, refl))
    progress_stmt (Stmt.stmt_expr e) ix h = then_done _ _ (progress_expr e ix h) (λ a. (_, refl))
    progress_stmt (Stmt.return_value e) ix h = (_, refl)
    progress_stmt Stmt.return_none ix h = (_, refl)
    progress_stmt (Stmt.other_stmt n) ix h = (_, refl)

    progress_block :
        (x : Stmts) (ix : List FilterProperties)
        → AllFineBlock x
        → Succeeds (rewrite_block_stmt f64_of symbols x ix)
    progress_block Stmts.end ix h = (_, refl)
    progress_block (Stmts.next s rest) ix h =
        then_done _ _ (progress_stmt s ix h.0)
          (λ a. then_done _ _ (progress_block rest a.1 h.1) (λ b. (_, refl)))

    progress_decls :
        (x : Declarators) (ix : List FilterProperties)
        → AllFineDecls x
        → Succeeds (rewrite_declarators f64_of symbols x ix)
    progress_decls Declarators.no_more ix h = (_, refl)
    progress_decls (Declarators.init p e rest) ix h =
        then_done _ _ (progress_expr e ix h.0)
          (λ a. then_done _ _ (progress_decls rest a.1 h.1) (λ b. (_, refl)))
    progress_decls (Declarators.no_init p rest) ix h =
        then_done _ _ (progress_decls rest ix h) (λ a. (_, refl))

  progress_item :
      (item : ModuleItem) (ix : List FilterProperties)
      → AllFineItem item
      → Succeeds (rewrite_item f64_of symbols item ix)
  unfolding rewrite_item
  progress_item (ModuleItem.export_fn n body) ix h =
      then_done _ _ (progress_block body ix h) (λ a. (_, refl))
  progress_item (ModuleItem.stmt s) ix h = then_done _ _ (progress_stmt s ix h) (λ a. (_, refl))
  progress_item (ModuleItem.export_fn_no_body n) ix h = (_, refl)
  progress_item (ModuleItem.other_decl n) ix h = (_, refl)

  -- Every module is rewritten, without a panic, if each call that the rewriter comes to is no query, or
  -- its chain of methods does not start at `super` or `import` and its single argument, if that is an
  -- arrow or an object, is plain: an arrow with one parameter has a name for it, a block of one return
  -- returns a value, and the expression returned has no property in brackets and no private property
  -- where the conversion looks; an object has only names with and without values.
  pub rewrite-Succeeds :
      (m : List ModuleItem) (ix : List FilterProperties)
      → AllFineModule m
      → Succeeds (rewrite f64_of symbols m ix)
  unfolding rewrite
  rewrite-Succeeds [] ix h = (_, refl)
  rewrite-Succeeds (item ∷ rest) ix h =
      then_done _ _ (progress_item item ix h.0)
        (λ a. then_done _ _ (rewrite-Succeeds rest a.1 h.1) (λ b. (_, refl)))
