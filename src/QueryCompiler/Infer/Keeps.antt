-- ===== src/QueryCompiler/Infer/Keeps.antt =====
-- The filter that is inferred from a call keeps the rows that the call's own predicate keeps.
use chiselstrike.Prelude.{
  ℕ, ◌≡◌, refl, ap, subst, Str, Option, none, some, List, [], ◌∷◌, ok, ok_or, >>=-eq-ok, arith,
}
use chiselstrike.QueryCompiler.{
  Expr, Callee, Args, Body, Pat, Stmts, Stmt, QExpr, Filter, FilterProperties,
  destructured_parameter,
}
use chiselstrike.QueryCompiler.Convert.Meaning.{Engine}
use chiselstrike.QueryCompiler.Split.{Pieces, split_and_convert_expr, rewrite_filter_arrow}
use chiselstrike.QueryCompiler.Split.Keep.{
  keep, keep_query, keep_post, KeepsAll, split_and_convert_expr-KeepsAll,
}
use chiselstrike.QueryCompiler.Infer.{
  Inferred, nothing, split_body, rewrite_post, make_filter, extract_arrow, extract_arg,
  extract_filter, build_filter, pat_to_string, from_object_lit, from_filter,
}

-- The expression whose value a predicate returns.
abbrev pub returned_by : Expr → Expr
returned_by (Expr.arrow params (Body.body_expr e) copied) = e
returned_by (Expr.arrow params (Body.block (Stmts.next (Stmt.return_value e) Stmts.end)) copied) = e
returned_by e = e

abbrev pub first_arg : Args → Expr
first_arg Args.no_args = Expr.other 0
first_arg (Args.arg spread e rest) = e

abbrev pub post_of : Option Expr → Option Expr
post_of none = none
post_of (some pred) = some (returned_by pred)

module _ {R V S : Type 0} (engine : R → Engine V S) where
  -- The filter's query, and then its rest, keep what `predicate` keeps; its first argument keeps what
  -- its query keeps.
  abbrev pub Keeps : Expr → Filter → Type 0
  Keeps predicate f =
      (rows : List R) (σ : S)
      → (keep engine (returned_by predicate) rows σ
          ≡ keep_post engine (post_of f.post_expr) (keep_query engine f.predicate rows) σ)
        × (keep engine (returned_by f.query_expr) rows σ ≡ (keep_query engine f.predicate rows, σ))

  abbrev pub InferredKeeps : Expr → Inferred → Type 0
  InferredKeeps predicate (none, properties) = Unit
  InferredKeeps predicate (some f, properties) = Keeps predicate f

  nothing-Keeps :
      (e : Expr) (found : Inferred) → ◌≡◌ {A = Inferred} nothing found → InferredKeeps e found
  nothing-Keeps e found h = subst (InferredKeeps e) h tt

  -- The pieces of a body keep what its returned expression keeps.
  abbrev pub BodyKeeps : List Pat → Body → ℕ → Option Pieces → Type 0
  BodyKeeps params body copied none = Unit
  BodyKeeps params body copied (some pieces) =
      KeepsAll engine (returned_by (Expr.arrow params body copied)) pieces

  no_pieces :
      (params : List Pat) (body : Body) (copied : ℕ) (pieces : Option Pieces)
      → ◌≡◌ {A = Option Pieces} none pieces
      → BodyKeeps params body copied pieces
  no_pieces params body copied pieces h = subst (BodyKeeps params body copied) h tt

  split_body-BodyKeeps :
      (params : List Pat) (body : Body) (copied : ℕ) (pieces : Option Pieces)
      → split_body body ≡ ok pieces
      → BodyKeeps params body copied pieces
  split_body-BodyKeeps params (Body.body_expr e) copied pieces h =
      let (p, ep, h1) = >>=-eq-ok (split_and_convert_expr e) _ h in
      let same : some p ≡ pieces = cc h1 in
      subst (BodyKeeps params (Body.body_expr e) copied) same
        (split_and_convert_expr-KeepsAll engine e p ep)
  split_body-BodyKeeps params (Body.block (Stmts.next (Stmt.return_value e) Stmts.end)) copied
        pieces h =
      let (p, ep, h1) = >>=-eq-ok (split_and_convert_expr e) _ h in
      let same : some p ≡ pieces = cc h1 in
      subst (BodyKeeps params (Body.block (Stmts.next (Stmt.return_value e) Stmts.end)) copied) same
        (split_and_convert_expr-KeepsAll engine e p ep)
  split_body-BodyKeeps params (Body.block (Stmts.next Stmt.return_none Stmts.end)) copied pieces h =
      cc
  split_body-BodyKeeps params (Body.block Stmts.end) copied pieces h =
      no_pieces params (Body.block Stmts.end) copied pieces (cc h)
  split_body-BodyKeeps params (Body.block (Stmts.next (Stmt.return_value e) (Stmts.next s rest)))
        copied pieces h =
      no_pieces params (Body.block (Stmts.next (Stmt.return_value e) (Stmts.next s rest))) copied
        pieces (cc h)
  split_body-BodyKeeps params (Body.block (Stmts.next Stmt.return_none (Stmts.next s rest))) copied
        pieces h =
      no_pieces params (Body.block (Stmts.next Stmt.return_none (Stmts.next s rest))) copied pieces
        (cc h)
  split_body-BodyKeeps params (Body.block (Stmts.next (Stmt.declare n d) rest)) copied pieces h =
      no_pieces params (Body.block (Stmts.next (Stmt.declare n d) rest)) copied pieces (cc h)
  split_body-BodyKeeps params (Body.block (Stmts.next (Stmt.stmt_expr e) rest)) copied pieces h =
      no_pieces params (Body.block (Stmts.next (Stmt.stmt_expr e) rest)) copied pieces (cc h)
  split_body-BodyKeeps params (Body.block (Stmts.next (Stmt.other_stmt n) rest)) copied pieces h =
      no_pieces params (Body.block (Stmts.next (Stmt.other_stmt n) rest)) copied pieces (cc h)

  -- An arrow around another expression returns that expression.
  returned_by-rewrite :
      (params : List Pat) (body : Body) (copied : ℕ) (e pred : Expr)
      → rewrite_filter_arrow params body copied e ≡ ok pred
      → returned_by pred ≡ e
  unfolding rewrite_filter_arrow
  returned_by-rewrite params (Body.body_expr b) copied e pred h = ground arith
  returned_by-rewrite params (Body.block (Stmts.next (Stmt.return_value b) Stmts.end)) copied e pred
        h =
      ground arith
  returned_by-rewrite params (Body.block (Stmts.next Stmt.return_none Stmts.end)) copied e pred h =
      cc
  returned_by-rewrite params (Body.block body) copied e pred h = ground arith

  post_of-rewrite :
      (params : List Pat) (body : Body) (copied : ℕ) (post out : Option Expr)
      → rewrite_post params body copied post ≡ ok out
      → post_of out ≡ post
  post_of-rewrite params body copied none out h = ground arith
  post_of-rewrite params body copied (some e) out h =
      let (pred, ea, h1) = >>=-eq-ok (rewrite_filter_arrow params body copied e) _ h in
      let same : some pred ≡ out = cc h1 in
      subst (λ o. post_of o ≡ some e) same
        (ap some (returned_by-rewrite params body copied e pred ea))

  -- The same at the parts of the filter, which are variables here.
  kept_filter :
      (params : List Pat) (body : Body) (copied : ℕ) (e : Expr) (q : QExpr) (post : Option Expr)
      (query : Expr) (out : Option Expr) (found : Inferred) (f : Filter)
      → f.query_expr ≡ query
      → f.post_expr ≡ out
      → f.predicate ≡ q
      → returned_by query ≡ e
      → post_of out ≡ post
      → KeepsAll engine (returned_by (Expr.arrow params body copied)) (some (e, q), post)
      → (properties : Option FilterProperties) → ◌≡◌ {A = Inferred} (some f, properties) found
      → InferredKeeps (Expr.arrow params body copied) found
  kept_filter params body copied e q post query out found f e1 e2 e3 e4 e5 k properties h =
      subst (InferredKeeps (Expr.arrow params body copied)) h
        (λ rows σ. rw e1 (rw e2 (rw e3 (rw e4 (rw e5 (k rows σ))))))

  make_filter-InferredKeeps :
      (pieces : Option Pieces) (callee : Callee) (args : Args) (params : List Pat) (body : Body)
      (copied : ℕ) (param entity_type function : Str) (found : Inferred)
      → BodyKeeps params body copied pieces
      → make_filter pieces callee args params body copied param entity_type function ≡ ok found
      → InferredKeeps (Expr.arrow params body copied) found
  make_filter-InferredKeeps none callee args params body copied param entity_type function found k
        h =
      nothing-Keeps (Expr.arrow params body copied) found (cc h)
  make_filter-InferredKeeps (some (none, post)) callee args params body copied param entity_type
        function found k h =
      nothing-Keeps (Expr.arrow params body copied) found (cc h)
  make_filter-InferredKeeps (some (some (e, q), post)) callee args params body copied param
        entity_type function found k h =
      let (query, eq, h1) = >>=-eq-ok (rewrite_filter_arrow params body copied e) _ h in
      let (out, eo, h2) = >>=-eq-ok (rewrite_post params body copied post) _ h1 in
      kept_filter params body copied e q post query out found
        (build_filter callee args param entity_type function query out q) refl refl refl
        (returned_by-rewrite params body copied e query eq)
        (post_of-rewrite params body copied post out eo) k
        (from_filter entity_type (build_filter callee args param entity_type function query out q))
        (cc h2)

  -- The case of an arrow.
  extract_arrow-InferredKeeps :
      (callee : Callee) (args : Args) (params : List Pat) (body : Body) (copied : ℕ)
      (entity_type function : Str) (found : Inferred)
      → extract_arrow callee args params body copied entity_type function ≡ ok found
      → InferredKeeps (Expr.arrow params body copied) found
  extract_arrow-InferredKeeps callee args [] body copied entity_type function found h =
      nothing-Keeps (Expr.arrow [] body copied) found (cc h)
  extract_arrow-InferredKeeps callee args (p ∷ p2 ∷ ps) body copied entity_type function found h =
      nothing-Keeps (Expr.arrow (p ∷ p2 ∷ ps) body copied) found (cc h)
  extract_arrow-InferredKeeps callee args (p ∷ []) body copied entity_type function found h =
      let (param, ep, h1) = >>=-eq-ok (ok_or (pat_to_string p) destructured_parameter) _ h in
      let (pieces, es, h2) = >>=-eq-ok (split_body body) _ h1 in
      make_filter-InferredKeeps pieces callee args (p ∷ []) body copied param entity_type function
        found (split_body-BodyKeeps (p ∷ []) body copied pieces es) h2

  extract_arg-InferredKeeps :
      (callee : Callee) (args : Args) (e : Expr) (entity_type function : Str) (found : Inferred)
      → extract_arg callee args e entity_type function ≡ ok found
      → InferredKeeps e found
  extract_arg-InferredKeeps callee args (Expr.arrow params body copied) entity_type function found
        h =
      extract_arrow-InferredKeeps callee args params body copied entity_type function found h
  extract_arg-InferredKeeps callee args (Expr.object props) entity_type function found h =
      let (properties, ep, h1) = >>=-eq-ok (from_object_lit entity_type props) _ h in
      let same : ◌≡◌ {A = Inferred} (none, properties) found = cc h1 in
      subst (InferredKeeps (Expr.object props)) same tt
  extract_arg-InferredKeeps callee args (Expr.await e) entity_type function found h =
      nothing-Keeps (Expr.await e) found (cc h)
  extract_arg-InferredKeeps callee args (Expr.call c a t) entity_type function found h =
      nothing-Keeps (Expr.call c a t) found (cc h)
  extract_arg-InferredKeeps callee args (Expr.member o p) entity_type function found h =
      nothing-Keeps (Expr.member o p) found (cc h)
  extract_arg-InferredKeeps callee args (Expr.ident n) entity_type function found h =
      nothing-Keeps (Expr.ident n) found (cc h)
  extract_arg-InferredKeeps callee args (Expr.lit l) entity_type function found h =
      nothing-Keeps (Expr.lit l) found (cc h)
  extract_arg-InferredKeeps callee args (Expr.bin o l r) entity_type function found h =
      nothing-Keeps (Expr.bin o l r) found (cc h)
  extract_arg-InferredKeeps callee args (Expr.paren e) entity_type function found h =
      nothing-Keeps (Expr.paren e) found (cc h)
  extract_arg-InferredKeeps callee args (Expr.other n) entity_type function found h =
      nothing-Keeps (Expr.other n) found (cc h)

  extract_filter-InferredKeeps :
      (callee : Callee) (args : Args) (entity_type function : Str) (found : Inferred)
      → extract_filter callee args entity_type function ≡ ok found
      → InferredKeeps (first_arg args) found
  unfolding extract_filter
  extract_filter-InferredKeeps callee Args.no_args entity_type function found h =
      nothing-Keeps (Expr.other 0) found (cc h)
  extract_filter-InferredKeeps callee (Args.arg spread e (Args.arg s2 e2 rest)) entity_type function
        found h =
      nothing-Keeps e found (cc h)
  extract_filter-InferredKeeps callee (Args.arg spread e Args.no_args) entity_type function found
        h =
      extract_arg-InferredKeeps callee (Args.arg spread e Args.no_args) e entity_type function found
        h

  -- When a call yields a filter, then on all rows and from every state the predicate of the call keeps
  -- the same rows and leaves the same state as the query of the filter followed by the rest of the
  -- predicate on the rows that the query returns; and the predicate that accompanies the query keeps
  -- the query's rows and changes no state.
  pub keep-extract_filter :
      (callee : Callee) (args : Args) (entity_type function : Str) (f : Filter)
      (properties : Option FilterProperties)
      → extract_filter callee args entity_type function ≡ ok (some f, properties)
      → (rows : List R) (σ : S)
      → (keep engine (returned_by (first_arg args)) rows σ
          ≡ keep_post engine (post_of f.post_expr) (keep_query engine f.predicate rows) σ)
        × (keep engine (returned_by f.query_expr) rows σ ≡ (keep_query engine f.predicate rows, σ))
  keep-extract_filter callee args entity_type function f properties h =
      extract_filter-InferredKeeps callee args entity_type function (some f, properties) h
