-- ===== src/QueryCompiler/Infer.antt =====
-- chiselc/src/transforms/utils.rs, filter.rs and find.rs, and chiselc/src/utils.rs: which calls
-- are queries, and the filter that stands for one.
pub mod Keeps
pub mod Plain
pub mod Emits
use chiselstrike.Prelude.{
  ℕ, Str, str_eq, text, Bool, true, false, Option, none, some, List, [], ◌∷◌, Result, ok, err,
  ok_or, ◌>>=◌, if◌then◌else◌,
}
use chiselstrike.QueryCompiler.{
  Expr, Callee, Args, MemberProp, Body, Pat, Stmts, Stmt, Failure, unsupported_callee,
  destructured_parameter, empty_return, QExpr, Filter, FilterProperties, Symbols, is_entity,
}
use chiselstrike.QueryCompiler.Split.{Pieces, split_and_convert_expr, rewrite_filter_arrow}
use chiselstrike.QueryCompiler.Properties.{from_filter, from_object_lit}

abbrev pub is_ident_member_prop : MemberProp → Str → Bool
is_ident_member_prop (MemberProp.prop_ident s) value = str_eq s value
is_ident_member_prop (MemberProp.computed e) value = false
is_ident_member_prop (MemberProp.private s) value = false

abbrev pub ident_to_string : Expr → Option Str
ident_to_string (Expr.ident s) = some s
ident_to_string _ = none

-- The test on the object of a method call: a name must be that of an entity, any other expression
-- passes.
abbrev pub may_be_entity : Option Str → Symbols → Bool
may_be_entity none symbols = true
may_be_entity (some ty) symbols = is_entity symbols ty

abbrev pub is_call_to_entity_method : Expr → Str → Symbols → Bool
is_call_to_entity_method (Expr.member obj prop) method symbols =
    if may_be_entity (ident_to_string obj) symbols then is_ident_member_prop prop method else false
is_call_to_entity_method _ method symbols = false

abbrev pub pat_to_string : Pat → Option Str
pat_to_string (Pat.ident s) = some s
pat_to_string (Pat.other n) = none

-- `lookup_entity_type` and `lookup_callee_entity_type`: down the chain of calls to a name. The error
-- is none; a callee that is no expression reaches a `todo!()`.
unfoldable mutual
  pub lookup_entity_type : Expr → Result Failure (Option Str)
  lookup_entity_type (Expr.member obj prop) = lookup_entity_type obj
  lookup_entity_type (Expr.call callee args t) = lookup_callee_entity_type callee
  lookup_entity_type (Expr.ident s) = ok (some s)
  lookup_entity_type (Expr.arrow p b c) = ok none
  lookup_entity_type (Expr.await e) = ok none
  lookup_entity_type (Expr.lit l) = ok none
  lookup_entity_type (Expr.bin op l r) = ok none
  lookup_entity_type (Expr.paren e) = ok none
  lookup_entity_type (Expr.object p) = ok none
  lookup_entity_type (Expr.other n) = ok none

  pub lookup_callee_entity_type : Callee → Result Failure (Option Str)
  lookup_callee_entity_type (Callee.callee_expr e) = lookup_entity_type e
  lookup_callee_entity_type Callee.super = err unsupported_callee
  lookup_callee_entity_type Callee.import = err unsupported_callee

abbrev pub Inferred : Type 0
Inferred = Option Filter × Option FilterProperties

abbrev pub nothing : Inferred
nothing = (none, none)

-- The pieces of the body of the arrow; none where the body is not one returned expression.
abbrev pub split_body : Body → Result Failure (Option Pieces)
split_body (Body.body_expr e) = do pieces ← split_and_convert_expr e; ok (some pieces)
split_body (Body.block (Stmts.next (Stmt.return_value e) Stmts.end)) = do
  pieces ← split_and_convert_expr e
  ok (some pieces)
split_body (Body.block (Stmts.next Stmt.return_none Stmts.end)) = err empty_return
split_body (Body.block _) = ok none

-- The arrow around the part to evaluate afterwards.
abbrev pub rewrite_post : List Pat → Body → ℕ → Option Expr → Result Failure (Option Expr)
rewrite_post params body copied none = ok none
rewrite_post params body copied (some e) = do
  arrow ← rewrite_filter_arrow params body copied e
  ok (some arrow)

abbrev pub build_filter : Callee → Args → Str → Str → Str → Expr → Option Expr → QExpr → Filter
build_filter callee args param entity_type function query_expr post_expr predicate = record {
  function = function;
  callee = callee;
  args = args;
  query_expr = query_expr;
  post_expr = post_expr;
  parameters = param ∷ [];
  predicate = predicate;
  input = record { entity_type = entity_type; alias = param };
}

-- The filter, when a part of the predicate became a query.
abbrev pub make_filter :
    Option Pieces → Callee → Args → List Pat → Body → ℕ → Str → Str → Str → Result Failure Inferred
make_filter none callee args params body copied param entity_type function = ok nothing
make_filter (some (none, post)) callee args params body copied param entity_type function =
    ok nothing
make_filter (some (some (e, predicate), post)) callee args params body copied param entity_type
      function =
    do
      query_expr ← rewrite_filter_arrow params body copied e
      post_expr ← rewrite_post params body copied post
      let filter =
          build_filter callee args param entity_type function query_expr post_expr predicate
      ok (some filter, from_filter entity_type filter)

-- The case of an arrow with its parameters.
abbrev pub extract_arrow : Callee → Args → List Pat → Body → ℕ → Str → Str → Result Failure Inferred
extract_arrow callee args (p ∷ []) body copied entity_type function = do
  param ← ok_or (pat_to_string p) destructured_parameter
  pieces ← split_body body
  make_filter pieces callee args (p ∷ []) body copied param entity_type function
extract_arrow callee args _ body copied entity_type function = ok nothing

-- The match on the single argument.
abbrev pub extract_arg : Callee → Args → Expr → Str → Str → Result Failure Inferred
extract_arg callee args (Expr.arrow params body copied) entity_type function =
    extract_arrow callee args params body copied entity_type function
extract_arg callee args (Expr.object props) entity_type function = do
  properties ← from_object_lit entity_type props
  ok (none, properties)
extract_arg callee args _ entity_type function = ok nothing

unfoldable pub extract_filter : Callee → Args → Str → Str → Result Failure Inferred
unfolding split_and_convert_expr rewrite_filter_arrow from_filter from_object_lit
extract_filter callee (Args.arg spread e Args.no_args) entity_type function =
    extract_arg callee (Args.arg spread e Args.no_args) e entity_type function
extract_filter callee _ entity_type function = ok nothing

-- A call of `filter` on what is, or may be, the cursor of an entity.
abbrev pub is_cursor_call : Expr → Symbols → Bool
is_cursor_call (Expr.call (Callee.callee_expr e) args t) symbols =
    is_call_to_entity_method e (text "cursor") symbols
is_cursor_call _ symbols = false

abbrev pub is_rewritable_filter : Callee → Symbols → Bool
is_rewritable_filter (Callee.callee_expr (Expr.member obj prop)) symbols =
    if is_ident_member_prop prop (text "filter") then is_cursor_call obj symbols else false
is_rewritable_filter _ symbols = false

-- The entity of the call, and then its filter.
abbrev pub extract_at : Option Str → Callee → Args → Str → Result Failure Inferred
extract_at none callee args function = ok nothing
extract_at (some entity_type) callee args function = extract_filter callee args entity_type function

unfoldable pub infer_filter : Callee → Args → Symbols → Result Failure Inferred
unfolding lookup_callee_entity_type extract_filter str_eq
infer_filter callee args symbols =
    if is_rewritable_filter callee symbols
    then (do
      entity_type ← lookup_callee_entity_type callee
      extract_at entity_type callee args (text "__filter"))
    else ok nothing

abbrev pub is_rewritable_find : Str → Callee → Symbols → Bool
is_rewritable_find function (Callee.callee_expr e) symbols =
    is_call_to_entity_method e function symbols
is_rewritable_find function _ symbols = false

abbrev pub infer_rewritable_find : Callee → Symbols → Option Str
infer_rewritable_find callee symbols =
    if is_rewritable_find (text "findMany") callee symbols
    then some (text "__findMany")
    else if is_rewritable_find (text "findOne") callee symbols
    then some (text "__findOne")
    else none

-- The rest of `infer_find`, with the internal function to call.
abbrev pub infer_find_as : Option Str → Callee → Args → Result Failure Inferred
infer_find_as none callee args = ok nothing
infer_find_as (some function) callee args = do
  entity_type ← lookup_callee_entity_type callee
  extract_at entity_type callee args function

unfoldable pub infer_find : Callee → Args → Symbols → Result Failure Inferred
unfolding lookup_callee_entity_type extract_filter str_eq
infer_find callee args symbols = infer_find_as (infer_rewritable_find callee symbols) callee args
