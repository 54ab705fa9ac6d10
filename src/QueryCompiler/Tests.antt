-- ===== src/QueryCompiler/Tests.antt =====
-- The rewriting of queries on concrete modules.
use chiselstrike.Prelude.{
  ◌≡◌, refl, Str, str_eq, text, false, none, some, inl, inr, List, [], ◌∷◌, ok, err, any,
}
use chiselstrike.QueryCompiler.{
  BinaryOp, Lit, Expr, Callee, Args, MemberProp, Body, Pat, Stmt, Declarators, ModuleItem,
  computed_property, QBinaryOp, QValue, QExpr, Filter, FilterProperties,
}
use chiselstrike.QueryCompiler.Convert.{convert_binary_op, convert_expr, convert_filter_expr}
use chiselstrike.QueryCompiler.Convert.Meaning.{value_of, convert_filter_expr-run}
use chiselstrike.QueryCompiler.Split.{split_and_convert_expr, rewrite_filter_arrow}
use chiselstrike.QueryCompiler.Split.Keep.{keep, keep_query, keep_post}
use chiselstrike.QueryCompiler.Properties.{insert_name, expr_to_props, properties, from_filter}
use chiselstrike.QueryCompiler.Properties.Names.{IsDistinct, reads, properties-reads}
use chiselstrike.QueryCompiler.Infer.{build_filter, extract_filter, infer_filter, infer_find}
use chiselstrike.QueryCompiler.Infer.Keeps.{returned_by, first_arg, post_of, keep-extract_filter}
use chiselstrike.QueryCompiler.Infer.Plain.{Succeeds, IsPlain, IsRooted}
use chiselstrike.QueryCompiler.Emit.{expr_to_ts, to_ts_expr}
use chiselstrike.QueryCompiler.Rewrite.{rewrite_expr, rewrite}
use chiselstrike.QueryCompiler.Rewrite.Unchanged.{IsQuiet, rewrite-IsQuietModule}
use chiselstrike.QueryCompiler.Rewrite.Progress.{AllFine, rewrite-Succeeds}
use chiselstrike.QueryCompiler.ToyEngine.{toy, toy_run}

abbrev age : Expr
age = Expr.member (Expr.ident (text "p")) (MemberProp.prop_ident (text "age"))

-- p.age > 40
abbrev is_old : Expr
is_old = Expr.bin BinaryOp.gt age (Expr.lit (Lit.num 40))

abbrev is_old_query : QExpr
is_old_query =
    QExpr.binary (QExpr.property (QExpr.identifier (text "p")) (text "age")) QBinaryOp.gt
      (QExpr.value (QValue.num 40))

abbrev fetch_call : Expr
fetch_call = Expr.call (Callee.callee_expr (Expr.ident (text "fetch"))) Args.no_args none

-- p => p.age > 40 && fetch()
abbrev predicate : Expr
predicate =
    Expr.arrow (Pat.ident (text "p") ∷ [])
      (Body.body_expr (Expr.bin BinaryOp.logical_and is_old fetch_call)) 0

abbrev method : Expr → Str → Callee
method o name = Callee.callee_expr (Expr.member o (MemberProp.prop_ident name))

abbrev cursor : Expr
cursor = Expr.call (method (Expr.ident (text "Person")) (text "cursor")) Args.no_args none

abbrev filter_callee : Callee
filter_callee = method cursor (text "filter")

abbrev filter_args : Args
filter_args = Args.arg false predicate Args.no_args

abbrev arrow_of : Expr → Expr
arrow_of e = Expr.arrow (Pat.ident (text "p") ∷ []) (Body.body_expr e) 0

abbrev person_filter : Filter
person_filter =
    build_filter filter_callee filter_args (text "p") (text "Person") (text "__filter")
      (arrow_of is_old) (some (arrow_of fetch_call)) is_old_query

abbrev person_age : FilterProperties
person_age = record { entity_name = text "Person"; properties = text "age" ∷ [] }

extract_filter_run :
    extract_filter filter_callee filter_args (text "Person") (text "__filter")
    ≡ ok (some person_filter, some person_age)
unfolding extract_filter split_and_convert_expr rewrite_filter_arrow from_filter convert_filter_expr
    convert_expr convert_binary_op properties expr_to_props insert_name str_eq
extract_filter_run = refl

convert_filter_expr-run_example : toy_run 50 is_old 7 ≡ (value_of (toy 50) is_old_query, 7)
unfolding convert_filter_expr convert_expr convert_binary_op
convert_filter_expr-run_example = convert_filter_expr-run (toy 50) is_old is_old_query refl 7

keep-extract_filter_example :
    (keep toy (returned_by (first_arg filter_args)) (50 ∷ 3 ∷ 60 ∷ []) 0
      ≡ keep_post toy
          (post_of person_filter.post_expr)
          (keep_query toy person_filter.predicate (50 ∷ 3 ∷ 60 ∷ []))
          0)
    × (keep toy (returned_by person_filter.query_expr) (50 ∷ 3 ∷ 60 ∷ []) 0
        ≡ (keep_query toy person_filter.predicate (50 ∷ 3 ∷ 60 ∷ []), 0))
keep-extract_filter_example =
    keep-extract_filter toy filter_callee filter_args (text "Person") (text "__filter")
      person_filter (some person_age) extract_filter_run (50 ∷ 3 ∷ 60 ∷ []) 0

-- The first call of `fetch` gives 0, so the first row falls out; the row 3 calls nothing.
keep_run : keep toy (returned_by predicate) (50 ∷ 3 ∷ 60 ∷ []) 0 ≡ (60 ∷ [], 2)
unfolding keep toy_run
keep_run = refl

properties-reads_example :
    IsDistinct (properties person_filter)
    × (any (str_eq (text "age")) (properties person_filter)
        ≡ reads (text "age") person_filter.predicate)
properties-reads_example = properties-reads person_filter (text "age")

-- const found = Person.cursor().filter(p => p.age > 40 && fetch());
abbrev module_with : Expr → List ModuleItem
module_with e =
    ModuleItem.stmt
      (Stmt.declare 0 (Declarators.init (Pat.ident (text "found")) e Declarators.no_more))
    ∷ []

abbrev query_module : List ModuleItem
query_module = module_with (Expr.call filter_callee filter_args none)

abbrev rewritten_call : Expr
rewritten_call =
    Expr.call (method cursor (text "__filter"))
      (Args.arg false (arrow_of is_old) (
        Args.arg false (expr_to_ts (λ n. n) is_old_query (text "p" ∷ []))
          (Args.arg false (arrow_of fetch_call) Args.no_args)))
      none

rewrite_run :
    rewrite (λ n. n) (text "Person" ∷ []) query_module []
    ≡ ok (module_with rewritten_call, person_age ∷ [])
unfolding rewrite rewrite_expr infer_filter extract_filter split_and_convert_expr
    rewrite_filter_arrow from_filter convert_filter_expr convert_expr convert_binary_op properties
    expr_to_props insert_name str_eq to_ts_expr
rewrite_run = refl

rewrite-Succeeds_example : Succeeds (rewrite (λ n. n) (text "Person" ∷ []) query_module [])
unfolding AllFine IsRooted IsPlain str_eq
rewrite-Succeeds_example =
    rewrite-Succeeds (λ n. n) (text "Person" ∷ []) query_module []
      (
        (
          (inr (tt, (tt, ((tt, tt), tt))), (inl (inl refl, inl (refl, refl)), tt, tt), (tt, tt)),
          tt,
        ),
        tt,
      )

-- Without the entity the same module stays as it is.
rewrite-IsQuietModule_example : rewrite (λ n. n) [] query_module [] ≡ ok (query_module, [])
unfolding IsQuiet str_eq
rewrite-IsQuietModule_example =
    rewrite-IsQuietModule [] (λ n. n) query_module []
      ((((inr refl, inl (refl, refl)), ((inl refl, inl (refl, refl)), tt, tt), (tt, tt)), tt), tt)

-- p.address.city == "Oslo": only `city` is recorded, as a property of the filtered entity.
abbrev in_oslo : QExpr
in_oslo =
    QExpr.binary
      (QExpr.property (QExpr.property (QExpr.identifier (text "p")) (text "address")) (text "city"))
      QBinaryOp.eq (QExpr.value (QValue.str (text "Oslo")))

nested_property_run : expr_to_props in_oslo [] ≡ text "city" ∷ []
unfolding expr_to_props insert_name
nested_property_run = refl

-- p => p["age"] > 40
computed_property_run :
    convert_filter_expr (
      Expr.bin BinaryOp.gt
        (Expr.member
          (Expr.ident (text "p"))
          (MemberProp.computed (Expr.lit (Lit.str (text "age")))))
        (Expr.lit (Lit.num 40)))
    ≡ err computed_property
unfolding convert_filter_expr convert_expr
computed_property_run = refl

-- db.users.findMany(p => p.age > 40), with no entity at all: the object of the method is no name.
abbrev users : Expr
users = Expr.member (Expr.ident (text "db")) (MemberProp.prop_ident (text "users"))

foreign_find_run :
    rewrite
      (λ n. n)
      []
      (module_with (
        Expr.call
          (method users (text "findMany"))
          (Args.arg false (arrow_of is_old) Args.no_args)
          none))
      []
    ≡ ok (
      module_with (
          Expr.call
            (method users (text "__findMany"))
            (Args.arg false
              (arrow_of is_old)
              (Args.arg false (expr_to_ts (λ n. n) is_old_query (text "p" ∷ [])) Args.no_args))
            none),
      record { entity_name = text "db"; properties = text "age" ∷ [] } ∷ [],
    )
unfolding rewrite rewrite_expr infer_filter infer_find extract_filter split_and_convert_expr
    rewrite_filter_arrow from_filter convert_filter_expr convert_expr convert_binary_op properties
    expr_to_props insert_name str_eq to_ts_expr
foreign_find_run = refl
