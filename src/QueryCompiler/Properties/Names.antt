-- ===== src/QueryCompiler/Properties/Names.antt =====
-- Which names the properties of a filter are.
use chiselstrike.Prelude.{
  ◌≡◌, refl, Str, str_eq, str_eq_iff, Bool, Bool-cases, true, false, ◌||◌, inl, inr, List, [], ◌∷◌,
  ◌++◌, any, arith,
}
use chiselstrike.QueryCompiler.{QExpr, Filter}
use chiselstrike.QueryCompiler.Properties.{insert_name, expr_to_props, properties}

-- Whether a name is the last one of a chain of properties in the expression.
unfoldable pub reads : Str → QExpr → Bool
reads name (QExpr.binary l op r) = reads name l || reads name r
reads name (QExpr.property o n) = str_eq name n
reads name (QExpr.identifier s) = false
reads name (QExpr.value v) = false

abbrev pub has : Str → List Str → Bool
has name names = any (str_eq name) names

abbrev pub IsDistinct : List Str → Type 0
IsDistinct [] = Unit
IsDistinct (n ∷ ns) = (has n ns ≡ false) × IsDistinct ns

any-append-one :
    (name n : Str) (names : List Str)
    → any (str_eq name) (names ++ n ∷ []) ≡ (any (str_eq name) names || str_eq name n)
any-append-one name n [] = ground arith
any-append-one name n (x ∷ xs) = ground (arith, any-append-one name n xs)

has-insert_name :
    (name n : Str) (names : List Str)
    → any (str_eq name) (insert_name n names) ≡ (any (str_eq name) names || str_eq name n)
unfolding insert_name
has-insert_name name n names = elim (Bool-cases (any (str_eq n) names)) [
  | inl old ↦ rw old (ground (arith, str_eq_iff name n, same_name name n names old))
  | inr new ↦ rw new (any-append-one name n names)
]
  where
    same_name :
        (name n : Str) (names : List Str)
        → any (str_eq n) names ≡ true
        → str_eq name n ≡ true
        → any (str_eq name) names ≡ true
    same_name name n names old same = rw ((str_eq_iff name n).0 same) old

append_one-IsDistinct :
    (n : Str) (names : List Str)
    → any (str_eq n) names ≡ false
    → IsDistinct names
    → IsDistinct (names ++ n ∷ [])
append_one-IsDistinct n [] h d = (refl, tt)
append_one-IsDistinct n (x ∷ xs) h d = (
  ground (arith, any-append-one x n xs, d.0, str_eq_iff n x, str_eq_iff x n, h),
  append_one-IsDistinct n xs (ground (arith, h)) d.1,
)

insert_name-IsDistinct :
    (n : Str) (names : List Str) → IsDistinct names → IsDistinct (insert_name n names)
unfolding insert_name
insert_name-IsDistinct n names d = elim (Bool-cases (any (str_eq n) names)) [
  | inl old ↦ rw old d
  | inr new ↦ rw new (append_one-IsDistinct n names new d)
]

expr_to_props-IsDistinct :
    (q : QExpr) (names : List Str) → IsDistinct names → IsDistinct (expr_to_props q names)
unfolding expr_to_props
expr_to_props-IsDistinct (QExpr.binary l op r) names d =
    expr_to_props-IsDistinct r (expr_to_props l names) (expr_to_props-IsDistinct l names d)
expr_to_props-IsDistinct (QExpr.property o n) names d = insert_name-IsDistinct n names d
expr_to_props-IsDistinct (QExpr.identifier s) names d = d
expr_to_props-IsDistinct (QExpr.value v) names d = d

has-expr_to_props :
    (name : Str) (q : QExpr) (names : List Str)
    → any (str_eq name) (expr_to_props q names) ≡ (any (str_eq name) names || reads name q)
unfolding expr_to_props reads
has-expr_to_props name (QExpr.binary l op r) names =
    ground (arith, has-expr_to_props name r (expr_to_props l names), has-expr_to_props name l names)
has-expr_to_props name (QExpr.property o n) names = has-insert_name name n names
has-expr_to_props name (QExpr.identifier s) names = ground arith
has-expr_to_props name (QExpr.value v) names = ground arith

-- The properties of a filter hold no name twice, and hold exactly the names that are the last one of
-- a chain of properties in its predicate.
pub properties-reads :
    (f : Filter) (name : Str)
    → IsDistinct (properties f) × (any (str_eq name) (properties f) ≡ reads name f.predicate)
unfolding properties
properties-reads f name =
    (expr_to_props-IsDistinct f.predicate [] tt, has-expr_to_props name f.predicate [])
