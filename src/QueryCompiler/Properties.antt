-- ===== src/QueryCompiler/Properties.antt =====
-- chiselc/src/query.rs and chiselc/src/filtering.rs: the properties that a filter reads, for the
-- indexes. An `IndexSet` is the list of its elements in the order of their insertion.
pub mod Names
use chiselstrike.Prelude.{
  Str, str_eq, Option, none, some, List, [], ◌∷◌, ◌++◌, any, Result, ok, err, ◌>>=◌, if◌then◌else◌,
}
use chiselstrike.QueryCompiler.{
  Props, PropName, Failure, unsupported_property, QExpr, Filter, FilterProperties,
}

-- `IndexSet::insert`
unfoldable pub insert_name : Str → List Str → List Str
insert_name name props = if any (str_eq name) props then props else props ++ name ∷ []

-- The object of a property is not looked at.
unfoldable pub expr_to_props : QExpr → List Str → List Str
unfolding insert_name
expr_to_props (QExpr.binary l op r) props = expr_to_props r (expr_to_props l props)
expr_to_props (QExpr.property o name) props = insert_name name props
expr_to_props (QExpr.identifier s) props = props
expr_to_props (QExpr.value v) props = props

-- `Filter::properties`
unfoldable pub properties : Filter → List Str
unfolding expr_to_props
properties filter = expr_to_props filter.predicate []

-- The test that there are properties.
abbrev pub some_properties : Str → List Str → Option FilterProperties
some_properties entity_name [] = none
some_properties entity_name (p ∷ ps) =
    some (record { entity_name = entity_name; properties = p ∷ ps })

unfoldable pub from_filter : Str → Filter → Option FilterProperties
unfolding properties
from_filter entity_name filter = some_properties entity_name (properties filter)

abbrev pub prop_name_to_string : PropName → Option Str
prop_name_to_string (PropName.ident s) = some s
prop_name_to_string (PropName.str s) = some s
prop_name_to_string (PropName.other n) = none

abbrev pub insert_some : Option Str → List Str → List Str
insert_some none props = props
insert_some (some name) props = insert_name name props

-- The loop of `from_object_lit`.
unfoldable pub collect_names : Props → List Str → Result Failure (List Str)
unfolding insert_name
collect_names Props.no_props props = ok props
collect_names (Props.key_value key e rest) props =
    collect_names rest (insert_some (prop_name_to_string key) props)
collect_names (Props.shorthand name rest) props = collect_names rest (insert_name name props)
collect_names (Props.other_prop n rest) props = err unsupported_property
collect_names (Props.spread e rest) props = err unsupported_property

unfoldable pub from_object_lit : Str → Props → Result Failure (Option FilterProperties)
unfolding collect_names
from_object_lit entity_name object_lit = do
  props ← collect_names object_lit []
  ok (some_properties entity_name props)
