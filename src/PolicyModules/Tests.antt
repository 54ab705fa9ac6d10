-- ===== src/PolicyModules/Tests.antt =====
-- Runs of chiselc/src/policies.rs on a module with a transform and an unknown property.
use chiselstrike.Prelude.{text, str_eq, none, some, List, [], ◌∷◌, ok, ◌≡◌, refl}
use chiselstrike.PolicyCompiler.{Simplifier}
use chiselstrike.PolicyModules.{
  PolicyName, Policy, Value, Key, Property, ModuleItem, Policies, parse,
}
use chiselstrike.PolicyModules.Kinds.{AllKinds, parse-AllKinds}

abbrev unchanged : Simplifier
unchanged = record { simplify = λ b. b ∷ []; max_terms = 32 }

abbrev items : List ModuleItem
items =
    ModuleItem.stmt
    ∷ ModuleItem.default_object (
        Property.key_value (Key.ident (text "onRead")) (Value.arrow none (some (text "code")))
        ∷ Property.key_value (Key.ident (text "other")) Value.other
        ∷ [])
    ∷ []

abbrev policies : Policies
policies = (PolicyName.on_read, Policy.transform (text "code")) ∷ []

items_run : parse unchanged items ≡ ok policies
unfolding parse str_eq
items_run = refl

parse-AllKinds_example : AllKinds policies
parse-AllKinds_example = parse-AllKinds unchanged items items_run
