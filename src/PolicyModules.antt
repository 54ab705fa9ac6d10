-- ===== src/PolicyModules.antt =====
-- chiselc/src/policies.rs: `Policies::parse`, on the module that swc_ecmascript parsed; and
-- `register_policy_from_code` of server/src/policy/engine.rs. Of the syntax tree the model has what the
-- parser tells apart.
pub mod Kinds
mod Tests
use chiselstrike.Prelude.{
  ◌>>◌, ℕ, ◌==◌, Str, text, str_eq, Bool, true, false, Option, none, some, List, [], ◌∷◌,
  if◌then◌else◌, Result, ok, err, ok_or, ◌>>=◌, ensure,
}
use chiselstrike.PolicyCompiler.{Failure, Simplifier}
use chiselstrike.PolicyCompiler.Rules.{ArrowFunction, FilterPolicy, from_arrow}
use chiselstrike.PolicyEngine.{EngineError, read_policy_new}
use chiselstrike.PolicyInstances.{TypePolicy, no_type_policy}

pub data PolicyName : Type 0 where
  read create update on_read on_create on_update geo_loc : PolicyName

abbrev pub discriminant : PolicyName → ℕ
discriminant read = 0
discriminant create = 1
discriminant update = 2
discriminant on_read = 3
discriminant on_create = 4
discriminant on_update = 5
discriminant geo_loc = 6

-- `PolicyName::from_str`
abbrev pub name_from_str : Str → Option PolicyName
name_from_str s =
    if str_eq s (text "read")
    then some read
    else if str_eq s (text "create")
    then some create
    else if str_eq s (text "update")
    then some update
    else if str_eq s (text "onRead")
    then some on_read
    else if str_eq s (text "onCreate")
    then some on_create
    else if str_eq s (text "onUpdate")
    then some on_update
    else if str_eq s (text "geoLoc")
    then some geo_loc
    else none

-- `Policy`; a transform policy is its code.
pub data Policy : Type 0 where
  filter : FilterPolicy → Policy
  transform : Str → Policy

-- `Policy::as_filter` and `Policy::code`
abbrev pub as_filter : Policy → Option FilterPolicy
as_filter (filter f) = some f
as_filter (transform code) = none

abbrev pub policy_code : Policy → Str
policy_code (filter f) = f.js_code
policy_code (transform code) = code

-- An arrow function: what `ArrowFunction::parse` makes of it, and the code that is emitted for it.
pub data Value : Type 0 where
  arrow : Option ArrowFunction → Option Str → Value
  other : Value

pub data Key : Type 0 where
  ident : Str → Key
  other : Key

pub data Property : Type 0 where
  key_value : Key → Value → Property
  other_prop : Property
  spread : Property

pub data ModuleItem : Type 0 where
  default_object : List Property → ModuleItem
  default_other : ModuleItem
  other_decl : ModuleItem
  stmt : ModuleItem

pub data ModuleError : Type 0 where
  compiler : Failure → ModuleError
  expected_property : ModuleError
  only_arrow_functions : ModuleError
  arrow_failed : ModuleError
  not_an_object : ModuleError
  compile_failed : ModuleError
  not_a_filter : ModuleError
  engine : EngineError → ModuleError

abbrev pub lift : {A : Type 0} → Result Failure A → Result ModuleError A
lift (ok a) = ok a
lift (err e) = err (compiler e)

abbrev pub lift_engine : {A : Type 0} → Result EngineError A → Result ModuleError A
lift_engine (ok a) = ok a
lift_engine (err e) = err (engine e)

-- `Policies`, a map.
abbrev pub Policies : Type 0
Policies = List (PolicyName × Policy)

insert_policy : PolicyName → Policy → Policies → Policies
insert_policy n p [] = (n, p) ∷ []
insert_policy n p ((m, q) ∷ ps) =
    if discriminant m == discriminant n then (n, p) ∷ ps else (m, q) ∷ insert_policy n p ps

filter_body : Simplifier → Value → Result ModuleError Policy
filter_body s (arrow func code) = do
  f ← ok_or func arrow_failed
  p ← lift (from_arrow s f)
  ok (filter p)
filter_body s Value.other = err only_arrow_functions

transform_body : Value → Result ModuleError Policy
transform_body (arrow func code) = do c ← ok_or code arrow_failed; ok (transform c)
transform_body Value.other = err only_arrow_functions

abbrev pub is_filter_name : PolicyName → Bool
is_filter_name read = true
is_filter_name create = true
is_filter_name update = true
is_filter_name _ = false

-- The match on the name of the policy.
body_of : Simplifier → PolicyName → Value → Result ModuleError Policy
unfolding filter_body transform_body
body_of s n value = if is_filter_name n then filter_body s value else transform_body value

-- A property of the object; an unknown name is ignored.
add_named : Simplifier → Option PolicyName → Value → Policies → Result ModuleError Policies
unfolding body_of insert_policy
add_named s none value ps = ok ps
add_named s (some n) value ps = do p ← body_of s n value; ok (insert_policy n p ps)

add_property : Simplifier → Property → Policies → Result ModuleError Policies
unfolding add_named
add_property s (key_value (ident name) value) ps = add_named s (name_from_str name) value ps
add_property s (key_value Key.other value) ps = err expected_property
add_property s other_prop ps = err expected_property
add_property s spread ps = err expected_property

add_properties : Simplifier → List Property → Policies → Result ModuleError Policies
unfolding add_property
add_properties s [] ps = ok ps
add_properties s (p ∷ props) ps = add_property s p ps >>= λ qs. add_properties s props qs

-- `Policies::parse`
parse_items : Simplifier → List ModuleItem → Policies → Result ModuleError Policies
unfolding add_properties
parse_items s [] ps = ok ps
parse_items s (default_object props ∷ items) ps =
    add_properties s props ps >>= λ qs. parse_items s items qs
parse_items s (default_other ∷ items) ps = err not_an_object
parse_items s (other_decl ∷ items) ps = parse_items s items ps
parse_items s (stmt ∷ items) ps = parse_items s items ps

unfoldable pub parse : Simplifier → List ModuleItem → Result ModuleError Policies
unfolding parse_items
parse s items = parse_items s items []

-- The match of `register_policy_from_code`, on the code of the compiled function.
set_policy : PolicyName → Policy → TypePolicy → Result ModuleError TypePolicy
set_policy read p t = do
  f ← ok_or (as_filter p) not_a_filter
  r ← lift_engine (read_policy_new (policy_code p) f)
  ok (record t { read = some r })
set_policy create p t = ok (record t { create = some (policy_code p) })
set_policy update p t = ok (record t { update = some (policy_code p) })
set_policy on_read p t = ok (record t { on_read = some (policy_code p) })
set_policy on_create p t = ok (record t { on_create = some (policy_code p) })
set_policy on_update p t = ok (record t { on_update = some (policy_code p) })
set_policy geo_loc p t = ok (record t { geoloc = some (policy_code p) })

-- Its loop; `compiles` tells whether the engine compiles the code to a function.
set_policies : (Str → Bool) → Policies → TypePolicy → Result ModuleError TypePolicy
unfolding set_policy
set_policies compiles [] t = ok t
set_policies compiles ((n, p) ∷ ps) t = do
  ensure (compiles (policy_code p)) compile_failed
  u ← set_policy n p t
  set_policies compiles ps u

-- `PolicyEngine::register_policy_from_code`, up to the store, on a parsed module.
pub register_policy : (Str → Bool) → Simplifier → List ModuleItem → Result ModuleError TypePolicy
unfolding parse set_policies
register_policy compiles s items = do
  policies ← parse s items
  set_policies compiles policies no_type_policy
