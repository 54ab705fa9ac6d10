-- ===== src/PolicyInstances.antt =====
-- server/src/policy/mod.rs, instances.rs: what the policies of a type decide on reads and writes. The
-- JavaScript engine boa is the record `Runtime`: a call returns its result, unless it throws, and what it
-- leaves of the entity and of the request context, which it may change; policy functions, which are named by their
-- code, share no other state. Conversions between entities and JavaScript belong to it as well.
pub mod Dirty
pub mod Refused
mod Tests
use chiselstrike.Prelude.{
  ◌==◌, Str, text, str_eq, Bool, true, false, Option, none, some, List, [], ◌∷◌, any, lookup,
  if◌then◌else◌, Result, ok, err,
}
use chiselstrike.Prelude.Int.{ℤ}
use chiselstrike.Json.{Json}
use chiselstrike.EntityValue.{EntityValue}
use chiselstrike.Expr.{Expr}
use chiselstrike.PolicyCompiler.{Simplifier}
use chiselstrike.PolicyEngine.{Boa, EngineError, ReadPolicy, eval_read_policy_expr}

abbrev pub EntityMap : Type 0
EntityMap = List (Str × EntityValue)

-- What `JsValue` is matched for.
pub data JsKind : Type 0 where
  integer : ℤ → JsKind
  undefined : JsKind
  string : Str → JsKind
  other : JsKind

pub record Runtime : Type 1 where
  pub JsValue : Type 0
  pub call : Str → JsValue → JsValue → Option JsValue × JsValue × JsValue
  pub kind : JsValue → JsKind
  pub to_js : EntityMap → JsValue
  pub from_js : JsValue → Option EntityMap
  pub maps_equal : EntityMap → EntityMap → Bool
  pub boa : Boa
  pub simplifier : Simplifier
  pub request_json : Json

pub data Action : Type 0 where
  allow deny skip log : Action

-- `Action::try_from`
abbrev pub action_try_from : ℤ → Option Action
action_try_from (ℤ.pos n) =
    if n == 0
    then some Action.allow
    else if n == 1
    then some Action.deny
    else if n == 2
    then some Action.skip
    else if n == 3
    then some Action.log
    else none
action_try_from (ℤ.negsuc n) = none

-- `Action::is_restrictive`
abbrev pub is_restrictive : Action → Bool
is_restrictive Action.deny = true
is_restrictive Action.skip = true
is_restrictive _ = false

pub data Location : Type 0 where
  us_east1 us_west london germany : Location

-- `Location::from_str`
abbrev pub location_from_str : Str → Option Location
location_from_str s =
    if str_eq s (text "us-east-1")
    then some us_east1
    else if str_eq s (text "us-west")
    then some us_west
    else if str_eq s (text "london")
    then some london
    else if str_eq s (text "germany")
    then some germany
    else none

pub data WriteAction : Type 0 where
  create update : WriteAction

pub data InstanceError : Type 0 where
  write_permission_denied : InstanceError
  read_permission_denied : InstanceError
  dirty_entity : InstanceError
  exception : InstanceError
  invalid_action : InstanceError
  invalid_location : InstanceError
  not_a_map : InstanceError
  no_text_id : InstanceError
  engine : EngineError → InstanceError

pub record TypePolicy : Type 0 where
  pub read : Option ReadPolicy
  pub create : Option Str
  pub update : Option Str
  pub geoloc : Option Str
  pub on_read : Option Str
  pub on_create : Option Str
  pub on_update : Option Str

abbrev pub no_type_policy : TypePolicy
no_type_policy = record {
  read = none;
  create = none;
  update = none;
  geoloc = none;
  on_read = none;
  on_create = none;
  on_update = none;
}

pub record ReadPolicyInstance : Type 0 where
  pub function : Str
  pub expr : Option Expr

-- `PolicyEvalInstance`, with the JavaScript value that an operation works on.
pub record EvalInstance (V : Type 0) : Type 0 where
  pub read : Option ReadPolicyInstance
  pub create : Option Str
  pub update : Option Str
  pub on_read : Option Str
  pub on_create : Option Str
  pub on_update : Option Str
  pub geoloc : Option Str
  pub dirty : List Str
  pub chisel_ctx : V
  pub value : V

-- `PolicyEvalInstance::new`
abbrev pub new_instance : {V : Type 0} → V → V → EvalInstance V
new_instance ctx value = record {
  read = none;
  create = none;
  update = none;
  on_read = none;
  on_create = none;
  on_update = none;
  geoloc = none;
  dirty = [];
  chisel_ctx = ctx;
  value = value;
}

-- A function that changes the instance and returns a value or an error.
abbrev pub Run : Type 0 → Type 0 → Type 0
Run V A = EvalInstance V → EvalInstance V × Result InstanceError A

module _ {V A B : Type 0} where
  abbrev pub after :
      EvalInstance V × Result InstanceError A
      → (A → Run V B)
      → EvalInstance V × Result InstanceError B
  after (i, err e) next = (i, err e)
  after (i, ok a) next = next a i

  -- The `?` operator on such functions.
  pub then_run : Run V A → (A → Run V B) → Run V B
  then_run m next i = after (m i) next

abbrev pub done : {V A : Type 0} → A → Run V A
done a i = (i, ok a)

abbrev pub fail : {V A : Type 0} → InstanceError → Run V A
fail e i = (i, err e)

abbrev pub of_option : {V A : Type 0} → Option A → InstanceError → Run V A
of_option none e i = (i, err e)
of_option (some a) e i = (i, ok a)

-- `mark_dirty` and `is_dirty`
abbrev pub mark_dirty : {V : Type 0} → Str → EvalInstance V → EvalInstance V
mark_dirty id i = record i { dirty = id ∷ i.dirty }

abbrev pub is_dirty : {V : Type 0} → Str → EvalInstance V → Bool
is_dirty id i = any (λ d. str_eq d id) i.dirty

-- The instance that is there, or the one of the policy.
abbrev pub or_policy : Option Str → Option Str → Option Str
or_policy (some f) policy = some f
or_policy none policy = policy

module _ (rt : Runtime) (policy : TypePolicy) where
  -- `engine.call` on the value and the context.
  call_function : Str → Run rt.JsValue rt.JsValue
  call_function f i =
      let out = rt.call f i.value i.chisel_ctx in
      of_option out.0 exception (record i { value = out.1; chisel_ctx = out.2 })

  -- The match on the result of a filter function.
  action_of_kind : JsKind → Run rt.JsValue Action
  action_of_kind (JsKind.integer n) = of_option (action_try_from n) invalid_action
  action_of_kind JsKind.undefined = done Action.deny
  action_of_kind _ = fail invalid_action

  -- `Filter::get_action`
  get_action : Str → Run rt.JsValue Action
  unfolding call_function action_of_kind then_run
  get_action f = then_run (call_function f) (λ result. action_of_kind (rt.kind result))

  -- `ReadPolicyInstance::new`, and the instance kept.
  keep_read : Str → Result EngineError (Option Expr) → Run rt.JsValue (Option ReadPolicyInstance)
  keep_read f (err e) i = (i, err (engine e))
  keep_read f (ok e) i = (
    record i { read = some (record { function = f; expr = e }) },
    ok (some (record { function = f; expr = e })),
  )

  new_read : Option ReadPolicy → Run rt.JsValue (Option ReadPolicyInstance)
  unfolding keep_read
  new_read none = done none
  new_read (some p) =
      keep_read (ReadPolicy.function p)
        (eval_read_policy_expr rt.boa rt.simplifier p rt.request_json)

  old_or_new : Option ReadPolicyInstance → Run rt.JsValue (Option ReadPolicyInstance)
  unfolding new_read
  old_or_new (some r) = done (some r)
  old_or_new none = new_read policy.read

  -- `get_or_load_read_policy_instance`
  load_read : Run rt.JsValue (Option ReadPolicyInstance)
  unfolding old_or_new
  load_read i = old_or_new i.read i

  -- The other `get_or_load` functions.
  load_create : Run rt.JsValue (Option Str)
  load_create i = (
    record i { create = or_policy i.create policy.create },
    ok (or_policy i.create policy.create),
  )

  load_update : Run rt.JsValue (Option Str)
  load_update i = (
    record i { update = or_policy i.update policy.update },
    ok (or_policy i.update policy.update),
  )

  load_on_read : Run rt.JsValue (Option Str)
  load_on_read i = (
    record i { on_read = or_policy i.on_read policy.on_read },
    ok (or_policy i.on_read policy.on_read),
  )

  load_on_create : Run rt.JsValue (Option Str)
  load_on_create i = (
    record i { on_create = or_policy i.on_create policy.on_create },
    ok (or_policy i.on_create policy.on_create),
  )

  load_on_update : Run rt.JsValue (Option Str)
  load_on_update i = (
    record i { on_update = or_policy i.on_update policy.on_update },
    ok (or_policy i.on_update policy.on_update),
  )

  load_geoloc : Run rt.JsValue (Option Str)
  load_geoloc i = (
    record i { geoloc = or_policy i.geoloc policy.geoloc },
    ok (or_policy i.geoloc policy.geoloc),
  )

  -- `.map(|p| p.get_action(..)).transpose()`
  action_of : Option Str → Run rt.JsValue (Option Action)
  unfolding get_action
  action_of none = done none
  action_of (some f) = then_run (get_action f) (λ a. done (some a))

  abbrev function_of : Option ReadPolicyInstance → Option Str
  function_of none = none
  function_of (some r) = some (ReadPolicyInstance.function r)

  pub get_read_action : Run rt.JsValue (Option Action)
  unfolding load_read action_of
  get_read_action = then_run load_read (λ r. action_of (function_of r))

  -- The match on the read action: a restrictive one is the answer.
  unless_restrictive :
      Run rt.JsValue (Option Action) → Option Action → Run rt.JsValue (Option Action)
  unless_restrictive next none = next
  unless_restrictive next (some a) = if is_restrictive a then done (some a) else next

  -- `get_create_action` and `get_update_action`
  get_write_action : WriteAction → Run rt.JsValue (Option Action)
  unfolding get_read_action unless_restrictive load_create load_update
  get_write_action create =
      then_run get_read_action (unless_restrictive (then_run load_create action_of))
  get_write_action update =
      then_run get_read_action (unless_restrictive (then_run load_update action_of))

  -- `.map(|p| p.transform(..)).transpose()`
  transform : Option Str → Run rt.JsValue (Unit {0})
  transform none = done tt
  transform (some f) = then_run (call_function f) (λ result. done tt)

  location_of_kind : JsKind → Run rt.JsValue (Option Location)
  location_of_kind (JsKind.string s) =
      then_run (of_option (location_from_str s) invalid_location) (λ l. done (some l))
  location_of_kind _ = fail invalid_location

  geo_loc : Option Str → Run rt.JsValue (Option Location)
  unfolding location_of_kind
  geo_loc none = done none
  geo_loc (some f) = then_run (call_function f) (λ result. location_of_kind (rt.kind result))

  -- `value["id"].as_str().unwrap()`
  abbrev text_of : Option EntityValue → Option Str
  text_of (some (EntityValue.string s)) = some s
  text_of _ = none

  pub entity_id : EntityMap → Option Str
  entity_id value = text_of (lookup (text "id") value)

  new_value : Run rt.JsValue EntityMap
  new_value i = of_option (rt.from_js i.value) not_a_map i

  mark_by : EntityMap → Option Str → Run rt.JsValue (Option EntityMap)
  mark_by changed none i = (i, err no_text_id)
  mark_by changed (some id) i = (mark_dirty id i, ok (some changed))

  mark_changed : EntityMap → EntityMap → Run rt.JsValue (Option EntityMap)
  unfolding entity_id mark_by
  mark_changed value changed =
      if rt.maps_equal changed value then done (some changed) else mark_by changed (entity_id value)

  -- The match on the read action.
  read_with : EntityMap → Option Action → Run rt.JsValue (Option EntityMap)
  unfolding load_on_read transform new_value mark_changed
  read_with value (some Action.deny) = fail read_permission_denied
  read_with value (some Action.skip) = done none
  read_with value _ = then_run load_on_read (λ f.
      then_run (transform f) (λ u. then_run new_value (λ changed. mark_changed value changed)))

  -- `PolicyProcessor::process_read`
  pub process_read : EntityMap → Run rt.JsValue (Option EntityMap)
  unfolding read_with
  process_read value i =
      then_run get_read_action (read_with value) (record i { value = rt.to_js value })

  refuse_id : Option Str → Run rt.JsValue (Unit {0})
  refuse_id none i = (i, err no_text_id)
  refuse_id (some id) i = if is_dirty id i then (i, err dirty_entity) else (i, ok tt)

  refuse_dirty : WriteAction → EntityMap → Run rt.JsValue (Unit {0})
  unfolding entity_id refuse_id
  refuse_dirty create value = done tt
  refuse_dirty update value = refuse_id (entity_id value)

  load_transform : WriteAction → Run rt.JsValue (Option Str)
  unfolding load_on_create load_on_update
  load_transform create = load_on_create
  load_transform update = load_on_update

  allow_write : Option Action → Run rt.JsValue (Unit {0})
  allow_write (some Action.deny) = fail write_permission_denied
  allow_write (some Action.skip) = fail write_permission_denied
  allow_write _ = done tt

  -- The steps of a write after the check for transformed entities, from the last one up.
  write_value : Option Location → Run rt.JsValue (EntityMap × Option Location)
  unfolding new_value
  write_value location = then_run new_value (λ value. done (value, location))

  write_transformed : Option Location → Option Str → Run rt.JsValue (EntityMap × Option Location)
  unfolding transform write_value
  write_transformed location f = then_run (transform f) (λ u. write_value location)

  write_allowed :
      WriteAction → Option Action → Option Location → Run rt.JsValue (EntityMap × Option Location)
  unfolding allow_write load_transform write_transformed
  write_allowed w action location =
      then_run (allow_write action) (λ u. then_run (load_transform w) (write_transformed location))

  write_located :
      WriteAction → Option Action → Option Str → Run rt.JsValue (EntityMap × Option Location)
  unfolding geo_loc write_allowed
  write_located w action g = then_run (geo_loc g) (write_allowed w action)

  write_decided : WriteAction → Option Action → Run rt.JsValue (EntityMap × Option Location)
  unfolding load_geoloc write_located
  write_decided w action = then_run load_geoloc (write_located w action)

  write_checked : WriteAction → Run rt.JsValue (EntityMap × Option Location)
  unfolding get_write_action write_decided
  write_checked w = then_run (get_write_action w) (write_decided w)

  -- `PolicyProcessor::process_write`
  pub process_write : EntityMap → WriteAction → Run rt.JsValue (EntityMap × Option Location)
  unfolding refuse_dirty write_checked
  process_write value w i =
      then_run (refuse_dirty w value) (λ u. write_checked w) (record i { value = rt.to_js value })

-- The operations on the instance of one request.
pub data Operation : Type 0 where
  reading : EntityMap → Operation
  writing : EntityMap → WriteAction → Operation

module _ (rt : Runtime) (policy : TypePolicy) where
  pub run_operation : Operation → EvalInstance rt.JsValue → EvalInstance rt.JsValue
  unfolding process_read process_write
  run_operation (reading value) i = (process_read rt policy value i).0
  run_operation (writing value w) i = (process_write rt policy value w i).0

  pub run_operations : List Operation → EvalInstance rt.JsValue → EvalInstance rt.JsValue
  unfolding run_operation
  run_operations [] i = i
  run_operations (o ∷ os) i = run_operations os (run_operation o i)
