-- ===== src/PolicyInstances/Dirty.antt =====
-- server/src/policy/mod.rs, instances.rs: entities that a policy transformed, and refused writes.
use chiselstrike.Prelude.{
  Str, str_eq_refl, Bool, true, false, Option, none, some, List, [], ◌∷◌, if◌then◌else◌, Result, ok,
  err, ◌≡◌, refl, subst, arith, Bool-cases, inl, inr,
}
use chiselstrike.PolicyInstances.{
  EntityMap, JsKind, Runtime, Action, is_restrictive, location_from_str, WriteAction, InstanceError,
  TypePolicy, ReadPolicyInstance, EvalInstance, Run, after, then_run, done, of_option, is_dirty,
  call_function, action_of_kind, get_action, load_read, action_of, get_read_action,
  unless_restrictive, get_write_action, transform, location_of_kind, geo_loc, entity_id, new_value,
  mark_changed, read_with, process_read, refuse_dirty, load_transform, allow_write, write_checked,
  process_write, Operation, run_operation, run_operations, exception, action_try_from, keep_read,
  new_read, old_or_new, function_of, load_create, invalid_location, not_a_map, invalid_action,
  EngineError, ReadPolicy, load_update, Expr, eval_read_policy_expr, mark_by, load_on_read,
  refuse_id, load_on_create, load_geoloc, reading, load_on_update, writing, write_value,
  write_transformed, write_allowed, write_located, write_decided, Location, dirty_entity,
}

-- No entity ceases to be dirty.
abbrev Grows : {V A : Type 0} → Run V A → Type 0
Grows {V} m = (id : Str) (i : EvalInstance V) → is_dirty id i ≡ true → is_dirty id (m i).0 ≡ true

then_run-Grows :
    {V A B : Type 0} (m : Run V A) (next : A → Run V B)
    → Grows m
    → ((a : A) → Grows (next a))
    → Grows (then_run m next)
unfolding then_run
then_run-Grows {V} {A} m next gm gn id i h = go (m i) (gm id i h)
  where
    go :
        (out : EvalInstance V × Result InstanceError A)
        → is_dirty id out.0 ≡ true
        → is_dirty id (after out next).0 ≡ true
    go (j, ok a) k = gn a id j k
    go (j, err e) k = k

of_option-Grows : {V A : Type 0} (o : Option A) (e : InstanceError) → Grows {V = V} (of_option o e)
of_option-Grows none e = λ id i h. h
of_option-Grows (some a) e = λ id i h. h

done-Grows : {V A : Type 0} (a : A) → Grows {V = V} (done a)
done-Grows a = λ id i h. h

module _ (rt : Runtime) (policy : TypePolicy) where
  call_function-Grows : (f : Str) → Grows (call_function rt policy f)
  unfolding call_function
  call_function-Grows f id i h =
      let out = rt.call f i.value i.chisel_ctx in
      of_option-Grows out.0 exception id (record i { value = out.1; chisel_ctx = out.2 }) h

  action_of_kind-Grows : (k : JsKind) → Grows (action_of_kind rt policy k)
  unfolding action_of_kind
  action_of_kind-Grows (JsKind.integer n) = of_option-Grows (action_try_from n) invalid_action
  action_of_kind-Grows JsKind.undefined = λ id i h. h
  action_of_kind-Grows (JsKind.string s) = λ id i h. h
  action_of_kind-Grows JsKind.other = λ id i h. h

  action_of-Grows : (f : Option Str) → Grows (action_of rt policy f)
  unfolding action_of get_action
  action_of-Grows none = λ id i h. h
  action_of-Grows (some f) =
      then_run-Grows (get_action rt policy f) (λ a. done (some a))
        (then_run-Grows (call_function rt policy f) (λ r. action_of_kind rt policy (rt.kind r))
          (call_function-Grows f) (λ r. action_of_kind-Grows (rt.kind r)))
        (λ a. done-Grows (some a))

  keep_read-Grows :
      (f : Str) (e : Result EngineError (Option Expr)) → Grows (keep_read rt policy f e)
  unfolding keep_read
  keep_read-Grows f (ok e) = λ id i h. h
  keep_read-Grows f (err e) = λ id i h. h

  new_read-Grows : (p : Option ReadPolicy) → Grows (new_read rt policy p)
  unfolding new_read
  new_read-Grows none = λ id i h. h
  new_read-Grows (some p) =
      keep_read-Grows (ReadPolicy.function p)
        (eval_read_policy_expr rt.boa rt.simplifier p rt.request_json)

  old_or_new-Grows : (r : Option ReadPolicyInstance) → Grows (old_or_new rt policy r)
  unfolding old_or_new
  old_or_new-Grows none = new_read-Grows policy.read
  old_or_new-Grows (some r) = λ id i h. h

  get_read_action-Grows : Grows (get_read_action rt policy)
  unfolding get_read_action load_read
  get_read_action-Grows =
      then_run-Grows (load_read rt policy) (λ r. action_of rt policy (function_of rt policy r))
        (λ id i h. old_or_new-Grows i.read id i h) (λ r. action_of-Grows (function_of rt policy r))

  unless_restrictive-Grows :
      (next : Run rt.JsValue (Option Action)) (o : Option Action)
      → Grows next
      → Grows (unless_restrictive rt policy next o)
  unfolding unless_restrictive
  unless_restrictive-Grows next none g = g
  unless_restrictive-Grows next (some a) g = restricted a (is_restrictive a)
    where
      restricted : (a : Action) (b : Bool) → Grows (if b then done (some a) else next)
      restricted a true = λ id i h. h
      restricted a false = g

  get_write_action-Grows : (w : WriteAction) → Grows (get_write_action rt policy w)
  unfolding get_write_action load_create load_update
  get_write_action-Grows WriteAction.create =
      then_run-Grows (get_read_action rt policy)
        (unless_restrictive rt policy (then_run (load_create rt policy) (action_of rt policy)))
        get_read_action-Grows
        (λ o. unless_restrictive-Grows (then_run (load_create rt policy) (action_of rt policy)) o (
          then_run-Grows (load_create rt policy) (action_of rt policy) (λ id i h. h)
            action_of-Grows))
  get_write_action-Grows WriteAction.update =
      then_run-Grows (get_read_action rt policy)
        (unless_restrictive rt policy (then_run (load_update rt policy) (action_of rt policy)))
        get_read_action-Grows
        (λ o. unless_restrictive-Grows (then_run (load_update rt policy) (action_of rt policy)) o (
          then_run-Grows (load_update rt policy) (action_of rt policy) (λ id i h. h)
            action_of-Grows))

  transform-Grows : (f : Option Str) → Grows (transform rt policy f)
  unfolding transform
  transform-Grows none = λ id i h. h
  transform-Grows (some f) =
      then_run-Grows (call_function rt policy f) (λ r. done tt) (call_function-Grows f)
        (λ r. done-Grows tt)

  location_of_kind-Grows : (k : JsKind) → Grows (location_of_kind rt policy k)
  unfolding location_of_kind
  location_of_kind-Grows (JsKind.string s) =
      then_run-Grows (of_option (location_from_str s) invalid_location) (λ l. done (some l))
        (of_option-Grows (location_from_str s) invalid_location) (λ l. done-Grows (some l))
  location_of_kind-Grows (JsKind.integer n) = λ id i h. h
  location_of_kind-Grows JsKind.undefined = λ id i h. h
  location_of_kind-Grows JsKind.other = λ id i h. h

  geo_loc-Grows : (f : Option Str) → Grows (geo_loc rt policy f)
  unfolding geo_loc
  geo_loc-Grows none = λ id i h. h
  geo_loc-Grows (some f) =
      then_run-Grows (call_function rt policy f) (λ r. location_of_kind rt policy (rt.kind r))
        (call_function-Grows f) (λ r. location_of_kind-Grows (rt.kind r))

  new_value-Grows : Grows (new_value rt policy)
  unfolding new_value
  new_value-Grows id i h = of_option-Grows (rt.from_js i.value) not_a_map id i h

  mark_by-Grows : (changed : EntityMap) (o : Option Str) → Grows (mark_by rt policy changed o)
  unfolding mark_by
  mark_by-Grows changed none = λ id i h. h
  mark_by-Grows changed (some d) = λ id i h. ground (arith, h)

  if-Grows :
      {A : Type 0} (b : Bool) (m n : Run rt.JsValue A)
      → Grows m
      → Grows n
      → Grows (if b then m else n)
  if-Grows true m n gm gn = gm
  if-Grows false m n gm gn = gn

  mark_changed-Grows : (value changed : EntityMap) → Grows (mark_changed rt policy value changed)
  unfolding mark_changed
  mark_changed-Grows value changed =
      if-Grows (rt.maps_equal changed value) (done (some changed))
        (mark_by rt policy changed (entity_id rt policy value)) (λ id i h. h)
        (mark_by-Grows changed (entity_id rt policy value))

  -- What an entity that may be read goes through.
  read_allowed : EntityMap → Run rt.JsValue (Option EntityMap)
  read_allowed value = then_run (load_on_read rt policy) (λ f.
      then_run (transform rt policy f)
        (λ u. then_run (new_value rt policy) (λ changed. mark_changed rt policy value changed)))

  read_allowed-Grows : (value : EntityMap) → Grows (read_allowed value)
  unfolding read_allowed load_on_read
  read_allowed-Grows value =
      then_run-Grows (load_on_read rt policy) _ (λ id i h. h)
        (λ f.
          then_run-Grows (transform rt policy f) _ (transform-Grows f) (λ u.
            then_run-Grows (new_value rt policy) _ new_value-Grows (mark_changed-Grows value)))

  read_with-Grows : (value : EntityMap) (o : Option Action) → Grows (read_with rt policy value o)
  unfolding read_with read_allowed
  read_with-Grows value (some Action.deny) = λ id i h. h
  read_with-Grows value (some Action.skip) = λ id i h. h
  read_with-Grows value (some Action.allow) = read_allowed-Grows value
  read_with-Grows value (some Action.log) = read_allowed-Grows value
  read_with-Grows value none = read_allowed-Grows value

  process_read-Grows : (value : EntityMap) → Grows (process_read rt policy value)
  unfolding process_read
  process_read-Grows value id i h =
      then_run-Grows (get_read_action rt policy) (read_with rt policy value) get_read_action-Grows
        (read_with-Grows value) id (record i { value = rt.to_js value }) h

  refuse_id-Grows : (o : Option Str) → Grows (refuse_id rt policy o)
  unfolding refuse_id
  refuse_id-Grows none = λ id i h. h
  refuse_id-Grows (some d) = λ id i h. elim (Bool-cases (is_dirty d i)) [
    | inl found ↦ rw (found, refuse_id) h
    | inr absent ↦ rw (absent, refuse_id) h
  ]

  refuse_dirty-Grows :
      (w : WriteAction) (value : EntityMap) → Grows (refuse_dirty rt policy w value)
  unfolding refuse_dirty
  refuse_dirty-Grows WriteAction.create value = λ id i h. h
  refuse_dirty-Grows WriteAction.update value = refuse_id-Grows (entity_id rt policy value)

  allow_write-Grows : (o : Option Action) → Grows (allow_write rt policy o)
  unfolding allow_write
  allow_write-Grows (some Action.deny) = λ id i h. h
  allow_write-Grows (some Action.skip) = λ id i h. h
  allow_write-Grows (some Action.allow) = λ id i h. h
  allow_write-Grows (some Action.log) = λ id i h. h
  allow_write-Grows none = λ id i h. h

  load_transform-Grows : (w : WriteAction) → Grows (load_transform rt policy w)
  unfolding load_transform load_on_create load_on_update
  load_transform-Grows WriteAction.create = λ id i h. h
  load_transform-Grows WriteAction.update = λ id i h. h

  write_value-Grows : (location : Option Location) → Grows (write_value rt policy location)
  unfolding write_value
  write_value-Grows location =
      then_run-Grows (new_value rt policy) (λ value. done (value, location)) new_value-Grows
        (λ value. λ id i h. h)

  write_transformed-Grows :
      (location : Option Location) (f : Option Str) → Grows (write_transformed rt policy location f)
  unfolding write_transformed
  write_transformed-Grows location f =
      then_run-Grows (transform rt policy f) (λ u. write_value rt policy location)
        (transform-Grows f) (λ u. write_value-Grows location)

  write_allowed-Grows :
      (w : WriteAction) (action : Option Action) (location : Option Location)
      → Grows (write_allowed rt policy w action location)
  unfolding write_allowed
  write_allowed-Grows w action location =
      then_run-Grows (allow_write rt policy action)
        (λ u. then_run (load_transform rt policy w) (write_transformed rt policy location))
        (allow_write-Grows action)
        (λ u.
          then_run-Grows (load_transform rt policy w) (write_transformed rt policy location)
            (load_transform-Grows w) (write_transformed-Grows location))

  write_located-Grows :
      (w : WriteAction) (action : Option Action) (g : Option Str)
      → Grows (write_located rt policy w action g)
  unfolding write_located
  write_located-Grows w action g =
      then_run-Grows (geo_loc rt policy g) (write_allowed rt policy w action) (geo_loc-Grows g)
        (write_allowed-Grows w action)

  write_checked-Grows : (w : WriteAction) → Grows (write_checked rt policy w)
  unfolding write_checked write_decided load_geoloc
  write_checked-Grows w =
      then_run-Grows (get_write_action rt policy w) (write_decided rt policy w)
        (get_write_action-Grows w)
        (λ action.
          then_run-Grows (load_geoloc rt policy) (write_located rt policy w action) (λ id i h. h)
            (write_located-Grows w action))

  process_write-Grows :
      (value : EntityMap) (w : WriteAction) → Grows (process_write rt policy value w)
  unfolding process_write
  process_write-Grows value w id i h =
      then_run-Grows (refuse_dirty rt policy w value) (λ u. write_checked rt policy w)
        (refuse_dirty-Grows w value) (λ u. write_checked-Grows w) id
        (record i { value = rt.to_js value }) h

  run_operations-Grows :
      (os : List Operation) (id : Str) (i : EvalInstance rt.JsValue)
      → is_dirty id i ≡ true
      → is_dirty id (run_operations rt policy os i) ≡ true
  unfolding run_operations run_operation
  run_operations-Grows [] id i h = h
  run_operations-Grows (reading value ∷ os) id i h =
      run_operations-Grows os id _ (process_read-Grows value id i h)
  run_operations-Grows (writing value w ∷ os) id i h =
      run_operations-Grows os id _ (process_write-Grows value w id i h)

-- A function that returns the new entity has marked the old one.
module _ (rt : Runtime) (policy : TypePolicy) (value new : EntityMap) (id : Str)
    (changed : rt.maps_equal new value ≡ false) (named : entity_id rt policy value ≡ some id) where
  abbrev Marks : Run rt.JsValue (Option EntityMap) → Type 0
  Marks m = (i : EvalInstance rt.JsValue) → (m i).1 ≡ ok (some new) → is_dirty id (m i).0 ≡ true

  then_run-Marks :
      {A : Type 0} (m : Run rt.JsValue A) (next : A → Run rt.JsValue (Option EntityMap))
      → ((a : A) → Marks (next a))
      → Marks (then_run m next)
  unfolding then_run
  then_run-Marks {A} m next marks i h = go (m i) h
    where
      go :
          (out : EvalInstance rt.JsValue × Result InstanceError A)
          → (after out next).1 ≡ ok (some new)
          → is_dirty id (after out next).0 ≡ true
      go (j, ok a) k = marks a j k
      go (j, err e) k = cc

  mark_by-Marks : (out : EntityMap) → Marks (mark_by rt policy out (some id))
  unfolding mark_by
  mark_by-Marks out i h = ground (arith, str_eq_refl id)

  mark_changed-Marks : (out : EntityMap) → Marks (mark_changed rt policy value out)
  unfolding mark_changed
  mark_changed-Marks out i h = chosen (rt.maps_equal out value) refl h
    where
      chosen :
          (b : Bool)
          → rt.maps_equal out value ≡ b
          → ((if b then done (some out) else mark_by rt policy out (entity_id rt policy value)) i).1
            ≡ ok (some new)
          → is_dirty id
              ((if rt.maps_equal out value
                  then done (some out)
                  else mark_by rt policy out (entity_id rt policy value))
                i).0
            ≡ true
      chosen true e k =
          let same : out ≡ new = cc k in
          let no : rt.maps_equal new value ≡ true =
            subst (λ x. rt.maps_equal x value ≡ true) same e in
          cc (no, changed)
      chosen false e k =
          let k1 : (mark_by rt policy out (some id) i).1 ≡ ok (some new) =
            subst (λ o. (mark_by rt policy out o i).1 ≡ ok (some new)) named k in
          rw (e, named) (mark_by-Marks out i k1)

  read_allowed-Marks : Marks (read_allowed rt policy value)
  unfolding read_allowed
  read_allowed-Marks = then_run-Marks (load_on_read rt policy) _ (λ f.
      then_run-Marks (transform rt policy f) _
        (λ u. then_run-Marks (new_value rt policy) _ mark_changed-Marks))

  read_with-Marks : (o : Option Action) → Marks (read_with rt policy value o)
  unfolding read_with read_allowed
  read_with-Marks (some Action.deny) = λ i h. cc
  read_with-Marks (some Action.skip) = λ i h. cc
  read_with-Marks (some Action.allow) = read_allowed-Marks
  read_with-Marks (some Action.log) = read_allowed-Marks
  read_with-Marks none = read_allowed-Marks

  process_read-Marks : Marks (process_read rt policy value)
  unfolding process_read
  process_read-Marks i h =
      then_run-Marks (get_read_action rt policy) (read_with rt policy value) read_with-Marks
        (record i { value = rt.to_js value }) h

-- An update of a dirty entity is refused, and the instance keeps all but the value in work.
update-dirty :
    (rt : Runtime) (policy : TypePolicy) (value : EntityMap) (id : Str)
    (i : EvalInstance rt.JsValue)
    → entity_id rt policy value ≡ some id
    → is_dirty id i ≡ true
    → process_write rt policy value WriteAction.update i
      ≡ (record i { value = rt.to_js value }, err dirty_entity)
unfolding process_write refuse_dirty refuse_id then_run
update-dirty rt policy value id i e h = rw (e, h) refl

-- If a read returns an entity that its policies transformed, every later update of an entity with the
-- same id is refused as dirty, whatever reads and writes come between, and the instance
-- is left as it is but for the value in work.
pub process_read-dirty :
    (rt : Runtime) (policy : TypePolicy) (value new later : EntityMap) (id : Str)
    (between : List Operation) (i : EvalInstance rt.JsValue)
    → (process_read rt policy value i).1 ≡ ok (some new)
    → rt.maps_equal new value ≡ false
    → entity_id rt policy value ≡ some id
    → entity_id rt policy later ≡ some id
    → process_write rt policy later WriteAction.update
        (run_operations rt policy between (process_read rt policy value i).0)
      ≡ (
        record (run_operations rt policy between (process_read rt policy value i).0) {
          value = rt.to_js later;
        },
        err dirty_entity,
      )
process_read-dirty rt policy value new later id between i h changed named same =
    update-dirty rt policy later id
      (run_operations rt policy between (process_read rt policy value i).0) same
      (run_operations-Grows rt policy between id (process_read rt policy value i).0
        (process_read-Marks rt policy value new id changed named i h))
