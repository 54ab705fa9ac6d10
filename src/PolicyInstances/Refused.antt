-- ===== src/PolicyInstances/Refused.antt =====
-- server/src/policy/mod.rs, instances.rs: writes of entities that may not be read.
use chiselstrike.Prelude.{
  Str, true, Option, none, some, Result, ok, err, ◌≡◌, refl, ◌⊎◌, inl, inr, Bool-cases,
}
use chiselstrike.PolicyInstances.{
  EntityMap, Runtime, Action, is_restrictive, WriteAction, InstanceError, TypePolicy, EvalInstance,
  Run, after, then_run, is_dirty, get_read_action, unless_restrictive, get_write_action,
  load_geoloc, geo_loc, allow_write, write_allowed, write_located, write_decided, write_checked,
  entity_id, refuse_id, refuse_dirty, process_write, write_permission_denied, no_text_id,
  dirty_entity,
}

abbrev pub IsRefused : {V A : Type 0} → EvalInstance V × Result InstanceError A → Type 0
IsRefused {V} out = (i : EvalInstance V) × (e : InstanceError) × (out ≡ (i, err e))

module _ (rt : Runtime) (policy : TypePolicy) (a : Action)
    (restrictive : is_restrictive a ≡ true) where
  allow_write-refused :
      (i : EvalInstance rt.JsValue)
      → allow_write rt policy (some a) i ≡ (i, err write_permission_denied)
  unfolding allow_write
  allow_write-refused i = of_action a restrictive
    where
      of_action :
          (b : Action)
          → is_restrictive b ≡ true
          → allow_write rt policy (some b) i ≡ (i, err write_permission_denied)
      of_action Action.deny h = refl
      of_action Action.skip h = refl
      of_action Action.allow h = cc
      of_action Action.log h = cc

  then_run-IsRefused :
      {A B : Type 0} (m : Run rt.JsValue A) (next : A → Run rt.JsValue B)
      (i : EvalInstance rt.JsValue)
      → ((x : A) (j : EvalInstance rt.JsValue) → IsRefused (next x j))
      → IsRefused (then_run m next i)
  unfolding then_run
  then_run-IsRefused {A} {B} m next i refused = go (m i)
    where
      go : (out : EvalInstance rt.JsValue × Result InstanceError A) → IsRefused (after out next)
      go (j, ok x) = refused x j
      go (j, err e) = (j, e, refl)

  write_decided-IsRefused :
      (w : WriteAction) (i : EvalInstance rt.JsValue)
      → IsRefused (write_decided rt policy w (some a) i)
  unfolding write_decided write_located write_allowed then_run
  write_decided-IsRefused w i =
      then_run-IsRefused (load_geoloc rt policy) (write_located rt policy w (some a)) i (λ g j.
        then_run-IsRefused (geo_loc rt policy g) (write_allowed rt policy w (some a)) j
          (λ location k. (k, write_permission_denied, rw (allow_write-refused k) refl)))

  get_write_action-restrictive :
      (w : WriteAction) (i j : EvalInstance rt.JsValue)
      → get_read_action rt policy i ≡ (j, ok (some a))
      → get_write_action rt policy w i ≡ (j, ok (some a))
  unfolding get_write_action then_run unless_restrictive
  get_write_action-restrictive WriteAction.create i j h = rw (h, restrictive) refl
  get_write_action-restrictive WriteAction.update i j h = rw (h, restrictive) refl

  write_checked-IsRefused :
      (w : WriteAction) (i j : EvalInstance rt.JsValue)
      → get_read_action rt policy i ≡ (j, ok (some a))
      → IsRefused (write_checked rt policy w i)
  unfolding write_checked then_run
  write_checked-IsRefused w i j h =
      rw (get_write_action-restrictive w i j h) (write_decided-IsRefused w j)

  refuse_id-or :
      (o : Option Str) (i : EvalInstance rt.JsValue)
      → (refuse_id rt policy o i ≡ (i, ok tt))
        ⊎ ((e : InstanceError) × (refuse_id rt policy o i ≡ (i, err e)))
  unfolding refuse_id
  refuse_id-or none i = inr (no_text_id, refl)
  refuse_id-or (some id) i = elim (Bool-cases (is_dirty id i)) [
    | inl found ↦ inr (dirty_entity, rw (found, refuse_id) refl)
    | inr absent ↦ inl (rw (absent, refuse_id) refl)
  ]

-- If the read policy denies or skips an entity, every write of it is refused with an error, whatever
-- the policies of creations, updates and locations say.
pub process_write-IsRefused :
    (rt : Runtime) (policy : TypePolicy) (value : EntityMap) (w : WriteAction)
    (i j : EvalInstance rt.JsValue) (a : Action)
    → get_read_action rt policy (record i { value = rt.to_js value }) ≡ (j, ok (some a))
    → is_restrictive a ≡ true
    → IsRefused (process_write rt policy value w i)
unfolding process_write refuse_dirty then_run
process_write-IsRefused rt policy value WriteAction.create i j a h r =
    write_checked-IsRefused rt policy a r WriteAction.create (record i { value = rt.to_js value }) j
      h
process_write-IsRefused rt policy value WriteAction.update i j a h r =
    elim (refuse_id-or rt policy a r (entity_id rt policy value)
      (record i { value = rt.to_js value })) [
        | inl fresh ↦ rw fresh (
            write_checked-IsRefused rt policy a r WriteAction.update
              (record i { value = rt.to_js value }) j h)
        | inr (e, refused) ↦ rw refused (record i { value = rt.to_js value }, e, refl)
      ]
