-- ===== src/PolicyInstances/Tests.antt =====
-- Runs of server/src/policy/mod.rs with policies that blank the names of persons, or deny them.
use chiselstrike.Prelude.{
  Str, text, str_eq, false, Option, none, some, [], ◌∷◌, lookup, ok, err, ◌≡◌, refl,
}
use chiselstrike.Prelude.Int.{ℤ}
use chiselstrike.Json.{Json}
use chiselstrike.EntityValue.{EntityValue}
use chiselstrike.PolicyEngine.{eval_read_policy_expr}
use chiselstrike.PolicyInstances.{
  EntityMap, JsKind, Runtime, Action, WriteAction, TypePolicy, no_type_policy, EvalInstance,
  new_instance, then_run, get_read_action, entity_id, process_read, process_write, run_operations,
  writing, dirty_entity,
}
use chiselstrike.PolicyInstances.Dirty.{process_read-dirty}
use chiselstrike.PolicyInstances.Refused.{IsRefused, process_write-IsRefused}

abbrev blank : EntityMap
blank = (text "id", EntityValue.string (text "1")) ∷ (text "name", EntityValue.string []) ∷ []

abbrev ann : EntityMap
ann =
    (text "id", EntityValue.string (text "1")) ∷ (text "name", EntityValue.string (text "ann")) ∷ []

abbrev name_of : Option EntityValue → Str
name_of (some (EntityValue.string s)) = s
name_of _ = []

-- An engine in which every function blanks the entity and returns 1.
abbrev runtime : Runtime
runtime = record {
  JsValue = EntityMap;
  call = λ f value ctx. (some [], blank, ctx);
  kind = λ value. JsKind.integer (ℤ.pos 1);
  to_js = λ value. value;
  from_js = some;
  maps_equal = λ x y. str_eq (name_of (lookup (text "name") x)) (name_of (lookup (text "name") y));
  boa = record {
    equals = λ x y. false;
    gt = λ x y. false;
    ge = λ x y. false;
    lt = λ x y. false;
    le = λ x y. false;
    not = λ x. false;
  };
  simplifier = record { simplify = λ b. b ∷ []; max_terms = 32 };
  request_json = Json.null;
}

abbrev blanking : TypePolicy
blanking = record no_type_policy { on_read = some (text "code") }

abbrev start : EvalInstance EntityMap
start = new_instance [] []

ann_read : (process_read runtime blanking ann start).1 ≡ ok (some blank)
unfolding process_read then_run str_eq lookup get_read_action
ann_read = refl

ann_changed : runtime.maps_equal blank ann ≡ false
unfolding str_eq lookup
ann_changed = refl

ann_id : entity_id runtime blanking ann ≡ some (text "1")
unfolding entity_id str_eq lookup
ann_id = refl

process_read-dirty_example :
    process_write runtime blanking ann WriteAction.update (
      run_operations runtime blanking
        (writing blank WriteAction.create ∷ [])
        (process_read runtime blanking ann start).0)
    ≡ (
      record (run_operations runtime blanking
          (writing blank WriteAction.create ∷ [])
          (process_read runtime blanking ann start).0) { value = ann },
      err dirty_entity,
    )
process_read-dirty_example =
    process_read-dirty runtime blanking ann blank ann (text "1")
      (writing blank WriteAction.create ∷ []) start ann_read ann_changed ann_id ann_id

abbrev denying : TypePolicy
denying = record no_type_policy {
  read = some (record {
    filter = none;
    predicates = [];
    env = [];
    ctx_param_name = text "ctx";
    entity_param_name = text "p";
    function = text "code";
  });
}

abbrev denied : EvalInstance EntityMap
denied = record start {
  read = some (record { function = text "code"; expr = none });
  value = blank;
}

deny_run :
    get_read_action runtime denying (record start { value = ann }) ≡ (denied, ok (some Action.deny))
unfolding get_read_action then_run eval_read_policy_expr
deny_run = refl

process_write-IsRefused_example :
    IsRefused (process_write runtime denying ann WriteAction.create start)
process_write-IsRefused_example =
    process_write-IsRefused runtime denying ann WriteAction.create start denied Action.deny deny_run
      refl
