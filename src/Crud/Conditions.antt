-- ===== src/Crud/Conditions.antt =====
-- The conditions that server/src/datastore/crud.rs makes of the parameters of a deletion mean what the
-- parameters ask.
use chiselstrike.Crud.Asked.{
  asked_operator, asked_value, asked_field, asked_parts, asked_json, asked,
}
use chiselstrike.Prelude.{
  ℕ, ◌==◌, Str, text, str_eq, Bool, true, false, Option, none, some, List, [], ◌∷◌, ◌++◌, Result,
  ok, err, ok_or, ◌>>=◌, >>=-eq-ok, if◌then◌else◌, ◌≡◌, refl, sym, ap, ◌∙◌, subst, append_assoc,
  append-nil,
}
use chiselstrike.Json.{Json}
use chiselstrike.Expr.{FilterError, BinaryOp, Expr, Value, value, property, parameter, binary}
use chiselstrike.Expr.Eval.{Truth, holds, Row, Compares, truth, truth-compares, eval}
use chiselstrike.Filter.{to_expr}
use chiselstrike.Filter.Sound.{to_expr_sound}
use chiselstrike.Filter.Arms.{Reads, Reads-first, Reads-property}
use chiselstrike.Types.{Entity, Field, FieldType, get_field, object_type}
use chiselstrike.TypeSystem.{TypeSystem, get as type_get}
use chiselstrike.Crud.{
  Codec, CrudError, convert_operator, param_value, param_parts, split_char, filter_from_param,
  make_property_chain, chain_loop, chain_step, lift_err, type_error, no_such_field,
  unsupported_operator, bad_filter_json, bad_filter, converted, parse_bool,
}
use chiselstrike.Crud.Query.{json_filter, delete_field}

convert_operator-asked :
    (o : Option Str) (op : BinaryOp)
    → convert_operator o ≡ ok op
    → (asked_operator o ≡ some op) × Compares op
unfolding convert_operator
convert_operator-asked none op h =
    let same : BinaryOp.eq ≡ op = cc h in
    subst (λ x. (some BinaryOp.eq ≡ some x) × Compares x) same (refl, tt)
convert_operator-asked (some s) op h =
    chosen (str_eq s (text "ne")) (str_eq s (text "lt")) (str_eq s (text "lte"))
      (str_eq s (text "gt")) (str_eq s (text "gte")) (str_eq s (text "like"))
      (str_eq s (text "unlike")) h
  where
    here :
        (x : BinaryOp) (b : BinaryOp)
        → Compares x
        → ◌≡◌ {A = Result CrudError BinaryOp} (ok x) (ok b)
        → (some x ≡ some b) × Compares b
    here x b p k = let same : x ≡ b = cc k in (ap some same, subst Compares same p)

    chosen :
        (a b c d e f g : Bool)
        → (if a
            then ok BinaryOp.not_eq
            else if b
            then ok BinaryOp.lt
            else if c
            then ok BinaryOp.lt_eq
            else if d
            then ok BinaryOp.gt
            else if e
            then ok BinaryOp.gt_eq
            else if f
            then ok BinaryOp.like
            else if g
            then ok BinaryOp.not_like
            else err (unsupported_operator s))
          ≡ ok op
        → ((if a
              then some BinaryOp.not_eq
              else if b
              then some BinaryOp.lt
              else if c
              then some BinaryOp.lt_eq
              else if d
              then some BinaryOp.gt
              else if e
              then some BinaryOp.gt_eq
              else if f
              then some BinaryOp.like
              else if g
              then some BinaryOp.not_like
              else none)
            ≡ some op)
          × Compares op
    chosen true b c d e f g k = here BinaryOp.not_eq op tt k
    chosen false true c d e f g k = here BinaryOp.lt op tt k
    chosen false false true d e f g k = here BinaryOp.lt_eq op tt k
    chosen false false false true e f g k = here BinaryOp.gt op tt k
    chosen false false false false true f g k = here BinaryOp.gt_eq op tt k
    chosen false false false false false true g k = here BinaryOp.like op tt k
    chosen false false false false false false true k = here BinaryOp.not_like op tt k
    chosen false false false false false false false k = cc k

number_asked :
    (o : Option ℕ) {x : Value}
    → converted Value.f64 o ≡ ok x
    → (elim o [ none ↦ none | some y ↦ some (Value.f64 y) ]) ≡ some x
number_asked none k = cc k
number_asked (some y) k = ap some (cc k)

param_value-asked :
    (codec : Codec) (ty : FieldType) (v : Str) (x : Value)
    → param_value codec ty v ≡ ok x
    → asked_value codec ty v ≡ some x
unfolding param_value parse_bool
param_value-asked codec FieldType.string v x h = ap some (cc h)
param_value-asked codec (FieldType.entity_id n) v x h = ap some (cc h)
param_value-asked codec FieldType.float v x h = number_asked (codec.parse_f64 v) h
param_value-asked codec FieldType.js_date v x h = number_asked (codec.parse_f64 v) h
param_value-asked codec FieldType.boolean v x h =
    read (str_eq v (text "true")) (str_eq v (text "false")) h
  where
    read :
        (a b : Bool)
        → converted Value.bool (if a then some true else if b then some false else none) ≡ ok x
        → (if a then some (Value.bool true) else if b then some (Value.bool false) else none)
          ≡ some x
    read true b k = ap some (cc k)
    read false true k = ap some (cc k)
    read false false k = cc k
param_value-asked codec FieldType.array_buffer v x h = cc h
param_value-asked codec (FieldType.entity e) v x h = cc h
param_value-asked codec (FieldType.array t) v x h = cc h

module _ (r : Row) (ts : TypeSystem) where
  chain_step-is :
      (name : Str) (chain : Expr) (ty : FieldType) {next : Expr × FieldType}
      → chain_step ts name chain ty ≡ ok next
      → next.0 ≡ property name chain
  unfolding chain_step
  chain_step-is name chain (FieldType.entity e) {next} h = found (get_field (object_type e) name) h
    where
      found :
          (o : Option Field)
          → (elim o [
            | none ↦ err (no_such_field name)
            | some field ↦ do
              t ← lift_err type_error (type_get ts field.type_id)
              ok (property name chain, t)
          ])
            ≡ ok next
          → next.0 ≡ property name chain
      found none k = cc k
      found (some field) k =
          let (t, et, k1) = >>=-eq-ok (lift_err type_error (type_get ts field.type_id)) _ k in
          sym (cc k1)
  chain_step-is name chain FieldType.string h = cc h
  chain_step-is name chain FieldType.float h = cc h
  chain_step-is name chain FieldType.boolean h = cc h
  chain_step-is name chain FieldType.js_date h = cc h
  chain_step-is name chain FieldType.array_buffer h = cc h
  chain_step-is name chain (FieldType.entity_id n) h = cc h
  chain_step-is name chain (FieldType.array t) h = cc h

  -- The chain of one more field and of the fields after it.
  chain_loop-Reads :
      (names : List Str) (chain : Expr) (ty : FieldType) (path : List Str) {out : Expr × FieldType}
      → Reads r chain path
      → chain_loop ts names (chain, ty) ≡ ok out
      → Reads r out.0 (path ++ names)
  unfolding chain_loop
  chain_loop-Reads [] chain ty path {out} reads h =
      let same : chain ≡ out.0 = cc h in
      subst (λ p. Reads r out.0 p) (sym (append-nil path)) (subst (λ c. Reads r c path) same reads)
  chain_loop-Reads (name ∷ names) chain ty path {out} reads h =
      let (next, en, h1) = >>=-eq-ok (chain_step ts name chain ty) _ h in
      let step : Reads r next.0 (path ++ name ∷ []) =
        subst (λ c. Reads r c (path ++ name ∷ [])) (sym (chain_step-is name chain ty en))
          (Reads-property r chain path name reads) in
      subst (λ p. Reads r out.0 p) (append_assoc path (name ∷ []) names)
        (chain_loop-Reads names next.0 next.1 (path ++ name ∷ []) step h1)

  make_property_chain-Reads :
      (base : Entity) (fields : List Str) {out : Expr × FieldType}
      → make_property_chain base fields ts ≡ ok out
      → Reads r out.0 fields
  unfolding make_property_chain chain_loop
  make_property_chain-Reads base [] h = cc h
  make_property_chain-Reads base (name ∷ names) {out} h =
      let (next, en, h1) =
        >>=-eq-ok (chain_step ts name (parameter 0) (FieldType.entity base)) _ h in
      chain_loop-Reads names next.0 next.1 (name ∷ [])
        (subst (λ c. Reads r c (name ∷ []))
          (sym (chain_step-is name (parameter 0) (FieldType.entity base) en)) (Reads-first r name))
        h1

module _ (codec : Codec) (base : Entity) (ts : TypeSystem) (r : Row) where
  compared_field :
      (fields : List Str) (op_text : Option Str) (v : Str) (op : BinaryOp) (out : Expr × FieldType)
      (x : Value)
      → asked_operator op_text ≡ some op
      → Compares op
      → make_property_chain base fields ts ≡ ok out
      → asked_value codec out.1 v ≡ some x
      → Reads r out.0 fields
      → truth r (binary op out.0 (value x)) ≡ asked_field codec base ts r fields op_text v
  unfolding eval
  compared_field fields op_text v op out x named compares ec ex reads =
      rw (ec, asked_field, named, ex)
        (truth-compares r op out.0 (value x) compares ∙ ap (λ y. r.compares op y x) reads.eval_lem)

  field_asked :
      (fields : List Str) (op_text : Option Str) (v : Str) {e : Expr}
      → (convert_operator op_text >>= λ op. make_property_chain base fields ts >>= λ out.
          param_value codec out.1 v >>= λ x. ok (binary op out.0 (value x)))
        ≡ ok e
      → truth r e ≡ asked_field codec base ts r fields op_text v
  field_asked fields op_text v {e} h =
      let (op, eo, h1) = >>=-eq-ok (convert_operator op_text) _ h in
      let (out, ec, h2) = >>=-eq-ok (make_property_chain base fields ts) _ h1 in
      let (x, ex, h3) = >>=-eq-ok (param_value codec out.1 v) _ h2 in
      let same : binary op out.0 (value x) ≡ e = cc h3 in
      let (named, compares) = convert_operator-asked op_text op eo in
      let reads = make_property_chain-Reads r ts base fields ec in
      subst (λ d. truth r d ≡ asked_field codec base ts r fields op_text v) same
        (compared_field fields op_text v op out x named compares ec
          (param_value-asked codec out.1 v x ex) reads)

  parts_asked :
      (parts : List Str) (v : Str) {e : Expr}
      → (param_parts parts >>= λ fo. convert_operator fo.1 >>= λ op.
          make_property_chain base fo.0 ts >>= λ out.
          param_value codec out.1 v >>= λ x. ok (binary op out.0 (value x)))
        ≡ ok e
      → truth r e ≡ asked_parts codec base ts r parts v
  unfolding param_parts
  parts_asked [] v h = cc h
  parts_asked (fields ∷ []) v h = field_asked (split_char b'.' fields) none v h
  parts_asked (fields ∷ op ∷ []) v h = field_asked (split_char b'.' fields) (some op) v h
  parts_asked (fields ∷ op ∷ other ∷ rest) v h = cc h

  json_asked :
      (o : Option Json) {e : Expr}
      → (ok_or o bad_filter_json >>= λ json. lift_err bad_filter (to_expr json)) ≡ ok e
      → truth r e ≡ asked_json codec base ts r o
  json_asked none h = cc h
  json_asked (some json) {e} h = to_expr_sound r json e (lifted (to_expr json) h)
    where
      lifted : (m : Result FilterError Expr) → lift_err bad_filter m ≡ ok e → m ≡ ok e
      lifted (ok d) k = cc k
      lifted (err d) k = cc k

  -- What an optional condition asks.
  abbrev pub means : Option Expr → Truth
  means none = holds
  means (some e) = truth r e

  optional :
      (m : Result CrudError Expr) (t : Truth) {x : Option Expr}
      → ((e : Expr) → m ≡ ok e → truth r e ≡ t)
      → (m >>= λ e. ok (some e)) ≡ ok x
      → means x ≡ t
  optional m t {x} f h =
      let (e, ee, h1) = >>=-eq-ok m _ h in
      let same : some e ≡ x = cc h1 in subst (λ y. means y ≡ t) same (f e ee)

  -- The condition that the source makes of a parameter is what the parameter asks.
  pub delete_field-asked :
      (key v : Str) (x : Option Expr)
      → delete_field codec base ts key v ≡ ok x
      → means x ≡ asked codec base ts r key v
  unfolding delete_field asked filter_from_param json_filter
  delete_field-asked [] v x h = let same : none ≡ x = cc h in ap means (sym same)
  delete_field-asked (c ∷ name) v x h = arms (c == b'.') (str_eq (c ∷ name) (text "filter")) h
    where
      arms :
          (a b : Bool)
          → (if a
              then (filter_from_param codec base name v ts >>= λ e. ok (some e))
              else if b
              then (json_filter codec v >>= λ e. ok (some e))
              else ok none)
            ≡ ok x
          → means x ≡ (
              if a
              then asked_parts codec base ts r (split_char b'~' name) v
              else if b
              then asked_json codec base ts r (codec.parse_json v)
              else holds)
      arms true b k =
          optional (filter_from_param codec base name v ts)
            (asked_parts codec base ts r (split_char b'~' name) v)
            (λ e. parts_asked (split_char b'~' name) v) k
      arms false true k =
          optional (json_filter codec v) (asked_json codec base ts r (codec.parse_json v))
            (λ e. json_asked (codec.parse_json v)) k
      arms false false k = let same : none ≡ x = cc k in ap means (sym same)
