-- ===== src/PolicyCompiler/Vars/Meaning.antt =====
-- chiselc/src/policies.rs: the values of JavaScript expressions and of the predicates made of them.
use chiselstrike.Prelude.{
  ℕ, zero, suc, ◌+◌, ◌/◌, ◌%◌, ◌≤◌, ◌<◌, ◌==◌, ==_iff, Str, str_eq, str_eq_iff, Bool, true, false,
  Option, none, some, [], ◌∷◌, ◌++◌, length, get_elem?, if◌then◌else◌, ◌≡◌, refl, arith, inl, inr,
  sym, subst, Option-cases, ap, ap₂, append-nil,
}
use chiselstrike.Json.{Json, Number}
use chiselstrike.PolicyCompiler.{LogicOp, Var, VarId, Predicate}
use chiselstrike.PolicyCompiler.Mapping.{get_elem?-append, get_elem?-last, get_elem?-bound}
use chiselstrike.PolicyCompiler.Vars.{
  Environment, var_eq, get_by_left, insert_var, UnaryOp, BinaryOp, Lit, JsExpr, op_of, lit_of,
  computed_prop,
}

-- How JavaScript computes: any values, with the operators that policies use.
pub record Semantics : Type 1 where
  pub V : Type 0
  pub ident : Str → V
  pub member : V → Str → V
  pub lit : Json → V
  pub bin : LogicOp → V → V → V
  pub bang : V → V
  pub truthy : V → Bool

abbrev pub opt_map : {A B : Type 0} → (A → B) → Option A → Option B
opt_map f none = none
opt_map f (some a) = some (f a)

abbrev pub opt_map2 : {A B C : Type 0} → (A → B → C) → Option A → Option B → Option C
opt_map2 f (some a) (some b) = some (f a b)
opt_map2 f _ _ = none

-- What an operator of JavaScript computes, if policies may use it.
abbrev pub computes : BinaryOp → Option LogicOp
computes BinaryOp.eq_eq = some LogicOp.eq
computes BinaryOp.not_eq = some LogicOp.neq
computes BinaryOp.gt = some LogicOp.gt
computes BinaryOp.gt_eq = some LogicOp.gte
computes BinaryOp.lt = some LogicOp.lt
computes BinaryOp.lt_eq = some LogicOp.lte
computes BinaryOp.logical_and = some LogicOp.and
computes BinaryOp.logical_or = some LogicOp.or
computes BinaryOp.other = none

-- The JSON value of a literal; the numbers that JSON does not have, with all bits of the exponent set,
-- are null.
abbrev pub literal : Lit → Option Json
literal Lit.null = some Json.null
literal (Lit.bool b) = some (Json.bool b)
literal (Lit.num bits) =
    if (bits / 4503599627370496) % 2048 == 2047
    then some Json.null
    else some (Json.number (Number.f64 bits))
literal (Lit.str s) = some (Json.string s)
literal _ = none

-- The name of a computed property: a text.
abbrev pub property_name : JsExpr → Option Str
property_name (JsExpr.lit (Lit.str name)) = some name
property_name _ = none

module _ (sem : Semantics) where
  -- The value of an expression, if the policies may use it.
  unfoldable pub js_value : JsExpr → Option sem.V
  js_value (JsExpr.unary UnaryOp.bang e) = opt_map sem.bang (js_value e)
  js_value (JsExpr.unary UnaryOp.other e) = none
  js_value (JsExpr.bin op l r) =
      let a = js_value l in
      let b = js_value r in elim (computes op) [ none ↦ none | some o ↦ opt_map2 (sem.bin o) a b ]
  js_value (JsExpr.lit l) = opt_map sem.lit (literal l)
  js_value (JsExpr.ident s) = some (sem.ident s)
  js_value (JsExpr.paren e) = js_value e
  js_value (JsExpr.member obj prop) = opt_map (λ x. sem.member x prop) (js_value obj)
  js_value (JsExpr.member_computed obj prop) =
      let x = js_value obj in
      elim (property_name prop) [ none ↦ none | some s ↦ opt_map (λ y. sem.member y s) x ]
  js_value (JsExpr.member_private obj) = none
  js_value JsExpr.other = none

  abbrev pub value_from : (VarId → Option sem.V) → Option Var → Option sem.V
  value_from object none = none
  value_from object (some (Var.ident s)) = some (sem.ident s)
  value_from object (some (Var.member obj prop)) = opt_map (λ x. sem.member x prop) (object obj)

  -- The value of a variable. The object of a member has a smaller id, so the id is enough fuel.
  unfoldable pub var_value : ℕ → Environment → VarId → Option sem.V
  var_value zero env id = none
  var_value (suc fuel) env id = value_from (λ obj. var_value fuel env obj) (get_elem? env id)

  unfoldable pub pred_value : Environment → Predicate → Option sem.V
  pred_value env (Predicate.bin op l r) =
      opt_map2 (sem.bin op) (pred_value env l) (pred_value env r)
  pred_value env (Predicate.not p) = opt_map sem.bang (pred_value env p)
  pred_value env (Predicate.lit value) = some (sem.lit value)
  pred_value env (Predicate.var id) = var_value (suc id) env id

pub op_of-computes : (op : BinaryOp) → op_of op ≡ computes op
op_of-computes BinaryOp.eq_eq = refl
op_of-computes BinaryOp.not_eq = refl
op_of-computes BinaryOp.gt = refl
op_of-computes BinaryOp.gt_eq = refl
op_of-computes BinaryOp.lt = refl
op_of-computes BinaryOp.lt_eq = refl
op_of-computes BinaryOp.logical_and = refl
op_of-computes BinaryOp.logical_or = refl
op_of-computes BinaryOp.other = refl

pub lit_of-literal : (l : Lit) → lit_of l ≡ literal l
lit_of-literal (Lit.num bits) = ground arith
lit_of-literal _ = refl

pub computed_prop-property_name : (e : JsExpr) → computed_prop e ≡ property_name e
computed_prop-property_name (JsExpr.lit (Lit.str s)) = refl
computed_prop-property_name _ = refl

-- The object of every member comes before it.
abbrev pub IsEarlier : Var → ℕ → Type 0
IsEarlier (Var.ident s) i = Unit
IsEarlier (Var.member obj prop) i = obj < i

abbrev pub IsOrdered : ℕ → Environment → Type 0
IsOrdered i [] = Unit
IsOrdered i (var ∷ vars) = IsEarlier var i × IsOrdered (suc i) vars

var_eq-eq : (x y : Var) → var_eq x y ≡ true → x ≡ y
unfolding var_eq
var_eq-eq (Var.ident s) (Var.ident t) h = ap Var.ident ((str_eq_iff s t).0 h)
var_eq-eq (Var.ident s) (Var.member p t) h = cc
var_eq-eq (Var.member o s) (Var.ident t) h = cc
var_eq-eq (Var.member o s) (Var.member p t) h =
    let eo : (o == p) ≡ true = ground (arith, h) in
    let es : str_eq s t ≡ true = ground (arith, h) in
    ap₂ Var.member ((==_iff o p).0 eo) ((str_eq_iff s t).0 es)

get_by_left-get_elem? :
    (var : Var) (env : Environment) {i : ℕ}
    → get_by_left var env ≡ some i
    → get_elem? env i ≡ some var
unfolding get_by_left
get_by_left-get_elem? var [] h = cc
get_by_left-get_elem? var (x ∷ xs) h =
    found (var_eq x var) (get_by_left var xs) (var_eq-eq x var)
      (λ j e. get_by_left-get_elem? var xs e) h
  where
    found :
        (b : Bool) (o : Option ℕ) {i : ℕ}
        → (b ≡ true → x ≡ var)
        → ((j : ℕ) → o ≡ some j → get_elem? xs j ≡ some var)
        → (if b then some 0 else elim o [ none ↦ none | some j ↦ some (suc j) ]) ≡ some i
        → get_elem? (x ∷ xs) i ≡ some var
    found true o {i} e rec h = let ei : 0 ≡ i = cc h in rw (sym ei) (ap some (e refl))
    found false none e rec h = cc
    found false (some j) {i} e rec h = let ei : suc j ≡ i = cc h in rw (sym ei) (rec j refl)

IsOrdered-append :
    (i : ℕ) (env : Environment) (var : Var)
    → IsOrdered i env
    → IsEarlier var (length env + i)
    → IsOrdered i (env ++ var ∷ [])
IsOrdered-append i [] var h e = (subst (IsEarlier var) (omega arith) e, tt)
IsOrdered-append i (x ∷ xs) var h e =
    (h.0, IsOrdered-append (suc i) xs var h.1 (subst (IsEarlier var) (omega arith) e))

pub IsOrdered-get_elem? :
    (i : ℕ) (env : Environment) (n : ℕ) {var : Var}
    → IsOrdered i env
    → get_elem? env n ≡ some var
    → IsEarlier var (n + i)
IsOrdered-get_elem? i [] n h e = cc
IsOrdered-get_elem? i (x ∷ xs) zero {var} h e =
    let ex : x ≡ var = cc e in
    subst (λ y. IsEarlier y (0 + i)) ex (subst (IsEarlier x) (omega arith) h.0)
IsOrdered-get_elem? i (x ∷ xs) (suc n) {var} h e =
    subst (IsEarlier var) (omega arith) (IsOrdered-get_elem? (suc i) xs n h.1 e)

pub opt_map-eq-some :
    {A B : Type 0} (f : A → B) (o : Option A) {b : B}
    → opt_map f o ≡ some b
    → (a : A) × (o ≡ some a) × (f a ≡ b)
opt_map-eq-some f none h = cc
opt_map-eq-some f (some a) h = (a, refl, cc h)

pub opt_map2-eq-some :
    {A B C : Type 0} (f : A → B → C) (o : Option A) (p : Option B) {c : C}
    → opt_map2 f o p ≡ some c
    → (a : A) × (b : B) × (o ≡ some a) × (p ≡ some b) × (f a b ≡ c)
opt_map2-eq-some f none p h = cc
opt_map2-eq-some f (some a) none h = cc
opt_map2-eq-some f (some a) (some b) h = (a, b, refl, refl, cc h)

module _ (sem : Semantics) where
  value_from-more :
      (object more : VarId → Option sem.V) (o : Option Var) {x : sem.V}
      → ((id : VarId) (y : sem.V) → object id ≡ some y → more id ≡ some y)
      → value_from sem object o ≡ some x
      → value_from sem more o ≡ some x
  value_from-more object more none step h = cc
  value_from-more object more (some (Var.ident s)) step h = h
  value_from-more object more (some (Var.member obj prop)) step h =
      let (y, ey, ex) = opt_map-eq-some (λ x. sem.member x prop) (object obj) h in
      rw (step obj y ey) (ap some ex)

  -- A variable keeps its value in a longer environment and with more fuel.
  pub var_value-append :
      (n m : ℕ) (env ext : Environment) (id : VarId) {x : sem.V}
      → n ≤ m
      → var_value sem n env id ≡ some x
      → var_value sem m (env ++ ext) id ≡ some x
  unfolding var_value
  var_value-append zero m env ext id le h = cc
  var_value-append (suc n) zero env ext id le h = let no : ⊥ = omega (arith, le) in elim no [ ]
  var_value-append (suc n) (suc m) env ext id {x} le h = elim (Option-cases (get_elem? env id)) [
    | inl e ↦
        let no : none ≡ some x =
          subst (λ o. value_from sem (λ obj. var_value sem n env obj) o ≡ some x) e h in
        cc no
    | inr (var, e) ↦ rw (get_elem?-append env ext id e) (
        value_from-more (λ obj. var_value sem n env obj) (λ obj. var_value sem m (env ++ ext) obj)
          (some var) (λ obj y k. var_value-append n m env ext obj (omega (arith, le)) k)
          (subst (λ o. value_from sem (λ obj. var_value sem n env obj) o ≡ some x) e h))
  ]

  pub var_value-bound :
      (n : ℕ) (env : Environment) (id : VarId) {x : sem.V}
      → var_value sem (suc n) env id ≡ some x
      → id < length env
  unfolding var_value
  var_value-bound n env id {x} h = elim (Option-cases (get_elem? env id)) [
    | inl e ↦
        let no : none ≡ some x =
          subst (λ o. value_from sem (λ obj. var_value sem n env obj) o ≡ some x) e h in
        cc no
    | inr (var, e) ↦ get_elem?-bound env id e
  ]

  pub pred_value-append :
      (env ext : Environment) (p : Predicate) {x : sem.V}
      → pred_value sem env p ≡ some x
      → pred_value sem (env ++ ext) p ≡ some x
  unfolding pred_value
  pred_value-append env ext (Predicate.bin op l r) h =
      let (a, b, ea, eb, e) =
        opt_map2-eq-some (sem.bin op) (pred_value sem env l) (pred_value sem env r) h in
      rw (pred_value-append env ext l ea, pred_value-append env ext r eb) (ap some e)
  pred_value-append env ext (Predicate.not p) h =
      let (a, ea, e) = opt_map-eq-some sem.bang (pred_value sem env p) h in
      rw (pred_value-append env ext p ea) (ap some e)
  pred_value-append env ext (Predicate.lit value) h = h
  pred_value-append env ext (Predicate.var id) h =
      var_value-append (suc id) (suc id) env ext id (omega arith) h

-- What an insertion gives: a longer environment that has the variable at the id.
abbrev pub Inserted : Var → Environment → VarId × Environment → Type 0
Inserted var env out =
    IsOrdered 0 out.1
    × ((ext : Environment) × (out.1 ≡ env ++ ext))
    × (get_elem? out.1 out.0 ≡ some var)

pub insert_var-Inserted :
    (var : Var) (env : Environment)
    → IsOrdered 0 env
    → IsEarlier var (length env)
    → Inserted var env (insert_var var env)
unfolding insert_var
insert_var-Inserted var env h earlier = elim (Option-cases (get_by_left var env)) [
  | inl e ↦
      rw (e, insert_var)
        (
          IsOrdered-append 0 env var h (subst (IsEarlier var) (omega arith) earlier),
          (var ∷ [], refl),
          get_elem?-last env var,
        )
  | inr (i, e) ↦ rw (e, insert_var) (h, ([], sym (append-nil env)), get_by_left-get_elem? var env e)
]
