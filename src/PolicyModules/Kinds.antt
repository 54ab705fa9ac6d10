-- ===== src/PolicyModules/Kinds.antt =====
-- chiselc/src/policies.rs, server/src/policy/engine.rs: which kind of policy has which name.
use chiselstrike.Prelude.{
  ◌==◌, Bool, true, false, Option, none, some, List, [], ◌∷◌, All, if◌then◌else◌, ok, ok_or,
  >>=-eq-ok, ◌≡◌, refl, subst, Bool-cases, inl, inr,
}
use chiselstrike.PolicyModules.{
  Key, PolicyName, Policy, Property, ModuleItem, Policies, insert_policy, is_filter_name,
  filter_body, transform_body, body_of, add_named, add_property, add_properties, parse_items, parse,
  discriminant, Simplifier, Value, arrow_failed, lift, from_arrow, name_from_str,
}

-- Filter names have filter policies and the others transform policies.
-- The names whose policies decide whether an entity may be read, created or updated.
abbrev pub IsDecisive : PolicyName → Type 0
IsDecisive PolicyName.read = Unit
IsDecisive PolicyName.create = Unit
IsDecisive PolicyName.update = Unit
IsDecisive PolicyName.on_read = ⊥
IsDecisive PolicyName.on_create = ⊥
IsDecisive PolicyName.on_update = ⊥
IsDecisive PolicyName.geo_loc = ⊥

abbrev pub IsKind : PolicyName → Policy → Type 0
IsKind n (Policy.filter f) = IsDecisive n
IsKind n (Policy.transform code) = IsDecisive n → ⊥

abbrev pub AllKinds : Policies → Type 0
AllKinds ps = All (λ e. IsKind e.0 e.1) ps

is_filter_name-true : (n : PolicyName) → is_filter_name n ≡ true → IsDecisive n
is_filter_name-true PolicyName.read h = tt
is_filter_name-true PolicyName.create h = tt
is_filter_name-true PolicyName.update h = tt
is_filter_name-true PolicyName.on_read h = cc
is_filter_name-true PolicyName.on_create h = cc
is_filter_name-true PolicyName.on_update h = cc
is_filter_name-true PolicyName.geo_loc h = cc

is_filter_name-false : (n : PolicyName) → is_filter_name n ≡ false → IsDecisive n → ⊥
is_filter_name-false PolicyName.read h d = cc h
is_filter_name-false PolicyName.create h d = cc h
is_filter_name-false PolicyName.update h d = cc h
is_filter_name-false PolicyName.on_read h d = d
is_filter_name-false PolicyName.on_create h d = d
is_filter_name-false PolicyName.on_update h d = d
is_filter_name-false PolicyName.geo_loc h d = d

insert_policy-AllKinds :
    (n : PolicyName) (p : Policy) (ps : Policies)
    → IsKind n p
    → AllKinds ps
    → AllKinds (insert_policy n p ps)
unfolding insert_policy
insert_policy-AllKinds n p [] k h = (k, tt)
insert_policy-AllKinds n p ((m, q) ∷ ps) k h =
    elim (Bool-cases (discriminant m == discriminant n)) [
      | inl same ↦ rw (same, insert_policy) (k, h.1)
      | inr fresh ↦ rw (fresh, insert_policy) (h.0, insert_policy-AllKinds n p ps k h.1)
    ]

filter_body-IsKind :
    (s : Simplifier) (n : PolicyName) (value : Value) {p : Policy}
    → is_filter_name n ≡ true
    → filter_body s value ≡ ok p
    → IsKind n p
unfolding filter_body
filter_body-IsKind s n (Value.arrow func code) {p} e h =
    let (f, ef, h1) = >>=-eq-ok (ok_or func arrow_failed) _ h in
    let (q, eq, h2) = >>=-eq-ok (lift (from_arrow s f)) _ h1 in
    let ep : Policy.filter q ≡ p = cc h2 in subst (IsKind n) ep (is_filter_name-true n e)
filter_body-IsKind s n Value.other e h = cc

transform_body-IsKind :
    (n : PolicyName) (value : Value) {p : Policy}
    → is_filter_name n ≡ false
    → transform_body value ≡ ok p
    → IsKind n p
unfolding transform_body
transform_body-IsKind n (Value.arrow func code) {p} e h =
    let (c, ec, h1) = >>=-eq-ok (ok_or code arrow_failed) _ h in
    let ep : Policy.transform c ≡ p = cc h1 in subst (IsKind n) ep (is_filter_name-false n e)
transform_body-IsKind n Value.other e h = cc

body_of-IsKind :
    (s : Simplifier) (n : PolicyName) (value : Value) {p : Policy}
    → body_of s n value ≡ ok p
    → IsKind n p
unfolding body_of
body_of-IsKind s n value h = chosen (is_filter_name n) refl h
  where
    chosen :
        (b : Bool) {p : Policy}
        → is_filter_name n ≡ b
        → (if b then filter_body s value else transform_body value) ≡ ok p
        → IsKind n p
    chosen true e k = filter_body-IsKind s n value e k
    chosen false e k = transform_body-IsKind n value e k

add_named-AllKinds :
    (s : Simplifier) (o : Option PolicyName) (value : Value) (ps : Policies) {qs : Policies}
    → AllKinds ps
    → add_named s o value ps ≡ ok qs
    → AllKinds qs
unfolding add_named
add_named-AllKinds s none value ps {qs} h e = let eq : ps ≡ qs = cc e in subst AllKinds eq h
add_named-AllKinds s (some n) value ps {qs} h e =
    let (p, ep, e1) = >>=-eq-ok (body_of s n value) _ e in
    let eq : insert_policy n p ps ≡ qs = cc e1 in
    subst AllKinds eq (insert_policy-AllKinds n p ps (body_of-IsKind s n value ep) h)

add_property-AllKinds :
    (s : Simplifier) (prop : Property) (ps : Policies) {qs : Policies}
    → AllKinds ps
    → add_property s prop ps ≡ ok qs
    → AllKinds qs
unfolding add_property
add_property-AllKinds s (Property.key_value (Key.ident name) value) ps h e =
    add_named-AllKinds s (name_from_str name) value ps h e
add_property-AllKinds s (Property.key_value Key.other value) ps h e = cc
add_property-AllKinds s Property.other_prop ps h e = cc
add_property-AllKinds s Property.spread ps h e = cc

add_properties-AllKinds :
    (s : Simplifier) (props : List Property) (ps : Policies) {qs : Policies}
    → AllKinds ps
    → add_properties s props ps ≡ ok qs
    → AllKinds qs
unfolding add_properties
add_properties-AllKinds s [] ps {qs} h e = let eq : ps ≡ qs = cc e in subst AllKinds eq h
add_properties-AllKinds s (p ∷ props) ps h e =
    let (rs, er, e1) = >>=-eq-ok (add_property s p ps) _ e in
    add_properties-AllKinds s props rs (add_property-AllKinds s p ps h er) e1

parse_items-AllKinds :
    (s : Simplifier) (items : List ModuleItem) (ps : Policies) {qs : Policies}
    → AllKinds ps
    → parse_items s items ps ≡ ok qs
    → AllKinds qs
unfolding parse_items
parse_items-AllKinds s [] ps {qs} h e = let eq : ps ≡ qs = cc e in subst AllKinds eq h
parse_items-AllKinds s (ModuleItem.default_object props ∷ items) ps h e =
    let (rs, er, e1) = >>=-eq-ok (add_properties s props ps) _ e in
    parse_items-AllKinds s items rs (add_properties-AllKinds s props ps h er) e1
parse_items-AllKinds s (ModuleItem.default_other ∷ items) ps h e = cc
parse_items-AllKinds s (ModuleItem.other_decl ∷ items) ps h e = parse_items-AllKinds s items ps h e
parse_items-AllKinds s (ModuleItem.stmt ∷ items) ps h e = parse_items-AllKinds s items ps h e

-- If a module is parsed, the policies named read, create and update are filters and all others are
-- transforms, so that the engine can take a read policy for a filter.
pub parse-AllKinds :
    (s : Simplifier) (items : List ModuleItem) {ps : Policies} → parse s items ≡ ok ps → AllKinds ps
unfolding parse
parse-AllKinds s items e = parse_items-AllKinds s items [] tt e
