-- ===== src/Policies/Labels.antt =====
-- server/src/policies.rs: the field policies that the labels of a type's fields give.
use chiselstrike.Prelude.{
  Str, Bool, true, false, not, ◌&&◌, ◌||◌, Option, none, some, List, [], ◌∷◌, lookup, str_eq, any,
  ◌≡◌, refl, arith, str_eq_iff, Option-cases, Bool-cases, inl, inr, sym, lookup-insert,
}
use chiselstrike.Types.{Field, ObjectType}
use chiselstrike.Policies.{
  Kind, Policy, FieldPolicies, PolicySystem, insert_name, apply_kind, apply_label, apply_labels,
  apply_fields, make_field_policies,
}

abbrev pub is_omit : Kind → Bool
is_omit Kind.omit = true
is_omit _ = false

abbrev pub is_match_login : Kind → Bool
is_match_login Kind.match_login = true
is_match_login _ = false

abbrev pub is_transform : Kind → Bool
is_transform (Kind.transform f) = true
is_transform _ = false

abbrev pub is_in : Str → List Str → Bool
is_in n ns = any (λ m. str_eq m n) ns

-- The label's policy is of the kind, and the path is not one of its exceptions.
abbrev pub has_policy : (Kind → Bool) → List (Str × Policy) → Str → Str → Bool
has_policy is_kind labels path label = elim (lookup label labels) [
  | none ↦ false
  | some policy ↦ not (Policy.except_uri policy path) && is_kind (Policy.kind policy)
]

-- A field of the type has the name, and a label of it such a policy.
abbrev pub has_field_policy : (Kind → Bool) → PolicySystem → Str → ObjectType → Str → Bool
has_field_policy is_kind s path ty n =
    any (λ f. str_eq (Field.name f) n && any (has_policy is_kind s.labels path) (Field.labels f))
      ty.fields

is_in_same :
    (m n : Str) (ns : List Str) → is_in m ns ≡ true → is_in n ns ≡ (str_eq m n || is_in n ns)
is_in_same m n ns h = elim (Bool-cases (str_eq m n)) [
  | inl same ↦ rw (same, sym ((str_eq_iff m n).0 same)) h
  | inr other ↦ rw other refl
]

insert_name-is_in :
    (m n : Str) (ns : List Str) → is_in n (insert_name m ns) ≡ (str_eq m n || is_in n ns)
unfolding insert_name
insert_name-is_in m n ns = elim (Bool-cases (is_in m ns)) [
  | inl old ↦ rw old (is_in_same m n ns old)
  | inr fresh ↦ rw fresh refl
]

abbrev pub is_some : {A : Type 0} → Option A → Bool
is_some none = false
is_some (some a) = true

-- What the field policies say of a field.
abbrev pub is_omitted : Str → FieldPolicies → Bool
is_omitted n p = is_in n p.omit

abbrev pub is_matched : Str → FieldPolicies → Bool
is_matched n p = is_in n p.match_login

abbrev pub is_transformed : Str → FieldPolicies → Bool
is_transformed n p = is_some (lookup n p.transforms)

abbrev Applies : (Kind → Bool) → (FieldPolicies → Bool) → Str → Type 0
Applies is_kind says n =
    (k : Kind) (m : Str) (p : FieldPolicies)
    → says (apply_kind m k p) ≡ ((str_eq m n && is_kind k) || says p)

apply_kind-is_omitted : (n : Str) → Applies is_omit (is_omitted n) n
unfolding apply_kind
apply_kind-is_omitted n (Kind.transform f) m p = ground arith
apply_kind-is_omitted n Kind.match_login m p = ground arith
apply_kind-is_omitted n Kind.omit m p = ground (arith, insert_name-is_in m n p.omit)

apply_kind-is_matched : (n : Str) → Applies is_match_login (is_matched n) n
unfolding apply_kind
apply_kind-is_matched n (Kind.transform f) m p = ground arith
apply_kind-is_matched n Kind.match_login m p = ground (arith, insert_name-is_in m n p.match_login)
apply_kind-is_matched n Kind.omit m p = ground arith

apply_kind-is_transformed : (n : Str) → Applies is_transform (is_transformed n) n
unfolding apply_kind
apply_kind-is_transformed n (Kind.transform f) m p =
    ground (arith, lookup-insert m n f p.transforms)
apply_kind-is_transformed n Kind.match_login m p = ground arith
apply_kind-is_transformed n Kind.omit m p = ground arith

module _ (is_kind : Kind → Bool) (says : FieldPolicies → Bool) (labels : List (Str × Policy))
    (path n : Str) (applies : Applies is_kind says n) where
  apply_label-says :
      (m label : Str) (p : FieldPolicies)
      → says (apply_label labels path m label p)
        ≡ ((str_eq m n && has_policy is_kind labels path label) || says p)
  unfolding apply_label
  apply_label-says m label p = elim (Option-cases (lookup label labels)) [
    | inl e ↦ rw (e, apply_label) (ground arith)
    | inr (policy, e) ↦ rw (e, apply_label) (ground (arith, applies (Policy.kind policy) m p))
  ]

  apply_labels-says :
      (m : Str) (ls : List Str) (p : FieldPolicies)
      → says (apply_labels labels path m ls p)
        ≡ ((str_eq m n && any (has_policy is_kind labels path) ls) || says p)
  unfolding apply_labels
  apply_labels-says m [] p = ground arith
  apply_labels-says m (l ∷ ls) p =
      ground (arith, apply_label-says m l p, apply_labels-says m ls (apply_label labels path m l p))

  apply_fields-says :
      (fs : List Field) (p : FieldPolicies)
      → says (apply_fields labels path fs p) ≡ (
          any
            (λ f. str_eq (Field.name f) n && any (has_policy is_kind labels path) (Field.labels f))
            fs
          || says p)
  unfolding apply_fields
  apply_fields-says [] p = refl
  apply_fields-says (f ∷ fs) p = ground (
    arith,
    apply_labels-says f.name f.labels p,
    apply_fields-says fs (apply_labels labels path f.name f.labels p),
  )

-- The field policies say of the name what the labels of the type's fields give.
abbrev pub FollowLabels : PolicySystem → Str → ObjectType → Str → FieldPolicies → Type 0
FollowLabels s path ty n p =
    (is_omitted n p ≡ has_field_policy is_omit s path ty n)
    × (is_matched n p ≡ has_field_policy is_match_login s path ty n)
    × (is_transformed n p ≡ has_field_policy is_transform s path ty n)

-- A field of the type is omitted, matched with the login, or transformed exactly if a field of this
-- name has a label with a policy of that kind whose exceptions do not include the path.
pub make_field_policies-FollowLabels :
    (s : PolicySystem) (user_id : Option Str) (path n : Str) (ty : ObjectType)
    → FollowLabels s path ty n (make_field_policies s user_id path ty)
unfolding make_field_policies lookup
make_field_policies-FollowLabels s user_id path n ty =
    let p : FieldPolicies = record {
      transforms = [];
      match_login = [];
      current_userid = user_id;
      omit = [];
    } in
    (
      ground (
        arith,
        apply_fields-says is_omit (is_omitted n) s.labels path n (apply_kind-is_omitted n) ty.fields
            p,
      ),
      ground (
        arith,
        apply_fields-says is_match_login (is_matched n) s.labels path n (apply_kind-is_matched n)
            ty.fields p,
      ),
      ground (
        arith,
        apply_fields-says is_transform (is_transformed n) s.labels path n
            (apply_kind-is_transformed n) ty.fields p,
      ),
    )
