-- ===== src/Apply/Order/Positions.antt =====
-- The positions of sorted names in the request: within it, different, and of types with these names.
use chiselstrike.Prelude.{
  ap₂, ℕ, zero, suc, ◌<◌, ◌==◌, ==_iff, ◌≡◌, refl, sym, ap, ◌∙◌, subst, Str, str_eq, str_eq_refl,
  Bool, Bool-cases, true, false, ◌||◌, inl, inr, some, List, [], ◌∷◌, length, get_elem?, lookup,
  All, ok, ok_or, ok_or-eq-ok, >>=-eq-ok, arith,
}
use chiselstrike.Apply.{unknown_type, AddTypeRequest}
use chiselstrike.Apply.Sort.{has, IsDistinct, gather, is_in, AreDistinct, positions_of}
use chiselstrike.Apply.Plan.{names_of}
use chiselstrike.Apply.Order.{Points}

get_elem?-lt :
    (types : List AddTypeRequest) (p : ℕ) (t : AddTypeRequest)
    → get_elem? types p ≡ some t
    → p < length types
get_elem?-lt [] p t e = cc
get_elem?-lt (u ∷ us) zero t e = omega arith
get_elem?-lt (u ∷ us) (suc p) t e = omega (arith, get_elem?-lt us p t e)

pub gather-cons :
    (types : List AddTypeRequest) (p : ℕ) (ps : List ℕ) (t : AddTypeRequest)
    → get_elem? types p ≡ some t
    → gather (p ∷ ps) types ≡ t ∷ gather ps types
gather-cons types p ps t e = rw (e, gather) refl

or_right : (a b : Bool) → b ≡ true → (a || b) ≡ true
or_right true b h = refl
or_right false b h = h

module _ (types : List AddTypeRequest) (ty_pos : List (Str × ℕ))
    (points : Points types ty_pos) where
  -- What the positions of a list of names are.
  pub record Located (names : List Str) (order : List ℕ) : Type 0 where
    pub bounded : All (λ i. i < length types) order
    pub named : names_of (gather order types) ≡ names
    pub measured : length (gather order types) ≡ length order

  pub positions_of-Located :
      (names : List Str) (order : List ℕ)
      → positions_of ty_pos names ≡ ok order
      → Located names order
  unfolding positions_of
  positions_of-Located [] order h =
      let same : [] ≡ order = cc h in
      subst (Located []) same (record { bounded = tt; named = refl; measured = refl })
  positions_of-Located (n ∷ ns) order h =
      let (p, ep, h1) = >>=-eq-ok (ok_or (lookup n ty_pos) (unknown_type n)) _ h in
      let (ps, es, h2) = >>=-eq-ok (positions_of ty_pos ns) _ h1 in
      let same : p ∷ ps ≡ order = cc h2 in
      subst (Located (n ∷ ns)) same (
        located_cons n ns p ps (points n p (ok_or-eq-ok (lookup n ty_pos) _ ep))
          (positions_of-Located ns ps es))
    where
      located_cons :
          (n : Str) (ns : List Str) (p : ℕ) (ps : List ℕ)
          → (t : AddTypeRequest) × (get_elem? types p ≡ some t) × (t.name ≡ n)
          → Located ns ps
          → Located (n ∷ ns) (p ∷ ps)
      located_cons n ns p ps (t, et, en) l = record {
        bounded = (get_elem?-lt types p t et, l.bounded);
        named = rw (gather-cons types p ps t et) (ap₂ (λ a b. a ∷ b) en l.named);
        measured = rw (gather-cons types p ps t et) (ap suc l.measured);
      }

  -- The step of that at one more name.
  has_cons :
      (n : Str) (ns : List Str) (q : ℕ) (qs : List ℕ) (p : ℕ) (t u : AddTypeRequest)
      → get_elem? types q ≡ some u
      → u.name ≡ n
      → get_elem? types p ≡ some t
      → ((p == q) || is_in p qs) ≡ true
      → (is_in p qs ≡ true → has t.name ns ≡ true)
      → has t.name (n ∷ ns) ≡ true
  has_cons n ns q qs p t u eu en et i k = elim (Bool-cases (p == q)) [
    | inl same ↦
        let e : t ≡ u = cc (et, eu, (==_iff p q).0 same) in
        rw (ap (λ (x : AddTypeRequest). x.name) e ∙ en) (rw (str_eq_refl n) refl)
    | inr other ↦
        or_right (str_eq t.name n) (has t.name ns)
          (k (subst (λ b. (b || is_in p qs) ≡ true) other i))
  ]

  -- A position among those of the names holds a type with one of the names.
  is_in-has :
      (names : List Str) (order : List ℕ) (p : ℕ) (t : AddTypeRequest)
      → positions_of ty_pos names ≡ ok order
      → get_elem? types p ≡ some t
      → is_in p order ≡ true
      → has t.name names ≡ true
  unfolding positions_of
  is_in-has [] order p t h et i =
      let same : [] ≡ order = cc h in absurd (cc (subst (λ o. is_in p o ≡ true) (sym same) i))
  is_in-has (n ∷ ns) order p t h et i =
      let (q, eq, h1) = >>=-eq-ok (ok_or (lookup n ty_pos) (unknown_type n)) _ h in
      let (qs, es, h2) = >>=-eq-ok (positions_of ty_pos ns) _ h1 in
      let same : q ∷ qs ≡ order = cc h2 in
      let (u, eu, en) = points n q (ok_or-eq-ok (lookup n ty_pos) _ eq) in
      has_cons n ns q qs p t u eu en et (subst (λ o. is_in p o ≡ true) (sym same) i)
        (λ k. is_in-has ns qs p t es et k)

  -- The step of what follows at one more name.
  distinct_cons :
      (n : Str) (ns : List Str) (p : ℕ) (ps : List ℕ) (t : AddTypeRequest)
      → positions_of ty_pos ns ≡ ok ps
      → get_elem? types p ≡ some t
      → t.name ≡ n
      → has n ns ≡ false
      → is_in p ps ≡ false
  distinct_cons n ns p ps t es et en d = elim (Bool-cases (is_in p ps)) [
    | inl inside ↦
        let again : has n ns ≡ true =
          subst (λ x. has x ns ≡ true) en (is_in-has ns ps p t es et inside) in
        absurd (cc (again, d))
    | inr outside ↦ outside
  ]

  pub positions_of-AreDistinct :
      (names : List Str) (order : List ℕ)
      → positions_of ty_pos names ≡ ok order
      → IsDistinct names
      → AreDistinct order
  unfolding positions_of
  positions_of-AreDistinct [] order h d = let same : [] ≡ order = cc h in subst AreDistinct same tt
  positions_of-AreDistinct (n ∷ ns) order h d =
      let (p, ep, h1) = >>=-eq-ok (ok_or (lookup n ty_pos) (unknown_type n)) _ h in
      let (ps, es, h2) = >>=-eq-ok (positions_of ty_pos ns) _ h1 in
      let same : p ∷ ps ≡ order = cc h2 in
      let (t, et, en) = points n p (ok_or-eq-ok (lookup n ty_pos) _ ep) in
      subst AreDistinct same
        (distinct_cons n ns p ps t es et en d.0, positions_of-AreDistinct ns ps es d.1)
