-- ===== src/Policies/Routes.antt =====
-- server/src/policies.rs: the routes of a policy file, and the two maps made of them.
use chiselstrike.Prelude.{
  ℕ, ◌+◌, ◌≤◌, Str, Bool, true, false, Option, none, some, List, [], ◌∷◌, lookup, str_eq, Result,
  ok, err, ok_or, >>=-eq-ok, ok_or-eq-ok, ◌≡◌, refl, arith, ap, str_eq_iff, ◌∙◌, subst, sym,
}
use chiselstrike.PrefixMap
use chiselstrike.PrefixMap.{PrefixMap}
use chiselstrike.PrefixMap.Insert.{insert_correct}
use chiselstrike.BTree.Order.{IsSorted}
use chiselstrike.Policies.{
  Regex, Policy, PolicyError, RequiredHeader, PolicySystem, MandatoryHeader, Route, YamlPolicies,
  Library, add_users, add_header, users_step, header_step, methods_of, route_loop, label_step,
  label_loop, no_policies, routes_of, from_yaml, UserAuthorization, SecretAuthorization, bad_regex,
  repeated_path, Kind, Label, bad_yaml, or_default, never, kind_of,
}

module _ {V : Type 0} where
  abbrev pub taken : Option V → ℕ
  taken none = 0
  taken (some v) = 1

  abbrev pub or_else : Option V → Option V → Option V
  or_else none o = o
  or_else (some v) o = some v

  abbrev pub at : Bool → Option V → Option V
  at true o = o
  at false o = none

  -- What the first route with the path and a value gives, and how many there are.
  abbrev pub value_at : (Route → Option V) → Str → List Route → Option V
  value_at f p [] = none
  value_at f p (r ∷ rs) = or_else (at (str_eq r.path p) (f r)) (value_at f p rs)

  abbrev pub count_at : (Route → Option V) → Str → List Route → ℕ
  count_at f p [] = 0
  count_at f p (r ∷ rs) = taken (at (str_eq r.path p) (f r)) + count_at f p rs

  -- From the first map to the second, the path gets the value, which it may do once.
  abbrev Gets : Str → Option V → ℕ → PrefixMap V → PrefixMap V → Type 0
  Gets p o n m t =
      IsSorted t.entries
      × (lookup p t.entries ≡ or_else (lookup p m.entries) o)
      × (taken (lookup p m.entries) + n ≤ 1)

  taken_once : (o : Option V) → taken o + 0 ≤ 1
  taken_once none = omega arith
  taken_once (some v) = omega arith

  or_else-none : (o : Option V) → o ≡ or_else o none
  or_else-none none = refl
  or_else-none (some v) = refl

  abbrev GetsIf : Str → Bool → Option V → PrefixMap V → PrefixMap V → Type 0
  GetsIf p b o m t = Gets p (at b o) (taken (at b o)) m t

  Gets-none : (p : Str) (m : PrefixMap V) → IsSorted m.entries → Gets p none 0 m m
  Gets-none p m s = (s, or_else-none (lookup p m.entries), taken_once (lookup p m.entries))

  GetsIf-none : (p : Str) (b : Bool) (m : PrefixMap V) → IsSorted m.entries → GetsIf p b none m m
  GetsIf-none p true m s = Gets-none p m s
  GetsIf-none p false m s = Gets-none p m s

  Gets-trans :
      (p : Str) (o q : Option V) (n : ℕ) (m t u : PrefixMap V)
      → Gets p o (taken o) m t
      → Gets p q n t u
      → Gets p (or_else o q) (taken o + n) m u
  Gets-trans p o q n m t u (_, e, h) (s, f, k) =
      (s, found (lookup p m.entries) o e f, once (lookup p m.entries) o h e k)
    where
      found :
          {y z : Option V} (x o : Option V)
          → y ≡ or_else x o
          → z ≡ or_else y q
          → z ≡ or_else x (or_else o q)
      found none none e f = cc
      found none (some v) e f = cc
      found (some w) o e f = cc

      once :
          {y : Option V} (x o : Option V)
          → taken x + taken o ≤ 1
          → y ≡ or_else x o
          → taken y + n ≤ 1
          → taken x + (taken o + n) ≤ 1
      once none none h e k = omega (arith, k, ap taken e)
      once none (some v) h e k = omega (arith, k, ap taken e)
      once (some w) none h e k = omega (arith, k, ap taken e)
      once (some w) (some v) h e k = omega (arith, h)

  Gets-insert :
      (p k : Str) (v : V) (m : PrefixMap V)
      → IsSorted m.entries
      → (PrefixMap.insert k v m).1 ≡ none
      → GetsIf p (str_eq k p) (some v) m (PrefixMap.insert k v m).0
  Gets-insert p k v m s fresh =
      let (sorted, found, old) = insert_correct k p v m s in
      (
        sorted,
        ground (arith, found, old, fresh, str_eq_iff k p),
        ground (arith, old, fresh, str_eq_iff k p),
      )

module _ {V : Type 0} where
  Gets-added :
      (p k : Str) (v : V) (o : Option V) (m t : PrefixMap V)
      → IsSorted m.entries
      → (PrefixMap.insert k v m).1 ≡ none
      → o ≡ some v
      → t ≡ (PrefixMap.insert k v m).0
      → GetsIf p (str_eq k p) o m t
  Gets-added p k v o m t s fresh eo et = rw (eo, et) (Gets-insert p k v m s fresh)

abbrev pub user_paths : PolicySystem → PrefixMap Regex
user_paths s = UserAuthorization.paths s.user_authorization

abbrev pub header_paths : PolicySystem → PrefixMap RequiredHeader
header_paths s = SecretAuthorization.paths s.secret_authorization

abbrev ok_value : {A : Type 0} → Result PolicyError A → Option A
ok_value (ok a) = some a
ok_value (err e) = none

-- The test of the users of a route, and the requirement of its header.
abbrev pub users_value : Library → Option Str → Option Regex
users_value lib none = none
users_value lib (some users) = lib.compile users

abbrev pub header_value : Library → Option MandatoryHeader → Option RequiredHeader
header_value lib none = none
header_value lib (some h) = elim (methods_of lib h.only_for_methods) [
  | ok methods ↦
      some (record { header_name = h.name; secret_name = h.secret_value_ref; methods = methods })
  | err e ↦ none
]

new-eq-ok :
    {V A : Type 0} (old : Option V) (a : A) (e : PolicyError) {b : A}
    → (elim old [ none ↦ ok a | some _ ↦ err e ]) ≡ ok b
    → (b ≡ a) × (old ≡ none)
new-eq-ok none a e h = (cc, refl)
new-eq-ok (some v) a e h = cc

-- What a route does to the two maps.
abbrev StepGets :
    Library → Str → Str → Option Str → Option MandatoryHeader → PolicySystem → PolicySystem → Type 0
StepGets lib p path users header s t =
    GetsIf p (str_eq path p) (users_value lib users) (user_paths s) (user_paths t)
    × GetsIf p (str_eq path p) (header_value lib header) (header_paths s) (header_paths t)

users_step-Gets :
    (lib : Library) (p path : Str) (users : Option Str) (s : PolicySystem) {t : PolicySystem}
    → users_step lib path users s ≡ ok t
    → IsSorted (PrefixMap.entries (user_paths s))
    → GetsIf p (str_eq path p) (users_value lib users) (user_paths s) (user_paths t)
      × (header_paths t ≡ header_paths s)
unfolding users_step add_users
users_step-Gets lib p path none s {t} h sorted =
    let et : t ≡ s = cc h in rw et (GetsIf-none p (str_eq path p) (user_paths s) sorted, refl)
users_step-Gets lib p path (some users) s {t} h sorted =
    let (regex, compiled, h1) = >>=-eq-ok (ok_or (lib.compile users) (bad_regex users)) _ h in
    let (a, added, h2) = >>=-eq-ok (add_users path regex s.user_authorization) _ h1 in
    let (ea, fresh) =
      new-eq-ok (PrefixMap.insert path regex (user_paths s)).1 _ (repeated_path path) added in
    let et : t ≡ record s { user_authorization = a } = cc h2 in
    (
      Gets-added p path regex (lib.compile users) (user_paths s) (user_paths t) sorted fresh
          (ok_or-eq-ok _ _ compiled) (ap user_paths et ∙ ap UserAuthorization.paths ea),
      ap header_paths et,
    )

header_value-some :
    (lib : Library) (h : MandatoryHeader) {methods : Option (List Str)}
    → methods_of lib h.only_for_methods ≡ ok methods
    → header_value lib (some h)
      ≡ some (record { header_name = h.name; secret_name = h.secret_value_ref; methods = methods })
header_value-some lib h e = rw (e, header_value) refl

header_step-Gets :
    (lib : Library) (p path : Str) (header : Option MandatoryHeader) (s : PolicySystem)
    {t : PolicySystem}
    → header_step lib path header s ≡ ok t
    → IsSorted (PrefixMap.entries (header_paths s))
    → GetsIf p (str_eq path p) (header_value lib header) (header_paths s) (header_paths t)
      × (user_paths t ≡ user_paths s)
unfolding header_step add_header
header_step-Gets lib p path none s {t} h sorted =
    let et : t ≡ s = cc h in rw et (GetsIf-none p (str_eq path p) (header_paths s) sorted, refl)
header_step-Gets lib p path (some header) s {t} h sorted =
    let (methods, parsed, h1) = >>=-eq-ok (methods_of lib header.only_for_methods) _ h in
    let required : RequiredHeader = record {
      header_name = header.name;
      secret_name = header.secret_value_ref;
      methods = methods;
    } in
    let (a, added, h2) = >>=-eq-ok (add_header path required s.secret_authorization) _ h1 in
    let (ea, fresh) =
      new-eq-ok (PrefixMap.insert path required (header_paths s)).1 _ (repeated_path path) added in
    let et : t ≡ record s { secret_authorization = a } = cc h2 in
    (
      Gets-added p path required (header_value lib (some header)) (header_paths s) (header_paths t)
          sorted fresh (header_value-some lib header parsed)
          (ap header_paths et ∙ ap SecretAuthorization.paths ea),
      ap user_paths et,
    )

abbrev pub users_of : Library → Route → Option Regex
users_of lib r = users_value lib r.users

abbrev pub header_of : Library → Route → Option RequiredHeader
header_of lib r = header_value lib r.mandatory_header

abbrev LoopGets : Library → Str → List Route → PolicySystem → PolicySystem → Type 0
LoopGets lib p rs s t =
    Gets p (value_at (users_of lib) p rs) (count_at (users_of lib) p rs) (user_paths s)
      (user_paths t)
    × Gets p (value_at (header_of lib) p rs) (count_at (header_of lib) p rs) (header_paths s)
        (header_paths t)

route_loop-Gets :
    (lib : Library) (p : Str) (rs : List Route) (s : PolicySystem) {t : PolicySystem}
    → route_loop lib rs s ≡ ok t
    → IsSorted (PrefixMap.entries (user_paths s))
    → IsSorted (PrefixMap.entries (header_paths s))
    → LoopGets lib p rs s t
unfolding route_loop
route_loop-Gets lib p [] s {t} h us hs =
    let et : t ≡ s = cc h in rw et (Gets-none p (user_paths s) us, Gets-none p (header_paths s) hs)
route_loop-Gets lib p (r ∷ rs) s {t} h us hs =
    let (a, ha, h1) = >>=-eq-ok (users_step lib r.path r.users s) _ h in
    let (b, hb, h2) = >>=-eq-ok (header_step lib r.path r.mandatory_header a) _ h1 in
    let (ua, same) = users_step-Gets lib p r.path r.users s ha us in
    let (kb, kept) =
      header_step-Gets lib p r.path r.mandatory_header a hb
        (subst (λ m. IsSorted (PrefixMap.entries m)) (sym same) hs) in
    let ub =
      subst (λ m. GetsIf p (str_eq r.path p) (users_of lib r) (user_paths s) m) (sym kept) ua in
    let kc = subst (λ m. GetsIf p (str_eq r.path p) (header_of lib r) m (header_paths b)) same kb in
    let (ut, kt) = route_loop-Gets lib p rs b h2 ub.0 kc.0 in
    (Gets-trans p _ _ _ _ _ _ ub ut, Gets-trans p _ _ _ _ _ _ kc kt)

abbrev KeepsMaps : PolicySystem → PolicySystem → Type 0
KeepsMaps s t = (user_paths t ≡ user_paths s) × (header_paths t ≡ header_paths s)

KeepsMaps-labels :
    (s : PolicySystem) (relabel : Kind → List (Str × Policy)) (kind : Option Kind)
    → KeepsMaps s (elim kind [ none ↦ s | some k ↦ record s { labels = relabel k } ])
KeepsMaps-labels s relabel none = (refl, refl)
KeepsMaps-labels s relabel (some k) = (refl, refl)

label_step-KeepsMaps :
    (lib : Library) (l : Label) (s : PolicySystem) {t : PolicySystem}
    → label_step lib l s ≡ ok t
    → KeepsMaps s t
unfolding label_step
label_step-KeepsMaps lib l s {t} h =
    let (x, hx, h1) = >>=-eq-ok (ok_or (lib.compile (or_default never l.except_uri)) _) _ h in
    let (kind, hk, h2) = >>=-eq-ok (kind_of l.name l.transform) _ h1 in
    stepped h2 (KeepsMaps-labels s _ kind)
  where
    stepped :
        {a t : PolicySystem}
        → ◌≡◌ {A = Result PolicyError PolicySystem} (ok a) (ok t)
        → KeepsMaps s a
        → KeepsMaps s t
    stepped {a} {t} e k = let et : a ≡ t = cc e in subst (KeepsMaps s) et k

label_loop-KeepsMaps :
    (lib : Library) (ls : List Label) (s : PolicySystem) {t : PolicySystem}
    → label_loop lib ls s ≡ ok t
    → KeepsMaps s t
unfolding label_loop
label_loop-KeepsMaps lib [] s {t} h =
    let et : t ≡ s = cc h in (ap user_paths et, ap header_paths et)
label_loop-KeepsMaps lib (l ∷ ls) s h =
    let (a, ha, h1) = >>=-eq-ok (label_step lib l s) _ h in
    let (eu, eh) = label_loop-KeepsMaps lib ls a h1 in
    let (fu, fh) = label_step-KeepsMaps lib l s ha in (eu ∙ fu, eh ∙ fh)

-- What the two maps of a file's policies are at a path, when the file has the routes.
abbrev pub RoutesAt : Library → Str → List Route → PolicySystem → Type 0
RoutesAt lib p rs s =
    (lookup p (PrefixMap.entries (user_paths s)) ≡ value_at (users_of lib) p rs)
    × (count_at (users_of lib) p rs ≤ 1)
    × (lookup p (PrefixMap.entries (header_paths s)) ≡ value_at (header_of lib) p rs)
    × (count_at (header_of lib) p rs ≤ 1)

-- If a policy file is accepted, it is well-formed YAML, both path maps are in key order, and at every
-- path they have the test of the users and the required header of the one route with this path that
-- has them, or nothing if no route has: no path has two.
pub from_yaml-RoutesAt :
    (lib : Library) (config p : Str) {t : PolicySystem}
    → from_yaml lib config ≡ ok t
    → (y : YamlPolicies) × (lib.parse_yaml config ≡ some y)
      × IsSorted (PrefixMap.entries (user_paths t))
      × IsSorted (PrefixMap.entries (header_paths t))
      × RoutesAt lib p (routes_of y) t
unfolding from_yaml lookup
from_yaml-RoutesAt lib config p {t} h =
    let (y, parsed, h1) = >>=-eq-ok (ok_or (lib.parse_yaml config) bad_yaml) _ h in
    let (s, labelled, h2) = >>=-eq-ok (label_loop lib (or_default [] y.labels) no_policies) _ h1 in
    let (eu, eh) = label_loop-KeepsMaps lib (or_default [] y.labels) no_policies labelled in
    let (u, k) = route_loop-Gets lib p (routes_of y) s h2 (rw eu tt) (rw eh tt) in
    let (us, ul, uc) =
      subst
        (λ m.
          Gets p (value_at (users_of lib) p (routes_of y)) (count_at (users_of lib) p (routes_of y))
            m (user_paths t))
        eu u in
    let (ks, kl, kc) =
      subst
        (λ m.
          Gets p (value_at (header_of lib) p (routes_of y))
            (count_at (header_of lib) p (routes_of y)) m (header_paths t))
        eh k in
    (y, ok_or-eq-ok _ _ parsed, us, ks, (ul, omega (arith, uc), kl, omega (arith, kc)))
