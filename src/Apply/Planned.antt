-- ===== src/Apply/Planned.antt =====
-- What is planned for each type of a request.
use mathlib.Core.List.Memᴰ
use chiselstrike.Prelude.{
  ℕ, ◌==◌, ◌≡◌, refl, sym, ap, ◌∙◌, subst, Str, not, ◌⊎◌, inl, inr, Option, none, some, List, [],
  ◌∷◌, ◌++◌, append-nil, append_assoc, insert, lookup, Memᴰ, All, Result, ok, err, ensure, ok_or,
  >>=-eq-ok,
}
use chiselstrike.Types.{Entity, custom, DbIndex, ObjectType, object_type, object_new}
use chiselstrike.Types.Laws.{name-object_new}
use chiselstrike.TypeSystem.{
  TypeSystem, TypeSystemError, ObjectDelta, no_such_type, lookup_builtin_type, lookup_custom_type,
  generate_type_delta,
}
use chiselstrike.Apply.{
  ApplyError, map_err, type_system, types, custom_type_expected, AddTypeRequest, is_ok,
}
use chiselstrike.Apply.Plan.{
  Plan, empty_plan, new_object, make_fields, indexes_or_none, insert_or_update, plan_type,
  plan_types,
}

map_err-eq-ok :
    {E F A : Type 0} (f : E → F) (r : Result E A) {a : A} → map_err f r ≡ ok a → r ≡ ok a
map_err-eq-ok f (ok b) h = cc
map_err-eq-ok f (err e) h = cc

ok_plan : {p q : Plan} → ◌≡◌ {A = Result ApplyError Plan} (ok p) (ok q) → p ≡ q
ok_plan h = cc h

-- The name in the error of a lookup is the name looked up.
missing :
    (ts : TypeSystem) (n m : Str)
    → lookup_custom_type ts n ≡ err (no_such_type m)
    → lookup_custom_type ts n ≡ err (no_such_type n)
unfolding lookup_custom_type
missing ts n m h = of_lookup (lookup n ts.custom_types) h
  where
    of_lookup :
        (o : Option Entity)
        → ok_or o (no_such_type n) ≡ err (no_such_type m)
        → ok_or o (no_such_type n) ≡ err (no_such_type n)
    of_lookup none h = refl
    of_lookup (some e) h = absurd (cc h)

-- The plan grows at the end.
record Extends (p q : Plan) : Type 0 where
  inserted : List ObjectType
  updated : List (Entity × ObjectDelta)
  inserts : q.to_insert ≡ p.to_insert ++ inserted
  updates : q.to_update ≡ p.to_update ++ updated

Extends-refl : (p : Plan) → Extends p p
Extends-refl p = record {
  inserted = [];
  updated = [];
  inserts = sym (append-nil p.to_insert);
  updates = sym (append-nil p.to_update);
}

-- The names of the new types do not matter to the growth.
same_extension :
    {A : Type 0} (plan next : Plan) (new : List (Str × Entity))
    → A × Extends (record plan { new_types = new }) next
    → A × Extends plan next
same_extension plan next new (a, x) = (
  a,
  record { inserted = x.inserted; updated = x.updated; inserts = x.inserts; updates = x.updates },
)

Extends-trans : {p q r : Plan} → Extends p q → Extends q r → Extends p r
Extends-trans {p} a b = record {
  inserted = a.inserted ++ b.inserted;
  updated = a.updated ++ b.updated;
  inserts =
      b.inserts
      ∙ ap (λ l. l ++ b.inserted) a.inserts
      ∙ append_assoc p.to_insert a.inserted b.inserted;
  updates =
      b.updates ∙ ap (λ l. l ++ b.updated) a.updates ∙ append_assoc p.to_update a.updated b.updated;
}

module _ (count_rows : Entity → Result ApplyError ℕ) (uuid_of : Str → Str) where
  -- An update of a stored type: its delta is that to a new type, forced only if there are no rows.
  abbrev pub Updates : TypeSystem → Plan → Entity → Str → Type 0
  Updates ts plan e n =
      (ty : ObjectType) × (ty.name ≡ n)
      × ((cnt : ℕ) × (count_rows e ≡ ok cnt)
          × ((delta : ObjectDelta) × (generate_type_delta ts (object_type e) ty (cnt == 0)
                ≡ ok delta)
              × Memᴰ (e, delta) plan.to_update))

  -- What becomes of a type: a stored one is updated, another one is inserted.
  abbrev pub IsPlanned : TypeSystem → Plan → Str → Type 0
  IsPlanned ts plan n =
      ((e : Entity) × (lookup_custom_type ts n ≡ ok e) × Updates ts plan e n)
      ⊎ ((lookup_custom_type ts n ≡ err (no_such_type n))
          × ((ty : ObjectType) × (ty.name ≡ n) × Memᴰ ty plan.to_insert))

  Extends-IsPlanned :
      (ts : TypeSystem) (p q : Plan) (n : Str) → Extends p q → IsPlanned ts p n → IsPlanned ts q n
  Extends-IsPlanned ts p q n x (inl (e, found, (ty, named, (cnt, counted, (delta, made, m))))) =
      inl (
        e,
        found,
        (
          ty,
          named,
          (
            cnt,
            counted,
            (
              delta,
              made,
              subst (λ l. Memᴰ (e, delta) l) (sym x.updates) (Memᴰ.append_left x.updated m),
            ),
          ),
        ),
      )
  Extends-IsPlanned ts p q n x (inr (missing, (ty, named, m))) =
      inr (
        missing,
        (ty, named, subst (λ l. Memᴰ ty l) (sym x.inserts) (Memᴰ.append_left x.inserted m)),
      )

  -- The end of the body of the loop, at the type that was made.
  insert_or_update-IsPlanned :
      (ts : TypeSystem) (ty : ObjectType) (n : Str) (plan next : Plan)
      (stored : Result TypeSystemError Entity)
      → ty.name ≡ n
      → lookup_custom_type ts n ≡ stored
      → insert_or_update count_rows uuid_of ts ty plan stored ≡ ok next
      → IsPlanned ts next n × Extends plan next
  insert_or_update-IsPlanned ts ty n plan next (ok old) en es h =
      let (cnt, ec, h1) = >>=-eq-ok (count_rows old) _ h in
      let (delta, ed, h2) =
        >>=-eq-ok (map_err type_system (generate_type_delta ts (object_type old) ty (cnt == 0))) _
          h1 in
      subst (λ q. IsPlanned ts q n × Extends plan q) (ok_plan h2)
        (
          inl (
            old,
            es,
            (
              ty,
              en,
              (
                cnt,
                ec,
                (
                  delta,
                  map_err-eq-ok type_system _ ed,
                  Memᴰ.append_right plan.to_update (Memᴰ.head refl),
                ),
              ),
            ),
          ),
          record {
            inserted = [];
            updated = (old, delta) ∷ [];
            inserts = sym (append-nil plan.to_insert);
            updates = refl;
          },
        )
  insert_or_update-IsPlanned ts ty n plan next (err (no_such_type m)) en es h =
      subst (λ q. IsPlanned ts q n × Extends plan q) (ok_plan h)
        (
          inr (missing ts n m es, (ty, en, Memᴰ.append_right plan.to_insert (Memᴰ.head refl))),
          record {
            inserted = ty ∷ [];
            updated = [];
            inserts = refl;
            updates = sym (append-nil plan.to_update);
          },
        )
  insert_or_update-IsPlanned ts ty n plan next (err other) en es h = absurd (cc h)

  -- The body of the loop: the type of the request is planned.
  plan_type-IsPlanned :
      (ts : TypeSystem) (names : List Str) (indexes : List (Str × List DbIndex)) (version : Str)
      (t : AddTypeRequest) (plan next : Plan)
      → plan_type count_rows uuid_of ts names indexes version t plan ≡ ok next
      → IsPlanned ts next t.name × Extends plan next
  unfolding plan_type
  plan_type-IsPlanned ts names indexes version t plan next h =
      let (u, eu, h1) =
        >>=-eq-ok
          (ensure (not (is_ok (lookup_builtin_type ts t.name))) (custom_type_expected t.name)) _
          h in
      let (fields, ef, h2) =
        >>=-eq-ok (make_fields ts names plan.new_types version t.name t.field_defs) _ h1 in
      let (ty, et, h3) =
        >>=-eq-ok
          (map_err types (
            object_new (new_object (uuid_of t.name) t.name version) fields
              (indexes_or_none (lookup t.name indexes))))
          _ h2 in
      same_extension plan next (insert t.name (custom ty) plan.new_types) (
        insert_or_update-IsPlanned ts ty t.name
          (record plan { new_types = insert t.name (custom ty) plan.new_types }) next
          (lookup_custom_type ts t.name)
          (name-object_new (new_object (uuid_of t.name) t.name version) fields _ ty
            (map_err-eq-ok types _ et))
          refl h3)

  plan_types-Extends :
      (ts : TypeSystem) (names : List Str) (indexes : List (Str × List DbIndex)) (version : Str)
      (request : List AddTypeRequest) (plan next : Plan)
      → plan_types count_rows uuid_of ts names indexes version request plan ≡ ok next
      → All (λ t. IsPlanned ts next t.name) request × Extends plan next
  unfolding plan_types
  plan_types-Extends ts names indexes version [] plan next h =
      subst (λ q. Unit {0} × Extends plan q) (ok_plan h) (tt, Extends-refl plan)
  plan_types-Extends ts names indexes version (t ∷ rest) plan next h =
      let (mid, em, h1) =
        >>=-eq-ok (plan_type count_rows uuid_of ts names indexes version t plan) _ h in
      let (planned, first) = plan_type-IsPlanned ts names indexes version t plan mid em in
      let (others, later) = plan_types-Extends ts names indexes version rest mid next h1 in
      ((Extends-IsPlanned ts mid next t.name later planned, others), Extends-trans first later)

  -- When the plan for the types of a request succeeds, every one of them that is stored is updated, by the
  -- delta to a new type of its name that is forced exactly if the stored type has no rows; and every
  -- other one is inserted as a new type of its name.
  pub plan_types-IsPlanned :
      (ts : TypeSystem) (names : List Str) (indexes : List (Str × List DbIndex)) (version : Str)
      (request : List AddTypeRequest) (plan : Plan)
      → plan_types count_rows uuid_of ts names indexes version request empty_plan ≡ ok plan
      → All (λ t. IsPlanned ts plan t.name) request
  plan_types-IsPlanned ts names indexes version request plan h =
      (plan_types-Extends ts names indexes version request empty_plan plan h).0
