-- ===== src/TypeSystem/Delta.antt =====
-- `generate_type_delta` of server/src/types/type_system.rs, as a partition of the fields.
use chiselstrike.Prelude.{
  Str, ◌≡◌, refl, sym, ap, ◌∙◌, Bool, true, false, not, ◌||◌, Option, none, some, List, [], ◌∷◌,
  ◌++◌, lookup, remove, filter, filter-congr, filter-filter, All, str_eq, str_eq_iff, if◌then◌else◌,
  ok, arith, >>=-eq-ok, ensure, Option-cases, inl, inr, lookup-remove, All-of, All-map, subst,
  append_assoc, append-nil, ap₂,
}
use chiselstrike.BTree.Order.{IsSorted, ne-of-before}
use chiselstrike.Types.{Field, ObjectType, field_map, is_none, object_eq, type_eq}
use chiselstrike.Types.Laws.{field_map-IsSorted}
use chiselstrike.TypeSystem.{
  TypeSystem, Progress, ObjectDelta, FieldDelta, can_be_absent, update_field, step_field,
  new_fields_loop, removed_loop, generate_type_delta, get, FieldType,
}

abbrev pub Fields : Type 0
Fields = List (Str × Field)

abbrev pub values : Fields → List Field
values [] = []
values (e ∷ es) = e.1 ∷ values es

-- The fields of the first map whose names the second has not.
abbrev pub missing_from : Fields → Fields → List Field
missing_from other es = values (filter (λ e. is_none (lookup e.0 other)) es)

remove-filter : (n : Str) (m : Fields) → remove n m ≡ filter (λ e. not (str_eq e.0 n)) m
unfolding remove
remove-filter n [] = refl
remove-filter n ((k, v) ∷ m) = ground (arith, remove-filter n m)

-- What one round does to the state.
step_field-left :
    (ts : TypeSystem) (force : Bool) (nm n : Str) (f : Field) (p q : Progress)
    → step_field ts force nm n f p ≡ ok q
    → (q.left ≡ remove n p.left)
      × (q.added ≡ (if is_none (lookup n p.left) then p.added ++ f ∷ [] else p.added))
unfolding step_field
step_field-left ts force nm n f p q h = ground arith

-- Removing the names of a list one after the other leaves the entries of no such name.
remove_all : Fields → Fields → Fields
remove_all [] m = m
remove_all (e ∷ es) m = remove_all es (remove e.0 m)

remove_all-filter : (es m : Fields) → remove_all es m ≡ filter (λ e. is_none (lookup e.0 es)) m
unfolding remove_all lookup
remove_all-filter [] m = sym (filter-all m)
  where
    filter-all : (m : Fields) → filter (λ e. true) m ≡ m
    filter-all [] = refl
    filter-all (e ∷ m) = ap (λ r. e ∷ r) (filter-all m)
remove_all-filter ((n, v) ∷ es) m =
    remove_all-filter es (remove n m)
    ∙ rw (remove-filter n m) (
        filter-filter (λ e. is_none (lookup e.0 es)) (λ e. not (str_eq e.0 n)) m
        ∙ filter-congr _ _ m (All-of m (λ e. ground (arith, str_eq_iff e.0 n, str_eq_iff n e.0))))

-- A field that was removed is looked for no more: names after it in the order are not its own.
missing_from-remove :
    (n : Str) (es m : Fields)
    → All (λ e. str_eq n e.0 ≡ false) es
    → missing_from (remove n m) es ≡ missing_from m es
missing_from-remove n es m h =
    ap values (filter-congr _ _ es (All-map es (λ e ne. rw (lookup-remove n e.0 m, ne) refl) h))

if-values :
    (b : Bool) (n : Str) (f : Field) (pushed : List Field) (rest : Fields)
    → (if b then pushed ++ f ∷ [] else pushed) ++ values rest
      ≡ pushed ++ values (if b then (n, f) ∷ rest else rest)
if-values true n f pushed rest = append_assoc pushed (f ∷ []) (values rest)
if-values false n f pushed rest = refl

new_fields_loop-result :
    (ts : TypeSystem) (force : Bool) (nm : Str) (es : Fields) (p q : Progress)
    → IsSorted es
    → new_fields_loop ts force nm es p ≡ ok q
    → (q.left ≡ remove_all es p.left) × (q.added ≡ p.added ++ missing_from p.left es)
unfolding new_fields_loop remove_all
new_fields_loop-result ts force nm [] p q s h =
    let same : p ≡ q = cc in
    (
      ap (λ (x : Progress). x.left) (sym same),
      ap (λ (x : Progress). x.added) (sym same) ∙ sym (append-nil p.added),
    )
new_fields_loop-result ts force nm ((n, f) ∷ es) p q s h =
    let (r, one, rest) = >>=-eq-ok (step_field ts force nm n f p) _ h in
    let (l, a) = step_field-left ts force nm n f p r one in
    let (ihl, iha) = new_fields_loop-result ts force nm es r q s.1 rest in
    (
      ihl ∙ ap (remove_all es) l,
      iha
          ∙ ap₂ (λ x y. x ++ y) a
              (ap (λ x. missing_from x es) l
                ∙ missing_from-remove n es p.left (ne-of-before n es s.0))
          ∙ if-values (is_none (lookup n p.left)) n f p.added
              (filter (λ e. is_none (lookup e.0 p.left)) es),
    )

removed_loop-result :
    (force : Bool) (nm : Str) (es : Fields) (r : List Field)
    → removed_loop force nm es ≡ ok r
    → (r ≡ values es) × (force ≡ false → All (λ f. can_be_absent f ≡ true) r)
unfolding removed_loop
removed_loop-result force nm [] r h = let same : [] ≡ r = cc in rw (← same) (refl, λ _. tt)
removed_loop-result force nm ((n, f) ∷ es) r h =
    let (u, one, h1) = >>=-eq-ok (ensure (force || can_be_absent f) _) _ h in
    let (rest, two, h2) = >>=-eq-ok (removed_loop force nm es) _ h1 in
    let same : f ∷ rest ≡ r = cc in
    let (ih, absent) = removed_loop-result force nm es rest two in
    rw (← same) (ap (λ x. f ∷ x) ih, λ e. (ground arith, absent e))

-- A new and an old field that one column can serve: the same type, and no uniqueness added.
pub record Compatible (ts : TypeSystem) (new old : Field) : Type 0 where
  pub new_type : FieldType
  pub old_type : FieldType
  pub new_known : get ts new.type_id ≡ ok new_type
  pub old_known : get ts old.type_id ≡ ok old_type
  pub same_type : type_eq new_type old_type ≡ true
  pub no_new_unique : new.is_unique ≡ true → old.is_unique ≡ true

update_field-Compatible :
    (ts : TypeSystem) (nm : Str) (f o : Field) (d : FieldDelta)
    → update_field ts false nm f o ≡ ok d
    → Compatible ts f o
unfolding update_field
update_field-Compatible ts nm f o d h =
    let (a, one, h1) = >>=-eq-ok (get ts f.type_id) _ h in
    let (b, two, h2) = >>=-eq-ok (get ts o.type_id) _ h1 in
    record {
      new_type = a;
      old_type = b;
      new_known = one;
      old_known = two;
      same_type = ground arith;
      no_new_unique = ground arith;
    }

-- What is guaranteed of a new field, whether the old type has its name or not.
abbrev pub IsSafeField : TypeSystem → Field → Option Field → Type 0
IsSafeField ts f none = can_be_absent f ≡ true
IsSafeField ts f (some o) = Compatible ts f o

step_field-IsSafeField :
    (ts : TypeSystem) (nm n : Str) (f : Field) (p q : Progress)
    → step_field ts false nm n f p ≡ ok q
    → IsSafeField ts f (lookup n p.left)
unfolding step_field
step_field-IsSafeField ts nm n f p q h = elim (Option-cases (lookup n p.left)) [
  | inl e ↦ rw e (ground arith)
  | inr (o, e) ↦
      let (d, one, _) = >>=-eq-ok (update_field ts false nm f o) _ (rw (e, step_field) at h) in
      rw e (update_field-Compatible ts nm f o d one)
]

new_fields_loop-IsSafeField :
    (ts : TypeSystem) (nm : Str) (es : Fields) (p q : Progress)
    → IsSorted es
    → new_fields_loop ts false nm es p ≡ ok q
    → All (λ e. IsSafeField ts e.1 (lookup e.0 p.left)) es
unfolding new_fields_loop
new_fields_loop-IsSafeField ts nm [] p q s h = tt
new_fields_loop-IsSafeField ts nm ((n, f) ∷ es) p q s h =
    let (r, one, rest) = >>=-eq-ok (step_field ts false nm n f p) _ h in
    let ih = new_fields_loop-IsSafeField ts nm es r q s.1 rest in
    let same = (step_field-left ts false nm n f p r one).0 in
    (step_field-IsSafeField ts nm n f p r one, kept same es (ne-of-before n es s.0) ih)
  where
    kept :
        {left : Fields}
        → left ≡ remove n p.left
        → (es : Fields) → All (λ e. str_eq n e.0 ≡ false) es
        → All (λ e. IsSafeField ts e.1 (lookup e.0 left)) es
        → All (λ e. IsSafeField ts e.1 (lookup e.0 p.left)) es
    kept same [] ne h = tt
    kept same (e ∷ es) ne h = (
      subst (IsSafeField ts e.1)
          (ap (lookup e.0) same ∙ lookup-remove n e.0 p.left ∙ rw (ne.0) refl) h.0,
      kept same es ne.1 h.1,
    )

module _ (ts : TypeSystem) (old new : ObjectType) (d : ObjectDelta) where
  -- The two loops of a delta that was generated.
  record Ran (force : Bool) : Type 0 where
    progress : Progress
    same_object : object_eq old new ≡ true
    looped :
        new_fields_loop ts force new.name
          (field_map new)
          (record { added = []; updated = []; left = field_map old })
        ≡ ok progress
    removing : removed_loop force new.name progress.left ≡ ok d.removed_fields
    adding : progress.added ≡ d.added_fields

  generate_type_delta-Ran : (force : Bool) → generate_type_delta ts old new force ≡ ok d → Ran force
  unfolding generate_type_delta
  generate_type_delta-Ran force h =
      let (u, one, h1) = >>=-eq-ok (ensure (object_eq old new) _) _ h in
      let (p, two, h2) = >>=-eq-ok (new_fields_loop ts force new.name (field_map new) _) _ h1 in
      let (r, three, h3) = >>=-eq-ok (removed_loop force new.name p.left) _ h2 in
      let same : r ≡ d.removed_fields = cc in
      record {
        progress = p;
        same_object = ground arith;
        looped = two;
        removing = three ∙ ap ok same;
        adding = cc;
      }

-- The delta adds exactly the new type's fields whose names the old type has not, and removes exactly
-- the old type's fields whose names the new type has not, both in name order.
pub generate_type_delta_partition :
    (ts : TypeSystem) (old new : ObjectType) (d : ObjectDelta) (force : Bool)
    → generate_type_delta ts old new force ≡ ok d
    → (d.added_fields ≡ missing_from (field_map old) (field_map new))
      × (d.removed_fields ≡ missing_from (field_map new) (field_map old))
generate_type_delta_partition ts old new d force h =
    let ran = generate_type_delta-Ran ts old new d force h in
    let (left, added) =
      new_fields_loop-result ts force new.name (field_map new) _ ran.progress
        (field_map-IsSorted new) ran.looped in
    (
      sym ran.adding ∙ added,
      (removed_loop-result force new.name ran.progress.left d.removed_fields ran.removing).0
          ∙ ap values (left ∙ remove_all-filter (field_map new) (field_map old)),
    )

-- Without `allow_unsafe_replacement`, a delta is generated only between versions of one object; every
-- new field either has a name of the old type, with a field of an equal type to which no uniqueness
-- is added, or has a default value or is optional; so has every field that is removed.
pub generate_type_delta_safe :
    (ts : TypeSystem) (old new : ObjectType) (d : ObjectDelta)
    → generate_type_delta ts old new false ≡ ok d
    → (object_eq old new ≡ true)
      × All (λ e. IsSafeField ts e.1 (lookup e.0 (field_map old))) (field_map new)
      × All (λ f. can_be_absent f ≡ true) d.removed_fields
generate_type_delta_safe ts old new d h =
    let ran = generate_type_delta-Ran ts old new d false h in
    (
      ran.same_object,
      new_fields_loop-IsSafeField ts new.name (field_map new) _ ran.progress
          (field_map-IsSorted new) ran.looped,
      (removed_loop-result false new.name ran.progress.left d.removed_fields ran.removing).1 refl,
    )
