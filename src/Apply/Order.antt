-- ===== src/Apply/Order.antt =====
-- The order in which `sort_custom_types` puts the types.
pub mod Positions
pub mod Sorted
use chiselstrike.Prelude.{
  ℕ, zero, suc, ◌≡◌, refl, sym, ap, ◌∙◌, subst, Str, str_eq, str_eq_iff, Bool, Bool-cases, true,
  false, inl, inr, some, List, [], ◌∷◌, ◌++◌, append_assoc, append-nil, map, length, length-append,
  get_elem?, lookup, insert, lookup-insert, All, Result, ok, ◌>>=◌, ◌>>◌, >>=-eq-ok, if◌then◌else◌,
  arith,
}
use chiselstrike.TypeSystem.{TypeSystem, lookup_builtin_type}
use chiselstrike.Apply.{
  ApplyError, TypeEnum, FieldDefinition, AddTypeRequest, field_type, is_ok, is_builtin,
}
use chiselstrike.Apply.Sort.{
  has, Graph, add_node, add_edge, link_entity, link_type, link_fields, link_types,
}

-- The name of the type that a field refers to, if no built-in type has it.
abbrev pub custom_ref : TypeSystem → Result ApplyError TypeEnum → List Str
custom_ref ts (ok (TypeEnum.entity n)) = if is_ok (lookup_builtin_type ts n) then [] else n ∷ []
custom_ref ts _ = []

abbrev pub custom_refs : TypeSystem → List FieldDefinition → List Str
custom_refs ts [] = []
custom_refs ts (f ∷ fs) = custom_ref ts (field_type f) ++ custom_refs ts fs

-- Every type comes after the types that its fields refer to.
abbrev pub IsOrdered : TypeSystem → List Str → List AddTypeRequest → Type 0
IsOrdered ts before [] = Unit
IsOrdered ts before (t ∷ rest) =
    All (λ n. has n before ≡ true) (custom_refs ts t.field_defs)
    × IsOrdered ts (t.name ∷ before) rest

abbrev pub edges_to : Str → List Str → List (Str × Str)
edges_to ty names = map (λ (n : Str). (n, ty)) names

abbrev pub all_edges : TypeSystem → List AddTypeRequest → List (Str × Str)
all_edges ts [] = []
all_edges ts (t ∷ rest) = edges_to t.name (custom_refs ts t.field_defs) ++ all_edges ts rest

edges-add_node : (n : Str) (g : Graph) → (add_node n g).edges ≡ g.edges
edges-add_node n g = ground arith

edges-add_edge : (a b : Str) (g : Graph) → (add_edge a b g).edges ≡ g.edges ++ (a, b) ∷ []
edges-add_edge a b g = refl

map-append_one :
    (ty : Str) (xs ys : List Str) → edges_to ty (xs ++ ys) ≡ edges_to ty xs ++ edges_to ty ys
map-append_one ty [] ys = refl
map-append_one ty (x ∷ xs) ys = ap (λ l. (x, ty) ∷ l) (map-append_one ty xs ys)

edges-link_entity :
    (n ty : Str) (b : Bool) (g : Graph)
    → (link_entity n ty b g).edges ≡ g.edges ++ edges_to ty (if b then [] else n ∷ [])
edges-link_entity n ty true g = sym (append-nil g.edges)
edges-link_entity n ty false g = ap (λ l. l ++ (n, ty) ∷ []) (edges-add_node n g)

edges-link_type :
    (ts : TypeSystem) (ty : Str) (t : TypeEnum) (g next : Graph)
    → link_type ts ty t g ≡ ok next
    → next.edges ≡ g.edges ++ edges_to ty (custom_ref ts (ok t))
unfolding is_builtin
edges-link_type ts ty (TypeEnum.entity n) g next h =
    let same : link_entity n ty (is_ok (lookup_builtin_type ts n)) g ≡ next = cc h in
    subst
      (λ q.
        q.edges ≡ g.edges ++ edges_to ty (if is_ok (lookup_builtin_type ts n) then [] else n ∷ []))
      same (edges-link_entity n ty (is_ok (lookup_builtin_type ts n)) g)
edges-link_type ts ty t g next h =
    let same : g ≡ next = cc h in
    subst (λ q. q.edges ≡ g.edges ++ []) same (sym (append-nil g.edges))

-- The edges of one field, and then those of the others.
joined :
    (ts : TypeSystem) (ty : Str) (others : List Str) (r : Result ApplyError TypeEnum) (t : TypeEnum)
    (g g1 next : Graph)
    → r ≡ ok t
    → g1.edges ≡ g.edges ++ edges_to ty (custom_ref ts (ok t))
    → next.edges ≡ g1.edges ++ edges_to ty others
    → next.edges ≡ g.edges ++ edges_to ty (custom_ref ts r ++ others)
joined ts ty others r t g g1 next er e1 e2 = rw er (
    e2
    ∙ ap (λ l. l ++ edges_to ty others) e1
    ∙ append_assoc g.edges (edges_to ty (custom_ref ts (ok t))) (edges_to ty others)
    ∙ ap (λ l. g.edges ++ l) (sym (map-append_one ty (custom_ref ts (ok t)) others)))

edges-link_fields :
    (ts : TypeSystem) (ty : Str) (fields : List FieldDefinition) (g next : Graph)
    → link_fields ts ty fields g ≡ ok next
    → next.edges ≡ g.edges ++ edges_to ty (custom_refs ts fields)
unfolding link_fields
edges-link_fields ts ty [] g next h =
    let same : g ≡ next = cc h in
    subst (λ q. q.edges ≡ g.edges ++ []) same (sym (append-nil g.edges))
edges-link_fields ts ty (f ∷ fs) g next h =
    let (t, et, h1) = >>=-eq-ok (field_type f) _ h in
    let (g1, e1, h2) = >>=-eq-ok (link_type ts ty t g) _ h1 in
    joined ts ty (custom_refs ts fs) (field_type f) t g g1 next et (edges-link_type ts ty t g g1 e1)
      (edges-link_fields ts ty fs g1 next h2)

pub edges-link_types :
    (ts : TypeSystem) (types : List AddTypeRequest) (pos : ℕ) (g next : Graph)
    (ty_pos positions : List (Str × ℕ))
    → link_types ts types pos g ty_pos ≡ ok (next, positions)
    → next.edges ≡ g.edges ++ all_edges ts types
unfolding link_types
edges-link_types ts [] pos g next ty_pos positions h =
    let same : g ≡ next = cc h in
    subst (λ q. q.edges ≡ g.edges ++ []) same (sym (append-nil g.edges))
edges-link_types ts (t ∷ rest) pos g next ty_pos positions h =
    let (g1, e1, h1) = >>=-eq-ok (link_fields ts t.name t.field_defs (add_node t.name g)) _ h in
    edges-link_types ts rest (suc pos) g1 next _ positions h1
    ∙ ap (λ l. l ++ all_edges ts rest)
        (edges-link_fields ts t.name t.field_defs (add_node t.name g) g1 e1
          ∙ ap (λ l. l ++ edges_to t.name (custom_refs ts t.field_defs)) (edges-add_node t.name g))
    ∙ append_assoc g.edges (edges_to t.name (custom_refs ts t.field_defs)) (all_edges ts rest)

-- The position of every name holds a type of that name.
abbrev pub Points : List AddTypeRequest → List (Str × ℕ) → Type 0
Points whole ty_pos =
    (n : Str) (p : ℕ)
    → lookup n ty_pos ≡ some p
    → (t : AddTypeRequest) × (get_elem? whole p ≡ some t) × (t.name ≡ n)

get_elem?-middle :
    (before : List AddTypeRequest) (t : AddTypeRequest) (rest : List AddTypeRequest) (p : ℕ)
    → length before ≡ p
    → get_elem? (before ++ t ∷ rest) p ≡ some t
get_elem?-middle [] t rest p h = rw (← h) refl
get_elem?-middle (b ∷ bs) t rest zero h = absurd (omega (arith, h))
get_elem?-middle (b ∷ bs) t rest (suc p) h = get_elem?-middle bs t rest p (omega (arith, h))

insert-Points :
    (whole : List AddTypeRequest) (t : AddTypeRequest) (pos : ℕ) (ty_pos : List (Str × ℕ))
    → get_elem? whole pos ≡ some t
    → Points whole ty_pos
    → Points whole (insert t.name pos ty_pos)
insert-Points whole t pos ty_pos e h n p el = elim (Bool-cases (str_eq t.name n)) [
  | inl same ↦ here ((str_eq_iff t.name n).0 same) (
      sym (ap (λ b. if b then some pos else lookup n ty_pos) same)
      ∙ (sym (lookup-insert t.name n pos ty_pos) ∙ el))
  | inr other ↦ h n p (
      sym (ap (λ b. if b then some pos else lookup n ty_pos) other)
      ∙ (sym (lookup-insert t.name n pos ty_pos) ∙ el))
]
  where
    here :
        t.name ≡ n
        → some pos ≡ some p
        → (u : AddTypeRequest) × (get_elem? whole p ≡ some u) × (u.name ≡ n)
    here en ep = (t, subst (λ o. get_elem? whole o ≡ some t) (cc ep) e, en)

pub link_types-Points :
    (ts : TypeSystem) (before types : List AddTypeRequest) (pos : ℕ) (g next : Graph)
    (ty_pos positions : List (Str × ℕ))
    → length before ≡ pos
    → Points (before ++ types) ty_pos
    → link_types ts types pos g ty_pos ≡ ok (next, positions)
    → Points (before ++ types) positions
unfolding link_types
link_types-Points ts before [] pos g next ty_pos positions e hp h =
    let same : ty_pos ≡ positions = cc h in subst (Points (before ++ [])) same hp
link_types-Points ts before (t ∷ rest) pos g next ty_pos positions e hp h =
    let (g1, e1, h1) = >>=-eq-ok (link_fields ts t.name t.field_defs (add_node t.name g)) _ h in
    let moved : (before ++ t ∷ []) ++ rest ≡ before ++ t ∷ rest =
      append_assoc before (t ∷ []) rest in
    subst (λ w. Points w positions) moved
      (link_types-Points ts (before ++ t ∷ []) rest (suc pos) g1 next _ positions
        (length_one before t pos e)
        (subst (λ w. Points w (insert t.name pos ty_pos)) (sym moved)
          (insert-Points (before ++ t ∷ rest) t pos ty_pos (get_elem?-middle before t rest pos e)
            hp))
        h1)
  where
    length_one :
        (b : List AddTypeRequest) (t : AddTypeRequest) (p : ℕ)
        → length b ≡ p
        → length (b ++ t ∷ []) ≡ suc p
    length_one b t p e = length-append b (t ∷ []) ∙ omega (arith, e)
