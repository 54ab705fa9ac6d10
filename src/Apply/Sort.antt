-- ===== src/Apply/Sort.antt =====
-- server/src/apply.rs: `sort_custom_types`, which orders the types of a request by their references.
-- The crates petgraph and permutation are the record `Graphs`.
use chiselstrike.Prelude.{
  ℕ, suc, ◌≡◌, ◌<◌, ◌==◌, Str, str_eq, Bool, true, false, Option, none, some, List, [], ◌∷◌, ◌++◌,
  length, get_elem?, lookup, insert, any, All, Result, ok, ensure, ok_or, ◌>>=◌, ◌>>◌,
  if◌then◌else◌,
}
use chiselstrike.TypeSystem.{TypeSystem}
use chiselstrike.Apply.{
  ApplyError, unknown_type, cycle, permutation_panic, TypeEnum, FieldDefinition, AddTypeRequest,
  field_type, is_builtin,
}

abbrev pub has : Str → List Str → Bool
has name names = any (str_eq name) names

abbrev pub IsDistinct : List Str → Type 0
IsDistinct [] = Unit
IsDistinct (n ∷ ns) = (has n ns ≡ false) × IsDistinct ns

-- `GraphMap`: the nodes in the order of their insertion, and the edges.
pub record Graph : Type 0 where
  pub nodes : List Str
  pub edges : List (Str × Str)

abbrev pub add_node : Str → Graph → Graph
add_node n g = if has n g.nodes then g else record g { nodes = g.nodes ++ n ∷ [] }

abbrev pub add_edge : Str → Str → Graph → Graph
add_edge a b g = record (add_node b (add_node a g)) { edges = g.edges ++ (a, b) ∷ [] }

-- Every edge into a node comes from a node before it.
abbrev pub IsTopological : List (Str × Str) → List Str → List Str → Type 0
IsTopological edges before [] = Unit
IsTopological edges before (n ∷ ns) =
    All (λ e. str_eq e.1 n ≡ true → has e.0 before ≡ true) edges
    × IsTopological edges (n ∷ before) ns

-- The elements at the positions, as far as there are some.
abbrev pub gather : {A : Type 0} → List ℕ → List A → List A
gather [] xs = []
gather (i ∷ is) xs = elim (get_elem? xs i) [ none ↦ gather is xs | some x ↦ x ∷ gather is xs ]

abbrev pub is_in : ℕ → List ℕ → Bool
is_in i is = any (λ j. i == j) is

abbrev pub AreDistinct : List ℕ → Type 0
AreDistinct [] = Unit
AreDistinct (i ∷ is) = (is_in i is ≡ false) × AreDistinct is

-- `petgraph::algo::toposort`, and `apply_inv_slice_in_place` of a permutation in one-line notation.
pub record Graphs : Type 0 where
  pub toposort : Graph → Option (List Str)
  pub apply_inv : List ℕ → List AddTypeRequest → List AddTypeRequest
  pub toposort_sound :
      (g : Graph) (order : List Str)
      → toposort g ≡ some order
      → IsDistinct order × IsTopological g.edges [] order
  pub apply_inv_gathers :
      (positions : List ℕ) (types : List AddTypeRequest)
      → length positions ≡ length types
      → All (λ i. i < length types) positions
      → AreDistinct positions
      → apply_inv positions types ≡ gather positions types

-- The case of a field that refers to a type of the request: no built-in type has its name.
abbrev pub link_entity : Str → Str → Bool → Graph → Graph
link_entity name ty true g = g
link_entity name ty false g = add_edge name ty (add_node name g)

abbrev pub link_type : TypeSystem → Str → TypeEnum → Graph → Result ApplyError Graph
link_type ts ty (TypeEnum.entity name) g = do
  builtin ← is_builtin ts (TypeEnum.entity name)
  ok (link_entity name ty builtin g)
link_type ts ty _ g = ok g

-- The loop over the fields of a type.
unfoldable pub link_fields :
    TypeSystem → Str → List FieldDefinition → Graph → Result ApplyError Graph
link_fields ts ty [] g = ok g
link_fields ts ty (field ∷ rest) g = do
  t ← field_type field
  next ← link_type ts ty t g
  link_fields ts ty rest next

-- The loop over the types, from a position on.
unfoldable pub link_types :
    TypeSystem
    → List AddTypeRequest
    → ℕ
    → Graph
    → List (Str × ℕ)
    → Result ApplyError (Graph × List (Str × ℕ))
unfolding link_fields
link_types ts [] pos g ty_pos = ok (g, ty_pos)
link_types ts (ty ∷ rest) pos g ty_pos = do
  next ← link_fields ts ty.name ty.field_defs (add_node ty.name g)
  link_types ts rest (suc pos) next (insert ty.name pos ty_pos)

-- The positions of the names.
unfoldable pub positions_of : List (Str × ℕ) → List Str → Result ApplyError (List ℕ)
positions_of ty_pos [] = ok []
positions_of ty_pos (n ∷ ns) = do
  p ← ok_or (lookup n ty_pos) (unknown_type n)
  ps ← positions_of ty_pos ns
  ok (p ∷ ps)

module _ (graphs : Graphs) where
  -- `apply_inv_slice_in_place` asserts that the lengths agree.
  unfoldable pub sort_custom_types :
      TypeSystem → List AddTypeRequest → Result ApplyError (List AddTypeRequest)
  unfolding link_types positions_of
  sort_custom_types ts types = do
    (g, ty_pos) ← link_types ts types 0 (record { nodes = []; edges = [] }) []
    names ← ok_or (graphs.toposort g) cycle
    order ← positions_of ty_pos names
    ensure (length order == length types) permutation_panic
    ok (graphs.apply_inv order types)
