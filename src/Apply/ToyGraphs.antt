-- ===== src/Apply/ToyGraphs.antt =====
-- A topological sort to test with.
use chiselstrike.Prelude.{
  ◌≡◌, refl, Str, str_eq, Bool, Bool-cases, true, ◌&&◌, ◌||◌, inl, inr, Option, none, some, List,
  [], ◌∷◌, ◌++◌, all, All, if◌then◌else◌, arith, not, subst,
}
use chiselstrike.Apply.Sort.{has, IsDistinct, Graph, IsTopological, Graphs, gather}

-- A sort that tries the nodes in the order of their insertion and in the opposite order.
unfoldable pub is_distinct : List Str → Bool
is_distinct [] = true
is_distinct (n ∷ ns) = not (has n ns) && is_distinct ns

unfoldable pub edge_fits : List Str → Str → Str × Str → Bool
edge_fits before n e = not (str_eq e.1 n) || has e.0 before

unfoldable pub is_topological : List (Str × Str) → List Str → List Str → Bool
is_topological edges before [] = true
is_topological edges before (n ∷ ns) =
    all (edge_fits before n) edges && is_topological edges (n ∷ before) ns

unfoldable pub fits : Graph → List Str → Bool
fits g order = is_distinct order && is_topological g.edges [] order

abbrev pub reversed : List Str → List Str
reversed [] = []
reversed (n ∷ ns) = reversed ns ++ n ∷ []

unfoldable pub toy_toposort : Graph → Option (List Str)
toy_toposort g =
    if fits g g.nodes
    then some g.nodes
    else if fits g (reversed g.nodes)
    then some (reversed g.nodes)
    else none

is_distinct_sound : (ns : List Str) → is_distinct ns ≡ true → IsDistinct ns
unfolding is_distinct
is_distinct_sound [] h = tt
is_distinct_sound (n ∷ ns) h = (ground (arith, h), is_distinct_sound ns (ground (arith, h)))

edges_fit :
    (before : List Str) (n : Str) (edges : List (Str × Str))
    → all (edge_fits before n) edges ≡ true
    → All (λ e. str_eq e.1 n ≡ true → has e.0 before ≡ true) edges
unfolding edge_fits
edges_fit before n [] h = tt
edges_fit before n (e ∷ es) h =
    (λ k. ground (arith, h, k), edges_fit before n es (ground (arith, h)))

is_topological_sound :
    (edges : List (Str × Str)) (before ns : List Str)
    → is_topological edges before ns ≡ true
    → IsTopological edges before ns
unfolding is_topological
is_topological_sound edges before [] h = tt
is_topological_sound edges before (n ∷ ns) h = (
  edges_fit before n edges (ground (arith, h)),
  is_topological_sound edges (n ∷ before) ns (ground (arith, h)),
)

fits_sound :
    (g : Graph) (order : List Str)
    → fits g order ≡ true
    → IsDistinct order × IsTopological g.edges [] order
unfolding fits
fits_sound g order h = (
  is_distinct_sound order (ground (arith, h)),
  is_topological_sound g.edges [] order (ground (arith, h)),
)

pub toy_toposort_sound :
    (g : Graph) (order : List Str)
    → toy_toposort g ≡ some order
    → IsDistinct order × IsTopological g.edges [] order
unfolding toy_toposort
toy_toposort_sound g order h = elim (Bool-cases (fits g g.nodes)) [
  | inl first ↦
      let same : g.nodes ≡ order = ground (arith, h, first) in
      subst (λ o. IsDistinct o × IsTopological g.edges [] o) same (fits_sound g g.nodes first)
  | inr other ↦ elim (Bool-cases (fits g (reversed g.nodes))) [
    | inl second ↦
        let same : reversed g.nodes ≡ order = ground (arith, h, other, second) in
        subst (λ o. IsDistinct o × IsTopological g.edges [] o) same
          (fits_sound g (reversed g.nodes) second)
    | inr neither ↦ absurd (ground (arith, h, other, neither))
  ]
]

abbrev pub toy_graphs : Graphs
toy_graphs = record {
  toposort = toy_toposort;
  apply_inv = gather;
  toposort_sound = toy_toposort_sound;
  apply_inv_gathers = λ positions types h k d. refl;
}
