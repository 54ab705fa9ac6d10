-- ===== src/Apply/Order/Sorted.antt =====
-- The types of a request, sorted: each after those that it refers to, and all of them.
use chiselstrike.Prelude.{
  ℕ, zero, suc, arith, ap, Bool, false, ◌||◌, ◌⊎◌, inl, inr, Option-cases, Memᴰ, ◌==◌, ==_iff, ◌≡◌,
  refl, sym, ◌∙◌, subst, Str, str_eq, str_eq_refl, true, some, List, [], ◌∷◌, ◌++◌, length,
  get_elem?, lookup, All, All-map, ok, ensure, ok_or, ok_or-eq-ok, >>=-eq-ok,
}
use mathlib.Core.List.{Permᴰ}
use mathlib.Core.List.Permᴰ
use chiselstrike.TypeSystem.{TypeSystem}
use chiselstrike.Apply.{cycle, permutation_panic, unknown_type, AddTypeRequest}
use chiselstrike.Apply.Sort.{
  has, IsDistinct, Graph, Graphs, IsTopological, gather, link_types, positions_of,
  sort_custom_types,
}
use chiselstrike.Apply.Deletion.{ensure-eq-ok}
use chiselstrike.Apply.Plan.{names_of}
use chiselstrike.Apply.Order.Positions.{gather-cons, positions_of-Located, positions_of-AreDistinct}
use chiselstrike.Apply.Order.{
  custom_refs, IsOrdered, edges_to, all_edges, edges-link_types, Points, link_types-Points,
}

-- What holds of all edges holds of the references of each type.
All-edges_to :
    (Q : Str × Str → Type 0) (ty : Str) (names : List Str) (rest : List (Str × Str))
    → All Q (edges_to ty names ++ rest)
    → All (λ n. Q (n, ty)) names × All Q rest
All-edges_to Q ty [] rest h = (tt, h)
All-edges_to Q ty (n ∷ ns) rest h = let (a, b) = All-edges_to Q ty ns rest h.1 in ((h.0, a), b)

All-all_edges :
    (Q : Str × Str → Type 0) (ts : TypeSystem) (types : List AddTypeRequest) (p : ℕ)
    (t : AddTypeRequest)
    → All Q (all_edges ts types)
    → get_elem? types p ≡ some t
    → All (λ n. Q (n, t.name)) (custom_refs ts t.field_defs)
All-all_edges Q ts [] p t h e = absurd (cc e)
All-all_edges Q ts (u ∷ rest) zero t h e =
    let same : u ≡ t = cc e in
    subst (λ (x : AddTypeRequest). All (λ n. Q (n, x.name)) (custom_refs ts x.field_defs)) same
      (All-edges_to Q u.name (custom_refs ts u.field_defs) (all_edges ts rest) h).0
All-all_edges Q ts (u ∷ rest) (suc p) t h e =
    All-all_edges Q ts rest p t
      (All-edges_to Q u.name (custom_refs ts u.field_defs) (all_edges ts rest) h).1 e

module _ (types : List AddTypeRequest) (ty_pos : List (Str × ℕ))
    (points : Points types ty_pos) where
  -- The references of a type at a name in a topological order.
  refs_before :
      (ts : TypeSystem) (before : List Str) (n : Str) (p : ℕ) (t : AddTypeRequest)
      → get_elem? types p ≡ some t
      → t.name ≡ n
      → All (λ e. str_eq e.1 n ≡ true → has e.0 before ≡ true) (all_edges ts types)
      → All (λ m. has m before ≡ true) (custom_refs ts t.field_defs)
  refs_before ts before n p t et en h =
      All-map (custom_refs ts t.field_defs) (λ m k. k (rw en (str_eq_refl n)))
        (All-all_edges (λ e. str_eq e.1 n ≡ true → has e.0 before ≡ true) ts types p t h et)

  IsOrdered-cons :
      (ts : TypeSystem) (before : List Str) (n : Str) (p : ℕ) (ps : List ℕ) (t : AddTypeRequest)
      → get_elem? types p ≡ some t
      → t.name ≡ n
      → All (λ m. has m before ≡ true) (custom_refs ts t.field_defs)
      → IsOrdered ts (n ∷ before) (gather ps types)
      → IsOrdered ts before (gather (p ∷ ps) types)
  IsOrdered-cons ts before n p ps t et en r k =
      rw (gather-cons types p ps t et)
        (r, subst (λ m. IsOrdered ts (m ∷ before) (gather ps types)) (sym en) k)

  gather-IsOrdered :
      (ts : TypeSystem) (before names : List Str) (order : List ℕ)
      → positions_of ty_pos names ≡ ok order
      → IsTopological (all_edges ts types) before names
      → IsOrdered ts before (gather order types)
  unfolding positions_of
  gather-IsOrdered ts before [] order h k =
      let same : [] ≡ order = cc h in subst (λ o. IsOrdered ts before (gather o types)) same tt
  gather-IsOrdered ts before (n ∷ ns) order h k =
      let (p, ep, h1) = >>=-eq-ok (ok_or (lookup n ty_pos) (unknown_type n)) _ h in
      let (ps, es, h2) = >>=-eq-ok (positions_of ty_pos ns) _ h1 in
      let same : p ∷ ps ≡ order = cc h2 in
      let (t, et, en) = points n p (ok_or-eq-ok (lookup n ty_pos) _ ep) in
      subst (λ o. IsOrdered ts before (gather o types)) same
        (IsOrdered-cons ts before n p ps t et en (refs_before ts before n p t et en k.0)
          (gather-IsOrdered ts (n ∷ before) ns ps es k.1))

get_elem?-Memᴰ :
    (types : List AddTypeRequest) (p : ℕ) (t : AddTypeRequest)
    → get_elem? types p ≡ some t
    → Memᴰ t types
get_elem?-Memᴰ [] p t e = cc
get_elem?-Memᴰ (u ∷ us) zero t e = let same : u ≡ t = cc e in Memᴰ.head (sym same)
get_elem?-Memᴰ (u ∷ us) (suc p) t e = Memᴰ.tail (get_elem?-Memᴰ us p t e)

-- What stands at positions of a list are elements of it.
gather-All :
    (order : List ℕ) (types : List AddTypeRequest) → All (λ t. Memᴰ t types) (gather order types)
gather-All [] types = tt
gather-All (p ∷ ps) types = elim (Option-cases (get_elem? types p)) [
  | inl missed ↦ rw (missed, gather) (gather-All ps types)
  | inr (t, found) ↦ rw (found, gather) (get_elem?-Memᴰ types p t found, gather-All ps types)
]

-- The element taken out of the list.
record Taken (t : AddTypeRequest) (types : List AddTypeRequest) : Type 0 where
  rest : List AddTypeRequest
  permuted : Permᴰ (t ∷ rest) types
  shorter : length types ≡ suc (length rest)
  others : (u : AddTypeRequest) → Memᴰ u types → (u ≡ t) ⊎ Memᴰ u rest

take_out : (t : AddTypeRequest) (types : List AddTypeRequest) → Memᴰ t types → Taken t types
take_out t [] m = elim m [ ]
take_out t (u ∷ us) (Memᴰ.head e) = record {
  rest = us;
  permuted = Permᴰ.cons e (Permᴰ.refl us);
  shorter = refl;
  others = others_of;
}
  where
    others_of : (v : AddTypeRequest) → Memᴰ v (u ∷ us) → (v ≡ t) ⊎ Memᴰ v us
    others_of v (Memᴰ.head h) = inl (h ∙ sym e)
    others_of v (Memᴰ.tail h) = inr h
take_out t (u ∷ us) (Memᴰ.tail m) =
    let taken = take_out t us m in
    record {
      rest = u ∷ taken.rest;
      permuted = Permᴰ.trans (Permᴰ.swap refl refl) (Permᴰ.cons refl taken.permuted);
      shorter = ap suc taken.shorter;
      others = others_of taken;
    }
  where
    others_of :
        (taken : Taken t us) (v : AddTypeRequest)
        → Memᴰ v (u ∷ us)
        → (v ≡ t) ⊎ Memᴰ v (u ∷ taken.rest)
    others_of taken v (Memᴰ.head h) = inr (Memᴰ.head h)
    others_of taken v (Memᴰ.tail h) = elim (taken.others v h) [
      | inl same ↦ inl same
      | inr inside ↦ inr (Memᴰ.tail inside)
    ]

or_false : (a b : Bool) → (a || b) ≡ false → (a ≡ false) × (b ≡ false)
or_false false false h = (refl, refl)
or_false false true h = cc
or_false true b h = cc

-- Types with other names are among those that are left.
among_rest :
    (t : AddTypeRequest) (types : List AddTypeRequest) (taken : Taken t types)
    (sorted : List AddTypeRequest)
    → has t.name (names_of sorted) ≡ false
    → All (λ u. Memᴰ u types) sorted
    → All (λ u. Memᴰ u taken.rest) sorted
among_rest t types taken [] h k = tt
among_rest t types taken (u ∷ us) h k =
    let (other, more) = or_false (str_eq t.name u.name) (has t.name (names_of us)) h in
    (
      elim (taken.others u k.0) [
        | inl same ↦ absurd (
            cc (
              str_eq_refl t.name,
              subst (λ (v : AddTypeRequest). str_eq t.name v.name ≡ false) same other,
            ))
        | inr inside ↦ inside
      ],
      among_rest t types taken us more k.1,
    )

-- As many elements of a list as it has, with different names, are all of them.
Permᴰ-of :
    (sorted types : List AddTypeRequest)
    → IsDistinct (names_of sorted)
    → All (λ t. Memᴰ t types) sorted
    → length sorted ≡ length types
    → Permᴰ sorted types
Permᴰ-of [] [] d k e = Permᴰ.nil
Permᴰ-of [] (t ∷ types) d k e = absurd (omega (arith, e))
Permᴰ-of (t ∷ ts) types d k e =
    let taken = take_out t types k.0 in
    let same : length ts ≡ length taken.rest = omega (arith, e, taken.shorter) in
    Permᴰ.trans
      (Permᴰ.cons refl (Permᴰ-of ts taken.rest d.1 (among_rest t types taken ts d.0 k.1) same))
      taken.permuted

no-Points : (types : List AddTypeRequest) → Points types []
unfolding lookup
no-Points types n p h = cc h

-- What sorting promises: the types of the request in another order, with different names, each after
-- those that it refers to.
abbrev pub IsSortOf : TypeSystem → List AddTypeRequest → List AddTypeRequest → Type 0
IsSortOf ts types sorted =
    Permᴰ sorted types × IsDistinct (names_of sorted) × IsOrdered ts [] sorted

module _ (graphs : Graphs) where
  -- From the parts of the computation.
  sorted_parts :
      (ts : TypeSystem) (types : List AddTypeRequest) (g : Graph) (ty_pos : List (Str × ℕ))
      (names : List Str) (order : List ℕ)
      → Points types ty_pos
      → g.edges ≡ all_edges ts types
      → graphs.toposort g ≡ some names
      → positions_of ty_pos names ≡ ok order
      → length order ≡ length types
      → IsSortOf ts types (graphs.apply_inv order types)
  sorted_parts ts types g ty_pos names order points edges et eo el =
      let (distinct, topological) = graphs.toposort_sound g names et in
      let located = positions_of-Located types ty_pos points names order eo in
      rw
        (graphs.apply_inv_gathers order types el located.bounded
          (positions_of-AreDistinct types ty_pos points names order eo distinct))
        (
          Permᴰ-of (gather order types) types (subst IsDistinct (sym located.named) distinct)
              (gather-All order types) (located.measured ∙ el),
          subst IsDistinct (sym located.named) distinct,
          gather-IsOrdered types ty_pos points ts [] names order eo
              (subst (λ es. IsTopological es [] names) edges topological),
        )

  -- When the sorting of the types of a request succeeds, the result is a permutation of the types of
  -- the request; their names are different, and each type comes after the types of the request that its
  -- fields refer to.
  pub sort_custom_types-IsSortOf :
      (ts : TypeSystem) (types sorted : List AddTypeRequest)
      → sort_custom_types graphs ts types ≡ ok sorted
      → IsSortOf ts types sorted
  unfolding sort_custom_types
  sort_custom_types-IsSortOf ts types sorted h =
      let ((g, ty_pos), el, h1) =
        >>=-eq-ok (link_types ts types 0 (record { nodes = []; edges = [] }) []) _ h in
      let (names, en, h2) = >>=-eq-ok (ok_or (graphs.toposort g) cycle) _ h1 in
      let (order, eo, h3) = >>=-eq-ok (positions_of ty_pos names) _ h2 in
      let (u, eu, h4) = >>=-eq-ok (ensure (length order == length types) permutation_panic) _ h3 in
      let same : graphs.apply_inv order types ≡ sorted = cc h4 in
      subst (IsSortOf ts types) same (
        sorted_parts ts types g ty_pos names order
          (link_types-Points ts [] types 0 _ g [] ty_pos refl (no-Points types) el)
          (edges-link_types ts types 0 _ g [] ty_pos el) (ok_or-eq-ok (graphs.toposort g) _ en) eo
          ((==_iff (length order) (length types)).0 (ensure-eq-ok _ _ eu)))
