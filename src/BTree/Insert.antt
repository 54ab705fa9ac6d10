-- ===== src/BTree/Insert.antt =====
-- Insertion into the ordered maps of the program.
use chiselstrike.Prelude.{
  Str, ◌≡◌, refl, true, some, List, [], ◌∷◌, All, arith, lookup, str_eq, str_eq_iff, if◌then◌else◌,
  Bool-cases, inl, inr, subst,
}
use chiselstrike.BTree.{bytes_ltb, insert_entry}
use chiselstrike.BTree.Order.{IsSorted, bytes_ltb_trans, bytes_ltb_total}

module _ {ℓ} {T : Type ℓ} where
  insert_entry-All :
      (j k : Str) (v : T) (es : List (Str × T))
      → bytes_ltb j k ≡ true
      → All (λ f. bytes_ltb j f.0 ≡ true) es
      → All (λ f. bytes_ltb j f.0 ≡ true) (insert_entry k v es)
  unfolding insert_entry
  insert_entry-All j k v [] lt h = (lt, tt)
  insert_entry-All j k v ((i, w) ∷ es) lt h = elim (Bool-cases (str_eq i k)) [
    | inl same ↦ rw (same, insert_entry) (lt, h.1)
    | inr other ↦ elim (Bool-cases (bytes_ltb k i)) [
      | inl before ↦ rw (other, before, insert_entry) (lt, h)
      | inr after ↦ rw (other, after, insert_entry) (h.0, insert_entry-All j k v es lt h.1)
    ]
  ]

  All-trans :
      (j k : Str) (es : List (Str × T))
      → bytes_ltb j k ≡ true
      → All (λ f. bytes_ltb k f.0 ≡ true) es
      → All (λ f. bytes_ltb j f.0 ≡ true) es
  All-trans j k [] lt h = tt
  All-trans j k ((i, w) ∷ es) lt h = (bytes_ltb_trans j k i lt h.0, All-trans j k es lt h.1)

  pub insert_entry-IsSorted :
      (k : Str) (v : T) (es : List (Str × T)) → IsSorted es → IsSorted (insert_entry k v es)
  unfolding insert_entry
  insert_entry-IsSorted k v [] s = (tt, tt)
  insert_entry-IsSorted k v ((j, w) ∷ es) s = elim (Bool-cases (str_eq j k)) [
    | inl same ↦
        rw (same, insert_entry)
          (subst (λ x. All (λ f. bytes_ltb x f.0 ≡ true) es) ((str_eq_iff j k).0 same) s.0, s.1)
    | inr other ↦ elim (Bool-cases (bytes_ltb k j)) [
      | inl before ↦ rw (other, before, insert_entry) ((before, All-trans k j es before s.0), s)
      | inr after ↦
          rw (other, after, insert_entry)
            (
              insert_entry-All j k v es (bytes_ltb_total k j other after) s.0,
              insert_entry-IsSorted k v es s.1,
            )
    ]
  ]

  pub lookup-insert_entry :
      (k j : Str) (v : T) (es : List (Str × T))
      → lookup j (insert_entry k v es) ≡ (if str_eq k j then some v else lookup j es)
  unfolding insert_entry lookup
  lookup-insert_entry k j v [] = refl
  lookup-insert_entry k j v ((i, w) ∷ es) =
      ground (arith, lookup-insert_entry k j v es, str_eq_iff k j, str_eq_iff i k, str_eq_iff i j)
