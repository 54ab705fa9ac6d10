-- ===== src/Apply/Deletion.antt =====
-- Which stored types a plan removes.
use chiselstrike.Prelude.{
  ℕ, ◌==◌, ==_iff, ◌≡◌, refl, ap, ◌∙◌, subst, Str, Bool, Bool-cases, true, false, ◌||◌, ◌⊎◌, inl,
  inr, List, [], ◌∷◌, ◌++◌, map, is_empty, Memᴰ, All, All-map, Result, ok, ensure, >>=-eq-ok,
  if◌then◌else◌,
}
use chiselstrike.Types.{Entity}
use chiselstrike.TypeSystem.{TypeSystem}
use chiselstrike.Apply.{ApplyError, models_have_data}
use chiselstrike.Apply.Sort.{has}
use chiselstrike.Apply.Plan.{Removals, find_removed, plan_removal, names_with_counts, add_counted}

pub ensure-eq-ok : {E : Type 0} (b : Bool) (e : E) {u : Unit {0}} → ensure b e ≡ ok u → b ≡ true
ensure-eq-ok true e h = refl
ensure-eq-ok false e h = cc

if-cases :
    {A : Type 0} (b : Bool) (x y : Result ApplyError A) {r : A}
    → (if b then x else y) ≡ ok r
    → ((b ≡ true) × (x ≡ ok r)) ⊎ ((b ≡ false) × (y ≡ ok r))
if-cases true x y h = inl (refl, h)
if-cases false x y h = inr (refl, h)

-- A stored type that the request does not name.
abbrev pub IsUnnamed : List (Str × Entity) → List Str → Entity → Type 0
IsUnnamed stored names e = (n : Str) × Memᴰ (n, e) stored × (has n names ≡ false)

module _ (count_rows : Entity → Result ApplyError ℕ) (uuid_of : Str → Str) where
  -- A stored type that may be removed: the request does not name it, and it has no rows or its
  -- deletion is allowed.
  abbrev pub IsRemovable : List (Str × Entity) → List Str → Bool → Entity → Type 0
  IsRemovable stored names allow e =
      IsUnnamed stored names e × ((count_rows e ≡ ok 0) ⊎ (allow ≡ true))

  -- What the loop over the stored types has found.
  abbrev AreFound : List (Str × Entity) → List Str → Removals → Type 0
  AreFound stored names r =
      All (λ e. IsUnnamed stored names e × (count_rows e ≡ ok 0)) r.without_data
      × All (λ (x : Entity × ℕ). IsUnnamed stored names x.0) r.with_data

  AreFound-more :
      (x : Str × Entity) (stored : List (Str × Entity)) (names : List Str) (r : Removals)
      → AreFound stored names r
      → AreFound (x ∷ stored) names r
  AreFound-more x stored names r h = (
    All-map r.without_data (λ e k. ((k.0.0, Memᴰ.tail k.0.1, k.0.2), k.1)) h.0,
    All-map r.with_data (λ y k. (k.0, Memᴰ.tail k.1, k.2)) h.1,
  )

  add_counted-AreFound :
      (stored : List (Str × Entity)) (names : List Str) (e : Entity) (cnt : ℕ) (r : Removals)
      → IsUnnamed stored names e
      → count_rows e ≡ ok cnt
      → AreFound stored names r
      → AreFound stored names (add_counted e cnt r)
  add_counted-AreFound stored names e cnt r u c h = elim (Bool-cases (cnt == 0)) [
    | inl zero ↦ rw zero (((u, c ∙ ap ok ((==_iff cnt 0).0 zero)), h.0), h.1)
    | inr some ↦ rw some (h.0, (u, h.1))
  ]

  find_removed-AreFound :
      (stored : List (Str × Entity)) (names : List Str) (r : Removals)
      → find_removed count_rows uuid_of stored names ≡ ok r
      → AreFound stored names r
  unfolding find_removed
  find_removed-AreFound [] names r h =
      let same : record { without_data = []; with_data = [] } ≡ r = cc h in
      subst (AreFound [] names) same (tt, tt)
  find_removed-AreFound ((n, e) ∷ rest) names r h = elim (if-cases (has n names) _ _ h) [
    | inl named ↦ AreFound-more (n, e) rest names r (find_removed-AreFound rest names r named.1)
    | inr other ↦
        let (cnt, ec, h1) = >>=-eq-ok (count_rows e) _ other.1 in
        let (r1, er, h2) = >>=-eq-ok (find_removed count_rows uuid_of rest names) _ h1 in
        let same : add_counted e cnt r1 ≡ r = cc h2 in
        subst (AreFound ((n, e) ∷ rest) names) same (
          add_counted-AreFound ((n, e) ∷ rest) names e cnt r1 (n, Memᴰ.head refl, other.0) ec
            (AreFound-more (n, e) rest names r1 (find_removed-AreFound rest names r1 er)))
  ]

  -- Types with rows are removed only where that is allowed.
  permitted :
      (stored : List (Str × Entity)) (names : List Str) (allow : Bool) (l : List (Entity × ℕ))
      → allow ≡ true
      → All (λ (x : Entity × ℕ). IsUnnamed stored names x.0) l
      → All (IsRemovable stored names allow) (map (λ (x : Entity × ℕ). x.0) l)
  permitted stored names allow [] a h = tt
  permitted stored names allow (x ∷ l) a h = ((h.0, inr a), permitted stored names allow l a h.1)

  guarded :
      (stored : List (Str × Entity)) (names : List Str) (allow : Bool) (l : List (Entity × ℕ))
      → (is_empty l || allow) ≡ true
      → All (λ (x : Entity × ℕ). IsUnnamed stored names x.0) l
      → All (IsRemovable stored names allow) (map (λ (x : Entity × ℕ). x.0) l)
  guarded stored names allow [] g h = tt
  guarded stored names allow (x ∷ l) g h = permitted stored names allow (x ∷ l) g h

  joined :
      (stored : List (Str × Entity)) (names : List Str) (allow : Bool) (es rest : List Entity)
      → All (λ e. IsUnnamed stored names e × (count_rows e ≡ ok 0)) es
      → All (IsRemovable stored names allow) rest
      → All (IsRemovable stored names allow) (es ++ rest)
  joined stored names allow [] rest h k = k
  joined stored names allow (e ∷ es) rest h k =
      ((h.0.0, inl h.0.1), joined stored names allow es rest h.1 k)

  pub plan_removal-IsRemovable :
      (ts : TypeSystem) (names : List Str) (allow : Bool) (to_remove : List Entity)
      → plan_removal count_rows uuid_of ts names allow ≡ ok to_remove
      → All (IsRemovable ts.custom_types names allow) to_remove
  unfolding plan_removal
  plan_removal-IsRemovable ts names allow to_remove h =
      let (r, er, h1) = >>=-eq-ok (find_removed count_rows uuid_of ts.custom_types names) _ h in
      let (u, eu, h2) =
        >>=-eq-ok
          (ensure (is_empty r.with_data || allow)
            (models_have_data (names_with_counts r.with_data)))
          _ h1 in
      let found = find_removed-AreFound ts.custom_types names r er in
      let same : r.without_data ++ map (λ (x : Entity × ℕ). x.0) r.with_data ≡ to_remove = cc h2 in
      subst (All (IsRemovable ts.custom_types names allow)) same (
        joined ts.custom_types names allow r.without_data _ found.0 (
          guarded ts.custom_types names allow r.with_data
            (ensure-eq-ok (is_empty r.with_data || allow) _ eu) found.1))
