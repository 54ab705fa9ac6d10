-- ===== src/PolicyCompiler/Mapping.antt =====
-- chiselc/src/policies.rs: the mapping from the terms of a Boolean expression to predicate ids.
use chiselstrike.Prelude.{
  ℕ, zero, suc, ◌≤◌, ◌<◌, ◌==◌, ==_iff, Bool, true, false, not, ◌||◌, Option, none, some, List, [],
  ◌∷◌, ◌++◌, length, get_elem?, any, All, filter, ◌≡◌, refl, arith, if◌then◌else◌, Bool-cases, inl,
  inr, sym, ap, subst,
}
use chiselstrike.PolicyCompiler.{position}

abbrev pub is_in : ℕ → List ℕ → Bool
is_in k m = any (λ i. i == k) m

abbrev pub Distinct : List ℕ → Type 0
Distinct [] = Unit
Distinct (x ∷ xs) = (is_in x xs ≡ false) × Distinct xs

abbrev without : ℕ → List ℕ → List ℕ
without k m = filter (λ i. not (i == k)) m

is_in-without : (x k : ℕ) (m : List ℕ) → is_in x m ≡ false → is_in x (without k m) ≡ false
is_in-without x k [] h = refl
is_in-without x k (y ∷ ys) h = ground (arith, h, is_in-without x k ys)

without-Distinct : (k : ℕ) (m : List ℕ) → Distinct m → Distinct (without k m)
without-Distinct k [] d = tt
without-Distinct k (x ∷ xs) d = elim (Bool-cases (x == k)) [
  | inl same ↦ rw same (without-Distinct k xs d.1)
  | inr other ↦ rw other (is_in-without x k xs d.0, without-Distinct k xs d.1)
]

length-without_absent : (k : ℕ) (m : List ℕ) → is_in k m ≡ false → length m ≤ length (without k m)
length-without_absent k [] h = omega arith
length-without_absent k (x ∷ xs) h = ground (arith, h, length-without_absent k xs)

length-without : (k : ℕ) (m : List ℕ) → Distinct m → length m ≤ suc (length (without k m))
length-without k [] d = omega arith
length-without k (x ∷ xs) d = elim (Bool-cases (x == k)) [
  | inl same ↦
      let absent : is_in k xs ≡ false = rw (sym ((==_iff x k).0 same)) d.0 in
      rw same (omega (arith, length-without_absent k xs absent))
  | inr other ↦ rw other (omega (arith, length-without k xs d.1))
]

without-below : (n : ℕ) (m : List ℕ) → All (λ i. i < suc n) m → All (λ i. i < n) (without n m)
without-below n [] h = tt
without-below n (x ∷ xs) h = elim (Bool-cases (x == n)) [
  | inl same ↦ rw same (without-below n xs h.1)
  | inr other ↦ rw other (ground (arith, h.0, other), without-below n xs h.1)
]

-- Distinct ids below a bound are no more than the bound.
pub length-Distinct : (n : ℕ) (m : List ℕ) → Distinct m → All (λ i. i < n) m → length m ≤ n
length-Distinct zero [] d h = omega arith
length-Distinct zero (x ∷ xs) d h = omega (arith, h.0)
length-Distinct (suc n) m d h = omega (
  arith,
  length-without n m d,
  length-Distinct n (without n m) (without-Distinct n m d) (without-below n m h),
)

pub position-get_elem? :
    (id : ℕ) (m : List ℕ) {n : ℕ}
    → position id m ≡ some n
    → (get_elem? m n ≡ some id) × (n < length m)
unfolding position
position-get_elem? id [] h = cc
position-get_elem? id (i ∷ is) h =
    found (i == id) (position id is) refl (λ j e. position-get_elem? id is e) h
  where
    found :
        (b : Bool) (o : Option ℕ) {n : ℕ}
        → (i == id) ≡ b
        → ((j : ℕ) → o ≡ some j → (get_elem? is j ≡ some id) × (j < length is))
        → (if b then some 0 else elim o [ none ↦ none | some j ↦ some (suc j) ]) ≡ some n
        → (get_elem? (i ∷ is) n ≡ some id) × (n < length (i ∷ is))
    found true o {n} e rec h =
        let en : 0 ≡ n = cc h in rw (sym en) (ap some ((==_iff i id).0 e), omega arith)
    found false none e rec h = cc
    found false (some j) {n} e rec h =
        let en : suc j ≡ n = cc h in
        let (here, below) = rec j refl in rw (sym en) (here, omega (arith, below))

pub position-is_in : (id : ℕ) (m : List ℕ) → position id m ≡ none → is_in id m ≡ false
unfolding position
position-is_in id [] h = refl
position-is_in id (i ∷ is) h = ground (arith, h, position-is_in id is)

is_in-append : (x id : ℕ) (m : List ℕ) → is_in x (m ++ id ∷ []) ≡ (is_in x m || (id == x))
is_in-append x id [] = ground arith
is_in-append x id (y ∷ ys) = ground (arith, is_in-append x id ys)

pub append-Distinct :
    (id : ℕ) (m : List ℕ) → is_in id m ≡ false → Distinct m → Distinct (m ++ id ∷ [])
append-Distinct id [] h d = (refl, tt)
append-Distinct id (x ∷ xs) h d =
    (ground (arith, is_in-append x id xs, d.0, h), append-Distinct id xs (ground (arith, h)) d.1)

-- A list keeps its elements when it is extended.
pub get_elem?-append :
    {A : Type 0} (m ext : List A) (n : ℕ) {a : A}
    → get_elem? m n ≡ some a
    → get_elem? (m ++ ext) n ≡ some a
get_elem?-append [] ext n h = cc
get_elem?-append (x ∷ xs) ext zero h = h
get_elem?-append (x ∷ xs) ext (suc n) h = get_elem?-append xs ext n h

pub get_elem?-last : {A : Type 0} (m : List A) (a : A) → get_elem? (m ++ a ∷ []) (length m) ≡ some a
get_elem?-last [] a = refl
get_elem?-last (x ∷ xs) a = get_elem?-last xs a

pub get_elem?-below :
    {A : Type 0} (m : List A) (n : ℕ) → n < length m → (a : A) × (get_elem? m n ≡ some a)
get_elem?-below [] n h = let no : ⊥ = omega (arith, h) in elim no [ ]
get_elem?-below (x ∷ xs) zero h = (x, refl)
get_elem?-below (x ∷ xs) (suc n) h = get_elem?-below xs n (omega (arith, h))

pub get_elem?-bound :
    {A : Type 0} (m : List A) (n : ℕ) {a : A} → get_elem? m n ≡ some a → n < length m
get_elem?-bound [] n h = cc
get_elem?-bound (x ∷ xs) zero h = omega arith
get_elem?-bound (x ∷ xs) (suc n) h = omega (arith, get_elem?-bound xs n h)

pub get_elem?-All :
    {A : Type 0} (P : A → Type 0) (m : List A) (n : ℕ) {a : A}
    → All P m
    → get_elem? m n ≡ some a
    → P a
get_elem?-All P [] n h e = cc
get_elem?-All P (x ∷ xs) zero {a} h e = let ex : x ≡ a = cc e in subst P ex h.0
get_elem?-All P (x ∷ xs) (suc n) h e = get_elem?-All P xs n h.1 e
