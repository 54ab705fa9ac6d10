-- ===== src/PolicyCompiler/Simplify.antt =====
-- chiselc/src/policies.rs: what conditions mean, and `Cond::simplify`.
use chiselstrike.Prelude.{
  ◌%◌, ℕ, zero, suc, ◌+◌, ◌≤◌, ◌<◌, Bool, true, false, ◌&&◌, ◌||◌, none, some, List, [], ◌∷◌, ◌++◌,
  length, get_elem?, any, All, ◌≡◌, refl, arith, Option-cases, inl, inr, ok, >>=-eq-ok, subst, sym,
  ◌∙◌, append-nil, ap, append_assoc, All-append, length-append, ap₂,
}
use chiselstrike.Prelude
use chiselstrike.Json.{Json}
use chiselstrike.PolicyCompiler.{
  Predicate, Predicates, Cond, BoolExpr, BoolExprs, Simplifier, simplify, to_bool, from_bool,
  from_bools, reduce, position, term_of, predicate_to_bool, pair, fold_conds,
}
use chiselstrike.PolicyCompiler.Mapping.{
  Distinct, length-Distinct, position-get_elem?, position-is_in, append-Distinct, get_elem?-append,
  get_elem?-last, get_elem?-below, get_elem?-bound, get_elem?-All,
}

-- The truth of a condition, given that of each predicate.
abbrev pub cond_truth : (ℕ → Bool) → Cond → Bool
cond_truth v (Cond.and l r) = cond_truth v l && cond_truth v r
cond_truth v (Cond.or l r) = cond_truth v l || cond_truth v r
cond_truth v (Cond.not c) = Prelude.not (cond_truth v c)
cond_truth v (Cond.predicate id) = v id
cond_truth v Cond.holds = true
cond_truth v Cond.fails = false

-- The truth of a Boolean expression, given that of each term.
mutual
  pub bool_truth : (ℕ → Bool) → BoolExpr → Bool
  bool_truth v BoolExpr.holds = true
  bool_truth v BoolExpr.fails = false
  bool_truth v (BoolExpr.term i) = v i
  bool_truth v (BoolExpr.and bs) = all_truth v bs
  bool_truth v (BoolExpr.or bs) = any_truth v bs
  bool_truth v (BoolExpr.not b) = Prelude.not (bool_truth v b)

  pub all_truth : (ℕ → Bool) → BoolExprs → Bool
  all_truth v BoolExprs.nil = true
  all_truth v (BoolExprs.cons b bs) = bool_truth v b && all_truth v bs

  pub any_truth : (ℕ → Bool) → BoolExprs → Bool
  any_truth v BoolExprs.nil = false
  any_truth v (BoolExprs.cons b bs) = bool_truth v b || any_truth v bs

abbrev pub NonEmpty : BoolExprs → Type 0
NonEmpty BoolExprs.nil = ⊥
NonEmpty (BoolExprs.cons b bs) = Unit

-- No conjunction and no disjunction is empty, and every term is below the bound.
mutual
  pub WellFormed : ℕ → BoolExpr → Type 0
  WellFormed n BoolExpr.holds = Unit
  WellFormed n BoolExpr.fails = Unit
  WellFormed n (BoolExpr.term i) = i < n
  WellFormed n (BoolExpr.and bs) = NonEmpty bs × AllWellFormed n bs
  WellFormed n (BoolExpr.or bs) = NonEmpty bs × AllWellFormed n bs
  WellFormed n (BoolExpr.not b) = WellFormed n b

  pub AllWellFormed : ℕ → BoolExprs → Type 0
  AllWellFormed n BoolExprs.nil = Unit
  AllWellFormed n (BoolExprs.cons b bs) = WellFormed n b × AllWellFormed n bs

-- The predicates that the condition names are below the bound.
abbrev pub PredicatesBelow : ℕ → Cond → Type 0
PredicatesBelow n (Cond.and l r) = PredicatesBelow n l × PredicatesBelow n r
PredicatesBelow n (Cond.or l r) = PredicatesBelow n l × PredicatesBelow n r
PredicatesBelow n (Cond.not c) = PredicatesBelow n c
PredicatesBelow n (Cond.predicate id) = id < n
PredicatesBelow n Cond.holds = Unit
PredicatesBelow n Cond.fails = Unit

-- What quine-mc_cluskey documents: the forms that it returns are equivalent to the expression and use
-- its terms; there is one at least.
abbrev pub IsSimplifier : Simplifier → Type 0
IsSimplifier s =
    (n : ℕ) (b : BoolExpr)
    → n ≤ s.max_terms
    → WellFormed n b
    → (first : BoolExpr) × (rest : List BoolExpr) × (s.simplify b ≡ first ∷ rest)
      × WellFormed n first
      × ((v : ℕ → Bool) → bool_truth v first ≡ bool_truth v b)

-- The valuation gives a Boolean literal its own truth.
abbrev pub IsLiteral : Predicate → Bool → Type 0
IsLiteral (Predicate.lit (Json.bool b)) x = x ≡ b
IsLiteral _ x = Unit

abbrev pub LiteralsHold : (ℕ → Bool) → ℕ → Predicates → Type 0
LiteralsHold v i [] = Unit
LiteralsHold v i (p ∷ ps) = IsLiteral p (v i) × LiteralsHold v (suc i) ps

LiteralsHold-get :
    (v : ℕ → Bool) (i : ℕ) (ps : Predicates) (id : ℕ) {p : Predicate}
    → LiteralsHold v i ps
    → get_elem? ps id ≡ some p
    → IsLiteral p (v (id + i))
LiteralsHold-get v i [] id h e = cc
LiteralsHold-get v i (q ∷ ps) zero {p} h e =
    let eq : q ≡ p = cc e in
    subst (λ n. IsLiteral p (v n)) (omega arith) (subst (λ x. IsLiteral x (v i)) eq h.0)
LiteralsHold-get v i (q ∷ ps) (suc id) {p} h e =
    let here = LiteralsHold-get v (suc i) ps id h.1 e in
    subst (λ n. IsLiteral p (v n)) (omega arith) here

-- The truth of a term through the mapping.
abbrev term_truth : (ℕ → Bool) → List ℕ → ℕ → Bool
term_truth v mapping i = elim (get_elem? mapping i) [ none ↦ false | some id ↦ v id ]

abbrev Extends : List ℕ → List ℕ → Type 0
Extends m n = (ext : List ℕ) × (n ≡ m ++ ext)

Extends-refl : (m : List ℕ) → Extends m m
Extends-refl m = ([], sym (append-nil m))

Extends-trans : (m : List ℕ) {n o : List ℕ} → Extends m n → Extends n o → Extends m o
Extends-trans m (d, e) (f, g) = (d ++ f, g ∙ ap (λ x. x ++ f) e ∙ append_assoc m d f)

module _ (preds : Predicates) where
  IsMapping : List ℕ → Type 0
  IsMapping m = Distinct m × All (λ id. id < length preds) m

  -- In every extension of the mapping, the expression means what the condition means.
  Means : (ℕ → Bool) → Cond → BoolExpr → List ℕ → Type 0
  Means v c b m =
      (n : List ℕ)
      → IsMapping n
      → Extends m n
      → WellFormed (length n) b × (bool_truth (term_truth v n) b ≡ cond_truth v c)

  Translated : (ℕ → Bool) → Cond → BoolExpr → List ℕ → List ℕ → Type 0
  Translated v c b m n = IsMapping n × Extends m n × Means v c b n

module _ (preds : Predicates) (v : ℕ → Bool) (few : length preds ≤ 256) where
  term-Means :
      (id k n : ℕ) (m : List ℕ)
      → k ≡ n
      → get_elem? m n ≡ some id
      → Means preds v (Cond.predicate id) (BoolExpr.term k) m
  unfolding Means WellFormed bool_truth
  term-Means id k n m ek found o mapping (ext, eo) =
      let found_o : get_elem? o n ≡ some id = rw eo (get_elem?-append m ext n found) in
      rw (ek, term_truth, found_o) (get_elem?-bound o n found_o, refl)

  term_of-Translated :
      (id : ℕ) (m : List ℕ)
      → id < length preds
      → IsMapping preds m
      → Translated preds v (Cond.predicate id) (term_of id m).0 m (term_of id m).1
  unfolding IsMapping Translated term_of
  term_of-Translated id m below (distinct, ids) = elim (Option-cases (position id m)) [
    | inr (n, e) ↦
        let (found, n_below) = position-get_elem? id m e in
        let small : n < 256 =
          omega (arith, few, n_below, length-Distinct (length preds) m distinct ids) in
        rw (e, term_of)
          (
            (distinct, ids),
            Extends-refl m,
            term-Means id (n % 256) n m (ground (arith, small)) found,
          )
    | inl e ↦
        let next = m ++ id ∷ [] in
        let distinct_next = append-Distinct id m (position-is_in id m e) distinct in
        let ids_next = All-append (λ i. i < length preds) m (id ∷ []) ids (below, tt) in
        let small : length next ≤ 256 =
          omega (arith, few, length-Distinct (length preds) next distinct_next ids_next) in
        let last : ((length next % 256) + 255) % 256 ≡ length m =
          ground (arith, small, length-append m (id ∷ [])) in
        rw (e, term_of)
          (
            (distinct_next, ids_next),
            (id ∷ [], refl),
            term-Means id (((length next % 256) + 255) % 256) (length m) next last
                (get_elem?-last m id),
          )
  ]

  Translated-constant :
      (b : BoolExpr) (c : Cond) (m : List ℕ)
      → IsMapping preds m
      → Means preds v c b m
      → Translated preds v c b m m
  unfolding Translated
  Translated-constant b c m h means = (h, Extends-refl m, means)

  predicate_to_bool-Translated :
      (p : Predicate) (id : ℕ) (m : List ℕ)
      → IsLiteral p (v id)
      → id < length preds
      → IsMapping preds m
      → Translated preds v
          (Cond.predicate id)
          (predicate_to_bool p id m).0
          m
          (predicate_to_bool p id m).1
  unfolding predicate_to_bool Means WellFormed bool_truth
  predicate_to_bool-Translated (Predicate.lit (Json.bool true)) id m l below h =
      Translated-constant BoolExpr.holds (Cond.predicate id) m h (λ n k e. (tt, sym l))
  predicate_to_bool-Translated (Predicate.lit (Json.bool false)) id m l below h =
      Translated-constant BoolExpr.fails (Cond.predicate id) m h (λ n k e. (tt, sym l))
  predicate_to_bool-Translated _ id m l below h = term_of-Translated id m below h

  binary-Means :
      (l r : Cond) (lhs rhs : BoolExpr) (m n : List ℕ)
      → Means preds v l lhs m
      → Extends m n
      → Means preds v r rhs n
      → Means preds v (Cond.and l r) (BoolExpr.and (pair lhs rhs)) n
        × Means preds v (Cond.or l r) (BoolExpr.or (pair lhs rhs)) n
  unfolding Means WellFormed bool_truth
  binary-Means l r lhs rhs m n ml e mr = (conjunction, disjunction)
    where
      conjunction : Means preds v (Cond.and l r) (BoolExpr.and (pair lhs rhs)) n
      conjunction o h f =
          let (wl, tl) = ml o h (Extends-trans m e f) in
          let (wr, tr) = mr o h f in ((tt, (wl, (wr, tt))), ground (arith, tl, tr))

      disjunction : Means preds v (Cond.or l r) (BoolExpr.or (pair lhs rhs)) n
      disjunction o h f =
          let (wl, tl) = ml o h (Extends-trans m e f) in
          let (wr, tr) = mr o h f in ((tt, (wl, (wr, tt))), ground (arith, tl, tr))

  not-Means :
      (c : Cond) (b : BoolExpr) (m : List ℕ)
      → Means preds v c b m
      → Means preds v (Cond.not c) (BoolExpr.not b) m
  unfolding Means WellFormed bool_truth
  not-Means c b m mean n h e = let (w, t) = mean n h e in (w, ground (arith, t))

  constant-Means :
      (m : List ℕ)
      → Means preds v Cond.holds BoolExpr.holds m × Means preds v Cond.fails BoolExpr.fails m
  unfolding Means WellFormed bool_truth
  constant-Means m = ((λ n h e. (tt, refl)), (λ n h e. (tt, refl)))

module _ (preds : Predicates) (v : ℕ → Bool) (few : length preds ≤ 256)
    (literals : LiteralsHold v 0 preds) where
  to_bool-Translated :
      (c : Cond) (m : List ℕ)
      → PredicatesBelow (length preds) c
      → IsMapping preds m
      → (b : BoolExpr) × (n : List ℕ) × (to_bool preds c m ≡ ok (b, n)) × Translated preds v c b m n
  unfolding to_bool Translated
  to_bool-Translated (Cond.and l r) m (bl, br) h =
      let (lhs, n, el, (hl, xl, ml)) = to_bool-Translated l m bl h in
      let (rhs, o, er, (hr, xr, mr)) = to_bool-Translated r n br hl in
      (
        BoolExpr.and (pair lhs rhs),
        o,
        rw (el, er) refl,
        (hr, Extends-trans m xl xr, (binary-Means preds v few l r lhs rhs n o ml xr mr).0),
      )
  to_bool-Translated (Cond.or l r) m (bl, br) h =
      let (lhs, n, el, (hl, xl, ml)) = to_bool-Translated l m bl h in
      let (rhs, o, er, (hr, xr, mr)) = to_bool-Translated r n br hl in
      (
        BoolExpr.or (pair lhs rhs),
        o,
        rw (el, er) refl,
        (hr, Extends-trans m xl xr, (binary-Means preds v few l r lhs rhs n o ml xr mr).1),
      )
  to_bool-Translated (Cond.not c) m below h =
      let (b, n, e, (k, x, mean)) = to_bool-Translated c m below h in
      (BoolExpr.not b, n, rw e refl, (k, x, not-Means preds v few c b n mean))
  to_bool-Translated (Cond.predicate id) m below h =
      let (p, found) = get_elem?-below preds id below in
      let literal =
        subst (λ i. IsLiteral p (v i)) (omega arith)
          (LiteralsHold-get v 0 preds id literals found) in
      (
        (predicate_to_bool p id m).0,
        (predicate_to_bool p id m).1,
        rw found refl,
        predicate_to_bool-Translated preds v few p id m literal below h,
      )
  to_bool-Translated Cond.holds m below h = (
    BoolExpr.holds,
    m,
    refl,
    Translated-constant preds v few _ _ m h (constant-Means preds v few m).0,
  )
  to_bool-Translated Cond.fails m below h = (
    BoolExpr.fails,
    m,
    refl,
    Translated-constant preds v few _ _ m h (constant-Means preds v few m).1,
  )

abbrev all_hold : (ℕ → Bool) → List Cond → Bool
all_hold v cs = Prelude.all (cond_truth v) cs

abbrev any_holds : (ℕ → Bool) → List Cond → Bool
any_holds v cs = any (cond_truth v) cs

module _ (v : ℕ → Bool) where
  fold_conds-truth :
      (acc : Cond) (cs : List Cond)
      → (cond_truth v (fold_conds Cond.and acc cs) ≡ (cond_truth v acc && all_hold v cs))
        × (cond_truth v (fold_conds Cond.or acc cs) ≡ (cond_truth v acc || any_holds v cs))
  unfolding fold_conds
  fold_conds-truth acc [] = (ground arith, ground arith)
  fold_conds-truth acc (c ∷ cs) = (
    ground (arith, (fold_conds-truth (Cond.and acc c) cs).0),
    ground (arith, (fold_conds-truth (Cond.or acc c) cs).1),
  )

fold_conds-below :
    (k : ℕ) (acc : Cond) (cs : List Cond)
    → PredicatesBelow k acc
    → All (PredicatesBelow k) cs
    → PredicatesBelow k (fold_conds Cond.and acc cs) × PredicatesBelow k (fold_conds Cond.or acc cs)
unfolding fold_conds
fold_conds-below k acc [] h hs = (h, h)
fold_conds-below k acc (c ∷ cs) h hs = (
  (fold_conds-below k (Cond.and acc c) cs (h, hs.0) hs.1).0,
  (fold_conds-below k (Cond.or acc c) cs (h, hs.0) hs.1).1,
)

-- The conditions made of expressions: their truth and their predicates.
module _ (v : ℕ → Bool) (k : ℕ) (m : List ℕ) (ids : All (λ id. id < k) m) where
  Converted : BoolExpr → Type 0
  Converted b =
      (c : Cond) × (from_bool m b ≡ ok c)
      × (cond_truth v c ≡ bool_truth (term_truth v m) b)
      × PredicatesBelow k c

  ConvertedAll : BoolExprs → Type 0
  ConvertedAll bs =
      (cs : List Cond) × (from_bools m bs ≡ ok cs)
      × (all_hold v cs ≡ all_truth (term_truth v m) bs)
      × (any_holds v cs ≡ any_truth (term_truth v m) bs)
      × All (PredicatesBelow k) cs

  from_bools_nonempty : (bs : BoolExprs) → NonEmpty bs → from_bools m bs ≡ ok [] → ⊥
  unfolding from_bool
  from_bools_nonempty BoolExprs.nil n e = elim n [ ]
  from_bools_nonempty (BoolExprs.cons b bs) n e =
      let (c, ec, e1) = >>=-eq-ok (from_bool m b) _ e in
      let (cs, ecs, e2) = >>=-eq-ok (from_bools m bs) _ e1 in cc e2

  reduce-Converted :
      (bs : BoolExprs)
      → NonEmpty bs
      → ConvertedAll bs
      → Converted (BoolExpr.and bs) × Converted (BoolExpr.or bs)
  unfolding Converted ConvertedAll from_bool reduce bool_truth fold_conds
  reduce-Converted bs some_b ([], e, ta, to, below) = elim (from_bools_nonempty bs some_b e) [ ]
  reduce-Converted bs some_b (c ∷ cs, e, ta, to, below) = (
    (
      fold_conds Cond.and c cs,
      rw e refl,
      (fold_conds-truth v c cs).0 ∙ ta,
      (fold_conds-below k c cs below.0 below.1).0,
    ),
    (
      fold_conds Cond.or c cs,
      rw e refl,
      (fold_conds-truth v c cs).1 ∙ to,
      (fold_conds-below k c cs below.0 below.1).1,
    ),
  )

  mutual
    unfolding Converted ConvertedAll from_bool bool_truth WellFormed

    from_bool-Converted : (b : BoolExpr) → WellFormed (length m) b → Converted b
    from_bool-Converted BoolExpr.holds w = (Cond.holds, refl, refl, tt)
    from_bool-Converted BoolExpr.fails w = (Cond.fails, refl, refl, tt)
    from_bool-Converted (BoolExpr.term i) w =
        let (id, found) = get_elem?-below m i w in
        (
          Cond.predicate id,
          rw found refl,
          rw (term_truth, found) refl,
          get_elem?-All (λ j. j < k) m i ids found,
        )
    from_bool-Converted (BoolExpr.and bs) w =
        (reduce-Converted bs w.0 (from_bools-Converted bs w.1)).0
    from_bool-Converted (BoolExpr.or bs) w =
        (reduce-Converted bs w.0 (from_bools-Converted bs w.1)).1
    from_bool-Converted (BoolExpr.not b) w =
        let (c, e, t, below) = from_bool-Converted b w in
        (Cond.not c, rw e refl, ap Prelude.not t, below)

    from_bools-Converted : (bs : BoolExprs) → AllWellFormed (length m) bs → ConvertedAll bs
    from_bools-Converted BoolExprs.nil w = ([], refl, refl, refl, tt)
    from_bools-Converted (BoolExprs.cons b bs) w =
        let (c, e, t, below) = from_bool-Converted b w.0 in
        let (cs, es, ta, to, all_below) = from_bools-Converted bs w.1 in
        (
          c ∷ cs,
          rw (e, es) refl,
          ap₂ (λ x y. x && y) t ta,
          ap₂ (λ x y. x || y) t to,
          (below, all_below),
        )

-- With a simplifier that keeps to its documentation, for at most as many predicates as it works for
-- and as a `u8` counts, and predicates that are all there: `Cond::simplify` returns a condition, and
-- for every valuation that gives Boolean literals their own truth, it is as true as the one given.
pub simplify_correct :
    (s : Simplifier) (preds : Predicates) (v : ℕ → Bool) (c : Cond)
    → IsSimplifier s
    → length preds ≤ s.max_terms
    → length preds ≤ 256
    → LiteralsHold v 0 preds
    → PredicatesBelow (length preds) c
    → (out : Cond) × (simplify s preds c ≡ ok out)
      × (cond_truth v out ≡ cond_truth v c)
      × PredicatesBelow (length preds) out
unfolding simplify IsMapping Means Translated Converted
simplify_correct s preds v c correct fits few literals below =
    let (b, m, translated, ((distinct, ids), extends, means)) =
      to_bool-Translated preds v few literals c [] below (tt, tt) in
    let (well, same) = means m (distinct, ids) (Extends-refl m) in
    let most = length-Distinct (length preds) m distinct ids in
    let (first, rest, simplified, well_first, same_first) =
      correct (length m) b (omega (arith, most, fits)) well in
    let (out, converted, truth, out_below) =
      from_bool-Converted v (length preds) m ids first well_first in
    (
      out,
      rw (translated, simplified) converted,
      truth ∙ same_first (term_truth v m) ∙ same,
      out_below,
    )
