-- ===== src/QueryPlan/Stage.antt =====
-- The operators of one stage of `make_raw_query` (server/src/datastore/query.rs), up to a limit.
use chiselstrike.Prelude
use chiselstrike.Prelude.{
  ℕ, suc, Bool, true, false, Option, none, some, List, [], ◌∷◌, ◌++◌, length, ◌≡◌, refl, sym, ap,
  ◌∙◌, arith, filter-filter, filter-congr, All-of, ok, ◌&&◌,
}
use chiselstrike.Expr.{Expr, and_expr}
use chiselstrike.Expr.Eval.{Truth, Row, truth, truth-and, both}
use chiselstrike.QueryPlan.{
  QueryOp, SortBy, split_on_first_take, conjoin, gather_from, last_of, as_sort_by, as_take, as_skip,
  contains_count, position_of_count, is_some,
}
use chiselstrike.QueryPlan.Pipeline.{
  Database, IsOrdering, Answer, rows, number, apply_op, pipeline, filtered, ordered, limited,
  skipped, sorts_once, satisfies, is_holds,
}

pub split-append :
    (ops : List QueryOp) → (split_on_first_take ops).0 ++ (split_on_first_take ops).1 ≡ ops
unfolding split_on_first_take
split-append [] = refl
split-append (QueryOp.take n ∷ ops) = refl
split-append (QueryOp.skip n ∷ ops) = refl
split-append (op ∷ ops) = ap (λ x. op ∷ x) (split-append ops)

pub pipeline-append :
    (db : Database) (xs ys : List QueryOp) (a : Answer)
    → pipeline db (xs ++ ys) a ≡ pipeline db ys (pipeline db xs a)
unfolding pipeline
pipeline-append db [] ys a = refl
pipeline-append db (op ∷ xs) ys a = pipeline-append db xs ys (apply_op db op a)

pub pipeline-number :
    (db : Database) (ops : List QueryOp) (n : ℕ) → pipeline db ops (number n) ≡ number n
unfolding pipeline apply_op
pipeline-number db [] n = refl
pipeline-number db (QueryOp.count ∷ ops) n = pipeline-number db ops n
pipeline-number db (_ ∷ ops) n = pipeline-number db ops n

pub sorts_once-split :
    (seen : Bool) (ops : List QueryOp)
    → sorts_once seen ops ≡ true
    → sorts_once false (split_on_first_take ops).1 ≡ true
unfolding sorts_once split_on_first_take
sorts_once-split seen [] h = refl
sorts_once-split seen (QueryOp.take n ∷ ops) h = h
sorts_once-split seen (QueryOp.skip n ∷ ops) h = h
sorts_once-split seen (QueryOp.sort_by s ∷ ops) h = sorts_once-split true ops (ground arith)
sorts_once-split seen (QueryOp.filter e ∷ ops) h = sorts_once-split seen ops h
sorts_once-split seen (QueryOp.projection f ∷ ops) h = sorts_once-split seen ops h
sorts_once-split seen (QueryOp.count ∷ ops) h = sorts_once-split seen ops h

is_holds-both : (a b : Truth) → (is_holds a && is_holds b) ≡ is_holds (both a b)
is_holds-both a b = ground arith

satisfies-and :
    (f e : Expr) (r : Row) → (satisfies f r && satisfies e r) ≡ satisfies (and_expr f e) r
unfolding satisfies
satisfies-and f e r = is_holds-both (truth r f) (truth r e) ∙ ap is_holds (sym (truth-and r f e))

filtered-conjoin :
    (acc : Option Expr) (e : Expr) (xs : List Row)
    → Prelude.filter (satisfies e) (filtered acc xs) ≡ filtered (some (conjoin acc e)) xs
unfolding conjoin
filtered-conjoin none e xs = refl
filtered-conjoin (some f) e xs =
    filter-filter (satisfies e) (satisfies f) xs
    ∙ filter-congr _ _ xs (All-of xs (satisfies-and f e))

-- A later sort replaces an earlier one.
abbrev pub later : Option SortBy → Option SortBy → Option SortBy
later srt none = srt
later srt (some s) = some s

pub later-none : (s : Option SortBy) → later none s ≡ s
later-none none = refl
later-none (some s) = refl

last_of-skip :
    {A : Type 0} (f : QueryOp → Option A) (op : QueryOp) (ops : List QueryOp)
    → f op ≡ none
    → last_of f (op ∷ ops) ≡ last_of f ops
unfolding last_of
last_of-skip f op ops h = ground arith

later-last_of :
    (s : SortBy) (ops : List QueryOp)
    → later (some s) (last_of as_sort_by ops)
      ≡ later none (last_of as_sort_by (QueryOp.sort_by s ∷ ops))
unfolding last_of
later-last_of s ops = ground arith

-- A count is the last operator, and stays counted behind an operator that is none.
contains_count-skip :
    (op : QueryOp) (ops : List QueryOp) (b : Bool)
    → position_of_count (op ∷ ops)
      ≡ (elim (position_of_count ops) [ none ↦ none | some p ↦ some (suc p) ])
    → contains_count (op ∷ ops) ≡ ok b
    → contains_count ops ≡ ok b
unfolding contains_count position_of_count
contains_count-skip op [] b e h = ground arith
contains_count-skip op (op' ∷ ops) b e h = ground arith

contains_count-first :
    (ops : List QueryOp) (b : Bool)
    → contains_count (QueryOp.count ∷ ops) ≡ ok b
    → (b ≡ true) × (ops ≡ [])
unfolding contains_count position_of_count
contains_count-first [] b h = (cc, refl)
contains_count-first (op ∷ ops) b h = absurd (ground arith)

contains_count-nil : (b : Bool) → contains_count [] ≡ ok b → b ≡ false
unfolding contains_count position_of_count
contains_count-nil b h = cc

contains_count-limit :
    (op : QueryOp) (b : Bool)
    → position_of_count (op ∷ []) ≡ none
    → contains_count (op ∷ []) ≡ ok b
    → b ≡ false
unfolding contains_count
contains_count-limit op b e h = ground arith

-- The answer of the clauses, from the rows as WHERE and ORDER BY leave them.
abbrev pub finish : Bool → Option ℕ → Option ℕ → List Row → Answer
finish true limit offset xs = number (length xs)
finish false limit offset xs = rows (limited limit (skipped offset xs))

module _ (db : Database) (laws : IsOrdering db) where
  filter-ordered :
      (srt : Option SortBy) (p : Row → Bool) (xs : List Row)
      → Prelude.filter p (ordered db srt xs) ≡ ordered db srt (Prelude.filter p xs)
  filter-ordered none p xs = refl
  filter-ordered (some s) p xs = laws.order-filter s p xs

  pub length-ordered :
      (srt : Option SortBy) (xs : List Row) → length (ordered db srt xs) ≡ length xs
  length-ordered none xs = refl
  length-ordered (some s) xs = laws.keeps_length s xs

  finish-skip :
      (op : QueryOp) (st : List QueryOp) (b : Bool) (srt : Option SortBy) (ys : List Row)
      → as_take op ≡ none
      → as_skip op ≡ none
      → as_sort_by op ≡ none
      → finish b
          (last_of as_take st)
          (last_of as_skip st)
          (ordered db (later srt (last_of as_sort_by st)) ys)
        ≡ finish b
            (last_of as_take (op ∷ st))
            (last_of as_skip (op ∷ st))
            (ordered db (later srt (last_of as_sort_by (op ∷ st))) ys)
  finish-skip op st b srt ys t k s = λ i.
      finish b (sym (last_of-skip as_take op st t) i) (sym (last_of-skip as_skip op st k) i)
        (ordered db (later srt (sym (last_of-skip as_sort_by op st s) i)) ys)

  finish-sort :
      (s : SortBy) (st : List QueryOp) (b : Bool) (ys : List Row)
      → finish b
          (last_of as_take st)
          (last_of as_skip st)
          (ordered db (later (some s) (last_of as_sort_by st)) ys)
        ≡ finish b
            (last_of as_take (QueryOp.sort_by s ∷ st))
            (last_of as_skip (QueryOp.sort_by s ∷ st))
            (ordered db (later none (last_of as_sort_by (QueryOp.sort_by s ∷ st))) ys)
  finish-sort s st b ys = λ i.
      finish b (sym (last_of-skip as_take (QueryOp.sort_by s) st refl) i)
        (sym (last_of-skip as_skip (QueryOp.sort_by s) st refl) i)
        (ordered db (later-last_of s st i) ys)

  finish-count :
      (srt : Option SortBy) (acc : Option Expr) (xs : List Row) (st : List QueryOp) (b : Bool)
      → b ≡ true
      → st ≡ []
      → number (length (filtered acc xs))
        ≡ finish b (last_of as_take (QueryOp.count ∷ st)) (last_of as_skip (QueryOp.count ∷ st)) (
            ordered db
              (later srt (last_of as_sort_by (QueryOp.count ∷ st)))
              (filtered (gather_from acc st) xs))
  unfolding gather_from last_of
  finish-count srt acc xs st b e l =
      rw (e, l) (ap number (sym (length-ordered (later srt none) (filtered acc xs))))

  -- A stage after some of its operators: `acc` and `srt` are what they have gathered.
  pub stage-pipeline :
      (ops : List QueryOp) (acc : Option Expr) (srt : Option SortBy) (b : Bool) (xs : List Row)
      → sorts_once (is_some srt) ops ≡ true
      → contains_count (split_on_first_take ops).0 ≡ ok b
      → pipeline db (split_on_first_take ops).0 (rows (ordered db srt (filtered acc xs)))
        ≡ finish b
            (last_of as_take (split_on_first_take ops).0)
            (last_of as_skip (split_on_first_take ops).0)
            (ordered db
              (later srt (last_of as_sort_by (split_on_first_take ops).0))
              (filtered (gather_from acc (split_on_first_take ops).0) xs))
  unfolding split_on_first_take pipeline apply_op gather_from sorts_once
  stage-pipeline [] acc srt b xs h c = rw (contains_count-nil b c, finish) (unfold last_of in refl)
  stage-pipeline (QueryOp.take n ∷ ops) acc srt b xs h c =
      rw (contains_count-limit (QueryOp.take n) b (unfold position_of_count in refl) c, finish)
        (unfold last_of in refl)
  stage-pipeline (QueryOp.skip n ∷ ops) acc srt b xs h c =
      rw (contains_count-limit (QueryOp.skip n) b (unfold position_of_count in refl) c, finish)
        (unfold last_of in refl)
  stage-pipeline (QueryOp.filter e ∷ ops) acc srt b xs h c =
      ap (λ ys. pipeline db (split_on_first_take ops).0 (rows ys))
        (filter-ordered srt (satisfies e) (filtered acc xs)
          ∙ ap (ordered db srt) (filtered-conjoin acc e xs))
      ∙ stage-pipeline ops (some (conjoin acc e)) srt b xs h (
          contains_count-skip (QueryOp.filter e) (split_on_first_take ops).0 b
            (unfold position_of_count in refl) c)
      ∙ finish-skip (QueryOp.filter e) (split_on_first_take ops).0 b srt _ refl refl refl
  stage-pipeline (QueryOp.projection fs ∷ ops) acc srt b xs h c =
      stage-pipeline ops acc srt b xs h (
        contains_count-skip (QueryOp.projection fs) (split_on_first_take ops).0 b
          (unfold position_of_count in refl) c)
      ∙ finish-skip (QueryOp.projection fs) (split_on_first_take ops).0 b srt _ refl refl refl
  stage-pipeline (QueryOp.sort_by s ∷ ops) acc none b xs h c =
      stage-pipeline ops acc (some s) b xs h (
        contains_count-skip (QueryOp.sort_by s) (split_on_first_take ops).0 b
          (unfold position_of_count in refl) c)
      ∙ finish-sort s (split_on_first_take ops).0 b _
  stage-pipeline (QueryOp.sort_by s ∷ ops) acc (some t) b xs h c = cc
  stage-pipeline (QueryOp.count ∷ ops) acc srt b xs h c =
      let (counted, last) = contains_count-first (split_on_first_take ops).0 b c in
      pipeline-number db (split_on_first_take ops).0 _
      ∙ ap number (length-ordered srt (filtered acc xs))
      ∙ finish-count srt acc xs (split_on_first_take ops).0 b counted last
