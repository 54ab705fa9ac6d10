-- ===== src/PolicyCompiler/Rules/Merge.antt =====
-- chiselc/src/policies.rs: `Actions::merge`.
use chiselstrike.Prelude.{
  ℕ, Bool, false, ◌||◌, Option, none, some, List, [], ◌∷◌, All, ◌≡◌, refl, arith, if◌then◌else◌,
  Bool-cases, inl, inr, ◌∙◌, ap,
}
use chiselstrike.PolicyCompiler.{Cond}
use chiselstrike.PolicyCompiler.Simplify.{cond_truth, PredicatesBelow}
use chiselstrike.PolicyCompiler.Rules.{
  Action, action_eq, all_actions, Actions, get_action, insert_action, merged_cond, merge_loop,
  merge, add_merged,
}

-- The truth of the condition of an action; an action without one has a false condition.
abbrev pub truth_of : (ℕ → Bool) → Option Cond → Bool
truth_of v none = false
truth_of v (some c) = cond_truth v c

abbrev pub action_truth : (ℕ → Bool) → Actions → Action → Bool
action_truth v actions a = truth_of v (get_action a actions)

pub get-insert_action :
    (a b : Action) (c : Cond) (actions : Actions)
    → get_action a (insert_action b c actions)
      ≡ (if action_eq b a then some c else get_action a actions)
unfolding get_action insert_action
get-insert_action a b c [] = refl
get-insert_action a b c ((d, e) ∷ actions) = ground (arith, get-insert_action a b c actions)

pub merged_cond-truth :
    (v : ℕ → Bool) (x y : Option Cond)
    → truth_of v (merged_cond x y) ≡ (truth_of v x || truth_of v y)
merged_cond-truth v none none = refl
merged_cond-truth v none (some d) = refl
merged_cond-truth v (some c) none = ground arith
merged_cond-truth v (some c) (some d) = refl

or_else : Option Cond → Option Cond → Option Cond
or_else none o = o
or_else (some c) o = some c

get-add_merged :
    (a b : Action) (o : Option Cond) (out : Actions)
    → get_action a (add_merged b o out)
      ≡ (if action_eq b a then or_else o (get_action a out) else get_action a out)
unfolding add_merged or_else
get-add_merged a b none out = ground arith
get-add_merged a b (some c) out = get-insert_action a b c out

or_else-none : (o : Option Cond) → or_else o none ≡ o
unfolding or_else
or_else-none none = refl
or_else-none (some c) = refl

-- What the loop of `merge` leaves, for any four conditions.
module _ (o1 o2 o3 o4 : Option Cond) where
  after_allow : Actions
  after_allow = add_merged Action.allow o1 []

  after_skip : Actions
  after_skip = add_merged Action.skip o2 after_allow

  after_deny : Actions
  after_deny = add_merged Action.deny o3 after_skip

  after_log : Actions
  after_log = add_merged Action.log o4 after_deny

  abbrev the_cond : Action → Option Cond
  the_cond Action.allow = o1
  the_cond Action.skip = o2
  the_cond Action.deny = o3
  the_cond Action.log = o4

  get-after_log : (a : Action) → get_action a after_log ≡ the_cond a
  unfolding after_log after_deny after_skip after_allow get_action
  get-after_log a =
      all a (get-add_merged a Action.log o4 after_deny) (get-add_merged a Action.deny o3 after_skip)
        (get-add_merged a Action.skip o2 after_allow) (get-add_merged a Action.allow o1 [])
    where
      all :
          (a : Action)
          → get_action a after_log ≡ (
              if action_eq Action.log a
              then or_else o4 (get_action a after_deny)
              else get_action a after_deny)
          → get_action a after_deny ≡ (
              if action_eq Action.deny a
              then or_else o3 (get_action a after_skip)
              else get_action a after_skip)
          → get_action a after_skip ≡ (
              if action_eq Action.skip a
              then or_else o2 (get_action a after_allow)
              else get_action a after_allow)
          → get_action a after_allow ≡ (if action_eq Action.allow a then or_else o1 none else none)
          → get_action a after_log ≡ the_cond a
      all Action.allow e4 e3 e2 e1 = e4 ∙ e3 ∙ e2 ∙ e1 ∙ or_else-none o1
      all Action.skip e4 e3 e2 e1 = e4 ∙ e3 ∙ e2 ∙ ap (or_else o2) e1 ∙ or_else-none o2
      all Action.deny e4 e3 e2 e1 = e4 ∙ e3 ∙ ap (or_else o3) (e2 ∙ e1) ∙ or_else-none o3
      all Action.log e4 e3 e2 e1 = e4 ∙ ap (or_else o4) (e3 ∙ e2 ∙ e1) ∙ or_else-none o4

the_cond-eq :
    (f : Action → Option Cond) (a : Action)
    → the_cond (f Action.allow) (f Action.skip) (f Action.deny) (f Action.log) a ≡ f a
the_cond-eq f Action.allow = refl
the_cond-eq f Action.skip = refl
the_cond-eq f Action.deny = refl
the_cond-eq f Action.log = refl

-- The merged actions have for every action the merged condition.
get-merge :
    (a : Action) (x y : Actions)
    → get_action a (merge x y) ≡ merged_cond (get_action a x) (get_action a y)
unfolding merge merge_loop after_log after_deny after_skip after_allow
get-merge a x y =
    get-after_log (f Action.allow) (f Action.skip) (f Action.deny) (f Action.log) a
    ∙ the_cond-eq f a
  where
    f : Action → Option Cond
    f b = merged_cond (get_action b x) (get_action b y)

pub merge-action_truth :
    (v : ℕ → Bool) (a : Action) (x y : Actions)
    → action_truth v (merge x y) a ≡ (action_truth v x a || action_truth v y a)
merge-action_truth v a x y =
    ap (truth_of v) (get-merge a x y) ∙ merged_cond-truth v (get_action a x) (get_action a y)

-- The conditions of the actions name predicates below the bound.
abbrev pub ActionsBelow : ℕ → Actions → Type 0
ActionsBelow n actions = All (λ e. PredicatesBelow n e.1) actions

abbrev pub OptionBelow : ℕ → Option Cond → Type 0
OptionBelow n none = Unit
OptionBelow n (some c) = PredicatesBelow n c

pub get_action-below :
    (n : ℕ) (a : Action) (actions : Actions)
    → ActionsBelow n actions
    → OptionBelow n (get_action a actions)
unfolding get_action
get_action-below n a [] h = tt
get_action-below n a ((b, c) ∷ actions) h = elim (Bool-cases (action_eq b a)) [
  | inl same ↦ rw same h.0
  | inr other ↦ rw other (get_action-below n a actions h.1)
]

pub insert_action-below :
    (n : ℕ) (a : Action) (c : Cond) (actions : Actions)
    → PredicatesBelow n c
    → ActionsBelow n actions
    → ActionsBelow n (insert_action a c actions)
unfolding insert_action
insert_action-below n a c [] hc h = (hc, tt)
insert_action-below n a c ((b, d) ∷ actions) hc h = elim (Bool-cases (action_eq b a)) [
  | inl same ↦ rw (same, insert_action) (hc, h.1)
  | inr other ↦ rw (other, insert_action) (h.0, insert_action-below n a c actions hc h.1)
]

merged_cond-below :
    (n : ℕ) (x y : Option Cond)
    → OptionBelow n x
    → OptionBelow n y
    → OptionBelow n (merged_cond x y)
merged_cond-below n none none hx hy = tt
merged_cond-below n none (some d) hx hy = hy
merged_cond-below n (some c) none hx hy = hx
merged_cond-below n (some c) (some d) hx hy = (hx, hy)

add_merged-below :
    (n : ℕ) (a : Action) (o : Option Cond) (out : Actions)
    → OptionBelow n o
    → ActionsBelow n out
    → ActionsBelow n (add_merged a o out)
unfolding add_merged
add_merged-below n a none out ho h = h
add_merged-below n a (some c) out ho h = insert_action-below n a c out ho h

merge_loop-below :
    (n : ℕ) (actions : List Action) (x y out : Actions)
    → ActionsBelow n x
    → ActionsBelow n y
    → ActionsBelow n out
    → ActionsBelow n (merge_loop actions x y out)
unfolding merge_loop
merge_loop-below n [] x y out hx hy h = h
merge_loop-below n (a ∷ actions) x y out hx hy h = merge_loop-below n actions x y _ hx hy (
    add_merged-below n a _ out
      (merged_cond-below n (get_action a x) (get_action a y) (get_action-below n a x hx)
        (get_action-below n a y hy))
      h)

pub merge-below :
    (n : ℕ) (x y : Actions) → ActionsBelow n x → ActionsBelow n y → ActionsBelow n (merge x y)
unfolding merge
merge-below n x y hx hy = merge_loop-below n all_actions x y [] hx hy tt
