-- ===== src/Policies/Decisions.antt =====
-- server/src/policies.rs: what the authorization checks decide.
use chiselstrike.Prelude.{
  ◌↔◌, ap, str_eq_iff, str_eq_refl, Str, Bool, true, false, not, ◌||◌, any, sym, subst, str_eq,
  arith, Bool-cases, Option, none, some, List, [], ◌∷◌, lookup, length, All, Memᴰ, ◌≡◌, ◌⊎◌, ◌≤◌,
  inl, inr, refl, if◌then◌else◌,
}
use chiselstrike.Json.{Json}
use chiselstrike.PrefixMap.{longest_prefix}
use chiselstrike.PrefixMap.Longest.{Governs, Answers, longest_prefix-Answers}
use chiselstrike.BTree.Order.{IsSorted}
use chiselstrike.Policies.{
  Regex, UserAuthorization, user_allowed, RequiredHeader, SecretAuthorization, Request, applies_to,
  header_matches, secret_allowed,
}

module _ {T : Type 0} where
  -- No entry of the map governs the path.
  abbrev pub NoneGoverns : List (Str × T) → Str → Type 0
  NoneGoverns entries path = All (λ e. Governs e.0 path → ⊥) entries

  -- The entry governs the path, and none that does is longer.
  abbrev pub IsLongest : List (Str × T) → Str → Str × T → Type 0
  IsLongest entries path e =
      Memᴰ e entries
      × Governs e.0 path
      × All (λ other. Governs other.0 path → length other.0 ≤ length e.0) entries

-- Why a user may call a path, or may not.
abbrev pub UserDecision : List (Str × Regex) → Option Str → Str → Bool → Type 0
UserDecision entries username path true =
    NoneGoverns entries path
    ⊎ ((e : Str × Regex) × IsLongest entries path e
        × ((u : Str) × (username ≡ some u) × (e.1 u ≡ true)))
UserDecision entries username path false =
    (e : Str × Regex) × IsLongest entries path e
    × ((username ≡ none) ⊎ ((u : Str) × (username ≡ some u) × (e.1 u ≡ false)))

decided_by :
    (entries : List (Str × Regex)) (path : Str) (e : Str × Regex) (u : Str) (b : Bool)
    → e.1 u ≡ b
    → IsLongest entries path e
    → UserDecision entries (some u) path b
decided_by entries path e u true h longest = inr (e, longest, (u, refl, h))
decided_by entries path e u false h longest = (e, longest, inr (u, refl, h))

user_answer :
    (entries : List (Str × Regex)) (username : Option Str) (path : Str) (o : Option (Str × Regex))
    → Answers entries path o
    → UserDecision entries username path
        (elim o [ none ↦ true | some e ↦ elim username [ none ↦ false | some u ↦ e.1 u ] ])
user_answer entries username path none h = inl h
user_answer entries none path (some e) h = (e, h, inl refl)
user_answer entries (some u) path (some e) h = decided_by entries path e u (e.1 u) refl h

-- In a map in key order: a user is allowed if no entry governs the path, or the longest that does has
-- a test which the name of a logged-in user passes; a user is refused if the longest entry that
-- governs the path has a test that the name fails, or if there is no user.
pub user_allowed-UserDecision :
    (a : UserAuthorization) (username : Option Str) (path : Str)
    → IsSorted a.paths.entries
    → UserDecision a.paths.entries username path (user_allowed a username path)
unfolding user_allowed
user_allowed-UserDecision a username path s =
    user_answer a.paths.entries username path (longest_prefix path a.paths)
      (longest_prefix-Answers path a.paths s)

-- The header that the request must have is there, with the text of the secret.
abbrev pub HasHeader : RequiredHeader → Request → List (Str × Json) → Type 0
HasHeader h req secrets =
    (secret : Str) × (lookup h.secret_name secrets ≡ some (Json.string secret))
    × (req.headers h.header_name ≡ some (some secret))

-- A requirement with a list of methods applies to those, and one without a list to all.
abbrev pub AppliesTo : Option (List Str) → Str → Type 0
AppliesTo none method = Unit
AppliesTo (some methods) method = Memᴰ method methods

-- Why a request may call a path, or may not.
abbrev pub HeaderDecision :
    List (Str × RequiredHeader) → Request → List (Str × Json) → Str → Bool → Type 0
HeaderDecision entries req secrets path true =
    NoneGoverns entries path
    ⊎ ((e : Str × RequiredHeader) × IsLongest entries path e
        × ((AppliesTo (RequiredHeader.methods e.1) req.method → ⊥) ⊎ HasHeader e.1 req secrets))
HeaderDecision entries req secrets path false =
    (e : Str × RequiredHeader) × IsLongest entries path e
    × AppliesTo (RequiredHeader.methods e.1) req.method
    × (HasHeader e.1 req secrets → ⊥)

-- A match is the equality of the secret and the header.
abbrev Matched : Option Json → Option (Option Str) → Type 0
Matched s h = (secret : Str) × (s ≡ some (Json.string secret)) × (h ≡ some (some secret))

header_matches-Matched :
    (s : Option Json) (h : Option (Option Str)) → (header_matches s h ≡ true) ↔ Matched s h
header_matches-Matched s h = (to s h, from s h)
  where
    to : (s : Option Json) (h : Option (Option Str)) → header_matches s h ≡ true → Matched s h
    to (some (Json.string secret)) (some (some value)) p =
        (secret, refl, ap (λ x. some (some x)) ((str_eq_iff value secret).0 p))
    to _ _ p = cc

    from : (s : Option Json) (h : Option (Option Str)) → Matched s h → header_matches s h ≡ true
    from s h (secret, hs, hh) = rw (hs, hh) (str_eq_refl secret)

applies_to-AppliesTo :
    (methods : Option (List Str)) (method : Str)
    → (applies_to methods method ≡ true) ↔ AppliesTo methods method
applies_to-AppliesTo none method = (λ h. tt, λ h. refl)
applies_to-AppliesTo (some methods) method = (to methods, from methods)
  where
    to : (ms : List Str) → any (λ m. str_eq m method) ms ≡ true → Memᴰ method ms
    to [] h = cc
    to (m ∷ ms) h = elim (Bool-cases (str_eq m method)) [
      | inl same ↦ Memᴰ.head (sym ((str_eq_iff m method).0 same))
      | inr other ↦
          Memᴰ.tail (to ms (subst (λ b. (b || any (λ n. str_eq n method) ms) ≡ true) other h))
    ]

    from : (ms : List Str) → Memᴰ method ms → any (λ m. str_eq m method) ms ≡ true
    from [] h = elim h [ ]
    from (m ∷ ms) (Memᴰ.head e) = rw (sym e, str_eq_refl method) refl
    from (m ∷ ms) (Memᴰ.tail h) = rw (from ms h) (ground arith)

header_answer :
    (entries : List (Str × RequiredHeader)) (req : Request) (secrets : List (Str × Json))
    (path : Str) (e : Str × RequiredHeader)
    → IsLongest entries path e
    → (applies found : Bool) → applies_to (RequiredHeader.methods e.1) req.method ≡ applies
    → header_matches
        (lookup (RequiredHeader.secret_name e.1) secrets)
        (req.headers (RequiredHeader.header_name e.1))
      ≡ found
    → HeaderDecision entries req secrets path (if not applies then true else found)
header_answer entries req secrets path e longest false found h m =
    inr (e, longest, inl (λ a. cc ((applies_to-AppliesTo _ _).1 a, h)))
header_answer entries req secrets path e longest true true h m =
    inr (e, longest, inr ((header_matches-Matched _ _).0 m))
header_answer entries req secrets path e longest true false h m =
    (e, longest, (applies_to-AppliesTo _ _).0 h, λ has. cc ((header_matches-Matched _ _).1 has, m))

-- In a map in key order: a request is allowed if no entry governs the path, or the longest that does
-- has a requirement which does not apply to the method or which the request meets, with a header whose
-- text is that of the secret; it is refused if the longest entry that governs the path has a
-- requirement which applies to the method and which the request does not meet.
pub secret_allowed-HeaderDecision :
    (a : SecretAuthorization) (req : Request) (secrets : List (Str × Json)) (path : Str)
    → IsSorted a.paths.entries
    → HeaderDecision a.paths.entries req secrets path (secret_allowed a req secrets path)
unfolding secret_allowed
secret_allowed-HeaderDecision a req secrets path s =
    answered (longest_prefix path a.paths) (longest_prefix-Answers path a.paths s)
  where
    answered :
        (o : Option (Str × RequiredHeader))
        → Answers a.paths.entries path o
        → HeaderDecision a.paths.entries req secrets path (elim o [
          | none ↦ true
          | some e ↦
              if not (applies_to (RequiredHeader.methods e.1) req.method)
              then true
              else header_matches
                  (lookup (RequiredHeader.secret_name e.1) secrets)
                  (req.headers (RequiredHeader.header_name e.1))
        ])
    answered none h = inl h
    answered (some e) h = header_answer a.paths.entries req secrets path e h _ _ refl refl
