-- ===== src/PrefixMap/Longest.antt =====
-- `longest_prefix` and `is_path_prefix` of server/src/prefix_map.rs, against the path separators.
use chiselstrike.Prelude.{
  Str, ◌≡◌, refl, sym, ◌≤◌, true, false, Option, none, some, List, [], ◌∷◌, ◌++◌, All, All-mem,
  All-map, Memᴰ, length, drop, starts_with, starts_with_char, ends_with_char, arith, Option-cases,
  inl, inr, ◌⊎◌, ◌↔◌, ==_iff, ap,
}
use chiselstrike.BTree.{bytes_ltb}
use chiselstrike.PrefixMap.{PrefixMap, slash, is_path_prefix, longest_prefix}
use chiselstrike.BTree.Order.{IsSorted, bytes_leb-starts_with, length-lt_of_bytes_ltb}

-- A key governs a path if the path goes on after it with nothing, or at a path separator.
abbrev pub Governs : Str → Str → Type 0
Governs key path =
    (rest : Str) × (path ≡ key ++ rest)
    × ((ends_with_char slash key ≡ true) ⊎ (rest ≡ []) ⊎ (starts_with_char slash rest ≡ true))

starts_with-append : (p s : Str) → starts_with p s ≡ true → s ≡ p ++ drop (length p) s
unfolding starts_with
starts_with-append [] s h = refl
starts_with-append (c ∷ p) [] h = cc
starts_with-append (c ∷ p) (d ∷ s) h = ground (arith, starts_with-append p s, ==_iff c d)

starts_with_append_self : (p s : Str) → starts_with p (p ++ s) ≡ true
unfolding starts_with
starts_with_append_self [] s = refl
starts_with_append_self (c ∷ p) s = ground (arith, starts_with_append_self p s)

drop-append_self : (p s : Str) → drop (length p) (p ++ s) ≡ s
drop-append_self [] s = refl
drop-append_self (c ∷ p) s = drop-append_self p s

is_path_prefix_cases :
    (key path : Str)
    → is_path_prefix key path ≡ true
    → (ends_with_char slash key ≡ true)
      ⊎ (drop (length key) path ≡ [])
      ⊎ (starts_with_char slash (drop (length key) path) ≡ true)
unfolding is_path_prefix
is_path_prefix_cases key path h = ground arith

is_path_prefix_of :
    (key path rest : Str)
    → path ≡ key ++ rest
    → (ends_with_char slash key ≡ true) ⊎ (rest ≡ []) ⊎ (starts_with_char slash rest ≡ true)
    → is_path_prefix key path ≡ true
unfolding is_path_prefix
is_path_prefix_of key path rest e h =
    rw (e, starts_with_append_self key rest, drop-append_self key rest) (ground arith)

-- `is_path_prefix` decides whether the key governs the path.
pub is_path_prefix_iff : (key path : Str) → (is_path_prefix key path ≡ true) ↔ Governs key path
unfolding is_path_prefix
is_path_prefix_iff key path = (
  λ h. (
    drop (length key) path,
    starts_with-append key path (ground arith),
    is_path_prefix_cases key path h,
  ),
  λ g. is_path_prefix_of key path g.0 g.1 g.2,
)

starts_with-is_path_prefix :
    (key path : Str) → is_path_prefix key path ≡ true → starts_with key path ≡ true
unfolding is_path_prefix
starts_with-is_path_prefix key path h = ground arith

module _ {ℓ} {T : Type ℓ} (path : Str) where
  -- No entry at all is a path prefix when none is returned.
  pub longest_prefix-none :
      (es : List (Str × T))
      → longest_prefix path (record { entries = es }) ≡ none
      → All (λ e. is_path_prefix e.0 path ≡ false) es
  unfolding longest_prefix
  longest_prefix-none [] h = tt
  longest_prefix-none (e ∷ es) h = (
    ground (arith, starts_with-is_path_prefix e.0 path, bytes_leb-starts_with e.0 path),
    longest_prefix-none es (ground arith),
  )

  pub record IsLongest (es : List (Str × T)) (found : Str × T) : Type ℓ where
    pub listed : Memᴰ found es
    pub governs : is_path_prefix found.0 path ≡ true
    pub longest : All (λ e. is_path_prefix e.0 path ≡ true → length e.0 ≤ length found.0) es

  -- In ascending order an entry before a governing one is no longer than it.
  before-longest :
      (e found : Str × T)
      → bytes_ltb e.0 found.0 ≡ true
      → is_path_prefix found.0 path ≡ true
      → is_path_prefix e.0 path ≡ true
      → length e.0 ≤ length found.0
  before-longest e found lt hf he = omega (
    arith,
    length-lt_of_bytes_ltb e.0 found.0 path (starts_with-is_path_prefix e.0 path he)
        (starts_with-is_path_prefix found.0 path hf) lt,
  )

  none_longer :
      (found : Str × T) (es : List (Str × T))
      → All (λ e. is_path_prefix e.0 path ≡ false) es
      → All (λ e. is_path_prefix e.0 path ≡ true → length e.0 ≤ length found.0) es
  none_longer found [] h = tt
  none_longer found (e ∷ es) h = (λ k. cc (h.0), none_longer found es h.1)

  longest_prefix-some :
      (es : List (Str × T)) (found : Str × T)
      → IsSorted es
      → longest_prefix path (record { entries = es }) ≡ some found
      → IsLongest es found
  unfolding longest_prefix
  longest_prefix-some [] found s h = cc
  longest_prefix-some (e ∷ es) found s h =
      elim (Option-cases (longest_prefix path (record { entries = es }))) [
        | inl missed ↦
            let same : e ≡ found = ground arith in
            record {
              listed = Memᴰ.head (sym same);
              governs = ground arith;
              longest = (
                λ _. rw same (omega arith),
                none_longer found es (longest_prefix-none es missed),
              );
            }
        | inr (y, hit) ↦
            let same : y ≡ found = ground arith in
            let ih = longest_prefix-some es found s.1 (rw hit (ap some same)) in
            record {
              listed = Memᴰ.tail ih.listed;
              governs = ih.governs;
              longest =
                  (before-longest e found (All-mem _ es s.0 ih.listed) ih.governs, ih.longest);
            }
      ]

module _ {T : Type 0} where
  -- What an answer of `longest_prefix` means: a governing entry that no governing entry exceeds, or
  -- that no entry governs the path.
  abbrev pub Answers : List (Str × T) → Str → Option (Str × T) → Type 0
  Answers es path none = All (λ e. ¬ Governs e.0 path) es
  Answers es path (some found) =
      Memᴰ found es
      × Governs found.0 path
      × All (λ e. Governs e.0 path → length e.0 ≤ length found.0) es

-- In a map in key order, `longest_prefix` returns an entry of the map that governs the path and is
-- at least as long as every entry that governs it, and returns nothing only if no entry governs it.
pub longest_prefix-Answers :
    {T : Type 0} (path : Str) (m : PrefixMap T)
    → IsSorted m.entries
    → Answers m.entries path (longest_prefix path m)
longest_prefix-Answers {T} path m s = elim (Option-cases (longest_prefix path m)) [
  | inl missed ↦ rw missed (
      All-map m.entries (λ e h g. cc (h, (is_path_prefix_iff e.0 path).1 g))
        (longest_prefix-none path m.entries missed))
  | inr (found, hit) ↦
      let l = longest_prefix-some path m.entries found s hit in
      rw hit (
        l.listed,
        (is_path_prefix_iff found.0 path).0 l.governs,
        All-map m.entries (λ e h g. h ((is_path_prefix_iff e.0 path).1 g)) l.longest,
      )
]
