-- ===== src/PrefixMap.antt =====
-- server/src/prefix_map.rs: a map from paths to values that is asked for the longest key that is a
-- path prefix of a path.
pub mod Longest
pub mod Insert
mod Tests
use chiselstrike.Prelude.{
  ℕ, Str, Bool, ◌&&◌, ◌||◌, Option, List, [], lookup, rfind, filter, is_empty, length, drop,
  starts_with, starts_with_char, ends_with_char,
}
use chiselstrike.BTree.{bytes_leb, insert_entry}

pub record PrefixMap {ℓ} (T : Type ℓ) : Type ℓ where
  pub entries : List (Str × T)

abbrev pub empty {ℓ} : {T : Type ℓ} → PrefixMap T
empty = record { entries = [] }

-- The `'/'` byte.
abbrev pub slash : ℕ
slash = b'/'

pub is_path_prefix : Str → Str → Bool
is_path_prefix needle haystack =
    starts_with needle haystack
    && (ends_with_char slash needle
        || (let unmatched = drop (length needle) haystack in
            is_empty unmatched || starts_with_char slash unmatched))

module _ {ℓ} {T : Type ℓ} where
  -- The entries up to the path, from the last one down; the first that is a path prefix is returned.
  pub longest_prefix : Str → PrefixMap T → Option (Str × T)
  longest_prefix path m =
      rfind (λ e. is_path_prefix e.0 path) (filter (λ e. bytes_leb e.0 path) m.entries)

  -- Returns the new map and the value that the key had.
  unfoldable pub insert : Str → T → PrefixMap T → PrefixMap T × Option T
  insert k v m = (record { entries = insert_entry k v m.entries }, lookup k m.entries)
