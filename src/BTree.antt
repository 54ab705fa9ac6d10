-- ===== src/BTree.antt =====
-- The ordered maps of the program (`BTreeMap<String, T>`, `BTreeMap<&str, T>`) as lists of entries
-- in ascending order of their keys; texts are ordered byte by byte, as `str` is.
pub mod Order
pub mod Insert
use chiselstrike.Prelude.{Str, Bool, true, false, List, [], ◌∷◌, ltb, ◌==◌, if◌then◌else◌, str_eq}

-- `a <= b` and `a < b` on `str`.
unfoldable pub bytes_leb : Str → Str → Bool
bytes_leb [] t = true
bytes_leb (x ∷ s) [] = false
bytes_leb (x ∷ s) (y ∷ t) = let rest = bytes_leb s t in if x == y then rest else ltb x y

unfoldable pub bytes_ltb : Str → Str → Bool
bytes_ltb s [] = false
bytes_ltb [] (y ∷ t) = true
bytes_ltb (x ∷ s) (y ∷ t) = let rest = bytes_ltb s t in if x == y then rest else ltb x y

-- `BTreeMap::insert`: the entry goes to its place in the order, or replaces that of its key.
unfoldable pub insert_entry {ℓ} : {T : Type ℓ} → Str → T → List (Str × T) → List (Str × T)
insert_entry k v [] = (k, v) ∷ []
insert_entry k v ((j, w) ∷ es) =
    if str_eq j k
    then (k, v) ∷ es
    else if bytes_ltb k j
    then (k, v) ∷ (j, w) ∷ es
    else (j, w) ∷ insert_entry k v es
