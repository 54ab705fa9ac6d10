-- ===== src/Prelude/Text.antt =====
-- Text as the list of its bytes (Rust's `str` in UTF-8), with the operations of `str` that the
-- program calls.
use Prim.Native.Nat.{ℕ}
use Prim.Native.Char.{code}
use Prim.Native.String.{String}
use mathlib.Core.Path.{◌≡◌, refl}
use mathlib.Core.Logic.{◌↔◌}
use mathlib.Core.Bool.{Bool, true, false, ◌&&◌}
use mathlib.Core.List.{List, [], ◌∷◌, ◌++◌}
use mathlib.Core.Option.{Option, none, some}
use native.Mathlib.Omega.{arith}
use chiselstrike.Prelude.Tests.{◌==◌, if◌then◌else◌, ==_iff}

abbrev pub Str : Type 0
Str = List ℕ

-- A literal. Its bytes are its code points, since every literal of the source is ASCII.
abbrev pub text : String → Str
text String.[] = []
text (String.◌∷◌ c s) = code c ∷ text s

unfoldable pub str_eq : Str → Str → Bool
str_eq [] [] = true
str_eq [] (y ∷ ys) = false
str_eq (x ∷ xs) [] = false
str_eq (x ∷ xs) (y ∷ ys) = (x == y) && str_eq xs ys

pub str_eq_iff : (s t : Str) → (str_eq s t ≡ true) ↔ (s ≡ t)
unfolding str_eq
str_eq_iff [] [] = ground arith
str_eq_iff [] (y ∷ ys) = ground arith
str_eq_iff (x ∷ xs) [] = ground arith
str_eq_iff (x ∷ xs) (y ∷ ys) = ground (arith, str_eq_iff xs ys)

pub str_eq_refl : (s : Str) → str_eq s s ≡ true
str_eq_refl s = (str_eq_iff s s).1 refl

-- `strip_prefix`: what follows the prefix.
unfoldable pub strip_prefix : Str → Str → Option Str
strip_prefix [] s = some s
strip_prefix (p ∷ ps) [] = none
strip_prefix (p ∷ ps) (c ∷ s) = if p == c then strip_prefix ps s else none

-- `starts_with` a text.
unfoldable pub starts_with : Str → Str → Bool
starts_with [] s = true
starts_with (p ∷ ps) [] = false
starts_with (p ∷ ps) (c ∷ s) = (p == c) && starts_with ps s

-- `starts_with` and `ends_with` one character.
unfoldable pub starts_with_char : ℕ → Str → Bool
starts_with_char k [] = false
starts_with_char k (c ∷ s) = c == k

unfoldable pub ends_with_char : ℕ → Str → Bool
ends_with_char k [] = false
ends_with_char k (c ∷ []) = c == k
ends_with_char k (c ∷ d ∷ s) = ends_with_char k (d ∷ s)

-- All but a last character `k`: `strip_suffix` of one character.
unfoldable pub strip_suffix_char : ℕ → Str → Option Str
strip_suffix_char k [] = none
strip_suffix_char k (c ∷ []) = if c == k then some [] else none
strip_suffix_char k (c ∷ d ∷ s) = elim (strip_suffix_char k (d ∷ s)) [
  | none ↦ none
  | some r ↦ some (c ∷ r)
]

pub strip_prefix-append : (p s : Str) → strip_prefix p (p ++ s) ≡ some s
unfolding strip_prefix
strip_prefix-append [] s = refl
strip_prefix-append (c ∷ p) s = rw ((==_iff c c).1 refl) (strip_prefix-append p s)

pub strip_suffix_char-append : (k : ℕ) (s : Str) → strip_suffix_char k (s ++ k ∷ []) ≡ some s
unfolding strip_suffix_char
strip_suffix_char-append k [] = ground arith
strip_suffix_char-append k (c ∷ []) = ground arith
strip_suffix_char-append k (c ∷ d ∷ s) = rw (strip_suffix_char-append k (d ∷ s)) refl
