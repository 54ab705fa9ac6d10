-- ===== src/BTree/Order.antt =====
-- The order of texts, prefixes in that order, and the order invariant of the entries.
use chiselstrike.Prelude.{
  Str, ◌≡◌, ◌<◌, true, false, List, [], ◌∷◌, All, length, starts_with, arith, ==_iff, str_eq,
  Bool-cases, inl, str_eq_iff, subst, inr,
}
use chiselstrike.BTree.{bytes_leb, bytes_ltb}

-- A prefix of a text is not after it.
pub bytes_leb-starts_with : (p s : Str) → starts_with p s ≡ true → bytes_leb p s ≡ true
unfolding bytes_leb starts_with
bytes_leb-starts_with [] s h = ground arith
bytes_leb-starts_with (c ∷ p) [] h = cc
bytes_leb-starts_with (c ∷ p) (d ∷ s) h = ground (arith, bytes_leb-starts_with p s, ==_iff c d)

-- Of two prefixes of one text, the later in the order is the longer.
pub length-lt_of_bytes_ltb :
    (p q s : Str)
    → starts_with p s ≡ true
    → starts_with q s ≡ true
    → bytes_ltb p q ≡ true
    → length p < length q
unfolding bytes_ltb starts_with
length-lt_of_bytes_ltb p [] s hp hq h = ground arith
length-lt_of_bytes_ltb [] (d ∷ q) s hp hq h = omega arith
length-lt_of_bytes_ltb (c ∷ p) (d ∷ q) [] hp hq h = cc
length-lt_of_bytes_ltb (c ∷ p) (d ∷ q) (e ∷ s) hp hq h =
    ground (arith, length-lt_of_bytes_ltb p q s, ==_iff c d, ==_iff c e, ==_iff d e)

pub bytes_ltb_irrefl : (s : Str) → bytes_ltb s s ≡ false
unfolding bytes_ltb
bytes_ltb_irrefl [] = ground arith
bytes_ltb_irrefl (c ∷ s) = ground (arith, bytes_ltb_irrefl s)

pub bytes_ltb_trans :
    (a b c : Str) → bytes_ltb a b ≡ true → bytes_ltb b c ≡ true → bytes_ltb a c ≡ true
unfolding bytes_ltb
bytes_ltb_trans a b [] h k = ground arith
bytes_ltb_trans [] b (z ∷ c) h k = ground arith
bytes_ltb_trans (x ∷ a) [] (z ∷ c) h k = ground arith
bytes_ltb_trans (x ∷ a) (y ∷ b) (z ∷ c) h k = ground (arith, bytes_ltb_trans a b c)

-- What is neither equal nor before is after.
pub bytes_ltb_total :
    (a b : Str) → str_eq b a ≡ false → bytes_ltb a b ≡ false → bytes_ltb b a ≡ true
unfolding bytes_ltb str_eq
bytes_ltb_total [] [] h k = ground arith
bytes_ltb_total [] (y ∷ b) h k = ground arith
bytes_ltb_total (x ∷ a) [] h k = ground arith
bytes_ltb_total (x ∷ a) (y ∷ b) h k = ground (arith, bytes_ltb_total a b)

before-ne : (a b : Str) → bytes_ltb a b ≡ true → str_eq a b ≡ false
before-ne a b h = elim (Bool-cases (str_eq a b)) [
  | inl same ↦
      let e = (str_eq_iff a b).0 same in
      cc (bytes_ltb_irrefl b, subst (λ x. bytes_ltb x b ≡ true) e h)
  | inr other ↦ other
]

-- The entries stand in strictly ascending order of their keys, so no key stands twice.
module _ {ℓ} {T : Type ℓ} where
  abbrev pub IsSorted : List (Str × T) → Type ℓ
  IsSorted [] = Unit
  IsSorted (e ∷ es) = All (λ f. bytes_ltb e.0 f.0 ≡ true) es × IsSorted es

  -- The key of an entry before others in the order is none of theirs.
  pub ne-of-before :
      (n : Str) (es : List (Str × T))
      → All (λ f. bytes_ltb n f.0 ≡ true) es
      → All (λ f. str_eq n f.0 ≡ false) es
  ne-of-before n [] h = tt
  ne-of-before n ((k, v) ∷ es) h = (before-ne n k h.0, ne-of-before n es h.1)
