-- ===== src/TypeSystem/Lookup.antt =====
-- The lookups of server/src/types/type_system.rs by the names of types.
use chiselstrike.Prelude.{
  ℕ, zero, suc, ◌+◌, ◌≤◌, ◌<◌, Str, text, length, ◌≡◌, ◌⊎◌, refl, ap, ◌∙◌, false, none, some, [],
  ◌∷◌, ◌++◌, lookup, str_eq, str_eq_iff, strip_prefix, strip_suffix_char, strip_prefix-append,
  strip_suffix_char-append, ok, err, arith, Option-cases, inl, inr,
}
use chiselstrike.Types.{
  TypeId, FieldType, Entity, object_type, type_id_name, type_id_of, chiselstrike_version,
}
use chiselstrike.TypeSystem.{
  TypeSystem, not_a_builtin_type, extract_type, array_text, id_text, lookup_plain, array_of,
  lookup_builtin, lookup_builtin_type, lookup_entity, get,
}

strip_prefix-length : (p s r : Str) → strip_prefix p s ≡ some r → length r + length p ≡ length s
unfolding strip_prefix
strip_prefix-length [] s r h = ground arith
strip_prefix-length (c ∷ p) [] r h = cc
strip_prefix-length (c ∷ p) (d ∷ s) r h = ground (arith, strip_prefix-length p s r)

strip_suffix_char-length :
    (k : ℕ) (s r : Str) → strip_suffix_char k s ≡ some r → length r + 1 ≡ length s
unfolding strip_suffix_char
strip_suffix_char-length k [] r h = cc
strip_suffix_char-length k (c ∷ []) r h = ground arith
strip_suffix_char-length k (c ∷ d ∷ s) r h = elim (Option-cases (strip_suffix_char k (d ∷ s))) [
  | inl e ↦ cc
  | inr (q, e) ↦
      let same : c ∷ q ≡ r = ground arith in
      rw (← same) (omega (arith, strip_suffix_char-length k (d ∷ s) q e))
]

-- What is extracted is shorter than the name.
extract_type-shorter : (typ n e : Str) → extract_type typ n ≡ some e → length e < length n
unfolding extract_type
extract_type-shorter typ n e h = elim (Option-cases (strip_prefix (typ ++ text "<") n)) [
  | inl miss ↦ cc
  | inr (t, hit) ↦ omega (
    arith,
    strip_prefix-length (typ ++ text "<") n t hit,
    strip_suffix_char-length b'>' t e (rw (hit, extract_type) at h),
  )
]

-- More fuel than the length of the name changes nothing.
lookup_builtin-fuel :
    (f g : ℕ) (ts : TypeSystem) (n : Str)
    → length n ≤ f
    → length n ≤ g
    → lookup_builtin f ts n ≡ lookup_builtin g ts n
unfolding lookup_builtin extract_type strip_prefix
lookup_builtin-fuel zero zero ts n hf hg = refl
lookup_builtin-fuel zero (suc g) ts [] hf hg = refl
lookup_builtin-fuel zero (suc g) ts (c ∷ n) hf hg = absurd (omega arith)
lookup_builtin-fuel (suc f) zero ts [] hf hg = refl
lookup_builtin-fuel (suc f) zero ts (c ∷ n) hf hg = absurd (omega arith)
lookup_builtin-fuel (suc f) (suc g) ts n hf hg = elim (Option-cases (extract_type array_text n)) [
  | inl miss ↦ rw (miss, lookup_builtin) refl
  | inr (e, hit) ↦
      let ih =
        lookup_builtin-fuel f g ts e (omega (arith, extract_type-shorter array_text n e hit))
          (omega (arith, extract_type-shorter array_text n e hit)) in
      rw (hit, lookup_builtin) (ap array_of ih)
]

module _ (ts : TypeSystem) (n : Str) where
  lookup_builtin_type-suc : lookup_builtin_type ts n ≡ lookup_builtin (suc (length n)) ts n
  unfolding lookup_builtin_type
  lookup_builtin_type-suc =
      lookup_builtin-fuel (length n) (suc (length n)) ts n (omega arith) (omega arith)

  lookup_builtin_type-plain :
      extract_type array_text n ≡ none → lookup_builtin_type ts n ≡ lookup_plain ts n
  unfolding lookup_builtin
  lookup_builtin_type-plain miss = lookup_builtin_type-suc ∙ rw (miss, lookup_builtin) refl

  lookup_builtin_type-array :
      (e : Str)
      → extract_type array_text n ≡ some e
      → lookup_builtin_type ts n ≡ array_of (lookup_builtin_type ts e)
  unfolding lookup_builtin
  lookup_builtin_type-array e hit =
      lookup_builtin_type-suc
      ∙ rw (hit, lookup_builtin)
          (ap array_of (
            unfold lookup_builtin_type in
            lookup_builtin-fuel (length n) (length e) ts e
              (omega (arith, extract_type-shorter array_text n e hit)) (omega arith)))

-- What `extract_type` finds in a name that was built with the brackets.
extract_type-built :
    (typ n : Str) → extract_type typ ((typ ++ text "<") ++ (n ++ text ">")) ≡ some n
unfolding extract_type
extract_type-built typ n =
    rw (strip_prefix-append (typ ++ text "<") (n ++ text ">"), extract_type)
      (strip_suffix_char-append b'>' n)

lookup_plain-id :
    (ts : TypeSystem) (n : Str)
    → lookup_plain ts (text "Id<" ++ (n ++ text ">")) ≡ ok (FieldType.entity_id n)
unfolding lookup_plain
lookup_plain-id ts n = rw (extract_type-built id_text n, lookup_plain) refl

-- The names of the scalar types are built in.
pub record HasScalars (ts : TypeSystem) : Type 0 where
  pub string_at : lookup (text "string") ts.builtin ≡ some FieldType.string
  pub float_at : lookup (text "number") ts.builtin ≡ some FieldType.float
  pub boolean_at : lookup (text "boolean") ts.builtin ≡ some FieldType.boolean
  pub js_date_at : lookup (text "jsDate") ts.builtin ≡ some FieldType.js_date
  pub array_buffer_at : lookup (text "ArrayBuffer") ts.builtin ≡ some FieldType.array_buffer

-- A type that a built-in name stands for, as the elements of arrays must be.
abbrev pub IsListable : TypeSystem → FieldType → Type 0
IsListable ts (FieldType.entity e) =
    lookup_builtin_type ts (object_type e).name ≡ ok (FieldType.entity e)
IsListable ts (FieldType.array t) = IsListable ts t
IsListable ts _ = Unit

-- A type of this version: an entity is built in, or one of its custom types.
abbrev pub IsKnown : TypeSystem → FieldType → Type 0
IsKnown ts (FieldType.entity e) =
    (((object_type e).version_id ≡ chiselstrike_version)
      × (lookup_builtin_type ts (object_type e).name ≡ ok (FieldType.entity e)))
    ⊎ ((str_eq (object_type e).version_id chiselstrike_version ≡ false)
        × ((object_type e).version_id ≡ ts.version_id)
        × (lookup_builtin_type ts (object_type e).name
            ≡ err (not_a_builtin_type (object_type e).name))
        × (lookup (object_type e).name ts.custom_types ≡ some e))
IsKnown ts t = IsListable ts t

module _ (ts : TypeSystem) (scalars : HasScalars ts) where
  lookup-type_id_name :
      (t : FieldType)
      → IsListable ts t
      → lookup_builtin_type ts (type_id_name (type_id_of t)) ≡ ok t
  unfolding type_id_name type_id_of lookup_builtin_type lookup_builtin lookup_plain extract_type
      strip_prefix strip_suffix_char
  lookup-type_id_name FieldType.string h = rw (scalars.string_at) refl
  lookup-type_id_name FieldType.float h = rw (scalars.float_at) refl
  lookup-type_id_name FieldType.boolean h = rw (scalars.boolean_at) refl
  lookup-type_id_name FieldType.js_date h = rw (scalars.js_date_at) refl
  lookup-type_id_name FieldType.array_buffer h = rw (scalars.array_buffer_at) refl
  lookup-type_id_name (FieldType.entity e) h = h
  lookup-type_id_name (FieldType.entity_id n) h =
      lookup_builtin_type-plain ts (type_id_name (TypeId.entity_id n)) refl ∙ lookup_plain-id ts n
  lookup-type_id_name (FieldType.array t) h =
      lookup_builtin_type-array ts (type_id_name (TypeId.array (type_id_of t)))
        (type_id_name (type_id_of t)) (extract_type-built array_text (type_id_name (type_id_of t)))
      ∙ ap array_of (lookup-type_id_name t h)

  lookup_entity-custom :
      (e : Entity)
      → lookup_builtin_type ts (object_type e).name ≡ err (not_a_builtin_type (object_type e).name)
      → lookup (object_type e).name ts.custom_types ≡ some e
      → lookup_entity ts (object_type e).name ≡ ok e
  unfolding lookup_entity
  lookup_entity-custom e missed found = rw (missed, lookup_entity) (rw found refl)

  get-entity :
      (e : Entity)
      → IsKnown ts (FieldType.entity e)
      → get ts (type_id_of (FieldType.entity e)) ≡ ok (FieldType.entity e)
  unfolding get type_id_of
  get-entity e (inl (v, found)) =
      rw ((str_eq_iff (object_type e).version_id chiselstrike_version).1 v, get) found
  get-entity e (inr (other, v, missed, found)) =
      rw (other, get)
        (rw ((str_eq_iff (object_type e).version_id ts.version_id).1 v, get)
          (rw (lookup_entity-custom e missed found) refl))

-- In a type system that has the scalar types, a type that is known there is what `get` finds under
-- the id that is made from it: `TypeId::from` followed by `TypeSystem::get` is the identity.
pub get-type_id_of :
    (ts : TypeSystem) (t : FieldType) → HasScalars ts → IsKnown ts t → get ts (type_id_of t) ≡ ok t
unfolding get type_id_of
get-type_id_of ts (FieldType.entity e) s h = get-entity ts s e h
get-type_id_of ts (FieldType.entity_id n) s h = refl
get-type_id_of ts FieldType.string s h = lookup-type_id_name ts s FieldType.string tt
get-type_id_of ts FieldType.float s h = lookup-type_id_name ts s FieldType.float tt
get-type_id_of ts FieldType.boolean s h = lookup-type_id_name ts s FieldType.boolean tt
get-type_id_of ts FieldType.js_date s h = lookup-type_id_name ts s FieldType.js_date tt
get-type_id_of ts FieldType.array_buffer s h = lookup-type_id_name ts s FieldType.array_buffer tt
get-type_id_of ts (FieldType.array t) s h = lookup-type_id_name ts s (FieldType.array t) h
