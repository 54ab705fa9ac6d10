-- ===== src/Crud/Asked.antt =====
-- What a parameter of the URL of a deletion asks of a row (server/src/datastore/crud.rs), read off the
-- parameter itself.
use chiselstrike.Prelude.{
  ◌==◌, Str, text, str_eq, true, false, Option, none, some, List, [], ◌∷◌, ok, err, if◌then◌else◌,
}
use chiselstrike.Json.{Json}
use chiselstrike.Expr.{BinaryOp, Value}
use chiselstrike.Expr.Eval.{Truth, holds, unknown, Row}
use chiselstrike.Filter.Meaning.{matches}
use chiselstrike.Types.{Entity, FieldType}
use chiselstrike.TypeSystem.{TypeSystem}
use chiselstrike.Crud.{Codec, split_char, make_property_chain}

-- The comparison that the text after `~` asks for; equality, if there is none.
abbrev pub asked_operator : Option Str → Option BinaryOp
asked_operator none = some BinaryOp.eq
asked_operator (some op) =
    if str_eq op (text "ne")
    then some BinaryOp.not_eq
    else if str_eq op (text "lt")
    then some BinaryOp.lt
    else if str_eq op (text "lte")
    then some BinaryOp.lt_eq
    else if str_eq op (text "gt")
    then some BinaryOp.gt
    else if str_eq op (text "gte")
    then some BinaryOp.gt_eq
    else if str_eq op (text "like")
    then some BinaryOp.like
    else if str_eq op (text "unlike")
    then some BinaryOp.not_like
    else none

-- The value that the text of a parameter stands for, by the type of the field.
abbrev pub asked_value : Codec → FieldType → Str → Option Value
asked_value codec FieldType.string v = some (Value.string v)
asked_value codec (FieldType.entity_id n) v = some (Value.string v)
asked_value codec FieldType.float v = elim (codec.parse_f64 v) [
  | none ↦ none
  | some x ↦ some (Value.f64 x)
]
asked_value codec FieldType.js_date v = elim (codec.parse_f64 v) [
  | none ↦ none
  | some x ↦ some (Value.f64 x)
]
asked_value codec FieldType.boolean v =
    if str_eq v (text "true")
    then some (Value.bool true)
    else if str_eq v (text "false")
    then some (Value.bool false)
    else none
asked_value codec _ v = none

abbrev pub compared_with : Row → List Str → Option BinaryOp → Option Value → Truth
compared_with r fields (some op) (some x) = r.compares op (r.read fields) x
compared_with r fields _ _ = unknown

module _ (codec : Codec) (base : Entity) (ts : TypeSystem) (r : Row) where
  -- The field under the path, compared with the value of its type.
  abbrev pub asked_field : List Str → Option Str → Str → Truth
  asked_field fields op v = elim (make_property_chain base fields ts) [
    | ok chain ↦ compared_with r fields (asked_operator op) (asked_value codec chain.1 v)
    | err e ↦ unknown
  ]

  -- A parameter `.a.b=v` or `.a.b~op=v`, split at `~`.
  abbrev pub asked_parts : List Str → Str → Truth
  asked_parts (fields ∷ []) v = asked_field (split_char b'.' fields) none v
  asked_parts (fields ∷ op ∷ []) v = asked_field (split_char b'.' fields) (some op) v
  asked_parts _ v = unknown

  -- A JSON filter, by its meaning.
  abbrev pub asked_json : Option Json → Truth
  asked_json none = unknown
  asked_json (some filter) = matches r filter

  -- A parameter that is no condition asks nothing.
  unfoldable pub asked : Str → Str → Truth
  asked [] v = holds
  asked (c ∷ name) v =
      if c == b'.'
      then asked_parts (split_char b'~' name) v
      else if str_eq (c ∷ name) (text "filter")
      then asked_json (codec.parse_json v)
      else holds
