-- ===== src/Policies.antt =====
-- server/src/policies.rs: the policies of a YAML file. A compiled regular expression is the test that
-- it makes; the parsers of YAML and of regular expressions, and the names of HTTP methods, belong to
-- other libraries: the record `Library`.
pub mod Decisions
pub mod Routes
pub mod Labels
mod Tests
use chiselstrike.Prelude.{
  Str, text, Bool, true, false, not, Option, none, some, List, [], ◌∷◌, any, lookup, str_eq,
  if◌then◌else◌, Result, ok, err, ensure, ok_or, ◌>>=◌, ◌>>◌,
}
use chiselstrike.Prelude
use chiselstrike.Json.{Json}
use chiselstrike.EntityValue.{EntityValue}
use chiselstrike.PrefixMap
use chiselstrike.PrefixMap.{PrefixMap, longest_prefix}
use chiselstrike.Types.{Field, ObjectType}

abbrev pub Regex : Type 0
Regex = Str → Bool

pub data Kind : Type 0 where
  transform : (EntityValue → EntityValue) → Kind
  match_login : Kind
  omit : Kind

pub record Policy : Type 0 where
  pub kind : Kind
  pub except_uri : Regex

pub record FieldPolicies : Type 0 where
  pub transforms : List (Str × (EntityValue → EntityValue))
  pub match_login : List Str
  pub current_userid : Option Str
  pub omit : List Str

pub data PolicyError : Type 0 where
  bad_yaml : PolicyError
  bad_regex : Str → PolicyError
  bad_method : Str → PolicyError
  unknown_transform : Str → Str → PolicyError
  repeated_path : Str → PolicyError

-- A user may call an endpoint if the longest path prefix here has a test that the name passes.
pub record UserAuthorization : Type 0 where
  pub paths : PrefixMap Regex

-- `UserAuthorization::is_allowed`
unfoldable pub user_allowed : UserAuthorization → Option Str → Str → Bool
user_allowed a username path = elim (longest_prefix path a.paths) [
  | none ↦ true
  | some e ↦ elim username [ none ↦ false | some u ↦ e.1 u ]
]

-- `UserAuthorization::add`
unfoldable pub add_users : Str → Regex → UserAuthorization → Result PolicyError UserAuthorization
add_users path users a =
    let (paths, old) = PrefixMap.insert path users a.paths in
    elim old [ none ↦ ok (record { paths = paths }) | some _ ↦ err (repeated_path path) ]

pub record RequiredHeader : Type 0 where
  pub header_name : Str
  pub secret_name : Str
  pub methods : Option (List Str)

pub record SecretAuthorization : Type 0 where
  pub paths : PrefixMap RequiredHeader

-- What the check reads of a request: its method, and for each header its value, if it has the header,
-- as a text, if it is one.
pub record Request : Type 0 where
  pub method : Str
  pub headers : Str → Option (Option Str)

-- Whether the requirement applies to the method.
abbrev pub applies_to : Option (List Str) → Str → Bool
applies_to none method = true
applies_to (some methods) method = any (λ m. str_eq m method) methods

-- The match on the secret and on the header.
abbrev pub header_matches : Option Json → Option (Option Str) → Bool
header_matches (some (Json.string secret)) (some (some value)) = str_eq value secret
header_matches _ _ = false

-- `SecretAuthorization::is_allowed`
unfoldable pub secret_allowed : SecretAuthorization → Request → List (Str × Json) → Str → Bool
secret_allowed a req secrets path = elim (longest_prefix path a.paths) [
  | none ↦ true
  | some e ↦
      if not (applies_to (RequiredHeader.methods e.1) req.method)
      then true
      else header_matches (lookup (RequiredHeader.secret_name e.1) secrets)
          (req.headers (RequiredHeader.header_name e.1))
]

-- `SecretAuthorization::add`
unfoldable pub add_header :
    Str → RequiredHeader → SecretAuthorization → Result PolicyError SecretAuthorization
add_header path header a =
    let (paths, old) = PrefixMap.insert path header a.paths in
    elim old [ none ↦ ok (record { paths = paths }) | some _ ↦ err (repeated_path path) ]

pub record PolicySystem : Type 0 where
  pub labels : List (Str × Policy)
  pub user_authorization : UserAuthorization
  pub secret_authorization : SecretAuthorization

pub record MandatoryHeader : Type 0 where
  pub name : Str
  pub secret_value_ref : Str
  pub only_for_methods : Option (List Str)

pub record Route : Type 0 where
  pub path : Str
  pub users : Option Str
  pub mandatory_header : Option MandatoryHeader

pub record Label : Type 0 where
  pub name : Str
  pub transform : Option Str
  pub except_uri : Option Str

pub record YamlPolicies : Type 0 where
  pub routes : Option (List Route)
  pub endpoints : Option (List Route)
  pub labels : Option (List Label)

-- `serde_yaml::from_str`, `Regex::new` and `Method::from_str`.
pub record Library : Type 0 where
  pub parse_yaml : Str → Option YamlPolicies
  pub compile : Str → Option Regex
  pub is_method : Str → Bool

-- `HashSet::insert`
unfoldable pub insert_name : Str → List Str → List Str
insert_name n ns = if any (λ m. str_eq m n) ns then ns else n ∷ ns

-- The match on the kind of a policy that applies.
apply_kind : Str → Kind → FieldPolicies → FieldPolicies
unfolding insert_name
apply_kind n (Kind.transform f) p = record p { transforms = Prelude.insert n f p.transforms }
apply_kind n Kind.match_login p = record p { match_login = insert_name n p.match_login }
apply_kind n Kind.omit p = record p { omit = insert_name n p.omit }

-- The loops of `make_field_policies`.
apply_label : List (Str × Policy) → Str → Str → Str → FieldPolicies → FieldPolicies
unfolding apply_kind
apply_label labels path n label p = elim (lookup label labels) [
  | none ↦ p
  | some policy ↦
      if not (Policy.except_uri policy path) then apply_kind n (Policy.kind policy) p else p
]

apply_labels : List (Str × Policy) → Str → Str → List Str → FieldPolicies → FieldPolicies
apply_labels labels path n [] p = p
apply_labels labels path n (l ∷ ls) p =
    apply_labels labels path n ls (apply_label labels path n l p)

apply_fields : List (Str × Policy) → Str → List Field → FieldPolicies → FieldPolicies
apply_fields labels path [] p = p
apply_fields labels path (f ∷ fs) p =
    apply_fields labels path fs (apply_labels labels path f.name f.labels p)

-- `PolicySystem::make_field_policies`
pub make_field_policies : PolicySystem → Option Str → Str → ObjectType → FieldPolicies
unfolding apply_fields
make_field_policies s user_id path ty =
    apply_fields s.labels path ty.fields
      (record { transforms = []; match_login = []; current_userid = user_id; omit = [] })

abbrev pub anonymize : EntityValue → EntityValue
anonymize v = EntityValue.string (text "xxxxx")

abbrev never : Str
never = text "^\\b$"

abbrev or_default {ℓ} : {A : Type ℓ} → A → Option A → A
or_default a none = a
or_default a (some b) = b

-- The kind of a label; `none` for a label that has no transform.
kind_of : Str → Option Str → Result PolicyError (Option Kind)
kind_of name none = ok none
kind_of name (some x) =
    if str_eq x (text "anonymize")
    then ok (some (Kind.transform anonymize))
    else if str_eq x (text "omit")
    then ok (some Kind.omit)
    else if str_eq x (text "match_login")
    then ok (some Kind.match_login)
    else err (unknown_transform x name)

-- `parse_methods`
unfoldable pub parse_methods : Library → List Str → Result PolicyError (List Str)
parse_methods lib [] = ok []
parse_methods lib (s ∷ ss) = do
  ensure (lib.is_method s) (bad_method s)
  rest ← parse_methods lib ss
  ok (s ∷ rest)

-- `only_for_methods.map(parse_methods).transpose()`
pub methods_of : Library → Option (List Str) → Result PolicyError (Option (List Str))
unfolding parse_methods
methods_of lib none = ok none
methods_of lib (some ms) = do parsed ← parse_methods lib ms; ok (some parsed)

-- The loops of `from_yaml`.
label_step : Library → Label → PolicySystem → Result PolicyError PolicySystem
unfolding kind_of
label_step lib l s = do
  except_uri ←
      ok_or (lib.compile (or_default never l.except_uri))
        (bad_regex (or_default never l.except_uri))
  kind ← kind_of l.name l.transform
  ok (elim kind [
    | none ↦ s
    | some k ↦ record s {
      labels = Prelude.insert l.name (record { kind = k; except_uri = except_uri }) s.labels;
    }
  ])

label_loop : Library → List Label → PolicySystem → Result PolicyError PolicySystem
unfolding label_step
label_loop lib [] s = ok s
label_loop lib (l ∷ ls) s = label_step lib l s >>= λ t. label_loop lib ls t

users_step : Library → Str → Option Str → PolicySystem → Result PolicyError PolicySystem
users_step lib path none s = ok s
users_step lib path (some users) s = do
  regex ← ok_or (lib.compile users) (bad_regex users)
  a ← add_users path regex s.user_authorization
  ok (record s { user_authorization = a })

header_step :
    Library → Str → Option MandatoryHeader → PolicySystem → Result PolicyError PolicySystem
unfolding methods_of
header_step lib path none s = ok s
header_step lib path (some h) s = do
  methods ← methods_of lib h.only_for_methods
  a ←
      add_header path
        (record { header_name = h.name; secret_name = h.secret_value_ref; methods = methods })
        s.secret_authorization
  ok (record s { secret_authorization = a })

route_loop : Library → List Route → PolicySystem → Result PolicyError PolicySystem
unfolding users_step header_step
route_loop lib [] s = ok s
route_loop lib (r ∷ rs) s = do
  t ← users_step lib r.path r.users s
  u ← header_step lib r.path r.mandatory_header t
  route_loop lib rs u

abbrev pub no_policies : PolicySystem
no_policies = record {
  labels = [];
  user_authorization = record { paths = PrefixMap.empty };
  secret_authorization = record { paths = PrefixMap.empty };
}

-- `routes.or(endpoints).unwrap_or_default()`
abbrev pub routes_of : YamlPolicies → List Route
routes_of y = elim y.routes [ none ↦ or_default [] y.endpoints | some rs ↦ rs ]

-- `PolicySystem::from_yaml`
unfoldable pub from_yaml : Library → Str → Result PolicyError PolicySystem
unfolding label_loop route_loop
from_yaml lib config = do
  y ← ok_or (lib.parse_yaml config) bad_yaml
  s ← label_loop lib (or_default [] y.labels) no_policies
  route_loop lib (routes_of y) s
