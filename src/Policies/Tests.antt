-- ===== src/Policies/Tests.antt =====
-- Runs of server/src/policies.rs on a file with two routes and one label.
use chiselstrike.Prelude.{lookup, text, true, false, none, some, [], ◌∷◌, ok, ◌≡◌, refl, str_eq}
use chiselstrike.Json.{Json}
use chiselstrike.BTree.{bytes_ltb, insert_entry}
use chiselstrike.BTree.Order.{IsSorted}
use chiselstrike.PrefixMap.{PrefixMap, insert}
use chiselstrike.Types.{Field, ObjectType}
use chiselstrike.Policies.{
  Kind, UserAuthorization, user_allowed, RequiredHeader, SecretAuthorization, Request,
  secret_allowed, PolicySystem, YamlPolicies, Library, routes_of, from_yaml, make_field_policies,
  add_users, add_header, label_loop, route_loop,
}
use chiselstrike.Policies.Decisions.{
  UserDecision, user_allowed-UserDecision, HeaderDecision, secret_allowed-HeaderDecision,
}
use chiselstrike.Policies.Routes.{RoutesAt, user_paths, header_paths, from_yaml-RoutesAt}
use chiselstrike.Policies.Labels.{FollowLabels, make_field_policies-FollowLabels}

abbrev users : UserAuthorization
users = record {
  paths = record { entries = (text "/a", λ u. true) ∷ (text "/a/b", str_eq (text "ann")) ∷ [] };
}

users-IsSorted : IsSorted users.paths.entries
unfolding bytes_ltb
users-IsSorted = ((refl, tt), (tt, tt))

user_allowed-UserDecision_example :
    UserDecision users.paths.entries
      (some (text "bob"))
      (text "/a/b/c")
      (user_allowed users (some (text "bob")) (text "/a/b/c"))
user_allowed-UserDecision_example =
    user_allowed-UserDecision users (some (text "bob")) (text "/a/b/c") users-IsSorted

abbrev required : RequiredHeader
required = record {
  header_name = text "key";
  secret_name = text "secret";
  methods = some (text "GET" ∷ []);
}

abbrev headers : SecretAuthorization
headers = record { paths = record { entries = (text "/a", required) ∷ [] } }

headers-IsSorted : IsSorted headers.paths.entries
headers-IsSorted = (tt, tt)

abbrev request : Request
request = record { method = text "GET"; headers = λ name. some (some (text "1234")) }

secret_allowed-HeaderDecision_example :
    HeaderDecision headers.paths.entries request
      ((text "secret", Json.string (text "1234")) ∷ [])
      (text "/a/b")
      (secret_allowed headers request
        ((text "secret", Json.string (text "1234")) ∷ [])
        (text "/a/b"))
secret_allowed-HeaderDecision_example =
    secret_allowed-HeaderDecision headers request ((text "secret", Json.string (text "1234")) ∷ [])
      (text "/a/b") headers-IsSorted

abbrev yaml : YamlPolicies
yaml = record {
  routes = some (
      record {
        path = text "/b";
        users = some (text "ann");
        mandatory_header = some (record {
          name = text "key";
          secret_value_ref = text "secret";
          only_for_methods = some (text "GET" ∷ []);
        });
      }
      ∷ record { path = text "/a"; users = some (text "bob"); mandatory_header = none }
      ∷ []);
  endpoints = none;
  labels = some (
      record { name = text "pii"; transform = some (text "omit"); except_uri = some (text "/b") }
      ∷ []);
}

-- Here a regular expression is a text that matches only itself.
abbrev library : Library
library = record {
  parse_yaml = λ t. some yaml;
  compile = λ t. some (str_eq t);
  is_method = λ m. true;
}

abbrev loaded : PolicySystem
loaded = record {
  labels = (text "pii", record { kind = Kind.omit; except_uri = str_eq (text "/b") }) ∷ [];
  user_authorization = record {
    paths = record {
      entries = (text "/a", str_eq (text "bob")) ∷ (text "/b", str_eq (text "ann")) ∷ [];
    };
  };
  secret_authorization = record { paths = record { entries = (text "/b", required) ∷ [] } };
}

from_yaml_run : from_yaml library (text "file") ≡ ok loaded
unfolding from_yaml str_eq add_users add_header insert insert_entry bytes_ltb lookup label_loop
    route_loop chiselstrike.Prelude.insert
from_yaml_run = refl

from_yaml-RoutesAt_example :
    (y : YamlPolicies) × (library.parse_yaml (text "file") ≡ some y)
    × IsSorted (PrefixMap.entries (user_paths loaded))
    × IsSorted (PrefixMap.entries (header_paths loaded))
    × RoutesAt library (text "/a") (routes_of y) loaded
from_yaml-RoutesAt_example = from_yaml-RoutesAt library (text "file") (text "/a") from_yaml_run

abbrev email : Field
email = record {
  id = none;
  name = text "email";
  type_id = chiselstrike.Types.TypeId.string;
  labels = text "pii" ∷ [];
  is_optional = false;
  is_unique = false;
  default = none;
  effective_default = none;
  version_id = text "dev";
}

abbrev person : ObjectType
person = record {
  meta_id = none;
  name = text "Person";
  fields = email ∷ [];
  indexes = [];
  chisel_id = email;
  backing_table = text "ty_Person";
  version_id = text "dev";
}

make_field_policies-FollowLabels_example :
    FollowLabels loaded
      (text "/a")
      person
      (text "email")
      (make_field_policies loaded none (text "/a") person)
make_field_policies-FollowLabels_example =
    make_field_policies-FollowLabels loaded none (text "/a") (text "email") person
