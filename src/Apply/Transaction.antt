-- ===== src/Apply/Transaction.antt =====
-- server/src/apply.rs: `apply` as a whole, over the metadata and the data of the server. The metadata
-- store and the query engine are the record `Services`, whose operations work on what a transaction
-- sees; a commit makes it the state of the server.
use chiselstrike.Prelude.{
  ℕ, Str, Bool, true, false, Option, none, some, List, [], ◌∷◌, lookup, insert, map, Result, ok,
  err, ok_or, ◌>>=◌, ◌>>◌, ◌&&◌,
}
use chiselstrike.Types.{Entity, ObjectType, object_type}
use chiselstrike.TypeSystem.{TypeSystem, ObjectDelta, new, lookup_custom_type}
use chiselstrike.Apply.{
  ApplyError, map_err, invalid_policy_path, two_policy_files, AddTypeRequest, IndexCandidate,
}
use chiselstrike.Apply.Sort.{Graphs}
use chiselstrike.Apply.Plan.{Plan, plan_apply}

-- `PolicyUpdateRequest`. What `Path` makes of its path: whether the extension is `ts`, and the file
-- name without `.ts`.
pub record PolicyRequest : Type 0 where
  pub is_ts : Bool
  pub entity_name : Option Str
  pub policy_config : Str

pub record ApplyRequest : Type 0 where
  pub types : List AddTypeRequest
  pub index_candidates : List IndexCandidate
  pub policies : List PolicyRequest
  pub allow_type_deletion : Bool

pub record VersionInfo : Type 0 where
  pub name : Str
  pub tag : Str

-- `ParsedPolicies`, with the parsed policies `P`.
pub record ParsedPolicies (P : Type 0) : Type 0 where
  pub policy_system : Option (P × Str)
  pub policy_sources : List (Str × Str)

pub record Services (M D P : Type 0) : Type 0 where
  pub count_rows : M → Entity → Result ApplyError ℕ
  pub persist_policy_sources : Str → List (Str × Str) → M → Result ApplyError M
  pub persist_policy_version : Str → Str → M → Result ApplyError M
  pub persist_version_info : Str → VersionInfo → M → Result ApplyError M
  pub persist_modules : Str → List (Str × Str) → M → Result ApplyError M
  pub insert_type : ObjectType → M → Result ApplyError M
  pub update_type : Entity → ObjectDelta → M → Result ApplyError M
  pub remove_type : Entity → M → Result ApplyError M
  pub commit_meta : M → Result ApplyError M
  pub load_type_systems : M → Result ApplyError (List (Str × TypeSystem))
  pub create_table : Entity → D → Result ApplyError D
  pub drop_table : Entity → D → Result ApplyError D
  pub alter_table : Entity → ObjectDelta → D → Result ApplyError D
  pub commit_data : D → Result ApplyError D
  pub from_yaml : Str → Result ApplyError P
  pub default_policies : P
  pub labels_of : P → List Str
  pub parse_code : Str → Result ApplyError (Unit {0})
  pub typescript_policies : Bool
  pub graphs : Graphs
  pub uuid_of : Str → Str

-- A loop of fallible writes.
abbrev pub each : {A S : Type 0} → (A → S → Result ApplyError S) → List A → S → Result ApplyError S
each f [] s = ok s
each f (x ∷ xs) s = do t ← f x s; each f xs t

pub record World (M D : Type 0) : Type 0 where
  pub meta : M
  pub tables : D
  pub types : TypeSystem

pub record ApplyResult (P : Type 0) : Type 0 where
  pub type_system : TypeSystem
  pub policy_system : P
  pub type_names_user_order : List Str
  pub labels : List Str
  pub policy_sources : List (Str × Str)

module _ {M D P : Type 0} (services : Services M D P) where
  open services use {
    count_rows, persist_policy_sources, persist_policy_version, persist_version_info,
    persist_modules, insert_type, update_type, remove_type, commit_meta, load_type_systems,
    create_table, drop_table, alter_table, commit_data, from_yaml, default_policies, labels_of,
    parse_code, typescript_policies, graphs, uuid_of,
  }

  -- One request of the loop of `ParsedPolicies::parse`: a policy of an entity, or the one file.
  abbrev pub parse_policy :
      PolicyRequest → Bool → ParsedPolicies P → Result ApplyError (ParsedPolicies P)
  parse_policy p true parsed = do
    entity_name ← ok_or p.entity_name invalid_policy_path
    parse_code p.policy_config
    ok (record parsed { policy_sources = insert entity_name p.policy_config parsed.policy_sources })
  parse_policy p false parsed = elim parsed.policy_system [
    | none ↦ do
      policies ← from_yaml p.policy_config
      ok (record parsed { policy_system = some (policies, p.policy_config) })
    | some old ↦ err two_policy_files
  ]

  unfoldable pub parse_policies :
      List PolicyRequest → ParsedPolicies P → Result ApplyError (ParsedPolicies P)
  parse_policies [] parsed = ok parsed
  parse_policies (p ∷ rest) parsed = do
    next ← parse_policy p (p.is_ts && typescript_policies) parsed
    parse_policies rest next

  abbrev pub policies_or_default : Option (P × Str) → P × Str
  policies_or_default none = (default_policies, [])
  policies_or_default (some p) = p

  -- The writes to the metadata.
  unfoldable pub write_meta :
      Str
      → VersionInfo
      → List (Str × Str)
      → List (Str × Str)
      → Str
      → List Entity
      → Plan
      → M
      → Result ApplyError M
  write_meta version info modules sources policy_str to_remove plan m0 = do
    m1 ← persist_policy_sources version sources m0
    m2 ← persist_policy_version version policy_str m1
    m3 ← persist_version_info version info m2
    m4 ← persist_modules version modules m3
    m5 ← each insert_type plan.to_insert m4
    m6 ← each (λ u. update_type u.0 u.1) plan.to_update m5
    m7 ← each remove_type to_remove m6
    commit_meta m7

  -- Up to the commit of the metadata.
  unfoldable pub prepare :
      Str
      → VersionInfo
      → List (Str × Str)
      → ApplyRequest
      → TypeSystem
      → M
      → Result ApplyError ((M × ParsedPolicies P) × List Entity × Plan)
  unfolding plan_apply parse_policies write_meta
  prepare version info modules request ts m = do
    (to_remove, plan) ←
        plan_apply (count_rows m) uuid_of graphs ts request.types request.index_candidates
          request.allow_type_deletion version
    parsed ← parse_policies request.policies (record { policy_system = none; policy_sources = [] })
    committed ←
        write_meta version info modules parsed.policy_sources
          (policies_or_default parsed.policy_system).1 to_remove plan m
    ok ((committed, parsed), to_remove, plan)

  -- The types of the version as they were stored, with their fresh ids.
  abbrev pub reload : Str → TypeSystem → M → Result ApplyError TypeSystem
  reload version ts m = do
    systems ← load_type_systems m
    ok (elim (lookup version systems) [ some loaded ↦ loaded | none ↦ new ts.builtin version ])

  abbrev pub refresh_inserted : TypeSystem → List ObjectType → Result ApplyError (List Entity)
  refresh_inserted ts [] = ok []
  refresh_inserted ts (ty ∷ rest) = do
    e ← map_err ApplyError.type_system (lookup_custom_type ts ty.name)
    es ← refresh_inserted ts rest
    ok (e ∷ es)

  abbrev pub refresh_updated :
      TypeSystem → List (Entity × ObjectDelta) → Result ApplyError (List (Entity × ObjectDelta))
  refresh_updated ts [] = ok []
  refresh_updated ts ((old, delta) ∷ rest) = do
    e ← map_err ApplyError.type_system (lookup_custom_type ts (object_type old).name)
    es ← refresh_updated ts rest
    ok ((e, delta) ∷ es)

  -- The writes to the tables.
  unfoldable pub write_tables : TypeSystem → List Entity → Plan → D → Result ApplyError D
  write_tables ts to_remove plan d0 = do
    inserted ← refresh_inserted ts plan.to_insert
    updated ← refresh_updated ts plan.to_update
    d1 ← each create_table inserted d0
    d2 ← each drop_table to_remove d1
    d3 ← each (λ u. alter_table u.0 u.1) updated d2
    commit_data d3

  abbrev pub result_of : ApplyRequest → ParsedPolicies P → TypeSystem → ApplyResult P
  result_of request parsed ts =
      let policies = (policies_or_default parsed.policy_system).0 in
      record {
        type_system = ts;
        policy_system = policies;
        type_names_user_order = map (λ (t : AddTypeRequest). t.name) request.types;
        labels = labels_of policies;
        policy_sources = parsed.policy_sources;
      }

  -- After the reload: the world keeps the new types whether or not the tables are written.
  abbrev pub finish :
      ApplyRequest
      → ParsedPolicies P
      → World M D
      → Result ApplyError D
      → Result ApplyError (ApplyResult P) × World M D
  finish request parsed w (err e) = (err e, w)
  finish request parsed w (ok d) = (ok (result_of request parsed w.types), record w { tables = d })

  abbrev pub after_reload :
      ApplyRequest
      → ParsedPolicies P
      → List Entity
      → Plan
      → World M D
      → Result ApplyError TypeSystem
      → Result ApplyError (ApplyResult P) × World M D
  after_reload request parsed to_remove plan w (err e) = (err e, w)
  after_reload request parsed to_remove plan w (ok ts) =
      finish request parsed (record w { types = ts }) (write_tables ts to_remove plan w.tables)

  abbrev pub after_commit :
      Str
      → ApplyRequest
      → World M D
      → Result ApplyError ((M × ParsedPolicies P) × List Entity × Plan)
      → Result ApplyError (ApplyResult P) × World M D
  after_commit version request w (err e) = (err e, w)
  after_commit version request w (ok ((m, parsed), to_remove, plan)) =
      after_reload request parsed to_remove plan (record w { meta = m }) (reload version w.types m)

  -- `apply`
  unfoldable pub apply :
      Str
      → VersionInfo
      → List (Str × Str)
      → ApplyRequest
      → World M D
      → Result ApplyError (ApplyResult P) × World M D
  unfolding prepare write_tables
  apply version info modules request w =
      after_commit version request w (prepare version info modules request w.types w.meta)
