-- ===== src/Apply/Data.antt =====
-- What `apply` leaves of the data in the tables, whether it succeeds or fails.
use chiselstrike.Prelude.{
  ◌≡◌, refl, subst, Str, none, List, [], ◌∷◌, All, Result, ok, err, >>=-eq-ok,
}
use chiselstrike.Types.{Entity}
use chiselstrike.TypeSystem.{TypeSystem, ObjectDelta}
use chiselstrike.Apply.{ApplyError, aggregate_indexes}
use chiselstrike.Apply.Sort.{sort_custom_types}
use chiselstrike.Apply.Plan.{Plan, empty_plan, names_of, plan_removal, plan_types, plan_apply}
use chiselstrike.Apply.Transaction.{
  ApplyRequest, ParsedPolicies, Services, VersionInfo, World, after_commit, after_reload, apply,
  each, finish, parse_policies, policies_or_default, prepare, write_meta, refresh_inserted,
  refresh_updated, reload, write_tables,
}
use chiselstrike.Apply.Deletion.{IsRemovable, plan_removal-IsRemovable}

module _ {M D P : Type 0} (services : Services M D P) where
  open services use {create_table, drop_table, alter_table, commit_data, count_rows, uuid_of}

  -- A property of the tables that making, altering and committing them keeps, and dropping the tables
  -- of these types.
  pub record IsKept (Keeps : D → Type 0) (IsGone : Entity → Type 0) : Type 0 where
    pub created : (e : Entity) (d d' : D) → create_table e d ≡ ok d' → Keeps d → Keeps d'
    pub altered :
        (u : Entity × ObjectDelta) (d d' : D) → alter_table u.0 u.1 d ≡ ok d' → Keeps d → Keeps d'
    pub committed : (d d' : D) → commit_data d ≡ ok d' → Keeps d → Keeps d'
    pub dropped : (e : Entity) (d d' : D) → IsGone e → drop_table e d ≡ ok d' → Keeps d → Keeps d'

  each-Keeps :
      {A : Type 0} (P : A → Type 0) (Keeps : D → Type 0) (f : A → D → Result ApplyError D)
      → ((x : A) (d d' : D) → P x → f x d ≡ ok d' → Keeps d → Keeps d')
      → (xs : List A) (d d' : D) → All P xs
      → each f xs d ≡ ok d'
      → Keeps d
      → Keeps d'
  each-Keeps P Keeps f step [] d d' p h k = let same : d ≡ d' = cc h in subst Keeps same k
  each-Keeps P Keeps f step (x ∷ xs) d d' p h k =
      let (d1, e1, h1) = >>=-eq-ok (f x d) _ h in
      each-Keeps P Keeps f step xs d1 d' p.1 h1 (step x d d1 p.0 e1 k)

  All-Unit : {A : Type 0} (xs : List A) → All (λ x. Unit {0}) xs
  All-Unit [] = tt
  All-Unit (x ∷ xs) = (tt, All-Unit xs)

  module _ (Keeps : D → Type 0) (IsGone : Entity → Type 0) (kept : IsKept Keeps IsGone) where
    write_tables-Keeps :
        (ts : TypeSystem) (to_remove : List Entity) (plan : Plan) (d d' : D)
        → All IsGone to_remove
        → write_tables services ts to_remove plan d ≡ ok d'
        → Keeps d
        → Keeps d'
    unfolding write_tables
    write_tables-Keeps ts to_remove plan d d' gone h k =
        let (inserted, ei, h1) = >>=-eq-ok (refresh_inserted services ts plan.to_insert) _ h in
        let (updated, eu, h2) = >>=-eq-ok (refresh_updated services ts plan.to_update) _ h1 in
        let (d1, e1, h3) = >>=-eq-ok (each create_table inserted d) _ h2 in
        let (d2, e2, h4) = >>=-eq-ok (each drop_table to_remove d1) _ h3 in
        let (d3, e3, h5) = >>=-eq-ok (each (λ u. alter_table u.0 u.1) updated d2) _ h4 in
        kept.committed d3 d' h5 (
          each-Keeps (λ u. Unit {0}) Keeps (λ u. alter_table u.0 u.1)
            (λ u a b p. kept.altered u a b) updated d2 d3 (All-Unit updated) e3
            (each-Keeps IsGone Keeps drop_table kept.dropped to_remove d1 d2 gone e2 (
              each-Keeps (λ e. Unit {0}) Keeps create_table (λ e a b p. kept.created e a b) inserted
                d d1 (All-Unit inserted) e1 k)))

    finish-Keeps :
        (request : ApplyRequest) (parsed : ParsedPolicies P) (w : World M D)
        (r : Result ApplyError D)
        → ((d : D) → r ≡ ok d → Keeps d)
        → Keeps w.tables
        → Keeps (World.tables (finish services request parsed w r).1)
    finish-Keeps request parsed w (err e) h k = k
    finish-Keeps request parsed w (ok d) h k = h d refl

    after_reload-Keeps :
        (request : ApplyRequest) (parsed : ParsedPolicies P) (to_remove : List Entity) (plan : Plan)
        (w : World M D) (r : Result ApplyError TypeSystem)
        → All IsGone to_remove
        → Keeps w.tables
        → Keeps (World.tables (after_reload services request parsed to_remove plan w r).1)
    after_reload-Keeps request parsed to_remove plan w (err e) gone k = k
    after_reload-Keeps request parsed to_remove plan w (ok ts) gone k =
        finish-Keeps request parsed (record w { types = ts })
          (write_tables services ts to_remove plan w.tables)
          (λ d h. write_tables-Keeps ts to_remove plan w.tables d gone h k) k

    after_commit-Keeps :
        (version : Str) (request : ApplyRequest) (w : World M D)
        (prepared : Result ApplyError ((M × ParsedPolicies P) × List Entity × Plan))
        → ((x : (M × ParsedPolicies P) × List Entity × Plan) → prepared ≡ ok x → All IsGone x.1)
        → Keeps w.tables
        → Keeps (World.tables (after_commit services version request w prepared).1)
    after_commit-Keeps version request w (err e) gone k = k
    after_commit-Keeps version request w (ok ((m, parsed), to_remove, plan)) gone k =
        after_reload-Keeps request parsed to_remove plan (record w { meta = m })
          (reload services version w.types m) (gone ((m, parsed), to_remove, plan) refl) k

  -- The types that a request may remove from a world.
  abbrev pub MayGo : ApplyRequest → World M D → Entity → Type 0
  MayGo request w =
      IsRemovable (count_rows w.meta) uuid_of w.types.custom_types (names_of request.types)
        request.allow_type_deletion

  plan_apply-MayGo :
      (version : Str) (request : ApplyRequest) (w : World M D) (p : List Entity × Plan)
      → plan_apply
          (count_rows w.meta)
          uuid_of
          services.graphs
          w.types
          request.types
          request.index_candidates
          request.allow_type_deletion
          version
        ≡ ok p
      → All (MayGo request w) p.0
  unfolding plan_apply
  plan_apply-MayGo version request w p h =
      let names = names_of request.types in
      let (to_remove, er, h1) =
        >>=-eq-ok
          (plan_removal (count_rows w.meta) uuid_of w.types names request.allow_type_deletion) _
          h in
      let (sorted, es, h2) =
        >>=-eq-ok (sort_custom_types services.graphs w.types request.types) _ h1 in
      let (plan, ep, h3) =
        >>=-eq-ok
          (plan_types (count_rows w.meta) uuid_of w.types names
            (aggregate_indexes request.index_candidates) version sorted empty_plan)
          _ h2 in
      let same : to_remove ≡ p.0 = cc h3 in
      subst (All (MayGo request w)) same (
        plan_removal-IsRemovable (count_rows w.meta) uuid_of w.types names
          request.allow_type_deletion to_remove er)

  prepare-MayGo :
      (version : Str) (info : VersionInfo) (modules : List (Str × Str)) (request : ApplyRequest)
      (w : World M D) (x : (M × ParsedPolicies P) × List Entity × Plan)
      → prepare services version info modules request w.types w.meta ≡ ok x
      → All (MayGo request w) x.1
  unfolding prepare
  prepare-MayGo version info modules request w x h =
      let (p, ep, h1) =
        >>=-eq-ok
          (plan_apply (count_rows w.meta) uuid_of services.graphs w.types request.types
            request.index_candidates request.allow_type_deletion version)
          _ h in
      let (parsed, es, h2) =
        >>=-eq-ok
          (parse_policies services request.policies
            (record { policy_system = none; policy_sources = [] }))
          _ h1 in
      let (m, em, h3) =
        >>=-eq-ok
          (write_meta services version info modules parsed.policy_sources
            (policies_or_default services parsed.policy_system).1 p.0 p.1 w.meta)
          _ h2 in
      let same : p.0 ≡ x.1 = cc h3 in
      subst (All (MayGo request w)) same (plan_apply-MayGo version request w p ep)

  -- Whatever is true of the tables before an apply is true of them after it, be it a success or a
  -- failure, if making, altering and committing tables keeps it true, and dropping the table of a stored
  -- type that the request does not name and that has no rows, or any rows where the request allows the
  -- deletion of types: `apply` drops no other table.
  pub apply_keeps_data :
      (Keeps : D → Type 0) (version : Str) (info : VersionInfo) (modules : List (Str × Str))
      (request : ApplyRequest) (w : World M D)
      → IsKept Keeps (MayGo request w)
      → Keeps w.tables
      → Keeps (World.tables (apply services version info modules request w).1)
  unfolding apply
  apply_keeps_data Keeps version info modules request w kept k =
      after_commit-Keeps Keeps (MayGo request w) kept version request w
        (prepare services version info modules request w.types w.meta)
        (prepare-MayGo version info modules request w) k
