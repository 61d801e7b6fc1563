-- ===== src/Sdkconfig/Repository/Visible.antt =====
-- `LoadConfiguration` and `SetClientVisible` of
-- backend/internal/database/sdk_config_repository.go, and the configuration that
-- backend/internal/sdkconfig/sdkconfig.go serves.
use flagstack.Common.{
  filter, any, [], ◌≡◌, true, All, List, ok, some, none, false, arith, refl, String, Option,
  >>=-eq-ok, eq_iff, guard, ◌==◌, ◌&&◌, sym, ap, ◌∙◌, subst, wrap-eq-ok, ok-inj, lookup, wrap,
  filter_rows, map_rows, sort_by, by_two, sort_by-All, mem_rows,
}
use flagstack.Sdkconfig.Referenced.{referenced_segments}
use flagstack.Targeting.Repository.Queries.{found-eq-ok}
use flagstack.Sdkconfig.Credentials.{kind_client}
use flagstack.Targeting.Types.{FlagRow, ConfigRow, bad_uuid}
use flagstack.Sdkconfig.Types.{SdkDatabase, Credential, Configuration, Flag}
use mathlib.Core.List.{Memᴰ}
use flagstack.Targeting.Repository.{Store, parse_project_scope, parse_id, is_environment, found}
use flagstack.Sdkconfig.Repository.{
  load_configuration, Sorting, scope_of, is_served, resolve, some_or, is_project, sole,
  index_configs, sdk_reader,
}
use flagstack.Sdkconfig.Service.{
  invalid_credential, configuration_for_key, Platform, database_fault, authenticate_key,
  stored_configuration, validate_configuration, or_no_fuel,
}

module _ (st : Store) (sorting : Sorting) (db : SdkDatabase) (c : Credential) where
  -- A flag of a configuration is a row of the credential's project that is not archived, and for a
  -- client one that clients may see.
  abbrev pub IsServed : Flag → Type 0
  IsServed f =
      (row : FlagRow) × Memᴰ row db.core.flags
      × (row.id ≡ f.id)
      × (row.key ≡ f.key)
      × (st.parse_uuid c.organisation_id ≡ some row.organisation_id)
      × (st.parse_uuid c.project_id ≡ some row.project_id)
      × (row.archived ≡ false)
      × (c.kind ≡ kind_client → row.client_visible ≡ true)

  abbrev InScope : String → String → FlagRow → Type 0
  InScope o p row = Memᴰ row db.core.flags × (is_served c.kind o p row ≡ true)

  resolve-IsServed :
      (o p : String) (row : FlagRow) (config : Option ConfigRow)
      → st.parse_uuid c.organisation_id ≡ some o
      → st.parse_uuid c.project_id ≡ some p
      → InScope o p row
      → IsServed (resolve row config)
  resolve-IsServed o p row none parsed_o parsed_p (mem, is) = (
    row,
    mem,
    refl,
    refl,
    ground (arith, eq_iff row.organisation_id o),
    ground (arith, eq_iff row.project_id p),
    ground (arith),
    λ client. ground (arith, eq_iff c.kind kind_client),
  )
  resolve-IsServed o p row (some config) parsed_o parsed_p (mem, is) = (
    row,
    mem,
    refl,
    refl,
    ground (arith, eq_iff row.organisation_id o),
    ground (arith, eq_iff row.project_id p),
    ground (arith),
    λ client. ground (arith, eq_iff c.kind kind_client),
  )

  scope_of-parsed :
      (s : String × String)
      → scope_of st c.organisation_id c.project_id ≡ ok s
      → (st.parse_uuid c.organisation_id ≡ some s.0) × (st.parse_uuid c.project_id ≡ some s.1)
  unfolding scope_of parse_project_scope parse_id
  scope_of-parsed s h =
      let read =
        wrap-eq-ok database_fault (parse_project_scope st c.organisation_id c.project_id) h in
      let (o, got_o, h1) =
        >>=-eq-ok (found (bad_uuid c.organisation_id) (st.parse_uuid c.organisation_id)) _ read in
      let (p, got_p, h2) =
        >>=-eq-ok (found (bad_uuid c.project_id) (st.parse_uuid c.project_id)) _ h1 in
      (
        found-eq-ok (bad_uuid c.organisation_id) (st.parse_uuid c.organisation_id) o got_o
            ∙ ap (λ x. some x.0) (ok-inj h2),
        found-eq-ok (bad_uuid c.project_id) (st.parse_uuid c.project_id) p got_p
            ∙ ap (λ x. some x.1) (ok-inj h2),
      )

  abbrev configs_of : String → String → String → List (String × ConfigRow)
  configs_of o p e = index_configs [] (
      filter (λ r. r.organisation_id == o && r.project_id == p && r.environment_id == e)
        db.core.configs)

  pub load_configuration-IsServed :
      (conf : Configuration)
      → load_configuration st sorting db c ≡ ok conf
      → All IsServed conf.flags
  unfolding load_configuration
  load_configuration-IsServed conf h =
      let (s, scoped, h1) = >>=-eq-ok (scope_of st c.organisation_id c.project_id) _ h in
      let (parsed_o, parsed_p) = scope_of-parsed s scoped in
      let (e, _, h2) =
        >>=-eq-ok (some_or invalid_credential (st.parse_uuid c.environment_id)) _ h1 in
      let (_, _, h3) =
        >>=-eq-ok (guard (any (is_project s.0 s.1) db.core.projects) invalid_credential) _ h2 in
      let (environment, _, h4) =
        >>=-eq-ok (sole invalid_credential (filter (is_environment s.0 s.1 e) db.core.environments))
          _ h3 in
      let rows = filter (is_served c.kind s.0 s.1) db.core.flags in
      let kept : All (InScope s.0 s.1) rows =
        filter_rows (λ row. Memᴰ row db.core.flags) (InScope s.0 s.1) (is_served c.kind s.0 s.1)
          db.core.flags (λ row mem is. (mem, is)) (mem_rows db.core.flags) in
      subst (λ (x : Configuration). All IsServed x.flags) (ok-inj h4)
        (map_rows (InScope s.0 s.1) IsServed
          (λ row. resolve row (lookup row.id (configs_of s.0 s.1 e)))
          (sort_by (by_two (λ a b. sorting.collate a.key b.key) (λ a b. sorting.uuid_le a.id b.id))
            rows)
          (λ row m.
            resolve-IsServed s.0 s.1 row (lookup row.id (configs_of s.0 s.1 e)) parsed_o parsed_p m)
          (sort_by-All (InScope s.0 s.1)
            (by_two (λ a b. sorting.collate a.key b.key) (λ a b. sorting.uuid_le a.id b.id)) rows
            kept))

-- Every flag of the configuration that the service returns for a key is a row of the project of the
-- credential that the key authenticates; the row is not archived, and where the credential is a
-- client's it is one that clients may see.
pub configuration_for_key-IsServed :
    (pf : Platform) (st : Store) (sorting : Sorting) (db : SdkDatabase) (raw : String)
    (c : Credential) (conf : Configuration)
    → authenticate_key pf (sdk_reader st sorting db) raw ≡ ok c
    → configuration_for_key pf (sdk_reader st sorting db) raw ≡ ok conf
    → All (IsServed st sorting db c) conf.flags
unfolding configuration_for_key
configuration_for_key-IsServed pf st sorting db raw c conf authentic h =
    let repo = sdk_reader st sorting db in
    let (credential, same, h1) = >>=-eq-ok (authenticate_key pf repo raw) _ h in
    let is : credential ≡ c = ok-inj (sym same ∙ authentic) in
    let (loaded, got, h2) = >>=-eq-ok (load_configuration st sorting db credential) _ h1 in
    let (_, _, h3) =
      >>=-eq-ok (wrap stored_configuration (validate_configuration pf loaded)) _ h2 in
    let (segments, _, h4) =
      >>=-eq-ok (or_no_fuel (referenced_segments pf.runtime loaded.flags loaded.segments)) _ h3 in
    subst (λ (x : Configuration). All (IsServed st sorting db c) x.flags) (ok-inj h4)
      (subst (λ x. All (IsServed st sorting db x) loaded.flags) is
        (load_configuration-IsServed st sorting db credential loaded got))
