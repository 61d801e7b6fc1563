-- ===== src/Sdkconfig/Repository/Saved.antt =====
-- `CreateCredential` of backend/internal/database/sdk_config_repository.go, and the queries for the
-- row that it has saved.
use flagstack.Common.{
  filter, any, [], ◌∷◌, ◌++◌, ◌&&◌, ◌≡◌, ok, some, none, true, false, arith, ap, ℕ, String, ok-inj,
  >>=-eq-ok, guard, not, and-parts, guard-eq_ok, refl, List, is_empty, All-map, eq_refl,
  filter-append, filter-none, any-false,
}
use flagstack.Sdkconfig.Repository.{
  create_credential, find_client_credential, find_server_credential, is_live_client, is_live_server,
  stored_of, some_or, new_credential_row, passes_checks, collides, scope_of, credential_of,
  is_project,
}
use flagstack.Sdkconfig.Service.{environment_not_found, database_fault}
use flagstack.Targeting.Types.{constraint, environment_not_found}
use flagstack.Targeting.Repository.{Store, is_environment}
use flagstack.Sdkconfig.Types.{CredentialRecord, SdkDatabase, Credential, CredentialRow}
use flagstack.Sdkconfig.Credentials.{kind_client, kind_server}

-- The row that was saved: it passed the checks and collides with no other.
abbrev pub IsSaved :
    ℕ → CredentialRecord → SdkDatabase → Credential → SdkDatabase → CredentialRow → Type 0
IsSaved now r db c db' row =
    (passes_checks row ≡ true)
    × (any (collides row) db.credentials ≡ false)
    × (credential_of row ≡ c)
    × (record db { credentials = db.credentials ++ row ∷ [] } ≡ db')

pub create_credential-IsSaved :
    (st : Store) (now : ℕ) (r : CredentialRecord) (db db' : SdkDatabase) (c : Credential)
    → create_credential st now r db ≡ ok (c, db')
    → (o : String) × (p : String) × (e : String) × IsSaved now r db c db'
        (new_credential_row o p e r now)
unfolding create_credential
create_credential-IsSaved st now r db db' c h =
    let (s, _, h1) = >>=-eq-ok (scope_of st r.organisation_id r.project_id) _ h in
    let (e, _, h2) =
      >>=-eq-ok (some_or environment_not_found (st.parse_uuid r.environment_id)) _ h1 in
    let (_, _, h3) =
      >>=-eq-ok (guard (any (is_project s.0 s.1) db.core.projects) environment_not_found) _ h2 in
    let (_, _, h4) =
      >>=-eq-ok (guard (any (is_environment s.0 s.1 e) db.core.environments) environment_not_found)
        _ h3 in
    let row = new_credential_row s.0 s.1 e r now in
    let (_, checked, h5) =
      >>=-eq-ok
        (guard (passes_checks row && not (any (collides row) db.credentials))
          (database_fault constraint))
        _ h4 in
    let (passes, free) =
      and-parts (passes_checks row) (not (any (collides row) db.credentials))
        (guard-eq_ok _ _ checked) in
    (s.0, s.1, e, (passes, ground arith, ap (λ x. x.0) (ok-inj h5), ap (λ x. x.1) (ok-inj h5)))

pub server_fresh :
    (row : CredentialRow) (rows : List CredentialRow)
    → any (collides row) rows ≡ false
    → filter (is_live_server row.id) rows ≡ []
server_fresh row rows free =
    filter-none (is_live_server row.id) rows
      (All-map rows (λ x h. ground arith) (any-false (collides row) rows free))

pub client_fresh :
    (row : CredentialRow) (rows : List CredentialRow)
    → any (collides row) rows ≡ false
    → is_empty row.client_key ≡ false
    → filter (is_live_client row.client_key) rows ≡ []
client_fresh row rows free full =
    filter-none (is_live_client row.client_key) rows
      (All-map rows (λ x h. ground arith) (any-false (collides row) rows free))

module _ (st : Store) (row : CredentialRow) (db : SdkDatabase)
    (free : any (collides row) db.credentials ≡ false) (live : row.revoked_at ≡ none) where
  abbrev pub saved : SdkDatabase
  saved = record db { credentials = db.credentials ++ row ∷ [] }

  pub find_server_credential-saved :
      st.parse_uuid row.id ≡ some row.id
      → row.kind ≡ kind_server
      → find_server_credential st saved row.id ≡ ok (stored_of row)
  unfolding find_server_credential
  find_server_credential-saved parses server =
      rw
        (
          parses,
          filter-append (is_live_server row.id) db.credentials (row ∷ []),
          server_fresh row db.credentials free,
          eq_refl row.id,
          server,
          live,
        )
        refl

  pub find_client_credential-saved :
      row.kind ≡ kind_client
      → is_empty row.client_key ≡ false
      → find_client_credential st saved row.client_key ≡ ok (credential_of row)
  unfolding find_client_credential
  find_client_credential-saved client full =
      rw
        (
          filter-append (is_live_client row.client_key) db.credentials (row ∷ []),
          client_fresh row db.credentials free full,
          eq_refl row.client_key,
          client,
          live,
        )
        refl
