-- ===== src/Sdkconfig/Repository/Rows.antt =====
-- The rows of the credentials under `RevokeCredential` of
-- backend/internal/database/sdk_config_repository.go.
use flagstack.Common.{
  filter, update_where, [], ◌∷◌, ◌==◌, ◌&&◌, ◌≤◌, ◌≡◌, inl, inr, ok, some, true, false, arith,
  if◌then◌else◌, refl, sym, ap, All, ℕ, String, List, is_some, length, err-ne-ok, is_empty, eq_iff,
  not, ok-inj, >>=-eq-ok, Option-cases, subst, filter-head, sole_row,
}
use flagstack.Targeting.Repository.{Store}
use flagstack.Sdkconfig.Repository.{
  credential_of, revoke_credential, sole, is_credential, is_live_client, is_live_server, revoke_row,
  scope_of, some_or,
}
use flagstack.Sdkconfig.Types.{CredentialRow, SdkDatabase, Credential}
use flagstack.Sdkconfig.Service.{SdkError, credential_not_found}

-- Identifiers are unique, and so are the client keys that are not empty.
pub record IsKept (rows : List CredentialRow) : Type 0 where
  pub ids : (id : String) → length (filter (λ r. r.id == id) rows) ≤ 1
  pub keys :
      (key : String) → is_empty key ≡ false → length (filter (λ r. r.client_key == key) rows) ≤ 1

abbrev pub revoked : ℕ → CredentialRow → CredentialRow
revoked now r = record r { revoked_at = some now }

-- What both outcomes of a revocation do to the queries for live rows.
abbrev pub TakesOut : String → List CredentialRow → List CredentialRow → Type 0
TakesOut id rows rows' =
    ((i : String)
      → filter (is_live_server i) rows' ≡ (if i == id then [] else filter (is_live_server i) rows))
    × ((k : String)
        → filter (is_live_client k) rows'
          ≡ filter (λ r. not (r.id == id)) (filter (is_live_client k) rows))

server_rows-revoked :
    (now : ℕ) (id i : String) (rows : List CredentialRow)
    → filter (is_live_server i) (update_where (λ r. r.id == id) (revoked now) rows)
      ≡ (if i == id then [] else filter (is_live_server i) rows)
server_rows-revoked now id i [] = ground arith
server_rows-revoked now id i (r ∷ rows) =
    ground (arith, eq_iff r.id id, eq_iff r.id i, eq_iff i id, server_rows-revoked now id i rows)

client_rows-revoked :
    (now : ℕ) (id k : String) (rows : List CredentialRow)
    → filter (is_live_client k) (update_where (λ r. r.id == id) (revoked now) rows)
      ≡ filter (λ r. not (r.id == id)) (filter (is_live_client k) rows)
client_rows-revoked now id k [] = refl
client_rows-revoked now id k (r ∷ rows) = ground (arith, client_rows-revoked now id k rows)

server_rows_gone :
    (id i : String) (rows : List CredentialRow)
    → All (λ r. r.id == id ≡ true → is_some r.revoked_at ≡ true) rows
    → filter (is_live_server i) rows ≡ (if i == id then [] else filter (is_live_server i) rows)
server_rows_gone id i [] h = ground arith
server_rows_gone id i (r ∷ rows) (h, hs) =
    ground (arith, h, eq_iff r.id id, eq_iff r.id i, eq_iff i id, server_rows_gone id i rows hs)

client_rows_gone :
    (id k : String) (rows : List CredentialRow)
    → All (λ r. r.id == id ≡ true → is_some r.revoked_at ≡ true) rows
    → filter (is_live_client k) rows
      ≡ filter (λ r. not (r.id == id)) (filter (is_live_client k) rows)
client_rows_gone id k [] h = refl
client_rows_gone id k (r ∷ rows) (h, hs) = ground (arith, h, client_rows_gone id k rows hs)

pub All-revoked :
    (o p id : String) (rows : List CredentialRow) (row : CredentialRow) (at : ℕ)
    → IsKept rows
    → filter (is_credential o p id) rows ≡ row ∷ []
    → row.revoked_at ≡ some at
    → All (λ r. r.id == id ≡ true → is_some r.revoked_at ≡ true) rows
All-revoked o p id rows row at kept found revoked =
    let is : (row.id == id && row.organisation_id == o && row.project_id == p) ≡ true =
      (filter-head (is_credential o p id) rows row [] found).0 in
    sole_row (is_credential o p id) (λ r. r.id == id) (λ r. is_some r.revoked_at) rows row
      (kept.ids id) found (ground arith) (ground arith)

pub sole-eq_ok {ℓ} :
    {A : Type ℓ} (missing : SdkError) (xs : List A) {x : A} → sole missing xs ≡ ok x → xs ≡ x ∷ []
sole-eq_ok missing [] h = absurd (err-ne-ok h)
sole-eq_ok missing (y ∷ []) h = ap (λ z. z ∷ []) (ok-inj h)
sole-eq_ok missing (y ∷ z ∷ rest) h = absurd (err-ne-ok h)

revoke_row-TakesOut :
    (o p id : String) (row : CredentialRow) (now : ℕ) (db : SdkDatabase)
    → IsKept db.credentials
    → filter (is_credential o p id) db.credentials ≡ row ∷ []
    → TakesOut row.id db.credentials (revoke_row now row row.revoked_at db).1.credentials
      × ((revoke_row now row row.revoked_at db).0.id ≡ row.id)
unfolding credential_of
revoke_row-TakesOut o p id row now db kept found = elim (Option-cases row.revoked_at) [
  | inl live ↦ rw (live) (
    (
      λ i. server_rows-revoked now row.id i db.credentials,
      λ k. client_rows-revoked now row.id k db.credentials,
    ),
    refl,
  )
  | inr (at, before) ↦
      let same : id ≡ row.id =
        let is = (filter-head (is_credential o p id) db.credentials row [] found).0 in
        ground (arith, eq_iff row.id id) in
      let gone =
        subst (λ i. All (λ r. r.id == i ≡ true → is_some r.revoked_at ≡ true) db.credentials) same
          (All-revoked o p id db.credentials row at kept found before) in
      rw (before) (
        (
          λ i. server_rows_gone row.id i db.credentials gone,
          λ k. client_rows_gone row.id k db.credentials gone,
        ),
        refl,
      )
]

-- A revocation that succeeds found a row of its scope.
abbrev pub IsFound : Store → ℕ → SdkDatabase → Credential → SdkDatabase → Type 0
IsFound st now db c db' =
    (o : String) × (p : String) × (id : String) × (row : CredentialRow) × (filter
        (is_credential o p id) db.credentials
      ≡ row ∷ [])
    × (revoke_row now row row.revoked_at db ≡ (c, db'))

pub revoke_credential-IsFound :
    (st : Store) (organisation project credential : String) (now : ℕ) (db db' : SdkDatabase)
    (c : Credential)
    → revoke_credential st organisation project credential now db ≡ ok (c, db')
    → IsFound st now db c db'
unfolding revoke_credential
revoke_credential-IsFound st organisation project credential now db db' c h =
    let (s, _, h1) = >>=-eq-ok (scope_of st organisation project) _ h in
    let (id, _, h2) = >>=-eq-ok (some_or credential_not_found (st.parse_uuid credential)) _ h1 in
    let (row, got, h3) =
      >>=-eq-ok (sole credential_not_found (filter (is_credential s.0 s.1 id) db.credentials)) _
        h2 in
    (
      s.0,
      s.1,
      id,
      row,
      sole-eq_ok credential_not_found (filter (is_credential s.0 s.1 id) db.credentials) got,
      ok-inj h3,
    )

-- A revocation that succeeds takes out the credential that it returns.
pub revoke_credential-TakesOut :
    (st : Store) (organisation project credential : String) (now : ℕ) (db db' : SdkDatabase)
    (c : Credential)
    → IsKept db.credentials
    → revoke_credential st organisation project credential now db ≡ ok (c, db')
    → TakesOut c.id db.credentials db'.credentials
revoke_credential-TakesOut st organisation project credential now db db' c kept h =
    let (o, p, id, row, found, result) =
      revoke_credential-IsFound st organisation project credential now db db' c h in
    let (out, same) = revoke_row-TakesOut o p id row now db kept found in
    subst (λ x. TakesOut x.0.id db.credentials x.1.credentials) result
      (subst (λ i. TakesOut i db.credentials (revoke_row now row row.revoked_at db).1.credentials)
        (sym same) out)
