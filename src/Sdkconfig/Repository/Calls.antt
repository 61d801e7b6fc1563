-- ===== src/Sdkconfig/Repository/Calls.antt =====
-- Sequences of calls of backend/internal/database/sdk_config_repository.go.
use flagstack.Evaluation.Values.{same_bool}
use flagstack.Common.{
  any, filter, [], ◌∷◌, ◌==◌, ◌≡◌, ok, err, true, All, ℕ, String, Bool, List, Result, is_some, inl,
  inr, some, none, false, arith, refl, sym, ap, ◌∙◌, Option, >>=-eq-ok, subst, Bool-cases, ok-inj,
  eq_iff, true-ne-false, All-append, ◌≢◌, Result-cases, Option-cases, trim_space, any-map,
  any-update_where, filter-All, filter-head, All-update_where, any-append_left, update_where-All,
}
use flagstack.Sdkconfig.Service.Authentic.{authenticate_sound}
use flagstack.Sdkconfig.Service.{
  Platform, authenticate, authenticate_key, SdkError, feature_flag_not_found, credential_not_found,
}
use flagstack.Sdkconfig.Repository.Rows.{
  revoked, sole-eq_ok, revoke_credential-IsFound, IsKept, All-revoked,
}
use flagstack.Sdkconfig.Repository.Saved.{create_credential-IsSaved}
use flagstack.Targeting.Repository.{Store, is_flag}
use flagstack.Sdkconfig.Types.{
  CredentialRecord, SdkDatabase, Credential, CredentialRow, StoredServerCredential,
}
use flagstack.Sdkconfig.Repository.{
  create_credential, find_client_credential, find_server_credential, revoke_credential,
  set_client_visible, revoke_row, scope_of, is_credential, new_credential_row, some_or, sole,
  collides, credential_of, Sorting, is_live_server, is_live_client, sdk_reader,
}

-- The calls that write, with their arguments.
pub data Call : Type 0 where
  create : ℕ → CredentialRecord → Call
  revoke : String → String → String → ℕ → Call
  show : String → String → String → Bool → Call

-- The database behind a call: a call that fails leaves it as it was.
abbrev pub state_after {ℓ} :
    {A : Type ℓ} → SdkDatabase → Result SdkError (A × SdkDatabase) → SdkDatabase
state_after db (ok reply) = reply.1
state_after db (err e) = db

module _ (st : Store) where
  unfoldable pub call : Call → SdkDatabase → SdkDatabase
  call (create now r) db = state_after db (create_credential st now r db)
  call (revoke o p c now) db = state_after db (revoke_credential st o p c now db)
  call (show o p f visible) db = state_after db (set_client_visible st o p f visible db)

  unfoldable pub run : List Call → SdkDatabase → SdkDatabase
  run [] db = db
  run (c ∷ cs) db = run cs (call c db)

-- A credential of the identifier is in the table, and it is revoked.
abbrev pub IsRevoked : String → SdkDatabase → Type 0
IsRevoked id db =
    (any (λ r. r.id == id) db.credentials ≡ true)
    × All (λ r. r.id == id ≡ true → is_some r.revoked_at ≡ true) db.credentials

create_credential-IsRevoked :
    (st : Store) (now : ℕ) (r : CredentialRecord) (id : String) (db db' : SdkDatabase)
    (c : Credential)
    → IsRevoked id db
    → create_credential st now r db ≡ ok (c, db')
    → IsRevoked id db'
create_credential-IsRevoked st now r id db db' c (known, gone) h =
    let (o, p, e, saves) = create_credential-IsSaved st now r db db' c h in
    let row = new_credential_row o p e r now in
    let other : row.id == id ≡ false = elim (Bool-cases (row.id == id)) [
      | inr is ↦ is
      | inl is ↦
          let taken : any (collides row) db.credentials ≡ true =
            any-map (λ x. x.id == id) (collides row) db.credentials
              (λ x k. ground (arith, eq_iff x.id id, eq_iff r.id id, eq_iff x.id r.id)) known in
          absurd (true-ne-false (sym taken ∙ saves.1))
    ] in
    subst (λ d. IsRevoked id d) saves.3
      (
        any-append_left (λ x. x.id == id) db.credentials (row ∷ []) known,
        All-append (λ (x : CredentialRow). x.id == id ≡ true → is_some x.revoked_at ≡ true)
            db.credentials (row ∷ []) gone (λ k. absurd (true-ne-false (sym k ∙ other)), tt),
      )

revoke_row-IsRevoked :
    (now : ℕ) (row : CredentialRow) (before : Option ℕ) (id : String) (db : SdkDatabase)
    → IsRevoked id db
    → IsRevoked id (revoke_row now row before db).1
revoke_row-IsRevoked now row (some at) id db h = h
revoke_row-IsRevoked now row none id db (known, gone) = (
  any-update_where (λ x. x.id == id) (λ x. x.id == row.id) (revoked now) db.credentials (λ x. refl)
      ∙ known,
  All-update_where (λ (x : CredentialRow). x.id == id ≡ true → is_some x.revoked_at ≡ true)
      (λ x. x.id == row.id) (revoked now) db.credentials (λ x is p k. refl) gone,
)

revoke_credential-IsRevoked :
    (st : Store) (organisation project credential : String) (now : ℕ) (id : String)
    (db db' : SdkDatabase) (c : Credential)
    → IsRevoked id db
    → revoke_credential st organisation project credential now db ≡ ok (c, db')
    → IsRevoked id db'
revoke_credential-IsRevoked st organisation project credential now id db db' c h done =
    let (o, p, i, row, found, result) =
      revoke_credential-IsFound st organisation project credential now db db' c done in
    subst (λ x. IsRevoked id x.1) result (revoke_row-IsRevoked now row row.revoked_at id db h)

pub set_client_visible-credentials :
    (st : Store) (o p f : String) (visible shown : Bool) (db db' : SdkDatabase)
    → set_client_visible st o p f visible db ≡ ok (shown, db')
    → db.credentials ≡ db'.credentials
unfolding set_client_visible
set_client_visible-credentials st o p f visible shown db db' h =
    let (s, _, h1) = >>=-eq-ok (scope_of st o p) _ h in
    let (id, _, h2) = >>=-eq-ok (some_or feature_flag_not_found (st.parse_uuid f)) _ h1 in
    let (row, got, h3) =
      >>=-eq-ok (sole feature_flag_not_found (filter (is_flag s.0 s.1 id) db.core.flags)) _ h2 in
    elim (Bool-cases (same_bool row.client_visible visible)) [
      | inl same ↦ ap (λ x. x.1.credentials) (ok-inj (rw (same) at h3))
      | inr other ↦ ap (λ x. x.1.credentials) (ok-inj (rw (other) at h3))
    ]

pub call_show-credentials :
    (st : Store) (o p f : String) (visible : Bool) (db : SdkDatabase)
    → (call st (show o p f visible) db).credentials ≡ db.credentials
unfolding call
call_show-credentials st o p f visible db =
    elim (Result-cases (set_client_visible st o p f visible db)) [
      | inl (reply, done) ↦
          rw (done) (sym (set_client_visible-credentials st o p f visible reply.0 db reply.1 done))
      | inr (e, failed) ↦ rw (failed) refl
    ]

module _ (st : Store) where
  call-IsRevoked :
      (id : String) (k : Call) (db : SdkDatabase) → IsRevoked id db → IsRevoked id (call st k db)
  unfolding call
  call-IsRevoked id (create now r) db h = elim (Result-cases (create_credential st now r db)) [
    | inl (reply, done) ↦
        rw (done) (create_credential-IsRevoked st now r id db reply.1 reply.0 h done)
    | inr (e, failed) ↦ rw (failed) h
  ]
  call-IsRevoked id (revoke o p c now) db h =
      elim (Result-cases (revoke_credential st o p c now db)) [
        | inl (reply, done) ↦
            rw (done) (revoke_credential-IsRevoked st o p c now id db reply.1 reply.0 h done)
        | inr (e, failed) ↦ rw (failed) h
      ]
  call-IsRevoked id (show o p f visible) db h =
      subst
        (λ (rows : List CredentialRow).
          (any (λ r. r.id == id) rows ≡ true)
          × All (λ r. r.id == id ≡ true → is_some r.revoked_at ≡ true) rows)
        (sym (call_show-credentials st o p f visible db)) h

  run-IsRevoked :
      (id : String) (ks : List Call) (db : SdkDatabase)
      → IsRevoked id db
      → IsRevoked id (run st ks db)
  unfolding run
  run-IsRevoked id [] db h = h
  run-IsRevoked id (k ∷ ks) db h = run-IsRevoked id ks (call st k db) (call-IsRevoked id k db h)

revoke_row-starts :
    (o p id : String) (row : CredentialRow) (now : ℕ) (db : SdkDatabase)
    → IsKept db.credentials
    → filter (is_credential o p id) db.credentials ≡ row ∷ []
    → IsRevoked (revoke_row now row row.revoked_at db).0.id (revoke_row now row row.revoked_at db).1
unfolding credential_of
revoke_row-starts o p id row now db kept found =
    let (is, some_row) = filter-head (is_credential o p id) db.credentials row [] found in
    let same : id ≡ row.id = ground (arith, eq_iff row.id id) in
    let known : any (λ r. r.id == row.id) db.credentials ≡ true =
      any-map (is_credential o p id) (λ r. r.id == row.id) db.credentials
        (λ x k. ground (arith, eq_iff x.id id, eq_iff x.id row.id)) some_row in
    elim (Option-cases row.revoked_at) [
      | inl live ↦ rw (live) (
        any-update_where (λ x. x.id == row.id) (λ x. x.id == row.id) (revoked now) db.credentials
              (λ x. refl)
            ∙ known,
        update_where-All
            (λ (x : CredentialRow). x.id == row.id ≡ true → is_some x.revoked_at ≡ true)
            (λ x. x.id == row.id) (revoked now) db.credentials (λ x k l. refl)
            (λ x other k. absurd (true-ne-false (sym k ∙ other))),
      )
      | inr (at, before) ↦ rw (before) (
        known,
        subst (λ i. All (λ r. r.id == i ≡ true → is_some r.revoked_at ≡ true) db.credentials) same
            (All-revoked o p id db.credentials row at kept found before),
      )
    ]

module _ (pf : Platform) (st : Store) (sorting : Sorting) (id : String) (db : SdkDatabase)
    (gone : IsRevoked id db) where
  -- The one row of a query for live rows is another credential's.
  live_row-ne :
      (q : CredentialRow → Bool) (row : CredentialRow)
      → ((r : CredentialRow) → q r ≡ true → is_some r.revoked_at ≡ false)
      → sole credential_not_found (filter q db.credentials) ≡ ok row
      → row.id ≢ id
  live_row-ne q row live got = λ same.
      let rows = sole-eq_ok credential_not_found (filter q db.credentials) got in
      let dead =
        filter-All (λ (r : CredentialRow). r.id == id ≡ true → is_some r.revoked_at ≡ true) q
          db.credentials row [] gone.1 rows in
      true-ne-false (
        sym (dead ((eq_iff row.id id).1 same))
        ∙ live row (filter-head q db.credentials row [] rows).0)

  find_server_credential-IsRevoked :
      (i : String) (stored : StoredServerCredential)
      → find_server_credential st db i ≡ ok stored
      → stored.credential.id ≢ id
  unfolding find_server_credential credential_of
  find_server_credential-IsRevoked i stored h = λ same.
      let (j, _, h1) = >>=-eq-ok (some_or credential_not_found (st.parse_uuid i)) _ h in
      let (row, got, h2) =
        >>=-eq-ok (sole credential_not_found (filter (is_live_server j) db.credentials)) _ h1 in
      live_row-ne (is_live_server j) row (λ r k. ground arith) got
        (ap (λ x. x.credential.id) (ok-inj h2) ∙ same)

  find_client_credential-IsRevoked :
      (key : String) (c : Credential) → find_client_credential st db key ≡ ok c → c.id ≢ id
  unfolding find_client_credential credential_of
  find_client_credential-IsRevoked key c h = λ same.
      let (row, got, h1) =
        >>=-eq-ok (sole credential_not_found (filter (is_live_client key) db.credentials)) _ h in
      live_row-ne (is_live_client key) row (λ r k. ground arith) got
        (ap (λ x. x.id) (ok-inj h1) ∙ same)

  authenticate-IsRevoked :
      (key : String) (c : Credential)
      → authenticate pf (sdk_reader st sorting db) key ≡ ok c
      → c.id ≢ id
  authenticate-IsRevoked key c h = elim (authenticate_sound pf (sdk_reader st sorting db) key c h) [
    | inl (rest, server, (id_text, secret, i, stored, cut, parsed, got, digest, same)) ↦
        λ k. find_server_credential-IsRevoked i stored got (ap (λ x. x.id) same ∙ k)
    | inr (rest, client, got) ↦ find_client_credential-IsRevoked key c got
  ]

-- Once a revocation has succeeded, no key ever authenticates that credential again, whatever
-- sequence of creations, revocations and changes of visibility follows; the table's identifiers are
-- unique at the revocation.
pub authenticate_key-revoke_credential :
    (pf : Platform) (st : Store) (sorting : Sorting) (organisation project credential : String)
    (now : ℕ) (db db' : SdkDatabase) (c : Credential) (later : List Call) (raw : String)
    (found : Credential)
    → IsKept db.credentials
    → revoke_credential st organisation project credential now db ≡ ok (c, db')
    → authenticate_key pf (sdk_reader st sorting (run st later db')) raw ≡ ok found
    → found.id ≢ c.id
unfolding authenticate_key
authenticate_key-revoke_credential pf st sorting organisation project credential now db db' c later
      raw found kept h opened =
    let (o, p, id, row, rows, result) =
      revoke_credential-IsFound st organisation project credential now db db' c h in
    let start : IsRevoked c.id db' =
      subst (λ x. IsRevoked x.0.id x.1) result (revoke_row-starts o p id row now db kept rows) in
    authenticate-IsRevoked pf st sorting c.id (run st later db')
      (run-IsRevoked st c.id later db' start) (trim_space raw) found opened
