-- ===== src/Sdkconfig/Repository/Refined.antt =====
-- Sequences of calls of backend/internal/database/sdk_config_repository.go, on the function from key
-- texts to the credentials that they open.
use flagstack.Common.{
  any, filter, [], ◌∷◌, ◌++◌, ◌≡◌, inl, inr, ok, err, some, none, true, false, arith, refl, sym, ap,
  ◌∙◌, ℕ, String, Bool, List, Option, Result, Bool-cases, Option-cases, eq_iff, subst, is_empty,
  Result-cases, fun_ext, after_prefix, filter-append,
}
use flagstack.Sdkconfig.Repository.Kept.{call-IsKept}
use flagstack.Sdkconfig.Repository.Rows.{IsKept, revoke_credential-TakesOut}
use mathlib.Core.List.{append-nil}
use flagstack.Sdkconfig.Repository.Saved.{client_fresh, server_fresh, create_credential-IsSaved}
use flagstack.Sdkconfig.Repository.Revoked.{without, open_rows-TakesOut}
use flagstack.Sdkconfig.Repository.Opens.{
  open_rows, key_of, look_up, open_client, accepted, check_stored, prefixed-full, find_client,
  opens, opens-open_rows,
}
use flagstack.Targeting.Repository.{Store}
use flagstack.Sdkconfig.Types.{Credential, CredentialRecord, CredentialRow, SdkDatabase}
use flagstack.Sdkconfig.Repository.{
  create_credential, revoke_credential, some_bytes, collides, is_live_server, is_live_client,
  Sorting, credential_of, new_credential_row,
}
use flagstack.Sdkconfig.Repository.Calls.{
  run, Call, call, create, revoke, show, call_show-credentials,
}
use flagstack.Sdkconfig.Service.{
  Platform, SdkError, server_key_prefix, client_key_prefix, cut_at_dot,
}

-- What a call did: it issued the credential of a new row, or took one out.
pub data Event : Type 0 where
  issued : CredentialRow → Event
  withdrawn : String → Event
  unchanged : Event

abbrev pub first : Option Credential → Option Credential → Option Credential
first none other = other
first (some c) other = some c

-- What a reply tells of the new row.
abbrev pub row_of : Credential → CredentialRecord → CredentialRow
row_of c r = record {
  id = c.id;
  organisation_id = c.organisation_id;
  project_id = c.project_id;
  environment_id = c.environment_id;
  name = c.name;
  kind = c.kind;
  client_key = c.client_key;
  secret_digest = some_bytes r.secret_digest;
  revoked_at = c.revoked_at;
  created_at = c.created_at;
}

abbrev pub issue : CredentialRecord → Result SdkError (Credential × SdkDatabase) → Event
issue r (ok reply) = issued (row_of reply.0 r)
issue r (err e) = unchanged

abbrev pub withdraw : Result SdkError (Credential × SdkDatabase) → Event
withdraw (ok reply) = withdrawn reply.0.id
withdraw (err e) = unchanged

module _ (st : Store) where
  abbrev pub event : Call → SdkDatabase → Event
  event (create now r) db = issue r (create_credential st now r db)
  event (revoke o p c now) db = withdraw (revoke_credential st o p c now db)
  event (show o p f visible) db = unchanged

  abbrev pub events : List Call → SdkDatabase → List Event
  events [] db = []
  events (k ∷ ks) db = event k db ∷ events ks (call st k db)

module _ (pf : Platform) (st : Store) where
  -- What one row alone opens.
  abbrev pub opens_row : CredentialRow → String → Option Credential
  opens_row row key = open_rows pf st (row ∷ []) key (after_prefix server_key_prefix key)

  -- The same calls on the abstract state.
  abbrev pub apply : Event → (String → Option Credential) → String → Option Credential
  apply (issued row) f key = first (f key) (opens_row row key)
  apply (withdrawn id) f key = without id (f key)
  apply unchanged f key = f key

  unfoldable pub replay : List Event → (String → Option Credential) → String → Option Credential
  replay [] f = f
  replay (e ∷ es) f = replay es (apply e f)

first-none : (o : Option Credential) → first o none ≡ o
first-none none = refl
first-none (some c) = refl

filter-one :
    (p : CredentialRow → Bool) (rows : List CredentialRow) (row : CredentialRow)
    → (p row ≡ true → filter p rows ≡ [])
    → (f : List CredentialRow → Option Credential) → f [] ≡ none
    → f (filter p (rows ++ row ∷ [])) ≡ first (f (filter p rows)) (f (filter p (row ∷ [])))
filter-one p rows row alone f empty = elim (Bool-cases (p row)) [
  | inl is ↦ rw (filter-append p rows (row ∷ []), alone is, is, empty) refl
  | inr is ↦
      rw (filter-append p rows (row ∷ []), is, append-nil (filter p rows), empty)
        (sym (first-none (f (filter p rows))))
]

module _ (pf : Platform) (st : Store) (rows : List CredentialRow) (row : CredentialRow)
    (free : any (collides row) rows ≡ false) where
  look_up-append :
      (key : Option (String × List ℕ))
      → look_up pf st (rows ++ row ∷ []) key
        ≡ first (look_up pf st rows key) (look_up pf st (row ∷ []) key)
  look_up-append none = refl
  look_up-append (some key) =
      filter-one (is_live_server key.0) rows row
        (λ is.
          let same : row.id ≡ key.0 = ground (arith, eq_iff row.id key.0) in
          subst (λ i. filter (is_live_server i) rows ≡ []) same (server_fresh row rows free))
        (λ found. accepted (check_stored key.1 found)) refl

  open_client-append :
      (key : String)
      → open_client pf st (rows ++ row ∷ []) key (after_prefix client_key_prefix key)
        ≡ first
            (open_client pf st rows key (after_prefix client_key_prefix key))
            (open_client pf st (row ∷ []) key (after_prefix client_key_prefix key))
  open_client-append key = elim (Option-cases (after_prefix client_key_prefix key)) [
    | inl none_client ↦ rw (none_client) refl
    | inr (rest, client) ↦ rw (client) (
        filter-one (is_live_client key) rows row
          (λ is.
            let same : row.client_key ≡ key = ground (arith, eq_iff row.client_key key) in
            subst (λ k. filter (is_live_client k) rows ≡ []) same
              (client_fresh row rows free (ap is_empty same ∙ prefixed-full key client)))
          (λ found. accepted (find_client found)) refl)
  ]

  open_rows-append :
      (key : String) (server : Option String)
      → open_rows pf st (rows ++ row ∷ []) key server
        ≡ first (open_rows pf st rows key server) (open_rows pf st (row ∷ []) key server)
  open_rows-append key none = open_client-append key
  open_rows-append key (some rest) = look_up-append (key_of pf st (cut_at_dot rest))

row_of-credential_of :
    (o p e : String) (r : CredentialRecord) (now : ℕ) (c : Credential)
    → credential_of (new_credential_row o p e r now) ≡ c
    → row_of c r ≡ new_credential_row o p e r now
unfolding credential_of
row_of-credential_of o p e r now c h = sym (ap (λ x. row_of x r) h)

module _ (pf : Platform) (st : Store) (sorting : Sorting) where
  -- `opens`, read off the rows.
  abbrev open_table : List CredentialRow → String → Option Credential
  open_table rows key = open_rows pf st rows key (after_prefix server_key_prefix key)

  open_table-create :
      (now : ℕ) (r : CredentialRecord) (db : SdkDatabase) (key : String)
      → open_table (call st (create now r) db).credentials key
        ≡ apply pf st (event st (create now r) db) (open_table db.credentials) key
  unfolding call
  open_table-create now r db key = elim (Result-cases (create_credential st now r db)) [
    | inl (reply, done) ↦
        let (o, p, e, saves) = create_credential-IsSaved st now r db reply.1 reply.0 done in
        let row = new_credential_row o p e r now in
        rw (done, row_of-credential_of o p e r now reply.0 saves.2)
          (subst
            (λ (d : SdkDatabase).
              open_table d.credentials key
              ≡ first (open_table db.credentials key) (opens_row pf st row key))
            saves.3
            (open_rows-append pf st db.credentials row saves.1 key
              (after_prefix server_key_prefix key)))
    | inr (e, failed) ↦ rw (failed) refl
  ]

  open_table-revoke :
      (o p c : String) (now : ℕ) (db : SdkDatabase) (key : String)
      → IsKept db.credentials
      → open_table (call st (revoke o p c now) db).credentials key
        ≡ apply pf st (event st (revoke o p c now) db) (open_table db.credentials) key
  unfolding call
  open_table-revoke o p c now db key kept =
      elim (Result-cases (revoke_credential st o p c now db)) [
        | inl (reply, done) ↦ rw (done) (
            open_rows-TakesOut pf st reply.0.id db.credentials reply.1.credentials
              (revoke_credential-TakesOut st o p c now db reply.1 reply.0 kept done) key
              (after_prefix server_key_prefix key) kept)
        | inr (e, failed) ↦ rw (failed) refl
      ]

  open_table-call :
      (k : Call) (db : SdkDatabase) (key : String)
      → IsKept db.credentials
      → open_table (call st k db).credentials key
        ≡ apply pf st (event st k db) (open_table db.credentials) key
  open_table-call (create now r) db key kept = open_table-create now r db key
  open_table-call (revoke o p c now) db key kept = open_table-revoke o p c now db key kept
  open_table-call (show o p f visible) db key kept =
      ap (λ rows. open_table rows key) (call_show-credentials st o p f visible db)

  open_table-run :
      (ks : List Call) (db : SdkDatabase)
      → IsKept db.credentials
      → open_table (run st ks db).credentials
        ≡ replay pf st (events st ks db) (open_table db.credentials)
  unfolding run replay
  open_table-run [] db kept = refl
  open_table-run (k ∷ ks) db kept =
      open_table-run ks (call st k db) (call-IsKept st k db kept)
      ∙ ap (replay pf st (events st ks (call st k db)))
          (fun_ext λ key. open_table-call k db key kept)

-- Along every sequence of calls that starts with unique identifiers and client keys, the function
-- from key texts to the credentials that they open changes as the abstract calls say: a creation
-- that succeeds adds what the new row alone opens, behind what was opened before; a revocation that
-- succeeds takes its credential out; every other call leaves the function as it is.
pub opens_refines_replay :
    (pf : Platform) (st : Store) (sorting : Sorting) (ks : List Call) (db : SdkDatabase)
    → IsKept db.credentials
    → opens pf st sorting (run st ks db) ≡ replay pf st (events st ks db) (opens pf st sorting db)
opens_refines_replay pf st sorting ks db kept =
    let read : (d : SdkDatabase) → opens pf st sorting d ≡ open_table pf st sorting d.credentials =
      λ d. fun_ext λ key. opens-open_rows pf st sorting d key in
    read (run st ks db)
    ∙ open_table-run pf st sorting ks db kept
    ∙ ap (replay pf st (events st ks db)) (sym (read db))
