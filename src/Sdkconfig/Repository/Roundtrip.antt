-- ===== src/Sdkconfig/Repository/Roundtrip.antt =====
-- `CreateCredential` of backend/internal/sdkconfig/sdkconfig.go and
-- backend/internal/database/sdk_config_repository.go, and the key that it issues.
use flagstack.Sdkconfig.Repository.Saved.{
  create_credential-IsSaved, saved, find_client_credential-saved, find_server_credential-saved,
}
use flagstack.Common.{
  [], ◌∷◌, ◌≡◌, ok, some, none, true, false, arith, ap, ℕ, String, Option, err-ne-ok, ok-inj,
  >>=-eq-ok, guard, not, guard-eq_ok, refl, List, is_empty, ◌==◌, ◌||◌, inl, inr, concat, all_codes,
  Bool-cases, byte_length, sym, ◌∙◌, subst, eq_iff, trim_space, leb, is_blank, after_prefix-concat,
  same_bytes_refl,
}
use Prim.Native.String.append
use flagstack.Sdkconfig.Repository.Keys.{
  server_after_client, IsDrawn, is_hex, cut_at_dot-concat, trim_space-client_key,
  trim_space-server_key,
}
use flagstack.Sdkconfig.Repository.{
  create_credential, find_client_credential, stored_of, digest_or_nil, Sorting, some_bytes,
  sdk_reader, sdk_store, new_credential_row, credential_of,
}
use flagstack.Sdkconfig.Service.{
  Platform, authenticate, Repository, authenticate_server, client_key_prefix, authenticate_key,
  server_key_prefix, invalid_input, required, too_long, bad_kind,
}
use flagstack.Targeting.Repository.{Store}
use flagstack.Sdkconfig.Types.{
  CredentialRecord, SdkDatabase, Credential, StoredServerCredential, CreateInput, CreatedCredential,
}
use flagstack.Sdkconfig.Credentials.{
  drawn, kind_client, kind_server, Draw, server_key, with_material, without_dashes,
  service_create_credential,
}

drawn-eq_ok {ℓ} : {A : Type ℓ} (o : Option A) {a : A} → drawn o ≡ ok a → o ≡ some a
drawn-eq_ok none h = absurd (err-ne-ok h)
drawn-eq_ok (some b) h = ap (λ x. some x) (ok-inj h)

digest_or_nil-some_bytes : (xs : List ℕ) → digest_or_nil (some_bytes xs) ≡ xs
digest_or_nil-some_bytes [] = refl
digest_or_nil-some_bytes (x ∷ xs) = refl

client_key-full : (public : String) → is_empty (concat client_key_prefix public) ≡ false
client_key-full public = rw (append.cons "s" "yoc_client_" public) refl

authenticate-server_key :
    (pf : Platform) (repo : Repository) (id secret : String) (stored : StoredServerCredential)
    → all_codes is_hex (without_dashes id) ≡ true
    → byte_length (without_dashes id) ≡ 32
    → is_empty secret ≡ false
    → pf.parse_uuid (without_dashes id) ≡ some id
    → repo.find_server_credential id ≡ ok stored
    → stored.secret_digest ≡ pf.runtime.sha256 secret
    → authenticate pf repo (server_key id secret) ≡ ok stored.credential
unfolding authenticate authenticate_server server_key
authenticate-server_key pf repo id secret stored hex digits full parses got same =
    rw
      (
        after_prefix-concat server_key_prefix (concat (without_dashes id) (concat "." secret)),
        cut_at_dot-concat (without_dashes id) secret hex,
        digits,
        full,
        parses,
        got,
        same,
        same_bytes_refl (pf.runtime.sha256 secret),
      )
      refl

authenticate-client_key :
    (pf : Platform) (repo : Repository) (public : String) (c : Credential)
    → repo.find_client_credential (concat client_key_prefix public) ≡ ok c
    → authenticate pf repo (concat client_key_prefix public) ≡ ok c
unfolding authenticate
authenticate-client_key pf repo public c got =
    rw (server_after_client public, after_prefix-concat client_key_prefix public, got) refl

module _ (pf : Platform) (st : Store) (sorting : Sorting) (now : ℕ) (draw : Draw)
    (alike : pf.parse_uuid ≡ st.parse_uuid) (law : IsDrawn pf.parse_uuid draw) where
  authenticate_key-server_saved :
      (r : CredentialRecord) (secret : String) (db db' : SdkDatabase) (c : Credential)
      → draw.id ≡ some r.id
      → draw.secret ≡ some secret
      → r.kind ≡ kind_server
      → r.secret_digest ≡ pf.runtime.sha256 secret
      → create_credential st now r db ≡ ok (c, db')
      → authenticate_key pf (sdk_reader st sorting db') (server_key r.id secret) ≡ ok c
  unfolding authenticate_key
  authenticate_key-server_saved r secret db db' c id drew server digest created =
      let (o, p, e, saves) = create_credential-IsSaved st now r db db' c created in
      let row = new_credential_row o p e r now in
      let parses : st.parse_uuid r.id ≡ some r.id =
        subst (λ f. f r.id ≡ some r.id) alike (law.canonical r.id id) in
      let hex = law.hex r.id id in
      subst
        (λ d.
          authenticate pf (sdk_reader st sorting d) (trim_space (server_key r.id secret)) ≡ ok c)
        saves.3
        (rw (trim_space-server_key r.id secret hex (law.secret_token secret drew)) (
          authenticate-server_key pf (sdk_reader st sorting (saved st row db saves.1 refl)) r.id
            secret (stored_of row) hex (law.digits r.id id) (law.secret_full secret drew)
            (law.compact r.id id)
            (find_server_credential-saved st row db saves.1 refl parses server)
            (digest_or_nil-some_bytes r.secret_digest ∙ digest)
          ∙ ap (λ x. ok x) saves.2))

  authenticate_key-client_saved :
      (r : CredentialRecord) (public : String) (db db' : SdkDatabase) (c : Credential)
      → draw.public ≡ some public
      → r.kind ≡ kind_client
      → r.client_key ≡ concat client_key_prefix public
      → create_credential st now r db ≡ ok (c, db')
      → authenticate_key pf (sdk_reader st sorting db') (concat client_key_prefix public) ≡ ok c
  unfolding authenticate_key
  authenticate_key-client_saved r public db db' c drew client key created =
      let (o, p, e, saves) = create_credential-IsSaved st now r db db' c created in
      let row = new_credential_row o p e r now in
      let full : is_empty r.client_key ≡ false = ap is_empty key ∙ client_key-full public in
      subst
        (λ d.
          authenticate pf (sdk_reader st sorting d) (trim_space (concat client_key_prefix public))
          ≡ ok c)
        saves.3
        (rw (trim_space-client_key public (law.public_token public drew)) (
          authenticate-client_key pf (sdk_reader st sorting (saved st row db saves.1 refl)) public
            (credential_of row)
            (subst
              (λ k.
                find_client_credential st (saved st row db saves.1 refl) k ≡ ok (credential_of row))
              key (find_client_credential-saved st row db saves.1 refl client full))
          ∙ ap (λ x. ok x) saves.2))

  -- What was saved for a record with its material answers to the key of that material.
  authenticate_key-saved :
      (r r' : CredentialRecord) (key : String) (db db' : SdkDatabase) (c : Credential)
      → draw.id ≡ some r.id
      → (r.kind == kind_server || r.kind == kind_client) ≡ true
      → with_material pf.runtime.sha256 draw r ≡ ok (r', key)
      → create_credential st now r' db ≡ ok (c, db')
      → authenticate_key pf (sdk_reader st sorting db') key ≡ ok c
  unfolding with_material
  authenticate_key-saved r r' key db db' c id kind made created =
      elim (Bool-cases (r.kind == kind_server)) [
        | inl server ↦
            let (secret, drew, built) = >>=-eq-ok (drawn draw.secret) _ (rw (server) at made) in
            let same = ok-inj built in
            let same_record : record r { secret_digest = pf.runtime.sha256 secret } ≡ r' =
              ap (λ x. x.0) same in
            subst (λ k. authenticate_key pf (sdk_reader st sorting db') k ≡ ok c)
              (ap (λ x. x.1) same)
              (authenticate_key-server_saved (record r { secret_digest = pf.runtime.sha256 secret })
                secret db db' c id (drawn-eq_ok draw.secret drew)
                ((eq_iff r.kind kind_server).0 server) refl
                (subst (λ x. create_credential st now x db ≡ ok (c, db')) (sym same_record)
                  created))
        | inr other ↦
            let (public, drew, built) = >>=-eq-ok (drawn draw.public) _ (rw (other) at made) in
            let same = ok-inj built in
            let same_record : record r { client_key = concat client_key_prefix public } ≡ r' =
              ap (λ x. x.0) same in
            let client : r.kind == kind_client ≡ true = ground arith in
            subst (λ k. authenticate_key pf (sdk_reader st sorting db') k ≡ ok c)
              (ap (λ x. x.1) same)
              (authenticate_key-client_saved
                (record r { client_key = concat client_key_prefix public }) public db db' c
                (drawn-eq_ok draw.public drew) ((eq_iff r.kind kind_client).0 client) refl
                (subst (λ x. create_credential st now x db ≡ ok (c, db')) (sym same_record)
                  created))
      ]

-- The key of a credential that the service has just created, with an identifier and tokens of the
-- documented form and the same `uuid.Parse` in the service and the repository, authenticates that
-- credential against the database that the call left, whatever the database was before.
pub authenticate_key-service_create_credential :
    (pf : Platform) (st : Store) (sorting : Sorting) (to_lower : String → String) (now : ℕ)
    (draw : Draw) (organisation project : String) (input : CreateInput) (db db' : SdkDatabase)
    (created : CreatedCredential)
    → pf.parse_uuid ≡ st.parse_uuid
    → IsDrawn pf.parse_uuid draw
    → service_create_credential pf.runtime.sha256 to_lower
        (sdk_store st sorting now)
        draw
        organisation
        project
        input
        db
      ≡ ok (created, db')
    → authenticate_key pf (sdk_reader st sorting db') created.key ≡ ok created.credential
unfolding service_create_credential
authenticate_key-service_create_credential pf st sorting to_lower now draw organisation project
      input db db' created alike law h =
    let name = trim_space input.name in
    let kind = to_lower (trim_space input.kind) in
    let (_, _, h1) = >>=-eq-ok (guard (not (is_empty name)) (invalid_input "name" required)) _ h in
    let (_, _, h2) =
      >>=-eq-ok (guard (leb (byte_length name) 160) (invalid_input "name" too_long)) _ h1 in
    let (_, known, h3) =
      >>=-eq-ok (guard (kind == kind_server || kind == kind_client) (invalid_input "kind" bad_kind))
        _ h2 in
    let (_, _, h4) =
      >>=-eq-ok
        (guard (not (is_blank input.environment_id)) (invalid_input "environment_id" required)) _
        h3 in
    let (id, drew, h5) = >>=-eq-ok (drawn draw.id) _ h4 in
    let r : CredentialRecord = record {
      id = id;
      organisation_id = organisation;
      project_id = project;
      environment_id = input.environment_id;
      name = name;
      kind = kind;
      client_key = "";
      secret_digest = [];
    } in
    let (made, material, h6) = >>=-eq-ok (with_material pf.runtime.sha256 draw r) _ h5 in
    let (stored, saves, h7) = >>=-eq-ok (create_credential st now made.0 db) _ h6 in
    let same = ok-inj h7 in
    subst (λ x. authenticate_key pf (sdk_reader st sorting x.1) x.0.key ≡ ok x.0.credential) same
      (authenticate_key-saved pf st sorting now draw alike law r made.0 made.1 db stored.1 stored.0
        (drawn-eq_ok draw.id drew) (guard-eq_ok _ _ known) material saves)
