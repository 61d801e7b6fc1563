-- ===== src/Sdkconfig/Credentials.antt =====
-- backend/internal/sdkconfig/sdkconfig.go: the operations on credentials, on an interface of the
-- repository's writing methods. What the generators of identifiers and tokens draw is an argument,
-- `none` where they fail.
use flagstack.Sdkconfig.Types.{CreateInput, CredentialRecord, CreatedCredential, Credential}
use flagstack.Sdkconfig.Service.{
  SdkError, no_randomness, credential_not_found, invalid_input, scope_required, required, too_long,
  bad_kind, client_key_prefix, server_key_prefix,
}
use Prim.Native.Char.{code}
use flagstack.Common.{
  [], ◌==◌, ◌||◌, ok, err, some, none, if◌then◌else◌, ◌>>=◌, ◌>>◌, ℕ, String, Bool, List, Option,
  Result, eqb, guard, trim_space, not, is_blank, is_empty, leb, byte_length, concat,
}

-- The methods of `Repository` on credentials and visibility, with the state of the database.
pub record CredentialStore (S : Type 0) : Type 0 where
  pub list_credentials : String → String → S → Result SdkError (List Credential)
  pub create_credential : CredentialRecord → S → Result SdkError (Credential × S)
  pub revoke_credential : String → String → String → ℕ → S → Result SdkError (Credential × S)
  pub set_client_visible : String → String → String → Bool → S → Result SdkError (Bool × S)

abbrev pub kind_server : String
kind_server = "server"

abbrev pub kind_client : String
kind_client = "client"

-- `strings.ReplaceAll(s, "-", "")`
unfoldable pub without_dashes : String → String
without_dashes String.[] = String.[]
without_dashes (String.◌∷◌ c s) =
    let rest = without_dashes s in if eqb (code c) 45 then rest else String.◌∷◌ c rest

unfoldable pub server_key : String → String → String
server_key id secret = concat server_key_prefix (concat (without_dashes id) (concat "." secret))

abbrev pub drawn {ℓ} : {A : Type ℓ} → Option A → Result SdkError A
drawn none = err no_randomness
drawn (some a) = ok a

-- The random values of one call.
pub record Draw : Type 0 where
  pub id : Option String
  pub secret : Option String
  pub public : Option String

module _ (sha256 : String → List ℕ) where
  -- The branches on the kind: the record completed, and the key.
  unfoldable pub with_material :
      Draw → CredentialRecord → Result SdkError (CredentialRecord × String)
  with_material draw r =
      if r.kind == kind_server
      then (do
        secret ← drawn draw.secret
        ok (record r { secret_digest = sha256 secret }, server_key r.id secret))
      else (do
        public ← drawn draw.public
        let key = concat client_key_prefix public
        ok (record r { client_key = key }, key))

  module _ (to_lower : String → String) {S : Type 0} (repo : CredentialStore S) where
    unfoldable pub service_create_credential :
        Draw → String → String → CreateInput → S → Result SdkError (CreatedCredential × S)
    service_create_credential draw organisation project input s = do
      let name = trim_space input.name
      guard (not (is_empty name)) (invalid_input "name" required)
      guard (leb (byte_length name) 160) (invalid_input "name" too_long)
      let kind = to_lower (trim_space input.kind)
      guard (kind == kind_server || kind == kind_client) (invalid_input "kind" bad_kind)
      guard (not (is_blank input.environment_id)) (invalid_input "environment_id" required)
      id ← drawn draw.id
      (r, key) ← with_material draw (record {
        id = id;
        organisation_id = organisation;
        project_id = project;
        environment_id = input.environment_id;
        name = name;
        kind = kind;
        client_key = "";
        secret_digest = [];
      })
      (credential, s') ← repo.create_credential r s
      ok (record { credential = credential; key = key }, s')

module _ {S : Type 0} (repo : CredentialStore S) where
  unfoldable pub service_list_credentials : String → String → S → Result SdkError (List Credential)
  service_list_credentials organisation project s = do
    guard (not (is_blank organisation || is_blank project)) scope_required
    repo.list_credentials organisation project s

  unfoldable pub service_revoke_credential :
      String → String → String → ℕ → S → Result SdkError (Credential × S)
  service_revoke_credential organisation project credential now s = do
    guard (not (is_blank credential)) credential_not_found
    repo.revoke_credential organisation project credential now s

  unfoldable pub service_set_client_visible :
      String → String → String → Bool → S → Result SdkError (Bool × S)
  service_set_client_visible organisation project flag visible s =
      repo.set_client_visible organisation project flag visible s
