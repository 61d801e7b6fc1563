-- ===== src/Sdkconfig/Repository/Opens.antt =====
-- `authenticate` of backend/internal/sdkconfig/sdkconfig.go against the rows of
-- backend/internal/database/sdk_config_repository.go, as a function of the key.
use flagstack.Common.{
  filter, ◌&&◌, ◌≡◌, inl, inr, ok, err, some, none, false, if◌then◌else◌, ◌>>=◌, ◌>>◌, refl, ℕ,
  String, List, Option, Result, eqb, is_empty, byte_length, not, Option-cases, Bool-cases, guard,
  after_prefix, same_bytes,
}
use flagstack.Targeting.Repository.{Store}
use flagstack.Sdkconfig.Types.{CredentialRow, Credential, SdkDatabase}
use flagstack.Sdkconfig.Service.{
  Platform, SdkError, client_key_prefix, authenticate, authenticate_server, cut_at_dot, hide_error,
  credential_not_found, server_key_prefix, invalid_credential,
}
use flagstack.Sdkconfig.Repository.{
  find_client_credential, find_server_credential, Sorting, is_live_client, is_live_server, sole,
  sdk_reader, credential_of, stored_of,
}

-- Abstractly the repository is a function from key texts to the credentials that they open.
abbrev pub accepted {ℓ} : {A : Type ℓ} → Result SdkError A → Option A
accepted (ok c) = some c
accepted (err e) = none

unfoldable pub opens : Platform → Store → Sorting → SdkDatabase → String → Option Credential
opens pf st sorting db key = accepted (authenticate pf (sdk_reader st sorting db) key)

-- The end of the branch for a server key, from the rows that the query returns.
abbrev pub check_stored : List ℕ → List CredentialRow → Result SdkError Credential
check_stored digest rows =
    hide_error (sole credential_not_found rows >>= λ row. ok (stored_of row)) >>= λ stored.
    guard (same_bytes stored.secret_digest digest) invalid_credential >> ok stored.credential

abbrev pub find_client : List CredentialRow → Result SdkError Credential
find_client rows = hide_error (sole credential_not_found rows >>= λ row. ok (credential_of row))

pub prefixed-full :
    (key : String) {rest : String}
    → after_prefix client_key_prefix key ≡ some rest
    → is_empty key ≡ false
unfolding after_prefix
prefixed-full String.[] h = cc
prefixed-full (String.◌∷◌ c s) h = refl

module _ (pf : Platform) (st : Store) where
  -- The identifier to look up and the digest of the secret, for a well formed key.
  abbrev pub key_of : Option (String × String) → Option (String × List ℕ)
  key_of none = none
  key_of (some parts) =
      if eqb (byte_length parts.0) 32 && not (is_empty parts.1)
      then elim (pf.parse_uuid parts.0) [
        | none ↦ none
        | some i ↦ elim (st.parse_uuid i) [
          | none ↦ none
          | some j ↦ some (j, pf.runtime.sha256 parts.1)
        ]
      ]
      else none

  abbrev pub look_up : List CredentialRow → Option (String × List ℕ) → Option Credential
  look_up rows none = none
  look_up rows (some key) = accepted (check_stored key.1 (filter (is_live_server key.0) rows))

  abbrev pub open_client : List CredentialRow → String → Option String → Option Credential
  open_client rows key none = none
  open_client rows key (some rest) = accepted (find_client (filter (is_live_client key) rows))

  abbrev pub open_rows : List CredentialRow → String → Option String → Option Credential
  open_rows rows key none = open_client rows key (after_prefix client_key_prefix key)
  open_rows rows key (some rest) = look_up rows (key_of (cut_at_dot rest))

  open_server_rows :
      (sorting : Sorting) (db : SdkDatabase) (rest : String)
      → accepted (authenticate_server pf (sdk_reader st sorting db) rest)
        ≡ look_up db.credentials (key_of (cut_at_dot rest))
  unfolding authenticate_server find_server_credential
  open_server_rows sorting db rest = elim (Option-cases (cut_at_dot rest)) [
    | inl uncut ↦ rw (uncut) refl
    | inr (parts, cut) ↦
        elim (Bool-cases (eqb (byte_length parts.0) 32 && not (is_empty parts.1))) [
          | inr malformed ↦ rw (cut, malformed) refl
          | inl formed ↦ elim (Option-cases (pf.parse_uuid parts.0)) [
            | inl unparsed ↦ rw (cut, formed, unparsed) refl
            | inr (i, parsed) ↦ elim (Option-cases (st.parse_uuid i)) [
              | inl unknown ↦ rw (cut, formed, parsed, unknown) refl
              | inr (j, known) ↦ rw (cut, formed, parsed, known) refl
            ]
          ]
        ]
  ]

  pub opens-open_rows :
      (sorting : Sorting) (db : SdkDatabase) (key : String)
      → opens pf st sorting db key
        ≡ open_rows db.credentials key (after_prefix server_key_prefix key)
  unfolding opens authenticate find_client_credential
  opens-open_rows sorting db key = elim (Option-cases (after_prefix server_key_prefix key)) [
    | inr (rest, server) ↦ rw (server) (open_server_rows sorting db rest)
    | inl none_server ↦ elim (Option-cases (after_prefix client_key_prefix key)) [
      | inr (rest, client) ↦ rw (none_server, client) refl
      | inl none_client ↦ rw (none_server, none_client) refl
    ]
  ]
