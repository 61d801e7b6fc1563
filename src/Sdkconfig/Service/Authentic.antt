-- ===== src/Sdkconfig/Service/Authentic.antt =====
-- `authenticate` of backend/internal/sdkconfig/sdkconfig.go.
use flagstack.Sdkconfig.Types.{Credential, StoredServerCredential}
use flagstack.Sdkconfig.Service.{
  Platform, SdkError, authenticate, or_invalid, Repository, hide_error, authenticate_server,
  cut_at_dot, server_key_prefix, client_key_prefix, invalid_credential,
}
use flagstack.Common.{
  ◌&&◌, ◌≡◌, ◌⊎◌, inl, inr, ok, err, some, none, ap, String, Option, Result, guard, err-ne-ok,
  guard-eq_ok, ok-inj, >>=-eq-ok, eqb, Option-cases, byte_length, not, is_empty, after_prefix,
  same_bytes, same_bytes-eq,
}

or_invalid-eq_ok {ℓ} : {A : Type ℓ} (o : Option A) {a : A} → or_invalid o ≡ ok a → o ≡ some a
or_invalid-eq_ok none h = absurd (err-ne-ok h)
or_invalid-eq_ok (some b) h = ap (λ x. some x) (ok-inj h)

hide_error-eq_ok {ℓ} : {A : Type ℓ} (r : Result SdkError A) {a : A} → hide_error r ≡ ok a → r ≡ ok a
hide_error-eq_ok (ok b) h = h
hide_error-eq_ok (err e) h = absurd (err-ne-ok h)

module _ (pf : Platform) (repo : Repository) where
  -- The text has an id and a secret, the repository has a credential of that id, and the digest
  -- that it keeps is the secret's.
  abbrev pub HasSecret : String → Credential → Type 0
  HasSecret rest c =
      (id_text : String) × (secret : String) × (id : String) × (stored : StoredServerCredential)
      × (cut_at_dot rest ≡ some (id_text, secret))
      × (pf.parse_uuid id_text ≡ some id)
      × (repo.find_server_credential id ≡ ok stored)
      × (stored.secret_digest ≡ pf.runtime.sha256 secret)
      × (stored.credential ≡ c)

  authenticate_server-HasSecret :
      (rest : String) (c : Credential) → authenticate_server pf repo rest ≡ ok c → HasSecret rest c
  unfolding authenticate_server
  authenticate_server-HasSecret rest c h =
      let (parts, cut, h1) = >>=-eq-ok (or_invalid (cut_at_dot rest)) _ h in
      let (_, _, h2) =
        >>=-eq-ok
          (guard (eqb (byte_length parts.0) 32 && not (is_empty parts.1)) invalid_credential) _
          h1 in
      let (id, parsed, h3) = >>=-eq-ok (or_invalid (pf.parse_uuid parts.0)) _ h2 in
      let (stored, got, h4) = >>=-eq-ok (hide_error (repo.find_server_credential id)) _ h3 in
      let (_, same, h5) =
        >>=-eq-ok
          (guard (same_bytes stored.secret_digest (pf.runtime.sha256 parts.1)) invalid_credential) _
          h4 in
      (
        parts.0,
        parts.1,
        id,
        stored,
        or_invalid-eq_ok (cut_at_dot rest) cut,
        or_invalid-eq_ok (pf.parse_uuid parts.0) parsed,
        hide_error-eq_ok (repo.find_server_credential id) got,
        same_bytes-eq stored.secret_digest (pf.runtime.sha256 parts.1) (
            guard-eq_ok (same_bytes stored.secret_digest (pf.runtime.sha256 parts.1))
              invalid_credential same),
        ok-inj h5,
      )

-- A key that `authenticate` accepts is a server key whose secret has the digest that the repository
-- keeps for the id in the key, or a client key that the repository knows; the credential returned is
-- that one.
pub authenticate_sound :
    (pf : Platform) (repo : Repository) (key : String) (c : Credential)
    → authenticate pf repo key ≡ ok c
    → ((rest : String) × (after_prefix server_key_prefix key ≡ some rest)
        × HasSecret pf repo rest c)
      ⊎ ((rest : String) × (after_prefix client_key_prefix key ≡ some rest)
          × (repo.find_client_credential key ≡ ok c))
unfolding authenticate
authenticate_sound pf repo key c h = elim (Option-cases (after_prefix server_key_prefix key)) [
  | inr (rest, server) ↦
      inl (rest, server, authenticate_server-HasSecret pf repo rest c (rw (server) at h))
  | inl none_server ↦ elim (Option-cases (after_prefix client_key_prefix key)) [
    | inr (rest, client) ↦ inr (
      rest,
      client,
      hide_error-eq_ok (repo.find_client_credential key) (rw (none_server, client) at h),
    )
    | inl none_client ↦ absurd (err-ne-ok (rw (none_server, none_client) at h))
  ]
]
