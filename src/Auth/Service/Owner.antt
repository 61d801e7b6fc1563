-- ===== src/Auth/Service/Owner.antt =====
-- The first login after `Bootstrap` of backend/internal/auth/service.go.
use flagstack.Common.{encode_base64, url_alphabet, ◌≡◌, ok, ℕ, String, List, ltb, not, ◌+◌, length}
use flagstack.Auth.Types.{BootstrapRecord, AuthDatabase, SessionRecord}
use flagstack.Auth.Repository.{check_bootstrap, bootstrapped}
use flagstack.Auth.Service.{AuthService, Secrets, ltb, not, length}

module _ (now : ℕ) (user organisation : String) (r : BootstrapRecord) (db : AuthDatabase)
    (checked : check_bootstrap now user organisation r db ≡ ok tt) where
  abbrev tables : AuthDatabase
  tables = bootstrapped user organisation r db

-- The secrets that given random bytes make.
abbrev secrets_of : AuthService → ℕ → List ℕ → List ℕ → Secrets
secrets_of service now secret csrf = record {
  session_token = encode_base64 url_alphabet secret;
  csrf_token = encode_base64 url_alphabet csrf;
  token_hash = service.platform.sha256 (encode_base64 url_alphabet secret);
  csrf_hash = service.platform.sha256 (encode_base64 url_alphabet csrf);
  expires_at = now + service.session_ttl;
}

abbrev record_of : String → Secrets → SessionRecord
record_of user s = record {
  user_id = user;
  token_hash = s.token_hash;
  csrf_hash = s.csrf_hash;
  expires_at = s.expires_at;
}
