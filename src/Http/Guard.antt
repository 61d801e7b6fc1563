-- ===== src/Http/Guard.antt =====
-- The guards `requireAuth` and `requireCSRF` of backend/internal/httpapi/auth.go.
use flagstack.Auth.Service.Ended.{authenticate_session_sound, authenticate_session-logout}
use flagstack.Http.Auth.{
  Request, Response, cookie_is, require_auth, or_response, unauthenticated, Authenticated,
  authentication_error, guarded, require_csrf, api_error, logout_route, clear_session_cookies,
}
use flagstack.Auth.Types.{AuthError, AuthDatabase, Session, session_not_found}
use flagstack.Auth.Service.{logout, AuthService, authenticate_session, valid_csrf, valid_secret}
use flagstack.Common.{
  ◌≡◌, inl, inr, ok, err, some, none, true, if◌then◌else◌, ap, ℕ, String, Bool, Option, Result,
  err-ne-ok, Bool-cases, eq_iff, is_empty, ok-inj, >>=-eq-ok, subst, ◌&&◌, ◌<◌, not, guard,
  and-parts, guard-eq_ok, same_bytes-eq, same_bytes, ◌>>=◌, refl, sym, ◌∙◌, same_bytes_refl,
}

or_response-eq_ok {ℓ} :
    {A : Type ℓ} (secure : Bool) (service : AuthService) (f : AuthError → Response)
    (r : Result AuthError A) {a : A}
    → or_response secure service f r ≡ ok a
    → r ≡ ok a
or_response-eq_ok secure service f (ok b) h = ap (λ x. ok x) (ok-inj h)
or_response-eq_ok secure service f (err e) h = absurd (err-ne-ok h)

cookie_is-eq :
    (secure : Bool) (service : AuthService) (c : Option String) (header : String)
    → cookie_is secure service c header ≡ true
    → c ≡ some header
cookie_is-eq secure service none header h = cc
cookie_is-eq secure service (some value) header h = ap (λ x. some x) ((eq_iff value header).0 h)

module _ (secure : Bool) (service : AuthService) where
  token_of : Option String → Result Response String
  token_of none = err unauthenticated
  token_of (some value) = if is_empty value then err unauthenticated else ok value

  token_of-eq_ok : (c : Option String) (token : String) → token_of c ≡ ok token → c ≡ some token
  unfolding token_of
  token_of-eq_ok none token h = absurd (err-ne-ok h)
  token_of-eq_ok (some value) token h = elim (Bool-cases (is_empty value)) [
    | inl is ↦ absurd (err-ne-ok (rw (is) at h))
    | inr is ↦ ap (λ x. some x) (ok-inj (rw (is) at h))
  ]

  -- What `requireAuth` has found.
  abbrev pub HasSession : ℕ → Request → AuthDatabase → Authenticated → Type 0
  HasSession now request db a =
      (request.session_cookie ≡ some a.token)
      × (authenticate_session service a.token now db ≡ ok a.session)

  require_auth-read :
      (now : ℕ) (request : Request) (db : AuthDatabase) (a : Authenticated)
      → require_auth secure service now request db ≡ ok a
      → (token_of request.session_cookie ≡ ok a.token)
        × (authenticate_session service a.token now db ≡ ok a.session)
  unfolding require_auth token_of
  require_auth-read now request db a h =
      let (token, read, h1) = >>=-eq-ok (token_of request.session_cookie) _ h in
      let (session, got, h2) =
        >>=-eq-ok
          (or_response secure service (authentication_error secure service)
            (authenticate_session service token now db))
          _ h1 in
      subst
        (λ (x : Authenticated).
          (token_of request.session_cookie ≡ ok x.token)
          × (authenticate_session service x.token now db ≡ ok x.session))
        (ok-inj h2)
        (
          read,
          or_response-eq_ok secure service (authentication_error secure service)
              (authenticate_session service token now db) got,
        )

  require_auth-HasSession :
      (now : ℕ) (request : Request) (db : AuthDatabase) (a : Authenticated)
      → require_auth secure service now request db ≡ ok a
      → HasSession now request db a
  require_auth-HasSession now request db a h =
      let (read, session) = require_auth-read now request db a h in
      (token_of-eq_ok request.session_cookie a.token read, session)

  require_auth-refused :
      (now : ℕ) (request : Request) (db : AuthDatabase) (token : String)
      → token_of request.session_cookie ≡ ok token
      → authenticate_session service token now db ≡ err session_not_found
      → require_auth secure service now request db
        ≡ err (record unauthenticated { cookies = clear_session_cookies secure })
  unfolding require_auth token_of
  require_auth-refused now request db token read none_found =
      let answer : Session → String → Authenticated =
        λ session t. record { session = session; token = t } in
      ap
        (λ r. r >>= (λ t.
          or_response secure service (authentication_error secure service)
            (authenticate_session service t now db)
          >>= (λ session. ok (answer session t))))
        read
      ∙ rw (none_found) refl

authenticate_session-valid_secret :
    (service : AuthService) (token : String) (now : ℕ) (db : AuthDatabase) (session : Session)
    → authenticate_session service token now db ≡ ok session
    → valid_secret token ≡ true
unfolding authenticate_session
authenticate_session-valid_secret service token now db session h =
    elim (Bool-cases (valid_secret token)) [
      | inl formed ↦ formed
      | inr malformed ↦ absurd (err-ne-ok (rw (malformed) at h))
    ]

-- What `requireCSRF` has found.
abbrev pub HasCsrf : AuthService → Request → Authenticated → Type 0
HasCsrf service request a =
    (request.csrf_cookie ≡ some request.csrf_header)
    × (service.platform.sha256 request.csrf_header ≡ a.session.csrf_hash)

require_csrf-HasCsrf :
    (secure : Bool) (service : AuthService) (request : Request) (found a : Authenticated)
    → require_csrf secure service request found ≡ ok a
    → (found ≡ a) × HasCsrf service request found
unfolding require_csrf valid_csrf
require_csrf-HasCsrf secure service request found a h =
    let cookie_ok = cookie_is secure service request.csrf_cookie request.csrf_header in
    let given = not (is_empty request.csrf_header) in
    let digest_ok =
      same_bytes (service.platform.sha256 request.csrf_header) found.session.csrf_hash in
    let csrf = valid_secret request.csrf_header && digest_ok in
    let (_, passed, h1) =
      >>=-eq-ok (guard (cookie_ok && given && csrf) (api_error 403 "csrf_failed")) _ h in
    let (first, valid) =
      and-parts (cookie_ok && given) csrf
        (guard-eq_ok (cookie_ok && given && csrf) (api_error 403 "csrf_failed") passed) in
    let (is_cookie, _) = and-parts cookie_ok given first in
    let (_, same) = and-parts (valid_secret request.csrf_header) digest_ok valid in
    (
      ok-inj h1,
      (
        cookie_is-eq secure service request.csrf_cookie request.csrf_header is_cookie,
        same_bytes-eq (service.platform.sha256 request.csrf_header) found.session.csrf_hash same,
      ),
    )

-- What stands behind both guards: a request whose session cookie is the token of a session that is
-- found and not expired, and whose CSRF header is that of its cookie and has the session's digest.
pub guarded_sound :
    (secure : Bool) (service : AuthService) (now : ℕ) (request : Request) (db : AuthDatabase)
    (a : Authenticated)
    → guarded secure service now request db ≡ ok a
    → HasSession secure service now request db a
      × (now < a.session.expires_at)
      × HasCsrf service request a
unfolding guarded
guarded_sound secure service now request db a h =
    let (found, got, h1) =
      >>=-eq-ok (require_auth secure service now request db) (require_csrf secure service request)
        h in
    let (same, csrf) = require_csrf-HasCsrf secure service request found a h1 in
    let session = require_auth-HasSession secure service now request db found got in
    let (_, _, _, live, _, _, _, _) =
      authenticate_session_sound service found.token now db found.session session.1 in
    subst
      (λ (x : Authenticated).
        HasSession secure service now request db x
        × (now < x.session.expires_at)
        × HasCsrf service request x)
      same (session, live, csrf)

-- A logout that passed the guards ends the session of the request: whenever it is sent again, it is
-- refused as unauthenticated, with cookies that clear the browser's.
pub guarded-logout_route :
    (secure : Bool) (service : AuthService) (now later : ℕ) (request : Request) (db : AuthDatabase)
    (a : Authenticated)
    → guarded secure service now request db ≡ ok a
    → guarded secure service later request (logout_route secure service now request db).1
      ≡ err (record unauthenticated { cookies = clear_session_cookies secure })
unfolding guarded logout_route
guarded-logout_route secure service now later request db a h =
    let (found, got, h1) =
      >>=-eq-ok (require_auth secure service now request db) (require_csrf secure service request)
        h in
    let (same, _) = require_csrf-HasCsrf secure service request found a h1 in
    let (read, session) = require_auth-read secure service now request db found got in
    let formed =
      authenticate_session-valid_secret service found.token now db found.session session in
    rw (h) (
      rw (sym same) (
        ap (λ r. r >>= require_csrf secure service request)
          (require_auth-refused secure service later request (logout service found.token db)
            found.token read
            (authenticate_session-logout service found.token found.token later db
              ∙ rw (formed, same_bytes_refl (service.platform.sha256 found.token)) refl))))
