-- ===== src/Http/Auth.antt =====
-- backend/internal/httpapi/auth.go. What `decodeJSON` reads of a body is an argument, `none` where it
-- fails; a response is its status, the code of its error and its cookies, and the JSON of its body is
-- not modelled. A handler that is given a principal writes it as it is.
use flagstack.Auth.Types.{
  AuthError, IssuedSession, Principal, Session, AuthDatabase, invalid_credentials, invalid_input,
  session_not_found, BootstrapInput, LoginInput, bootstrap_complete,
}
use flagstack.Auth.Repository.{Reply}
use flagstack.Auth.Service.{
  login, logout, AuthService, Draw, authenticate_session, service_bootstrap, valid_csrf,
}
use flagstack.Common.{
  [], ◌∷◌, ◌==◌, ◌&&◌, ◌-◌, ok, err, some, none, true, false, if◌then◌else◌, ◌>>=◌, ◌>>◌, ℕ, String,
  Bool, List, Option, Result, negsuc, ℤ, ◌/◌, guard, ltb, pos, is_empty, not,
}

pub record Cookie : Type 0 where
  pub name : String
  pub value : String
  pub path : String
  pub expires : ℕ
  pub max_age : ℤ
  pub http_only : Bool
  pub secure : Bool
  pub same_site : String

pub record Response : Type 0 where
  pub status : ℕ
  pub code : Option String
  pub principal : Option Principal
  pub cookies : List Cookie

-- The cookies and the header of a request that the handlers read.
pub record Request : Type 0 where
  pub session_cookie : Option String
  pub csrf_cookie : Option String
  pub csrf_header : String

pub record Authenticated : Type 0 where
  pub session : Session
  pub token : String

abbrev pub session_cookie_name : String
session_cookie_name = "switchonyourcode_session"

abbrev pub csrf_cookie_name : String
csrf_cookie_name = "switchonyourcode_csrf"

abbrev pub api_error : ℕ → String → Response
api_error status code = record { status = status; code = some code; principal = none; cookies = [] }

-- `internalError`
abbrev pub internal_error : Response
internal_error = api_error 500 "internal_error"

abbrev pub unauthenticated : Response
unauthenticated = api_error 401 "unauthenticated"

module _ (secure : Bool) where
  abbrev pub cookie : String → String → ℕ → ℤ → Bool → Cookie
  cookie name value expires max_age http_only = record {
    name = name;
    value = value;
    path = "/";
    expires = expires;
    max_age = max_age;
    http_only = http_only;
    secure = secure;
    same_site = "Lax";
  }

  -- The seconds until the expiry, and one at least.
  abbrev pub max_age_of : ℕ → ℕ → ℕ
  max_age_of now expires =
      let seconds = (expires - now) / 1_000_000_000 in if ltb seconds 1 then 1 else seconds

  unfoldable pub set_session_cookies : ℕ → IssuedSession → List Cookie
  set_session_cookies now issued =
      let max_age = pos (max_age_of now issued.expires_at) in
      cookie session_cookie_name issued.session_token issued.expires_at max_age true
      ∷ cookie csrf_cookie_name issued.csrf_token issued.expires_at max_age false
      ∷ []

  -- The expiry is one second after the epoch, and the age -1.
  unfoldable pub clear_session_cookies : List Cookie
  clear_session_cookies =
      cookie session_cookie_name "" 1_000_000_000 (negsuc 0) true
      ∷ cookie csrf_cookie_name "" 1_000_000_000 (negsuc 0) false
      ∷ []

  abbrev pub bootstrap_error : AuthError → Response
  bootstrap_error (invalid_input field fault) = api_error 400 "validation_error"
  bootstrap_error bootstrap_complete = api_error 409 "bootstrap_complete"
  bootstrap_error other = internal_error

  abbrev pub login_error : AuthError → Response
  login_error invalid_credentials = api_error 401 "invalid_credentials"
  login_error other = internal_error

  abbrev pub issued_response :
      ℕ → ℕ → (AuthError → Response) → Reply IssuedSession → Response × AuthDatabase
  issued_response status now failed (err e, db) = (failed e, db)
  issued_response status now failed (ok issued, db) = (
    record {
      status = status;
      code = none;
      principal = some issued.principal;
      cookies = set_session_cookies now issued;
    },
    db,
  )

  module _ (service : AuthService) where
    unfoldable pub bootstrap_handler :
        Draw → ℕ → String → String → Option BootstrapInput → AuthDatabase → Response × AuthDatabase
    bootstrap_handler draw now user organisation none db = (api_error 400 "invalid_request", db)
    bootstrap_handler draw now user organisation (some request) db =
        issued_response 201 now bootstrap_error
          (service_bootstrap service draw now user organisation request db)

    unfoldable pub login_handler :
        Draw → ℕ → Option LoginInput → AuthDatabase → Response × AuthDatabase
    login_handler draw now none db = (api_error 400 "invalid_request", db)
    login_handler draw now (some request) db =
        issued_response 200 now login_error (login service draw now request db)

    abbrev pub authentication_error : AuthError → Response
    authentication_error session_not_found = record unauthenticated {
      cookies = clear_session_cookies;
    }
    authentication_error other = internal_error

    abbrev pub or_response {ℓ} :
        {A : Type ℓ} → (AuthError → Response) → Result AuthError A → Result Response A
    or_response f (ok a) = ok a
    or_response f (err e) = err (f e)

    -- `requireAuth`: what the next handler finds in the context, or the response.
    unfoldable pub require_auth : ℕ → Request → AuthDatabase → Result Response Authenticated
    require_auth now request db = do
      token ← elim request.session_cookie [
        | none ↦ err unauthenticated
        | some value ↦ if is_empty value then err unauthenticated else ok value
      ]
      session ← or_response authentication_error (authenticate_session service token now db)
      ok (record { session = session; token = token })

    abbrev pub cookie_is : Option String → String → Bool
    cookie_is none header = false
    cookie_is (some value) header = value == header

    -- `requireCSRF` behind `requireAuth`. The comparison of equal length in constant time is equality.
    unfoldable pub require_csrf : Request → Authenticated → Result Response Authenticated
    require_csrf request a = do
      guard
          (cookie_is request.csrf_cookie request.csrf_header
            && not (is_empty request.csrf_header)
            && valid_csrf service a.session request.csrf_header)
          (api_error 403 "csrf_failed")
      ok a

    -- The two together, as the router puts them before each handler that changes state.
    unfoldable pub guarded : ℕ → Request → AuthDatabase → Result Response Authenticated
    guarded now request db = do a ← require_auth now request db; require_csrf request a

    abbrev pub logged_out : AuthDatabase → Result Response Authenticated → Response × AuthDatabase
    logged_out db (err response) = (response, db)
    logged_out db (ok a) = (
      record { status = 204; code = none; principal = none; cookies = clear_session_cookies },
      logout service a.token db,
    )

    -- The route of `logout`, with its guards.
    unfoldable pub logout_route : ℕ → Request → AuthDatabase → Response × AuthDatabase
    logout_route now request db = logged_out db (guarded now request db)

    abbrev pub me_of : Result Response Authenticated → Response
    me_of (err response) = response
    me_of (ok a) = record {
      status = 200;
      code = none;
      principal = some a.session.principal;
      cookies = [];
    }

    -- The route of `me`.
    unfoldable pub me_route : ℕ → Request → AuthDatabase → Response
    me_route now request db = me_of (require_auth now request db)
