-- ===== src/Tests/Requesting.antt =====
-- Requests of a browser that has signed in.
use flagstack.Tests.Hashing.{auth_service}
use flagstack.Tests.Signing.{found_session, next_token, first_token, signed_in}
use flagstack.Http.Guard.{HasSession, HasCsrf, guarded_sound, guarded-logout_route}
use flagstack.Http.Auth.{
  Authenticated, Request, guarded, logout_route, unauthenticated, clear_session_cookies,
}
use flagstack.Common.{◌<◌, ◌≡◌, ok, err, some, true, refl}

abbrev browser : Request
browser = record {
  session_cookie = some next_token;
  csrf_cookie = some first_token;
  csrf_header = first_token;
}

abbrev caller : Authenticated
caller = record { session = found_session; token = next_token }

guarded-run : guarded true auth_service 149 browser signed_in ≡ ok caller
unfolding guarded flagstack.Http.Auth.require_auth flagstack.Auth.Service.authenticate_session
    flagstack.Auth.Service.valid_secret flagstack.Common.decode_base64 flagstack.Common.position
    flagstack.Auth.Repository.session_by_token_hash flagstack.Common.same_bytes
    flagstack.Tests.Hashing.fill flagstack.Auth.Repository.principal_by_user_id
    flagstack.Auth.Repository.memberships_by_user_id flagstack.Auth.Repository.load_memberships
    flagstack.Http.Auth.require_csrf flagstack.Auth.Service.valid_csrf flagstack.Common.sort_by
    flagstack.Common.insert_by
guarded-run = refl

guarded_sound_example :
    HasSession true auth_service 149 browser signed_in caller
    × (149 < caller.session.expires_at)
    × HasCsrf auth_service browser caller
guarded_sound_example = guarded_sound true auth_service 149 browser signed_in caller guarded-run

guarded-logout_route_example :
    guarded true auth_service 149 browser (logout_route true auth_service 149 browser signed_in).1
    ≡ err (record unauthenticated { cookies = clear_session_cookies true })
guarded-logout_route_example =
    guarded-logout_route true auth_service 149 149 browser signed_in caller guarded-run
