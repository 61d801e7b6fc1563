-- ===== src/Auth/Service/Ended.antt =====
-- The end of sessions: `Logout` of backend/internal/auth/service.go and `DeleteSession` of
-- backend/internal/database/auth_repository.go.
use flagstack.Common.{
  guard, same_bytes, [], ◌∷◌, ◌==◌, ◌&&◌, ◌<◌, ◌≡◌, inl, inr, ok, err, false, arith, if◌then◌else◌,
  refl, sym, ap, ◌∙◌, ℕ, String, List, filter, err-ne-ok, ltb, fun_ext, not, ok-inj, Bool-cases,
  length, same_bytes-eq, >>=-eq-ok, subst, true-ne-false, same_bytes_refl, eqb, filter-head,
  and-parts, guard-eq_ok, ltb→lt, filter-All, mem_rows,
}
use mathlib.Core.List.{Memᴰ}
use flagstack.Auth.Service.{
  authenticate_session, logout, AuthService, ltb, not, valid_secret, length, eqb,
}
use flagstack.Auth.Repository.{
  load_memberships, principal_by_user_id, memberships_by_user_id, only_row, session_by_token_hash,
  delete_session,
}
use flagstack.Auth.Types.{
  AuthDatabase, AuthError, SessionRow, MembershipRow, Session, session_not_found, bad_csrf_hash,
}

-- The same tables with other sessions.
abbrev with_sessions : AuthDatabase → List SessionRow → AuthDatabase
with_sessions db sessions = record db { sessions = sessions }

load_memberships_same :
    (db : AuthDatabase) (sessions : List SessionRow) (ms : List MembershipRow)
    → load_memberships (with_sessions db sessions) ms ≡ load_memberships db ms
unfolding load_memberships
load_memberships_same db sessions [] = refl
load_memberships_same db sessions (m ∷ ms) = rw (load_memberships_same db sessions ms) refl

-- A principal does not depend on the sessions.
pub principal_by_user_id_same :
    (db : AuthDatabase) (sessions : List SessionRow) (user_id : String)
    → principal_by_user_id (record db { sessions = sessions }) user_id
      ≡ principal_by_user_id db user_id
unfolding principal_by_user_id memberships_by_user_id
principal_by_user_id_same db sessions user_id =
    rw (load_memberships_same db sessions (filter (λ m. m.user_id == user_id) db.memberships)) refl

-- The rows that a token finds, among those that a deletion leaves.
left_rows :
    (digest gone : List ℕ) (now : ℕ) (sessions : List SessionRow)
    → same_bytes digest gone ≡ false
    → filter
        (λ s. same_bytes s.token_hash digest && ltb now s.expires_at)
        (filter (λ s. not (same_bytes s.token_hash gone)) sessions)
      ≡ filter (λ s. same_bytes s.token_hash digest && ltb now s.expires_at) sessions
left_rows digest gone now [] other = refl
left_rows digest gone now (s ∷ sessions) other = elim (Bool-cases (same_bytes s.token_hash gone)) [
  | inr kept ↦ rw (kept) (ground (arith, left_rows digest gone now sessions other))
  | inl removed ↦
      let same = same_bytes-eq s.token_hash gone removed in
      let unlike : same_bytes s.token_hash digest ≡ false =
        elim (Bool-cases (same_bytes s.token_hash digest)) [
          | inr is ↦ is
          | inl is ↦
              let equal : digest ≡ gone = sym (same_bytes-eq s.token_hash digest is) ∙ same in
              absurd (
                true-ne-false
                  (sym (ap (same_bytes digest) (sym equal) ∙ same_bytes_refl digest) ∙ other))
        ] in
      rw (removed, unlike) (left_rows digest gone now sessions other)
]

gone_rows :
    (digest : List ℕ) (now : ℕ) (sessions : List SessionRow)
    → filter
        (λ s. same_bytes s.token_hash digest && ltb now s.expires_at)
        (filter (λ s. not (same_bytes s.token_hash digest)) sessions)
      ≡ []
gone_rows digest now [] = refl
gone_rows digest now (s ∷ sessions) = ground (arith, gone_rows digest now sessions)

module _ (db : AuthDatabase) (now : ℕ) where
  session_by_token_hash-left :
      (digest gone : List ℕ)
      → same_bytes digest gone ≡ false
      → session_by_token_hash (delete_session gone db) digest now
        ≡ session_by_token_hash db digest now
  unfolding session_by_token_hash delete_session
  session_by_token_hash-left digest gone other =
      rw
        (
          left_rows digest gone now db.sessions other,
          fun_ext (
              principal_by_user_id_same db
                (filter (λ s. not (same_bytes s.token_hash gone)) db.sessions)),
        )
        refl

  session_by_token_hash-gone :
      (digest : List ℕ)
      → session_by_token_hash (delete_session digest db) digest now ≡ err session_not_found
  unfolding session_by_token_hash delete_session
  session_by_token_hash-gone digest = rw (gone_rows digest now db.sessions) refl

only_row-eq_ok {ℓ} :
    {A : Type ℓ} (missing : AuthError) (xs : List A) {x : A}
    → only_row missing xs ≡ ok x
    → xs ≡ x ∷ []
only_row-eq_ok missing [] h = absurd (err-ne-ok h)
only_row-eq_ok missing (y ∷ []) h = ap (λ z. z ∷ []) (ok-inj h)
only_row-eq_ok missing (y ∷ z ∷ rest) h = absurd (err-ne-ok h)

-- A logout ends the sessions of its token and no other: afterwards every token of the same digest is
-- answered with "session not found", whatever the time is, and every other token is answered as it
-- was before. A text that is no secret ends nothing.
pub authenticate_session-logout :
    (service : AuthService) (token other : String) (now : ℕ) (db : AuthDatabase)
    → authenticate_session service other now (logout service token db) ≡ (
        if valid_secret token
          && same_bytes (service.platform.sha256 other) (service.platform.sha256 token)
        then err session_not_found
        else authenticate_session service other now db)
unfolding authenticate_session logout
authenticate_session-logout service token other now db =
    let digest = service.platform.sha256 other in
    let gone = service.platform.sha256 token in
    elim (Bool-cases (valid_secret token)) [
      | inr malformed ↦ rw (malformed) refl
      | inl formed ↦ elim (Bool-cases (same_bytes digest gone)) [
        | inr unlike ↦
            rw (formed, unlike, session_by_token_hash-left db now digest gone unlike) refl
        | inl alike ↦
            let same = same_bytes-eq digest gone alike in
            rw (formed, alike)
              (elim (Bool-cases (valid_secret other)) [
                | inr no_secret ↦ rw (no_secret) refl
                | inl is_secret ↦ rw (is_secret) (
                    subst
                      (λ g.
                        session_by_token_hash (delete_session g db) digest now
                        ≡ err session_not_found)
                      same (session_by_token_hash-gone db now digest))
              ])
      ]
    ]

-- A session that a token authenticates is not expired: the tables have a row of the token's digest
-- whose expiry is the session's and lies ahead, and its CSRF digest of 32 bytes is the session's.
pub authenticate_session_sound :
    (service : AuthService) (token : String) (now : ℕ) (db : AuthDatabase) (session : Session)
    → authenticate_session service token now db ≡ ok session
    → (row : SessionRow) × Memᴰ row db.sessions
      × (row.token_hash ≡ service.platform.sha256 token)
      × (now < session.expires_at)
      × (row.expires_at ≡ session.expires_at)
      × (row.csrf_hash ≡ session.csrf_hash)
      × (length session.csrf_hash ≡ 32)
      × (principal_by_user_id db row.user_id ≡ ok session.principal)
unfolding authenticate_session session_by_token_hash
authenticate_session_sound service token now db session h = elim (Bool-cases (valid_secret token)) [
  | inr malformed ↦ absurd (err-ne-ok (rw (malformed) at h))
  | inl formed ↦
      let digest = service.platform.sha256 token in
      let (row, got, h1) =
        >>=-eq-ok
          (only_row session_not_found
            (filter (λ s. same_bytes s.token_hash digest && ltb now s.expires_at) db.sessions))
          _ (rw (formed) at h) in
      let (_, sized, h2) = >>=-eq-ok (guard (eqb (length row.csrf_hash) 32) bad_csrf_hash) _ h1 in
      let (principal, found, h3) = >>=-eq-ok (principal_by_user_id db row.user_id) _ h2 in
      let same = ok-inj h3 in
      let rows =
        only_row-eq_ok session_not_found
          (filter (λ s. same_bytes s.token_hash digest && ltb now s.expires_at) db.sessions) got in
      let (is, _) =
        filter-head (λ s. same_bytes s.token_hash digest && ltb now s.expires_at) db.sessions row []
          rows in
      let (token_is, live) =
        and-parts (same_bytes row.token_hash digest) (ltb now row.expires_at) is in
      let size = guard-eq_ok (eqb (length row.csrf_hash) 32) bad_csrf_hash sized in
      (
        row,
        filter-All (λ x. Memᴰ x db.sessions)
            (λ s. same_bytes s.token_hash digest && ltb now s.expires_at) db.sessions row []
            (mem_rows db.sessions) rows,
        same_bytes-eq row.token_hash digest token_is,
        subst (λ (x : Session). now < x.expires_at) same (ltb→lt now row.expires_at live),
        ap (λ x. x.expires_at) same,
        ap (λ x. x.csrf_hash) same,
        subst (λ (x : Session). length x.csrf_hash ≡ 32) same (ground arith),
        found ∙ ap (λ x. ok x.principal) same,
      )
]
