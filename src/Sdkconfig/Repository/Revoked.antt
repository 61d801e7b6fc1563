-- ===== src/Sdkconfig/Repository/Revoked.antt =====
-- `RevokeCredential` of backend/internal/database/sdk_config_repository.go, on the keys that
-- `authenticate` of backend/internal/sdkconfig/sdkconfig.go accepts.
use flagstack.Common.{
  filter, [], ◌∷◌, ◌==◌, ◌≤◌, ◌≡◌, inl, inr, some, none, false, arith, if◌then◌else◌, refl, sym,
  ◌∙◌, All, ℕ, String, List, Option, Bool-cases, length, is_empty, not, eq_iff, All-map, eq_refl,
  Option-cases, after_prefix, same_bytes, length-filter-le,
}
use flagstack.Sdkconfig.Repository.Opens.{
  accepted, look_up, open_client, open_rows, check_stored, find_client, key_of, prefixed-full,
}
use flagstack.Sdkconfig.Repository.Rows.{IsKept, TakesOut}
use flagstack.Targeting.Repository.{Store}
use flagstack.Sdkconfig.Types.{Credential, CredentialRow}
use flagstack.Sdkconfig.Service.{Platform, client_key_prefix, cut_at_dot}
use flagstack.Sdkconfig.Repository.{credential_of, is_live_server, digest_or_nil, is_live_client}

-- The same function with one credential taken out.
abbrev pub without : String → Option Credential → Option Credential
without id none = none
without id (some c) = if c.id == id then none else some c

check_stored_out :
    (digest : List ℕ) (id : String) (rows : List CredentialRow)
    → All (λ r. r.id ≡ id) rows
    → without id (accepted (check_stored digest rows)) ≡ none
unfolding credential_of
check_stored_out digest id [] h = refl
check_stored_out digest id (r ∷ []) h =
    elim (Bool-cases (same_bytes (digest_or_nil r.secret_digest) digest)) [
      | inl same ↦ rw (same, h.0, eq_refl id) refl
      | inr other ↦ rw (other) refl
    ]
check_stored_out digest id (r ∷ s ∷ rest) h = refl

check_stored_kept :
    (digest : List ℕ) (id : String) (rows : List CredentialRow)
    → All (λ r. r.id == id ≡ false) rows
    → accepted (check_stored digest rows) ≡ without id (accepted (check_stored digest rows))
unfolding credential_of
check_stored_kept digest id [] h = refl
check_stored_kept digest id (r ∷ []) h =
    elim (Bool-cases (same_bytes (digest_or_nil r.secret_digest) digest)) [
      | inl same ↦ rw (same, h.0) refl
      | inr other ↦ rw (other) refl
    ]
check_stored_kept digest id (r ∷ s ∷ rest) h = refl

live_server_ids :
    (j : String) (rows : List CredentialRow) → All (λ r. r.id ≡ j) (filter (is_live_server j) rows)
live_server_ids j [] = tt
live_server_ids j (r ∷ rows) = elim (Bool-cases (is_live_server j r)) [
  | inl is ↦ rw (is) (ground (arith, eq_iff r.id j), live_server_ids j rows)
  | inr is ↦ rw (is) (live_server_ids j rows)
]

check_stored-TakesOut :
    (digest : List ℕ) (id j : String) (rows rows' : List CredentialRow)
    → TakesOut id rows rows'
    → accepted (check_stored digest (filter (is_live_server j) rows'))
      ≡ without id (accepted (check_stored digest (filter (is_live_server j) rows)))
check_stored-TakesOut digest id j rows rows' out = elim (Bool-cases (j == id)) [
  | inl is ↦
      let same = (eq_iff j id).0 is in
      rw (out.0 j, is)
        (sym (
          check_stored_out digest id (filter (is_live_server j) rows)
            (All-map (filter (is_live_server j) rows) (λ r h. h ∙ same) (live_server_ids j rows))))
  | inr is ↦
      rw (out.0 j, is)
        (check_stored_kept digest id (filter (is_live_server j) rows) (
          All-map (filter (is_live_server j) rows) (λ (r : CredentialRow) h. rw (h) is)
            (live_server_ids j rows)))
]

find_client_out :
    (id : String) (rows : List CredentialRow)
    → length rows ≤ 1
    → accepted (find_client (filter (λ r. not (r.id == id)) rows))
      ≡ without id (accepted (find_client rows))
unfolding credential_of
find_client_out id [] h = refl
find_client_out id (r ∷ []) h = elim (Bool-cases (r.id == id)) [
  | inl is ↦ rw (is) refl
  | inr is ↦ rw (is) refl
]
find_client_out id (r ∷ s ∷ rest) h = absurd (omega arith)

find_client-TakesOut :
    (id k : String) (rows rows' : List CredentialRow)
    → IsKept rows
    → is_empty k ≡ false
    → TakesOut id rows rows'
    → accepted (find_client (filter (is_live_client k) rows'))
      ≡ without id (accepted (find_client (filter (is_live_client k) rows)))
find_client-TakesOut id k rows rows' kept full out =
    let few =
      length-filter-le (is_live_client k) (λ r. r.client_key == k) rows (λ x h. ground arith) in
    rw (out.1 k)
      (find_client_out id (filter (is_live_client k) rows) (omega (arith, kept.keys k full)))

module _ (pf : Platform) (st : Store) (id : String) (rows rows' : List CredentialRow)
    (out : TakesOut id rows rows') where
  look_up-TakesOut :
      (key : Option (String × List ℕ))
      → look_up pf st rows' key ≡ without id (look_up pf st rows key)
  look_up-TakesOut none = refl
  look_up-TakesOut (some key) = check_stored-TakesOut key.1 id key.0 rows rows' out

  open_client-TakesOut :
      (key : String)
      → IsKept rows
      → open_client pf st rows' key (after_prefix client_key_prefix key)
        ≡ without id (open_client pf st rows key (after_prefix client_key_prefix key))
  open_client-TakesOut key kept = elim (Option-cases (after_prefix client_key_prefix key)) [
    | inr (rest, client) ↦
        rw (client) (find_client-TakesOut id key rows rows' kept (prefixed-full key client) out)
    | inl none_client ↦ rw (none_client) refl
  ]

  pub open_rows-TakesOut :
      (key : String) (server : Option String)
      → IsKept rows
      → open_rows pf st rows' key server ≡ without id (open_rows pf st rows key server)
  open_rows-TakesOut key none kept = open_client-TakesOut key kept
  open_rows-TakesOut key (some rest) kept = look_up-TakesOut (key_of pf st (cut_at_dot rest))
