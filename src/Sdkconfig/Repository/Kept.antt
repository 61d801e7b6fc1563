-- ===== src/Sdkconfig/Repository/Kept.antt =====
-- The table of credentials under the calls of
-- backend/internal/database/sdk_config_repository.go.
use flagstack.Common.{
  filter, any, update_where, [], ◌∷◌, ◌++◌, ◌==◌, ◌+◌, ◌≤◌, ◌≡◌, inl, inr, true, false, arith, refl,
  ap, ◌∙◌, ℕ, Bool, List, length, map, Bool-cases, All-map, eq_iff, is_empty, some, none, Option,
  Result-cases, subst, sym, filter-append, filter-none, any-false,
}
use flagstack.Sdkconfig.Repository.Saved.{create_credential-IsSaved}
use flagstack.Sdkconfig.Repository.Calls.{call, Call, create, revoke, show, call_show-credentials}
use flagstack.Sdkconfig.Repository.Rows.{IsKept, revoked, revoke_credential-IsFound}
use flagstack.Targeting.Repository.{Store}
use flagstack.Sdkconfig.Types.{CredentialRow, SdkDatabase, Credential}
use flagstack.Sdkconfig.Repository.{
  create_credential, revoke_credential, collides, revoke_row, new_credential_row,
}

length-append {ℓ} : {A : Type ℓ} (xs ys : List A) → length (xs ++ ys) ≡ length xs + length ys
length-append [] ys = omega arith
length-append (x ∷ xs) ys = omega (arith, length-append xs ys)

length-map {ℓ κ} :
    {A : Type ℓ} {B : Type κ} (f : A → B) (xs : List A) → length (map f xs) ≡ length xs
length-map f [] = refl
length-map f (x ∷ xs) = omega (arith, length-map f xs)

-- A new row that a condition selects where it selects no other.
at_most_one :
    (p : CredentialRow → Bool) (rows : List CredentialRow) (row : CredentialRow)
    → length (filter p rows) ≤ 1
    → (p row ≡ true → filter p rows ≡ [])
    → length (filter p (rows ++ row ∷ [])) ≤ 1
at_most_one p rows row few alone = elim (Bool-cases (p row)) [
  | inl is ↦ rw (filter-append p rows (row ∷ []), alone is, is) (omega arith)
  | inr is ↦
      rw (filter-append p rows (row ∷ []), is)
        (omega (arith, length-append (filter p rows) [], few))
]

append-IsKept :
    (rows : List CredentialRow) (row : CredentialRow)
    → IsKept rows
    → any (collides row) rows ≡ false
    → IsKept (rows ++ row ∷ [])
append-IsKept rows row kept free = record {
  ids = λ id.
      at_most_one (λ r. r.id == id) rows row (kept.ids id)
        (λ is.
          filter-none (λ r. r.id == id) rows
            (All-map rows
              (λ (r : CredentialRow) h.
                ground (arith, eq_iff row.id id, eq_iff r.id id, eq_iff r.id row.id))
              (any-false (collides row) rows free)));
  keys = λ k full.
      at_most_one (λ r. r.client_key == k) rows row (kept.keys k full)
        (λ is.
          filter-none (λ r. r.client_key == k) rows
            (All-map rows
              (λ (r : CredentialRow) h.
                let same : row.client_key ≡ k = (eq_iff row.client_key k).0 is in
                let has : is_empty row.client_key ≡ false = ap is_empty same ∙ full in
                ground (arith, has, eq_iff r.client_key k, eq_iff r.client_key row.client_key))
              (any-false (collides row) rows free)));
}

-- An update that leaves a condition alone leaves the number of its rows.
same_count :
    (p q : CredentialRow → Bool) (f : CredentialRow → CredentialRow) (rows : List CredentialRow)
    → ((r : CredentialRow) → p (f r) ≡ p r)
    → length (filter p (update_where q f rows)) ≡ length (filter p rows)
same_count p q f [] same = refl
same_count p q f (r ∷ rows) same = ground (arith, same r, same_count p q f rows same)

revoke_row-IsKept :
    (now : ℕ) (row : CredentialRow) (before : Option ℕ) (db : SdkDatabase)
    → IsKept db.credentials
    → IsKept (revoke_row now row before db).1.credentials
revoke_row-IsKept now row (some at) db kept = kept
revoke_row-IsKept now row none db kept = record {
  ids = λ i. omega (
    arith,
    kept.ids i,
    same_count (λ r. r.id == i) (λ r. r.id == row.id) (revoked now) db.credentials (λ r. refl),
  );
  keys = λ k full. omega (
    arith,
    kept.keys k full,
    same_count (λ r. r.client_key == k) (λ r. r.id == row.id) (revoked now) db.credentials
        (λ r. refl),
  );
}

pub call-IsKept :
    (st : Store) (k : Call) (db : SdkDatabase)
    → IsKept db.credentials
    → IsKept (call st k db).credentials
unfolding call
call-IsKept st (create now r) db kept = elim (Result-cases (create_credential st now r db)) [
  | inl (reply, done) ↦
      let (o, p, e, saves) = create_credential-IsSaved st now r db reply.1 reply.0 done in
      rw (done) (
        subst (λ (d : SdkDatabase). IsKept d.credentials) saves.3
          (append-IsKept db.credentials (new_credential_row o p e r now) kept saves.1))
  | inr (e, failed) ↦ rw (failed) kept
]
call-IsKept st (revoke o p c now) db kept =
    elim (Result-cases (revoke_credential st o p c now db)) [
      | inl (reply, done) ↦
          let (_, _, _, row, _, result) =
            revoke_credential-IsFound st o p c now db reply.1 reply.0 done in
          rw (done) (
            subst (λ (x : Credential × SdkDatabase). IsKept x.1.credentials) result
              (revoke_row-IsKept now row row.revoked_at db kept))
      | inr (e, failed) ↦ rw (failed) kept
    ]
call-IsKept st (show o p f visible) db kept =
    subst IsKept (sym (call_show-credentials st o p f visible db)) kept
