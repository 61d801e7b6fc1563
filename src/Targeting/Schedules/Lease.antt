-- ===== src/Targeting/Schedules/Lease.antt =====
-- `ClaimDueScheduledChanges`: tokens and the lease of a claim.
use flagstack.Targeting.Schedules.Lifecycle.{apply_claimed-inv, claimed-running}
use flagstack.Targeting.Repository.{Store, parse_id}
use flagstack.Targeting.Schedules.{
  claim, eligible, fail_claimed, patched, apply_claimed, is_claimed, has_token,
}
use flagstack.Targeting.Types.{Database, ScheduledChange, Status, TargetingError}
use flagstack.Common.{
  [], ◌==◌, ◌≡◌, some, true, arith, All, ℕ, String, length, ◌&&◌, ◌≢◌, inl, inr, ok, false, refl,
  sym, ap, ◌∙◌, subst, All-map, Bool-cases, true-ne-false, ok-inj, eq_iff, err-ne-ok, filter,
  filter-none, same_rows, nil-ne-cons, update_where-All_from,
}

-- One row has the id, as the primary key of the table promises.
abbrev pub HasOneRow : String → Database → Type 0
HasOneRow id db = length (filter (λ s. s.id == id) db.schedules) ≡ 1

-- What a claim leaves in a row with the claimed id.
abbrev IsHeld : ℕ → String → ScheduledChange → Type 0
IsHeld now token s =
    (s.status ≡ Status.running) × (s.claim_token ≡ some token) × (s.claimed_at ≡ some now)

claim-IsHeld :
    (now : ℕ) (token : String) (row c : ScheduledChange) (db db' : Database)
    → HasOneRow row.id db
    → claim now token row db ≡ (some c, db')
    → All (λ s. s.id == row.id ≡ true → IsHeld now token s) db'.schedules
unfolding claim
claim-IsHeld now token row c db db' one h =
    let mine = λ (s : ScheduledChange). s.id == row.id && eligible now s in
    let counted = ap (λ x. x.0) h in
    let same =
      same_rows mine (λ s. s.id == row.id) db.schedules (λ s m. ground arith)
        (ground (arith, one, counted)) in
    subst (λ d. All (λ s. s.id == row.id ≡ true → IsHeld now token s) d.schedules) (ap (λ x. x.1) h)
      (update_where-All_from (λ s. s.id == row.id ≡ true → mine s ≡ true)
        (λ s. s.id == row.id ≡ true → IsHeld now token s) mine _ db.schedules
        (λ s r chosen e. (refl, refl, refl))
        (λ s r left e. absurd (true-ne-false (sym (r e) ∙ left))) same)

claimed-token :
    (id token : String) (s : ScheduledChange)
    → is_claimed id token s ≡ true
    → has_token token s.claim_token ≡ true
unfolding is_claimed
claimed-token id token s h = ground arith

lost :
    (id token old : String) (now : ℕ) (s : ScheduledChange)
    → token ≢ old
    → (s.id == id ≡ true → IsHeld now token s)
    → is_claimed id old s ≡ false
lost id token old now s other k = elim (Bool-cases (is_claimed id old s)) [
  | inr free ↦ free
  | inl taken ↦
      let (_, held, _) = k (claimed-running id old s taken).0 in
      absurd (
        other ((eq_iff token old).0 (ap (has_token old) (sym held) ∙ claimed-token id old s taken)))
]

-- A worker whose claim was taken over can neither apply nor fail the change: after a claim of the
-- row with another token, both calls with the old token return an error, so they change nothing.
pub claim-supersedes :
    (st : Store) (now later : ℕ) (token old : String) (row c change : ScheduledChange)
    (why : TargetingError) (db db' db'' : Database)
    → HasOneRow row.id db
    → claim now token row db ≡ (some c, db')
    → parse_id st change.id ≡ ok row.id
    → parse_id st (patched change.claim_token "") ≡ ok old
    → token ≢ old
    → (apply_claimed st later change db' ≢ ok db'') × (fail_claimed st change why db' ≢ ok db'')
unfolding fail_claimed
claim-supersedes st now later token old row c change why db db' db'' one h named holds other =
    let held = claim-IsHeld now token row c db db' one h in
    let free : filter (is_claimed row.id old) db'.schedules ≡ [] =
      filter-none (is_claimed row.id old) db'.schedules
        (All-map db'.schedules (λ s k. lost row.id token old now s other k) held) in
    (
      λ done.
          let (id, held_token, s, named', holds', found_one, _) =
            apply_claimed-inv st later change db' db'' done in
          let this = ok-inj (sym named' ∙ named) in
          let mine = ok-inj (sym holds' ∙ holds) in
          nil-ne-cons (
            sym free
            ∙ ap (λ i. filter (is_claimed i old) db'.schedules) (sym this)
            ∙ ap (λ t. filter (is_claimed id t) db'.schedules) (sym mine)
            ∙ found_one),
      λ done. err-ne-ok (rw (named, holds, free) at done),
    )
