-- ===== src/Flagconfig/Enabled.antt =====
-- `SetEnabled` of backend/internal/database/flag_config_repository.go.
use flagstack.Targeting.Repository.Queries.{only-some}
use flagstack.Flagconfig.{
  FlagConfig, create_enabled, flag_config_of, set_enabled, write_enabled, reload, store_enabled,
  change_enabled, validate_targets, database_error,
}
use flagstack.Targeting.Types.{ConfigRow, Database}
use flagstack.Targeting.Repository.{Store, only, is_config, parse_project_scope, parse_id}
use flagstack.Evaluation.Values.{same_bool}
use flagstack.Common.{
  [], ◌∷◌, ◌≡◌, inl, inr, ok, some, none, true, false, arith, refl, sym, ap, ◌∙◌, suc, All, String,
  Bool, List, Option, filter, Bool-cases, any, eq_iff, err-ne-ok, filter-head, nil-ne-cons, subst,
  >>=-eq-ok, All-map, ok-inj, sole_row, wrap, true-ne-false, update_where-All, wrap-eq-ok,
  any-false,
}

filter-nil :
    {A : Type 0} (p : A → Bool) (xs : List A) → filter p xs ≡ [] → All (λ x. p x ≡ false) xs
filter-nil p [] h = tt
filter-nil p (x ∷ xs) h = elim (Bool-cases (p x)) [
  | inl is ↦ absurd (nil-ne-cons (sym (rw (is) at h)))
  | inr is ↦ (is, filter-nil p xs (rw (is) at h))
]

only-none : {A : Type 0} (xs : List A) → only xs ≡ ok none → xs ≡ []
only-none [] h = refl
only-none (x ∷ []) h = cc
only-none (x ∷ y ∷ rest) h = cc

same_bool-eq : (a b : Bool) → same_bool a b ≡ true → a ≡ b
same_bool-eq true b h = sym h
same_bool-eq false true h = cc
same_bool-eq false false h = refl

same_bool_refl : (b : Bool) → same_bool b b ≡ true
same_bool_refl true = refl
same_bool_refl false = refl

reload-eq_ok :
    (found : Option ConfigRow) (row : ConfigRow) → reload found ≡ ok row → found ≡ some row
reload-eq_ok none row h = absurd (err-ne-ok h)
reload-eq_ok (some other) row h = ap some (ok-inj h)

-- Every row of the target is as it was asked for, and so is the configuration returned.
abbrev pub IsSettled : String → String → String → String → Bool → FlagConfig × Database → Type 0
IsSettled o p e f enabled reply =
    (reply.0.enabled ≡ enabled)
    × All (λ r. is_config o p e f r ≡ true → r.enabled ≡ enabled) reply.1.configs

module _ (o p e f : String) where
  -- A row of the target is selected by its own columns exactly where the target selects.
  target_same :
      (row r : ConfigRow)
      → is_config o p e f row ≡ true
      → is_config row.organisation_id row.project_id row.environment_id row.feature_flag_id r
        ≡ is_config o p e f r
  target_same row r is =
      let same_o : row.organisation_id ≡ o = ground (arith, eq_iff row.organisation_id o) in
      let same_p : row.project_id ≡ p = ground (arith, eq_iff row.project_id p) in
      let same_e : row.environment_id ≡ e = ground (arith, eq_iff row.environment_id e) in
      let same_f : row.feature_flag_id ≡ f = ground (arith, eq_iff row.feature_flag_id f) in
      rw (same_o, same_p, same_e, same_f) refl

  change_enabled-IsSettled :
      (row : ConfigRow) (enabled : Bool) (db : Database)
      → filter (is_config o p e f) db.configs ≡ row ∷ []
      → IsSettled o p e f enabled (change_enabled row enabled db)
  unfolding flag_config_of store_enabled
  change_enabled-IsSettled row enabled db found =
      let (is, _) = filter-head (is_config o p e f) db.configs row [] found in
      elim (Bool-cases (same_bool row.enabled enabled)) [
        | inl same ↦ rw (same) (
          same_bool-eq row.enabled enabled same,
          All-map db.configs (λ (r : ConfigRow) h k. same_bool-eq r.enabled enabled (h k))
              (sole_row (is_config o p e f) (is_config o p e f) (λ r. same_bool r.enabled enabled)
                db.configs row (rw (found) (omega arith)) found is same),
        )
        | inr other ↦ rw (other) (
          refl,
          update_where-All (λ (r : ConfigRow). is_config o p e f r ≡ true → r.enabled ≡ enabled)
              (is_config row.organisation_id row.project_id row.environment_id row.feature_flag_id)
              (λ r. record r { enabled = enabled; revision = suc row.revision }) db.configs
              (λ r k l. refl)
              (λ r k l. absurd (true-ne-false (sym l ∙ sym (target_same row r is) ∙ k))),
        )
      ]

  create_enabled-IsSettled :
      (db : Database) (reply : FlagConfig × Database)
      → create_enabled o p e f db ≡ ok reply
      → IsSettled o p e f true reply
  unfolding create_enabled flag_config_of
  create_enabled-IsSettled db reply h = elim (Bool-cases (any (is_config o p e f) db.configs)) [
    | inl taken ↦
        let (found, got, h1) =
          >>=-eq-ok (wrap database_error (only (filter (is_config o p e f) db.configs))) _
            (rw (taken) at h) in
        let (row, loaded, h2) = >>=-eq-ok (reload found) _ h1 in
        let is_row : found ≡ some row = reload-eq_ok found row loaded in
        let rows = only-some (filter (is_config o p e f) db.configs) row (
          wrap-eq-ok database_error (only (filter (is_config o p e f) db.configs)) got
          ∙ ap ok is_row) in
        subst (IsSettled o p e f true) (ok-inj h2) (change_enabled-IsSettled row true db rows)
    | inr free ↦ subst (IsSettled o p e f true) (ok-inj (rw (free) at h)) (
      refl,
      (
        λ k. refl,
        All-map db.configs (λ r no_target k. absurd (true-ne-false (sym k ∙ no_target)))
            (any-false (is_config o p e f) db.configs free),
      ),
    )
  ]

  write_enabled-IsSettled :
      (environment flag : String) (enabled : Bool) (found : Option ConfigRow) (db : Database)
      (reply : FlagConfig × Database)
      → only (filter (is_config o p e f) db.configs) ≡ ok found
      → write_enabled (λ d. d) environment flag o p e f enabled found db ≡ ok reply
      → IsSettled o p e f enabled reply
  unfolding write_enabled
  write_enabled-IsSettled environment flag enabled (some row) db reply got h =
      subst (IsSettled o p e f enabled) (ok-inj h) (
        change_enabled-IsSettled row enabled db
          (only-some (filter (is_config o p e f) db.configs) row got))
  write_enabled-IsSettled environment flag true none db reply got h =
      create_enabled-IsSettled db reply h
  write_enabled-IsSettled environment flag false none db reply got h =
      subst (IsSettled o p e f false) (ok-inj h) (
        refl,
        All-map db.configs (λ r no_target k. absurd (true-ne-false (sym k ∙ no_target)))
            (filter-nil (is_config o p e f) db.configs
              (only-none (filter (is_config o p e f) db.configs) got)),
      )

-- A call that succeeds while no other call writes settles the flag in the environment, whether it
-- creates the row, changes it or leaves it: the configuration returned and every row of the target,
-- if there is one, are enabled or not as the call asked.
pub set_enabled-IsSettled :
    (st : Store) (organisation project environment flag o p e f : String) (enabled : Bool)
    (db : Database) (reply : FlagConfig × Database)
    → parse_project_scope st organisation project ≡ ok (o, p)
    → parse_id st environment ≡ ok e
    → parse_id st flag ≡ ok f
    → set_enabled st (λ d. d) organisation project environment flag enabled db ≡ ok reply
    → IsSettled o p e f enabled reply
unfolding set_enabled
set_enabled-IsSettled st organisation project environment flag o p e f enabled db reply scope in_e
      in_f h =
    let (_, _, h1) = >>=-eq-ok (validate_targets db o p e f) _ (rw (scope, in_e, in_f) at h) in
    let (found, got, h2) =
      >>=-eq-ok (wrap database_error (only (filter (is_config o p e f) db.configs))) _ h1 in
    write_enabled-IsSettled o p e f environment flag enabled found db reply
      (wrap-eq-ok database_error (only (filter (is_config o p e f) db.configs)) got) h2

-- Where a concurrent call has created the one row of the target between the query and the insertion,
-- enabling still settles: it does not fail, and the row that is there is enabled after it.
pub create_enabled_races :
    (o p e f : String) (db : Database) (row : ConfigRow)
    → filter (is_config o p e f) db.configs ≡ row ∷ []
    → (reply : FlagConfig × Database) × (create_enabled o p e f db ≡ ok reply)
      × IsSettled o p e f true reply
unfolding create_enabled
create_enabled_races o p e f db row found =
    let (_, taken) = filter-head (is_config o p e f) db.configs row [] found in
    (
      change_enabled row true db,
      rw (taken, found) refl,
      change_enabled-IsSettled o p e f row true db found,
    )
