-- ===== src/Targeting/Service/Stored.antt =====
-- `TargetingRepository.SetPolicy`: the configuration in the database.
use flagstack.Targeting.Repository.Queries.{only-some}
use flagstack.Evaluation.Types.{Policy}
use flagstack.Targeting.Types.{Database, ConfigRow}
use flagstack.Targeting.Repository.{
  DeepEqualIsEqual, Store, only, store_policy, is_config, put_policy, new_config,
}
use flagstack.Common.{
  [], ◌∷◌, ◌==◌, ◌≡◌, inl, inr, ok, some, none, true, false, refl, ◌∙◌, All, String, Bool, List,
  Option, is_blank, map, Bool-cases, length, ap, suc, eq_iff, eq_refl, arith, any, filter,
  filter-head, update_where, filter-update_where,
}

-- The text of a UUID is never blank, neither the one parsed nor the canonical one.
abbrev pub ParsesText : Store → Type 0
ParsesText st =
    (s u : String) → st.parse_uuid s ≡ some u → (is_blank s ≡ false) × (is_blank u ≡ false)

-- The primary key of the table of flags.
abbrev pub HasUniqueFlags : Database → Type 0
HasUniqueFlags db =
    (f : String)
    → any (λ x. x.id == f) db.flags ≡ true
    → length (filter (λ x. x.id == f) db.flags) ≡ 1

module _ {A : Type 0} where
  pub filter-cong :
      (p q : A → Bool) (xs : List A) → All (λ x. p x ≡ q x) xs → filter p xs ≡ filter q xs
  filter-cong p q [] h = refl
  filter-cong p q (x ∷ xs) (e, es) = rw (e, filter-cong p q xs es)

  only-none : (xs : List A) → only xs ≡ ok none → xs ≡ []
  only-none [] h = refl
  only-none (x ∷ []) h = cc
  only-none (x ∷ y ∷ xs) h = cc

config_fields :
    (o p e f : String) (row : ConfigRow)
    → is_config o p e f row ≡ true
    → (row.organisation_id ≡ o)
      × (row.project_id ≡ p)
      × (row.environment_id ≡ e)
      × (row.feature_flag_id ≡ f)
config_fields o p e f row h = (
  (eq_iff row.organisation_id o).0 (ground arith),
  (eq_iff row.project_id p).0 (ground arith),
  (eq_iff row.environment_id e).0 (ground arith),
  (eq_iff row.feature_flag_id f).0 (ground arith),
)

-- The configuration's row that `SetPolicy` leaves has the policy.
pub put_policy-config :
    (st : Store) (o p e f : String) (policy : Policy) (db : Database) (entity : Option ConfigRow)
    → DeepEqualIsEqual st
    → only (filter (is_config o p e f) db.configs) ≡ ok entity
    → (row : ConfigRow) × (filter
          (is_config o p e f)
          (put_policy st o p e f policy db entity).1.configs
        ≡ row ∷ [])
      × (row.policy ≡ policy)
unfolding store_policy
put_policy-config st o p e f policy db none equal h =
    let nothing = only-none (filter (is_config o p e f) db.configs) h in
    (new_config o p e f policy, rw (eq_refl o, eq_refl p, eq_refl e, eq_refl f, nothing), refl)
put_policy-config st o p e f policy db (some row) equal h =
    let one = only-some (filter (is_config o p e f) db.configs) row h in
    elim (Bool-cases (st.deep_equal_policy row.policy policy)) [
      | inl same ↦ (row, rw (same) one, equal row.policy policy same)
      | inr different ↦
          let (mine, _) = filter-head (is_config o p e f) db.configs row [] one in
          let (in_o, in_p, in_e, in_f) = config_fields o p e f row mine in
          let set = λ (r : ConfigRow). record r { policy = policy; revision = suc r.revision } in
          let keyed : is_config row.organisation_id row.project_id row.environment_id
                row.feature_flag_id
              ≡ is_config o p e f =
            rw (in_o, in_p, in_e, in_f) in
          (
            set row,
            rw (different) (
                ap (λ k. filter (is_config o p e f) (update_where k set db.configs)) keyed
                ∙ filter-update_where (is_config o p e f) set db.configs (λ x. refl)
                ∙ ap (map set) one),
            refl,
          )
    ]
