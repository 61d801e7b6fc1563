-- ===== src/Targeting/Schedules/Applied.antt =====
-- `ApplyClaimedScheduledChange` and the configuration of the flag.

use flagstack.Targeting.Repository.{
  Store, is_config, parse_environment_flag_scope, parse_id, only, found, DeepEqualIsEqual,
}
use flagstack.Targeting.Types.{
  SchedulePatch, ConfigRow, ScheduledChange, Database, schedule_not_pending,
}
use flagstack.Targeting.Schedules.{
  apply_claimed, changes, patch_config, same_bool, patched, is_claimed, apply_patch,
}
use flagstack.Common.{
  [], ◌∷◌, ◌||◌, ◌≡◌, ◌⊎◌, inl, inr, ok, some, none, true, false, arith, refl, sym, ap, ◌∙◌, suc, ℕ,
  String, Bool, Option, Bool-cases, >>=-eq-ok, ok-inj, map, subst, filter, filter-update_where,
}

same_bool-eq : (a b : Bool) → same_bool a b ≡ true → a ≡ b
same_bool-eq true b h = sym h
same_bool-eq false false h = refl
same_bool-eq false true h = cc

-- A field that the patch does not change has the patch's value already.
changes-kept {ℓ} :
    {A : Type ℓ} (same : A → A → Bool) (o : Option A) (old : A)
    → ((a b : A) → same a b ≡ true → a ≡ b)
    → changes same o old ≡ false
    → old ≡ patched o old
changes-kept same none old equal h = refl
changes-kept same (some new) old equal h = equal old new (ground arith)

-- The fields of a patched row, and its revision: the row itself, or the next revision.
abbrev pub IsPatched : SchedulePatch → ConfigRow → ConfigRow → Type 0
IsPatched patch row r =
    (r.enabled ≡ patched patch.enabled row.enabled)
    × (r.policy ≡ patched patch.policy row.policy)
    × ((r ≡ row) ⊎ (r.revision ≡ suc row.revision))

patch_config-IsPatched :
    (st : Store) (patch : SchedulePatch) (row : ConfigRow)
    → DeepEqualIsEqual st
    → IsPatched patch row (patch_config st patch row)
unfolding patch_config
patch_config-IsPatched st patch row equal =
    let kept_enabled = changes-kept same_bool patch.enabled row.enabled same_bool-eq in
    let kept_policy = changes-kept st.deep_equal_policy patch.policy row.policy equal in
    elim (Bool-cases (changes same_bool patch.enabled row.enabled)) [
      | inl on ↦ elim (Bool-cases (changes st.deep_equal_policy patch.policy row.policy)) [
        | inl new ↦ rw (on, new) (refl, refl, inr refl)
        | inr old ↦ rw (on, old) (refl, kept_policy old, inr refl)
      ]
      | inr off ↦ elim (Bool-cases (changes st.deep_equal_policy patch.policy row.policy)) [
        | inl new ↦ rw (off, new) (kept_enabled off, refl, inr refl)
        | inr old ↦ rw (off, old) (kept_enabled off, kept_policy old, inl refl)
      ]
    ]

patch_config-is_config :
    (st : Store) (patch : SchedulePatch) (o p e f : String) (row : ConfigRow)
    → is_config o p e f (patch_config st patch row) ≡ is_config o p e f row
unfolding patch_config
patch_config-is_config st patch o p e f row =
    elim (Bool-cases (
      changes same_bool patch.enabled row.enabled
      || changes st.deep_equal_policy patch.policy row.policy)) [
        | inl changed ↦ rw (changed)
        | inr same ↦ rw (same)
      ]

-- What a successful application wrote to the table of configurations.
apply_claimed-configs :
    (st : Store) (now : ℕ) (change : ScheduledChange) (db db' : Database)
    → apply_claimed st now change db ≡ ok db'
    → (sc : String × String × String × String) × (config : Option ConfigRow)
      × (parse_environment_flag_scope st change.organisation_id change.project_id
            change.environment_id change.feature_flag_id
          ≡ ok sc)
      × (only (filter (is_config sc.0 sc.1 sc.2 sc.3) db.configs) ≡ ok config)
      × (db'.configs ≡ apply_patch st sc.0 sc.1 sc.2 sc.3 change.patch config db.configs)
unfolding apply_claimed
apply_claimed-configs st now change db db' h =
    let (sc, a, h0) =
      >>=-eq-ok
        (parse_environment_flag_scope st change.organisation_id change.project_id
          change.environment_id change.feature_flag_id)
        _ h in
    let (id, _, h1) = >>=-eq-ok (parse_id st change.id) _ h0 in
    let (token, _, h2) = >>=-eq-ok (parse_id st (patched change.claim_token "")) _ h1 in
    let (claimed, _, h3) = >>=-eq-ok (only (filter (is_claimed id token) db.schedules)) _ h2 in
    let (s, _, h4) = >>=-eq-ok (found schedule_not_pending claimed) _ h3 in
    let (config, c, h5) =
      >>=-eq-ok (only (filter (is_config sc.0 sc.1 sc.2 sc.3) db.configs)) _ h4 in
    (sc, config, a, c, ap (λ d. d.configs) (sym (ok-inj h5)))

-- When `ApplyClaimedScheduledChange` succeeds on a flag that has a configuration, that row is patched:
-- its fields are the patch's where it has them, and the revision grows by one unless the row is as
-- it was.
pub apply_claimed-patches :
    (st : Store) (now : ℕ) (change : ScheduledChange) (db db' : Database) (o p e f : String)
    (row : ConfigRow)
    → DeepEqualIsEqual st
    → parse_environment_flag_scope st change.organisation_id change.project_id change.environment_id
        change.feature_flag_id
      ≡ ok (o, p, e, f)
    → filter (is_config o p e f) db.configs ≡ row ∷ []
    → apply_claimed st now change db ≡ ok db'
    → (r : ConfigRow) × (filter (is_config o p e f) db'.configs ≡ r ∷ [])
      × IsPatched change.patch row r
apply_claimed-patches st now change db db' o p e f row equal scope one h =
    let (sc, config, a, c, written) = apply_claimed-configs st now change db db' h in
    let same : sc ≡ (o, p, e, f) = ok-inj (sym a ∙ scope) in
    let Found = λ (x : String × String × String × String).
      only (filter (is_config x.0 x.1 x.2 x.3) db.configs) ≡ ok config in
    let here : config ≡ some row = ok-inj (sym (subst Found same c) ∙ ap only one) in
    let Written = λ (x : String × String × String × String) (y : Option ConfigRow).
      db'.configs ≡ apply_patch st x.0 x.1 x.2 x.3 change.patch y db.configs in
    let patched_rows =
      subst (λ y. Written (o, p, e, f) y) here (subst (λ x. Written x config) same written) in
    (
      patch_config st change.patch row,
      ap (filter (is_config o p e f)) patched_rows
          ∙ filter-update_where (is_config o p e f) (patch_config st change.patch) db.configs
              (patch_config-is_config st change.patch o p e f)
          ∙ ap (map (patch_config st change.patch)) one,
      patch_config-IsPatched st change.patch row equal,
    )
