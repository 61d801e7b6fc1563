-- ===== src/Sdkconfig/Repository/Hidden.antt =====
-- `SetClientVisible` of backend/internal/database/sdk_config_repository.go, and the configuration that
-- backend/internal/sdkconfig/sdkconfig.go serves after it.
use flagstack.Evaluation.Values.{same_bool}
use flagstack.Common.{
  filter, any, [], ◌∷◌, ◌==◌, ◌≡◌, ◌≢◌, inl, inr, ok, some, true, false, arith, refl, sym, ap, ◌∙◌,
  All, String, Bool, List, subst, not, >>=-eq-ok, ok-inj, All-map, eq_iff, true-ne-false,
  Bool-cases, filter-head, any-map, sole_row, update_where-All,
}
use flagstack.Sdkconfig.Repository.Visible.{configuration_for_key-IsServed}
use flagstack.Sdkconfig.Repository.Rows.{sole-eq_ok}
use flagstack.Targeting.Types.{FlagRow}
use flagstack.Sdkconfig.Credentials.{kind_client}
use flagstack.Targeting.Service.Stored.{HasUniqueFlags}
use flagstack.Sdkconfig.Types.{SdkDatabase, Credential, Configuration}
use flagstack.Targeting.Repository.{Store, is_flag}
use mathlib.Core.List.{Memᴰ}
use flagstack.Sdkconfig.Repository.{
  set_client_visible, Sorting, scope_of, sdk_reader, some_or, sole,
}
use flagstack.Sdkconfig.Service.{
  feature_flag_not_found, Platform, authenticate_key, configuration_for_key,
}

All-mem : {A : Type 0} (P : A → Type 0) (x : A) (xs : List A) → All P xs → Memᴰ x xs → P x
All-mem P x [] h m = elim m [ ]
All-mem P x (y ∷ ys) (p, h) (Memᴰ.head same) = subst P (sym same) p
All-mem P x (y ∷ ys) (p, h) (Memᴰ.tail later) = All-mem P x ys h later

set_client_visible_hides :
    (st : Store) (organisation project flag id : String) (shown : Bool) (db db' : SdkDatabase)
    → HasUniqueFlags db.core
    → st.parse_uuid flag ≡ some id
    → set_client_visible st organisation project flag false db ≡ ok (shown, db')
    → All (λ r. r.id == id ≡ true → not r.client_visible ≡ true) db'.core.flags
unfolding set_client_visible
set_client_visible_hides st organisation project flag id shown db db' unique parsed h =
    let (s, _, h1) = >>=-eq-ok (scope_of st organisation project) _ h in
    let (i, known, h2) = >>=-eq-ok (some_or feature_flag_not_found (st.parse_uuid flag)) _ h1 in
    let same : i ≡ id = ok-inj (sym known ∙ ap (some_or feature_flag_not_found) parsed) in
    let (row, got, h3) =
      >>=-eq-ok (sole feature_flag_not_found (filter (is_flag s.0 s.1 i) db.core.flags)) _ h2 in
    let rows = sole-eq_ok feature_flag_not_found (filter (is_flag s.0 s.1 i) db.core.flags) got in
    let (is, _) = filter-head (is_flag s.0 s.1 i) db.core.flags row [] rows in
    let row_id : row.id ≡ id = ground (arith, eq_iff row.id i) in
    elim (Bool-cases (same_bool row.client_visible false)) [
      | inl before ↦
          let some_row : any (λ r. r.id == id) db.core.flags ≡ true =
            any-map (is_flag s.0 s.1 i) (λ r. r.id == id) db.core.flags
              (λ r k. ground (arith, eq_iff r.id i, eq_iff r.id id))
              (filter-head (is_flag s.0 s.1 i) db.core.flags row [] rows).1 in
          subst
            (λ (x : Bool × SdkDatabase).
              All (λ r. r.id == id ≡ true → not r.client_visible ≡ true) x.1.core.flags)
            (ok-inj (rw (before) at h3))
            (sole_row (is_flag s.0 s.1 i) (λ r. r.id == id) (λ r. not r.client_visible)
              db.core.flags row (omega (arith, unique id some_row)) rows
              ((eq_iff row.id id).1 row_id) (ground arith))
      | inr other ↦
          subst
            (λ (x : Bool × SdkDatabase).
              All (λ r. r.id == id ≡ true → not r.client_visible ≡ true) x.1.core.flags)
            (ok-inj (rw (other) at h3))
            (update_where-All (λ (r : FlagRow). r.id == id ≡ true → not r.client_visible ≡ true)
              (λ r. r.id == row.id) (λ r. record r { client_visible = false }) db.core.flags
              (λ r k l. refl)
              (λ r k l. absurd (
                true-ne-false
                  (sym ((eq_iff r.id row.id).1 ((eq_iff r.id id).0 l ∙ sym row_id)) ∙ k))))
    ]

-- After `SetClientVisible` has hidden a flag, no configuration that a client's key gets has a flag
-- of that identifier; the identifiers of flags are unique before.
pub configuration_for_key-set_client_visible :
    (pf : Platform) (st : Store) (sorting : Sorting) (organisation project flag id : String)
    (shown : Bool) (db db' : SdkDatabase) (raw : String) (c : Credential) (conf : Configuration)
    → HasUniqueFlags db.core
    → st.parse_uuid flag ≡ some id
    → set_client_visible st organisation project flag false db ≡ ok (shown, db')
    → authenticate_key pf (sdk_reader st sorting db') raw ≡ ok c
    → c.kind ≡ kind_client
    → configuration_for_key pf (sdk_reader st sorting db') raw ≡ ok conf
    → All (λ f. f.id ≢ id) conf.flags
configuration_for_key-set_client_visible pf st sorting organisation project flag id shown db db' raw
      c conf unique parsed hidden authentic client h =
    let rows =
      set_client_visible_hides st organisation project flag id shown db db' unique parsed hidden in
    All-map conf.flags
      (λ f served same.
        let (row, mem, row_id, _, _, _, _, visible) = served in
        let hides =
          All-mem (λ (r : FlagRow). r.id == id ≡ true → not r.client_visible ≡ true) row
            db'.core.flags rows mem ((eq_iff row.id id).1 (row_id ∙ same)) in
        true-ne-false (sym hides ∙ ap not (visible client)))
      (configuration_for_key-IsServed pf st sorting db' raw c conf authentic h)
