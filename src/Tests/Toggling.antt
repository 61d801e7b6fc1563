-- ===== src/Tests/Toggling.antt =====
-- Enabling the flag of the demo.
use flagstack.Tests.Targets.{database, store}
use flagstack.Targeting.Types.{ConfigRow, Database}
use flagstack.Flagconfig.Enabled.{IsSettled, create_enabled_races, set_enabled-IsSettled}
use flagstack.Flagconfig.{FlagConfig, set_enabled, enabled_row, flag_config_of, create_enabled}
use flagstack.Targeting.Repository.{parse_id, parse_project_scope}
use flagstack.Common.{[], ◌∷◌, ◌≡◌, ok, true, false, refl}

scope-run : parse_project_scope store "o" "p" ≡ ok ("o", "p")
unfolding parse_project_scope flagstack.Common.is_blank
scope-run = refl

environment-run : parse_id store "e" ≡ ok "e"
unfolding parse_id flagstack.Common.is_blank
environment-run = refl

flag-run : parse_id store "flag-1" ≡ ok "flag-1"
unfolding parse_id flagstack.Common.is_blank
flag-run = refl

enable-run :
    set_enabled store (λ d. d) "o" "p" "e" "flag-1" true database
    ≡ ok (
      flag_config_of (enabled_row "o" "p" "e" "flag-1"),
      record database { configs = enabled_row "o" "p" "e" "flag-1" ∷ [] },
    )
unfolding set_enabled parse_project_scope flagstack.Common.is_blank
    flagstack.Flagconfig.validate_targets flagstack.Flagconfig.write_enabled create_enabled
enable-run = refl

set_enabled-IsSettled_example : IsSettled "o" "p" "e" "flag-1" true (
  flag_config_of (enabled_row "o" "p" "e" "flag-1"),
  record database { configs = enabled_row "o" "p" "e" "flag-1" ∷ [] },
)
set_enabled-IsSettled_example =
    set_enabled-IsSettled store "o" "p" "e" "flag-1" "o" "p" "e" "flag-1" true database
      (
        flag_config_of (enabled_row "o" "p" "e" "flag-1"),
        record database { configs = enabled_row "o" "p" "e" "flag-1" ∷ [] },
      )
      scope-run environment-run flag-run enable-run

-- The row that another call has created, disabled.
abbrev other_row : ConfigRow
other_row = record (enabled_row "o" "p" "e" "flag-1") { enabled = false }

create_enabled_races_example :
    (reply : FlagConfig × Database) × (create_enabled "o" "p" "e" "flag-1"
        (record database { configs = other_row ∷ [] })
      ≡ ok reply)
    × IsSettled "o" "p" "e" "flag-1" true reply
create_enabled_races_example =
    create_enabled_races "o" "p" "e" "flag-1" (record database { configs = other_row ∷ [] })
      other_row refl
