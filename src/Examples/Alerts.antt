-- ===== src/Examples/Alerts.antt =====
-- The theorems on alerts at concrete inputs.
use cyclope_central.Base.{
  ℕ, ◌≡◌, refl, Bool, true, false, All, arith, ltb, String, some, is_some, is_in,
}
use cyclope_central.Models.Alert.{Float, AlertStatus, AlertRule, Metadata, plain}
use cyclope_central.Session.{get, peek}
use cyclope_central.Database.{Db}
use cyclope_central.Auth.Roles.{require_permission}
use cyclope_central.Alerts.Rules.{rule_at, ensure_default_alert_rules}
use cyclope_central.Alerts.Rules.Complete.{default_rules_are_found}
use cyclope_central.Alerts.Evaluation.{RuleResult, MemoryReport}
use cyclope_central.Alerts.Raising.{apply_result, evaluations}
use cyclope_central.Alerts.Raising.Unique.{open_count, open_count-apply_result}
use cyclope_central.Alerts.Api.{
  AlertResponse, alert_response, owned_alert, acknowledge_alert, resolve_alert,
}
use cyclope_central.Alerts.Api.Final.{resolve_is_final}
use cyclope_central.Examples.{
  laptop, offline_rule, offline_alert, office_db, test_settings, value_of, boss,
}

-- the device is back
abbrev online_again : RuleResult
online_again = record {
  active = false;
  title = "Device offline";
  message = plain "";
  metadata = Metadata.empty;
}

open_count-apply_result_example :
    open_count 3 6 (apply_result 30 3 laptop 6 offline_rule online_again office_db).alerts ≡ 0
unfolding cyclope_central.Alerts.Raising.is_open_for
open_count-apply_result_example =
    open_count-apply_result 3 6 30 3 laptop 6 offline_rule online_again office_db (refl, tt)
      (tt, tt) (omega arith)

-- whole percents, and the order of their numbers
abbrev percent_of : ℕ → ℕ → Float
percent_of used total = used

abbrev below : Float → Float → Bool
below a b = ltb a b

abbrev half_used : MemoryReport
half_used = record { memory_total_bytes = some 100; memory_used_bytes = some 50 }

default_rules_are_found_example :
    All
      (λ (e : String × (AlertRule → RuleResult)).
        is_some (rule_at e.0 (ensure_default_alert_rules test_settings 1 office_db).0) ≡ true)
      (evaluations test_settings percent_of
        (λ f. f)
        below
        (λ f. false)
        30
        3
        laptop
        half_used
        (ensure_default_alert_rules test_settings 1 office_db).1)
default_rules_are_found_example =
    default_rules_are_found test_settings percent_of (λ f. f) below (λ f. false) 30 3 laptop
      half_used office_db

abbrev no_response : AlertResponse × Db
no_response = (alert_response false office_db (7, offline_alert), office_db)

abbrev resolved_once : AlertResponse × Db
resolved_once = value_of no_response (resolve_alert 30 7 boss office_db)

resolve_is_final_example :
    (get 7 resolved_once.1.alerts ≡ some resolved_once.0.alert)
    × (peek 7 resolved_once.1.alerts ≡ some resolved_once.0.alert)
    × (resolved_once.0.alert.status ≡ AlertStatus.resolved)
    × ((resolved_once.0.alert ≡ resolved_once.0.alert) × (resolved_once.1 ≡ resolved_once.1))
    × ((resolved_once.0.alert ≡ resolved_once.0.alert) × (resolved_once.1 ≡ resolved_once.1))
unfolding resolve_alert acknowledge_alert require_permission is_in owned_alert get
    cyclope_central.Session.flush cyclope_central.Session.write
resolve_is_final_example =
    resolve_is_final 30 40 7 boss boss office_db resolved_once.0 resolved_once.1 resolved_once.0
      resolved_once.0 resolved_once.1 resolved_once.1 (refl, tt) refl refl refl
