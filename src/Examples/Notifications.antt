-- ===== src/Examples/Notifications.antt =====
-- The theorems on notifications at concrete inputs.
use cyclope_central.Base.{
  ℕ, ◌≤◌, ◌≡◌, refl, String, Bool, true, false, ◌||◌, Option, none, some, List, [], ◌∷◌, All, arith,
  str_eq, ◌==◌, if◌then◌else◌,
}
use cyclope_central.Session.Rows.{AllRows}
use cyclope_central.Models.Alert.{Alert}
use cyclope_central.Models.Notification.{
  email, NotificationChannel, NotificationRule, NotificationDelivery, pending,
}
use cyclope_central.Database.{Db, empty}
use cyclope_central.Notifications.Channels.{ConfigValue, RequestConfig, validate_channel_config}
use cyclope_central.Notifications.Channels.Valid.{IsUsableConfig, validate_channel_config-IsUsable}
use cyclope_central.Notifications.Enqueue.{enqueue_alert_notifications}
use cyclope_central.Notifications.Enqueue.Usable.{IsDeliverable, enqueue-IsDeliverable}
use cyclope_central.Session.{get}
use cyclope_central.Notifications.Delivery.{process_delivery, SendError, url_error, is_pending}
use cyclope_central.Notifications.Delivery.Retries.{runs, runs_settle}
use cyclope_central.Notifications.Delivery.Outcomes.{Run, process_delivery-Run}
use cyclope_central.Notifications.Api.{RuleRequest, create_rule}
use cyclope_central.Notifications.Api.Filters.{IsOwnedChannel, create_rule-IsOwned}
use cyclope_central.Examples.{saved, value_of, boss, offline_alert, office_db}

abbrev to_mail : NotificationRule
to_mail = record {
  organization_id = 1;
  name = "Everything";
  enabled = true;
  severity_filter = [];
  alert_rule_type_filter = [];
  channel_ids = 10 ∷ 99 ∷ [];
}

abbrev ruled_db : Db
ruled_db = record office_db { notification_rules = saved 12 to_mail }

-- one channel that is there and one that is not
enqueue-IsDeliverable_example :
    AllRows
      (IsDeliverable ruled_db.channels)
      (enqueue_alert_notifications 50 7 offline_alert ruled_db).deliveries
enqueue-IsDeliverable_example = enqueue-IsDeliverable 50 7 offline_alert ruled_db tt

abbrev delivery : NotificationDelivery
delivery = record {
  organization_id = 1;
  alert_id = 7;
  channel_id = 10;
  status = pending;
  attempts = 0;
  last_error = none;
  sent_at = none;
  created_at = 50;
}

abbrev unreachable : NotificationChannel → Alert → Option SendError
unreachable channel alert = some url_error

abbrev failures : List (Option (Option SendError))
failures = some (some url_error) ∷ some (some url_error) ∷ some (some url_error) ∷ []

runs_settle_example :
    (is_pending (runs unreachable 3 60 failures delivery).status ≡ false)
    × ((runs unreachable 3 60 failures delivery).attempts ≤ 3)
runs_settle_example =
    runs_settle unreachable 3 60 failures delivery (omega arith) (omega arith) (omega arith)

abbrev waiting_db : Db
waiting_db = record office_db { deliveries = saved 13 delivery }

process_delivery-Run_example :
    (d' : NotificationDelivery) × Run unreachable 3 60 waiting_db delivery d'
    × ((k : ℕ)
        → get k (process_delivery unreachable 3 60 13 delivery waiting_db).deliveries
          ≡ (if 13 == k then some d' else get k waiting_db.deliveries))
unfolding get
process_delivery-Run_example = process_delivery-Run unreachable 3 60 13 delivery waiting_db refl

abbrev rule_request : RuleRequest
rule_request = record {
  organization_id = 1;
  name = "Everything";
  enabled = true;
  severity_filter = "critical" ∷ [];
  alert_rule_type_filter = [];
  channel_ids = 10 ∷ [];
}

abbrev ruled : (ℕ × NotificationRule) × Db
ruled = value_of ((0, to_mail), empty) (create_rule rule_request boss office_db)

create_rule-IsOwned_example :
    (ruled.0.1.organization_id ≡ 1) × All (IsOwnedChannel office_db 1) ruled.0.1.channel_ids
unfolding create_rule cyclope_central.Auth.Roles.require_permission cyclope_central.Base.is_in
    cyclope_central.Notifications.Api.require_org cyclope_central.Session.get
    cyclope_central.Notifications.Api.validate_rule_filters
    cyclope_central.Notifications.Api.validate_channels
    cyclope_central.Notifications.Api.read_severities
create_rule-IsOwned_example =
    create_rule-IsOwned rule_request boss office_db ruled.0.0 ruled.0.1 ruled.1 refl

abbrev mail_config : RequestConfig
mail_config = record {
  recipients = some (ConfigValue.items (some "ops@office.example" ∷ []));
  url = none;
  headers = none;
}

validate_channel_config-IsUsable_example :
    ((str_eq "email" "email" || str_eq "email" "webhook") ≡ true)
    × IsUsableConfig (email ("ops@office.example" ∷ []))
unfolding validate_channel_config
validate_channel_config-IsUsable_example =
    validate_channel_config-IsUsable "email" mail_config (email ("ops@office.example" ∷ [])) refl
