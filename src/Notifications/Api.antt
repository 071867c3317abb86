-- ===== src/Notifications/Api.antt =====
-- The handlers of backend/app/api/notifications.py.
pub mod Filters
pub mod Listings
use cyclope_central.Base.{
  ℕ, ◌+◌, String, Bool, true, false, not, ◌&&◌, Option, none, some, List, [], ◌∷◌, ◌==◌, or_else,
  str_eq, map, is_some, if◌then◌else◌,
}
use cyclope_central.Http.{
  Error, http, value_error, Result, ok, err, ◌>>=◌, ◌>>◌, raise_if, bad_request, forbidden,
  not_found,
}
use cyclope_central.Session.{get, select, add, write}
use cyclope_central.Session.Owned.{owned}
use cyclope_central.Models.Tenant.{User}
use cyclope_central.Models.Alert.{Severity, info, warning, critical}
use cyclope_central.Models.Notification.{
  ChannelConfig, email, webhook, NotificationChannel, NotificationRule, NotificationDelivery,
}
use cyclope_central.Database.{Db, flush}
use cyclope_central.Auth.Roles.{require_permission}
use cyclope_central.Notifications.Channels.{
  RequestConfig, validate_channel_config, mask_channel_config,
}

pub record ChannelResponse : Type 0 where
  pub id : ℕ
  pub organization_id : ℕ
  pub name : String
  pub enabled : Bool
  pub config : ChannelConfig

unfoldable pub channel_response : ℕ → NotificationChannel → ChannelResponse
unfolding mask_channel_config
channel_response k channel = record {
  id = k;
  organization_id = channel.organization_id;
  name = channel.name;
  enabled = channel.enabled;
  config = mask_channel_config channel.config;
}

-- the column `channel_type`
unfoldable pub channel_type : ChannelConfig → String
channel_type (email recipients) = "email"
channel_type (webhook url headers) = "webhook"

unfoldable pub require_org : ℕ → Db → Result (Unit {0})
require_org organization_id db = elim (get organization_id db.organizations) [
  | none ↦ err (not_found "Organization not found")
  | some organization ↦ ok tt
]

unfoldable pub is_owned_channel : ℕ → Option NotificationChannel → Bool
is_owned_channel organization_id none = false
is_owned_channel organization_id (some channel) = channel.organization_id == organization_id

-- the severities that there are, `ALERT_SEVERITIES`, by their texts
unfoldable pub read_severity : String → Option Severity
read_severity text =
    if str_eq text "info"
    then some info
    else if str_eq text "warning"
    then some warning
    else if str_eq text "critical"
    then some critical
    else none

abbrev pub severity_text : Severity → String
severity_text info = "info"
severity_text warning = "warning"
severity_text critical = "critical"

-- `invalid` is empty: each of the texts is a severity
unfoldable pub read_severities : List String → Result (List Severity)
unfolding read_severity
read_severities [] = ok []
read_severities (text ∷ rest) = elim (read_severity text) [
  | none ↦ err (bad_request "Invalid severity filter")
  | some severity ↦ read_severities rest >>= λ later. ok (severity ∷ later)
]

-- the loop of `_validate_rule_filters`
unfoldable pub validate_channels : List ℕ → Db → ℕ → Result (List ℕ)
unfolding is_owned_channel
validate_channels [] db organization_id = ok []
validate_channels (channel_id ∷ rest) db organization_id = do
  raise_if (not (is_owned_channel organization_id (get channel_id db.channels)))
      (bad_request "Invalid notification channel")
  later ← validate_channels rest db organization_id
  ok (channel_id ∷ later)

-- `_validate_rule_filters`: the severities that the texts name, and the channels
unfoldable pub validate_rule_filters :
    List String → List ℕ → Db → ℕ → Result (List Severity × List ℕ)
unfolding read_severities validate_channels
validate_rule_filters severities channel_ids db organization_id = do
  severity_filter ← read_severities severities
  validated ← validate_channels channel_ids db organization_id
  ok (severity_filter, validated)

unfoldable pub as_bad_request {ℓ} : {A : Type ℓ} → Result A → Result A
as_bad_request (ok a) = ok a
as_bad_request (err (http code detail)) = err (http code detail)
as_bad_request (err (value_error detail)) = err (bad_request detail)

pub record ChannelRequest : Type 0 where
  pub organization_id : ℕ
  pub name : String
  pub kind : String
  pub enabled : Bool
  pub config : RequestConfig

pub record ChannelPatch : Type 0 where
  pub name : Option String
  pub enabled : Option Bool
  pub config : Option RequestConfig

unfoldable pub create_channel : ChannelRequest → User → Db → Result (ChannelResponse × Db)
unfolding as_bad_request channel_response flush
create_channel payload current db = do
  require_permission "notifications:manage" current
  raise_if (not (payload.organization_id == current.organization_id))
      (forbidden "Invalid organization scope")
  require_org current.organization_id db
  config ← as_bad_request (validate_channel_config payload.kind payload.config)
  let channel : NotificationChannel = record {
    organization_id = payload.organization_id;
    name = payload.name;
    enabled = payload.enabled;
    config = config;
  }
  let added = record db { next_id = db.next_id + 1; channels = add db.next_id channel db.channels }
  ok (channel_response db.next_id channel, flush added)

unfoldable pub owned_channel : ℕ → ℕ → Db → Result NotificationChannel
unfolding owned
owned_channel channel_id organization_id db =
    owned (λ row. row.organization_id) "Notification channel not found" organization_id
      (get channel_id db.channels)

unfoldable pub patched_config : Option RequestConfig → NotificationChannel → Result ChannelConfig
unfolding as_bad_request channel_type
patched_config none channel = ok channel.config
patched_config (some config) channel =
    as_bad_request (validate_channel_config (channel_type channel.config) config)

unfoldable pub patch_channel : ℕ → ChannelPatch → User → Db → Result (ChannelResponse × Db)
unfolding patched_config channel_response flush
patch_channel channel_id payload current db = do
  require_permission "notifications:manage" current
  channel ← owned_channel channel_id current.organization_id db
  config ← patched_config payload.config channel
  let channel' = record channel {
    name = or_else payload.name channel.name;
    enabled = or_else payload.enabled channel.enabled;
    config = config;
  }
  ok (
    channel_response channel_id channel',
    flush (record db { channels = write channel_id channel' db.channels }),
  )

pub record RuleRequest : Type 0 where
  pub organization_id : ℕ
  pub name : String
  pub enabled : Bool
  pub severity_filter : List String
  pub alert_rule_type_filter : List String
  pub channel_ids : List ℕ

pub record RulePatch : Type 0 where
  pub name : Option String
  pub enabled : Option Bool
  pub severity_filter : Option (List String)
  pub alert_rule_type_filter : Option (List String)
  pub channel_ids : Option (List ℕ)

unfoldable pub create_rule : RuleRequest → User → Db → Result ((ℕ × NotificationRule) × Db)
unfolding flush
create_rule payload current db = do
  require_permission "notifications:manage" current
  raise_if (not (payload.organization_id == current.organization_id))
      (forbidden "Invalid organization scope")
  require_org current.organization_id db
  (severity_filter, channel_ids) ←
      validate_rule_filters payload.severity_filter payload.channel_ids db payload.organization_id
  let rule : NotificationRule = record {
    organization_id = payload.organization_id;
    name = payload.name;
    enabled = payload.enabled;
    severity_filter = severity_filter;
    alert_rule_type_filter = payload.alert_rule_type_filter;
    channel_ids = channel_ids;
  }
  let added = record db {
    next_id = db.next_id + 1;
    notification_rules = add db.next_id rule db.notification_rules;
  }
  ok ((db.next_id, rule), flush added)

unfoldable pub owned_rule : ℕ → ℕ → Db → Result NotificationRule
unfolding owned
owned_rule rule_id organization_id db =
    owned (λ row. row.organization_id) "Notification rule not found" organization_id
      (get rule_id db.notification_rules)

unfoldable pub patch_rule : ℕ → RulePatch → User → Db → Result ((ℕ × NotificationRule) × Db)
unfolding flush
patch_rule rule_id payload current db = do
  require_permission "notifications:manage" current
  rule ← owned_rule rule_id current.organization_id db
  (severity_filter, channel_ids) ←
      validate_rule_filters
        (or_else payload.severity_filter (map severity_text rule.severity_filter))
        (or_else payload.channel_ids rule.channel_ids) db rule.organization_id
  let rule' = record rule {
    name = or_else payload.name rule.name;
    enabled = or_else payload.enabled rule.enabled;
    severity_filter =
        if is_some payload.severity_filter then severity_filter else rule.severity_filter;
    alert_rule_type_filter = or_else payload.alert_rule_type_filter rule.alert_rule_type_filter;
    channel_ids = channel_ids;
  }
  ok (
    (rule_id, rule'),
    flush (record db { notification_rules = write rule_id rule' db.notification_rules }),
  )
