-- ===== src/Notifications/Delivery.antt =====
-- `process_delivery` and `process_pending_deliveries` of backend/app/core/notifications.py. Sending is
-- the work of `smtplib` and `urllib`: what becomes of an attempt is the parameter `send`.
pub mod Retries
pub mod Outcomes
use cyclope_central.Base.{
  ℕ, ◌+◌, String, Bool, true, false, not, ◌&&◌, Option, none, some, List, [], ◌∷◌, ◌++◌, leb, take,
  if◌then◌else◌,
}
use cyclope_central.Base.Int.{pos}
use cyclope_central.Base.Json.{Text, Dict, int, codes, decimal}
use cyclope_central.Session.{get, select, write}
use cyclope_central.Models.Alert.{Alert}
use cyclope_central.Models.Notification.{
  NotificationChannel, NotificationDelivery, DeliveryStatus, pending, sent, failed, skipped,
}
use cyclope_central.Database.{Db, flush, add_audit}

-- The exceptions that `_safe_error` tells apart.
pub data SendError : Type 0 where
  http_error : ℕ → SendError
  url_error : SendError
  other : Text → SendError

unfoldable pub safe_error : SendError → Text
safe_error (http_error code) = codes "HTTP error " ++ decimal code
safe_error url_error = codes "Webhook connection failed"
safe_error (other printed) = take 512 printed

unfoldable pub is_pending : DeliveryStatus → Bool
is_pending pending = true
is_pending _ = false

unfoldable pub skipped_delivery : NotificationDelivery → NotificationDelivery
skipped_delivery d = record d {
  status = skipped;
  last_error = some (codes "Notification channel or alert unavailable.");
}

unfoldable pub sent_delivery : ℕ → NotificationDelivery → NotificationDelivery
sent_delivery now d = record d {
  status = sent;
  attempts = d.attempts + 1;
  last_error = none;
  sent_at = some now;
}

-- `retry_limit` is `settings.notification_retry_limit`
unfoldable pub failed_delivery : ℕ → SendError → NotificationDelivery → NotificationDelivery
unfolding safe_error
failed_delivery retry_limit e d = record d {
  status = if leb retry_limit (d.attempts + 1) then failed else pending;
  attempts = d.attempts + 1;
  last_error = some (safe_error e);
}

audit_delivery : ℕ → NotificationDelivery → String → Dict → Db → Db
audit_delivery delivery_id d action metadata db =
    add_audit d.organization_id none action "notification_delivery" (some delivery_id) metadata db

unfoldable pub write_delivery : ℕ → NotificationDelivery → Db → Db
write_delivery delivery_id d db = record db { deliveries = write delivery_id d db.deliveries }

-- `order_by(NotificationDelivery.created_at)`
unfoldable pub insert_by_age :
    ℕ × NotificationDelivery → List (ℕ × NotificationDelivery) → List (ℕ × NotificationDelivery)
insert_by_age e [] = e ∷ []
insert_by_age e (f ∷ rest) =
    let later = insert_by_age e rest in
    if leb e.1.created_at f.1.created_at then e ∷ f ∷ rest else f ∷ later

unfoldable pub order_by_age : List (ℕ × NotificationDelivery) → List (ℕ × NotificationDelivery)
unfolding insert_by_age
order_by_age [] = []
order_by_age (e ∷ rest) = insert_by_age e (order_by_age rest)

module _ (send : NotificationChannel → Alert → Option SendError) (retry_limit : ℕ) where
  -- the delivery after an attempt with this outcome
  unfoldable pub attempted : ℕ → Option SendError → NotificationDelivery → NotificationDelivery
  unfolding sent_delivery failed_delivery
  attempted now none d = sent_delivery now d
  attempted now (some e) d = failed_delivery retry_limit e d

  unfoldable pub outcome_action : Option SendError → String
  outcome_action none = "notification.sent"
  outcome_action (some e) = "notification.failed"

  -- the attempt itself, where the channel and the alert are there, and the channel is enabled
  unfoldable pub attempt : Option NotificationChannel → Option Alert → Option (Option SendError)
  attempt none alert = none
  attempt (some channel) none = none
  attempt (some channel) (some alert) = if channel.enabled then some (send channel alert) else none

  unfoldable pub processed :
      ℕ → Option (Option SendError) → NotificationDelivery → NotificationDelivery
  unfolding attempted skipped_delivery
  processed now none d = skipped_delivery d
  processed now (some outcome) d = attempted now outcome d

  audit_processed : ℕ → Option (Option SendError) → NotificationDelivery → Db → Db
  unfolding audit_delivery outcome_action
  audit_processed delivery_id none d db = audit_delivery delivery_id d "notification.skipped" [] db
  audit_processed delivery_id (some outcome) d db =
      audit_delivery delivery_id d (outcome_action outcome)
        (("attempts", int (pos d.attempts)) ∷ []) db

  unfoldable pub process_delivery : ℕ → ℕ → NotificationDelivery → Db → Db
  unfolding is_pending attempt processed audit_processed write_delivery
  process_delivery now delivery_id d db =
      let outcome = attempt (get d.channel_id db.channels) (get d.alert_id db.alerts) in
      let d' = processed now outcome d in
      let db' = audit_processed delivery_id outcome d' (write_delivery delivery_id d' db) in
      if is_pending d.status then db' else db

  unfoldable pub process_all : ℕ → List (ℕ × NotificationDelivery) → Db → Db
  process_all now [] db = db
  process_all now ((delivery_id, d) ∷ rest) db =
      process_all now rest (process_delivery now delivery_id d db)

  unfoldable pub process_pending_deliveries : ℕ → ℕ → Db → Db
  unfolding process_all order_by_age is_pending
  process_pending_deliveries limit now db = flush (
      process_all now
        (take limit (order_by_age (select (λ k d. is_pending d.status) db.deliveries))) db)
