-- ===== src/Notifications/Enqueue/Usable.antt =====
-- Which deliveries are enqueued as pending: `enqueue_alert_notifications` of backend/app/core/notifications.py.
use cyclope_central.Base.{
  ℕ, ◌≡◌, refl, true, not, ◌||◌, List, [], ◌∷◌, Option-cases, Bool-cases, inl, inr,
}
use cyclope_central.Session.{Table, get}
use cyclope_central.Session.Rows.{AllRows, AllRows-add}
use cyclope_central.Models.Alert.{Alert, AlertRule}
use cyclope_central.Models.Notification.{
  NotificationChannel, NotificationRule, NotificationDelivery,
}
use cyclope_central.Database.{Db, add_audit}
use cyclope_central.Notifications.Delivery.{is_pending}
use cyclope_central.Notifications.Enqueue.{
  usable, new_delivery, insert_delivery, enqueue_delivery, enqueue_channels, matches, enqueue_rules,
  enabled_rules, enqueue_alert_notifications,
}

-- A delivery that is pending goes to a channel of its organization that is enabled.
abbrev pub IsDeliverable : Table NotificationChannel → NotificationDelivery → Type 0
IsDeliverable channels d =
    (not (is_pending d.status) || usable d.organization_id (get d.channel_id channels)) ≡ true

new_delivery-IsDeliverable :
    (now alert_id : ℕ) (alert : Alert) (channel_id : ℕ) (channels : Table NotificationChannel)
    → IsDeliverable channels (
        new_delivery now alert_id alert channel_id
          (usable alert.organization_id (get channel_id channels)))
unfolding new_delivery is_pending
new_delivery-IsDeliverable now alert_id alert channel_id channels =
    elim (Bool-cases (usable alert.organization_id (get channel_id channels))) [
      | inl e ↦ rw e refl
      | inr e ↦ rw e refl
    ]

-- The deliveries are in order for channels that have not changed since.
abbrev IsInOrder : Table NotificationChannel → Db → Type 0
IsInOrder channels db = (db.channels ≡ channels) × AllRows (IsDeliverable channels) db.deliveries

module _ (channels : Table NotificationChannel) (now alert_id : ℕ) (alert : Alert) where
  IsInOrder-enqueue_delivery :
      (c : ℕ) (db : Db)
      → IsInOrder channels db
      → IsInOrder channels (enqueue_delivery now alert_id alert c db)
  unfolding enqueue_delivery insert_delivery add_audit
  IsInOrder-enqueue_delivery c db h = (
    h.0,
    rw (h.0) (
        AllRows-add (IsDeliverable channels) db.next_id
          (new_delivery now alert_id alert c (usable alert.organization_id (get c channels)))
          db.deliveries (new_delivery-IsDeliverable now alert_id alert c channels) h.1),
  )

  IsInOrder-enqueue_channels :
      (l : List ℕ) (db : Db)
      → IsInOrder channels db
      → IsInOrder channels (enqueue_channels now alert_id alert l db)
  unfolding enqueue_channels
  IsInOrder-enqueue_channels [] db h = h
  IsInOrder-enqueue_channels (c ∷ l) db h =
      IsInOrder-enqueue_channels l (enqueue_delivery now alert_id alert c db)
        (IsInOrder-enqueue_delivery c db h)

  IsInOrder-enqueue_rules :
      (alert_rule : AlertRule) (l : List (ℕ × NotificationRule)) (db : Db)
      → IsInOrder channels db
      → IsInOrder channels (enqueue_rules now alert_id alert alert_rule l db)
  unfolding enqueue_rules
  IsInOrder-enqueue_rules alert_rule [] db h = h
  IsInOrder-enqueue_rules alert_rule ((k, rule) ∷ l) db h =
      elim (Bool-cases (matches alert alert_rule rule)) [
        | inl m ↦
            rw (enqueue_rules, m)
              (IsInOrder-enqueue_rules alert_rule l
                (enqueue_channels now alert_id alert rule.channel_ids db)
                (IsInOrder-enqueue_channels rule.channel_ids db h))
        | inr m ↦ rw (enqueue_rules, m) (IsInOrder-enqueue_rules alert_rule l db h)
      ]

-- Enqueueing an alert's notifications keeps every pending delivery bound for an enabled channel of its
-- own organization, where that holds before.
pub enqueue-IsDeliverable :
    (now alert_id : ℕ) (alert : Alert) (db : Db)
    → AllRows (IsDeliverable db.channels) db.deliveries
    → AllRows
        (IsDeliverable db.channels)
        (enqueue_alert_notifications now alert_id alert db).deliveries
unfolding enqueue_alert_notifications
enqueue-IsDeliverable now alert_id alert db h =
    elim (Option-cases (get alert.rule_id db.alert_rules)) [
      | inl e ↦ rw (enqueue_alert_notifications, e) h
      | inr (alert_rule, e) ↦
          rw (enqueue_alert_notifications, e)
            ((IsInOrder-enqueue_rules db.channels now alert_id alert alert_rule
              (enabled_rules alert db) db (refl, h)).1)
    ]
