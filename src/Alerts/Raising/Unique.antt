-- ===== src/Alerts/Raising/Unique.antt =====
-- `apply_result` and the number of open alerts of a device and a rule.
use cyclope_central.Base.{
  ℕ, ◌+◌, ◌≤◌, ◌≡◌, refl, ap, ◌∙◌, Bool, true, false, ◌&&◌, none, some, List, [], ◌∷◌, arith, ◌==◌,
  ==_refl, if◌then◌else◌, Bool-cases, inl, inr, Option-cases,
}
use cyclope_central.Session.{Table, get, picks, scalar, write, add, flush, IsClean}
use cyclope_central.Session.Laws.{scalar-holds}
use cyclope_central.Session.Keys.{HasDistinctKeys, write-absent, scalar-present}
use cyclope_central.Models.Device.{Device}
use cyclope_central.Models.Notification.{NotificationRule}
use cyclope_central.Models.Alert.{AlertRule, Alert, AlertEventType}
use cyclope_central.Database
use cyclope_central.Database.{Db}
use cyclope_central.Notifications.Enqueue.{
  enqueue_alert_notifications, enqueue_rules, enqueue_channels, enqueue_delivery, matches,
  enabled_rules,
}
use cyclope_central.Alerts.Evaluation.{RuleResult}
use cyclope_central.Alerts.Raising.{
  is_open, is_open_for, new_alert, raise_alert, repeated_alert, cleared_alert, repeat_alert,
  clear_alert, apply_to, apply_result, insert_alert, add_event, write_alert,
}

abbrev pub one_if : Bool → ℕ
one_if b = if b then 1 else 0

-- The number of open alerts of a device under a rule.
abbrev pub open_count : ℕ → ℕ → Table Alert → ℕ
open_count d r [] = 0
open_count d r (row ∷ t) = one_if (is_open_for d r row.key row.live) + open_count d r t

module _ (d r : ℕ) where
  count-scalar-none :
      (t : Table Alert) → IsClean t → scalar (is_open_for d r) t ≡ none → open_count d r t ≡ 0
  unfolding scalar
  count-scalar-none [] c h = refl
  count-scalar-none (row ∷ t) c h = elim (Bool-cases (is_open_for d r row.key row.live)) [
    | inl b ↦ cc (rw (c.0, b) at h)
    | inr b ↦ rw b (omega (arith, count-scalar-none t c.1 (rw (c.0, b) at h)))
  ]

  count-flush-add :
      (k : ℕ) (a : Alert) (t : Table Alert)
      → open_count d r (flush (add k a t)) ≡ open_count d r t + one_if (is_open_for d r k a)
  unfolding flush add
  count-flush-add k a [] = omega arith
  count-flush-add k a (row ∷ t) = omega (arith, count-flush-add k a t)

  -- Writing over the alert that a query found exchanges what it counts for.
  count-write :
      (p : ℕ → Alert → Bool) (k : ℕ) (a b : Alert) (t : Table Alert)
      → HasDistinctKeys t
      → scalar p t ≡ some (k, a)
      → open_count d r (write k b t) + one_if (is_open_for d r k a)
        ≡ open_count d r t + one_if (is_open_for d r k b)
  unfolding scalar write
  count-write p k a b [] h e = cc
  count-write p k a b (row ∷ t) h e = elim (Bool-cases (picks p row)) [
    | inr n ↦
        (let s = rw n at e in
          let f : (row.key == k) ≡ false = scalar-present p row.key k a t h.0 s in
          rw f (omega (arith, count-write p k a b t h.1 s)))
    | inl y ↦
        (let s = rw y at e in
          let f : row.key ≡ k = ground arith in
          let g : row.live ≡ a = ground arith in
          rw (f, g, ==_refl, write-absent k b t (rw f at h.0)) (omega arith))
  ]

module _ (now alert_id : ℕ) (alert : Alert) where
  alerts-enqueue_channels :
      (l : List ℕ) (db : Db) → (enqueue_channels now alert_id alert l db).alerts ≡ db.alerts
  unfolding enqueue_channels enqueue_delivery
  alerts-enqueue_channels [] db = refl
  alerts-enqueue_channels (c ∷ l) db =
      alerts-enqueue_channels l (enqueue_delivery now alert_id alert c db)

  alerts-enqueue_rules :
      (alert_rule : AlertRule) (l : List (ℕ × NotificationRule)) (db : Db)
      → (enqueue_rules now alert_id alert alert_rule l db).alerts ≡ db.alerts
  unfolding enqueue_rules
  alerts-enqueue_rules alert_rule [] db = refl
  alerts-enqueue_rules alert_rule ((k, rule) ∷ l) db =
      elim (Bool-cases (matches alert alert_rule rule)) [
        | inl m ↦
            rw (enqueue_rules, m)
              (alerts-enqueue_rules alert_rule l
                  (enqueue_channels now alert_id alert rule.channel_ids db)
                ∙ alerts-enqueue_channels rule.channel_ids db)
        | inr m ↦ rw (enqueue_rules, m) (alerts-enqueue_rules alert_rule l db)
      ]

  alerts-enqueue :
      (db : Db) → (enqueue_alert_notifications now alert_id alert db).alerts ≡ db.alerts
  unfolding enqueue_alert_notifications
  alerts-enqueue db = elim (Option-cases (get alert.rule_id db.alert_rules)) [
    | inl e ↦ rw (enqueue_alert_notifications, e) refl
    | inr (alert_rule, e) ↦
        rw (enqueue_alert_notifications, e)
          (alerts-enqueue_rules alert_rule (enabled_rules alert db) db)
  ]

module _ (d r now device_id : ℕ) (device : Device) (rule_id : ℕ) (rule : AlertRule)
    (result : RuleResult) where
  -- whether the alerts that are counted are those of this device and this rule
  abbrev is_same : Bool
  is_same = (d == device_id) && (r == rule_id)

  is_open_for-same :
      (k : ℕ) (a : Alert) → is_open_for device_id rule_id k a ≡ true → is_open_for d r k a ≡ is_same
  unfolding is_open_for
  is_open_for-same k a h = ground arith

  new_alert-is_open_for :
      (k : ℕ) → is_open_for d r k (new_alert now device_id device rule_id rule result) ≡ is_same
  unfolding is_open_for is_open new_alert
  new_alert-is_open_for k = ground arith

  count-raise :
      (db : Db)
      → open_count d r (raise_alert now device_id device rule_id rule result db).alerts
        ≡ open_count d r db.alerts + one_if is_same
  unfolding raise_alert new_alert insert_alert add_event Database.flush is_open_for is_open
  count-raise db =
      (let alert = new_alert now device_id device rule_id rule result in
        let inserted =
          add_event db.next_id alert AlertEventType.created result.message result.metadata
            (insert_alert alert db) in
        ap (open_count d r) (alerts-enqueue now db.next_id alert inserted)
        ∙ count-flush-add d r db.next_id alert db.alerts
        ∙ ap (λ b. open_count d r db.alerts + one_if b) (new_alert-is_open_for db.next_id))

  count-repeat :
      (k : ℕ) (a : Alert) (db : Db)
      → HasDistinctKeys db.alerts
      → scalar (is_open_for device_id rule_id) db.alerts ≡ some (k, a)
      → open_count d r (repeat_alert now k a result db).alerts ≡ open_count d r db.alerts
  unfolding repeat_alert repeated_alert write_alert add_event is_open_for
  count-repeat k a db h e = omega (
    arith,
    count-write d r (is_open_for device_id rule_id) k a (repeated_alert now result a) db.alerts h e,
  )

  count-clear :
      (k : ℕ) (a : Alert) (db : Db)
      → IsClean db.alerts
      → HasDistinctKeys db.alerts
      → scalar (is_open_for device_id rule_id) db.alerts ≡ some (k, a)
      → open_count d r (clear_alert now k a result db).alerts + one_if is_same
        ≡ open_count d r db.alerts
  unfolding clear_alert cleared_alert write_alert add_event is_open_for is_open
  count-clear k a db c h e =
      (let s =
          is_open_for-same k a (scalar-holds (is_open_for device_id rule_id) db.alerts k a c e) in
        let w =
          count-write d r (is_open_for device_id rule_id) k a (cleared_alert now a) db.alerts h e in
        ground (arith, s, w))

-- An evaluation leaves exactly one open alert for its device and its rule if the condition holds and
-- none if it does not, and changes the number of open alerts of no other device or rule, provided
-- that nothing is pending on the alerts, that their keys are distinct and that the device has at most
-- one open alert under the rule before.
pub open_count-apply_result :
    (d r now device_id : ℕ) (device : Device) (rule_id : ℕ) (rule : AlertRule) (result : RuleResult)
    (db : Db)
    → IsClean db.alerts
    → HasDistinctKeys db.alerts
    → open_count device_id rule_id db.alerts ≤ 1
    → open_count d r (apply_result now device_id device rule_id rule result db).alerts ≡ (
        if (d == device_id) && (r == rule_id)
        then one_if result.active
        else open_count d r db.alerts)
unfolding apply_result apply_to
open_count-apply_result d r now device_id device rule_id rule result db c k u =
    elim (Option-cases (scalar (is_open_for device_id rule_id) db.alerts)) [
      | inl e ↦
          (let z = count-scalar-none device_id rule_id db.alerts c e in
            rw (apply_to, e)
              (ground (arith, z, count-raise d r now device_id device rule_id rule result db)))
      | inr ((alert_id, alert), e) ↦
          (let f =
              count-repeat d r now device_id device rule_id rule result alert_id alert db k e in
            let g =
              count-clear d r now device_id device rule_id rule result alert_id alert db c k e in
            let g' =
              count-clear device_id rule_id now device_id device rule_id rule result alert_id alert
                db c k e in
            rw (apply_to, e) (ground (arith, f, g, g')))
    ]
