-- ===== src/Notifications/Delivery/Outcomes.antt =====
-- What may become of a delivery, as a relation of its own, and that `process_delivery` of
-- backend/app/core/notifications.py implements it.
use cyclope_central.Base.{
  ◌∙◌, ◌==◌, ℕ, ◌+◌, ◌≤◌, ◌<◌, ◌≡◌, refl, ap, true, false, Option, none, some, arith, leb,
  if◌then◌else◌, ◌⊎◌, Bool-cases, Option-cases, inl, inr,
}
use cyclope_central.Base.Json.{codes}
use cyclope_central.Models.Alert.{Alert}
use cyclope_central.Models.Notification.{
  NotificationChannel, NotificationDelivery, DeliveryStatus, pending, sent, failed, skipped,
}
use cyclope_central.Session.{get}
use cyclope_central.Session.Laws.{get-write}
use cyclope_central.Database.{Db, add_audit}
use cyclope_central.Notifications.Delivery.{
  audit_processed, audit_delivery, attempt, write_delivery, process_delivery, SendError, safe_error,
  is_pending, processed, attempted, sent_delivery, failed_delivery, skipped_delivery,
}

module _ (send : NotificationChannel → Alert → Option SendError) (retry_limit now : ℕ) where
  -- The promise: a settled delivery stays; a pending one is skipped, sent, tried again later or given up.
  pub data Run (db : Db) (d : NotificationDelivery) : NotificationDelivery → Type 0 where
    settled : ¬ (d.status ≡ pending) → Run db d d
    without_channel :
        d.status ≡ pending
        → get d.channel_id db.channels ≡ none
        → Run db d (record d {
          status = skipped;
          last_error = some (codes "Notification channel or alert unavailable.");
        })
    without_alert :
        d.status ≡ pending
        → get d.alert_id db.alerts ≡ none
        → Run db d (record d {
          status = skipped;
          last_error = some (codes "Notification channel or alert unavailable.");
        })
    on_disabled_channel :
        (channel : NotificationChannel)
        → d.status ≡ pending
        → get d.channel_id db.channels ≡ some channel
        → channel.enabled ≡ false
        → Run db d (record d {
          status = skipped;
          last_error = some (codes "Notification channel or alert unavailable.");
        })
    delivered :
        (channel : NotificationChannel) (alert : Alert)
        → d.status ≡ pending
        → get d.channel_id db.channels ≡ some channel
        → channel.enabled ≡ true
        → get d.alert_id db.alerts ≡ some alert
        → send channel alert ≡ none
        → Run db d (record d {
          status = sent;
          attempts = d.attempts + 1;
          last_error = none;
          sent_at = some now;
        })
    tried_again :
        (channel : NotificationChannel) (alert : Alert) (e : SendError)
        → d.status ≡ pending
        → get d.channel_id db.channels ≡ some channel
        → channel.enabled ≡ true
        → get d.alert_id db.alerts ≡ some alert
        → send channel alert ≡ some e
        → d.attempts + 1 < retry_limit
        → Run db d (record d {
          status = pending;
          attempts = d.attempts + 1;
          last_error = some (safe_error e);
        })
    given_up :
        (channel : NotificationChannel) (alert : Alert) (e : SendError)
        → d.status ≡ pending
        → get d.channel_id db.channels ≡ some channel
        → channel.enabled ≡ true
        → get d.alert_id db.alerts ≡ some alert
        → send channel alert ≡ some e
        → retry_limit ≤ d.attempts + 1
        → Run db d (record d {
          status = failed;
          attempts = d.attempts + 1;
          last_error = some (safe_error e);
        })

  is_pending_sound : (s : DeliveryStatus) → is_pending s ≡ true → s ≡ pending
  unfolding is_pending
  is_pending_sound pending h = refl
  is_pending_sound sent h = cc
  is_pending_sound failed h = cc
  is_pending_sound skipped h = cc

  not_pending : (s : DeliveryStatus) → is_pending s ≡ false → ¬ (s ≡ pending)
  unfolding is_pending
  not_pending s h e = absurd (cc (rw e at h))

  outcome : Db → NotificationDelivery → Option (Option SendError)
  outcome db d = attempt send retry_limit (get d.channel_id db.channels) (get d.alert_id db.alerts)

  -- an attempt that is made
  attempted-Run :
      (db : Db) (d : NotificationDelivery) (channel : NotificationChannel) (alert : Alert)
      → d.status ≡ pending
      → get d.channel_id db.channels ≡ some channel
      → channel.enabled ≡ true
      → get d.alert_id db.alerts ≡ some alert
      → Run db d (attempted send retry_limit now (send channel alert) d)
  unfolding attempted sent_delivery failed_delivery
  attempted-Run db d channel alert p c b a = elim (Option-cases (send channel alert)) [
    | inl n ↦ rw n (delivered channel alert p c b a n)
    | inr (e, n) ↦ elim (Bool-cases (leb retry_limit (d.attempts + 1))) [
      | inl l ↦ rw (n, l) (given_up channel alert e p c b a n (ground arith))
      | inr l ↦ rw (n, l) (tried_again channel alert e p c b a n (ground arith))
    ]
  ]

  outcome-enabled :
      (db : Db) (d : NotificationDelivery) (channel : NotificationChannel) (alert : Alert)
      → get d.channel_id db.channels ≡ some channel
      → channel.enabled ≡ true
      → get d.alert_id db.alerts ≡ some alert
      → outcome db d ≡ some (send channel alert)
  unfolding outcome attempt
  outcome-enabled db d channel alert c b a =
      rw (c, a) (ap (λ enabled. if enabled then some (send channel alert) else none) b)

  outcome-disabled :
      (db : Db) (d : NotificationDelivery) (channel : NotificationChannel) (alert : Alert)
      → get d.channel_id db.channels ≡ some channel
      → channel.enabled ≡ false
      → get d.alert_id db.alerts ≡ some alert
      → outcome db d ≡ none
  unfolding outcome attempt
  outcome-disabled db d channel alert c b a =
      rw (c, a) (ap (λ enabled. if enabled then some (send channel alert) else none) b)

  outcome-without :
      (db : Db) (d : NotificationDelivery)
      → (get d.channel_id db.channels ≡ none) ⊎ (get d.alert_id db.alerts ≡ none)
      → outcome db d ≡ none
  unfolding outcome attempt
  outcome-without db d (inl c) = rw c refl
  outcome-without db d (inr a) = elim (Option-cases (get d.channel_id db.channels)) [
    | inl c ↦ rw c refl
    | inr (channel, c) ↦ rw (c, a) refl
  ]

  processed-Run :
      (db : Db) (d : NotificationDelivery)
      → d.status ≡ pending
      → Run db d (processed send retry_limit now (outcome db d) d)
  unfolding processed skipped_delivery
  processed-Run db d p = elim (Option-cases (get d.channel_id db.channels)) [
    | inl c ↦ rw (outcome-without db d (inl c)) (without_channel p c)
    | inr (channel, c) ↦ elim (Option-cases (get d.alert_id db.alerts)) [
      | inl a ↦ rw (outcome-without db d (inr a)) (without_alert p a)
      | inr (alert, a) ↦ elim (Bool-cases channel.enabled) [
        | inl b ↦
            rw (outcome-enabled db d channel alert c b a) (attempted-Run db d channel alert p c b a)
        | inr b ↦ rw (outcome-disabled db d channel alert c b a) (on_disabled_channel channel p c b)
      ]
    ]
  ]

  deliveries-audit_processed :
      (delivery_id : ℕ) (o : Option (Option SendError)) (d : NotificationDelivery) (db : Db)
      → (audit_processed send retry_limit delivery_id o d db).deliveries ≡ db.deliveries
  unfolding audit_processed audit_delivery add_audit
  deliveries-audit_processed delivery_id none d db = refl
  deliveries-audit_processed delivery_id (some o) d db = refl

  -- the delivery after a pending one was processed, and the others
  written :
      (delivery_id k : ℕ) (d : NotificationDelivery) (db : Db)
      → get delivery_id db.deliveries ≡ some d
      → is_pending d.status ≡ true
      → get k (process_delivery send retry_limit now delivery_id d db).deliveries ≡ (
          if delivery_id == k
          then some (processed send retry_limit now (outcome db d) d)
          else get k db.deliveries)
  unfolding process_delivery write_delivery outcome
  written delivery_id k d db h q =
      (let d' = processed send retry_limit now (outcome db d) d in
        let a =
          deliveries-audit_processed delivery_id (outcome db d) d'
            (write_delivery delivery_id d' db) in
        rw (process_delivery, q, a)
          (get-write k delivery_id d' db.deliveries ∙ (elim (Bool-cases (delivery_id == k)) [
            | inl e ↦ (let p : delivery_id ≡ k = ground arith in rw (e, ← p, h) refl)
            | inr e ↦ rw e refl
          ])))

  untouched :
      (delivery_id k : ℕ) (d : NotificationDelivery) (db : Db)
      → get delivery_id db.deliveries ≡ some d
      → is_pending d.status ≡ false
      → get k (process_delivery send retry_limit now delivery_id d db).deliveries
        ≡ (if delivery_id == k then some d else get k db.deliveries)
  unfolding process_delivery
  untouched delivery_id k d db h q = elim (Bool-cases (delivery_id == k)) [
    | inl e ↦ (let p : delivery_id ≡ k = ground arith in rw (process_delivery, q, e, ← p) h)
    | inr e ↦ rw (process_delivery, q, e) refl
  ]

  -- `process_delivery` takes a stored delivery through one run, as the statuses, the channel, the alert and
  -- the sending decide: it stays as it is if it is not pending; otherwise it is skipped where the channel or
  -- the alert is gone or the channel is disabled, sent where the sending succeeds, and where that fails
  -- left pending or, at the retry limit, failed, with the attempt counted. Every other delivery is left as
  -- it is.
  pub process_delivery-Run :
      (delivery_id : ℕ) (d : NotificationDelivery) (db : Db)
      → get delivery_id db.deliveries ≡ some d
      → (d' : NotificationDelivery) × Run db d d'
        × ((k : ℕ)
            → get k (process_delivery send retry_limit now delivery_id d db).deliveries
              ≡ (if delivery_id == k then some d' else get k db.deliveries))
  process_delivery-Run delivery_id d db h = elim (Bool-cases (is_pending d.status)) [
    | inl q ↦ (
      processed send retry_limit now (outcome db d) d,
      processed-Run db d (is_pending_sound d.status q),
      λ k. written delivery_id k d db h q,
    )
    | inr q ↦ (d, settled (λ e. not_pending d.status q e), λ k. untouched delivery_id k d db h q)
  ]
