-- ===== src/Notifications/Delivery/Retries.antt =====
-- How often a delivery is tried: `process_delivery` of backend/app/core/notifications.py.
use cyclope_central.Base.{
  ℕ, ◌+◌, ◌≤◌, ◌≡◌, refl, true, false, Option, none, some, List, [], ◌∷◌, arith, leb, length,
  if◌then◌else◌, Bool-cases, inl, inr,
}
use cyclope_central.Models.Alert.{Alert}
use cyclope_central.Models.Notification.{NotificationChannel, NotificationDelivery}
use cyclope_central.Notifications.Delivery.{
  SendError, is_pending, processed, attempted, sent_delivery, failed_delivery, skipped_delivery,
}

module _ (send : NotificationChannel → Alert → Option SendError) (retry_limit : ℕ) where
  -- A delivery through a sequence of runs, each with what its attempt would come to.
  unfoldable pub runs :
      ℕ → List (Option (Option SendError)) → NotificationDelivery → NotificationDelivery
  runs now [] d = d
  runs now (outcome ∷ rest) d =
      let later = runs now rest (processed send retry_limit now outcome d) in
      let kept = runs now rest d in if is_pending d.status then later else kept

  runs-settled :
      (now : ℕ) (l : List (Option (Option SendError))) (d : NotificationDelivery)
      → is_pending d.status ≡ false
      → runs now l d ≡ d
  unfolding runs
  runs-settled now [] d h = refl
  runs-settled now (o ∷ l) d h = rw h (runs-settled now l d h)

  failed_delivery-settled :
      (e : SendError) (d : NotificationDelivery)
      → leb retry_limit (d.attempts + 1) ≡ true
      → is_pending (failed_delivery retry_limit e d).status ≡ false
  unfolding failed_delivery is_pending
  failed_delivery-settled e d h = rw h refl

  -- A delivery that has attempts left under the retry limit is settled, which is to say no longer pending,
  -- after as many runs as it has attempts left, whatever becomes of each, and is tried no more often than
  -- the limit says.
  pub runs_settle :
      (now : ℕ) (outcomes : List (Option (Option SendError))) (d : NotificationDelivery)
      → 1 ≤ length outcomes
      → retry_limit ≤ d.attempts + length outcomes
      → 1 + d.attempts ≤ retry_limit
      → (is_pending (runs now outcomes d).status ≡ false)
        × ((runs now outcomes d).attempts ≤ retry_limit)
  unfolding runs processed attempted sent_delivery failed_delivery skipped_delivery is_pending
  runs_settle now [] d n l a = absurd (omega arith)
  runs_settle now (none ∷ rest) d n l a = elim (Bool-cases (is_pending d.status)) [
    | inl p ↦ rw (runs, p, runs-settled now rest (skipped_delivery d) refl) (refl, omega arith)
    | inr p ↦ rw (runs, p, runs-settled now rest d p) (p, omega arith)
  ]
  runs_settle now (some none ∷ rest) d n l a = elim (Bool-cases (is_pending d.status)) [
    | inl p ↦ rw (runs, p, runs-settled now rest (sent_delivery now d) refl) (refl, omega arith)
    | inr p ↦ rw (runs, p, runs-settled now rest d p) (p, omega arith)
  ]
  runs_settle now (some (some e) ∷ rest) d n l a = elim (Bool-cases (is_pending d.status)) [
    | inr p ↦ rw (runs, p, runs-settled now rest d p) (p, omega arith)
    | inl p ↦ elim (Bool-cases (leb retry_limit (d.attempts + 1))) [
      | inl b ↦
          (let f = failed_delivery-settled e d b in
            rw (runs, p, runs-settled now rest (failed_delivery retry_limit e d) f)
              (f, omega arith))
      | inr b ↦
          rw (runs, p)
            (runs_settle now rest (failed_delivery retry_limit e d) (ground arith) (omega arith)
              (ground arith))
    ]
  ]
