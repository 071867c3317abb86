-- ===== src/Notifications/Api/Filters.antt =====
-- Which channels a notification rule may name: `_validate_rule_filters` and `create_rule` of
-- backend/app/api/notifications.py.
use cyclope_central.Base.{ℕ, ◌≡◌, ap, String, true, not, List, [], ◌∷◌, arith, ◌==◌, All}
use cyclope_central.Http.{Result, ok, >>=-eq-ok, raise_if, raise_if-ok, bad_request, forbidden}
use cyclope_central.Session.{get}
use cyclope_central.Models.Tenant.{User}
use cyclope_central.Models.Alert.{Severity}
use cyclope_central.Models.Notification.{NotificationRule}
use cyclope_central.Database.{Db}
use cyclope_central.Auth.Roles.{require_permission}
use cyclope_central.Notifications.Api.{
  RuleRequest, is_owned_channel, read_severities, validate_channels, validate_rule_filters,
  require_org, create_rule,
}

-- The channel is there and belongs to the organization.
abbrev pub IsOwnedChannel : Db → ℕ → ℕ → Type 0
IsOwnedChannel db organization_id channel_id =
    is_owned_channel organization_id (get channel_id db.channels) ≡ true

validate_channels-IsOwned :
    (l : List ℕ) (db : Db) (organization_id : ℕ) (l' : List ℕ)
    → validate_channels l db organization_id ≡ ok l'
    → All (IsOwnedChannel db organization_id) l'
unfolding validate_channels
validate_channels-IsOwned [] db organization_id l' h = (let i : [] ≡ l' = cc in rw (← i) tt)
validate_channels-IsOwned (c ∷ rest) db organization_id l' h =
    (let (u, p, g) =
        >>=-eq-ok
          (raise_if (not (is_owned_channel organization_id (get c db.channels)))
            (bad_request "Invalid notification channel"))
          _ h in
      let (later, q, f) = >>=-eq-ok (validate_channels rest db organization_id) _ g in
      let i : (c ∷ later) ≡ l' = cc in
      rw (← i) (
        ground (
          arith,
          raise_if-ok (not (is_owned_channel organization_id (get c db.channels)))
              (bad_request "Invalid notification channel") u p,
        ),
        validate_channels-IsOwned rest db organization_id later q,
      ))

validate_rule_filters-IsOwned :
    (severities : List String) (channel_ids : List ℕ) (db : Db) (organization_id : ℕ)
    (severity_filter : List Severity) (validated : List ℕ)
    → validate_rule_filters severities channel_ids db organization_id
      ≡ ok (severity_filter, validated)
    → All (IsOwnedChannel db organization_id) validated
unfolding validate_rule_filters
validate_rule_filters-IsOwned severities channel_ids db organization_id severity_filter validated
      h =
    (let (l, k, n) = >>=-eq-ok (read_severities severities) _ h in
      let (ids, m, o) = >>=-eq-ok (validate_channels channel_ids db organization_id) _ n in
      let i : ids ≡ validated = cc in
      rw (← i) (validate_channels-IsOwned channel_ids db organization_id ids m))

rule_of_ok :
    (a a' : ℕ) (r r' : NotificationRule) (d d' : Db)
    → Path (Result ((ℕ × NotificationRule) × Db)) (ok ((a, r), d)) (ok ((a', r'), d'))
    → r ≡ r'
rule_of_ok a a' r r' d d' h = cc

-- A rule that a request creates belongs to the caller's organization, and so does every channel that it
-- names.
pub create_rule-IsOwned :
    (payload : RuleRequest) (current : User) (db : Db) (rule_id : ℕ) (rule : NotificationRule)
    (db' : Db)
    → create_rule payload current db ≡ ok ((rule_id, rule), db')
    → (rule.organization_id ≡ current.organization_id)
      × All (IsOwnedChannel db current.organization_id) rule.channel_ids
unfolding create_rule
create_rule-IsOwned payload current db rule_id rule db' h =
    (let (u, p, g) = >>=-eq-ok (require_permission "notifications:manage" current) _ h in
      let foreign = not (payload.organization_id == current.organization_id) in
      let (v, q, f) = >>=-eq-ok (raise_if foreign (forbidden "Invalid organization scope")) _ g in
      let (w, r, e) = >>=-eq-ok (require_org current.organization_id db) _ f in
      let ((severities, ids), s, d) =
        >>=-eq-ok
          (validate_rule_filters payload.severity_filter payload.channel_ids db
            payload.organization_id)
          _ e in
      let same : payload.organization_id ≡ current.organization_id =
        ground (arith, raise_if-ok foreign (forbidden "Invalid organization scope") v q) in
      let owned =
        validate_rule_filters-IsOwned payload.severity_filter payload.channel_ids db
          payload.organization_id severities ids s in
      let i : payload.organization_id ≡ rule.organization_id =
        ap (λ r. r.organization_id) (rule_of_ok _ _ _ _ _ _ d) in
      let j : ids ≡ rule.channel_ids = ap (λ r. r.channel_ids) (rule_of_ok _ _ _ _ _ _ d) in
      (omega (arith, i, same), rw (← j, ← same) owned))
