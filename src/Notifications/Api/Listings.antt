-- ===== src/Notifications/Api/Listings.antt =====
-- The listings of backend/app/api/notifications.py, newest first. The rows of channels and rules stand in
-- the order of their creation, so the newest is the last. A rule is shown as its row, with its key.
use mathlib.Core.List.{reverse}
use cyclope_central.Base.{ℕ, String, Option, none, some, List, ◌==◌, take, map}
use cyclope_central.Http.{Result, ok, ◌>>◌}
use cyclope_central.Session.{get, select}
use cyclope_central.Models.Tenant.{User}
use cyclope_central.Models.Notification.{
  NotificationChannel, NotificationRule, NotificationDelivery,
}
use cyclope_central.Database.{Db}
use cyclope_central.Auth.Roles.{require_permission}
use cyclope_central.Notifications.Api.{ChannelResponse, channel_response, channel_type}
use cyclope_central.Notifications.Delivery.{order_by_age}

unfoldable pub list_channels : User → Db → Result (List ChannelResponse)
unfolding channel_response
list_channels current db = do
  require_permission "notifications:manage" current
  ok (
      map (λ c. channel_response c.0 c.1)
        (reverse (select (λ k c. c.organization_id == current.organization_id) db.channels)))

unfoldable pub list_rules : User → Db → Result (List (ℕ × NotificationRule))
list_rules current db = do
  require_permission "notifications:manage" current
  ok (
      reverse
        (select (λ k rule. rule.organization_id == current.organization_id) db.notification_rules))

-- a delivery with its key, and the name and the type of its channel
pub record DeliveryResponse : Type 0 where
  pub id : ℕ
  pub delivery : NotificationDelivery
  pub channel_name : Option String
  pub channel_kind : Option String

unfoldable pub name_of : Option NotificationChannel → Option String
name_of none = none
name_of (some channel) = some channel.name

unfoldable pub kind_of : Option NotificationChannel → Option String
unfolding channel_type
kind_of none = none
kind_of (some channel) = some (channel_type channel.config)

unfoldable pub delivery_response : Db → ℕ × NotificationDelivery → DeliveryResponse
unfolding name_of kind_of
delivery_response db (delivery_id, delivery) = record {
  id = delivery_id;
  delivery = delivery;
  channel_name = name_of (get delivery.channel_id db.channels);
  channel_kind = kind_of (get delivery.channel_id db.channels);
}

unfoldable pub list_deliveries : User → Db → Result (List DeliveryResponse)
unfolding order_by_age delivery_response
list_deliveries current db = do
  require_permission "notifications:manage" current
  ok (
      map (delivery_response db) (
        take 100 (
          reverse (
            order_by_age
              (select (λ k d. d.organization_id == current.organization_id) db.deliveries)))))
