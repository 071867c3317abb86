-- ===== src/Notifications.antt =====
-- Alert notifications: backend/app/core/notifications.py and backend/app/api/notifications.py.
pub mod Webhook
pub mod Channels
pub mod Enqueue
pub mod Delivery
pub mod Api
