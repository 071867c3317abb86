-- ===== src/Models.antt =====
-- The rows of the database (backend/app/models): one record per mapped class. A primary key is the
-- key of the row in its table and no field; a UUID is a number, an instant the number of microseconds
-- since the epoch in UTC. Columns that only the server's clock fills (`created_at`, `updated_at`) are
-- kept where a query orders by them.
pub mod Operations
pub mod Platform
pub mod Tenant
pub mod Device
pub mod Job
pub mod Alert
pub mod Notification
pub mod Remote
