-- ===== src/Agents.antt =====
-- Enrolled endpoints: the handlers of backend/app/api/agent.py for enrollment and check-in, and
-- backend/app/api/inventory.py.
pub mod Enrollment
pub mod Payloads
pub mod Inventory
pub mod RustDesk
pub mod Checkin
