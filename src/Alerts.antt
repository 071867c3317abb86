-- ===== src/Alerts.antt =====
-- Device health alerts: backend/app/core/alerts.py and backend/app/api/alerts.py.
pub mod Rules
pub mod Evaluation
pub mod Raising
pub mod Api
