-- ===== src/Jobs.antt =====
-- Safe agent jobs: backend/app/core/jobs.py, and the handlers of backend/app/api/jobs.py and
-- backend/app/api/agent.py that call it.
pub mod Payload
pub mod Core
pub mod Queue
pub mod Api
pub mod Lifecycle
pub mod Sweep
