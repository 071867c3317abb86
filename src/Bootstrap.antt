-- ===== src/Bootstrap.antt =====
-- First-run setup: backend/app/core/bootstrap.py and backend/app/api/bootstrap.py.
pub mod Slug
pub mod Password
pub mod Setup
