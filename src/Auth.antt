-- ===== src/Auth.antt =====
-- Authentication and roles: backend/app/core/security.py, core/token_hashing.py and api/auth.py.
pub mod Roles
pub mod Tokens
pub mod Passwords
pub mod Access
pub mod Api
