-- ===== src/Lib.antt =====
-- Verification of the backend of Cyclope Central, a service that manages computers through agents that
-- check in with it. The backend (backend/app) is a FastAPI application over a database; agents enroll,
-- check in with their inventory and poll for jobs, operators sign in and work through the handlers.
--
-- The state. Session models one SQLAlchemy session (backend/app/db/session.py): a row keeps what the
-- database holds beside what the session's object holds, since the sessions do not flush before a query.
-- Database is the record of all tables, Models/* are the rows (backend/app/models). Keys are numbers in
-- place of UUIDs, times are microseconds, and `next_id` stands for a fresh UUID.
--
-- The parts, each by the code that it models:
--   Base, Http: numbers, texts, JSON values and the results of handlers, shared by all.
--   Auth: roles, passwords, tokens and sign-in (core/security.py, core/token_hashing.py, api/auth.py).
--   Jobs: payloads, transitions, queue and handlers of jobs (core/jobs.py, api/jobs.py, and the job
--     endpoints of api/agent.py). Lifecycle has the requests as a step relation.
--   Alerts: rules, evaluation, raising and handlers (core/alerts.py, api/alerts.py).
--   Notifications: channels, enqueueing, delivery and handlers (core/notifications.py,
--     api/notifications.py).
--   Agents: enrollment, inventory and check-ins (api/agent.py, api/inventory.py, core/enrollment.py).
--   Devices: status, reported inventory and the dashboard (api/devices.py, api/dashboard.py).
--   Operations: assets, documentation, discovery, tickets, reports and questions (api/operations.py).
--     Tenants has their requests as a step relation.
--   Platform: dashboard preferences, portal, workflows, API keys, health and backups (api/phase3.py).
--   Settings: the validation for production (core/config.py).
--   Users (api/users.py), Bootstrap (core/bootstrap.py, api/bootstrap.py), Remote (api/remote.py).
--   Examples: test data, and the theorems at concrete inputs.
-- A check-in of Agents evaluates Alerts, which enqueue Notifications; all write to one Database.
--
-- Functions keep the names of the source. A handler is a function from its arguments, the user whom its
-- dependency lets through, and the session, to a result and the session after its last commit. A helper
-- that stands for a part of a function says which part in its comment.
--
-- Parameters: jose, hashlib, hmac, smtplib and urllib are functions that the definitions take as
-- arguments, and so are float arithmetic, `int()` of a text, the classes of characters, and the order and
-- the patterns of texts in the database. Loops run over lists by recursion, so no fuel is needed but for
-- the digits of a number, where the number itself is enough.
--
-- Not modelled: the reading of settings from the environment, the checks of pydantic but for the length of
-- a polled secret, tables that no handler touches, the constraints of the database (unique indexes among
-- them) and its concurrency, logging and routing, the agent itself (Go) and the frontend.
pub mod Devices
pub mod Settings
pub mod Platform
pub mod Operations
pub mod Base
pub mod Http
pub mod Session
pub mod Models
pub mod Database
pub mod Auth
pub mod Jobs
pub mod Notifications
pub mod Alerts
pub mod Agents
pub mod Users
pub mod Bootstrap
pub mod Remote
pub mod Examples
