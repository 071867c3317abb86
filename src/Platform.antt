-- ===== src/Platform.antt =====
-- The handlers of backend/app/api/phase3.py, by what they are about, and what they share. `current` is
-- the user that the handler's dependency lets through, with its key.
pub mod Dashboard
pub mod Portal
pub mod Automation
pub mod Keys
pub mod Maintenance
use cyclope_central.Base.{ℕ, ◌+◌}
use cyclope_central.Models.Platform.{Platform}
use cyclope_central.Database.{Db}

-- the tables after `db.add(...)` of one object, which gets the next key
unfoldable pub store : Platform → Db → Db
store tables db = record db { next_id = db.next_id + 1; platform = tables }
