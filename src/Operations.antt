-- ===== src/Operations.antt =====
-- The handlers of backend/app/api/operations.py, by the resource that they are about, and what they
-- share. `current` is the user that the handler's dependency lets through, with its key. The orders of
-- texts are those of the database's collation, a parameter `collates`.
pub mod Assets
pub mod Tenants
pub mod Documentation
pub mod Discovery
pub mod Tickets
pub mod Reports
pub mod Assistant
use cyclope_central.Base.{ℕ, ◌+◌, String, Option, none, some, ◌==◌, if◌then◌else◌}
use cyclope_central.Base.Json.{Dict}
use cyclope_central.Http.{Result, ok, ◌>>=◌}
use cyclope_central.Models.Tenant.{User}
use cyclope_central.Models.Device.{Device}
use cyclope_central.Models.Operations.{Operations}
use cyclope_central.Database.{Db, flush, add_audit}
use cyclope_central.Jobs.Api.{owned_device}

unfoldable pub audit : ℕ → User → String → String → Option ℕ → Dict → Db → Db
unfolding add_audit
audit current_id current action target_type target metadata db =
    add_audit current.organization_id (some current_id) action target_type target metadata db

-- the tables after `db.add(...)` of one object, which gets the next key
unfoldable pub store : Operations → Db → Db
store tables db = record db { next_id = db.next_id + 1; operations = tables }

-- the device with its key, if one is asked for
unfoldable pub ensure_device : User → Option ℕ → Db → Result (Option (ℕ × Device))
ensure_device current none db = ok none
ensure_device current (some device_id) db = do
  device ← owned_device "Device not found" device_id current.organization_id db
  ok (some (device_id, device))

-- `db.flush(); audit(...); db.commit()`. The first flush writes what the commit would, and gives the
-- new object the key that the audit names.
unfoldable pub commit_audited : ℕ → User → String → String → Option ℕ → Dict → Db → Db
unfolding audit flush
commit_audited current_id current action target_type target metadata db =
    flush (audit current_id current action target_type target metadata db)
