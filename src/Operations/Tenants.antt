-- ===== src/Operations/Tenants.antt =====
-- Which rows the operations of backend/app/api/operations.py may name: those of their own organization.
pub mod Reachable
pub mod Steps
pub mod Permitted
pub mod Rows
pub mod Checked
pub mod Unchecked
use cyclope_central.Base.{
  ℕ, String, ◌≡◌, refl, ◌==◌, Option, none, some, [], arith, Option-cases, Bool-cases, inl, inr,
  All,
}
use cyclope_central.Http.{ok, >>=-eq-ok}
use cyclope_central.Session.{Table, get, flush as flush_table}
use cyclope_central.Session.Rows.{AllRows, AllRows-flush}
use cyclope_central.Session.References.{
  IsKeptBy, IsOwned, IsOwnedIfAny, IsOwned-kept, IsOwnedIfAny-kept, flush-IsKeptBy, refl-IsKeptBy,
  AllRows-map,
}
use cyclope_central.Models.Tenant.{User}
use cyclope_central.Models.Device.{Device}
use cyclope_central.Models.Operations.{
  Asset, DiscoveryScan, Ticket, TicketComment, TicketTimeEntry, ReportTemplate, ReportSchedule,
  Operations, flush_operations,
}
use cyclope_central.Database.{Db, flush, add_audit}
use cyclope_central.Base.Json.{Dict}
use cyclope_central.Jobs.Api.Tenants.{owned_device_sound}
use cyclope_central.Jobs.Api.{owned_device}
use cyclope_central.Operations.{audit, store, ensure_device, commit_audited}

-- The devices, tickets and templates that rows refer to.
pub record Referents : Type 0 where
  pub devices : Table Device
  pub tickets : Table Ticket
  pub templates : Table ReportTemplate

abbrev pub OwnsDevice : Referents → ℕ → Option ℕ → Type 0
OwnsDevice x organization_id k = IsOwnedIfAny (λ d. d.organization_id) x.devices organization_id k

abbrev pub OwnsTicket : Referents → ℕ → ℕ → Type 0
OwnsTicket x organization_id k = IsOwned (λ t. t.organization_id) x.tickets organization_id k

abbrev pub OwnsTemplate : Referents → ℕ → ℕ → Type 0
OwnsTemplate x organization_id k = IsOwned (λ t. t.organization_id) x.templates organization_id k

-- The devices of assets, scans and tickets, the tickets of comments and time entries, and the templates
-- of schedules belong to the organization of the row.
pub record IsSafeFor (x : Referents) (o : Operations) : Type 0 where
  pub assets : AllRows (λ a. OwnsDevice x a.organization_id a.device_id) o.assets
  pub scans : AllRows (λ s. OwnsDevice x s.organization_id s.device_id) o.scans
  pub tickets : AllRows (λ t. OwnsDevice x t.organization_id t.device_id) o.tickets
  pub comments : AllRows (λ c. OwnsTicket x c.organization_id c.ticket_id) o.comments
  pub time_entries : AllRows (λ e. OwnsTicket x e.organization_id e.ticket_id) o.time_entries
  pub schedules : AllRows (λ s. OwnsTemplate x s.organization_id s.template_id) o.schedules

abbrev pub referents : Db → Referents
referents db = record {
  devices = db.devices;
  tickets = db.operations.tickets;
  templates = db.operations.templates;
}

abbrev pub IsTenantSafe : Db → Type 0
IsTenantSafe db = IsSafeFor (referents db) db.operations

-- Nothing that a row could refer to is lost.
pub record IsExtendedBy (x y : Referents) : Type 0 where
  pub devices : IsKeptBy x.devices y.devices
  pub tickets : IsKeptBy x.tickets y.tickets
  pub templates : IsKeptBy x.templates y.templates

pub IsSafeFor-extended :
    (x y : Referents) (o : Operations) → IsExtendedBy x y → IsSafeFor x o → IsSafeFor y o
IsSafeFor-extended x y o e h = record {
  assets = AllRows-map _ _ o.assets (λ a. device a.organization_id a.device_id) h.assets;
  scans = AllRows-map _ _ o.scans (λ a. device a.organization_id a.device_id) h.scans;
  tickets = AllRows-map _ _ o.tickets (λ a. device a.organization_id a.device_id) h.tickets;
  comments = AllRows-map _ _ o.comments (λ a. ticket a.organization_id a.ticket_id) h.comments;
  time_entries =
      AllRows-map _ _ o.time_entries (λ a. ticket a.organization_id a.ticket_id) h.time_entries;
  schedules =
      AllRows-map _ _ o.schedules
        (λ a.
          IsOwned-kept (λ t. t.organization_id) x.templates y.templates e.templates
            a.organization_id a.template_id)
        h.schedules;
}
  where
    device : (org : ℕ) (k : Option ℕ) → OwnsDevice x org k → OwnsDevice y org k
    device = IsOwnedIfAny-kept (λ d. d.organization_id) x.devices y.devices e.devices

    ticket : (org k : ℕ) → OwnsTicket x org k → OwnsTicket y org k
    ticket = IsOwned-kept (λ t. t.organization_id) x.tickets y.tickets e.tickets

IsSafeFor-flush :
    (x : Referents) (o : Operations) → IsSafeFor x o → IsSafeFor x (flush_operations o)
unfolding flush_operations
IsSafeFor-flush x o h = record {
  assets = AllRows-flush _ o.assets h.assets;
  scans = AllRows-flush _ o.scans h.scans;
  tickets = AllRows-flush _ o.tickets h.tickets;
  comments = AllRows-flush _ o.comments h.comments;
  time_entries = AllRows-flush _ o.time_entries h.time_entries;
  schedules = AllRows-flush _ o.schedules h.schedules;
}

pub flush-IsTenantSafe : (db : Db) → IsTenantSafe db → IsTenantSafe (flush db)
unfolding flush flush_operations
flush-IsTenantSafe db h =
    IsSafeFor-extended (referents db) (referents (flush db)) (flush_operations db.operations)
      (record {
        devices = flush-IsKeptBy db.devices;
        tickets = flush-IsKeptBy db.operations.tickets;
        templates = flush-IsKeptBy db.operations.templates;
      })
      (IsSafeFor-flush (referents db) db.operations h)

pub refl-IsExtendedBy : (x : Referents) → IsExtendedBy x x
refl-IsExtendedBy x = record {
  devices = refl-IsKeptBy x.devices;
  tickets = refl-IsKeptBy x.tickets;
  templates = refl-IsKeptBy x.templates;
}

-- A new key changes nothing that rows refer to.
pub store-IsTenantSafe :
    (o : Operations) (db : Db)
    → IsExtendedBy
        (referents db)
        (record { devices = db.devices; tickets = o.tickets; templates = o.templates })
    → IsSafeFor (referents db) o
    → IsTenantSafe (store o db)
unfolding store
store-IsTenantSafe o db e h = IsSafeFor-extended (referents db) _ o e h

-- Nor does the audit.
pub commit-IsTenantSafe :
    (current_id : ℕ) (current : User) (action target_type : String) (target : Option ℕ)
    (metadata : Dict) (db : Db)
    → IsTenantSafe db
    → IsTenantSafe (commit_audited current_id current action target_type target metadata db)
unfolding commit_audited audit add_audit
commit-IsTenantSafe current_id current action target_type target metadata db h =
    flush-IsTenantSafe (audit current_id current action target_type target metadata db) h

pub ensure_device-Owns :
    (current : User) (device_id : Option ℕ) (db : Db) (found : Option (ℕ × Device))
    → ensure_device current device_id db ≡ ok found
    → OwnsDevice (referents db) current.organization_id device_id
unfolding ensure_device
ensure_device-Owns current none db found h = tt
ensure_device-Owns current (some device_id) db found h =
    (let (device, p, g) =
        >>=-eq-ok (owned_device "Device not found" device_id current.organization_id db) _ h in
      let (e, t) =
        owned_device_sound "Device not found" device_id current.organization_id db device p in
      (device, e, t))
