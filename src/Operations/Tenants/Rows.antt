-- ===== src/Operations/Tenants/Rows.antt =====
-- A row that names only what its organization has keeps the operations safe.
use cyclope_central.Session.{Table, add}
use cyclope_central.Session.Rows.{AllRows-add}
use cyclope_central.Session.References.{add-IsKeptBy, refl-IsKeptBy}
use cyclope_central.Models.Operations.{
  Asset, Company, DocumentationCategory, DocumentationArticle, DiscoveryScan, DiscoveredDevice,
  Ticket, TicketComment, TicketTimeEntry, AiConversation, AiMessage, AiInsight, ReportTemplate,
  ReportRun, ReportSchedule,
}
use cyclope_central.Database.{Db}
use cyclope_central.Operations.{store}
use cyclope_central.Operations.Tenants.{
  OwnsDevice, OwnsTicket, OwnsTemplate, IsTenantSafe, referents, refl-IsExtendedBy,
  store-IsTenantSafe,
}

module _ (db : Db) (s : IsTenantSafe db) where
  -- A row in a table that refers to nothing, here all of them at once; new templates keep the old ones.
  pub store_others :
      (companies : Table Company) (categories : Table DocumentationCategory)
      (articles : Table DocumentationArticle) (discovered : Table DiscoveredDevice)
      (conversations : Table AiConversation) (messages : Table AiMessage)
      (insights : Table AiInsight) (runs : Table ReportRun)
      → IsTenantSafe (
          store
            (record db.operations {
              companies = companies;
              categories = categories;
              articles = articles;
              discovered = discovered;
              conversations = conversations;
              messages = messages;
              insights = insights;
              runs = runs;
            })
            db)
  store_others companies categories articles discovered conversations messages insights runs =
      store-IsTenantSafe _ db (refl-IsExtendedBy (referents db)) (record {
        assets = s.assets;
        scans = s.scans;
        tickets = s.tickets;
        comments = s.comments;
        time_entries = s.time_entries;
        schedules = s.schedules;
      })

  -- `db.add(asset)`, for a device of the same organization
  pub store_asset :
      (asset : Asset)
      → OwnsDevice (referents db) asset.organization_id asset.device_id
      → IsTenantSafe
          (store (record db.operations { assets = add db.next_id asset db.operations.assets }) db)
  store_asset asset own = store-IsTenantSafe _ db (refl-IsExtendedBy (referents db)) (record {
    assets = AllRows-add _ db.next_id asset db.operations.assets own s.assets;
    scans = s.scans;
    tickets = s.tickets;
    comments = s.comments;
    time_entries = s.time_entries;
    schedules = s.schedules;
  })

  -- `db.add(scan)`, for a device of the same organization
  pub store_scan :
      (scan : DiscoveryScan)
      → OwnsDevice (referents db) scan.organization_id scan.device_id
      → IsTenantSafe
          (store (record db.operations { scans = add db.next_id scan db.operations.scans }) db)
  store_scan scan own = store-IsTenantSafe _ db (refl-IsExtendedBy (referents db)) (record {
    assets = s.assets;
    scans = AllRows-add _ db.next_id scan db.operations.scans own s.scans;
    tickets = s.tickets;
    comments = s.comments;
    time_entries = s.time_entries;
    schedules = s.schedules;
  })

  -- `db.add(ticket)`, for a device of the same organization
  pub store_ticket :
      (ticket : Ticket)
      → OwnsDevice (referents db) ticket.organization_id ticket.device_id
      → IsTenantSafe (
          store (record db.operations { tickets = add db.next_id ticket db.operations.tickets }) db)
  store_ticket ticket own =
      store-IsTenantSafe _ db
        (record {
          devices = refl-IsKeptBy db.devices;
          tickets = add-IsKeptBy db.next_id _ db.operations.tickets;
          templates = refl-IsKeptBy db.operations.templates;
        })
        (record {
          assets = s.assets;
          scans = s.scans;
          tickets = AllRows-add _ db.next_id ticket db.operations.tickets own s.tickets;
          comments = s.comments;
          time_entries = s.time_entries;
          schedules = s.schedules;
        })

  -- `db.add(comment)`, on a ticket of the same organization
  pub store_comment :
      (comment : TicketComment)
      → OwnsTicket (referents db) comment.organization_id comment.ticket_id
      → IsTenantSafe (
          store
            (record db.operations { comments = add db.next_id comment db.operations.comments })
            db)
  store_comment comment own = store-IsTenantSafe _ db (refl-IsExtendedBy (referents db)) (record {
    assets = s.assets;
    scans = s.scans;
    tickets = s.tickets;
    comments = AllRows-add _ db.next_id comment db.operations.comments own s.comments;
    time_entries = s.time_entries;
    schedules = s.schedules;
  })

  -- `db.add(entry)`, on a ticket of the same organization
  pub store_entry :
      (entry : TicketTimeEntry)
      → OwnsTicket (referents db) entry.organization_id entry.ticket_id
      → IsTenantSafe (
          store
            (record db.operations {
              time_entries = add db.next_id entry db.operations.time_entries;
            })
            db)
  store_entry entry own = store-IsTenantSafe _ db (refl-IsExtendedBy (referents db)) (record {
    assets = s.assets;
    scans = s.scans;
    tickets = s.tickets;
    comments = s.comments;
    time_entries = AllRows-add _ db.next_id entry db.operations.time_entries own s.time_entries;
    schedules = s.schedules;
  })

  -- `db.add(schedule)`, of a template of the same organization
  pub store_schedule :
      (schedule : ReportSchedule)
      → OwnsTemplate (referents db) schedule.organization_id schedule.template_id
      → IsTenantSafe (
          store
            (record db.operations { schedules = add db.next_id schedule db.operations.schedules })
            db)
  store_schedule schedule own = store-IsTenantSafe _ db (refl-IsExtendedBy (referents db)) (record {
    assets = s.assets;
    scans = s.scans;
    tickets = s.tickets;
    comments = s.comments;
    time_entries = s.time_entries;
    schedules = AllRows-add _ db.next_id schedule db.operations.schedules own s.schedules;
  })

  -- `db.add(template)`
  pub store_template :
      (template : ReportTemplate)
      → IsTenantSafe (
          store
            (record db.operations { templates = add db.next_id template db.operations.templates })
            db)
  store_template template =
      store-IsTenantSafe _ db
        (record {
          devices = refl-IsKeptBy db.devices;
          tickets = refl-IsKeptBy db.operations.tickets;
          templates = add-IsKeptBy db.next_id _ db.operations.templates;
        })
        (record {
          assets = s.assets;
          scans = s.scans;
          tickets = s.tickets;
          comments = s.comments;
          time_entries = s.time_entries;
          schedules = s.schedules;
        })
