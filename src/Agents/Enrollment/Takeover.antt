-- ===== src/Agents/Enrollment/Takeover.antt =====
-- What an enrollment does to an agent that is there already: `enroll_agent` of backend/app/api/agent.py
-- looks it up by its install id alone.
use cyclope_central.Base.{ℕ, String, ◌≡◌, refl, Option, none, some, ◌==◌, str_eq, ◌&&◌}
use cyclope_central.Base.Json.{Text}
use cyclope_central.Session.{get, scalar, IsClean}
use cyclope_central.Session.Laws.{flush-idem_of_IsClean}
use cyclope_central.Session.Lookup.{get-flush-write}
use cyclope_central.Models.Device.{Device, Agent, EnrollmentToken}
use cyclope_central.Database
use cyclope_central.Database.{Db, add_audit}
use cyclope_central.Auth.Tokens.{hash_token}
use cyclope_central.Agents.Enrollment.{
  EnrollRequest, place_device, insert_device, bind_agent, rebound_agent, count_use, enroll_with,
}

agents-place_device :
    (now org : ℕ) (payload : EnrollRequest) (client_host : Option String) (o : Option (ℕ × Device))
    (db : Db)
    → IsClean db.agents
    → (place_device now org payload client_host o db).1.agents ≡ db.agents
unfolding place_device insert_device Database.flush
agents-place_device now org payload client_host none db c = flush-idem_of_IsClean db.agents c
agents-place_device now org payload client_host (some (k, d)) db c = refl

-- the agent that an enrollment finds by its install id
abbrev pub IsInstalled : EnrollRequest → Db → ℕ → Agent → Type 0
IsInstalled payload db agent_id agent =
    scalar (λ k (a : Agent). str_eq a.install_id payload.machine_identifier) db.agents
    ≡ some (agent_id, agent)

-- An enrollment moves an agent that has the install id of the request to the organization of the token and
-- to the device that it answers with, whatever organization and device the agent had, gives it the
-- new secret and the version of the request, and notes the time, where nothing is pending on the agents.
pub enrollment_takes_agent :
    (hash : Text → Text) (now : ℕ) (device_secret : Text) (payload : EnrollRequest)
    (client_host : Option String) (token_id : ℕ) (token : EnrollmentToken) (db : Db) (agent_id : ℕ)
    (agent : Agent)
    → IsClean db.agents
    → IsInstalled payload db agent_id agent
    → get agent_id db.agents ≡ some agent
    → get agent_id
        (enroll_with hash now device_secret payload client_host token_id token db).1.agents
      ≡ some record agent {
        organization_id = token.organization_id;
        device_id =
            some
              (enroll_with hash now device_secret payload client_host token_id token
                db).0.device_id;
        version = payload.agent_version;
        device_secret_hash = hash_token hash device_secret;
        last_seen_at = some now;
      }
unfolding rebound_agent enroll_with bind_agent count_use add_audit Database.flush
enrollment_takes_agent hash now device_secret payload client_host token_id token db agent_id agent c
      i g =
    (let org = token.organization_id in
      let known =
        scalar
          (λ k (device : Device).
            (device.organization_id == org)
            && str_eq device.machine_identifier payload.machine_identifier)
          db.devices in
      let placed = place_device now org payload client_host known db in
      let s = agents-place_device now org payload client_host known db c in
      rw (s, i, bind_agent)
        (rw s (
          get-flush-write agent_id agent
            (rebound_agent now org placed.0 payload (hash_token hash device_secret) agent) db.agents
            g)))
