-- ===== src/Agents/Enrollment.antt =====
-- `enroll_agent` of backend/app/api/agent.py, and `build_enrollment_token` of backend/app/core/enrollment.py.
-- `hash` is the keyed hash of the tokens; the random secrets come in as arguments.
pub mod Takeover
pub mod Limits
use cyclope_central.Base.{
  ℕ, ◌+◌, ◌*◌, String, Bool, true, false, not, ◌&&◌, ◌||◌, Option, none, some, [], ◌∷◌, ◌==◌, leb,
  is_some, str_eq, or_else, if◌then◌else◌,
}
use cyclope_central.Base.Json.{Text, Dict, str, codes, text_eq}
use cyclope_central.Http.{Result, ok, err, ◌>>=◌, unauthorized}
use cyclope_central.Session.{scalar, add, write}
use cyclope_central.Models.Device.{Device, Agent, EnrollmentToken}
use cyclope_central.Database.{Db, flush, add_audit}
use cyclope_central.Auth.Tokens.{hash_token}

pub record EnrollRequest : Type 0 where
  pub enrollment_token : Text
  pub hostname : String
  pub operating_system : String
  pub architecture : String
  pub agent_version : String
  pub machine_identifier : String

pub record EnrollResponse : Type 0 where
  pub device_id : ℕ
  pub device_secret : Text

-- none of the four reasons to refuse a token
unfoldable pub is_usable : ℕ → EnrollmentToken → Bool
is_usable now token =
    not (is_some token.revoked_at || leb token.expires_at now || leb token.max_uses token.uses)

unfoldable pub enrolled_device : ℕ → ℕ → EnrollRequest → Option String → Device
enrolled_device now organization_id payload client_host = record {
  organization_id = organization_id;
  hostname = payload.hostname;
  operating_system = payload.operating_system;
  architecture = some payload.architecture;
  machine_identifier = payload.machine_identifier;
  ip_address = client_host;
  agent_version = some payload.agent_version;
  health_status = "enrolled";
  status = "online";
  is_online = true;
  last_seen_at = some now;
}

unfoldable pub host_or : Option String → Option String → Option String
host_or none old = old
host_or (some host) old = some host

unfoldable pub reenrolled_device : ℕ → EnrollRequest → Option String → Device → Device
unfolding host_or
reenrolled_device now payload client_host device = record device {
  hostname = payload.hostname;
  operating_system = payload.operating_system;
  architecture = some payload.architecture;
  agent_version = some payload.agent_version;
  ip_address = host_or client_host device.ip_address;
  status = "online";
  is_online = true;
  health_status = "enrolled";
  last_seen_at = some now;
}

insert_device : Device → Db → ℕ × Db
insert_device device db = (
  db.next_id,
  flush (record db { next_id = db.next_id + 1; devices = add db.next_id device db.devices }),
)

-- the device of the token's organization with this machine identifier, new or brought up to date
unfoldable pub place_device :
    ℕ → ℕ → EnrollRequest → Option String → Option (ℕ × Device) → Db → ℕ × Db
unfolding enrolled_device reenrolled_device insert_device
place_device now organization_id payload client_host none db =
    insert_device (enrolled_device now organization_id payload client_host) db
place_device now organization_id payload client_host (some (device_id, device)) db = (
  device_id,
  record db {
    devices = write device_id (reenrolled_device now payload client_host device) db.devices;
  },
)

unfoldable pub bound_agent : ℕ → ℕ → ℕ → EnrollRequest → Text → Agent
bound_agent now organization_id device_id payload secret_hash = record {
  organization_id = organization_id;
  device_id = some device_id;
  version = payload.agent_version;
  install_id = payload.machine_identifier;
  device_secret_hash = secret_hash;
  last_seen_at = some now;
}

unfoldable pub rebound_agent : ℕ → ℕ → ℕ → EnrollRequest → Text → Agent → Agent
rebound_agent now organization_id device_id payload secret_hash agent = record agent {
  organization_id = organization_id;
  device_id = some device_id;
  version = payload.agent_version;
  device_secret_hash = secret_hash;
  last_seen_at = some now;
}

-- the agent with this install id, whatever its organization, new or bound to the device
unfoldable pub bind_agent : ℕ → ℕ → ℕ → EnrollRequest → Text → Option (ℕ × Agent) → Db → Db
unfolding bound_agent rebound_agent
bind_agent now organization_id device_id payload secret_hash none db = record db {
  next_id = db.next_id + 1;
  agents = add db.next_id (bound_agent now organization_id device_id payload secret_hash) db.agents;
}
bind_agent now organization_id device_id payload secret_hash (some (agent_id, agent)) db =
    record db {
      agents =
          write agent_id (rebound_agent now organization_id device_id payload secret_hash agent)
            db.agents;
    }

unfoldable pub used_token : EnrollmentToken → EnrollmentToken
used_token token = record token { uses = token.uses + 1 }

unfoldable pub count_use : ℕ → EnrollmentToken → Db → Db
unfolding used_token
count_use token_id token db = record db {
  enrollment_tokens = write token_id (used_token token) db.enrollment_tokens;
}

module _ (hash : Text → Text) where
  unfoldable pub find_token : Text → Db → Option (ℕ × EnrollmentToken)
  find_token token db =
      scalar (λ k t. text_eq t.token_hash (hash_token hash token)) db.enrollment_tokens

  -- what `enroll_agent` does with a token that it accepts
  unfoldable pub enroll_with :
      ℕ → Text → EnrollRequest → Option String → ℕ → EnrollmentToken → Db → EnrollResponse × Db
  unfolding place_device bind_agent count_use add_audit flush
  enroll_with now device_secret payload client_host token_id token db =
      let org = token.organization_id in
      let (device_id, placed) =
        place_device now org payload client_host
          (scalar
            (λ k device.
              (device.organization_id == org)
              && str_eq device.machine_identifier payload.machine_identifier)
            db.devices)
          db in
      let bound =
        bind_agent now org device_id payload (hash_token hash device_secret)
          (scalar (λ k agent. str_eq agent.install_id payload.machine_identifier) placed.agents)
          placed in
      (
        record { device_id = device_id; device_secret = device_secret },
        flush (
            add_audit org none "agent.enrolled" "device" (some device_id)
              (("hostname", str (codes payload.hostname))
                ∷ ("agent_version", str (codes payload.agent_version))
                ∷ [])
              (count_use token_id token bound)),
      )

  unfoldable pub enroll_agent :
      ℕ → Text → EnrollRequest → Option String → Db → Result (EnrollResponse × Db)
  unfolding find_token is_usable
  enroll_agent now device_secret payload client_host db =
      elim (find_token payload.enrollment_token db) [
        | none ↦ err (unauthorized "Invalid enrollment token")
        | some (token_id, token) ↦
            if is_usable now token
            then ok (enroll_with now device_secret payload client_host token_id token db)
            else err (unauthorized "Invalid enrollment token")
      ]

  -- the plaintext, which is shown once, and the row that holds only its hash
  unfoldable pub build_enrollment_token : ℕ → Text → ℕ → ℕ → ℕ → Text × EnrollmentToken
  build_enrollment_token now plaintext organization_id ttl_hours max_uses = (
    plaintext,
    record {
      organization_id = organization_id;
      token_hash = hash_token hash plaintext;
      expires_at = now + ttl_hours * 3600000000;
      max_uses = max_uses;
      uses = 0;
      revoked_at = none;
      created_by_user_id = none;
    },
  )
