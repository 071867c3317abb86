-- ===== src/Examples/Agents.antt =====
-- The theorems on enrollment and check-ins at concrete inputs.
use cyclope_central.Base.{
  ℕ, ◌+◌, ◌≤◌, ◌≡◌, refl, String, Bool, true, false, Option, none, some, List, [], ◌∷◌, All, arith,
}
use cyclope_central.Base.Json.{Text, codes}
use cyclope_central.Session.{get}
use cyclope_central.Session.Rows.{AllRows}
use cyclope_central.Models.Device.{Device, Agent, EnrollmentToken}
use cyclope_central.Models.Alert.{Float}
use cyclope_central.Database.{Db, empty}
use cyclope_central.Auth.Tokens.{hash_token}
use cyclope_central.Agents.Enrollment.{
  EnrollRequest, EnrollResponse, find_token, enroll_with, enroll_agent,
}
use cyclope_central.Agents.Enrollment.Limits.{IsWithinLimit, enroll_agent-IsWithinLimit}
use cyclope_central.Agents.Enrollment.Takeover.{enrollment_takes_agent}
use cyclope_central.Agents.Checkin.{accept, checkin_agent}
use cyclope_central.Agents.Checkin.Authentication.{IsAuthentic, checkin_agent-IsAuthentic}
use cyclope_central.Examples.{
  value_of, test_hash, laptop_agent, invitation, office_db, test_settings, laptop_checkin,
}

abbrev join : EnrollRequest
join = record {
  enrollment_token = codes "invitation";
  hostname = "laptop";
  operating_system = "Windows 11";
  architecture = "amd64";
  agent_version = "1.1.0";
  machine_identifier = "machine-3";
}

abbrev enrolled : EnrollResponse × Db
enrolled =
    value_of (record { device_id = 0; device_secret = [] }, empty)
      (enroll_agent test_hash 50 (codes "new secret") join none office_db)

enroll_agent-IsWithinLimit_example :
    AllRows IsWithinLimit enrolled.1.enrollment_tokens
    × ((k : ℕ) × (token : EnrollmentToken) × (find_token test_hash join.enrollment_token office_db
          ≡ some (k, token))
        × (token.uses + 1 ≤ token.max_uses)
        × (find_token test_hash join.enrollment_token enrolled.1
            ≡ some (k, record token { uses = token.uses + 1 })))
unfolding enroll_agent cyclope_central.Session.scalar cyclope_central.Base.Json.text_eq hash_token
enroll_agent-IsWithinLimit_example =
    enroll_agent-IsWithinLimit test_hash 50 (codes "new secret") join none office_db enrolled.0
      enrolled.1 (refl, tt) (omega arith, tt) refl

-- an invitation of another organization
abbrev foreign : EnrollmentToken
foreign = record invitation { organization_id = 2 }

enrollment_takes_agent_example :
    get 4 (enroll_with test_hash 50 (codes "new secret") join none 9 foreign office_db).1.agents
    ≡ some record laptop_agent {
      organization_id = 2;
      device_id =
          some
            (enroll_with test_hash 50
              (codes "new secret")
              join
              none
              9
              foreign
              office_db).0.device_id;
      version = join.agent_version;
      device_secret_hash = hash_token test_hash (codes "new secret");
      last_seen_at = some 50;
    }
unfolding cyclope_central.Session.scalar get
enrollment_takes_agent_example =
    enrollment_takes_agent test_hash 50 (codes "new secret") join none 9 foreign office_db 4
      laptop_agent (refl, tt) refl refl

abbrev percent_of : ℕ → ℕ → Float
percent_of used total = used

abbrev checked_in : ℕ × Db
checked_in =
    value_of (0, empty)
      (checkin_agent test_hash test_settings percent_of (λ f. f) (λ a b. false) (λ f. false) 50
        laptop_checkin none office_db)

checkin_agent-IsAuthentic_example :
    (agent_id : ℕ) × (agent : Agent) × (device : Device) × IsAuthentic test_hash laptop_checkin
      office_db agent_id agent device
    × (accept test_hash test_settings percent_of
          (λ f. f)
          (λ a b. false)
          (λ f. false)
          50
          laptop_checkin
          none
          agent_id
          agent
          device
          office_db
        ≡ checked_in.1)
unfolding checkin_agent cyclope_central.Session.scalar cyclope_central.Auth.Tokens.verify_token
    cyclope_central.Base.Json.text_eq get
checkin_agent-IsAuthentic_example =
    checkin_agent-IsAuthentic test_hash test_settings percent_of (λ f. f) (λ a b. false)
      (λ f. false) 50 laptop_checkin none office_db checked_in.0 checked_in.1 refl
