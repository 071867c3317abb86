-- ===== src/Agents/Checkin/Authentication.antt =====
-- Who may check in: `checkin_agent` of backend/app/api/agent.py.
use cyclope_central.Base.{
  ℕ, String, ◌≡◌, Bool, Option, some, arith, ◌==◌, opt_eq, Option-cases, Bool-cases, inl, inr,
}
use cyclope_central.Base.Json.{Text}
use cyclope_central.Http.{ok, >>=-eq-ok}
use cyclope_central.Session.{get, scalar}
use cyclope_central.Models.Device.{Device, Agent}
use cyclope_central.Models.Alert.{Float}
use cyclope_central.Database.{Db}
use cyclope_central.Auth.Tokens.{hash_token, verify_token, verify_token_iff}
use cyclope_central.Alerts.Rules.{AlertSettings}
use cyclope_central.Agents.Checkin.{CheckinRequest, authenticate, device_of, accept, checkin_agent}

-- The credentials of a request are those of the agent, whose device is of the agent's organization.
pub record IsAuthentic (hash : Text → Text) (payload : CheckinRequest) (db : Db) (agent_id : ℕ)
    (agent : Agent) (device : Device) : Type 0 where
  pub is_agent_of :
      scalar (λ k agent. opt_eq agent.device_id payload.device_id) db.agents
      ≡ some (agent_id, agent)
  pub knows_secret : hash_token hash payload.device_secret ≡ agent.device_secret_hash
  pub is_device : get payload.device_id db.devices ≡ some device
  pub is_same_tenant : device.organization_id ≡ agent.organization_id

module _ (hash : Text → Text) (settings : AlertSettings) (percent : ℕ → ℕ → Float)
    (round_2 : Float → Float) (float_lt : Float → Float → Bool) (is_zero : Float → Bool) where
  authenticate_sound :
      (payload : CheckinRequest) (db : Db) (agent_id : ℕ) (agent : Agent)
      → authenticate hash settings percent round_2 float_lt is_zero payload db
        ≡ ok (agent_id, agent)
      → (scalar (λ k agent. opt_eq agent.device_id payload.device_id) db.agents
          ≡ some (agent_id, agent))
        × (hash_token hash payload.device_secret ≡ agent.device_secret_hash)
  unfolding authenticate
  authenticate_sound payload db agent_id agent h =
      elim (Option-cases
        (scalar (λ k (agent : Agent). opt_eq agent.device_id payload.device_id) db.agents)) [
          | inl e ↦ cc (rw (authenticate, e) at h)
          | inr ((k, a), e) ↦
              elim (Bool-cases (verify_token hash payload.device_secret a.device_secret_hash)) [
                | inl v ↦
                    (let g = rw (authenticate, e, v) at h in
                      let j : k ≡ agent_id = cc in
                      let i : a ≡ agent = cc in
                      rw (← j, ← i)
                        (e, (verify_token_iff hash payload.device_secret a.device_secret_hash).0 v))
                | inr v ↦ cc (rw (authenticate, e, v) at h)
              ]
        ]

  device_of_sound :
      (device_id : ℕ) (agent : Agent) (db : Db) (device : Device)
      → device_of hash settings percent round_2 float_lt is_zero device_id agent db ≡ ok device
      → (get device_id db.devices ≡ some device) × (device.organization_id ≡ agent.organization_id)
  unfolding device_of
  device_of_sound device_id agent db device h = elim (Option-cases (get device_id db.devices)) [
    | inl e ↦ cc (rw (device_of, e) at h)
    | inr (d, e) ↦ elim (Bool-cases (d.organization_id == agent.organization_id)) [
      | inl v ↦
          (let g = rw (device_of, e, v) at h in
            let i : d ≡ device = cc in rw (← i) (e, ground arith))
      | inr v ↦ cc (rw (device_of, e, v) at h)
    ]
  ]

  -- A check-in that is answered was made with the secret of the agent that is bound to the device, the
  -- device is of that agent's organization, and the session afterwards is that of an accepted check-in of
  -- this agent and this device.
  pub checkin_agent-IsAuthentic :
      (now : ℕ) (payload : CheckinRequest) (client_host : Option String) (db : Db) (device_id : ℕ)
      (db' : Db)
      → checkin_agent hash settings percent round_2 float_lt is_zero now payload client_host db
        ≡ ok (device_id, db')
      → (agent_id : ℕ) × (agent : Agent) × (device : Device) × IsAuthentic hash payload db agent_id
          agent device
        × (accept hash settings percent round_2 float_lt is_zero now payload client_host agent_id
              agent device db
            ≡ db')
  unfolding checkin_agent
  checkin_agent-IsAuthentic now payload client_host db device_id db' h =
      (let ((agent_id, agent), a, g) =
          >>=-eq-ok (authenticate hash settings percent round_2 float_lt is_zero payload db) _ h in
        let (device, d, f) =
          >>=-eq-ok
            (device_of hash settings percent round_2 float_lt is_zero payload.device_id agent db) _
            g in
        let (i, s) = authenticate_sound payload db agent_id agent a in
        let (j, t) = device_of_sound payload.device_id agent db device d in
        (
          agent_id,
          agent,
          device,
          record { is_agent_of = i; knows_secret = s; is_device = j; is_same_tenant = t },
          cc,
        ))
