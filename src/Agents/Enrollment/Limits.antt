-- ===== src/Agents/Enrollment/Limits.antt =====
-- What an enrollment token lets through: `enroll_agent` of backend/app/api/agent.py.
use cyclope_central.Base.{
  ℕ, ◌+◌, ◌≤◌, refl, Bool, String, ◌≡◌, true, Option, none, some, arith, ◌==◌, str_eq, ◌&&◌,
  Option-cases, Bool-cases, inl, inr,
}
use cyclope_central.Base.Json.{Text, text_eq}
use cyclope_central.Http.{ok}
use cyclope_central.Session.{scalar, write, IsClean}
use cyclope_central.Session.Laws.{flush-idem_of_IsClean}
use cyclope_central.Session.Lookup.{scalar-flush-write, scalar_sound}
use cyclope_central.Session.Rows.{AllRows, AllRows-write, AllRows-flush}
use cyclope_central.Models.Device.{Device, Agent, EnrollmentToken}
use cyclope_central.Database
use cyclope_central.Database.{Db, add_audit}
use cyclope_central.Auth.Tokens.{hash_token}
use cyclope_central.Agents.Enrollment.{
  EnrollRequest, EnrollResponse, is_usable, place_device, insert_device, bind_agent, used_token,
  count_use, find_token, enroll_with, enroll_agent,
}

abbrev pub IsWithinLimit : EnrollmentToken → Type 0
IsWithinLimit token = token.uses ≤ token.max_uses

used_token-IsWithinLimit :
    (now : ℕ) (token : EnrollmentToken)
    → is_usable now token ≡ true
    → IsWithinLimit (used_token token)
unfolding is_usable used_token
used_token-IsWithinLimit now token h = ground arith

is_usable-left :
    (now : ℕ) (token : EnrollmentToken)
    → is_usable now token ≡ true
    → token.uses + 1 ≤ token.max_uses
unfolding is_usable
is_usable-left now token h = ground arith

tokens-bind_agent :
    (now org device_id : ℕ) (payload : EnrollRequest) (secret_hash : Text) (o : Option (ℕ × Agent))
    (db : Db)
    → (bind_agent now org device_id payload secret_hash o db).enrollment_tokens
      ≡ db.enrollment_tokens
unfolding bind_agent
tokens-bind_agent now org device_id payload secret_hash none db = refl
tokens-bind_agent now org device_id payload secret_hash (some (k, a)) db = refl

tokens-place_device :
    (now org : ℕ) (payload : EnrollRequest) (client_host : Option String) (o : Option (ℕ × Device))
    (db : Db)
    → IsClean db.enrollment_tokens
    → (place_device now org payload client_host o db).1.enrollment_tokens ≡ db.enrollment_tokens
unfolding place_device insert_device Database.flush
tokens-place_device now org payload client_host none db c =
    flush-idem_of_IsClean db.enrollment_tokens c
tokens-place_device now org payload client_host (some (k, d)) db c = refl

AllRows-bind_agent :
    (now org device_id : ℕ) (payload : EnrollRequest) (secret_hash : Text) (o : Option (ℕ × Agent))
    (db : Db)
    → AllRows IsWithinLimit db.enrollment_tokens
    → AllRows IsWithinLimit
        (bind_agent now org device_id payload secret_hash o db).enrollment_tokens
unfolding bind_agent
AllRows-bind_agent now org device_id payload secret_hash none db h = h
AllRows-bind_agent now org device_id payload secret_hash (some (k, a)) db h = h

AllRows-place_device :
    (now org : ℕ) (payload : EnrollRequest) (client_host : Option String) (o : Option (ℕ × Device))
    (db : Db)
    → AllRows IsWithinLimit db.enrollment_tokens
    → AllRows IsWithinLimit (place_device now org payload client_host o db).1.enrollment_tokens
unfolding place_device insert_device Database.flush
AllRows-place_device now org payload client_host none db h =
    AllRows-flush IsWithinLimit db.enrollment_tokens h
AllRows-place_device now org payload client_host (some (k, d)) db h = h

module _ (hash : Text → Text) where
  AllRows-enroll_with :
      (now : ℕ) (device_secret : Text) (payload : EnrollRequest) (client_host : Option String)
      (k : ℕ) (token : EnrollmentToken) (db : Db)
      → is_usable now token ≡ true
      → AllRows IsWithinLimit db.enrollment_tokens
      → AllRows IsWithinLimit
          (enroll_with hash now device_secret payload client_host k token db).1.enrollment_tokens
  unfolding enroll_with count_use add_audit Database.flush
  AllRows-enroll_with now device_secret payload client_host k token db u h =
      (let org = token.organization_id in
        let known =
          scalar
            (λ k (device : Device).
              (device.organization_id == org)
              && str_eq device.machine_identifier payload.machine_identifier)
            db.devices in
        let placed = place_device now org payload client_host known db in
        let agent =
          scalar (λ k (agent : Agent). str_eq agent.install_id payload.machine_identifier)
            placed.1.agents in
        let bound =
          bind_agent now org placed.0 payload (hash_token hash device_secret) agent placed.1 in
        AllRows-flush IsWithinLimit (write k (used_token token) bound.enrollment_tokens) (
          AllRows-write IsWithinLimit k (used_token token) bound.enrollment_tokens
            (used_token-IsWithinLimit now token u)
            (AllRows-bind_agent now org placed.0 payload (hash_token hash device_secret) agent
              placed.1 (AllRows-place_device now org payload client_host known db h))))

  -- The use of the token is counted where the next enrollment with it looks.
  enroll_with-counts :
      (now : ℕ) (device_secret : Text) (payload : EnrollRequest) (client_host : Option String)
      (k : ℕ) (token : EnrollmentToken) (db : Db)
      → IsClean db.enrollment_tokens
      → find_token hash payload.enrollment_token db ≡ some (k, token)
      → find_token hash payload.enrollment_token
          (enroll_with hash now device_secret payload client_host k token db).1
        ≡ some (k, record token { uses = token.uses + 1 })
  unfolding find_token enroll_with count_use used_token add_audit Database.flush
  enroll_with-counts now device_secret payload client_host k token db c f =
      (let org = token.organization_id in
        let known =
          scalar
            (λ k (device : Device).
              (device.organization_id == org)
              && str_eq device.machine_identifier payload.machine_identifier)
            db.devices in
        let placed = place_device now org payload client_host known db in
        let agent =
          scalar (λ k (agent : Agent). str_eq agent.install_id payload.machine_identifier)
            placed.1.agents in
        let presented : ℕ → EnrollmentToken → Bool =
          λ k t. text_eq t.token_hash (hash_token hash payload.enrollment_token) in
        rw
          (
            tokens-bind_agent now org placed.0 payload (hash_token hash device_secret) agent
                placed.1,
            tokens-place_device now org payload client_host known db c,
          )
          (scalar-flush-write presented k token (used_token token) db.enrollment_tokens c f
            (scalar_sound presented k token db.enrollment_tokens c f)))

  -- An enrollment that is answered was made with a token that had a use left. That use is counted: the
  -- next enrollment with the token finds one use more, with the limit as it was. Every token stays within
  -- its limit of uses. Nothing is pending on the tokens before it.
  pub enroll_agent-IsWithinLimit :
      (now : ℕ) (device_secret : Text) (payload : EnrollRequest) (client_host : Option String)
      (db : Db) (response : EnrollResponse) (db' : Db)
      → IsClean db.enrollment_tokens
      → AllRows IsWithinLimit db.enrollment_tokens
      → enroll_agent hash now device_secret payload client_host db ≡ ok (response, db')
      → AllRows IsWithinLimit db'.enrollment_tokens
        × ((k : ℕ) × (token : EnrollmentToken) × (find_token hash payload.enrollment_token db
              ≡ some (k, token))
            × (token.uses + 1 ≤ token.max_uses)
            × (find_token hash payload.enrollment_token db'
                ≡ some (k, record token { uses = token.uses + 1 })))
  unfolding enroll_agent
  enroll_agent-IsWithinLimit now device_secret payload client_host db response db' c h e =
      elim (Option-cases (find_token hash payload.enrollment_token db)) [
        | inl n ↦ cc (rw (enroll_agent, n) at e)
        | inr ((k, token), n) ↦ elim (Bool-cases (is_usable now token)) [
          | inr u ↦ cc (rw (enroll_agent, n, u) at e)
          | inl u ↦
              (let g = rw (enroll_agent, n, u) at e in
                let i : (enroll_with hash now device_secret payload client_host k token db).1
                    ≡ db' =
                  cc in
                (
                  rw (← i)
                      (AllRows-enroll_with now device_secret payload client_host k token db u h),
                  (
                    k,
                    token,
                    n,
                    is_usable-left now token u,
                    rw (← i)
                        (enroll_with-counts now device_secret payload client_host k token db c n),
                  ),
                ))
        ]
      ]
