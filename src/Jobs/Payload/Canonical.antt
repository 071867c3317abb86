-- ===== src/Jobs/Payload/Canonical.antt =====
-- Which payloads `validate_job_payload` lets through, and in which form.
use cyclope_central.Base.{
  ℕ, ◌≤◌, String, ◌≡◌, Bool, true, false, Option, none, some, or_else, [], ◌∷◌, arith, is_in,
  length, str_eq, Bool-cases, inl, inr,
}
use cyclope_central.Base.Int.{ℤ, pos, negsuc}
use cyclope_central.Base.Json.{Text, int, str, Dict}
use cyclope_central.Http.{ok}
use cyclope_central.Jobs.Payload.{
  allowed_job_types, discovery_job_types, validate_job_payload, is_subnet_char, is_service_char,
  all_chars, line_count_payload, text_payload, subnet_of, lines_of, service_of, fits,
}

-- The payloads that an agent may be given.
pub data IsSafe : Dict → Type 0 where
  nothing : IsSafe []
  subnet :
      (t : Text)
      → all_chars is_subnet_char t ≡ true
      → 1 ≤ length t
      → length t ≤ 128
      → IsSafe (("subnet", str t) ∷ [])
  line_count : (n : ℕ) → 1 ≤ n → n ≤ 200 → IsSafe (("line_count", int (pos n)) ∷ [])
  service_name :
      (t : Text)
      → all_chars is_service_char t ≡ true
      → 1 ≤ length t
      → length t ≤ 128
      → IsSafe (("service_name", str t) ∷ [])

text_payload-eq-ok :
    (p : ℕ → Bool) (key detail : String) (t : Text) (q : Dict)
    → text_payload p key detail t ≡ ok q
    → (fits p t ≡ true) × (((key, str t) ∷ []) ≡ q)
unfolding text_payload
text_payload-eq-ok p key detail t q h = ground arith

line_count_payload-eq-ok :
    (n : Option ℤ) (q : Dict)
    → line_count_payload n ≡ ok q
    → (k : ℕ) × (1 ≤ k) × (k ≤ 200) × ((("line_count", int (pos k)) ∷ []) ≡ q)
unfolding line_count_payload
line_count_payload-eq-ok none q h = cc
line_count_payload-eq-ok (some (pos n)) q h = (n, ground arith, ground arith, ground arith)
line_count_payload-eq-ok (some (negsuc n)) q h = absurd (ground arith)

fits_parts :
    (p : ℕ → Bool) (t : Text)
    → fits p t ≡ true
    → (all_chars p t ≡ true) × (1 ≤ length t) × (length t ≤ 128)
unfolding fits
fits_parts p t h = ground arith

-- The three ways in which a payload passes.
data Passes (parse : Text → Option ℤ) (job_type : String) (q : Dict) : Type 0 where
  no_payload :
      is_in job_type ("ping" ∷ "refresh_inventory" ∷ []) ≡ true → q ≡ [] → Passes parse job_type q
  by_subnet :
      (t : Text)
      → is_in job_type ("ping" ∷ "refresh_inventory" ∷ []) ≡ false
      → is_in job_type discovery_job_types ≡ true
      → fits is_subnet_char t ≡ true
      → ((("subnet", str t) ∷ []) ≡ q)
      → Passes parse job_type q
  by_lines :
      (k : ℕ)
      → is_in job_type ("ping" ∷ "refresh_inventory" ∷ []) ≡ false
      → is_in job_type discovery_job_types ≡ false
      → str_eq job_type "collect_agent_logs" ≡ true
      → 1 ≤ k
      → k ≤ 200
      → ((("line_count", int (pos k)) ∷ []) ≡ q)
      → Passes parse job_type q
  by_service :
      (t : Text)
      → is_in job_type ("ping" ∷ "refresh_inventory" ∷ []) ≡ false
      → is_in job_type discovery_job_types ≡ false
      → str_eq job_type "collect_agent_logs" ≡ false
      → fits is_service_char t ≡ true
      → ((("service_name", str t) ∷ []) ≡ q)
      → Passes parse job_type q

module _ (parse : Text → Option ℤ) where
  passes :
      (job_type : String) (given : Option Dict) (q : Dict)
      → validate_job_payload parse job_type given ≡ ok q
      → (is_in job_type allowed_job_types ≡ true) × Passes parse job_type q
  unfolding validate_job_payload
  passes job_type given q h = elim (Bool-cases (is_in job_type allowed_job_types)) [
    | inr e ↦ cc (rw e at h)
    | inl e ↦ (
      e,
      elim (Bool-cases (is_in job_type ("ping" ∷ "refresh_inventory" ∷ []))) [
        | inl a ↦ no_payload a (ground (arith, rw (e, a) at h))
        | inr a ↦ elim (Bool-cases (is_in job_type discovery_job_types)) [
          | inl b ↦
              (let (f, g) =
                  text_payload-eq-ok is_subnet_char "subnet" "Invalid subnet"
                    (subnet_of (or_else given [])) q (rw (e, a, b) at h) in
                by_subnet (subnet_of (or_else given [])) a b f g)
          | inr b ↦ elim (Bool-cases (str_eq job_type "collect_agent_logs")) [
            | inl c ↦
                (let (k, l, u, g) =
                    line_count_payload-eq-ok (lines_of parse (or_else given [])) q
                      (rw (e, a, b, c) at h) in
                  by_lines k a b c l u g)
            | inr c ↦
                (let (f, g) =
                    text_payload-eq-ok is_service_char "service_name" "Invalid service_name"
                      (service_of (or_else given [])) q (rw (e, a, b, c) at h) in
                  by_service (service_of (or_else given [])) a b c f g)
          ]
        ]
      ],
    )
  ]

  -- What `validate_job_payload` returns is a payload for one of the allowed job types: nothing, one
  -- subnet or one service name of 1 to 128 characters of its pattern, or a line count from 1 to 200.
  pub validate_job_payload-IsSafe :
      (job_type : String) (given : Option Dict) (q : Dict)
      → validate_job_payload parse job_type given ≡ ok q
      → (is_in job_type allowed_job_types ≡ true) × IsSafe q
  validate_job_payload-IsSafe job_type given q h =
      let (e, w) = passes job_type given q h in (e, safe w)
    where
      safe : Passes parse job_type q → IsSafe q
      safe (no_payload a g) = rw g nothing
      safe (by_subnet t a b f g) =
          (let (c, l, u) = fits_parts is_subnet_char t f in rw (← g) (subnet t c l u))
      safe (by_lines k a b c l u g) = rw (← g) (line_count k l u)
      safe (by_service t a b c f g) =
          (let (x, l, u) = fits_parts is_service_char t f in rw (← g) (service_name t x l u))

  -- A payload that was let through is let through again, unchanged.
  pub validate_job_payload_idem :
      (job_type : String) (given : Option Dict) (q : Dict)
      → validate_job_payload parse job_type given ≡ ok q
      → validate_job_payload parse job_type (some q) ≡ ok q
  unfolding validate_job_payload
  validate_job_payload_idem job_type given q h = let (e, w) = passes job_type given q h in again e w
    where
      again :
          is_in job_type allowed_job_types ≡ true
          → Passes parse job_type q
          → validate_job_payload parse job_type (some q) ≡ ok q
      again e (no_payload a g) = rw (g, e, a)
      again e (by_subnet t a b f g) = rw (← g, e, a, b) (ground arith)
      again e (by_lines k a b c l u g) = rw (← g, e, a, b, c) (ground arith)
      again e (by_service t a b c f g) = rw (← g, e, a, b, c) (ground arith)
