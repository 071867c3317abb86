-- ===== src/Jobs/Payload.antt =====
-- `validate_job_payload` of backend/app/core/jobs.py. `parse` is Python's `int()` on a text.
pub mod Canonical
use cyclope_central.Base.{
  ℕ, ◌≤◌, String, ◌≡◌, Bool, true, false, not, ◌&&◌, ◌||◌, Option, none, some, List, [], ◌∷◌, ◌==◌,
  leb, is_in, str_eq, if◌then◌else◌, length, or_else,
}
use cyclope_central.Base.Int.{ℤ, pos, is_between}
use cyclope_central.Base.Json.{Text, JsonValue, int, str, Dict, get, codes, str_of, int_of}
use cyclope_central.Http.{Result, ok, err, bad_request}

abbrev pub allowed_job_types : List String
allowed_job_types =
    "ping" ∷ "refresh_inventory" ∷ "collect_agent_logs" ∷ "get_service_status" ∷ "network_discovery"
    ∷ "arp_scan" ∷ "dns_discovery" ∷ "snmp_discovery" ∷ []

abbrev pub discovery_job_types : List String
discovery_job_types = "network_discovery" ∷ "arp_scan" ∷ "dns_discovery" ∷ "snmp_discovery" ∷ []

is_word_char : ℕ → Bool
is_word_char c =
    leb b'A' c && leb c b'Z'
    || leb b'a' c && leb c b'z'
    || leb b'0' c && leb c b'9'
    || c == b'_'
    || c == b'.'
    || c == b'-'

-- [A-Za-z0-9_./:-]
unfoldable pub is_subnet_char : ℕ → Bool
unfolding is_word_char
is_subnet_char c = is_word_char c || c == b'/' || c == b':'

-- [A-Za-z0-9_. -]
unfoldable pub is_service_char : ℕ → Bool
unfolding is_word_char
is_service_char c = is_word_char c || c == 32

unfoldable pub all_chars : (ℕ → Bool) → Text → Bool
all_chars p [] = true
all_chars p (c ∷ t) = p c && all_chars p t

-- `fullmatch(r"[…]{1,128}", t)`
fits : (ℕ → Bool) → Text → Bool
unfolding all_chars
fits p t = all_chars p t && leb 1 (length t) && leb (length t) 128

is_empty : Dict → Bool
is_empty [] = true
is_empty (e ∷ d) = false

line_count_payload : Option ℤ → Result Dict
line_count_payload none = err (bad_request "Invalid line_count")
line_count_payload (some n) =
    if not (is_between 1 200 n)
    then err (bad_request "Invalid line_count")
    else ok (("line_count", int n) ∷ [])

-- a text under `key`, if the pattern of `p` matches it
text_payload : (ℕ → Bool) → String → String → Text → Result Dict
unfolding fits
text_payload p key detail t = if fits p t then ok ((key, str t) ∷ []) else err (bad_request detail)

subnet_of : Dict → Text
unfolding str_of
subnet_of payload = str_of (or_else (get "subnet" payload) (str (codes "local")))

service_of : Dict → Text
unfolding str_of
service_of payload = str_of (or_else (get "service_name" payload) (str []))

lines_of : (Text → Option ℤ) → Dict → Option ℤ
unfolding int_of
lines_of parse payload = int_of parse (or_else (get "line_count" payload) (int (pos 100)))

module _ (parse : Text → Option ℤ) where
  unfoldable pub validate_job_payload : String → Option Dict → Result Dict
  unfolding line_count_payload text_payload is_empty subnet_of service_of lines_of
  validate_job_payload job_type given =
      let payload = or_else given [] in
      if not (is_in job_type allowed_job_types)
      then err (bad_request "Unsupported job type")
      else if is_in job_type ("ping" ∷ "refresh_inventory" ∷ [])
      then (if is_empty payload then ok [] else err (bad_request "Payload not allowed"))
      else if is_in job_type discovery_job_types
      then text_payload is_subnet_char "subnet" "Invalid subnet" (subnet_of payload)
      else if str_eq job_type "collect_agent_logs"
      then line_count_payload (lines_of parse payload)
      else text_payload is_service_char "service_name" "Invalid service_name" (service_of payload)
