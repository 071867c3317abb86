-- ===== src/Notifications/Channels.antt =====
-- `validate_channel_config` and `mask_channel_config` of backend/app/core/notifications.py.
pub mod Valid
use cyclope_central.Base.{
  String, Bool, true, false, not, ◌&&◌, ◌||◌, Option, none, some, List, [], ◌∷◌, str_eq,
  if◌then◌else◌, map,
}
use text.Mathlib.Text.{starts_with}
use cyclope_central.Http.{Result, ok, err, value_error}
use cyclope_central.Models.Notification.{ChannelConfig, email, webhook, NotificationChannel}

-- The value under a key of the config dict that a request sends, as far as the validation tells values
-- apart: a list with its texts (`none` for an item that is no text), a dict of texts likewise, a text or
-- another value by its `str()`, and whether it is false as a condition.
pub data ConfigValue : Type 0 where
  items : List (Option String) → ConfigValue
  entries : List (Option (String × String)) → ConfigValue
  scalar : String → Bool → ConfigValue

pub record RequestConfig : Type 0 where
  pub recipients : Option ConfigValue
  pub url : Option ConfigValue
  pub headers : Option ConfigValue

-- every item, if each is a text
unfoldable pub all_texts {ℓ} : {A : Type ℓ} → List (Option A) → Option (List A)
all_texts [] = some []
all_texts (none ∷ rest) = none
all_texts (some a ∷ rest) = elim (all_texts rest) [ none ↦ none | some l ↦ some (a ∷ l) ]

-- `config.get("recipients") or []`, a list that is not empty and holds texts only
unfoldable pub recipients_of : Option ConfigValue → Option (List String)
unfolding all_texts
recipients_of none = none
recipients_of (some (scalar s is_empty)) = none
recipients_of (some (entries h)) = none
recipients_of (some (items [])) = none
recipients_of (some (items (i ∷ rest))) = all_texts (i ∷ rest)

-- `config.get("headers") or {}`, a dict from texts to texts
unfoldable pub headers_of : Option ConfigValue → Option (List (String × String))
unfolding all_texts
headers_of none = some []
headers_of (some (scalar s is_empty)) = if is_empty then some [] else none
headers_of (some (items [])) = some []
headers_of (some (items (i ∷ rest))) = none
headers_of (some (entries h)) = all_texts h

-- `str(config.get("url") or "")`; the `str()` of a list or a dict never begins like a URL
unfoldable pub url_of : Option ConfigValue → String
url_of none = ""
url_of (some (scalar s is_empty)) = if is_empty then "" else s
url_of (some (items l)) = ""
url_of (some (entries h)) = ""

unfoldable pub is_http_url : String → Bool
is_http_url url = starts_with url "https://" || starts_with url "http://"

email_config : Option (List String) → Result ChannelConfig
email_config none = err (value_error "Email channels require recipients")
email_config (some recipients) = ok (email recipients)

webhook_config : String → Option (List (String × String)) → Result ChannelConfig
webhook_config url none = err (value_error "Webhook headers must be string key/value pairs")
webhook_config url (some headers) = ok (webhook url headers)

unfoldable pub validate_channel_config : String → RequestConfig → Result ChannelConfig
unfolding recipients_of headers_of url_of is_http_url email_config webhook_config
validate_channel_config channel_type config =
    if not (str_eq channel_type "email" || str_eq channel_type "webhook")
    then err (value_error "Unsupported notification channel type")
    else if str_eq channel_type "email"
    then email_config (recipients_of config.recipients)
    else if not (is_http_url (url_of config.url))
    then err (value_error "Webhook channels require an http(s) URL")
    else webhook_config (url_of config.url) (headers_of config.headers)

abbrev pub secret_mask : String
secret_mask = "********"

unfoldable pub mask_headers : List (String × String) → List (String × String)
mask_headers [] = []
mask_headers ((key, value) ∷ rest) = (key, secret_mask) ∷ mask_headers rest

-- what the API shows of a channel's config
unfoldable pub mask_channel_config : ChannelConfig → ChannelConfig
unfolding mask_headers
mask_channel_config (email recipients) = email recipients
mask_channel_config (webhook url headers) = webhook url (mask_headers headers)
