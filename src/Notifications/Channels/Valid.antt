-- ===== src/Notifications/Channels/Valid.antt =====
-- What `validate_channel_config` lets through, and what `mask_channel_config` shows of it.
use cyclope_central.Base.{
  String, ◌≡◌, refl, ap, true, false, ◌||◌, Option, none, some, List, [], ◌∷◌, length, ◌==◌, str_eq,
  All, arith, Bool-cases, Option-cases, inl, inr,
}
use cyclope_central.Http.{ok}
use cyclope_central.Models.Notification.{ChannelConfig, email, webhook}
use cyclope_central.Notifications.Channels.{
  ConfigValue, RequestConfig, all_texts, recipients_of, headers_of, url_of, is_http_url,
  email_config, webhook_config, validate_channel_config, secret_mask, mask_headers,
  mask_channel_config,
}

-- the header values that a config shows
unfoldable pub header_values : List (String × String) → List String
header_values [] = []
header_values ((k, v) ∷ rest) = v ∷ header_values rest

unfoldable pub header_names : List (String × String) → List String
header_names [] = []
header_names ((k, v) ∷ rest) = k ∷ header_names rest

abbrev pub IsMask : String → Type 0
IsMask v = v ≡ secret_mask

mask_headers-IsMask : (h : List (String × String)) → All IsMask (header_values (mask_headers h))
unfolding header_values mask_headers
mask_headers-IsMask [] = tt
mask_headers-IsMask ((k, v) ∷ rest) = (refl, mask_headers-IsMask rest)

header_names-mask_headers :
    (h : List (String × String)) → header_names (mask_headers h) ≡ header_names h
unfolding header_names mask_headers
header_names-mask_headers [] = refl
header_names-mask_headers ((k, v) ∷ rest) = ap (λ l. k ∷ l) (header_names-mask_headers rest)

-- What the API shows of a webhook's config has the URL and the names of the headers, and the mask in place
-- of the value of every header.
pub mask_channel_config-webhook :
    (url : String) (headers : List (String × String))
    → (shown : List (String × String)) × (mask_channel_config (webhook url headers)
        ≡ webhook url shown)
      × (header_names shown ≡ header_names headers)
      × All IsMask (header_values shown)
unfolding mask_channel_config
mask_channel_config-webhook url headers =
    (mask_headers headers, refl, header_names-mask_headers headers, mask_headers-IsMask headers)

-- A config that a channel may have: recipients, at least one, or an http URL.
abbrev pub IsUsableConfig : ChannelConfig → Type 0
IsUsableConfig (email recipients) = (length recipients == 0) ≡ false
IsUsableConfig (webhook url headers) = is_http_url url ≡ true

all_texts-cons :
    (i : Option String) (rest : List (Option String)) (l : List String)
    → all_texts (i ∷ rest) ≡ some l
    → (length l == 0) ≡ false
unfolding all_texts
all_texts-cons none rest l h = cc
all_texts-cons (some a) rest [] h = elim (Option-cases (all_texts rest)) [
  | inl e ↦ cc (rw (all_texts, e) at h)
  | inr (t, e) ↦ cc (rw (all_texts, e) at h)
]
all_texts-cons (some a) rest (x ∷ l) h = ground arith

recipients_of-cons :
    (v : Option ConfigValue) (l : List String) → recipients_of v ≡ some l → (length l == 0) ≡ false
unfolding recipients_of
recipients_of-cons none l h = cc
recipients_of-cons (some (ConfigValue.scalar s b)) l h = cc
recipients_of-cons (some (ConfigValue.entries e)) l h = cc
recipients_of-cons (some (ConfigValue.items [])) l h = cc
recipients_of-cons (some (ConfigValue.items (i ∷ rest))) l h = all_texts-cons i rest l h

email_config-IsUsable :
    (v : Option ConfigValue) (c : ChannelConfig)
    → email_config (recipients_of v) ≡ ok c
    → IsUsableConfig c
unfolding email_config
email_config-IsUsable v c h = elim (Option-cases (recipients_of v)) [
  | inl e ↦ cc (rw (email_config, e) at h)
  | inr (l, e) ↦
      (let g : email l ≡ c = cc (rw (email_config, e) at h) in rw (← g) (recipients_of-cons v l e))
]

webhook_config-IsUsable :
    (url : String) (o : Option (List (String × String))) (c : ChannelConfig)
    → is_http_url url ≡ true
    → webhook_config url o ≡ ok c
    → IsUsableConfig c
unfolding webhook_config
webhook_config-IsUsable url none c u h = cc
webhook_config-IsUsable url (some l) c u h = (let g : webhook url l ≡ c = cc in rw (← g) u)

-- A config that the validation accepts has at least one recipient, or a URL that begins like one of http
-- or https, and belongs to one of the two channel types.
pub validate_channel_config-IsUsable :
    (channel_type : String) (config : RequestConfig) (c : ChannelConfig)
    → validate_channel_config channel_type config ≡ ok c
    → ((str_eq channel_type "email" || str_eq channel_type "webhook") ≡ true) × IsUsableConfig c
unfolding validate_channel_config
validate_channel_config-IsUsable channel_type config c h =
    elim (Bool-cases (str_eq channel_type "email")) [
      | inl e ↦
          (let g = rw (validate_channel_config, e) at h in
            (rw e refl, email_config-IsUsable config.recipients c g))
      | inr e ↦ elim (Bool-cases (str_eq channel_type "webhook")) [
        | inr w ↦ cc (rw (validate_channel_config, e, w) at h)
        | inl w ↦ elim (Bool-cases (is_http_url (url_of config.url))) [
          | inr u ↦ cc (rw (validate_channel_config, e, w, u) at h)
          | inl u ↦
              (let g = rw (validate_channel_config, e, w, u) at h in
                (
                  rw (e, w) refl,
                  webhook_config-IsUsable (url_of config.url) (headers_of config.headers) c u g,
                ))
        ]
      ]
    ]
