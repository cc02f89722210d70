-- ===== src/Config/Endpoint.antt =====
-- core/config/config.go: the block of an endpoint and `EndpointConfig.Validate`, in the order of
-- its checks. The parser of addresses is package net/mail's.
pub mod Valid
use caddy_formward.Base.{
  ℕ, ◌+◌, suc, Bool, true, false, not, ◌&&◌, ◌||◌, List, [], ◌∷◌, Option, none, some, if◌then◌else◌,
  none_of,
}
use caddy_formward.Base.Int.{ℤ, is_neg, is_pos, is_zero}
use caddy_formward.Base.Results.{first_of}
use caddy_formward.Text.{Bytes, text, bytes_eq, is_empty, has_prefix, trim_space}
use caddy_formward.Csrf.{validate_secret}
use caddy_formward.Gateway.Compose.{AddressParser}
use caddy_formward.Transport.Registry.{TransportConfig, SettingsError, Registry, validate_transport}

pub record RateLimitConfig : Type 0 where
  pub count : ℤ
  pub interval : ℤ

-- `EndpointConfig`
pub record EndpointConfig : Type 0 where
  pub path : Bytes
  pub to : List Bytes
  pub sender : Bytes
  pub transport : TransportConfig
  pub rate_limit : Option RateLimitConfig
  pub trusted_proxies : List Bytes
  pub honeypot : Bytes
  pub allowed_origins : Option (List Bytes)
  pub max_body_size : Bytes
  pub required : List Bytes
  pub email_field : Bytes
  pub reply_to_email_field : Bytes
  pub subject : Bytes
  pub body : Bytes
  pub log_failed_submissions : Option Bool
  pub redirect_success : Bytes
  pub redirect_error : Bytes
  pub auth : Bytes
  pub api_keys : List Bytes
  pub idempotency_cache_size : ℤ
  pub dry_run : Bool
  pub strip_client_ip : Bool
  pub csrf_secret : Bytes
  pub csrf_token_ttl : ℤ

-- The errors, by the field at fault.
pub data EndpointError : Type 0 where
  no_path relative_path no_to no_from no_subject no_body no_api_keys : EndpointError
  bad_to bad_from bad_auth : Bytes → EndpointError
  bad_transport : SettingsError → EndpointError
  blank_api_key : ℕ → EndpointError
  form_only api_only : (field : Bytes) → EndpointError
  negative_cache_size negative_ttl short_secret no_origins bad_count bad_interval : EndpointError

abbrev check : Bool → EndpointError → Option EndpointError
check wrong e = if wrong then some e else none

abbrev parses : AddressParser → Bytes → Bool
parses parse addr = elim (parse addr) [ none ↦ false | some a ↦ true ]

unfoldable pub check_path : Bytes → Option EndpointError
unfolding is_empty text has_prefix
check_path path =
    first_of (check (is_empty path) no_path)
      (check (not (has_prefix path (text "/"))) relative_path)

-- The loop over the recipients.
unfoldable pub check_addresses : AddressParser → List Bytes → Option EndpointError
check_addresses parse [] = none
check_addresses parse (addr ∷ to) =
    let rest = check_addresses parse to in
    if not (parses parse addr) then some (bad_to addr) else rest

unfoldable pub check_to : AddressParser → List Bytes → Option EndpointError
unfolding check_addresses
check_to parse to = first_of (check (none_of to) no_to) (check_addresses parse to)

unfoldable pub check_from : AddressParser → Bytes → Option EndpointError
check_from parse sender =
    first_of (check (is_empty sender) no_from) (check (not (parses parse sender)) (bad_from sender))

-- The subject and the body.
unfoldable pub check_templates : EndpointConfig → Option EndpointError
check_templates e =
    first_of (check (is_empty e.subject) no_subject) (check (is_empty e.body) no_body)

-- The error of the transport block.
unfoldable pub check_transport :
    (sort_strings : List Bytes → List Bytes) → Registry → TransportConfig → Option EndpointError
unfolding validate_transport
check_transport sort_strings registry t = elim (validate_transport sort_strings registry t) [
  | none ↦ none
  | some e ↦ some (bad_transport e)
]

-- `auth`, with its default.
unfoldable pub effective_auth : Bytes → Bytes
unfolding text is_empty
effective_auth auth = if is_empty auth then text "form" else auth

unfoldable pub is_api_key : EndpointConfig → Bool
unfolding effective_auth text
is_api_key e = bytes_eq (effective_auth e.auth) (text "api-key")

unfoldable pub check_auth : EndpointConfig → Option EndpointError
unfolding effective_auth text
check_auth e =
    let auth = effective_auth e.auth in
    check (not (bytes_eq auth (text "form")) && not (bytes_eq auth (text "api-key")))
      (bad_auth e.auth)

-- The loop over the keys, from the index `i`.
unfoldable pub check_keys : ℕ → List Bytes → Option EndpointError
check_keys i [] = none
check_keys i (k ∷ keys) =
    let rest = check_keys (suc i) keys in
    if is_empty (trim_space k) then some (blank_api_key i) else rest

abbrev is_set {ℓ} : {A : Type ℓ} → Option A → Bool
is_set none = false
is_set (some a) = true

-- The checks of API mode.
unfoldable pub check_api : EndpointConfig → Option EndpointError
unfolding text check_keys
check_api e = first_of (check (none_of e.api_keys) no_api_keys) (
    first_of (check_keys 0 e.api_keys) (
      first_of (check (not (is_empty e.honeypot)) (form_only (text "honeypot"))) (
        first_of (check (is_set e.allowed_origins) (form_only (text "allowed_origins"))) (
          first_of (check (not (is_empty e.redirect_success)) (form_only (text "redirect_success")))
            (first_of (check (not (is_empty e.redirect_error)) (form_only (text "redirect_error")))
              (first_of (check (not (is_empty e.csrf_secret)) (form_only (text "csrf_secret")))
                (check (is_neg e.idempotency_cache_size) negative_cache_size)))))))

-- The checks of form mode.
unfoldable pub check_form : EndpointConfig → Option EndpointError
unfolding text validate_secret
check_form e =
    first_of
      (check (not (is_zero e.idempotency_cache_size)) (api_only (text "idempotency_cache_size")))
      (first_of (check (not (none_of e.api_keys)) (api_only (text "api_keys"))) (
        first_of
          (check (not (is_empty e.csrf_secret) && not (validate_secret e.csrf_secret)) short_secret)
          (check (is_neg e.csrf_token_ttl) negative_ttl)))

unfoldable pub check_mode : EndpointConfig → Option EndpointError
unfolding is_api_key check_api check_form
check_mode e = if is_api_key e then check_api e else check_form e

-- `e.AllowedOrigins != nil && len(e.AllowedOrigins) == 0`
unfoldable pub check_origins : Option (List Bytes) → Option EndpointError
check_origins none = none
check_origins (some origins) = check (none_of origins) no_origins

unfoldable pub check_rate_limit : Option RateLimitConfig → Option EndpointError
check_rate_limit none = none
check_rate_limit (some limit) =
    first_of (check (not (is_pos limit.count)) bad_count)
      (check (not (is_pos limit.interval)) bad_interval)

-- `EndpointConfig.Validate`, with `none` for a nil error.
unfoldable pub validate_endpoint :
    AddressParser
    → (sort_strings : List Bytes → List Bytes) → Registry
    → EndpointConfig
    → Option EndpointError
unfolding check_path check_to check_from check_templates check_transport check_auth check_mode
    check_origins check_rate_limit
validate_endpoint parse sort_strings registry e = first_of (check_path e.path) (
    first_of (check_to parse e.to) (
      first_of (check_from parse e.sender) (
        first_of (check_templates e) (
          first_of (check_transport sort_strings registry e.transport) (
            first_of (check_auth e) (
              first_of (check_mode e)
                (first_of (check_origins e.allowed_origins) (check_rate_limit e.rate_limit))))))))
