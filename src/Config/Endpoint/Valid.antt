-- ===== src/Config/Endpoint/Valid.antt =====
-- core/config/config.go: what holds of an endpoint that passes its validation.
use caddy_formward.Base.{
  ℕ, suc, Bool, true, false, not, ◌&&◌, List, [], ◌∷◌, Option, none, some, ◌≡◌, ◌≢◌, refl, arith,
  none_of, All, Bool-cases, Option-cases, inl, inr, ◌⊎◌,
}
use caddy_formward.Base.Int.{is_neg, is_pos, is_zero}
use caddy_formward.Base.Results.{first_of-none}
use caddy_formward.Text.{Bytes, text, is_empty, has_prefix, trim_space}
use caddy_formward.Csrf.{validate_secret}
use caddy_formward.Gateway.Compose.{AddressParser}
use caddy_formward.Transport.Registry.{Registry, validate_transport}
use caddy_formward.Config.Endpoint.{
  EndpointConfig, EndpointError, RateLimitConfig, bad_transport, check, parses, is_set, check_path,
  check_addresses, check_to, check_from, check_templates, check_transport, is_api_key, check_keys,
  check_api, check_form, check_mode, check_origins, check_rate_limit, validate_endpoint,
}

passes : (wrong : Bool) (e : EndpointError) → check wrong e ≡ none → wrong ≡ false
passes true e h = cc
passes false e h = refl

-- An endpoint for authenticated servers has keys, none of them blank, and no defence or redirect
-- for browsers.
pub record IsApi (e : EndpointConfig) : Type 0 where
  pub keyed : none_of e.api_keys ≡ false
  pub unblank : All (λ k. is_empty (trim_space k) ≡ false) e.api_keys
  pub no_honeypot : is_empty e.honeypot ≡ true
  pub no_allowlist : e.allowed_origins ≡ none
  pub no_redirects : (is_empty e.redirect_success ≡ true) × (is_empty e.redirect_error ≡ true)
  pub no_secret : is_empty e.csrf_secret ≡ true

-- An endpoint for browsers has no keys, and a secret for its tokens of 16 bytes or more if any.
pub record IsForm (e : EndpointConfig) : Type 0 where
  pub no_cache : is_zero e.idempotency_cache_size ≡ true
  pub no_keys : none_of e.api_keys ≡ true
  pub long_secret : (is_empty e.csrf_secret ≡ true) ⊎ (validate_secret e.csrf_secret ≡ true)
  pub ttl_positive : is_neg e.csrf_token_ttl ≡ false

keys_unblank :
    (i : ℕ) (keys : List Bytes)
    → check_keys i keys ≡ none
    → All (λ k. is_empty (trim_space k) ≡ false) keys
unfolding check_keys
keys_unblank i [] h = tt
keys_unblank i (k ∷ keys) h = (ground (arith, h), keys_unblank (suc i) keys (ground (arith, h)))

unset : {A : Type 0} (o : Option A) → is_set o ≡ false → o ≡ none
unset none h = refl
unset (some a) h = cc

check_api-IsApi : (e : EndpointConfig) → check_api e ≡ none → IsApi e
unfolding check_api
check_api-IsApi e h =
    let (keyed, h1) = first_of-none _ _ h in
    let (unblank, h2) = first_of-none _ _ h1 in
    let (honeypot, h3) = first_of-none _ _ h2 in
    let (origins, h4) = first_of-none _ _ h3 in
    let (success, h5) = first_of-none _ _ h4 in
    let (error, h6) = first_of-none _ _ h5 in
    let (secret, size) = first_of-none _ _ h6 in
    record {
      keyed = passes (none_of e.api_keys) _ keyed;
      unblank = keys_unblank 0 e.api_keys unblank;
      no_honeypot = let p = passes (not (is_empty e.honeypot)) _ honeypot in ground (arith, p);
      no_allowlist = unset e.allowed_origins (passes (is_set e.allowed_origins) _ origins);
      no_redirects = (
        (let p = passes (not (is_empty e.redirect_success)) _ success in ground (arith, p)),
        (let p = passes (not (is_empty e.redirect_error)) _ error in ground (arith, p)),
      );
      no_secret = let p = passes (not (is_empty e.csrf_secret)) _ secret in ground (arith, p);
    }

check_form-IsForm : (e : EndpointConfig) → check_form e ≡ none → IsForm e
unfolding check_form
check_form-IsForm e h =
    let (size, h1) = first_of-none _ _ h in
    let (keys, h2) = first_of-none _ _ h1 in
    let (secret, ttl) = first_of-none _ _ h2 in
    record {
      no_cache =
          let p = passes (not (is_zero e.idempotency_cache_size)) _ size in ground (arith, p);
      no_keys = let p = passes (not (none_of e.api_keys)) _ keys in ground (arith, p);
      long_secret = elim (Bool-cases (is_empty e.csrf_secret)) [
        | inl unset' ↦ inl unset'
        | inr set ↦
            let p =
              passes (not (is_empty e.csrf_secret) && not (validate_secret e.csrf_secret)) _
                secret in
            inr (ground (arith, p, set))
      ];
      ttl_positive = passes (is_neg e.csrf_token_ttl) _ ttl;
    }

-- The rate limit, if there is one, is positive.
abbrev pub IsPositive : Option RateLimitConfig → Type 0
IsPositive none = Unit
IsPositive (some limit) = (is_pos limit.count ≡ true) × (is_pos limit.interval ≡ true)

-- What validation gives.
pub record IsValid (parse : AddressParser) (sort_strings : List Bytes → List Bytes)
    (registry : Registry) (e : EndpointConfig) : Type 0 where
  pub rooted : has_prefix e.path (text "/") ≡ true
  pub recipients : (none_of e.to ≡ false) × All (λ addr. parses parse addr ≡ true) e.to
  pub sender_parses : parses parse e.sender ≡ true
  pub templates : (is_empty e.subject ≡ false) × (is_empty e.body ≡ false)
  pub sendable : validate_transport sort_strings registry e.transport ≡ none
  pub of_mode : ((is_api_key e ≡ true) × IsApi e) ⊎ ((is_api_key e ≡ false) × IsForm e)
  pub origins_listed : e.allowed_origins ≢ some []
  pub rates_positive : IsPositive e.rate_limit

addresses_parse :
    (parse : AddressParser) (to : List Bytes)
    → check_addresses parse to ≡ none
    → All (λ addr. parses parse addr ≡ true) to
unfolding check_addresses
addresses_parse parse [] h = tt
addresses_parse parse (addr ∷ to) h =
    (ground (arith, h), addresses_parse parse to (ground (arith, h)))

transport_passes :
    (sort_strings : List Bytes → List Bytes) (registry : Registry) (e : EndpointConfig)
    → check_transport sort_strings registry e.transport ≡ none
    → validate_transport sort_strings registry e.transport ≡ none
unfolding check_transport
transport_passes sort_strings registry e h =
    elim (Option-cases (validate_transport sort_strings registry e.transport)) [
      | inl v ↦ v
      | inr (bad, v) ↦
          let failed : check_transport sort_strings registry e.transport
              ≡ some (bad_transport bad) =
            rw (check_transport, v) refl in
          absurd cc
    ]

listed : (origins : Option (List Bytes)) → check_origins origins ≡ none → origins ≢ some []
unfolding check_origins
listed none h e = cc
listed (some []) h e = cc h
listed (some (o ∷ os)) h e = cc

positive : (rate : Option RateLimitConfig) → check_rate_limit rate ≡ none → IsPositive rate
unfolding check_rate_limit
positive none h = tt
positive (some limit) h =
    let (count, interval) = first_of-none _ _ h in
    let c = passes (not (is_pos limit.count)) _ count in
    let i = passes (not (is_pos limit.interval)) _ interval in
    (ground (arith, c), ground (arith, i))

mode_passes :
    (e : EndpointConfig)
    → check_mode e ≡ none
    → ((is_api_key e ≡ true) × IsApi e) ⊎ ((is_api_key e ≡ false) × IsForm e)
unfolding check_mode
mode_passes e h = elim (Bool-cases (is_api_key e)) [
  | inl api ↦ inl (api, check_api-IsApi e (ground (arith, h, api)))
  | inr form ↦ inr (form, check_form-IsForm e (ground (arith, h, form)))
]

-- An endpoint that Validate accepts has a path from the root, recipients and a sender that parse as
-- addresses, a subject, a body, and a transport whose settings are valid; a rate limit, if any, is
-- positive, and a list of allowed origins is not empty. With an API key as its mode it has keys,
-- none blank, and no defence or redirect for browsers; in form mode it has no keys and no size for
-- the idempotency cache, and its CSRF secret, if any, has 16 bytes or more.
pub validate_endpoint-IsValid :
    (parse : AddressParser) (sort_strings : List Bytes → List Bytes) (registry : Registry)
    (e : EndpointConfig)
    → validate_endpoint parse sort_strings registry e ≡ none
    → IsValid parse sort_strings registry e
unfolding validate_endpoint check_path check_to check_from check_templates
validate_endpoint-IsValid parse sort_strings registry e h =
    let (path, h1) = first_of-none _ _ h in
    let (to, h2) = first_of-none _ _ h1 in
    let (sender, h3) = first_of-none _ _ h2 in
    let (templates, h4) = first_of-none _ _ h3 in
    let (transport, h5) = first_of-none _ _ h4 in
    let (auth, h6) = first_of-none _ _ h5 in
    let (mode, h7) = first_of-none _ _ h6 in
    let (origins, rates) = first_of-none _ _ h7 in
    let (path1, path2) = first_of-none _ _ path in
    let (to1, to2) = first_of-none _ _ to in
    let (from1, from2) = first_of-none _ _ sender in
    let (subject, body) = first_of-none _ _ templates in
    let rooted = passes (not (has_prefix e.path (text "/"))) _ path2 in
    let parsed = passes (not (parses parse e.sender)) _ from2 in
    record {
      rooted = ground (arith, rooted);
      recipients = (passes (none_of e.to) _ to1, addresses_parse parse e.to to2);
      sender_parses = ground (arith, parsed);
      templates = (passes (is_empty e.subject) _ subject, passes (is_empty e.body) _ body);
      sendable = transport_passes sort_strings registry e transport;
      of_mode = mode_passes e mode;
      origins_listed = listed e.allowed_origins origins;
      rates_positive = positive e.rate_limit rates;
    }
