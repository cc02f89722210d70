-- ===== src/Config/Whole/Sound.antt =====
-- core/config/config.go: what holds of a configuration that passes its validation.
use caddy_formward.Base.{
  ℕ, suc, false, List, [], ◌∷◌, Option, none, some, ◌≡◌, ◌≢◌, refl, sym, arith, if◌then◌else◌,
  none_of, All, All-map, Option-cases, inl, inr,
}
use caddy_formward.Base.Int.{is_neg}
use caddy_formward.Base.Results.{first_of, first_of-none}
use caddy_formward.Text.{Bytes, bytes_eq_iff, is_empty, contains_text}
use caddy_formward.Gateway.Compose.{AddressParser}
use caddy_formward.Transport.Registry.{Registry, validate_transport}
use caddy_formward.Config.Endpoint.{EndpointConfig, validate_endpoint}
use caddy_formward.Config.Endpoint.Valid.{IsValid, validate_endpoint-IsValid}
use caddy_formward.Config.Whole.{
  SmtpListenerConfig, Config, duplicate_path, bad_endpoint, bad_listener, validate_listener,
  check_listener, check_endpoints, check_format, check_level, validate_config,
}

-- No two endpoints have one path.
abbrev pub AreDistinct : List EndpointConfig → Type 0
AreDistinct [] = Unit
AreDistinct (e ∷ endpoints) =
    All (λ (e' : EndpointConfig). e'.path ≢ e.path) endpoints × AreDistinct endpoints

module _ (sort_strings : List Bytes → List Bytes) (registry : Registry)
    (parse : AddressParser) where
  abbrev Unseen : List Bytes → EndpointConfig → Type 0
  Unseen seen e = contains_text e.path seen ≡ false

  other_path :
      (e : EndpointConfig) (seen : List Bytes) (e' : EndpointConfig)
      → Unseen (e.path ∷ seen) e'
      → e'.path ≢ e.path
  unfolding contains_text
  other_path e seen e' h same =
      let found = (bytes_eq_iff e.path e'.path).1 (sym same) in absurd (ground (arith, h, found))

  Unseen-before :
      (e : EndpointConfig) (seen : List Bytes) (e' : EndpointConfig)
      → Unseen (e.path ∷ seen) e'
      → Unseen seen e'
  unfolding contains_text
  Unseen-before e seen e' h = ground (arith, h)

  endpoints_sound :
      (i : ℕ) (seen : List Bytes) (es : List EndpointConfig)
      → check_endpoints sort_strings registry parse i seen es ≡ none
      → All (IsValid parse sort_strings registry) es × All (Unseen seen) es × AreDistinct es
  unfolding check_endpoints
  endpoints_sound i seen [] h = (tt, tt, tt)
  endpoints_sound i seen (e ∷ es) h =
      elim (Option-cases (validate_endpoint parse sort_strings registry e)) [
        | inr (bad, v) ↦
            let failed : check_endpoints sort_strings registry parse i seen (e ∷ es)
                ≡ some (bad_endpoint i bad) =
              rw (check_endpoints, v) refl in
            absurd cc
        | inl v ↦
            let next : check_endpoints sort_strings registry parse i seen (e ∷ es) ≡ (
                if contains_text e.path seen
                then some (duplicate_path e.path)
                else check_endpoints sort_strings registry parse (suc i) (e.path ∷ seen) es) =
              rw (check_endpoints, v) refl in
            let new : contains_text e.path seen ≡ false = ground (arith, next, h) in
            let (valid, unseen, distinct) =
              endpoints_sound (suc i) (e.path ∷ seen) es (ground (arith, next, h)) in
            (
              (validate_endpoint-IsValid parse sort_strings registry e v, valid),
              (
                new,
                All-map (Unseen (e.path ∷ seen)) (Unseen seen) es (Unseen-before e seen) unseen,
              ),
              (
                All-map (Unseen (e.path ∷ seen)) (λ e'. e'.path ≢ e.path) es (other_path e seen)
                    unseen,
                distinct,
              ),
            )
      ]

  -- What the validation of the listener's block gives.
  pub record IsListener (s : SmtpListenerConfig) : Type 0 where
    pub listens : is_empty s.listen ≡ false
    pub has_senders : none_of s.allowed_senders ≡ false
    pub sends : validate_transport sort_strings registry s.transport ≡ none
    pub no_negative :
        (is_neg s.max_recipients_per_session ≡ false) × (is_neg s.idle_timeout ≡ false)

  IsListener-sound :
      (s : SmtpListenerConfig) → validate_listener sort_strings registry s ≡ none → IsListener s
  unfolding validate_listener
  IsListener-sound s h =
      elim (Option-cases (validate_transport sort_strings registry s.transport)) [
        | inr (e, v) ↦ absurd (ground (arith, h, v))
        | inl v ↦ record {
          listens = ground (arith, h, v);
          has_senders = ground (arith, h, v);
          sends = v;
          no_negative = (ground (arith, h, v), ground (arith, h, v));
        }
      ]

  -- The block of the listener, if there is one, is valid.
  abbrev pub HasListener : Option SmtpListenerConfig → Type 0
  HasListener none = Unit
  HasListener (some s) = IsListener s

  check_listener_sound :
      (o : Option SmtpListenerConfig)
      → check_listener sort_strings registry o ≡ none
      → HasListener o
  unfolding check_listener
  check_listener_sound none h = tt
  check_listener_sound (some s) h =
      elim (Option-cases (validate_listener sort_strings registry s)) [
        | inl v ↦ IsListener-sound s v
        | inr (bad, v) ↦
            let failed : check_listener sort_strings registry (some s) ≡ some (bad_listener bad) =
              rw (check_listener, v) refl in
            absurd cc
      ]

  -- A configuration that Validate accepts has an endpoint, all its endpoints are valid, no two of
  -- them have one path, and the block of the SMTP listener, if there is one, is valid.
  pub validate_config_sound :
      (c : Config)
      → validate_config sort_strings registry parse c ≡ none
      → (none_of c.endpoints ≡ false)
        × All (IsValid parse sort_strings registry) c.endpoints
        × AreDistinct c.endpoints
        × HasListener c.smtp_listener
  unfolding validate_config
  validate_config_sound c h =
      let some_endpoint : none_of c.endpoints ≡ false = ground (arith, h) in
      let checks =
        first_of-none (check_endpoints sort_strings registry parse 0 [] c.endpoints)
          (first_of (check_format c.format)
            (first_of (check_level c.level) (check_listener sort_strings registry c.smtp_listener)))
          (ground (arith, h, some_endpoint)) in
      let (format, rest) = first_of-none _ _ checks.1 in
      let (level, listener) = first_of-none _ _ rest in
      let (valid, unseen, distinct) = endpoints_sound 0 [] c.endpoints checks.0 in
      (some_endpoint, valid, distinct, check_listener_sound c.smtp_listener listener)
