-- ===== src/Gateway/Compose.antt =====
-- core/gateway/handler.go: the part of ServeHTTP that makes the message of a valid submission, from
-- the rendered subject and body on. `parse` is net/mail's ParseAddress.
use caddy_formward.Base.{
  Bool, true, not, List, [], ◌∷◌, Option, none, some, ◌≡◌, refl, subst, arith, if◌then◌else◌, All,
  if_rule, Bool-cases, inl, inr, ◌⊎◌,
}
use caddy_formward.Base.Results.{Result, ok, err, ◌>>=◌, bind-eq-ok}
use caddy_formward.Text.{Bytes, text, is_empty, trim_space}
use caddy_formward.Transport.{Message}
use caddy_formward.Spam.Checks.{Form}
use caddy_formward.Validate.{email}

-- What the handler reads of its configuration; `email_field` has its default.
pub record Endpoint : Type 0 where
  pub sender : Bytes
  pub to : List Bytes
  pub api_mode : Bool
  pub email_field : Bytes
  pub reply_to_email_field : Bytes

-- The answers 422 to an override.
pub data Refusal : Type 0 where
  no_address : Refusal
  invalid_addresses : List Bytes → Refusal

abbrev pub AddressParser : Type 0
AddressParser = Bytes → Option (Bytes × Bytes)

-- `url.Values.Get`
unfoldable pub form_get : Form → Bytes → Bytes
form_get form name = elim (form name) [
  | none ↦ []
  | some values ↦ elim values [ [] ↦ [] | v ∷ _ ↦ v ]
]

-- The loop over the override: the validated addresses, trimmed, and the invalid ones.
unfoldable pub check_override : AddressParser → List Bytes → List Bytes × List Bytes
check_override parse [] = ([], [])
check_override parse (addr ∷ rest) =
    let (validated, invalid) = check_override parse rest in
    if not (email parse (trim_space addr))
    then (validated, addr ∷ invalid)
    else (trim_space addr ∷ validated, invalid)

unfoldable pub refuse_invalid : List Bytes × List Bytes → Result Refusal (List Bytes)
refuse_invalid (validated, []) = ok validated
refuse_invalid (validated, bad ∷ more) = err (invalid_addresses (bad ∷ more))

unfoldable pub override_addresses :
    AddressParser → (to : List Bytes) → Option (List Bytes) → Result Refusal (List Bytes)
unfolding check_override refuse_invalid
override_addresses parse to none = ok to
override_addresses parse to (some []) = err no_address
override_addresses parse to (some (a ∷ rest)) = refuse_invalid (check_override parse (a ∷ rest))

-- The recipients: the override of an API request, else the configured ones.
unfoldable pub to_addresses : AddressParser → Endpoint → Form → Result Refusal (List Bytes)
unfolding override_addresses
to_addresses parse cfg form =
    if cfg.api_mode then override_addresses parse cfg.to (form (text "to_override")) else ok cfg.to

-- The Reply-To header, which stays empty where the field has no address.
unfoldable pub reply_to_of : AddressParser → Endpoint → Form → Bytes
unfolding form_get
reply_to_of parse cfg form =
    let field =
      if is_empty cfg.reply_to_email_field then cfg.email_field else cfg.reply_to_email_field in
    let v = trim_space (form_get form field) in
    if not (is_empty v) then (if email parse v then v else []) else []

unfoldable pub compose :
    AddressParser → Endpoint → Form → (subject body : Bytes) → Result Refusal Message
unfolding to_addresses reply_to_of
compose parse cfg form subject body = do
  to ← to_addresses parse cfg form
  ok (record {
    sender = cfg.sender;
    to = to;
    reply_to = reply_to_of parse cfg form;
    subject = subject;
    body_text = body;
  })

-- The addresses that pass the syntax check.
abbrev pub Valid : AddressParser → List Bytes → Type 0
Valid parse = All (λ a. email parse a ≡ true)

Valid-check_override :
    (parse : AddressParser) (addrs : List Bytes) → Valid parse (check_override parse addrs).0
unfolding check_override
Valid-check_override parse [] = tt
Valid-check_override parse (addr ∷ rest) =
    let later = Valid-check_override parse rest in ground (arith, later)

Valid-refuse_invalid :
    (parse : AddressParser) (r : List Bytes × List Bytes) {to : List Bytes}
    → Valid parse r.0
    → refuse_invalid r ≡ ok to
    → Valid parse to
unfolding refuse_invalid
Valid-refuse_invalid parse (validated, []) h e = subst (Valid parse) (cc e) h
Valid-refuse_invalid parse (validated, bad ∷ more) h e = cc e

-- Where the recipients come from.
override_source :
    (parse : AddressParser) (cfg_to : List Bytes) (o : Option (List Bytes)) {to : List Bytes}
    → override_addresses parse cfg_to o ≡ ok to
    → (to ≡ cfg_to) ⊎ Valid parse to
unfolding override_addresses
override_source parse cfg_to none e = inl (cc e)
override_source parse cfg_to (some []) e = cc e
override_source parse cfg_to (some (a ∷ rest)) e = inr (
    Valid-refuse_invalid parse (check_override parse (a ∷ rest))
      (Valid-check_override parse (a ∷ rest)) e)

to_source :
    (parse : AddressParser) (cfg : Endpoint) (form : Form) {to : List Bytes}
    → to_addresses parse cfg form ≡ ok to
    → (to ≡ cfg.to) ⊎ ((cfg.api_mode ≡ true) × Valid parse to)
unfolding to_addresses
to_source parse cfg form {to} e = elim (Bool-cases cfg.api_mode) [
  | inl api ↦
      let source =
        override_source parse cfg.to (form (text "to_override")) {to = to} (rw api at e) in
      elim source [ inl same ↦ inl same | inr valid ↦ inr (api, valid) ]
  | inr page ↦ inl (let same = rw page at e in cc same)
]

reply_to_email :
    (parse : AddressParser) (cfg : Endpoint) (form : Form)
    → (reply_to_of parse cfg form ≡ []) ⊎ (email parse (reply_to_of parse cfg form) ≡ true)
unfolding reply_to_of
reply_to_email parse cfg form =
    let field : Bytes =
      if is_empty cfg.reply_to_email_field then cfg.email_field else cfg.reply_to_email_field in
    let v = trim_space (form_get form field) in
    let Fine = λ (x : Bytes). (x ≡ []) ⊎ (email parse x ≡ true) in
    if_rule Fine (not (is_empty v))
      (λ some'. if_rule Fine (email parse v) (λ valid. inr valid) (λ bad. inl refl))
      (λ none'. inl refl)

-- A composed message goes to the configured recipients, or, only in API mode, to addresses that
-- pass the syntax check, and its Reply-To is empty or an address that passes it, whatever the form
-- holds.
pub compose_lem :
    (parse : AddressParser) (cfg : Endpoint) (form : Form) (subject body : Bytes) {m : Message}
    → compose parse cfg form subject body ≡ ok m
    → ((m.to ≡ cfg.to) ⊎ ((cfg.api_mode ≡ true) × Valid parse m.to))
      × ((m.reply_to ≡ []) ⊎ (email parse m.reply_to ≡ true))
unfolding compose
compose_lem parse cfg form subject body {m} e =
    let message : List Bytes → Message = λ to. record {
      sender = cfg.sender;
      to = to;
      reply_to = reply_to_of parse cfg form;
      subject = subject;
      body_text = body;
    } in
    let (to, found, made) =
      bind-eq-ok (to_addresses parse cfg form) (λ (to : List Bytes). ok (message to)) e in
    let same : message to ≡ m = cc made in
    subst
      (λ (m : Message).
        ((m.to ≡ cfg.to) ⊎ ((cfg.api_mode ≡ true) × Valid parse m.to))
        × ((m.reply_to ≡ []) ⊎ (email parse m.reply_to ≡ true)))
      same (to_source parse cfg form found, reply_to_email parse cfg form)
