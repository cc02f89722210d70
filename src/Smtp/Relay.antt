-- ===== src/Smtp/Relay.antt =====
-- The open-relay guards of core/smtp, as an invariant of every session.
pub mod Data
pub mod Addressed
pub mod Handed
pub mod Sessions
pub mod Authorized
use caddy_formward.Base.{
  ltb, drop, take, ℕ, ◌≤◌, ◌<◌, Bool, true, false, not, ◌&&◌, ◌||◌, List, [], ◌∷◌, ◌++◌, Option,
  none, some, ◌≡◌, refl, ap, arith, length, All, All-append, length-append, Bool-cases, inl, inr,
  if◌then◌else◌, if_rule,
}
use caddy_formward.Text.{
  Bytes, text, is_empty, bytes_eq, bytes_eq_iff, trim_space, split_n, equal_fold,
}
use caddy_formward.Smtp.Config.{AuthMode, ListenerConfig, User, effective_max_recipients}
use caddy_formward.Smtp.Envelope.{extract_envelope_address, matches_allowlist}
use caddy_formward.Smtp.Session.{
  Listener, Session, Outside, Output, emit, missing_for, Handshake, hang_up, fails, succeeds,
  write_reply, reset_transaction, can_advertise_auth, auth_required_and_missing, tls_missing,
}
use caddy_formward.Smtp.Commands.{
  handle_ehlo, handle_helo, handle_starttls, handle_auth, handle_mail, handle_rcpt, at_cap,
  recipient_refused, verify_user, upgrade, check_parts, check_credentials, read_credentials,
  plain_response, auth_plain,
}

-- What an open transaction guarantees about the session.
pub record IsSafe (l : Listener) (w : Outside) (s : Session) : Type 0 where
  pub allowed : s.transaction ≡ true → matches_allowlist s.mail_from l.cfg.allowed_senders ≡ true
  pub encrypted : s.transaction ≡ true → tls_missing l s ≡ false
  pub authed : s.transaction ≡ true → auth_required_and_missing l s ≡ false
  pub recipients : All (λ a. recipient_refused l w a ≡ false) s.rcpt_to
  pub capped :
      0 < effective_max_recipients l.cfg → length s.rcpt_to ≤ effective_max_recipients l.cfg

-- Every user that AUTH can match has a name.
abbrev pub Named : List User → Type 0
Named = All (λ u. is_empty u.username ≡ false)

-- The guards read these fields only.
record SameGuards (s t : Session) : Type 0 where
  transaction : t.transaction ≡ s.transaction
  mail_from : t.mail_from ≡ s.mail_from
  rcpt_to : t.rcpt_to ≡ s.rcpt_to
  tls_active : t.tls_active ≡ s.tls_active
  authed_user : t.authed_user ≡ s.authed_user
  authed_via_cert : t.authed_via_cert ≡ s.authed_via_cert

verify_user-Named :
    (l : Listener) (w : Outside) (us : List User) (user pass : Bytes)
    → Named us
    → verify_user l w us user pass ≡ true
    → is_empty user ≡ false
unfolding verify_user
verify_user-Named l w [] user pass h e = cc
verify_user-Named l w (u ∷ us) user pass h e =
    ground (arith, bytes_eq_iff u.username user, h.0, verify_user-Named l w us user pass h.1)

-- For states that differ in the other fields only.
same_fields :
    {s : Session} {lines : List Bytes} {tls : Handshake} {output : List Output} {sends : ℕ}
    → SameGuards s (record s { lines = lines; tls = tls; output = output; sends = sends })
same_fields = record {
  transaction = refl;
  mail_from = refl;
  rcpt_to = refl;
  tls_active = refl;
  authed_user = refl;
  authed_via_cert = refl;
}

missing_for-named :
    (m : AuthMode) (old user : Bytes) (cert : Bool)
    → is_empty user ≡ false
    → missing_for m old cert ≡ false
    → missing_for m user cert ≡ false
unfolding missing_for
missing_for-named m old user cert named h = ground arith

module _ (l : Listener) (w : Outside) where
  unchanged : (s t : Session) → SameGuards s t → IsSafe l w s → IsSafe l w t
  unfolding auth_required_and_missing
  unchanged s t e h = record {
    allowed = rw (e.transaction, e.mail_from) h.allowed;
    encrypted = rw (e.transaction, e.tls_active) h.encrypted;
    authed = rw (e.transaction, e.authed_user, e.authed_via_cert) h.authed;
    recipients = rw e.rcpt_to h.recipients;
    capped = rw e.rcpt_to h.capped;
  }

  -- With no transaction open there is nothing to guard.
  closed : (s : Session) → s.transaction ≡ false → s.rcpt_to ≡ [] → IsSafe l w s
  closed s t r = record {
    allowed = λ e. cc;
    encrypted = λ e. cc;
    authed = λ e. cc;
    recipients = rw r tt;
    capped = λ _. rw r (omega arith);
  }

module _ (l : Listener) (w : Outside) where
  emit-IsSafe : (s : Session) (o : Output) → IsSafe l w s → IsSafe l w (emit o s)
  emit-IsSafe s o h = unchanged l w s _ same_fields h

  pub reply-IsSafe :
      (s : Session) (code : ℕ) (msg : Bytes) → IsSafe l w s → IsSafe l w (write_reply code msg s)
  unfolding write_reply
  reply-IsSafe s code msg h = emit-IsSafe s _ h

  pub ehlo-IsSafe : (s : Session) → IsSafe l w s → IsSafe l w (handle_ehlo l w s)
  unfolding handle_ehlo
  ehlo-IsSafe s h = emit-IsSafe s _ h

  pub reset-IsSafe : (s : Session) → IsSafe l w (reset_transaction s)
  unfolding reset_transaction
  reset-IsSafe s = closed l w _ refl refl

  upgrade-IsSafe : (hs : Handshake) (s : Session) → IsSafe l w s → IsSafe l w (upgrade l w hs s)
  unfolding upgrade
  upgrade-IsSafe hang_up s h = unchanged l w s _ same_fields h
  upgrade-IsSafe (fails left next) s h = unchanged l w s _ same_fields h
  upgrade-IsSafe (succeeds verified lines) s h = closed l w _ refl refl

  pub starttls-IsSafe : (s : Session) → IsSafe l w s → IsSafe l w (handle_starttls l w s)
  unfolding handle_starttls auth_required_and_missing
  starttls-IsSafe s h = ground (
    arith,
    upgrade-IsSafe s.tls (write_reply 220 (text "2.0.0 Ready to start TLS") s)
        (reply-IsSafe s 220 (text "2.0.0 Ready to start TLS") h),
    h,
  )

  pub mail-IsSafe : (arg : Bytes) (s : Session) → IsSafe l w s → IsSafe l w (handle_mail l w arg s)
  unfolding handle_mail auth_required_and_missing
  mail-IsSafe arg s h = ground arith

  append_recipient :
      (addr : Bytes) (s : Session)
      → IsSafe l w s
      → at_cap l w s ≡ false
      → recipient_refused l w addr ≡ false
      → IsSafe l w (record s { rcpt_to = s.rcpt_to ++ addr ∷ [] })
  unfolding at_cap auth_required_and_missing
  append_recipient addr s h room fine = record {
    allowed = h.allowed;
    encrypted = h.encrypted;
    authed = h.authed;
    recipients = All-append _ s.rcpt_to (addr ∷ []) h.recipients (fine, tt);
    capped = ground (arith, length-append s.rcpt_to (addr ∷ []));
  }

  pub rcpt-IsSafe : (arg : Bytes) (s : Session) → IsSafe l w s → IsSafe l w (handle_rcpt l w arg s)
  unfolding handle_rcpt auth_required_and_missing
  rcpt-IsSafe arg s h =
      ground (arith, append_recipient (extract_envelope_address arg (text "TO:")) s h)

  -- A named user lifts the demand for authentication for good.
  login-IsSafe :
      (user : Bytes) (s : Session)
      → is_empty user ≡ false
      → IsSafe l w s
      → IsSafe l w (record s { authed_user = user })
  unfolding auth_required_and_missing
  login-IsSafe user s named h = record {
    allowed = h.allowed;
    encrypted = h.encrypted;
    authed = λ t. missing_for-named _ _ _ _ named (h.authed t);
    recipients = h.recipients;
    capped = h.capped;
  }

module _ (l : Listener) (w : Outside)
    (users : can_advertise_auth l ≡ true → Named l.cfg.smtp_users) where
  check_parts-IsSafe :
      (parts : List Bytes) (s : Session)
      → can_advertise_auth l ≡ true
      → IsSafe l w s
      → IsSafe l w (check_parts l w parts s)
  unfolding check_parts auth_required_and_missing
  check_parts-IsSafe (a ∷ user ∷ pass ∷ []) s can h = ground (
    arith,
    login-IsSafe l w user s,
    h,
    verify_user-Named l w l.cfg.smtp_users user pass (users can),
  )
  check_parts-IsSafe _ s can h = reply-IsSafe l w s _ _ h

  credentials-IsSafe :
      (creds : Bytes) (s : Session)
      → can_advertise_auth l ≡ true
      → IsSafe l w s
      → IsSafe l w (check_credentials l w creds s)
  unfolding check_credentials
  credentials-IsSafe creds s can h =
      elim (w.decode_base64 creds)
        as (λ o. IsSafe l w (elim o [
          | none ↦ write_reply 535 (text "5.7.8 Malformed AUTH credentials") s
          | some raw ↦ check_parts l w (split_n 3 0 raw) s
        ])) [
          | none ↦ reply-IsSafe l w s _ _ h
          | some raw ↦ check_parts-IsSafe (split_n 3 0 raw) s can h
        ]

  read-IsSafe :
      (lines : List Bytes) (s : Session)
      → can_advertise_auth l ≡ true
      → IsSafe l w s
      → IsSafe l w (read_credentials l w lines s)
  unfolding read_credentials
  read-IsSafe [] s can h = h
  read-IsSafe (line ∷ rest) s can h =
      credentials-IsSafe line _ can (unchanged l w s _ same_fields h)

  plain_response-IsSafe :
      (creds : Bytes) (s : Session)
      → can_advertise_auth l ≡ true
      → IsSafe l w s
      → IsSafe l w (plain_response l w creds s)
  plain_response-IsSafe creds s can h = elim (Bool-cases (is_empty creds)) [
    | inl none_given ↦
        unfold plain_response in
        rw none_given (read-IsSafe s.lines _ can (reply-IsSafe l w s 334 [] h))
    | inr given ↦ unfold plain_response in rw given (credentials-IsSafe creds s can h)
  ]

  auth_plain-IsSafe :
      (arg : Bytes) (s : Session)
      → can_advertise_auth l ≡ true
      → IsSafe l w s
      → IsSafe l w (auth_plain l w arg s)
  unfolding auth_plain
  auth_plain-IsSafe arg s can h =
      let plain = plain_response-IsSafe (trim_space (drop 5 arg)) s can h in
      let other =
        reply-IsSafe l w s 504 (text "5.5.4 Auth mechanism not supported (PLAIN only)") h in
      elim (Bool-cases (ltb (length arg) 5 || not (equal_fold (take 5 arg) (text "PLAIN")))) [
        | inl bad ↦ rw bad other
        | inr good ↦ rw good plain
      ]

  pub auth-IsSafe : (arg : Bytes) (s : Session) → IsSafe l w s → IsSafe l w (handle_auth l w arg s)
  unfolding handle_auth
  auth-IsSafe arg s h = elim (Bool-cases (tls_missing l s)) [
    | inl bare ↦ rw bare (reply-IsSafe l w s _ _ h)
    | inr covered ↦ rw covered (elim (Bool-cases (can_advertise_auth l)) [
      | inr no_auth ↦ rw no_auth (reply-IsSafe l w s _ _ h)
      | inl can ↦ rw can (auth_plain-IsSafe arg s can h)
    ])
  ]
