-- ===== src/Smtp/Commands/Mail.antt =====
-- What MAIL FROM does to the count of recipients.
use caddy_formward.Base.{true, false, [], ◌≡◌, ◌⊎◌, arith}
use caddy_formward.Text.{Bytes, text}
use caddy_formward.Smtp.Envelope.{extract_envelope_address, matches_allowlist}
use caddy_formward.Smtp.Session.{Listener, Session, Outside, write_reply, reset_transaction}
use caddy_formward.Smtp.Commands.{handle_mail, at_cap}

-- MAIL FROM either leaves the transaction as it is, or opens one for the address of its argument,
-- which is on the sender allowlist, with no recipients and below the cap, however many recipients
-- the session has had before.
pub handle_mail_lem :
    (l : Listener) (w : Outside) (arg : Bytes) (s : Session)
    → let t = handle_mail l w arg s in
      ((t.transaction ≡ s.transaction) × (t.mail_from ≡ s.mail_from) × (t.rcpt_to ≡ s.rcpt_to))
      ⊎ ((t.transaction ≡ true)
          × (t.mail_from ≡ extract_envelope_address arg (text "FROM:"))
          × (matches_allowlist t.mail_from l.cfg.allowed_senders ≡ true)
          × (t.rcpt_to ≡ [])
          × (at_cap l w t ≡ false))
unfolding handle_mail write_reply reset_transaction at_cap
handle_mail_lem l w arg s = ground arith
