-- ===== src/Smtp/Relay/Data.antt =====
-- DATA and the guards: what is handed to the transport, and the state after it.
use caddy_formward.Base.{
  ℕ, ◌+◌, Bool, true, false, not, ◌&&◌, List, [], ◌++◌, ◌≡◌, ◌≢◌, refl, arith, length, min, ltb,
  Bool-cases, inl, inr, ◌⊎◌,
}
use caddy_formward.Base.Results.{Result, ok, err}
use caddy_formward.Text.{Bytes, text}
use caddy_formward.Transport.{Message, Outcome, sent, failed}
use caddy_formward.Smtp.Config.{none_of}
use caddy_formward.Smtp.Mime.{parse_mime_to_message}
use caddy_formward.Smtp.Session.{
  Listener, Session, Outside, Handshake, Output, handed, emit, write_reply, reset_transaction,
}
use caddy_formward.Smtp.Delivery.{
  DotText, dot_read, read_limit, too_big, finish_send, submit, receive, handle_data,
}
use caddy_formward.Smtp.Relay.{IsSafe, closed, reply-IsSafe}

-- No transaction is open, and nothing of the last one is left.
pub record IsIdle (s : Session) : Type 0 where
  pub transaction : s.transaction ≡ false
  pub mail_from : s.mail_from ≡ []
  pub rcpt_to : s.rcpt_to ≡ []

-- For states that a reset has built.
nothing_left :
    {lines : List Bytes} {tls : Handshake} {active cert : Bool} {user : Bytes}
    {output : List Output} {sends : ℕ}
    → IsIdle (record {
      lines = lines;
      tls = tls;
      tls_active = active;
      authed_user = user;
      authed_via_cert = cert;
      mail_from = [];
      rcpt_to = [];
      transaction = false;
      output = output;
      sends = sends;
    })
nothing_left = record { transaction = refl; mail_from = refl; rcpt_to = refl }

reset-IsIdle : (s : Session) → IsIdle (reset_transaction s)
unfolding reset_transaction
reset-IsIdle s = record { transaction = refl; mail_from = refl; rcpt_to = refl }

module _ (l : Listener) (w : Outside) where
  finish_send-IsIdle : (id : Bytes) (o : Outcome) (s : Session) → IsIdle (finish_send l w id o s)
  unfolding finish_send
  finish_send-IsIdle id (sent r) s = record { transaction = refl; mail_from = refl; rcpt_to = refl }
  finish_send-IsIdle id (failed e) s = record {
    transaction = refl;
    mail_from = refl;
    rcpt_to = refl;
  }

  sends-finish_send :
      (id : Bytes) (o : Outcome) (s : Session) → (finish_send l w id o s).sends ≡ s.sends
  unfolding finish_send
  sends-finish_send id (sent r) s = ground arith
  sends-finish_send id (failed e) s = ground arith

  unfoldable pub submitted : Result Bytes Message → Session → Session
  submitted (err e) s =
      reset_transaction (write_reply 550 (text "5.6.0 Malformed message: " ++ e) s)
  submitted (ok msg) s =
      finish_send l w (w.new_uuid s.sends) (w.send s.sends msg)
        (emit (handed msg) (record s { sends = s.sends + 1 }))

  submitted-IsIdle : (r : Result Bytes Message) (s : Session) → IsIdle (submitted r s)
  unfolding submitted
  submitted-IsIdle (err e) s = reset-IsIdle _
  submitted-IsIdle (ok msg) s = finish_send-IsIdle _ _ _

  pub submit-submitted :
      (blob : Bytes) (s : Session)
      → submit l w blob s ≡ submitted (parse_mime_to_message w.mime blob s.mail_from s.rcpt_to) s
  unfolding submit submitted
  submit-submitted blob s = ground arith

  receive-IsIdle : (d : DotText) (s : Session) → IsIdle (receive l w d s)
  unfolding receive
  receive-IsIdle d s =
      elim (Bool-cases (ltb (length d.content) (read_limit l.max_body) && not d.complete)) [
        | inl cut_off ↦ rw cut_off nothing_left
        | inr whole ↦
            rw whole
              (elim (Bool-cases
                (too_big l.max_body (min (read_limit l.max_body) (length d.content)))) [
                  | inl big ↦ rw big nothing_left
                  | inr fits ↦ rw (fits, submit-submitted) (submitted-IsIdle _ _)
                ])
      ]

  pub handle_data-IsSafe : (s : Session) → IsSafe l w s → IsSafe l w (handle_data l w s)
  unfolding handle_data
  handle_data-IsSafe s h =
      let d = dot_read s.lines in
      let begun = record (write_reply 354 (text "End data with <CR><LF>.<CR><LF>") s) {
        lines = d.rest;
      } in
      let idle = receive-IsIdle d begun in
      elim (Bool-cases (not s.transaction)) [
        | inl none_open ↦ rw none_open (reply-IsSafe l w s _ _ h)
        | inr opened ↦ rw opened (elim (Bool-cases (none_of s.rcpt_to)) [
          | inl nobody ↦ rw nobody (reply-IsSafe l w s _ _ h)
          | inr somebody ↦ rw somebody (elim (Bool-cases (w.write_ok (length s.output))) [
            | inl written ↦ rw written (closed l w _ idle.transaction idle.rcpt_to)
            | inr lost ↦ rw lost h
          ])
        ])
      ]

  -- What DATA does once its guards have passed and the prompt is out.
  abbrev pub begun : Session → Session
  begun s = record (write_reply 354 (text "End data with <CR><LF>.<CR><LF>") s) {
    lines = (dot_read s.lines).rest;
  }

  -- DATA reads a blob only in a transaction with recipients.
  pub handle_data-cases :
      (s : Session)
      → ((handle_data l w s).sends ≡ s.sends) × ((handle_data l w s).output ≡ s.output)
        ⊎ ((code : ℕ) × (msg : Bytes) × (handle_data l w s ≡ write_reply code msg s))
        ⊎ ((s.transaction ≡ true)
            × (s.rcpt_to ≢ [])
            × (handle_data l w s ≡ receive l w (dot_read s.lines) (begun s)))
  unfolding handle_data
  handle_data-cases s = elim (Bool-cases (not s.transaction)) [
    | inl none_open ↦ inr (inl (503, text "5.5.1 MAIL FROM required first", rw none_open))
    | inr opened ↦ rw opened (elim (Bool-cases (none_of s.rcpt_to)) [
      | inl nobody ↦ inr (inl (503, text "5.5.1 RCPT TO required first", rw nobody))
      | inr somebody ↦ rw somebody (elim (Bool-cases (w.write_ok (length s.output))) [
        | inl written ↦ inr (inr (ground arith, ground arith, rw written))
        | inr lost ↦ rw lost (inl (refl, refl))
      ])
    ])
  ]
