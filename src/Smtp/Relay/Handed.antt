-- ===== src/Smtp/Relay/Handed.antt =====
-- What DATA hands to the transport: a message to the recipients of the transaction.
use caddy_formward.Base.{
  not, ◌&&◌, List, ◌≡◌, refl, arith, length, min, take, ltb, Bool-cases, inl, inr,
}
use caddy_formward.Base.Results.{Result, ok, err}
use caddy_formward.Text.{Bytes}
use caddy_formward.Transport.{Message, Outcome, sent, failed}
use caddy_formward.Smtp.Mime.{MimeLib, parse_mime_to_message}
use caddy_formward.Smtp.Session.{Listener, Session, Outside, write_reply, reset_transaction}
use caddy_formward.Smtp.Delivery.{DotText, read_limit, too_big, finish_send, receive, handle_data}
use caddy_formward.Smtp.Relay.{IsSafe}
use caddy_formward.Smtp.Relay.Addressed.{IsAddressed, Clean}
use caddy_formward.Smtp.Relay.Data.{submitted, submit-submitted, handle_data-cases, begun}

-- Where a blob parses to a message, the message has the recipients of the envelope, whatever
-- headers the blob has.
pub to-parse_mime :
    (lib : MimeLib) (blob sender : Bytes) (rcpts : List Bytes) {m : Message}
    → parse_mime_to_message lib blob sender rcpts ≡ ok m
    → m.to ≡ rcpts
unfolding parse_mime_to_message
to-parse_mime lib blob sender rcpts = ground arith

module _ (l : Listener) (w : Outside) where
  finish_send-Clean :
      (id : Bytes) (o : Outcome) (s : Session) → Clean l w s → Clean l w (finish_send l w id o s)
  unfolding finish_send
  finish_send-Clean id (sent r) s h = ground arith
  finish_send-Clean id (failed e) s h = ground arith

  submitted-Clean :
      (r : Result Bytes Message) (s : Session)
      → ((m : Message) → r ≡ ok m → IsAddressed l w m.to)
      → Clean l w s
      → Clean l w (submitted l w r s)
  unfolding submitted reset_transaction write_reply
  submitted-Clean (err e) s a h = (tt, h)
  submitted-Clean (ok m) s a h = finish_send-Clean _ _ _ (a m refl, h)

  receive-Clean :
      (d : DotText) (s : Session)
      → IsAddressed l w s.rcpt_to
      → Clean l w s
      → Clean l w (receive l w d s)
  unfolding receive
  receive-Clean d s a h =
      let limit = read_limit l.max_body in
      elim (Bool-cases (ltb (length d.content) limit && not d.complete)) [
        | inl cut_off ↦ rw cut_off (tt, h)
        | inr whole ↦
            rw whole (elim (Bool-cases (too_big l.max_body (min limit (length d.content)))) [
              | inl big ↦ rw big (tt, h)
              | inr fits ↦
                  rw (fits, submit-submitted)
                    (submitted-Clean _ s
                      (λ m e.
                        rw (to-parse_mime w.mime (take limit d.content) s.mail_from s.rcpt_to e) a)
                      h)
            ])
      ]

  pub data-Clean : (s : Session) → IsSafe l w s → Clean l w s → Clean l w (handle_data l w s)
  unfolding write_reply
  data-Clean s safe h = elim (handle_data-cases l w s) [
    | inl same ↦ rw (same.1) h
    | inr (inl (code, msg, e)) ↦ rw e (tt, h)
    | inr (inr (opened, somebody, e)) ↦ rw e (
        receive-Clean _ (begun l w s)
          (record { some_recipient = somebody; recipients = safe.recipients; capped = safe.capped })
          (tt, h))
  ]
