-- ===== src/Smtp/Delivery.antt =====
-- core/smtp/session.go: DATA, from the reading of the blob to the call of the transport.
pub mod Stuffed
use caddy_formward.Base.{
  ℕ, ◌+◌, ◌^◌, Bool, true, false, not, ◌&&◌, List, [], ◌∷◌, ◌++◌, Option, none, some, ltb,
  if◌then◌else◌, length, take, min,
}
use caddy_formward.Base.Int.{ℤ, pos, negsuc}
use caddy_formward.Base.Results.{ok, err}
use caddy_formward.Text.{Bytes, text, bytes_eq}
use caddy_formward.Transport.{
  Failure, Outcome, sent, failed, TransportError, class_string, as_transport_error,
}
use caddy_formward.Smtp.Config.{none_of}
use caddy_formward.Smtp.Mime.{parse_mime_to_message}
use caddy_formward.Smtp.Session.{
  Listener, handed, metric_sent, metric_failed, Session, Outside, emit, write_reply,
  reset_transaction,
}

-- What `textproto.Reader.DotReader` reads: whether the closing `.` line came, and the lines
-- behind it.
pub record DotText : Type 0 where
  pub content : Bytes
  pub complete : Bool
  pub rest : List Bytes

unfoldable pub unstuff : Bytes → Bytes
unstuff [] = []
unstuff (c ∷ s) = if bytes_eq (c ∷ []) (text ".") then s else c ∷ s

unfoldable pub dot_read : List Bytes → DotText
unfolding unstuff
dot_read [] = record { content = []; complete = false; rest = [] }
dot_read (line ∷ lines) =
    let later = dot_read lines in
    if bytes_eq line (text ".")
    then record { content = []; complete = true; rest = lines }
    else record later { content = unstuff line ++ (b'\n' ∷ later.content) }

-- How much `io.LimitReader(r, s.l.maxBody+1)` lets through: the sum is an int64.
unfoldable pub read_limit : ℤ → ℕ
read_limit (pos n) = if ltb (n + 1) (2 ^ 63) then n + 1 else 0
read_limit (negsuc n) = 0

-- `s.l.maxBody > 0 && n > s.l.maxBody`
unfoldable pub too_big : ℤ → ℕ → Bool
too_big (pos m) n = ltb 0 m && ltb m n
too_big (negsuc m) n = false

error_class : Option TransportError → Bytes
error_class none = text "unknown"
error_class (some te) = class_string te.class

module _ (l : Listener) where
  -- `recordSendOk`
  unfoldable pub record_send_ok : Session → Session
  record_send_ok s =
      if l.recorder then emit (metric_sent (text "smtp_listener") l.cfg.transport_type) s else s

  -- `recordSendFailed`
  unfoldable pub record_send_failed : Failure → Session → Session
  unfolding error_class
  record_send_failed e s =
      if l.recorder
      then emit
          (metric_failed (text "smtp_listener") l.cfg.transport_type
            (error_class (as_transport_error e)))
          s
      else s

module _ (l : Listener) (w : Outside) where
  -- After the transport has answered.
  unfoldable pub finish_send : Bytes → Outcome → Session → Session
  unfolding write_reply record_send_ok record_send_failed reset_transaction
  finish_send id (failed e) s =
      reset_transaction
        (record_send_failed l e (write_reply 451 (text "4.0.0 Upstream transport failed") s))
  finish_send id (sent r) s =
      reset_transaction (record_send_ok l (write_reply 250 (text "2.0.0 OK queued as " ++ id) s))

  unfoldable pub submit : Bytes → Session → Session
  unfolding finish_send
  submit blob s = elim (parse_mime_to_message w.mime blob s.mail_from s.rcpt_to) [
    | err e ↦ reset_transaction (write_reply 550 (text "5.6.0 Malformed message: " ++ e) s)
    | ok msg ↦
        finish_send (w.new_uuid s.sends) (w.send s.sends msg)
          (emit (handed msg) (record s { sends = s.sends + 1 }))
  ]

  -- From the copy out of the limited reader on.
  unfoldable pub receive : DotText → Session → Session
  unfolding submit
  receive d s =
      let limit = read_limit l.max_body in
      let n = min limit (length d.content) in
      if ltb (length d.content) limit && not d.complete
      then reset_transaction (write_reply 451 (text "4.3.0 Read error") s)
      else if too_big l.max_body n
      then reset_transaction (write_reply 552 (text "5.3.4 Message too big") s)
      else submit (take limit d.content) s

  -- `handleDATA`
  unfoldable pub handle_data : Session → Session
  unfolding write_reply receive
  handle_data s =
      let d = dot_read s.lines in
      if not s.transaction
      then write_reply 503 (text "5.5.1 MAIL FROM required first") s
      else if none_of s.rcpt_to
      then write_reply 503 (text "5.5.1 RCPT TO required first") s
      else if w.write_ok (length s.output)
      then receive d
          (record (write_reply 354 (text "End data with <CR><LF>.<CR><LF>") s) { lines = d.rest })
      else s
