-- ===== src/Smtp/Mime.antt =====
-- core/smtp/parse.go: a DATA blob becomes a transport.Message. The packages net/mail, mime and
-- mime/multipart are the operations of `MimeLib`, of which nothing is assumed.
use caddy_formward.Base.{Bool, ◌||◌, List, ◌++◌, if◌then◌else◌}
use caddy_formward.Base.Results.{Result, ok, err, ◌>>=◌}
use caddy_formward.Text.{Bytes, text, is_empty, has_prefix}
use caddy_formward.Transport.{Message}

-- `mail.Message`; `io.ReadAll(m.Body)` is `body`.
pub record Mail : Type 0 where
  pub header : Bytes → Bytes
  pub body : Result Bytes Bytes

-- `mime.ParseMediaType` may return a type beside an error.
pub record MediaType : Type 0 where
  pub media : Bytes
  pub param : Bytes → Bytes
  pub invalid : Bool

-- `mr.NextPart()`: the parts, then io.EOF or another error.
pub data Parts : Type 0 where
  eof : Parts
  broken : Bytes → Parts
  part : (content_type : Bytes) (content : Result Bytes Bytes) → Parts → Parts

pub record MimeLib : Type 0 where
  pub read_message : Bytes → Result Bytes Mail
  pub decode_header : Bytes → Result Bytes Bytes
  pub parse_media_type : Bytes → MediaType
  pub multipart : Mail → Bytes → Parts

-- `fmt.Errorf("…: %w", err)`
abbrev context : Bytes → Result Bytes Bytes → Result Bytes Bytes
context what (ok s) = ok s
context what (err e) = err (what ++ e)

abbrev or_else : Result Bytes Bytes → Bytes → Bytes
or_else (ok s) d = s
or_else (err e) d = d

-- `mediaType == "" || strings.HasPrefix(mediaType, "text/plain")`
unfoldable pub is_plain : Bytes → Bool
is_plain media = is_empty media || has_prefix media (text "text/plain")

module _ (lib : MimeLib) where
  -- `readPlainTextFromMultipart`
  unfoldable pub read_plain_text_from_multipart : Parts → Result Bytes Bytes
  read_plain_text_from_multipart eof = err (text "multipart message has no text/plain part")
  read_plain_text_from_multipart (broken e) = err (text "multipart read: " ++ e)
  read_plain_text_from_multipart (part ct content rest) =
      let later = read_plain_text_from_multipart rest in
      if is_plain (lib.parse_media_type ct).media
      then context (text "read text/plain part: ") content
      else later

  unfoldable pub body_by_type : Mail → MediaType → Result Bytes Bytes
  unfolding read_plain_text_from_multipart
  body_by_type m t =
      if is_plain t.media
      then context (text "read body: ") m.body
      else if has_prefix t.media (text "text/html")
      then err (
          text
            "HTML-only message body not supported in v1.0; send multipart/alternative with a text/plain part")
      else if has_prefix t.media (text "multipart/")
      then (if is_empty (t.param (text "boundary"))
          then err (text "multipart Content-Type missing boundary")
          else read_plain_text_from_multipart (lib.multipart m (t.param (text "boundary"))))
      else err (text "unsupported Content-Type: " ++ t.media)

  -- `extractPlainTextBody`
  unfoldable pub extract_plain_text_body : Mail → Result Bytes Bytes
  unfolding body_by_type
  extract_plain_text_body m =
      let t = lib.parse_media_type (m.header (text "Content-Type")) in
      if t.invalid then context (text "read body: ") m.body else body_by_type m t

  -- The From header, decoded where that works, else the envelope's sender.
  unfoldable pub sender_of : Mail → Bytes → Bytes
  sender_of m envelope_from =
      let h = m.header (text "From") in
      let decoded = or_else (lib.decode_header h) h in
      if is_empty decoded then envelope_from else decoded

  unfoldable pub message_of : Mail → Bytes → List Bytes → Bytes → Message
  unfolding sender_of
  message_of m envelope_from envelope_rcpts body =
      let subject = m.header (text "Subject") in
      let reply_to = m.header (text "Reply-To") in
      record {
        sender = sender_of m envelope_from;
        to = envelope_rcpts;
        reply_to = or_else (lib.decode_header reply_to) reply_to;
        subject = or_else (lib.decode_header subject) subject;
        body_text = body;
      }

  -- `parseMIMEToMessage`
  unfoldable pub parse_mime_to_message : Bytes → Bytes → List Bytes → Result Bytes Message
  unfolding extract_plain_text_body message_of
  parse_mime_to_message blob envelope_from envelope_rcpts = elim (lib.read_message blob) [
    | err e ↦ err (text "parse MIME headers: " ++ e)
    | ok m ↦ do
      body ← extract_plain_text_body m
      ok (message_of m envelope_from envelope_rcpts body)
  ]
