-- ===== src/Transport/SmtpOut/Headers.antt =====
-- core/transport/smtpout.go: the header fields that a reader finds in the message that is written.
use caddy_formward.Base.{
  ℕ, zero, suc, Bool, true, false, not, ◌&&◌, ◌||◌, List, [], ◌∷◌, ◌++◌, Option, none, some, ◌≡◌,
  refl, ap, ◌∙◌, arith, if◌then◌else◌, ◌==◌, if_rule, Bool-cases, inl, inr, drop,
}
use mathlib.Core.List.{append_assoc}
use caddy_formward.Text.{Bytes, text, is_empty, join, contains_any, cut, has_prefix}
use caddy_formward.Text.Search.{Without, cut-append}
use caddy_formward.Transport.{Message}
use caddy_formward.Transport.SmtpOut.{
  breaks, check_recipients, validate_no_header_crlf, needs_mime_encoding, write_header,
  encode_mime_subject, build_rfc5322,
}

-- A space or a tab, which continues the field of the line before.
abbrev starts_blank : Bytes → Bool
starts_blank [] = false
starts_blank (c ∷ s) = c == 32 || c == 9

-- A newline that ends a field: no continuation stands behind it.
abbrev ends_line : Bytes → Bool
ends_line [] = false
ends_line (c ∷ s) = c == 10 && not (starts_blank s)

abbrev push_byte : ℕ → Option (Bytes × Bytes) → Option (Bytes × Bytes)
push_byte c none = none
push_byte c (some (value, rest)) = some (c ∷ value, rest)

-- The value of a field, up to the first line break before which no continuation stands, and what
-- follows that line break.
unfoldable read_value : Bytes → Option (Bytes × Bytes)
read_value [] = none
read_value (c ∷ s) =
    let more = push_byte c (read_value s) in
    if c == 13 && ends_line s then some ([], drop 1 s) else more

-- A field: its name and its value.
abbrev pub Field : Type 0
Field = Bytes × Bytes

abbrev push_field : Field → Option (List Field × Bytes) → Option (List Field × Bytes)
push_field field none = none
push_field field (some (fields, body)) = some (field ∷ fields, body)

-- The fields of a message with fewer than `n` of them, each value without the space before it, and
-- the body after the empty line.
unfoldable pub read_fields : ℕ → Bytes → Option (List Field × Bytes)
unfolding read_value
read_fields zero s = none
read_fields (suc n) s =
    if has_prefix s (13 ∷ 10 ∷ []) then some ([], drop 2 s) else elim (cut 58 s) [
      | none ↦ none
      | some (name, after) ↦ elim (read_value after) [
        | none ↦ none
        | some (value, rest) ↦ push_field (name, drop 1 value) (read_fields n rest)
      ]
    ]

-- Every line break in a value is followed by a continuation.
unfoldable pub is_folded : Bytes → Bool
is_folded [] = true
is_folded (c ∷ v) = (not (c == 10) || starts_blank v) && is_folded v

starts_blank-append : (v t : Bytes) → starts_blank v ≡ true → starts_blank (v ++ t) ≡ true
starts_blank-append [] t h = cc
starts_blank-append (c ∷ v) t h = h

ends_within : (v t : Bytes) → is_folded v ≡ true → ends_line (v ++ (13 ∷ 10 ∷ t)) ≡ false
unfolding is_folded
ends_within [] t h = refl
ends_within (c ∷ v) t h =
    let blank = starts_blank-append v (13 ∷ 10 ∷ t) in
    elim (Bool-cases (starts_blank v)) [
      | inl b ↦ let b' = blank b in ground (arith, b')
      | inr b ↦ ground (arith, h, b)
    ]

read_value-append :
    (v t : Bytes)
    → is_folded v ≡ true
    → starts_blank t ≡ false
    → read_value (v ++ (13 ∷ 10 ∷ t)) ≡ some (v, t)
unfolding read_value is_folded
read_value-append [] t h k = rw k refl
read_value-append (c ∷ v) t h k =
    let folded : is_folded v ≡ true = ground (arith, h) in
    let inside = ends_within v t folded in
    let rest = read_value-append v t folded k in rw (inside, rest) ground arith

read_field :
    (n c : ℕ) (name value t : Bytes)
    → (c == 13) ≡ false
    → Without 58 (c ∷ name)
    → is_folded value ≡ true
    → starts_blank t ≡ false
    → read_fields (suc n) (write_header (c ∷ name) value ++ t)
      ≡ push_field (c ∷ name, value) (read_fields n t)
unfolding read_fields write_header has_prefix is_folded
read_field n c name value t nc h folded next =
    let shape : write_header (c ∷ name) value ++ t
        ≡ (c ∷ name) ++ (58 ∷ (32 ∷ value) ++ (13 ∷ 10 ∷ t)) =
      append_assoc (c ∷ name) (58 ∷ 32 ∷ value ++ (13 ∷ 10 ∷ [])) t
      ∙ ap (λ r. (c ∷ name) ++ (58 ∷ 32 ∷ r)) (append_assoc value (13 ∷ 10 ∷ []) t) in
    let named = cut-append 58 (c ∷ name) ((32 ∷ value) ++ (13 ∷ 10 ∷ t)) h in
    let ended = read_value-append (32 ∷ value) t folded next in
    ap (read_fields (suc n)) shape ∙ rw (nc, named, ended) refl

breaks_append : (a b : Bytes) → breaks a ≡ false → breaks b ≡ false → breaks (a ++ b) ≡ false
unfolding contains_any
breaks_append [] b h k = k
breaks_append (c ∷ a) b h k =
    let rest = breaks_append a b (ground (arith, h)) k in ground (arith, h, rest)

folded_plain : (v : Bytes) → breaks v ≡ false → is_folded v ≡ true
unfolding contains_any is_folded
folded_plain [] h = refl
folded_plain (c ∷ v) h = let rest = folded_plain v (ground (arith, h)) in ground (arith, h, rest)

joined_plain :
    (i : ℕ) (tos : List Bytes)
    → check_recipients i tos ≡ none
    → breaks (join (44 ∷ 32 ∷ []) tos) ≡ false
unfolding check_recipients join contains_any
joined_plain i [] h = refl
joined_plain i (to ∷ []) h = ground (arith, h)
joined_plain i (to ∷ to' ∷ tos) h =
    let rest = joined_plain (suc i) (to' ∷ tos) (ground (arith, h)) in
    let plain : breaks to ≡ false = ground (arith, h) in
    breaks_append to (44 ∷ 32 ∷ join (44 ∷ 32 ∷ []) (to' ∷ tos)) plain (ground (arith, rest))

-- What validateNoHeaderCRLF accepts.
record IsPlain (msg : Message) : Type 0 where
  sender_plain : breaks msg.sender ≡ false
  reply_plain : breaks msg.reply_to ≡ false
  subject_plain : breaks msg.subject ≡ false
  to_plain : check_recipients 0 msg.to ≡ none

validated : (msg : Message) → validate_no_header_crlf msg ≡ none → IsPlain msg
unfolding validate_no_header_crlf
validated msg h = record {
  sender_plain = ground (arith, h);
  reply_plain = ground (arith, h);
  subject_plain = ground (arith, h);
  to_plain = ground (arith, h);
}

subject_folded :
    (b_encode : Bytes → Bytes) (subject : Bytes)
    → breaks subject ≡ false
    → is_folded (b_encode subject) ≡ true
    → is_folded (encode_mime_subject b_encode subject) ≡ true
unfolding encode_mime_subject
subject_folded b_encode subject plain encoded =
    if_rule (λ v. is_folded v ≡ true) (not (needs_mime_encoding subject))
      (λ ascii. folded_plain subject plain) (λ other. encoded)

-- The fields after Reply-To.
abbrev late_fields : (b_encode : Bytes → Bytes) → (date : Bytes) → Message → List Field
late_fields b_encode date msg =
    (text "Subject", encode_mime_subject b_encode msg.subject)
    ∷ (text "Date", date)
    ∷ (text "MIME-Version", text "1.0")
    ∷ (text "Content-Type", text "text/plain; charset=\"utf-8\"")
    ∷ (text "Content-Transfer-Encoding", text "8bit")
    ∷ []

-- The fields of a message, with their values.
abbrev pub fields_of : (b_encode : Bytes → Bytes) → (date : Bytes) → Message → List Field
fields_of b_encode date msg =
    let late = late_fields b_encode date msg in
    (text "From", msg.sender)
    ∷ (text "To", join (44 ∷ 32 ∷ []) msg.to)
    ∷ (if not (is_empty msg.reply_to) then (text "Reply-To", msg.reply_to) ∷ late else late)

Without-colon : (s : Bytes) → contains_any s (λ c. c == 58) ≡ false → Without 58 s
unfolding contains_any
Without-colon [] h = tt
Without-colon (c ∷ s) h = (ground (arith, h), Without-colon s (ground (arith, h)))

-- A field and what is read after it.
next_field :
    (n c : ℕ) (name value t : Bytes) (fields : List Field) (body : Bytes)
    → (c == 13) ≡ false
    → contains_any (c ∷ name) (λ c. c == 58) ≡ false
    → starts_blank t ≡ false
    → is_folded value ≡ true
    → read_fields n t ≡ some (fields, body)
    → read_fields (suc n) (write_header (c ∷ name) value ++ t)
      ≡ some ((c ∷ name, value) ∷ fields, body)
next_field n c name value t names body nc plain next folded read =
    read_field n c name value t nc (Without-colon (c ∷ name) plain) folded next
    ∙ ap (push_field (c ∷ name, value)) read

-- The part of the message from Subject on.
late_part :
    (n : ℕ) (b_encode : Bytes → Bytes) (date : Bytes) (msg : Message)
    → is_folded (encode_mime_subject b_encode msg.subject) ≡ true
    → is_folded date ≡ true
    → read_fields (suc (suc (suc (suc (suc (suc n)))))) (
        write_header (text "Subject") (encode_mime_subject b_encode msg.subject)
        ++ (write_header (text "Date") date
            ++ (write_header (text "MIME-Version") (text "1.0")
                ++ (write_header (text "Content-Type") (text "text/plain; charset=\"utf-8\"")
                    ++ (write_header (text "Content-Transfer-Encoding") (text "8bit")
                        ++ (13 ∷ 10 ∷ msg.body_text))))))
      ≡ some (late_fields b_encode date msg, msg.body_text)
unfolding text write_header read_fields has_prefix contains_any is_folded
late_part n b_encode date msg hs hd =
    next_field (suc (suc (suc (suc (suc n))))) b'S' (text "ubject")
      (encode_mime_subject b_encode msg.subject) _ _ msg.body_text refl refl refl hs
      (next_field (suc (suc (suc (suc n)))) b'D' (text "ate") date _ _ msg.body_text refl refl refl
        hd
        (next_field (suc (suc (suc n))) b'M' (text "IME-Version") (text "1.0") _ _ msg.body_text
          refl refl refl refl
          (next_field (suc (suc n)) b'C' (text "ontent-Type") (text "text/plain; charset=\"utf-8\"")
            _ _ msg.body_text refl refl refl refl
            (next_field (suc n) b'C' (text "ontent-Transfer-Encoding") (text "8bit") _ _
              msg.body_text refl refl refl refl refl))))

-- A message that validateNoHeaderCRLF accepts, with an encoder and a date whose line breaks are all
-- continuations, is written with the fields From, To, Reply-To if there is one, Subject, Date,
-- MIME-Version, Content-Type and Content-Transfer-Encoding, and no other: a reader finds these
-- in this order, each with its own value of the message, and after them the body as it was.
pub read-build :
    (b_encode : Bytes → Bytes) (date : Bytes) (msg : Message)
    → validate_no_header_crlf msg ≡ none
    → is_folded (b_encode msg.subject) ≡ true
    → is_folded date ≡ true
    → read_fields 9 (build_rfc5322 b_encode date msg)
      ≡ some (fields_of b_encode date msg, msg.body_text)
unfolding build_rfc5322 text write_header contains_any is_folded
read-build b_encode date msg valid encoded dated =
    let plain = validated msg valid in
    let subject = encode_mime_subject b_encode msg.subject in
    let folded = subject_folded b_encode msg.subject plain.subject_plain encoded in
    let late' = late_fields b_encode date msg in
    let late : (n : ℕ) → _ = λ n. late_part n b_encode date msg folded dated in
    let rest : Bytes =
      write_header (text "Subject") subject
      ++ (write_header (text "Date") date
          ++ (write_header (text "MIME-Version") (text "1.0")
              ++ (write_header (text "Content-Type") (text "text/plain; charset=\"utf-8\"")
                  ++ (write_header (text "Content-Transfer-Encoding") (text "8bit")
                      ++ (13 ∷ 10 ∷ msg.body_text))))) in
    let optional : Bool → Bytes =
      λ b. (if not b then write_header (text "Reply-To") msg.reply_to else []) ++ rest in
    let reply =
      elim (is_empty msg.reply_to)
        as (λ b.
          read_fields 7 (optional b)
          ≡ some
              ((if not b then (text "Reply-To", msg.reply_to) ∷ late' else late'), msg.body_text)) [
                | true ↦ late 1
                | false ↦
                    next_field 6 b'R' (text "eply-To") msg.reply_to rest late' msg.body_text refl
                      refl refl (folded_plain msg.reply_to plain.reply_plain) (late 0)
              ] in
    let no_blank = elim (is_empty msg.reply_to) as (λ b. starts_blank (optional b) ≡ false) [
      | true ↦ refl
      | false ↦ refl
    ] in
    let to = join (44 ∷ 32 ∷ []) msg.to in
    next_field 8 b'F' (text "rom") msg.sender
      (write_header (text "To") to ++ optional (is_empty msg.reply_to)) _ msg.body_text refl refl
      refl (folded_plain msg.sender plain.sender_plain)
      (next_field 7 b'T' (text "o") to (optional (is_empty msg.reply_to)) _ msg.body_text refl refl
        no_blank (folded_plain to (joined_plain 0 msg.to plain.to_plain)) reply)
