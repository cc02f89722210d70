-- ===== src/Transport.antt =====
-- core/transport/transport.go: the message, the result and the classified errors that every
-- outbound transport shares. A transport is not under test here: it is a function of the number of
-- calls made before and of the message, so nothing is assumed of its answers.
pub mod Registry
pub mod Providers
pub mod SmtpOut
use caddy_formward.Base.{ℕ, List, [], ◌∷◌, Option, none, some}
use caddy_formward.Text.{Bytes, text}

pub record Message : Type 0 where
  pub sender : Bytes
  pub to : List Bytes
  pub reply_to : Bytes
  pub subject : Bytes
  pub body_text : Bytes

pub record SendResult : Type 0 where
  pub message_id : Bytes

pub data ErrorClass : Type 0 where
  unknown transient rate_limited terminal : ErrorClass

-- `ErrorClass.String`
unfoldable pub class_string : ErrorClass → Bytes
class_string transient = text "transient"
class_string rate_limited = text "rate_limited"
class_string terminal = text "terminal"
class_string unknown = text "unknown"

pub record TransportError : Type 0 where
  pub class : ErrorClass
  pub status : ℕ
  pub message : Bytes

-- One link of a chain of Go errors; `Unwrap` goes to the next.
pub data Link : Type 0 where
  classified : TransportError → Link
  plain : Bytes → Link

-- A non-nil error: its own link, and those that it wraps.
pub record Failure : Type 0 where
  pub outer : Link
  pub wrapped : List Link

-- The first `*TransportError` of the chain (`errors.As`).
unfoldable pub find_classified : List Link → Option TransportError
find_classified [] = none
find_classified (classified te ∷ rest) = some te
find_classified (plain m ∷ rest) = find_classified rest

unfoldable pub as_transport_error : Failure → Option TransportError
unfolding find_classified
as_transport_error e = find_classified (e.outer ∷ e.wrapped)

pub data Outcome : Type 0 where
  sent : SendResult → Outcome
  failed : Failure → Outcome

-- `Transport.Send`: the answer to the call with this number.
abbrev pub Transport : Type 0
Transport = ℕ → Message → Outcome
