-- ===== src/Tests/Web.antt =====
-- HTTP requests with concrete headers, forms and answers.
use mathlib.Core.List.{reverse}
use caddy_formward.Base.{
  ℕ, ◌≢◌, true, false, not, List, [], ◌∷◌, ◌++◌, none, some, ◌≡◌, ◌↔◌, ◌⊎◌, refl, arith, All, Any,
  if◌then◌else◌, drop, take,
}
use caddy_formward.Text.{
  Bytes, text, is_empty, trim_space, equal_fold, contains_text, bytes_eq, split,
}
use caddy_formward.Transport.{Message, failed, Transport, classified, transient}
use caddy_formward.Idempotency.{Cache, Entry, Response, lookup, claim_in_flight, holds_live}
use caddy_formward.Gateway.Auth.{authenticate_api_request, authenticate_api_request_iff}
use caddy_formward.Gateway.Retry.{Followed, send_with_retry, send_with_retry_lem}
use caddy_formward.Idempotency.Claims.{Call, look, perform_all, claim}
use caddy_formward.Gateway.Admit.{admit, admitted, admit_excludes}
use caddy_formward.Gateway.Compose.{AddressParser, Endpoint, Valid, compose, compose_lem}
use caddy_formward.Validate.{email}
use caddy_formward.Gateway.Recorder.{fresh, recorder, finalize_idempotent}
use caddy_formward.Gateway.Recorder.Faithful.{finalize-claim}
use caddy_formward.Ratelimit.ClientIp.{NetLib, client_ip, remote_ip, ip_in_prefixes}
use caddy_formward.Ratelimit.ClientIp.Forged.{passed, client_ip_forwarded}
use caddy_formward.Spam.Checks.{
  Form, UrlLib, pass, silent_reject, check_honeypot, check_honeypot_iff, check_origin,
  origin_from_referer,
}
use caddy_formward.Spam.Checks.Origin.{IsListed, check_origin_iff}
use caddy_formward.Validate.{required_fields, IsFilled, required_fields_iff}
use caddy_formward.Base.Results.{ok}
use caddy_formward.Base.Int.{pos}
use caddy_formward.Csrf.{CryptoLib, verify, issue, expired, IsFresh, verify-issue}
use caddy_formward.Response.{validation, first_error, fields-validation}
use caddy_formward.Tests.Limits.{memory, cache, key}

abbrev pub bearer : Bytes
bearer = text "bearer secret"

authenticate_api_request_iff_example :
    (authenticate_api_request (text "secret" ∷ []) bearer ≡ (text "secret", true)) ↔ (
      (is_empty (text "secret") ≡ false)
      × (drop 7 bearer ≡ text "secret")
      × (equal_fold (take 7 bearer) (text "Bearer ") ≡ true)
      × (contains_text (text "secret") (text "secret" ∷ []) ≡ true))
authenticate_api_request_iff_example =
    authenticate_api_request_iff (text "secret" ∷ []) bearer (text "secret")

abbrev message : Message
message = record { sender = []; to = []; reply_to = []; subject = []; body_text = [] }

abbrev flaky : Transport
flaky calls m = failed (record {
  outer = classified (record { class = transient; status = 503; message = [] });
  wrapped = [];
})

send_with_retry_lem_example :
    Followed flaky 0 message (λ _. false) (send_with_retry flaky 0 message (λ _. false))
send_with_retry_lem_example = send_with_retry_lem flaky 0 message (λ _. false)

-- Other requests meanwhile.
abbrev pub others : List (Call × ℕ)
others = (claim (text "k2"), 4) ∷ (look (text "key1"), 5) ∷ (claim key, 6) ∷ []

finalize-claim_example :
    (claim_in_flight
      (memory Entry)
      key
      9
      (finalize_idempotent (memory Entry) key (recorder fresh) 3 cache)).0
    ≡ not (holds_live (memory Entry) none 9)
finalize-claim_example = finalize-claim (memory Entry) (recorder fresh) key 3 9 cache refl

-- Addresses are texts, and a prefix holds one address.
abbrev pub net : NetLib
net = record {
  Addr = Bytes;
  Prefix = Bytes;
  parse_addr = λ s. some s;
  parse_prefix = λ s. some s;
  prefix_contains = λ p a. bytes_eq p a;
  split_host = λ s. none;
}

abbrev proxies : List Bytes
proxies = text "9.9.9.9" ∷ []

trusted : ip_in_prefixes net (remote_ip net (text "9.9.9.9")) proxies ≡ true
unfolding ip_in_prefixes bytes_eq text remote_ip
trusted = refl

given : is_empty (text "1.1.1.1, 5.5.5.5,9.9.9.9") ≡ false
unfolding is_empty text
given = refl

parts :
    reverse (split 0x2c (text "1.1.1.1, 5.5.5.5,9.9.9.9"))
    ≡ (text "9.9.9.9" ∷ []) ++ text " 5.5.5.5" ∷ text "1.1.1.1" ∷ []
unfolding split text
parts = refl

proxy : passed net proxies (text "9.9.9.9") ≡ true
unfolding is_empty trim_space text ip_in_prefixes bytes_eq
proxy = refl

client : passed net proxies (text " 5.5.5.5") ≡ false
unfolding is_empty trim_space text ip_in_prefixes bytes_eq
client = refl

client_ip_forwarded_example :
    client_ip net (text "9.9.9.9") (text "1.1.1.1, 5.5.5.5,9.9.9.9") (text "9.9.9.9" ∷ [])
    ≡ trim_space (text " 5.5.5.5")
client_ip_forwarded_example =
    client_ip_forwarded net (text "9.9.9.9") (text "1.1.1.1, 5.5.5.5,9.9.9.9") (text "9.9.9.9" ∷ [])
      (text "9.9.9.9" ∷ []) (text " 5.5.5.5") (text "1.1.1.1" ∷ []) trusted given parts (proxy, tt)
      client

abbrev form : Form
form name = if bytes_eq name (text "website") then some (text "spam" ∷ []) else none

check_honeypot_iff_example : (check_honeypot form (text "website") ≡ silent_reject) ↔ (
    (is_empty (text "website") ≡ false)
    × ((vs : List Bytes) × (form (text "website") ≡ some vs)
        × Any (λ v. is_empty (trim_space v) ≡ false) vs))
check_honeypot_iff_example = check_honeypot_iff form (text "website")

abbrev pub urls : UrlLib
urls = record { parse = λ s. some (text "https", s); lower = λ s. s }

check_origin_iff_example :
    (check_origin urls (text "a.com") [] (text "b.com" ∷ text "a.com" ∷ []) ≡ pass) ↔ (
      ((is_empty (text "a.com") ≡ false)
        × IsListed urls (text "a.com") (text "b.com" ∷ text "a.com" ∷ []))
      ⊎ ((is_empty [] ≡ false)
          × ((n : Bytes) × (origin_from_referer urls [] ≡ some n)
              × IsListed urls n (text "b.com" ∷ text "a.com" ∷ []))))
check_origin_iff_example =
    check_origin_iff urls (text "a.com") [] (text "b.com") (text "a.com" ∷ [])

required_fields_iff_example :
    (required_fields form (text "website" ∷ text "email" ∷ []) ≡ [])
    ↔ All (IsFilled form) (text "website" ∷ text "email" ∷ [])
required_fields_iff_example = required_fields_iff form (text "website" ∷ text "email" ∷ [])

-- A code that can be read back, and a sum in place of the HMAC.
abbrev pub crypto : CryptoLib
crypto = record {
  hmac = λ message secret. message ++ secret;
  encode_hex = λ b. b;
  decode_hex = λ s. some s;
  format_int = λ n. text "1700000000";
  parse_int = λ s. some (pos 1700000000);
}

verify-issue_example :
    (IsFresh 1700000001000000000 3600000000000 (pos 1700000000)
      × (verify crypto
            (issue crypto (text "secret") (pos 1700000000))
            (text "secret")
            3600000000000
            1700000001000000000
          ≡ none))
    ⊎ (¬ IsFresh 1700000001000000000 3600000000000 (pos 1700000000)
        × (verify crypto
              (issue crypto (text "secret") (pos 1700000000))
              (text "secret")
              3600000000000
              1700000001000000000
            ≡ some expired))
unfolding text
verify-issue_example =
    verify-issue crypto (text "secret") (pos 1700000000) 3600000000000 1700000001000000000
      (omega arith) refl
      (refl, (refl, (refl, (refl, (refl, (refl, (refl, (refl, (refl, (refl, tt)))))))))) refl

fields-validation_example :
    (validation (text "name" ∷ []) ((text "email", text "invalid format") ∷ [])).fields
      (text "email")
    ≡ (if contains_text (text "email") (text "name" ∷ [])
        then some (text "required")
        else first_error (text "email") ((text "email", text "invalid format") ∷ []))
fields-validation_example =
    fields-validation (text "name" ∷ []) ((text "email", text "invalid format") ∷ []) (text "email")

abbrev pub keys : List Bytes
keys = text "secret" ∷ []

abbrev first_request : Cache (memory Entry)
first_request = (admit (memory Entry) keys bearer key [] 3 4 cache).1

pub went : (admit (memory Entry) keys bearer key [] 3 4 cache).0 ≡ admitted (text "secret")
unfolding admit authenticate_api_request is_empty text equal_fold bytes_eq
    caddy_formward.Idempotency.Key.validate_key lookup claim_in_flight perform_all
went = refl

pub given_key : is_empty key ≡ false
unfolding is_empty text
given_key = refl

abbrev later_calls : List (Call × ℕ)
later_calls = (look key, 5) ∷ []

admit_excludes_example :
    (admit
      (memory Entry)
      keys
      (text "Bearer other")
      key
      []
      6
      7
      (perform_all (memory Entry) later_calls first_request)).0
    ≢ admitted (text "other")
admit_excludes_example =
    admit_excludes (memory Entry) keys bearer key [] 3 4 cache (text "secret") later_calls
      (text "Bearer other") [] 6 7 (text "other") given_key went (refl, tt)

abbrev pub addresses : AddressParser
addresses s = some ([], s)

abbrev pub endpoint : Endpoint
endpoint = record {
  sender = text "noreply@a";
  to = text "ops@a" ∷ [];
  api_mode = true;
  email_field = text "email";
  reply_to_email_field = [];
}

abbrev override : Form
override name = if bytes_eq name (text "to_override") then some (text " x@b " ∷ []) else none

abbrev composed : Message
composed = record {
  sender = text "noreply@a";
  to = text "x@b" ∷ [];
  reply_to = [];
  subject = text "s";
  body_text = text "b";
}

composes : compose addresses endpoint override (text "s") (text "b") ≡ ok composed
unfolding compose bytes_eq text email is_empty trim_space
composes = refl

compose_lem_example :
    ((composed.to ≡ endpoint.to) ⊎ ((endpoint.api_mode ≡ true) × Valid addresses composed.to))
    × ((composed.reply_to ≡ []) ⊎ (email addresses composed.reply_to ≡ true))
compose_lem_example =
    compose_lem addresses endpoint override (text "s") (text "b") {m = composed} composes
