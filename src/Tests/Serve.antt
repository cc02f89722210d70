-- ===== src/Tests/Serve.antt =====
-- Requests to a page's endpoint and to an API endpoint, from the method to the answer.
use caddy_formward.Base.{
  ℕ, ◌≢◌, Bool, true, false, [], ◌∷◌, none, some, ◌≡◌, refl, if◌then◌else◌, inl, inr,
}
use caddy_formward.Base.Results.{ok}
use caddy_formward.Text.{Bytes, text, bytes_eq, is_empty}
use caddy_formward.Transport.{Message, sent, Transport}
use caddy_formward.Idempotency.{Entry}
use caddy_formward.Gateway.Compose.{Endpoint, compose}
use caddy_formward.Gateway.Media.{is_form_content_type}
use caddy_formward.Gateway.Retry.{send_with_retry}
use caddy_formward.Gateway.Writing.{Writing}
use caddy_formward.Gateway.Serve.{Request, Handler, State, serve_form, is_post}
use caddy_formward.Gateway.Serve.Api.{Interleaving, serve}
use caddy_formward.Gateway.Serve.Checked.{IsChecked, IsMailed, IsFromAllowed, IsGranted}
use caddy_formward.Gateway.Serve.Guards.{serve_form_sends}
use caddy_formward.Gateway.Serve.Delivers.{Delivered, serve_form_delivers}
use caddy_formward.Gateway.Serve.Ends.{serve_releases}
use caddy_formward.Ratelimit.ClientIp.{client_ip}
use caddy_formward.Spam.Checks.{Form, check_honeypot, pass}
use caddy_formward.Validate.{required_fields}
use caddy_formward.Tests.Limits.{memory, cache, key, limiter}
use caddy_formward.Tests.Web.{net, urls, crypto, addresses, keys, endpoint, bearer, went, given_key}

abbrev takes : Transport
takes calls m = sent (record { message_id = text "id" })

abbrev handler : Endpoint → Handler
handler e = record {
  endpoint = e;
  api_keys = keys;
  allowed_origins = [];
  net = net;
  trusted_proxies = [];
  limited = false;
  honeypot = text "website";
  csrf_secret = [];
  csrf_ttl = 0;
  required = text "name" ∷ [];
  redirect_success = [];
  redirect_error = [];
  dry_run = false;
  urls = urls;
  crypto = crypto;
  parse_address = addresses;
  render_subject = λ f. some (text "s");
  render_body = λ f. some (text "b");
  send = takes;
  show_addresses = λ invalid. [];
}

abbrev page : Handler
page = handler (record endpoint { api_mode = false })

abbrev filled : Form
filled name = if bytes_eq name (text "name") then some (text "x" ∷ []) else none

abbrev post : Request
post = record {
  method = text "POST";
  content_type = text "application/x-www-form-urlencoded";
  authorization = bearer;
  idempotency_key = key;
  origin = [];
  referer = [];
  remote_addr = text "10.0.0.1";
  forwarded = [];
  accept = [];
  form_body = ok filled;
  json_body = ok filled;
  submission_id = text "1";
}

abbrev start : State (memory ℕ)
start = record { limiter = limiter; sends = 0; events = [] }

abbrev patient : ℕ → Bool
patient delay = false

sent_once : (serve_form (memory ℕ) page patient 5 post start).1.sends ≡ 1
unfolding serve_form is_form_content_type bytes_eq caddy_formward.Text.index_byte
    caddy_formward.Text.trim_space caddy_formward.Text.to_lower check_honeypot is_empty
    required_fields caddy_formward.Gateway.Compose.form_get compose send_with_retry
sent_once = refl

sent_some : (serve_form (memory ℕ) page patient 5 post start).1.sends ≢ 0
sent_some e = cc (sent_once, e)

serve_form_sends_example :
    (is_form_content_type post.content_type ≡ true)
    × IsFromAllowed (memory ℕ) page patient 5 post
    × IsGranted
        (memory ℕ)
        page
        patient
        5
        post
        (client_ip net post.remote_addr post.forwarded [])
        start
    × ((form : Form) × (post.form_body ≡ ok form) × IsChecked (memory ℕ) page patient 5 post form)
serve_form_sends_example = serve_form_sends (memory ℕ) page patient 5 post start refl sent_some

abbrev made : Message
made = record {
  sender = text "noreply@a";
  to = text "ops@a" ∷ [];
  reply_to = [];
  subject = text "s";
  body_text = text "b";
}

composes : compose addresses page.endpoint filled (text "s") (text "b") ≡ ok made
unfolding compose is_empty caddy_formward.Text.trim_space bytes_eq text
composes = refl

all_filled : required_fields filled (text "name" ∷ []) ≡ []
unfolding required_fields bytes_eq text is_empty caddy_formward.Text.trim_space
all_filled = refl

mailed : IsMailed (memory ℕ) page patient 5 post filled
unfolding is_empty caddy_formward.Text.trim_space caddy_formward.Gateway.Compose.form_get bytes_eq
    text
mailed = inl refl

honest : check_honeypot filled (text "website") ≡ pass
unfolding check_honeypot is_empty text bytes_eq
honest = refl

is_form : is_form_content_type post.content_type ≡ true
unfolding is_form_content_type bytes_eq caddy_formward.Text.index_byte
    caddy_formward.Text.trim_space caddy_formward.Text.to_lower
is_form = refl

checked : IsChecked (memory ℕ) page patient 5 post filled
unfolding is_empty
checked = record {
  live = refl;
  filled = all_filled;
  mailed = mailed;
  rendered = (text "s", text "b", made, refl, refl, composes);
  tokened = inr (inl refl);
  human = inr (λ e. cc (honest, e));
}

serve_form_delivers_example :
    (subject : Bytes) × (body : Bytes) × (msg : Message) × (some (text "s") ≡ some subject)
    × (some (text "b") ≡ some body)
    × (compose addresses page.endpoint filled subject body ≡ ok msg)
    × Delivered
        (memory ℕ)
        page
        patient
        5
        post
        msg
        start
        0
        (serve_form (memory ℕ) page patient 5 post start)
serve_form_delivers_example =
    serve_form_delivers (memory ℕ) page patient 5 post filled checked start
      (refl, is_form, inl refl, inl refl, refl)

abbrev api : Handler
api = handler endpoint

abbrev writing : Writing
writing = record {
  json_success = λ body. text "{}";
  json_error = λ body. text "{!}";
  json_dry_run = λ body. [];
  key_error = λ e. [];
}

abbrev call : Request
call = record post { content_type = text "application/json" }

abbrev alone : Interleaving
alone = record { between = []; during = []; later = 4; ended = 6 }

posted : is_post (memory ℕ) api patient 3 call ≡ true
unfolding is_post bytes_eq
posted = refl

serve_releases_example :
    (serve (memory ℕ) (memory Entry) api writing patient 3 call alone start cache).2.inflight key
    ≡ false
serve_releases_example =
    serve_releases (memory ℕ) (memory Entry) api writing patient 3 call alone start cache
      (text "secret") posted refl given_key went
