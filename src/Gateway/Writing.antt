-- ===== src/Gateway/Writing.antt =====
-- core/response/response.go and core/gateway/handler.go: what an answer writes to the client. The
-- encoder of JSON and the texts of errors are parameters; http.Error and http.Redirect, for a POST,
-- write what package net/http documents.
use caddy_formward.Base.{ℕ, List, [], ◌∷◌, ◌++◌, ◌≡◌, refl}
use caddy_formward.Text.{Bytes, text}
use caddy_formward.Idempotency.Key.{KeyError}
use caddy_formward.Response.{
  Answer, see_other, success_body, error_body, plain_text, dry_run_body, Success, Error, DryRun,
}
use caddy_formward.Gateway.Recorder.{Action, sets, heads, writes, recorder, fresh, acts}

-- The encoded bodies, each with the newline that json.Encoder ends with, and the texts of the
-- errors of ValidateKey.
pub record Writing : Type 0 where
  pub json_success : Success → Bytes
  pub json_error : Error → Bytes
  pub json_dry_run : DryRun → Bytes
  pub key_error : KeyError → Bytes

-- `WriteJSON`
unfoldable pub write_json : (status : ℕ) → (body : Bytes) → List Action
unfolding text
write_json status body =
    sets (text "application/json; charset=utf-8") ∷ heads status ∷ writes body ∷ []

-- `http.Error`
abbrev http_error : (status : ℕ) → (message : Bytes) → List Action
http_error status message =
    sets (text "text/plain; charset=utf-8") ∷ heads status ∷ writes (message ++ (10 ∷ [])) ∷ []

unfoldable pub write_answer : Writing → Answer → List Action
unfolding write_json text
write_answer writing (see_other url) = heads 303 ∷ []
write_answer writing (success_body body) = write_json 200 (writing.json_success body)
write_answer writing (error_body status body) = write_json status (writing.json_error body)
write_answer writing (plain_text status message) = http_error status message
write_answer writing (dry_run_body body) = write_json 200 (writing.json_dry_run body)

-- The status of an answer.
abbrev pub status_of : Answer → ℕ
status_of (see_other url) = 303
status_of (success_body body) = 200
status_of (error_body status body) = status
status_of (plain_text status message) = status
status_of (dry_run_body body) = 200

pub status-write_answer :
    (writing : Writing) (a : Answer)
    → (acts (write_answer writing a) (recorder fresh)).status ≡ status_of a
unfolding write_answer acts
status-write_answer writing (see_other url) = refl
status-write_answer writing (success_body body) = refl
status-write_answer writing (error_body status body) = refl
status-write_answer writing (plain_text status message) = refl
status-write_answer writing (dry_run_body body) = refl
