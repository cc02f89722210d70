-- ===== src/Gateway/Forms.antt =====
-- core/gateway/handler.go: what a form leaves in the log of a failed send. A form is the list of
-- its entries here, in the order in which the map is walked.
use caddy_formward.Base.{not, ◌&&◌, List, [], ◌∷◌, if◌then◌else◌}
use caddy_formward.Text.{Bytes, text, bytes_eq, is_empty}

abbrev pub Entries : Type 0
Entries = List (Bytes × List Bytes)

-- `redactedForm`
unfoldable pub redacted_form : Entries → (honeypot : Bytes) → Entries
unfolding text
redacted_form [] honeypot = []
redacted_form ((k, v) ∷ rest) honeypot =
    let others = redacted_form rest honeypot in
    if bytes_eq k honeypot && not (is_empty honeypot)
    then (k, text "<redacted>" ∷ []) ∷ others
    else (k, v) ∷ others

-- `formFieldNames`
unfoldable pub form_field_names : Entries → List Bytes
form_field_names [] = []
form_field_names ((k, v) ∷ rest) = k ∷ form_field_names rest
