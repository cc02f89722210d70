-- ===== src/Gateway/Media.antt =====
-- core/gateway/handler.go: the content types that the handler accepts.
use caddy_formward.Base.{Bool, ◌||◌, none, some, take}
use caddy_formward.Text.{Bytes, text, bytes_eq, index_byte, to_lower, trim_space}

-- The header without its parameters, lowered and trimmed.
unfoldable pub media_type : Bytes → Bytes
media_type ct = elim (index_byte ct 0x3b) [
  | none ↦ trim_space (to_lower ct)
  | some i ↦ trim_space (to_lower (take i ct))
]

-- `isFormContentType`
unfoldable pub is_form_content_type : Bytes → Bool
unfolding media_type text
is_form_content_type ct =
    bytes_eq (media_type ct) (text "application/x-www-form-urlencoded")
    || bytes_eq (media_type ct) (text "multipart/form-data")

-- `isJSONContentType`
unfoldable pub is_json_content_type : Bytes → Bool
unfolding media_type text
is_json_content_type ct = bytes_eq (media_type ct) (text "application/json")
