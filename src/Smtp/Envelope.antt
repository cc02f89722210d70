-- ===== src/Smtp/Envelope.antt =====
-- core/smtp/session.go: command lines, envelope addresses and allowlists.
pub mod Allowlist
use caddy_formward.Base.{
  suc, ◌-◌, Bool, false, not, ◌&&◌, ◌||◌, List, [], ◌∷◌, none, some, ltb, if◌then◌else◌, length,
  take, drop,
}
use caddy_formward.Text.{Bytes, text, bytes_eq, has_prefix, index_byte, equal_fold, trim_space}

-- `splitCommand`
unfoldable pub split_command : Bytes → Bytes × Bytes
split_command line = elim (index_byte line b' ') [
  | none ↦ (line, [])
  | some i ↦ (take i line, drop (suc i) line)
]

-- `rest[1:end]`, for a rest that begins with `<`.
unfoldable pub between_brackets : Bytes → Bytes
between_brackets rest =
    if not (has_prefix rest (text "<"))
    then []
    else elim (index_byte rest b'>') [ none ↦ [] | some i ↦ take (i - 1) (drop 1 rest) ]

-- `extractEnvelopeAddress`
unfoldable pub extract_envelope_address : Bytes → Bytes → Bytes
unfolding between_brackets
extract_envelope_address arg prefix =
    if ltb (length arg) (length prefix) || not (equal_fold (take (length prefix) arg) prefix)
    then []
    else between_brackets (trim_space (drop (length prefix) arg))

-- The part behind the first `@` is the domain.
unfoldable pub has_domain : Bytes → Bytes → Bool
has_domain addr domain = elim (index_byte addr b'@') [
  | none ↦ false
  | some i ↦ bytes_eq (drop (suc i) addr) domain
]

unfoldable pub matches_entry : Bytes → Bytes → Bool
unfolding has_domain
matches_entry addr entry =
    bytes_eq entry (text "*")
    || bytes_eq entry addr
    || (has_prefix entry (text "*@") && has_domain addr (drop 2 entry))

-- `matchesAllowlist`
unfoldable pub matches_allowlist : Bytes → List Bytes → Bool
unfolding matches_entry
matches_allowlist addr [] = false
matches_allowlist addr (e ∷ es) = matches_entry addr e || matches_allowlist addr es
