-- ===== src/Csrf.antt =====
-- core/csrf/csrf.go: the tokens of forms. The HMAC, the hexadecimal code and the decimal code of
-- package strconv are parameters. Times are nanoseconds since 1970 and not before it.
use caddy_formward.Base.{
  ℕ, suc, ◌+◌, ◌-◌, ◌*◌, ◌^◌, ◌≤◌, ◌<◌, ◌⊎◌, inl, inr, arith, Bool-cases, Bool, true, false, not,
  ◌&&◌, List, [], ◌∷◌, ◌++◌, Option, none, some, ◌≡◌, refl, ltb, if◌then◌else◌, length,
}
use caddy_formward.Base.Int.{ℤ, pos, negsuc}
use caddy_formward.Text.{Bytes, text, bytes_eq, bytes_eq_refl, is_empty, split_n}
use caddy_formward.Text.Search.{Without, cut-append}

pub record CryptoLib : Type 0 where
  -- HMAC-SHA256 of a message under a secret.
  pub hmac : (message secret : Bytes) → Bytes
  pub encode_hex : Bytes → Bytes
  pub decode_hex : Bytes → Option Bytes
  -- `strconv.FormatInt(n, 10)` and `strconv.ParseInt(s, 10, 64)`
  pub format_int : ℤ → Bytes
  pub parse_int : Bytes → Option ℤ

-- The sentinel errors of Verify.
pub data TokenError : Type 0 where
  missing malformed invalid_signature expired : TokenError

-- `sign`
abbrev pub sign : CryptoLib → (message secret : Bytes) → Bytes
sign lib message secret = lib.hmac message secret

-- `Issue`, at a time in seconds.
unfoldable pub issue : CryptoLib → (secret : Bytes) → ℤ → Bytes
unfolding text
issue lib secret seconds =
    let ts = lib.format_int seconds in ts ++ b'.' ∷ lib.encode_hex (sign lib ts secret)

-- `now.Sub(issuedAt) > ttl` for a time `now` in nanoseconds: the difference saturates at the
-- largest int64.
unfoldable pub too_old : (now ttl : ℕ) → ℤ → Bool
too_old now ttl (pos seconds) = ltb ttl (now - seconds * 1000000000) && ltb ttl (2 ^ 63 - 1)
too_old now ttl (negsuc n) = ltb ttl (now + suc n * 1000000000) && ltb ttl (2 ^ 63 - 1)

-- The two parts of a token, from the time on.
unfoldable pub verify_parts :
    CryptoLib → (stamp signature secret : Bytes) → (ttl now : ℕ) → Option TokenError
unfolding too_old
verify_parts lib stamp signature secret ttl now = elim (lib.parse_int stamp) [
  | none ↦ some malformed
  | some seconds ↦ elim (lib.decode_hex signature) [
    | none ↦ some malformed
    | some got ↦
        if not (bytes_eq got (sign lib stamp secret))
        then some invalid_signature
        else if too_old now ttl seconds
        then some expired
        else none
  ]
]

unfoldable pub verify_split : CryptoLib → List Bytes → Bytes → (ttl now : ℕ) → Option TokenError
unfolding verify_parts
verify_split lib (stamp ∷ signature ∷ []) secret ttl now =
    verify_parts lib stamp signature secret ttl now
verify_split lib _ secret ttl now = some malformed

-- `Verify`, with `none` for a nil error.
unfoldable pub verify : CryptoLib → (token secret : Bytes) → (ttl now : ℕ) → Option TokenError
unfolding verify_split
verify lib token secret ttl now =
    if is_empty token then some missing else verify_split lib (split_n 2 b'.' token) secret ttl now

-- `ValidateSecret`: whether there is no error.
unfoldable pub validate_secret : Bytes → Bool
validate_secret secret = not (ltb (length secret) 16)

split_token :
    (stamp signature : Bytes)
    → Without b'.' stamp
    → split_n 2 b'.' (stamp ++ b'.' ∷ signature) ≡ stamp ∷ signature ∷ []
unfolding split_n
split_token stamp signature h = rw (split_n, cut-append b'.' stamp signature h) refl

nonempty_token : (a b : Bytes) (c : ℕ) → is_empty (a ++ c ∷ b) ≡ false
unfolding is_empty
nonempty_token [] b c = refl
nonempty_token (x ∷ a) b c = refl

signed :
    (lib : CryptoLib) (stamp secret : Bytes) (seconds : ℤ) (ttl now : ℕ)
    → lib.parse_int stamp ≡ some seconds
    → lib.decode_hex (lib.encode_hex (sign lib stamp secret)) ≡ some (sign lib stamp secret)
    → verify_parts lib stamp (lib.encode_hex (sign lib stamp secret)) secret ttl now
      ≡ (if too_old now ttl seconds then some expired else none)
unfolding verify_parts
signed lib stamp secret seconds ttl now e f =
    rw (verify_parts, e, f, bytes_eq_refl (sign lib stamp secret)) refl

-- The token's time and the TTL reach up to now, in nanoseconds.
abbrev pub IsFresh : (now ttl : ℕ) → ℤ → Type 0
IsFresh now ttl (pos seconds) = now ≤ seconds * 1000000000 + ttl
IsFresh now ttl (negsuc n) = now + suc n * 1000000000 ≤ ttl

too_old-IsFresh :
    (now ttl : ℕ) (seconds : ℤ)
    → ttl < 2 ^ 63 - 1
    → (IsFresh now ttl seconds × (too_old now ttl seconds ≡ false))
      ⊎ (¬ IsFresh now ttl seconds × (too_old now ttl seconds ≡ true))
unfolding too_old
too_old-IsFresh now ttl (pos seconds) small =
    elim (Bool-cases (ltb ttl (now - seconds * 1000000000))) [
      | inl old ↦ inr (λ fresh. ground (arith, old, fresh), ground (arith, old, small))
      | inr young ↦ inl (ground (arith, young), ground (arith, young))
    ]
too_old-IsFresh now ttl (negsuc n) small = elim (Bool-cases (ltb ttl (now + suc n * 1000000000))) [
  | inl old ↦ inr (λ fresh. ground (arith, old, fresh), ground (arith, old, small))
  | inr young ↦ inl (ground (arith, young), ground (arith, young))
]

-- A token that was issued under the same secret verifies while its time and the TTL reach up to
-- now, and is refused as expired from then on, whatever the HMAC is, given that the TTL is below
-- the largest int64, that the decimal code of the time can be read back and has no dot in it, and
-- that the hexadecimal code of its signature can be read back.
pub verify-issue :
    (lib : CryptoLib) (secret : Bytes) (seconds : ℤ) (ttl now : ℕ)
    → ttl < 2 ^ 63 - 1
    → lib.parse_int (lib.format_int seconds) ≡ some seconds
    → Without b'.' (lib.format_int seconds)
    → lib.decode_hex (lib.encode_hex (sign lib (lib.format_int seconds) secret))
      ≡ some (sign lib (lib.format_int seconds) secret)
    → (IsFresh now ttl seconds × (verify lib (issue lib secret seconds) secret ttl now ≡ none))
      ⊎ (¬ IsFresh now ttl seconds
          × (verify lib (issue lib secret seconds) secret ttl now ≡ some expired))
unfolding verify verify_split issue
verify-issue lib secret seconds ttl now small parses no_dot decodes =
    let stamp = lib.format_int seconds in
    let signature = lib.encode_hex (sign lib stamp secret) in
    let done = signed lib stamp secret seconds ttl now parses decodes in
    let result : verify lib (issue lib secret seconds) secret ttl now
        ≡ (if too_old now ttl seconds then some expired else none) =
      rw (nonempty_token stamp signature b'.', split_token stamp signature no_dot) done in
    elim (too_old-IsFresh now ttl seconds small) [
      | inl (fresh, young) ↦ inl (fresh, ground (arith, result, young))
      | inr (stale, old) ↦ inr (stale, ground (arith, result, old))
    ]
