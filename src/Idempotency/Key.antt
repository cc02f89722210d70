-- ===== src/Idempotency/Key.antt =====
-- core/idempotency/cache.go: the shape of an Idempotency-Key.
use caddy_formward.Base.{
  ℕ, suc, ◌+◌, ◌≤◌, ◌<◌, ◌||◌, [], ◌∷◌, ◌++◌, Option, none, some, ◌≡◌, ◌↔◌, refl, arith, ltb,
  if◌then◌else◌, length, length-append, All, inl, inr, ◌⊎◌,
}
use caddy_formward.Text.{Bytes}

pub data KeyError : Type 0 where
  empty_key : KeyError
  too_long : ℕ → KeyError
  non_printable : (byte : ℕ) (position : ℕ) → KeyError

-- The loop over the bytes, from position `i`.
unfoldable pub check_bytes : ℕ → Bytes → Option KeyError
check_bytes i [] = none
check_bytes i (b ∷ s) =
    let rest = check_bytes (suc i) s in
    if ltb b 0x20 || ltb 0x7e b then some (non_printable b i) else rest

-- `ValidateKey`, with `none` for a nil error.
unfoldable pub validate_key : Bytes → Option KeyError
unfolding check_bytes
validate_key key =
    if ltb (length key) 1
    then some empty_key
    else if ltb 255 (length key)
    then some (too_long (length key))
    else check_bytes 0 key

abbrev pub IsPrintable : ℕ → Type 0
IsPrintable b = (0x20 ≤ b) × (b ≤ 0x7e)

bytes_sound : (i : ℕ) (s : Bytes) → check_bytes i s ≡ none → All IsPrintable s
unfolding check_bytes
bytes_sound i [] h = tt
bytes_sound i (b ∷ s) h = (ground arith, bytes_sound (suc i) s (ground arith))

bytes_complete : (i : ℕ) (s : Bytes) → All IsPrintable s → check_bytes i s ≡ none
unfolding check_bytes
bytes_complete i [] h = refl
bytes_complete i (b ∷ s) h = ground (arith, bytes_complete (suc i) s h.1)

-- A key is accepted exactly when it has 1 to 255 bytes, all of them printable ASCII.
pub validate_key_iff :
    (key : Bytes)
    → (validate_key key ≡ none) ↔ ((1 ≤ length key) × (length key ≤ 255) × All IsPrintable key)
unfolding validate_key
validate_key_iff key = (
  λ h. (ground arith, ground arith, bytes_sound 0 key (ground arith)),
  λ h. ground (arith, bytes_complete 0 key h.2),
)

check_bytes_position :
    (i : ℕ) (before : Bytes) (b : ℕ) (after : Bytes)
    → All IsPrintable before
    → (b < 0x20) ⊎ (0x7e < b)
    → check_bytes i (before ++ b ∷ after) ≡ some (non_printable b (i + length before))
unfolding check_bytes
check_bytes_position i [] b after printable (inl bad) = ground arith
check_bytes_position i [] b after printable (inr bad) = ground arith
check_bytes_position i (a ∷ before) b after printable bad =
    let rest = check_bytes_position (suc i) before b after printable.1 bad in
    let place : suc i + length before ≡ i + suc (length before) = omega arith in
    ground (arith, rest, place)

-- A key of acceptable length with a byte that is not printable is refused with the first such byte
-- and its position.
validate_key_position :
    (before : Bytes) (b : ℕ) (after : Bytes)
    → length (before ++ b ∷ after) ≤ 255
    → All IsPrintable before
    → (b < 0x20) ⊎ (0x7e < b)
    → validate_key (before ++ b ∷ after) ≡ some (non_printable b (length before))
unfolding validate_key
validate_key_position before b after fits printable bad =
    let size = length-append before (b ∷ after) in
    let found = check_bytes_position 0 before b after printable bad in ground (arith, size, found)
