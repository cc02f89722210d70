-- ===== src/Text/Case.antt =====
-- Case mapping. On bytes below 128 these are exact; of the other code points they map those whose
-- image is ASCII (U+017F and U+0131 upwards, U+212A and U+0130 downwards), so a comparison of the
-- result with an ASCII literal is exact.
use caddy_formward.Base.{
  ℕ, ◌+◌, ◌-◌, Bool, true, false, ◌&&◌, [], ◌∷◌, ◌≡◌, refl, arith, ◌==◌, leb, if◌then◌else◌, map,
}
use caddy_formward.Text.Basic.{Bytes}

unfoldable pub upper_byte : ℕ → ℕ
upper_byte c = if leb b'a' c && leb c b'z' then c - 32 else c

unfoldable pub lower_byte : ℕ → ℕ
lower_byte c = if leb b'A' c && leb c b'Z' then c + 32 else c

-- `strings.ToUpper`
unfoldable pub to_upper : Bytes → Bytes
unfolding upper_byte
to_upper [] = []
to_upper (a ∷ []) = upper_byte a ∷ []
to_upper (a ∷ b ∷ s) =
    if a == 0xc5 && b == 0xbf
    then b'S' ∷ to_upper s
    else if a == 0xc4 && b == 0xb1
    then b'I' ∷ to_upper s
    else upper_byte a ∷ to_upper (b ∷ s)

lower_ascii : Bytes → Bytes
unfolding lower_byte
lower_ascii = map lower_byte

-- `strings.ToLower`
unfoldable pub to_lower : Bytes → Bytes
unfolding lower_byte lower_ascii
to_lower (a ∷ b ∷ c ∷ s) =
    if a == 0xe2 && b == 0x84 && c == 0xaa
    then b'k' ∷ to_lower s
    else if a == 0xc4 && b == 0xb0
    then b'i' ∷ to_lower (c ∷ s)
    else lower_byte a ∷ to_lower (b ∷ c ∷ s)
to_lower (a ∷ b ∷ []) =
    if a == 0xc4 && b == 0xb0 then b'i' ∷ [] else lower_byte a ∷ lower_byte b ∷ []
to_lower s = lower_ascii s

-- `strings.EqualFold(s, t)` for an ASCII `t` with neither k nor s, the letters that non-ASCII
-- code points fold to.
unfoldable pub equal_fold : Bytes → Bytes → Bool
unfolding lower_byte
equal_fold [] [] = true
equal_fold (x ∷ xs) (y ∷ ys) = lower_byte x == lower_byte y && equal_fold xs ys
equal_fold _ _ = false

pub equal_fold_refl : (s : Bytes) → equal_fold s s ≡ true
unfolding equal_fold
equal_fold_refl [] = refl
equal_fold_refl (c ∷ s) = ground (arith, equal_fold_refl s)
