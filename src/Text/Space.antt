-- ===== src/Text/Space.antt =====
-- `strings.TrimSpace`, on UTF-8 bytes. `after_space` reads one white-space code point at the front
-- of a text and `after_space_back` one at the end of it, in reversed bytes.
use mathlib.Core.List.{reverse}
use caddy_formward.Base.{
  ℕ, zero, suc, ◌≤◌, ◌<◌, Bool, ◌&&◌, ◌||◌, [], ◌∷◌, Option, none, some, ◌≡◌, refl, inl, inr, arith,
  ◌==◌, leb, if◌then◌else◌, length, Option-cases,
}
use caddy_formward.Text.Basic.{Bytes}

space1 : ℕ → Bool
space1 a = (leb 9 a && leb a 13) || a == 32

-- U+0085 and U+00A0
space2 : ℕ → ℕ → Bool
space2 a b = a == 0xc2 && (b == 0x85 || b == 0xa0)

-- U+1680, U+2000 to U+200A, U+2028, U+2029, U+202F, U+205F, U+3000
space3 : ℕ → ℕ → ℕ → Bool
space3 a b c =
    (a == 0xe1 && b == 0x9a && c == 0x80)
    || (a == 0xe2 && b == 0x80 && leb 0x80 c && leb c 0x8a)
    || (a == 0xe2 && b == 0x80 && (c == 0xa8 || c == 0xa9 || c == 0xaf))
    || (a == 0xe2 && b == 0x81 && c == 0x9f)
    || (a == 0xe3 && b == 0x80 && c == 0x80)

unfoldable pub after_space : Bytes → Option Bytes
unfolding space1 space2 space3
after_space [] = none
after_space (a ∷ []) = if space1 a then some [] else none
after_space (a ∷ b ∷ []) = if space1 a then some (b ∷ []) else if space2 a b then some [] else none
after_space (a ∷ b ∷ c ∷ s) =
    if space1 a
    then some (b ∷ c ∷ s)
    else if space2 a b
    then some (c ∷ s)
    else if space3 a b c
    then some s
    else none

unfoldable pub after_space_back : Bytes → Option Bytes
unfolding space1 space2 space3
after_space_back [] = none
after_space_back (a ∷ []) = if space1 a then some [] else none
after_space_back (a ∷ b ∷ []) =
    if space1 a then some (b ∷ []) else if space2 b a then some [] else none
after_space_back (a ∷ b ∷ c ∷ s) =
    if space1 a
    then some (b ∷ c ∷ s)
    else if space2 b a
    then some (c ∷ s)
    else if space3 c b a
    then some s
    else none

-- Drops pieces from the front while there are any; the fuel is the length.
unfoldable pub trim_by : (Bytes → Option Bytes) → ℕ → Bytes → Bytes
trim_by next zero s = s
trim_by next (suc f) s = elim (next s) [ none ↦ s | some rest ↦ trim_by next f rest ]

unfoldable pub trim_left : Bytes → Bytes
unfolding trim_by after_space
trim_left s = trim_by after_space (length s) s

unfoldable pub trim_right : Bytes → Bytes
unfolding trim_by after_space_back
trim_right s = reverse (trim_by after_space_back (length s) (reverse s))

unfoldable pub trim_space : Bytes → Bytes
unfolding trim_left trim_right
trim_space s = trim_right (trim_left s)

shorter : (s r : Bytes) → after_space s ≡ some r → length r < length s
unfolding after_space
shorter [] r h = cc
shorter (a ∷ []) r h = ground arith
shorter (a ∷ b ∷ []) r h = ground arith
shorter (a ∷ b ∷ c ∷ s) r h = ground arith

-- The fuel is enough: no white space is left at the front.
pub trim_by_done : (f : ℕ) (s : Bytes) → length s ≤ f → after_space (trim_by after_space f s) ≡ none
unfolding trim_by
trim_by_done zero [] h = unfold after_space in refl
trim_by_done zero (c ∷ s) h = absurd (omega arith)
trim_by_done (suc f) s h = elim (Option-cases (after_space s)) [
  | inl e ↦ rw (e, trim_by) e
  | inr (r, e) ↦ rw (e, trim_by) (trim_by_done f r (omega (arith, shorter s r e)))
]
