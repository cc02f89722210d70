-- ===== src/Text/Basic.antt =====
-- Byte strings: literals, equality, prefixes, searching, splitting and joining.
use Prim.Native.Char.{code}
use caddy_formward.Base.{
  ℕ, zero, suc, String, Bool, true, false, ◌&&◌, ◌||◌, List, [], ◌∷◌, ◌++◌, Option, none, some, ◌≡◌,
  refl, ◌≢◌, ◌↔◌, inl, inr, arith, ◌==◌, if◌then◌else◌, Bool-cases,
}

abbrev pub Bytes : Type 0
Bytes = List ℕ

codes : String → Bytes
codes String.[] = []
codes (String.◌∷◌ c s) = code c ∷ codes s

-- A literal of the source.
unfoldable pub text : String → Bytes
unfolding codes
text s = codes s

-- `a == b` on strings, `bytes.Equal`, `subtle.ConstantTimeCompare(a, b) == 1`.
unfoldable pub bytes_eq : Bytes → Bytes → Bool
bytes_eq [] [] = true
bytes_eq (x ∷ xs) (y ∷ ys) = x == y && bytes_eq xs ys
bytes_eq _ _ = false

pub bytes_eq_iff : (a b : Bytes) → (bytes_eq a b ≡ true) ↔ (a ≡ b)
unfolding bytes_eq
bytes_eq_iff (x ∷ a) (y ∷ b) = ground (arith, bytes_eq_iff a b)
bytes_eq_iff _ _ = ground arith

pub bytes_eq_refl : (a : Bytes) → bytes_eq a a ≡ true
bytes_eq_refl a = (bytes_eq_iff a a).1 refl

pub bytes_eq_ne : (a b : Bytes) → a ≢ b → bytes_eq a b ≡ false
bytes_eq_ne a b h = elim (Bool-cases (bytes_eq a b)) [
  | inl e ↦ absurd (h ((bytes_eq_iff a b).0 e))
  | inr e ↦ e
]

-- `s == ""`
unfoldable pub is_empty : Bytes → Bool
is_empty [] = true
is_empty (c ∷ s) = false

-- `slices.Contains`
unfoldable pub contains_text : Bytes → List Bytes → Bool
contains_text k [] = false
contains_text k (x ∷ xs) = bytes_eq x k || contains_text k xs

-- `strings.IndexByte`, with `none` for -1.
unfoldable pub index_byte : Bytes → ℕ → Option ℕ
index_byte [] b = none
index_byte (c ∷ s) b =
    if c == b then some 0 else elim (index_byte s b) [ none ↦ none | some i ↦ some (suc i) ]

-- `strings.HasPrefix(s, prefix)`
unfoldable pub has_prefix : Bytes → Bytes → Bool
has_prefix s [] = true
has_prefix [] (p ∷ ps) = false
has_prefix (c ∷ s) (p ∷ ps) = c == p && has_prefix s ps

-- `strings.Contains(s, sub)`
unfoldable pub contains : Bytes → Bytes → Bool
contains [] sub = is_empty sub
contains (c ∷ s) sub = has_prefix (c ∷ s) sub || contains s sub

-- `strings.ContainsAny` of a set of bytes.
unfoldable pub contains_any : Bytes → (ℕ → Bool) → Bool
contains_any [] special = false
contains_any (c ∷ v) special = special c || contains_any v special

-- Both sides of the first `sep`.
unfoldable pub cut : ℕ → Bytes → Option (Bytes × Bytes)
cut sep [] = none
cut sep (c ∷ s) =
    if c == sep
    then some ([], s)
    else elim (cut sep s) [ none ↦ none | some (a, b) ↦ some (c ∷ a, b) ]

-- `strings.SplitN(s, sep, n)` for a separator of one byte.
unfoldable pub split_n : ℕ → ℕ → Bytes → List Bytes
split_n zero sep s = []
split_n (suc zero) sep s = s ∷ []
split_n (suc (suc n)) sep s = elim (cut sep s) [
  | none ↦ s ∷ []
  | some (a, b) ↦ a ∷ split_n (suc n) sep b
]

unfoldable pub push_byte : ℕ → List Bytes → List Bytes
push_byte c [] = (c ∷ []) ∷ []
push_byte c (p ∷ ps) = (c ∷ p) ∷ ps

-- `strings.Split(s, sep)` for a separator of one byte.
unfoldable pub split : ℕ → Bytes → List Bytes
unfolding push_byte
split sep [] = [] ∷ []
split sep (c ∷ s) = let rest = split sep s in if c == sep then [] ∷ rest else push_byte c rest

-- `strings.Join(parts, sep)`
unfoldable pub join : Bytes → List Bytes → Bytes
join sep [] = []
join sep (x ∷ []) = x
join sep (x ∷ y ∷ xs) = x ++ (sep ++ join sep (y ∷ xs))

-- `strings.Split` yields at least one part.
pub split-ne-nil : (sep : ℕ) (s : Bytes) → split sep s ≢ []
unfolding split
split-ne-nil sep [] = cc
split-ne-nil sep (c ∷ s) =
    elim (split sep s) as (λ r. (if c == sep then [] ∷ r else push_byte c r) ≢ []) [
      | [] ↦ ground arith
      | p ∷ ps ↦ ground arith
    ]
