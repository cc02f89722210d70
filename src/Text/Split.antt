-- ===== src/Text/Split.antt =====
-- Splitting what was joined.
use caddy_formward.Base.{ℕ, List, [], ◌∷◌, ◌++◌, ◌≡◌, refl, ap, ◌∙◌, arith, All}
use caddy_formward.Text.Basic.{Bytes, split, join, push_byte}
use caddy_formward.Text.Search.{Without}

split_part : (sep : ℕ) (x : Bytes) → Without sep x → split sep x ≡ x ∷ []
unfolding split push_byte
split_part sep [] h = refl
split_part sep (c ∷ x) h =
    let (ne, rest) = h in let part = split_part sep x rest in rw (ne, part) refl

split-append : (sep : ℕ) (x s : Bytes) → Without sep x → split sep (x ++ sep ∷ s) ≡ x ∷ split sep s
unfolding split push_byte
split-append sep [] s h = ground arith
split-append sep (c ∷ x) s h =
    let (ne, rest) = h in let part = split-append sep x s rest in rw (ne, part) refl

-- Parts without the separator are found again.
pub split-join :
    (sep : ℕ) (x : Bytes) (xs : List Bytes)
    → All (Without sep) (x ∷ xs)
    → split sep (join (sep ∷ []) (x ∷ xs)) ≡ x ∷ xs
unfolding join
split-join sep x [] h = split_part sep x h.0
split-join sep x (y ∷ xs) h =
    split-append sep x (join (sep ∷ []) (y ∷ xs)) h.0 ∙ ap (λ r. x ∷ r) (split-join sep y xs h.1)
