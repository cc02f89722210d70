-- ===== src/Text/Search.antt =====
-- Laws of searching: the first occurrence of a byte, and prefixes.
use caddy_formward.Base.{
  ℕ, zero, suc, true, false, List, [], ◌∷◌, ◌++◌, some, ◌≡◌, refl, ap, arith, ◌==◌, Bool-cases, inl,
  inr, length, take, drop,
}
use caddy_formward.Text.Basic.{Bytes, cut, index_byte, has_prefix}

-- The byte does not occur.
abbrev pub Without : ℕ → Bytes → Type 0
Without b [] = Unit
Without b (c ∷ s) = ((c == b) ≡ false) × Without b s

pub index_byte-append :
    (b : ℕ) (s t : Bytes) → Without b s → index_byte (s ++ b ∷ t) b ≡ some (length s)
unfolding index_byte
index_byte-append b [] t h = ground arith
index_byte-append b (c ∷ s) t h = ground (arith, index_byte-append b s t h.1)

pub drop-append {ℓ} : {A : Type ℓ} (xs ys : List A) → drop (length xs) (xs ++ ys) ≡ ys
drop-append [] ys = refl
drop-append (x ∷ xs) ys = drop-append xs ys

pub take-append {ℓ} : {A : Type ℓ} (xs ys : List A) → take (length xs) (xs ++ ys) ≡ xs
take-append [] ys = refl
take-append (x ∷ xs) ys = ap (◌∷◌ x) (take-append xs ys)

pub drop-append-cons {ℓ} :
    {A : Type ℓ} (xs : List A) (y : A) (ys : List A) → drop (suc (length xs)) (xs ++ y ∷ ys) ≡ ys
drop-append-cons [] y ys = refl
drop-append-cons (x ∷ xs) y ys = drop-append-cons xs y ys

-- The first occurrence cuts the text in two.
pub index_byte-split :
    (s : Bytes) (b i : ℕ)
    → index_byte s b ≡ some i
    → (s ≡ take i s ++ b ∷ drop (suc i) s) × Without b (take i s)
unfolding index_byte
index_byte-split [] b i h = cc
index_byte-split (c ∷ s) b zero h = (ground arith, tt)
index_byte-split (c ∷ s) b (suc i) h = elim (Bool-cases (c == b)) [
  | inl here ↦ absurd (ground arith)
  | inr later ↦
      let (cut_here, before) = index_byte-split s b i (ground arith) in
      (ap (◌∷◌ c) cut_here, (later, before))
]

pub has_prefix-split : (s p : Bytes) → has_prefix s p ≡ true → s ≡ p ++ drop (length p) s
unfolding has_prefix
has_prefix-split s [] h = refl
has_prefix-split [] (x ∷ p) h = cc
has_prefix-split (c ∷ s) (x ∷ p) h = ground (arith, has_prefix-split s p)

pub has_prefix-append : (p s : Bytes) → has_prefix (p ++ s) p ≡ true
unfolding has_prefix
has_prefix-append [] s = ground arith
has_prefix-append (x ∷ p) s = ground (arith, has_prefix-append p s)

pub cut-append : (sep : ℕ) (x s : Bytes) → Without sep x → cut sep (x ++ sep ∷ s) ≡ some (x, s)
unfolding cut
cut-append sep [] s h = ground arith
cut-append sep (c ∷ x) s h =
    let (ne, rest) = h in let found = cut-append sep x s rest in rw (ne, found) refl
