-- ===== src/Gateway/Auth.antt =====
-- core/gateway/handler.go: the bearer token of an API request.
use caddy_formward.Base.{
  ℕ, zero, suc, Bool, true, false, not, ◌&&◌, ◌||◌, List, [], ◌∷◌, ◌≡◌, ◌↔◌, refl, arith,
  if◌then◌else◌, leb, length, take, drop, Bool-cases, inl, inr,
}
use caddy_formward.Text.{Bytes, text, bytes_eq, bytes_eq_iff, is_empty, equal_fold, contains_text}

-- The loop over the configured keys, with what matched so far.
unfoldable pub match_keys : Bytes → List Bytes → Bytes → Bytes
match_keys token [] matched = matched
match_keys token (k ∷ ks) matched = match_keys token ks (if bytes_eq token k then k else matched)

-- `authenticateAPIRequest`, of the configured keys and the Authorization header.
unfoldable pub authenticate_api_request : List Bytes → Bytes → Bytes × Bool
unfolding match_keys
authenticate_api_request keys header =
    if is_empty header
    then ([], false)
    else if leb (length header) 7 || not (equal_fold (take 7 header) (text "Bearer "))
    then ([], false)
    else if is_empty (drop 7 header)
    then ([], false)
    else let matched = match_keys (drop 7 header) keys [] in (matched, not (is_empty matched))

match_keys_lem :
    (token : Bytes) (keys : List Bytes) (matched : Bytes)
    → match_keys token keys matched ≡ (if contains_text token keys then token else matched)
unfolding match_keys contains_text
match_keys_lem token [] matched = refl
match_keys_lem token (k ∷ ks) matched =
    let rest = match_keys_lem token ks (if bytes_eq token k then k else matched) in
    let same = bytes_eq_iff token k in
    let same' = bytes_eq_iff k token in
    elim (Bool-cases (bytes_eq token k)) [
      | inl e ↦ ground (arith, rest, same, same', e)
      | inr e ↦ ground (arith, rest, same, same', e)
    ]

short_drop : (n : ℕ) (s : Bytes) → leb (length s) n ≡ is_empty (drop n s)
unfolding is_empty
short_drop zero [] = refl
short_drop zero (c ∷ s) = ground arith
short_drop (suc n) [] = ground arith
short_drop (suc n) (c ∷ s) = let rest = short_drop n s in ground (arith, rest)

drop_empty : (n : ℕ) (s : Bytes) → is_empty s ≡ true → is_empty (drop n s) ≡ true
unfolding is_empty
drop_empty zero s h = h
drop_empty (suc n) [] h = refl
drop_empty (suc n) (c ∷ s) h = cc

-- The four tests of the handler, in one.
authenticate_test :
    (keys : List Bytes) (header : Bytes)
    → authenticate_api_request keys header ≡ (
        if not (is_empty (drop 7 header))
          && (equal_fold (take 7 header) (text "Bearer ") && contains_text (drop 7 header) keys)
        then (drop 7 header, true)
        else ([], false))
unfolding authenticate_api_request is_empty
authenticate_test keys header =
    let size = short_drop 7 header in
    let none' = drop_empty 7 header in
    let matched = match_keys_lem (drop 7 header) keys [] in
    elim (Bool-cases (is_empty (drop 7 header))) [
      | inl e ↦ ground (arith, size, none', matched, e)
      | inr e ↦ ground (arith, size, none', matched, e)
    ]

-- A request is authenticated with a token exactly when the token is not empty, the header is seven
-- bytes that read "Bearer " in some case with the token after them, and the token is one of the
-- configured keys; the key that is reported is then the token.
pub authenticate_api_request_iff :
    (keys : List Bytes) (header token : Bytes)
    → (authenticate_api_request keys header ≡ (token, true)) ↔ (
        (is_empty token ≡ false)
        × (drop 7 header ≡ token)
        × (equal_fold (take 7 header) (text "Bearer ") ≡ true)
        × (contains_text token keys ≡ true))
authenticate_api_request_iff keys header token =
    let test = authenticate_test keys header in
    (λ h. ground (arith, test), λ h. ground (arith, test))
