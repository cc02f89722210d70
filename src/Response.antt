-- ===== src/Response.antt =====
-- core/response/response.go: the bodies of answers and the choice between JSON and a redirect; and
-- what core/gateway/handler.go does with them.
use caddy_formward.Base.{
  ℕ, Bool, true, false, not, ◌&&◌, List, [], ◌∷◌, Option, none, some, ◌≡◌, refl, ap, if_rule, ◌∙◌,
  arith, if◌then◌else◌, Bool-cases, Option-cases, inl, inr,
}
use caddy_formward.Text.{
  Bytes, text, bytes_eq, bytes_eq_iff, is_empty, to_lower, contains, contains_text,
}

-- `Error`: the fields are a map.
pub record Error : Type 0 where
  pub summary : Bytes
  pub code : Bytes
  pub fields : Bytes → Option Bytes

pub record Success : Type 0 where
  pub status : Bytes
  pub submission_id : Bytes

pub record PreparedMessage : Type 0 where
  pub sender : Bytes
  pub to : List Bytes
  pub reply_to : Bytes
  pub subject : Bytes
  pub body_text : Bytes

pub record DryRun : Type 0 where
  pub status : Bytes
  pub submission_id : Bytes
  pub prepared_message : PreparedMessage

-- `fields[name] = msg`
abbrev pub set_field : Bytes → Bytes → (Bytes → Option Bytes) → Bytes → Option Bytes
set_field name msg fields j = if bytes_eq name j then some msg else fields j

-- The first loop of Validation.
unfoldable pub add_missing : List Bytes → (Bytes → Option Bytes) → Bytes → Option Bytes
unfolding text
add_missing [] fields = fields
add_missing (name ∷ names) fields = add_missing names (set_field name (text "required") fields)

abbrev pub is_present : Option Bytes → Bool
is_present none = false
is_present (some msg) = true

-- The second loop, over the entries of the map in some order.
unfoldable pub add_errors : List (Bytes × Bytes) → (Bytes → Option Bytes) → Bytes → Option Bytes
add_errors [] fields = fields
add_errors ((name, msg) ∷ rest) fields =
    add_errors rest (if is_present (fields name) then fields else set_field name msg fields)

-- `Validation`
unfoldable pub validation : List Bytes → List (Bytes × Bytes) → Error
unfolding text add_missing add_errors
validation missing errors = record {
  summary = text "validation failed";
  code = text "validation_failed";
  fields = add_errors errors (add_missing missing (λ _. none));
}

pub data Mode : Type 0 where
  json redirect : Mode

-- `Negotiate`
unfoldable pub negotiate : Bytes → Bool → Mode
unfolding text
negotiate accept_header has_redirects =
    let accept = to_lower accept_header in
    if not has_redirects
    then json
    else if is_empty accept
    then redirect
    else if contains accept (text "application/json") && not (contains accept (text "text/html"))
    then json
    else redirect

-- What is written: a 303 to a URL, or a JSON body with a status.
pub data Answer : Type 0 where
  see_other : Bytes → Answer
  success_body : Success → Answer
  error_body : ℕ → Error → Answer
  plain_text : ℕ → Bytes → Answer
  dry_run_body : DryRun → Answer

abbrev redirects : Bytes → Bytes → Bool
redirects url accept =
    not (is_empty url) && elim (negotiate accept true) [ json ↦ false | redirect ↦ true ]

-- `writeSuccessResponse`, with the configured redirect and the Accept header.
unfoldable pub write_success_response : (url accept : Bytes) → Success → Answer
write_success_response url accept body =
    if redirects url accept then see_other url else success_body body

-- `writeErrorResponse`
unfoldable pub write_error_response : (url accept : Bytes) → ℕ → Bytes → Answer
write_error_response url accept status message =
    if redirects url accept then see_other url else plain_text status message

-- `writeValidationErrorResponse`
unfoldable pub write_validation_error_response : (url accept : Bytes) → Error → Answer
write_validation_error_response url accept body =
    if redirects url accept then see_other url else error_body 422 body

-- The first entry of a list of fields with the name.
unfoldable pub first_error : Bytes → List (Bytes × Bytes) → Option Bytes
first_error name [] = none
first_error name ((n, msg) ∷ rest) = if bytes_eq n name then some msg else first_error name rest

-- What the loop over the errors does to a name that is there, and to one that is not.
or_first : Option Bytes → Option Bytes → Option Bytes
or_first (some msg) later = some msg
or_first none later = later

fields-add_missing :
    (names : List Bytes) (fields : Bytes → Option Bytes) (name : Bytes)
    → add_missing names fields name
      ≡ (if contains_text name names then some (text "required") else fields name)
unfolding add_missing contains_text
fields-add_missing [] fields name = refl
fields-add_missing (n ∷ names) fields name =
    let rest = fields-add_missing names (set_field n (text "required") fields) name in
    ground (arith, rest)

-- One round of the loop.
fields-round :
    (n msg : Bytes) (fields : Bytes → Option Bytes) (name : Bytes)
    → (if is_present (fields n) then fields else set_field n msg fields) name
      ≡ or_first (fields name) (if bytes_eq n name then some msg else none)
unfolding or_first
fields-round n msg fields name =
    let same = λ (e : bytes_eq n name ≡ true). ap fields ((bytes_eq_iff n name).0 e) in
    if_rule
      (λ (g : Bytes → Option Bytes).
        g name ≡ or_first (fields name) (if bytes_eq n name then some msg else none))
      (is_present (fields n))
      (λ p. elim (Option-cases (fields name)) [
        | inl k ↦ ground (arith, same, p, k)
        | inr (a, k) ↦ ground (arith, same, p, k)
      ])
      (λ p. elim (Option-cases (fields name)) [
        | inl k ↦ ground (arith, same, p, k)
        | inr (a, k) ↦ ground (arith, same, p, k)
      ])

or_first_assoc : (a b c : Option Bytes) → or_first (or_first a b) c ≡ or_first a (or_first b c)
unfolding or_first
or_first_assoc none b c = refl
or_first_assoc (some x) b c = refl

first_or :
    (n msg : Bytes) (rest : List (Bytes × Bytes)) (name : Bytes)
    → or_first (if bytes_eq n name then some msg else none) (first_error name rest)
      ≡ first_error name ((n, msg) ∷ rest)
unfolding first_error or_first
first_or n msg rest name = elim (Bool-cases (bytes_eq n name)) [
  | inl e ↦ rw e refl
  | inr e ↦ rw e refl
]

fields-add_errors :
    (errors : List (Bytes × Bytes)) (fields : Bytes → Option Bytes) (name : Bytes)
    → add_errors errors fields name ≡ or_first (fields name) (first_error name errors)
unfolding add_errors first_error or_first
fields-add_errors [] fields name = elim (Option-cases (fields name)) [
  | inl e ↦ rw e refl
  | inr (a, e) ↦ rw e refl
]
fields-add_errors ((n, msg) ∷ rest) fields name =
    let fields' = if is_present (fields n) then fields else set_field n msg fields in
    let first = if bytes_eq n name then some msg else none in
    fields-add_errors rest fields' name
    ∙ ap (λ o. or_first o (first_error name rest)) (fields-round n msg fields name)
    ∙ or_first_assoc (fields name) first (first_error name rest)
    ∙ ap (or_first (fields name)) (first_or n msg rest name)

required_or :
    (missing : List Bytes) (errors : List (Bytes × Bytes)) (name : Bytes)
    → or_first
        (if contains_text name missing then some (text "required") else none)
        (first_error name errors)
      ≡ (if contains_text name missing then some (text "required") else first_error name errors)
unfolding or_first
required_or missing errors name = elim (Bool-cases (contains_text name missing)) [
  | inl e ↦ rw e refl
  | inr e ↦ rw e refl
]

-- In the body of a validation error a missing field reads "required", and any other field what the
-- first error of that name says.
pub fields-validation :
    (missing : List Bytes) (errors : List (Bytes × Bytes)) (name : Bytes)
    → (validation missing errors).fields name
      ≡ (if contains_text name missing then some (text "required") else first_error name errors)
unfolding validation or_first
fields-validation missing errors name =
    let all = fields-add_errors errors (add_missing missing (λ _. none)) name in
    let present = fields-add_missing missing (λ _. none) name in
    all ∙ ap (λ o. or_first o (first_error name errors)) present ∙ required_or missing errors name
