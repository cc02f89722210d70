-- ===== src/Smtp/Envelope/Allowlist.antt =====
-- The allowlist test against what its comment promises.
use caddy_formward.Base.{
  suc, true, List, [], ◌∷◌, ◌++◌, ◌≡◌, ◌↔◌, ◌⊎◌, refl, sym, ap, ◌∙◌, subst, inl, inr, arith, drop,
  take, Bool-cases, Option-cases,
}
use caddy_formward.Text.{Bytes, text, bytes_eq, bytes_eq_iff, has_prefix, index_byte}
use caddy_formward.Text.Search.{
  Without, index_byte-append, index_byte-split, drop-append-cons, has_prefix-split,
  has_prefix-append,
}
use caddy_formward.Smtp.Envelope.{has_domain, matches_entry, matches_allowlist}

-- An entry admits every address if it is `*`, itself, and if it is `*@domain` the addresses whose
-- part behind the first `@` is the domain.
abbrev pub Admits : Bytes → Bytes → Type 0
Admits addr entry =
    (entry ≡ text "*")
    ⊎ (entry ≡ addr)
    ⊎ ((user : Bytes) × (domain : Bytes) × (entry ≡ text "*@" ++ domain)
        × (addr ≡ user ++ b'@' ∷ domain)
        × Without b'@' user)

abbrev pub Listed : Bytes → List Bytes → Type 0
Listed addr [] = ⊥
Listed addr (e ∷ es) = Admits addr e ⊎ Listed addr es

domain_sound :
    (addr domain : Bytes)
    → has_domain addr domain ≡ true
    → (user : Bytes) × (addr ≡ user ++ b'@' ∷ domain) × Without b'@' user
unfolding has_domain
domain_sound addr domain h = elim (Option-cases (index_byte addr b'@')) [
  | inl e ↦ absurd (ground arith)
  | inr (i, e) ↦
      let (split, before) = index_byte-split addr b'@' i e in
      let same : drop (suc i) addr ≡ domain = (bytes_eq_iff _ _).0 (ground arith) in
      (take i addr, split ∙ ap (λ d. take i addr ++ b'@' ∷ d) same, before)
]

domain_complete :
    (user domain : Bytes) → Without b'@' user → has_domain (user ++ b'@' ∷ domain) domain ≡ true
unfolding has_domain
domain_complete user domain h =
    rw (index_byte-append b'@' user domain h, has_domain)
      (rw drop-append-cons ((bytes_eq_iff domain domain).1 refl))

entry_sound : (addr entry : Bytes) → matches_entry addr entry ≡ true → Admits addr entry
unfolding matches_entry text
entry_sound addr entry h = elim (Bool-cases (bytes_eq entry (text "*"))) [
  | inl star ↦ inl ((bytes_eq_iff _ _).0 star)
  | inr not_star ↦ elim (Bool-cases (bytes_eq entry addr)) [
    | inl same ↦ inr (inl ((bytes_eq_iff _ _).0 same))
    | inr not_same ↦
        let (user, split, before) = domain_sound addr (drop 2 entry) (ground arith) in
        inr (
          inr
            (user, drop 2 entry, has_prefix-split entry (text "*@") (ground arith), split, before))
  ]
]

entry_complete : (addr entry : Bytes) → Admits addr entry → matches_entry addr entry ≡ true
unfolding matches_entry text
entry_complete addr entry (inl star) = rw ((bytes_eq_iff entry (text "*")).1 star) refl
entry_complete addr entry (inr (inl same)) = ground (arith, bytes_eq_iff entry addr)
entry_complete addr entry (inr (inr (user, domain, e, a, before))) =
    let prefixed =
      subst (λ x. has_prefix x (text "*@") ≡ true) (sym e) (has_prefix-append (text "*@") domain) in
    let of_domain =
      subst (λ x. has_domain addr (drop 2 x) ≡ true) (sym e)
        (subst (λ x. has_domain x domain ≡ true) (sym a) (domain_complete user domain before)) in
    ground arith

list_sound :
    (addr : Bytes) (list : List Bytes) → matches_allowlist addr list ≡ true → Listed addr list
unfolding matches_allowlist
list_sound addr [] h = cc
list_sound addr (e ∷ es) h = elim (Bool-cases (matches_entry addr e)) [
  | inl here ↦ inl (entry_sound addr e here)
  | inr later ↦ inr (list_sound addr es (ground arith))
]

list_complete :
    (addr : Bytes) (list : List Bytes) → Listed addr list → matches_allowlist addr list ≡ true
unfolding matches_allowlist
list_complete addr [] h = absurd h
list_complete addr (e ∷ es) (inl here) = rw (entry_complete addr e here)
list_complete addr (e ∷ es) (inr later) = ground (arith, list_complete addr es later)

-- An address passes the allowlist exactly when an entry admits it: `*`, the address itself, or
-- `*@domain` for the domain behind the address's first `@`.
pub matches_allowlist_iff :
    (addr : Bytes) (list : List Bytes) → (matches_allowlist addr list ≡ true) ↔ Listed addr list
matches_allowlist_iff addr list = (list_sound addr list, list_complete addr list)
