-- ===== src/Idempotency/Kept.antt =====
-- core/idempotency/cache.go: a stored response through the calls of other requests.
use caddy_formward.Base.{
  ℕ, ◌+◌, ◌<◌, Bool, false, List, [], ◌∷◌, Option, none, some, ◌≡◌, ◌≢◌, ◌⊎◌, inl, inr, refl, sym,
  ◌∙◌, arith, Bool-cases, if_rule, ap,
}
use caddy_formward.Text.{Bytes, bytes_eq, bytes_eq_refl, bytes_eq_iff}
use caddy_formward.Lru.{Lru}
use caddy_formward.Idempotency.{
  Response, Entry, Cache, lookup, claim_in_flight, store, abandon, found_entry, is_live, holds_live,
  Found, replay,
}
use caddy_formward.Idempotency.Claims.{Call, look, claim, put, drop_claim, perform, perform_all}

-- The call stores a response under the key.
abbrev pub stores : Bytes → Call → Bool
stores key (put k r) = bytes_eq k key
stores key _ = false

-- None of the calls stores under the key, and each is made before a time.
abbrev pub NoStore : Bytes → ℕ → List (Call × ℕ) → Type 0
NoStore key end' [] = Unit
NoStore key end' ((call, now) ∷ calls) =
    (stores key call ≡ false) × (now < end') × NoStore key end' calls

apart : (j k : Bytes) → bytes_eq k j ≡ false → j ≢ k
apart j k h e = let same = (bytes_eq_iff k j).1 (sym e) in cc

module _ (lru : Lru Entry) where
  open lru use {peek, add, get, remove, get_value, peek-get, peek-add_ne, peek-add_self}
  open lru use {peek-remove_self, peek-remove_ne}

  -- The entry is there and its key is free, or it is gone.
  abbrev pub Holds : Bytes → Entry → Cache lru → Type 0
  Holds key e c =
      ((peek key c.entries ≡ some e) × (c.inflight key ≡ false)) ⊎ (peek key c.entries ≡ none)

  -- The content of the key stays, or goes.
  Stays : Bytes → Cache lru → Cache lru → Type 0
  Stays key c c' =
      ((peek key c'.entries ≡ peek key c.entries) ⊎ (peek key c'.entries ≡ none))
      × (c.inflight key ≡ false → c'.inflight key ≡ false)

  Holds-Stays :
      (key : Bytes) (e : Entry) (c c' : Cache lru) → Stays key c c' → Holds key e c → Holds key e c'
  unfolding Stays
  Holds-Stays key e c c' (inl same, free) (inl (held, open')) = inl (same ∙ held, free open')
  Holds-Stays key e c c' (inl same, free) (inr gone) = inr (same ∙ gone)
  Holds-Stays key e c c' (inr gone', free) h = inr gone'

  removed :
      (key k : Bytes) (c : lru.Cache)
      → (peek key (remove k c) ≡ peek key c) ⊎ (peek key (remove k c) ≡ none)
  removed key k c = elim (Bool-cases (bytes_eq k key)) [
    | inl same ↦
        let e = (bytes_eq_iff k key).0 same in
        inr (ap (λ j. peek key (remove j c)) e ∙ peek-remove_self key c)
    | inr other ↦ inl (peek-remove_ne key k c (apart key k other))
  ]

  found-Stays :
      (o : Option Entry) (key k : Bytes) (now : ℕ) (c : Cache lru)
      → Stays key c (found_entry lru o k now c).1
  unfolding found_entry Stays
  found-Stays none key k now c = (inl refl, λ h. h)
  found-Stays (some e) key k now c =
      let out = removed key k c.entries in
      if_rule
        (λ (x : Found × Cache lru).
          ((peek key x.1.entries ≡ peek key c.entries) ⊎ (peek key x.1.entries ≡ none))
          × (c.inflight key ≡ false → x.1.inflight key ≡ false))
        (is_live now e) (λ live. (inl refl, λ h. h)) (λ dead. (out, λ h. h))

  look-Stays : (key k : Bytes) (now : ℕ) (c : Cache lru) → Stays key c (lookup lru k now c).1
  unfolding lookup Stays
  look-Stays key k now c =
      let touched = record c { entries = (get k c.entries).1 } in
      let same = peek-get key k c.entries in
      let (content, free) = found-Stays (get k c.entries).0 key k now touched in
      elim (Bool-cases (c.inflight k)) [
        | inl flying ↦ rw flying (inl refl, λ h. h)
        | inr idle ↦
            rw idle
              (elim content [ inl kept ↦ (inl (kept ∙ same), free) | inr gone ↦ (inr gone, free) ])
      ]

  -- A claim leaves the content, and a live entry's key free.
  claim-Holds :
      (k key : Bytes) (now : ℕ) (e : Entry) (c : Cache lru)
      → now < e.expires
      → Holds key e c
      → Holds key e (claim_in_flight lru k now c).1
  unfolding claim_in_flight holds_live
  claim-Holds k key now e c soon (inr gone) =
      let same = peek-get key k c.entries ∙ gone in inr (ground (arith, same, gone))
  claim-Holds k key now e c soon (inl (held, free)) =
      let same = peek-get key k c.entries ∙ held in
      elim (Bool-cases (bytes_eq k key)) [
        | inl this ↦
            let is_key = (bytes_eq_iff k key).0 this in
            let found : (get k c.entries).0 ≡ some e =
              get_value k c.entries ∙ ap (λ j. peek j c.entries) is_key ∙ held in
            inl (ground (arith, same, held, free, found, soon), ground (arith, free, found, soon))
        | inr other ↦ inl (ground (arith, same, held), ground (arith, free, other))
      ]

  put-Holds :
      (k key : Bytes) (r : Response) (now : ℕ) (e : Entry) (c : Cache lru)
      → bytes_eq k key ≡ false
      → Holds key e c
      → Holds key e (store lru k r now c)
  unfolding store
  put-Holds k key r now e c other h =
      let content =
        peek-add_ne key k (record { response = r; expires = now + c.ttl }) c.entries
          (apart key k other) in
      Holds-Stays key e c (store lru k r now c)
        (unfold Stays in (content, λ f. ground (arith, f, other))) h

  perform-Holds :
      (call : Call) (now : ℕ) (key : Bytes) (e : Entry) (c : Cache lru)
      → stores key call ≡ false
      → now < e.expires
      → Holds key e c
      → Holds key e (perform lru call now c).1
  unfolding perform abandon
  perform-Holds (look k) now key e c other soon h =
      Holds-Stays key e c (lookup lru k now c).1 (look-Stays key k now c) h
  perform-Holds (claim k) now key e c other soon h = claim-Holds k key now e c soon h
  perform-Holds (put k r) now key e c other soon h = put-Holds k key r now e c other h
  perform-Holds (drop_claim k) now key e c other soon (inr gone) = inr gone
  perform-Holds (drop_claim k) now key e c other soon (inl (held, free)) =
      inl (held, ground (arith, free))

  pub perform_all-Holds :
      (calls : List (Call × ℕ)) (key : Bytes) (e : Entry) (c : Cache lru)
      → NoStore key e.expires calls
      → Holds key e c
      → Holds key e (perform_all lru calls c)
  unfolding perform_all
  perform_all-Holds [] key e c quiet h = h
  perform_all-Holds ((call, now) ∷ calls) key e c (other, soon, quiet) h =
      perform_all-Holds calls key e (perform lru call now c).1 quiet
        (perform-Holds call now key e c other soon h)

  -- What a lookup finds of it.
  pub lookup-Holds :
      (key : Bytes) (later : ℕ) (e : Entry) (c : Cache lru)
      → later < e.expires
      → Holds key e c
      → ((lookup lru key later c).0 ≡ replay e.response) ⊎ (peek key c.entries ≡ none)
  unfolding lookup found_entry
  lookup-Holds key later e c soon (inr gone) = inr gone
  lookup-Holds key later e c soon (inl (held, free)) =
      let found = get_value key c.entries ∙ held in inl (ground (arith, free, found, soon))

  pub store-Holds :
      (key : Bytes) (r : Response) (now : ℕ) (c : Cache lru)
      → Holds key (record { response = r; expires = now + c.ttl }) (store lru key r now c)
  unfolding store
  store-Holds key r now c =
      let held = peek-add_self key (record { response = r; expires = now + c.ttl }) c.entries in
      let same = bytes_eq_refl key in inl (held, ground (arith, same))
