-- ===== src/Gateway/Admit.antt =====
-- core/gateway/handler.go: how ServeHTTP admits an API request: its key, and its idempotency key.
-- Between the lookup and the claim of the idempotency key other requests may call the cache.
-- The counters and the log are left out.
use caddy_formward.Base.{
  ℕ, true, false, not, List, none, some, ◌≡◌, ◌≢◌, refl, arith, if◌then◌else◌, Bool-cases,
  Option-cases, inl, inr,
}
use caddy_formward.Text.{Bytes, is_empty}
use caddy_formward.Lru.{Lru}
use caddy_formward.Idempotency.{
  Response, Entry, Found, replay, in_flight, absent, Cache, lookup, claim_in_flight,
}
use caddy_formward.Idempotency.Claims.{Call, perform_all, NoRelease, still_claimed, claimed_after}
use caddy_formward.Idempotency.Key.{KeyError, validate_key}
use caddy_formward.Gateway.Auth.{authenticate_api_request}

-- The statuses 401, 400 and 409, a replay, or the rate-limit key with which the request goes on.
pub data Admission : Type 0 where
  unauthorized : Admission
  bad_key : KeyError → Admission
  replayed : Response → Admission
  conflict : Admission
  admitted : Bytes → Admission

module _ (lru : Lru Entry) where
  -- The claim, of a cache in which the lookup found nothing.
  unfoldable pub claim_key :
      (matched idem : Bytes) → (later : ℕ) → Cache lru → Admission × Cache lru
  claim_key matched idem later c =
      let (won, c') = claim_in_flight lru idem later c in
      if not won then (conflict, c') else (admitted matched, c')

  -- From the result of the lookup on.
  unfoldable pub after_lookup :
      (matched idem : Bytes)
      → List (Call × ℕ)
      → (later : ℕ) → Found
      → Cache lru
      → Admission × Cache lru
  unfolding claim_key
  after_lookup matched idem between later (replay r) c = (replayed r, c)
  after_lookup matched idem between later in_flight c = (conflict, c)
  after_lookup matched idem between later absent c =
      claim_key matched idem later (perform_all lru between c)

  -- The idempotency check of an authenticated request.
  unfoldable pub check_idempotency :
      (matched idem : Bytes) → List (Call × ℕ) → (now later : ℕ) → Cache lru → Admission × Cache lru
  unfolding after_lookup
  check_idempotency matched idem between now later c =
      if is_empty idem then (admitted matched, c) else elim (validate_key idem) [
        | some e ↦ (bad_key e, c)
        | none ↦
            after_lookup matched idem between later (lookup lru idem now c).0
              (lookup lru idem now c).1
      ]

  -- The two checks, of the configured keys, the Authorization header and the Idempotency-Key.
  unfoldable pub admit :
      List Bytes
      → (header idem : Bytes) → List (Call × ℕ)
      → (now later : ℕ) → Cache lru
      → Admission × Cache lru
  unfolding check_idempotency
  admit keys header idem between now later c =
      let (matched, good) = authenticate_api_request keys header in
      if not good then (unauthorized, c) else check_idempotency matched idem between now later c

  -- A request that goes on holds the claim of its key.
  claim_key-inflight :
      (matched idem : Bytes) (later : ℕ) (c : Cache lru) {k : Bytes}
      → (claim_key matched idem later c).0 ≡ admitted k
      → (claim_key matched idem later c).1.inflight idem ≡ true
  unfolding claim_key
  claim_key-inflight matched idem later c {k} e =
      elim (Bool-cases (claim_in_flight lru idem later c).0) [
        | inl won ↦ let held = claimed_after lru idem later c won in ground (arith, won, held)
        | inr lost ↦ absurd (ground (arith, lost, e))
      ]

  after_lookup-inflight :
      (matched idem : Bytes) (between : List (Call × ℕ)) (later : ℕ) (f : Found) (c : Cache lru)
      {k : Bytes}
      → (after_lookup matched idem between later f c).0 ≡ admitted k
      → (after_lookup matched idem between later f c).1.inflight idem ≡ true
  unfolding after_lookup
  after_lookup-inflight matched idem between later (replay r) c e = cc e
  after_lookup-inflight matched idem between later in_flight c e = cc e
  after_lookup-inflight matched idem between later absent c {k} e =
      claim_key-inflight matched idem later (perform_all lru between c) {k = k} e

  check-inflight :
      (matched idem : Bytes) (between : List (Call × ℕ)) (now later : ℕ) (c : Cache lru) {k : Bytes}
      → is_empty idem ≡ false
      → (check_idempotency matched idem between now later c).0 ≡ admitted k
      → (check_idempotency matched idem between now later c).1.inflight idem ≡ true
  unfolding check_idempotency
  check-inflight matched idem between now later c {k} given e =
      elim (Option-cases (validate_key idem)) [
        | inr (bad, v) ↦ absurd (ground (arith, given, v, e))
        | inl v ↦
            let go =
              after_lookup-inflight matched idem between later (lookup lru idem now c).0
                (lookup lru idem now c).1 {k = k} in
            ground (arith, given, v, e, go)
      ]

  admit-inflight :
      (keys : List Bytes) (header idem : Bytes) (between : List (Call × ℕ)) (now later : ℕ)
      (c : Cache lru) {k : Bytes}
      → is_empty idem ≡ false
      → (admit keys header idem between now later c).0 ≡ admitted k
      → (admit keys header idem between now later c).1.inflight idem ≡ true
  unfolding admit
  admit-inflight keys header idem between now later c {k} given e =
      elim (Bool-cases (authenticate_api_request keys header).1) [
        | inl good ↦
            let go =
              check-inflight (authenticate_api_request keys header).0 idem between now later c
                {k = k} given in
            ground (arith, good, e, go)
        | inr bad ↦ absurd (ground (arith, bad, e))
      ]

  claimed_lookup :
      (idem : Bytes) (now : ℕ) (c : Cache lru)
      → c.inflight idem ≡ true
      → (lookup lru idem now c).0 ≡ in_flight
  unfolding lookup
  claimed_lookup idem now c held = rw held refl

  in_flight_stops :
      (matched idem : Bytes) (between : List (Call × ℕ)) (later : ℕ) (f : Found) (c : Cache lru)
      (k : Bytes)
      → f ≡ in_flight
      → (after_lookup matched idem between later f c).0 ≢ admitted k
  unfolding after_lookup
  in_flight_stops matched idem between later (replay r) c k h e = cc h
  in_flight_stops matched idem between later in_flight c k h e = cc e
  in_flight_stops matched idem between later absent c k h e = cc h

  -- A request whose idempotency key is claimed does not go on.
  claimed_check :
      (matched idem : Bytes) (between : List (Call × ℕ)) (now later : ℕ) (c : Cache lru) (k : Bytes)
      → is_empty idem ≡ false
      → c.inflight idem ≡ true
      → (check_idempotency matched idem between now later c).0 ≢ admitted k
  unfolding check_idempotency
  claimed_check matched idem between now later c k given held e =
      elim (Option-cases (validate_key idem)) [
        | inr (bad, v) ↦ absurd (ground (arith, given, v, e))
        | inl v ↦
            let stops =
              in_flight_stops matched idem between later (lookup lru idem now c).0
                (lookup lru idem now c).1 k (claimed_lookup idem now c held) in
            ground (arith, given, v, e, stops)
      ]

  claimed_stops :
      (keys : List Bytes) (header idem : Bytes) (between : List (Call × ℕ)) (now later : ℕ)
      (c : Cache lru) (k : Bytes)
      → is_empty idem ≡ false
      → c.inflight idem ≡ true
      → (admit keys header idem between now later c).0 ≢ admitted k
  unfolding admit
  claimed_stops keys header idem between now later c k given held e =
      let matched = (authenticate_api_request keys header).0 in
      elim (Bool-cases (authenticate_api_request keys header).1) [
        | inl good ↦
            let stops = claimed_check matched idem between now later c k given held in
            ground (arith, good, e, stops)
        | inr bad ↦ absurd (ground (arith, bad, e))
      ]

  -- While an admitted request with an idempotency key is served, up to the call that stores its
  -- answer or abandons its key, no other request with that idempotency key is admitted, whatever
  -- API key it has and whatever calls of the cache come between.
  pub admit_excludes :
      (keys : List Bytes) (header idem : Bytes) (between : List (Call × ℕ)) (now later : ℕ)
      (c : Cache lru) (k : Bytes) (calls : List (Call × ℕ)) (header' : Bytes)
      (between' : List (Call × ℕ)) (now' later' : ℕ) (k' : Bytes)
      → is_empty idem ≡ false
      → (admit keys header idem between now later c).0 ≡ admitted k
      → NoRelease lru idem calls
      → (admit keys header' idem between' now' later'
          (perform_all lru calls (admit keys header idem between now later c).1)).0
        ≢ admitted k'
  admit_excludes keys header idem between now later c k calls header' between' now' later' k' given
        went quiet =
      let c1 = (admit keys header idem between now later c).1 in
      let held = admit-inflight keys header idem between now later c {k = k} given went in
      claimed_stops keys header' idem between' now' later' (perform_all lru calls c1) k' given
        (still_claimed lru calls idem c1 quiet held)
