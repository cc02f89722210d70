-- ===== src/Idempotency/Claims.antt =====
-- core/idempotency/cache.go: interleavings of calls by concurrent requests, each of which holds the
-- mutex, and the claims of a key among them.
use caddy_formward.Base.{ℕ, Bool, true, false, List, [], ◌∷◌, Option, none, some, ◌≡◌, refl, arith}
use caddy_formward.Text.{Bytes, bytes_eq, bytes_eq_refl}
use caddy_formward.Lru.{Lru}
use caddy_formward.Idempotency.{
  Response, Entry, in_flight, Cache, lookup, claim_in_flight, store, abandon, found_entry,
}

pub data Call : Type 0 where
  look : Bytes → Call
  claim : Bytes → Call
  put : Bytes → Response → Call
  drop_claim : Bytes → Call

-- The call releases the claim of the key.
abbrev pub releases : Bytes → Call → Bool
releases key (put k r) = bytes_eq k key
releases key (drop_claim k) = bytes_eq k key
releases key _ = false

module _ (lru : Lru Entry) where
  -- One call at a time `now`: whether it claimed its key, and the cache after it.
  unfoldable pub perform : Call → ℕ → Cache lru → Bool × Cache lru
  perform (look key) now c = (false, (lookup lru key now c).1)
  perform (claim key) now c = claim_in_flight lru key now c
  perform (put key r) now c = (false, store lru key r now c)
  perform (drop_claim key) now c = (false, abandon lru key c)

  -- A sequence of calls, each with its time.
  unfoldable pub perform_all : List (Call × ℕ) → Cache lru → Cache lru
  perform_all [] c = c
  perform_all ((call, now) ∷ calls) c = perform_all calls (perform call now c).1

  abbrev pub NoRelease : Bytes → List (Call × ℕ) → Type 0
  NoRelease key [] = Unit
  NoRelease key ((call, now) ∷ calls) = (releases key call ≡ false) × NoRelease key calls

  inflight-found_entry :
      (o : Option Entry) (k key : Bytes) (now : ℕ) (c : Cache lru)
      → (found_entry lru o k now c).1.inflight key ≡ c.inflight key
  unfolding found_entry
  inflight-found_entry none k key now c = refl
  inflight-found_entry (some e) k key now c = ground arith

  stays_claimed :
      (call : Call) (now : ℕ) (key : Bytes) (c : Cache lru)
      → releases key call ≡ false
      → c.inflight key ≡ true
      → (perform call now c).1.inflight key ≡ true
  unfolding perform lookup claim_in_flight store abandon
  stays_claimed (look k) now key c r h = ground arith
  stays_claimed (claim k) now key c r h = ground arith
  stays_claimed (put k x) now key c r h = ground arith
  stays_claimed (drop_claim k) now key c r h = ground arith

  pub still_claimed :
      (calls : List (Call × ℕ)) (key : Bytes) (c : Cache lru)
      → NoRelease key calls
      → c.inflight key ≡ true
      → (perform_all calls c).inflight key ≡ true
  unfolding perform_all
  still_claimed [] key c r h = h
  still_claimed ((call, now) ∷ calls) key c r h =
      still_claimed calls key _ r.1 (stays_claimed call now key c r.0 h)

  pub claimed_after :
      (key : Bytes) (now : ℕ) (c : Cache lru)
      → (claim_in_flight lru key now c).0 ≡ true
      → (claim_in_flight lru key now c).1.inflight key ≡ true
  unfolding claim_in_flight
  claimed_after key now c won = ground (arith, bytes_eq_refl key)

  -- After a successful claim of a key, and calls none of which stores or abandons that key, a
  -- second claim of it fails and a lookup of it reports a request in flight.
  pub claim_excludes :
      (key : Bytes) (now later : ℕ) (calls : List (Call × ℕ)) (c : Cache lru)
      → (claim_in_flight lru key now c).0 ≡ true
      → NoRelease key calls
      → let c' = perform_all calls (claim_in_flight lru key now c).1 in
        ((claim_in_flight lru key later c').0 ≡ false) × ((lookup lru key later c').0 ≡ in_flight)
  claim_excludes key now later calls c won quiet =
      let claimed =
        still_claimed calls key (claim_in_flight lru key now c).1 quiet
          (claimed_after key now c won) in
      (unfold claim_in_flight in rw claimed, unfold lookup in rw claimed)
