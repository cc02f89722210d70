-- ===== src/Idempotency/Ttl.antt =====
-- core/idempotency/cache.go: the TTL of a cache, which no operation changes.
use caddy_formward.Base.{ℕ, List, [], ◌∷◌, Option, none, some, ◌≡◌, refl, ◌∙◌, arith}
use caddy_formward.Text.{Bytes}
use caddy_formward.Lru.{Lru}
use caddy_formward.Idempotency.{Entry, Cache, lookup, claim_in_flight, store, abandon, found_entry}
use caddy_formward.Idempotency.Claims.{Call, look, claim, put, drop_claim, perform, perform_all}

module _ (lru : Lru Entry) where
  ttl-found_entry :
      (o : Option Entry) (key : Bytes) (now : ℕ) (c : Cache lru)
      → (found_entry lru o key now c).1.ttl ≡ c.ttl
  unfolding found_entry
  ttl-found_entry none key now c = refl
  ttl-found_entry (some e) key now c = ground arith

  pub ttl-lookup : (key : Bytes) (now : ℕ) (c : Cache lru) → (lookup lru key now c).1.ttl ≡ c.ttl
  unfolding lookup
  ttl-lookup key now c =
      let found = lru.get key c.entries in
      let looked = ttl-found_entry found.0 key now (record c { entries = found.1 }) in
      ground (arith, looked)

  pub ttl-claim :
      (key : Bytes) (now : ℕ) (c : Cache lru) → (claim_in_flight lru key now c).1.ttl ≡ c.ttl
  unfolding claim_in_flight
  ttl-claim key now c = ground arith

  ttl-perform : (call : Call) (now : ℕ) (c : Cache lru) → (perform lru call now c).1.ttl ≡ c.ttl
  unfolding perform store abandon
  ttl-perform (look k) now c = ttl-lookup k now c
  ttl-perform (claim k) now c = ttl-claim k now c
  ttl-perform (put k x) now c = refl
  ttl-perform (drop_claim k) now c = refl

  pub ttl-perform_all :
      (calls : List (Call × ℕ)) (c : Cache lru) → (perform_all lru calls c).ttl ≡ c.ttl
  unfolding perform_all
  ttl-perform_all [] c = refl
  ttl-perform_all ((call, now) ∷ calls) c =
      ttl-perform_all calls (perform lru call now c).1 ∙ ttl-perform call now c
