-- ===== src/Idempotency/Replay.antt =====
-- core/idempotency/cache.go: lookups against stores and claims.
use caddy_formward.Base.{
  ℕ, ◌+◌, true, false, ◌≡◌, ◌≢◌, sym, ◌∙◌, ltb, arith, if◌then◌else◌, Bool-cases, Option-cases, inl,
  inr,
}
use caddy_formward.Text.{Bytes, bytes_eq_refl}
use caddy_formward.Lru.{Lru}
use caddy_formward.Idempotency.{
  Response, Entry, replay, absent, Cache, lookup, claim_in_flight, store, found_entry, holds_live,
  is_live,
}

module _ (lru : Lru Entry) where
  open lru use {peek, get, add, remove, get_value, peek-add_self, peek-get, peek-remove_self}

  -- A lookup after a store finds the stored response exactly while less than the TTL has passed.
  pub lookup-store :
      (key : Bytes) (resp : Response) (now later : ℕ) (c : Cache lru)
      → (lookup lru key later (store lru key resp now c)).0
        ≡ (if ltb later (now + c.ttl) then replay resp else absent)
  unfolding lookup store
  lookup-store key resp now later c =
      let e : Entry = record { response = resp; expires = now + c.ttl } in
      let held = get_value key (add key e c.entries) ∙ peek-add_self key e c.entries in
      ground (arith, held, bytes_eq_refl key)

  -- Lookup and ClaimInFlight agree: where a lookup finds neither a live entry nor a request in
  -- flight, a claim that follows it at the same time succeeds; otherwise it fails.
  pub claim-lookup :
      (key : Bytes) (now : ℕ) (c : Cache lru)
      → ((lookup lru key now c).0 ≡ absent
          → (claim_in_flight lru key now (lookup lru key now c).1).0 ≡ true)
        × ((lookup lru key now c).0 ≢ absent
            → (claim_in_flight lru key now (lookup lru key now c).1).0 ≡ false)
  unfolding lookup claim_in_flight found_entry holds_live
  claim-lookup key now c =
      let touched = (get key c.entries).1 in
      let again =
        get_value key touched ∙ peek-get key key c.entries ∙ sym (get_value key c.entries) in
      let gone = get_value key (remove key touched) ∙ peek-remove_self key touched in
      elim (Bool-cases (c.inflight key)) [
        | inl flying ↦ ground (arith, flying)
        | inr free ↦ elim (Option-cases (get key c.entries).0) [
          | inl nothing ↦ ground (arith, free, nothing, again)
          | inr (e, held) ↦ elim (Bool-cases (is_live now e)) [
            | inl live ↦ ground (arith, free, held, again, live)
            | inr dead ↦ ground (arith, free, held, gone, dead)
          ]
        ]
      ]
