-- ===== src/Gateway/Serve/Ends.antt =====
-- core/gateway/handler.go: ServeHTTP of an API request with an idempotency key, from its claim to
-- its end, and of the request that repeats it.
use caddy_formward.Base.{
  ℕ, Bool, true, false, not, none, ◌≡◌, refl, ap, ◌∙◌, arith, if_rule, Bool-cases, Option-cases,
  inl, inr,
}
use caddy_formward.Text.{Bytes, is_empty, bytes_eq_refl}
use caddy_formward.Lru.{Lru}
use caddy_formward.Idempotency.{
  Response, Entry, Cache, lookup, Found, replay, in_flight, absent, store, abandon,
}
use caddy_formward.Idempotency.Claims.{perform_all}
use caddy_formward.Idempotency.Ttl.{ttl-lookup, ttl-claim, ttl-perform_all}
use caddy_formward.Idempotency.Key.{validate_key}
use caddy_formward.Response.{Answer}
use caddy_formward.Gateway.Auth.{authenticate_api_request}
use caddy_formward.Gateway.Admit.{
  Admission, admitted, admit, check_idempotency, after_lookup, claim_key,
}
use caddy_formward.Gateway.Recorder.{
  Recorder, recorder, fresh, acts, cacheable, finalize_idempotent,
}
use caddy_formward.Gateway.Writing.{Writing, write_answer}
use caddy_formward.Gateway.Serve.{Request, Handler, State, check_rate, is_post}
use caddy_formward.Gateway.Serve.Api.{
  answered, replays, Interleaving, Served, close, dispatch, serve_api, serve,
}

module _ (lru : Lru ℕ) (cache_lru : Lru Entry) (h : Handler) (writing : Writing)
    (cut_short : ℕ → Bool) (now : ℕ) (r : Request) (inter : Interleaving) where
  -- What the admission of the request gives.
  abbrev pub admission : Cache cache_lru → Admission × Cache cache_lru
  admission c =
      admit cache_lru h.api_keys r.authorization r.idempotency_key inter.between now inter.later c

  -- What the writer of the answer has recorded.
  abbrev pub record_of : Answer → Recorder
  record_of a = acts (write_answer writing a) (recorder fresh)

  finalize-inflight :
      (rec : Recorder) (key : Bytes) (at : ℕ) (c : Cache cache_lru)
      → (finalize_idempotent cache_lru key rec at c).inflight key ≡ false
  unfolding finalize_idempotent store abandon
  finalize-inflight rec key at c =
      let same = bytes_eq_refl key in
      if_rule (λ (c' : Cache cache_lru). c'.inflight key ≡ false) (not (cacheable rec.status))
        (λ other. rw same refl) (λ kept. rw same refl)

  close-inflight :
      (a : Answer) (c : Cache cache_lru)
      → is_empty r.idempotency_key ≡ false
      → (close lru cache_lru h writing cut_short now r inter a c).inflight r.idempotency_key ≡ false
  unfolding close
  close-inflight a c given =
      let done =
        finalize-inflight (record_of a) r.idempotency_key inter.ended
          (perform_all cache_lru inter.during c) in
      rw given done

  -- A POST that is admitted is answered by the rest of the handler, and closed.
  pub admitted_served :
      (s : State lru) (c : Cache cache_lru) (k : Bytes)
      → is_post lru h cut_short now r ≡ true
      → h.endpoint.api_mode ≡ true
      → (admission c).0 ≡ admitted k
      → serve lru cache_lru h writing cut_short now r inter s c ≡ (
        answered (check_rate lru h cut_short now r k s).0,
        (check_rate lru h cut_short now r k s).1,
        close lru cache_lru h writing cut_short now r inter
            (check_rate lru h cut_short now r k s).0
            (admission c).1,
      )
  unfolding serve serve_api dispatch
  admitted_served s c k post api went = rw (serve, post, api, went) refl

  -- An API request that was admitted with an idempotency key has given its claim of the key up at
  -- its end, whatever its answer is and whatever calls of the cache other requests made meanwhile.
  pub serve_releases :
      (s : State lru) (c : Cache cache_lru) (k : Bytes)
      → is_post lru h cut_short now r ≡ true
      → h.endpoint.api_mode ≡ true
      → is_empty r.idempotency_key ≡ false
      → (admission c).0 ≡ admitted k
      → (serve lru cache_lru h writing cut_short now r inter s c).2.inflight r.idempotency_key
        ≡ false
  serve_releases s c k post api given went =
      let a = (check_rate lru h cut_short now r k s).0 in
      ap
        (λ (t : Served lru cache_lru h writing cut_short now r inter).
          t.2.inflight r.idempotency_key)
        (admitted_served s c k post api went)
      ∙ close-inflight a (admission c).1 given

  -- An admitted idempotency key is well formed.
  admitted_valid :
      (matched : Bytes) (c : Cache cache_lru) {k : Bytes}
      → is_empty r.idempotency_key ≡ false
      → (check_idempotency cache_lru matched r.idempotency_key inter.between now inter.later c).0
        ≡ admitted k
      → validate_key r.idempotency_key ≡ none
  unfolding check_idempotency
  admitted_valid matched c given went = elim (Option-cases (validate_key r.idempotency_key)) [
    | inl good ↦ good
    | inr (bad, v) ↦ absurd (ground (arith, given, v, went))
  ]

  pub admit_valid :
      (c : Cache cache_lru) {k : Bytes}
      → is_empty r.idempotency_key ≡ false
      → (admission c).0 ≡ admitted k
      → validate_key r.idempotency_key ≡ none
  unfolding admit
  admit_valid c {k} given went =
      elim (Bool-cases (authenticate_api_request h.api_keys r.authorization).1) [
        | inl good ↦
            let valid =
              admitted_valid (authenticate_api_request h.api_keys r.authorization).0 c {k = k}
                given in
            ground (arith, good, went, valid)
        | inr bad ↦ absurd (ground (arith, bad, went))
      ]

  -- The admission leaves the cache's TTL.
  ttl-after_lookup :
      (matched : Bytes) (f : Found) (c : Cache cache_lru)
      → (after_lookup cache_lru matched r.idempotency_key inter.between inter.later f c).1.ttl
        ≡ c.ttl
  unfolding after_lookup claim_key
  ttl-after_lookup matched (replay resp) c = refl
  ttl-after_lookup matched in_flight c = refl
  ttl-after_lookup matched absent c =
      let claimed =
        ttl-claim cache_lru r.idempotency_key inter.later (perform_all cache_lru inter.between c) in
      let before = ttl-perform_all cache_lru inter.between c in ground (arith, claimed, before)

  pub ttl-admission : (c : Cache cache_lru) → (admission c).1.ttl ≡ c.ttl
  unfolding admit check_idempotency
  ttl-admission c =
      let matched = (authenticate_api_request h.api_keys r.authorization).0 in
      let found = lookup cache_lru r.idempotency_key now c in
      let looked = ttl-lookup cache_lru r.idempotency_key now c in
      let after = ttl-after_lookup matched found.0 found.1 ∙ looked in
      elim (Option-cases (validate_key r.idempotency_key)) [
        | inl good ↦ ground (arith, good, after)
        | inr (bad, v) ↦ ground (arith, v)
      ]

  -- An authenticated request whose key has a live entry is answered from it.
  pub replay_served :
      (s : State lru) (c : Cache cache_lru) (resp : Response)
      → is_post lru h cut_short now r ≡ true
      → h.endpoint.api_mode ≡ true
      → is_empty r.idempotency_key ≡ false
      → validate_key r.idempotency_key ≡ none
      → (authenticate_api_request h.api_keys r.authorization).1 ≡ true
      → (lookup cache_lru r.idempotency_key now c).0 ≡ replay resp
      → ((serve lru cache_lru h writing cut_short now r inter s c).0 ≡ replays resp)
        × ((serve lru cache_lru h writing cut_short now r inter s c).1.sends ≡ s.sends)
  unfolding serve serve_api dispatch admit check_idempotency after_lookup
  replay_served s c resp post api given valid known found =
      rw (serve, post, api, known, given, valid, found) (refl, refl)
