-- ===== src/Tests/Limits.antt =====
-- The rate limiter and the idempotency cache on concrete addresses and keys, with a cache that
-- never drops an entry.
use caddy_formward.Base.{
  ℕ, ◌+◌, ◌-◌, ◌*◌, ◌≤◌, true, false, List, [], ◌∷◌, Option, none, some, ◌≡◌, ◌≢◌, ◌↔◌, ◌⊎◌, refl,
  sym, length, arith, inl, All, ltb, if◌then◌else◌,
}
use caddy_formward.Text.{Bytes, text, bytes_eq, bytes_eq_refl, bytes_eq_ne, bytes_eq_iff}
use caddy_formward.Lru.{Lru}
use caddy_formward.Ratelimit.Bucket.{Rate, request, AllBy}
use caddy_formward.Ratelimit.Limiter.{Limiter, initial, allow_at}
use caddy_formward.Ratelimit.Limiter.Separate.{
  bucket_of, IsSeparate, initial-IsSeparate, allow_at-IsSeparate,
}
use caddy_formward.Ratelimit.Limiter.Requests.{
  met, allow_at_self, allow_at_ne, allowed, allowed_rate, Keeps, times_of,
}
use caddy_formward.Idempotency.{
  Response, Entry, replay, in_flight, absent, Cache, lookup, claim_in_flight, store,
}
use caddy_formward.Idempotency.Claims.{Call, claim, look, perform_all, claim_excludes}
use caddy_formward.Idempotency.Replay.{lookup-store, claim-lookup}
use caddy_formward.Idempotency.Key.{validate_key, IsPrintable, validate_key_iff}

-- A map as a function.
abbrev pub put : {V : Type 0} → Bytes → Option V → (Bytes → Option V) → Bytes → Option V
put k v c j = if bytes_eq k j then v else c j

pub put_self : {V : Type 0} (k : Bytes) (v : Option V) (c : Bytes → Option V) → put k v c k ≡ v
put_self k v c = rw (bytes_eq_refl k) refl

pub put_ne :
    {V : Type 0} (j k : Bytes) (v : Option V) (c : Bytes → Option V) → j ≢ k → put k v c j ≡ c j
put_ne j k v c ne = rw (bytes_eq_ne k j (λ e. ne (sym e))) refl

abbrev pub memory : (V : Type 0) → Lru V
memory V = record {
  Cache = Bytes → Option V;
  empty = λ n k. none;
  get = λ k c. (c k, c);
  add = λ k v c. put k (some v) c;
  remove = λ k c. put k none c;
  peek = λ k c. c k;
  peek-empty = λ n k. refl;
  get_value = λ k c. refl;
  peek-get = λ j k c. refl;
  peek-add_self = λ k v c. put_self k (some v) c;
  peek-add_ne = λ j k v c ne. inl (put_ne j k (some v) c ne);
  peek-remove_self = λ k c. put_self k none c;
  peek-remove_ne = λ j k c ne. put_ne j k none c ne;
}

-- Three requests in a minute, in nanoseconds.
abbrev rate : Rate
rate = record { count = 3; interval = 60000000000 }

abbrev pub limiter : Limiter (memory ℕ)
limiter = initial (memory ℕ) rate 9999

abbrev ip : Bytes
ip = text "10.0.0.1"

-- Requests of the address, and one of another between them.
abbrev visits : List (Bytes × ℕ)
visits = (ip, 6) ∷ (text "10.0.0.2", 6) ∷ (ip, 7) ∷ (ip, 8) ∷ []

visits_keep : Keeps (memory ℕ) ip visits (allow_at (memory ℕ) ip 5 limiter).1
unfolding allow_at bucket_of text initial bytes_eq
visits_keep = (λ e. cc, (λ e. cc, (λ e. cc, (λ e. cc, tt))))

visit_times : AllBy 20 (times_of ip visits)
unfolding bytes_eq text
visit_times = (omega arith, (omega arith, (omega arith, tt)))

allowed_rate_example :
    allowed (memory ℕ) ip ((ip, 5) ∷ visits) limiter * 60000000000 ≤ 3 * 60000000000 + (20 - 5) * 3
unfolding initial
allowed_rate_example =
    allowed_rate (memory ℕ) ip 5 20 visits limiter (initial-IsSeparate (memory ℕ) rate 9999)
      (unfold bucket_of initial in refl) (omega arith) visit_times visits_keep

allow_at_self_example :
    let b = met limiter.rate 5 (bucket_of (memory ℕ) ip limiter) in
    ((allow_at (memory ℕ) ip 5 limiter).0 ≡ (request limiter.rate b 5).0)
    × (bucket_of (memory ℕ) ip (allow_at (memory ℕ) ip 5 limiter).1
        ≡ some (request limiter.rate b 5).1)
allow_at_self_example = allow_at_self (memory ℕ) ip 5 limiter

separate : IsSeparate (memory ℕ) limiter
separate = initial-IsSeparate (memory ℕ) rate 9999

differ : bytes_eq (text "10.0.0.2") ip ≡ false
unfolding bytes_eq text
differ = refl

other_ip : text "10.0.0.2" ≢ ip
other_ip e = let same = (bytes_eq_iff (text "10.0.0.2") ip).1 e in cc (same, differ)

allow_at_ne_example :
    (bucket_of (memory ℕ) (text "10.0.0.2") (allow_at (memory ℕ) ip 5 limiter).1
      ≡ bucket_of (memory ℕ) (text "10.0.0.2") limiter)
    ⊎ (bucket_of (memory ℕ) (text "10.0.0.2") (allow_at (memory ℕ) ip 5 limiter).1 ≡ none)
allow_at_ne_example = allow_at_ne (memory ℕ) ip (text "10.0.0.2") 5 limiter separate other_ip

allow_at-IsSeparate_example : IsSeparate (memory ℕ) (allow_at (memory ℕ) ip 5 limiter).1
allow_at-IsSeparate_example = allow_at-IsSeparate (memory ℕ) ip 5 limiter separate

abbrev pub cache : Cache (memory Entry)
cache = record { entries = λ _. none; inflight = λ _. false; ttl = 86400 }

abbrev pub key : Bytes
key = text "order-1"

abbrev answer : Response
answer = record { status = 200; body = text "{}"; content_type = [] }

won : (claim_in_flight (memory Entry) key 3 cache).0 ≡ true
unfolding claim_in_flight
won = refl

abbrev calls : List (Call × ℕ)
calls = (look key, 4) ∷ (claim key, 5) ∷ []

claim_excludes_example :
    let c' = perform_all (memory Entry) calls (claim_in_flight (memory Entry) key 3 cache).1 in
    ((claim_in_flight (memory Entry) key 6 c').0 ≡ false)
    × ((lookup (memory Entry) key 6 c').0 ≡ in_flight)
claim_excludes_example = claim_excludes (memory Entry) key 3 6 calls cache won (refl, (refl, tt))

lookup-store_example :
    (lookup (memory Entry) key 9 (store (memory Entry) key answer 3 cache)).0
    ≡ (if ltb 9 (3 + 86400) then replay answer else absent)
lookup-store_example = lookup-store (memory Entry) key answer 3 9 cache

claim-lookup_example :
    ((lookup (memory Entry) key 3 cache).0 ≡ absent
      → (claim_in_flight (memory Entry) key 3 (lookup (memory Entry) key 3 cache).1).0 ≡ true)
    × ((lookup (memory Entry) key 3 cache).0 ≢ absent
        → (claim_in_flight (memory Entry) key 3 (lookup (memory Entry) key 3 cache).1).0 ≡ false)
claim-lookup_example = claim-lookup (memory Entry) key 3 cache

validate_key_iff_example :
    (validate_key key ≡ none) ↔ ((1 ≤ length key) × (length key ≤ 255) × All IsPrintable key)
validate_key_iff_example = validate_key_iff key
