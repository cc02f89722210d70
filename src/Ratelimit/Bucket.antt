-- ===== src/Ratelimit/Bucket.antt =====
-- core/ratelimit/ratelimit.go: one token bucket. The source counts tokens in float64; here they are
-- exact, in units of 1/interval of a token, so a token is `interval` units, the capacity is
-- `count * interval`, and each nanosecond brings `count` units. Times are nanoseconds.
use caddy_formward.Base.{
  ℕ, ◌+◌, ◌-◌, ◌*◌, ◌≤◌, min, Bool, true, false, List, [], ◌∷◌, ◌≡◌, ap, arith, ltb, leb,
  if◌then◌else◌, Bool-cases, inl, inr,
}

pub record Rate : Type 0 where
  pub count : ℕ
  pub interval : ℕ

pub record Bucket : Type 0 where
  pub tokens : ℕ
  pub last : ℕ

-- A fresh full bucket.
unfoldable pub full : Rate → ℕ → Bucket
full r now = record { tokens = r.count * r.interval; last = now }

-- The refill of `allowAt`, capped at the capacity.
unfoldable pub refill : Rate → Bucket → ℕ → Bucket
refill r b now =
    if ltb b.last now
    then record {
      tokens = min (r.count * r.interval) (b.tokens + (now - b.last) * r.count);
      last = now;
    }
    else b

-- The end of `allowAt`: one token, if there is one.
unfoldable pub spend : Rate → Bucket → Bool × Bucket
spend r b =
    if leb r.interval b.tokens
    then (true, record b { tokens = b.tokens - r.interval })
    else (false, b)

-- A request on the bucket.
unfoldable pub request : Rate → Bucket → ℕ → Bool × Bucket
unfolding refill spend
request r b now = spend r (refill r b now)

-- How many of the requests at these times are allowed, and the bucket after them.
unfoldable pub serve : Rate → Bucket → List ℕ → ℕ × Bucket
serve r b [] = (0, b)
serve r b (t ∷ ts) =
    let (granted, b') = request r b t in
    let (n, last) = serve r b' ts in (if granted then n + 1 else n, last)

abbrev pub WithinCapacity : Rate → Bucket → Type 0
WithinCapacity r b = b.tokens ≤ r.count * r.interval

pub request-WithinCapacity :
    (r : Rate) (b : Bucket) (now : ℕ) → WithinCapacity r b → WithinCapacity r (request r b now).1
unfolding request
request-WithinCapacity r b now h = ground arith

elapsed_split : (a b c n : ℕ) → a ≤ b → b ≤ c → (c - b) * n + (b - a) * n ≡ (c - a) * n
elapsed_split a b c n h k =
    let e : c - a ≡ (c - b) + (b - a) = omega arith in omega (arith, ap (λ (t : ℕ). t * n) e)

refill_pays :
    (r : Rate) (b : Bucket) (now stop : ℕ)
    → now ≤ stop
    → b.last ≤ stop
    → (refill r b now).tokens + (stop - (refill r b now).last) * r.count
      ≤ b.tokens + (stop - b.last) * r.count
unfolding refill
refill_pays r b now stop h k = elim (Bool-cases (ltb b.last now)) [
  | inl later ↦
      rw (later, refill)
        (let le : b.last ≤ now = ground arith in
          omega (arith, elapsed_split b.last now stop r.count le h))
  | inr not_later ↦ rw (not_later, refill) (omega arith)
]

-- What a request costs: a token if it is granted.
abbrev cost : Rate → Bool → ℕ
cost r true = r.interval
cost r false = 0

spend-cost : (r : Rate) (b : Bucket) → (spend r b).1.tokens + cost r (spend r b).0 ≡ b.tokens
unfolding spend
spend-cost r b = ground arith

last-spend : (r : Rate) (b : Bucket) → (spend r b).1.last ≡ b.last
unfolding spend
last-spend r b = ground arith

-- A request costs no more than what the bucket held and what the time has brought.
request_pays :
    (r : Rate) (b : Bucket) (now stop : ℕ)
    → now ≤ stop
    → b.last ≤ stop
    → (request r b now).1.tokens
        + (stop - (request r b now).1.last) * r.count
        + cost r (request r b now).0
      ≤ b.tokens + (stop - b.last) * r.count
request_pays r b now stop h k =
    let b' = refill r b now in
    unfold request in
    rw (last-spend r b') (omega (arith, refill_pays r b now stop h k, spend-cost r b'))

pub last-request :
    (r : Rate) (b : Bucket) (now stop : ℕ)
    → now ≤ stop
    → b.last ≤ stop
    → (request r b now).1.last ≤ stop
unfolding request
last-request r b now stop h k = ground arith

abbrev pub AllBy : ℕ → List ℕ → Type 0
AllBy stop [] = Unit
AllBy stop (t ∷ ts) = (t ≤ stop) × AllBy stop ts

-- Up to a time `stop`, the tokens of the granted requests are no more than what the bucket held
-- and what the time since its last refill has brought.
pub serve_bounded :
    (r : Rate) (b : Bucket) (ts : List ℕ) (stop : ℕ)
    → AllBy stop ts
    → b.last ≤ stop
    → (serve r b ts).0 * r.interval ≤ b.tokens + (stop - b.last) * r.count
unfolding serve
serve_bounded r b [] stop h k = grind arith
serve_bounded r b (t ∷ ts) stop h k =
    let b' = (request r b t).1 in
    let ih = serve_bounded r b' ts stop h.1 (last-request r b t stop h.0 k) in
    let pays = request_pays r b t stop h.0 k in
    elim (Bool-cases (request r b t).0) [
      | inl granted ↦ let spent = rw granted at pays in rw granted (omega (arith, spent, ih))
      | inr denied ↦ let spent = rw denied at pays in rw denied (omega (arith, spent, ih))
    ]

-- A full bucket grants at most `count` requests, and `count` more in each interval.
pub serve_rate :
    (r : Rate) (start stop : ℕ) (ts : List ℕ)
    → AllBy stop ts
    → start ≤ stop
    → (serve r (full r start) ts).0 * r.interval ≤ r.count * r.interval + (stop - start) * r.count
unfolding full
serve_rate r start stop ts h k = serve_bounded r (full r start) ts stop h k
