-- ===== src/Ratelimit/Limiter/Requests.antt =====
-- core/ratelimit/ratelimit.go: requests, and the bucket of their address.
use caddy_formward.Base.{
  ℕ, ◌+◌, ◌-◌, ◌*◌, ◌≤◌, List, [], ◌∷◌, Option, none, some, ◌≡◌, ◌≢◌, refl, subst, ◌∙◌, arith,
  if◌then◌else◌, ◌&&◌, Bool-cases, sym, Option-cases, inl, inr, ◌⊎◌,
}
use caddy_formward.Text.{Bytes, bytes_eq, bytes_eq_refl, bytes_eq_iff}
use caddy_formward.Lru.{Lru}
use caddy_formward.Ratelimit.Bucket.{Rate, Bucket, full, request, serve, AllBy, serve_rate}
use caddy_formward.Ratelimit.Limiter.{Limiter, allow_at}
use caddy_formward.Ratelimit.Limiter.Separate.{IsSeparate, bucket_of, allow_at-IsSeparate}

-- The bucket that a request of an address meets: its own, or a full one.
abbrev pub met : Rate → ℕ → Option Bucket → Bucket
met r now none = full r now
met r now (some b) = b

-- The times of the requests of one address.
abbrev pub times_of : Bytes → List (Bytes × ℕ) → List ℕ
times_of ip [] = []
times_of ip ((j, t) ∷ requests) =
    let ts = times_of ip requests in if bytes_eq j ip then t ∷ ts else ts

module _ (lru : Lru ℕ) where
  open lru use {peek, add, get, get_value, peek-get, peek-add_self, peek-add_ne}

  -- The answer and the bucket afterwards are those of `request` on the bucket that the address
  -- meets, which is a full one if the limiter keeps none.
  pub allow_at_self :
      (ip : Bytes) (now : ℕ) (lim : Limiter lru)
      → let b = met lim.rate now (bucket_of lru ip lim) in
        ((allow_at lru ip now lim).0 ≡ (request lim.rate b now).0)
        × (bucket_of lru ip (allow_at lru ip now lim).1 ≡ some (request lim.rate b now).1)
  unfolding allow_at bucket_of
  allow_at_self ip now lim = elim (Option-cases (peek ip lim.buckets)) [
    | inl absent ↦
        let found = get_value ip lim.buckets ∙ absent in
        let self = peek-add_self ip lim.next (get ip lim.buckets).1 in ground (arith, found, self)
    | inr (p, present) ↦
        let found = get_value ip lim.buckets ∙ present in
        let still = peek-get ip ip lim.buckets ∙ present in ground (arith, found, still)
  ]

  -- In a limiter with separate buckets, a request of one address leaves the bucket of every other
  -- as it is, unless the cache drops it.
  pub allow_at_ne :
      (ip j : Bytes) (now : ℕ) (lim : Limiter lru)
      → IsSeparate lru lim
      → j ≢ ip
      → (bucket_of lru j (allow_at lru ip now lim).1 ≡ bucket_of lru j lim)
        ⊎ (bucket_of lru j (allow_at lru ip now lim).1 ≡ none)
  unfolding allow_at bucket_of
  allow_at_ne ip j now lim h ne = elim (Option-cases (peek ip lim.buckets)) [
    | inr (p, present) ↦
        let found = get_value ip lim.buckets ∙ present in
        let same = peek-get j ip lim.buckets in
        elim (Option-cases (peek j lim.buckets)) [
          | inl unknown ↦ inl (ground (arith, found, same))
          | inr (q, known) ↦
              let apart : q ≢ p = λ e.
                ne (h.distinct j ip p (subst (λ x. peek j lim.buckets ≡ some x) e known) present) in
              inl (ground (arith, found, same, apart))
        ]
    | inl absent ↦
        let found = get_value ip lim.buckets ∙ absent in
        let same = peek-get j ip lim.buckets in
        elim (peek-add_ne j ip lim.next (get ip lim.buckets).1 ne) [
          | inr gone ↦ inr (ground (arith, found, gone))
          | inl kept ↦ elim (Option-cases (peek j lim.buckets)) [
            | inl unknown ↦ inl (ground (arith, found, same, kept))
            | inr (q, known) ↦
                let below = h.allocated j q known in inl (ground (arith, found, same, kept, below))
          ]
        ]
  ]

  -- How many of the requests, each of an address at a time, are granted to one address.
  unfoldable pub allowed : Bytes → List (Bytes × ℕ) → Limiter lru → ℕ
  allowed ip [] lim = 0
  allowed ip ((j, t) ∷ requests) lim =
      let (granted, lim') = allow_at lru j t lim in
      let n = allowed ip requests lim' in if bytes_eq j ip && granted then n + 1 else n

  -- The limiter has a bucket of the address after each of the requests.
  abbrev pub Keeps : Bytes → List (Bytes × ℕ) → Limiter lru → Type 0
  Keeps ip [] lim = Unit
  Keeps ip ((j, t) ∷ requests) lim =
      let lim' = (allow_at lru j t lim).1 in (bucket_of lru ip lim' ≢ none) × Keeps ip requests lim'

  rate-allow_at :
      (ip : Bytes) (now : ℕ) (lim : Limiter lru) → (allow_at lru ip now lim).1.rate ≡ lim.rate
  unfolding allow_at
  rate-allow_at ip now lim = elim (Option-cases (get ip lim.buckets).0) [
    | inl absent ↦ ground arith
    | inr (p, present) ↦ ground arith
  ]

  allowed-serve :
      (ip : Bytes) (requests : List (Bytes × ℕ)) (lim : Limiter lru) (r : Rate) (b : Bucket)
      → lim.rate ≡ r
      → IsSeparate lru lim
      → bucket_of lru ip lim ≡ some b
      → Keeps ip requests lim
      → allowed ip requests lim ≡ (serve r b (times_of ip requests)).0
  unfolding allowed serve
  allowed-serve ip [] lim r b e sep known kept = refl
  allowed-serve ip ((j, t) ∷ requests) lim r b e sep known (here, kept) =
      let lim' = (allow_at lru j t lim).1 in
      let sep' = allow_at-IsSeparate lru j t lim sep in
      let e' = rate-allow_at j t lim ∙ e in
      elim (Bool-cases (bytes_eq j ip)) [
        | inl own ↦
            let is_own = (bytes_eq_iff j ip).0 own in
            let self =
              subst
                (λ i.
                  ((allow_at lru i t lim).0
                    ≡ (request lim.rate (met lim.rate t (bucket_of lru ip lim)) t).0)
                  × (bucket_of lru ip (allow_at lru i t lim).1
                      ≡ some (request lim.rate (met lim.rate t (bucket_of lru ip lim)) t).1))
                (sym is_own) (allow_at_self ip t lim) in
            let rest =
              allowed-serve ip requests lim' r (request r b t).1 e' sep' (ground (arith, self))
                kept in
            ground (arith, self, rest, own)
        | inr other ↦
            let ne : ip ≢ j = λ same. let yes' = (bytes_eq_iff j ip).1 (sym same) in cc in
            elim (allow_at_ne j ip t lim sep ne) [
              | inr gone ↦ absurd (here gone)
              | inl same ↦
                  let rest = allowed-serve ip requests lim' r b e' sep' (same ∙ known) kept in
                  ground (arith, rest, other)
            ]
      ]

  first_serve :
      (ip : Bytes) (start : ℕ) (requests : List (Bytes × ℕ)) (lim : Limiter lru)
      → IsSeparate lru lim
      → bucket_of lru ip lim ≡ none
      → Keeps ip requests (allow_at lru ip start lim).1
      → allowed ip ((ip, start) ∷ requests) lim
        ≡ (serve lim.rate (full lim.rate start) (start ∷ times_of ip requests)).0
  unfolding allowed serve
  first_serve ip start requests lim sep unknown kept =
      let lim' = (allow_at lru ip start lim).1 in
      let b = full lim.rate start in
      let self = allow_at_self ip start lim in
      let own = bytes_eq_refl ip in
      let rest =
        allowed-serve ip requests lim' lim.rate (request lim.rate b start).1
          (rate-allow_at ip start lim) (allow_at-IsSeparate lru ip start lim sep)
          (ground (arith, self)) kept in
      ground (arith, self, rest, own)

  -- The rate limit: an address that the limiter does not know yet makes a request at `start`, and
  -- others up to `stop`, among requests of other addresses. In exact arithmetic, and as long as the
  -- limiter keeps its bucket, at most `count` of its requests are granted, and `count` more for
  -- each interval that passes.
  pub allowed_rate :
      (ip : Bytes) (start stop : ℕ) (requests : List (Bytes × ℕ)) (lim : Limiter lru)
      → IsSeparate lru lim
      → bucket_of lru ip lim ≡ none
      → start ≤ stop
      → AllBy stop (times_of ip requests)
      → Keeps ip requests (allow_at lru ip start lim).1
      → allowed ip ((ip, start) ∷ requests) lim * lim.rate.interval
        ≤ lim.rate.count * lim.rate.interval + (stop - start) * lim.rate.count
  allowed_rate ip start stop requests lim sep unknown le by kept =
      let r = lim.rate in
      let ts = times_of ip requests in
      rw (first_serve ip start requests lim sep unknown kept)
        (serve_rate r start stop (start ∷ ts) (le, by) le)
