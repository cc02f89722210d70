-- ===== src/Ratelimit/Limiter/Separate.antt =====
-- core/ratelimit/ratelimit.go: the buckets of different addresses as different objects.
use caddy_formward.Base.{
  ℕ, ◌<◌, not, Option, none, some, ◌≡◌, ◌≢◌, sym, subst, ◌∙◌, arith, if◌then◌else◌, Bool-cases, inl,
  inr, ◌⊎◌,
}
use caddy_formward.Base.Int.{ℤ, pos, is_pos}
use caddy_formward.Base.Results.{ok}
use caddy_formward.Text.{Bytes, bytes_eq, bytes_eq_iff}
use caddy_formward.Lru.{Lru}
use caddy_formward.Ratelimit.Bucket.{Rate, Bucket, full, WithinCapacity, request-WithinCapacity}
use caddy_formward.Ratelimit.Limiter.{
  Limiter, initial, magnitude, pred_of, new, use_bucket, find_bucket, allow_at,
}

pub same_or_not : (a b : Bytes) → (a ≡ b) ⊎ (a ≢ b)
same_or_not a b = elim (Bool-cases (bytes_eq a b)) [
  | inl e ↦ inl ((bytes_eq_iff a b).0 e)
  | inr e ↦ inr (λ p. let q = (bytes_eq_iff a b).1 p in cc)
]

module _ (lru : Lru ℕ) where
  open lru use {peek, add, peek-empty, get_value, peek-get, peek-add_self, peek-add_ne}

  -- The bucket that the limiter keeps for an address.
  unfoldable pub bucket_of : Bytes → Limiter lru → Option Bucket
  bucket_of ip lim = elim (peek ip lim.buckets) [ none ↦ none | some p ↦ some (lim.heap p) ]

  pub record IsSeparate (lim : Limiter lru) : Type 0 where
    pub allocated : (j : Bytes) (p : ℕ) → peek j lim.buckets ≡ some p → p < lim.next
    pub distinct :
        (i j : Bytes) (p : ℕ) → peek i lim.buckets ≡ some p → peek j lim.buckets ≡ some p → i ≡ j
    pub within :
        (j : Bytes) (p : ℕ) → peek j lim.buckets ≡ some p → WithinCapacity lim.rate (lim.heap p)

  module _ (lim : Limiter lru) (h : IsSeparate lim) where
    touch-IsSeparate :
        (ip : Bytes) → IsSeparate (record lim { buckets = (lru.get ip lim.buckets).1 })
    touch-IsSeparate ip = record {
      allocated = λ j p e. h.allocated j p (sym (peek-get j ip lim.buckets) ∙ e);
      distinct = λ i j p e f.
          h.distinct i j p (sym (peek-get i ip lim.buckets) ∙ e)
            (sym (peek-get j ip lim.buckets) ∙ f);
      within = λ j p e. h.within j p (sym (peek-get j ip lim.buckets) ∙ e);
    }

    -- Where an entry of the cache after an insertion comes from.
    origin :
        (ip j : Bytes) (v p : ℕ)
        → peek j (add ip v lim.buckets) ≡ some p
        → ((j ≡ ip) × (p ≡ v)) ⊎ (peek j lim.buckets ≡ some p)
    origin ip j v p e = elim (same_or_not j ip) [
      | inl same ↦
          let self = peek-add_self ip v lim.buckets in
          let there = subst (λ x. peek x (add ip v lim.buckets) ≡ some p) same e in inl (same, cc)
      | inr other ↦ elim (peek-add_ne j ip v lim.buckets other) [
        | inl kept ↦ inr (sym kept ∙ e)
        | inr gone ↦ absurd cc
      ]
    ]

    use_bucket-IsSeparate : (p now : ℕ) → IsSeparate (use_bucket lru p now lim).1
    unfolding use_bucket
    use_bucket-IsSeparate p now = record {
      allocated = h.allocated;
      distinct = h.distinct;
      within =
          λ j q e. ground (arith, h.within j q e, request-WithinCapacity lim.rate (lim.heap q) now);
    }

  find_bucket-IsSeparate :
      (ip : Bytes) (now : ℕ) (lim : Limiter lru) (found : Option ℕ)
      → IsSeparate lim
      → IsSeparate (find_bucket lru found ip now lim).1
  unfolding find_bucket full
  find_bucket-IsSeparate ip now lim (some p) h = h
  find_bucket-IsSeparate ip now lim none h =
      let from = origin lim h ip in
      record {
        allocated = λ j p e. elim (from j lim.next p e) [
          | inl new ↦ omega arith
          | inr old ↦ let lt = h.allocated j p old in omega arith
        ];
        distinct = λ i j p e f. elim (from i lim.next p e) [
          | inl new ↦ elim (from j lim.next p f) [
            | inl new' ↦ new.0 ∙ sym new'.0
            | inr old ↦ let lt = h.allocated j p old in absurd (omega arith)
          ]
          | inr old ↦ elim (from j lim.next p f) [
            | inl new' ↦ let lt = h.allocated i p old in absurd (omega arith)
            | inr old' ↦ h.distinct i j p old old'
          ]
        ];
        within = λ j p e. elim (from j lim.next p e) [
          | inl new ↦ ground arith
          | inr old ↦ ground (arith, h.within j p old, h.allocated j p old)
        ];
      }

  -- Every request keeps the buckets apart and within their capacity.
  pub allow_at-IsSeparate :
      (ip : Bytes) (now : ℕ) (lim : Limiter lru)
      → IsSeparate lim
      → IsSeparate (allow_at lru ip now lim).1
  unfolding allow_at
  allow_at-IsSeparate ip now lim h =
      use_bucket-IsSeparate _ (find_bucket-IsSeparate ip now _ _ (touch-IsSeparate lim h ip)) _ now

  pub initial-IsSeparate : (r : Rate) (n : ℕ) → IsSeparate (initial lru r n)
  unfolding initial
  initial-IsSeparate r n = record {
    allocated = λ j p e. let empty = peek-empty n j in absurd cc;
    distinct = λ i j p e f. let empty = peek-empty n j in absurd cc;
    within = λ j p e. let empty = peek-empty n j in absurd cc;
  }

  pub new-IsSeparate :
      (count interval max_ips : ℤ) {lim : Limiter lru}
      → new lru count interval max_ips ≡ ok lim
      → IsSeparate lim
  unfolding new
  new-IsSeparate count interval max_ips {lim} e = elim (Bool-cases (not (is_pos count))) [
    | inl bad ↦ absurd (ground arith)
    | inr good ↦ elim (Bool-cases (not (is_pos interval))) [
      | inl bad ↦ absurd (ground arith)
      | inr fine ↦
          let r : Rate = record { count = magnitude count; interval = magnitude interval } in
          let n = pred_of (if is_pos max_ips then max_ips else pos 10000) in
          let made : initial lru r n ≡ lim = ground arith in
          subst IsSeparate made (initial-IsSeparate r n)
    ]
  ]
