-- ===== src/Ratelimit/Limiter.antt =====
-- core/ratelimit/ratelimit.go: the limiter, a bucket for each client address. The cache holds
-- pointers, so a bucket is updated in place: the buckets stand on a heap.
pub mod Separate
pub mod Requests
use caddy_formward.Base.{
  ℕ, zero, suc, ◌+◌, ◌-◌, ◌*◌, ◌≤◌, ◌<◌, Bool, true, false, not, List, [], ◌∷◌, Option, none, some,
  ◌≡◌, ◌≢◌, refl, sym, ap, subst, ◌∙◌, arith, ltb, leb, ◌==◌, if◌then◌else◌, Bool-cases,
  Option-cases, inl, inr, ◌⊎◌,
}
use caddy_formward.Base.Int.{ℤ, pos, negsuc, is_pos}
use caddy_formward.Base.Results.{Result, ok, err}
use caddy_formward.Text.{Bytes}
use caddy_formward.Lru.{Lru}
use caddy_formward.Ratelimit.Bucket.{
  Rate, Bucket, full, request, serve, WithinCapacity, request-WithinCapacity, AllBy, serve_rate,
}

pub data NewError : Type 0 where
  bad_count bad_interval : NewError

abbrev pub update : (ℕ → Bucket) → ℕ → Bucket → ℕ → Bucket
update heap p b q = if p == q then b else heap q

-- The value of a positive integer, less one.
abbrev pub pred_of : ℤ → ℕ
pred_of (pos n) = n - 1
pred_of (negsuc n) = 0

unfoldable pub magnitude : ℤ → ℕ
magnitude (pos n) = n
magnitude (negsuc n) = 0

module _ (lru : Lru ℕ) where
  open lru use {
    Cache, empty, get, add, peek, peek-empty, get_value, peek-get, peek-add_self, peek-add_ne,
  }

  pub record Limiter : Type 0 where
    pub rate : Rate
    pub buckets : Cache
    pub heap : ℕ → Bucket
    -- the next pointer that an allocation gives
    pub next : ℕ

  -- The limiter that `New` returns, for a cache of `n + 1` addresses.
  unfoldable pub initial : Rate → ℕ → Limiter
  initial r n = record {
    rate = r;
    buckets = empty n;
    heap = λ _. record { tokens = 0; last = 0 };
    next = 0;
  }

  -- `New`, with `interval` in nanoseconds.
  unfoldable pub new : ℤ → ℤ → ℤ → Result NewError Limiter
  new count interval max_ips =
      if not (is_pos count)
      then err bad_count
      else if not (is_pos interval)
      then err bad_interval
      else ok (
          initial (record { count = magnitude count; interval = magnitude interval })
            (pred_of (if is_pos max_ips then max_ips else pos 10000)))

  -- From the bucket's pointer on.
  unfoldable pub use_bucket : ℕ → ℕ → Limiter → Bool × Limiter
  use_bucket p now lim =
      let (granted, b) = request lim.rate (lim.heap p) now in
      (granted, record lim { heap = update lim.heap p b })

  -- A new address gets a fresh full bucket.
  unfoldable pub find_bucket : Option ℕ → Bytes → ℕ → Limiter → ℕ × Limiter
  find_bucket (some p) ip now lim = (p, lim)
  find_bucket none ip now lim = (
    lim.next,
    record lim {
      buckets = add ip lim.next lim.buckets;
      heap = update lim.heap lim.next (full lim.rate now);
      next = lim.next + 1;
    },
  )

  -- `allowAt`
  unfoldable pub allow_at : Bytes → ℕ → Limiter → Bool × Limiter
  unfolding use_bucket find_bucket
  allow_at ip now lim =
      let (found, touched) = get ip lim.buckets in
      let (p, lim') = find_bucket found ip now (record lim { buckets = touched }) in
      use_bucket p now lim'
