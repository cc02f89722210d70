-- ===== src/Gateway/Serve/Repeat.antt =====
-- core/gateway/handler.go: an API request with an idempotency key, and a request that repeats it.
use caddy_formward.Base.{ℕ, Bool}
use caddy_formward.Text.{Bytes}
use caddy_formward.Lru.{Lru}
use caddy_formward.Idempotency.{Response, Entry}
use caddy_formward.Response.{Answer}
use caddy_formward.Gateway.Writing.{Writing}
use caddy_formward.Gateway.Serve.{Request, Handler, State, check_rate}
use caddy_formward.Gateway.Serve.Api.{Interleaving}

module _ (lru : Lru ℕ) (cache_lru : Lru Entry) (h : Handler) (writing : Writing)
    (cut_short : ℕ → Bool) (now : ℕ) (r : Request) (inter : Interleaving) where
  -- The answer of the request, once it is admitted under a key of the rate limiter.
  abbrev pub answer_of : Bytes → State lru → Answer
  answer_of k s = (check_rate lru h cut_short now r k s).0
