-- ===== src/Lru.antt =====
-- The interface of github.com/hashicorp/golang-lru/v2, which the rate limiter and the idempotency
-- cache store their entries in: its operations on string keys, and what its documentation says of
-- them. `peek` is the library's Peek, the content of the cache with no change of recency.
use caddy_formward.Base.{ℕ, Option, none, some, ◌≡◌, ◌≢◌, ◌⊎◌}
use caddy_formward.Text.{Bytes}

pub record Lru (V : Type 0) : Type 1 where
  pub Cache : Type 0
  -- `lru.New`, which refuses a size that is not positive: the argument is the size less one.
  pub empty : ℕ → Cache
  pub get : Bytes → Cache → Option V × Cache
  pub add : Bytes → V → Cache → Cache
  pub remove : Bytes → Cache → Cache
  pub peek : Bytes → Cache → Option V
  pub peek-empty : (n : ℕ) (k : Bytes) → peek k (empty n) ≡ none
  pub get_value : (k : Bytes) (c : Cache) → (get k c).0 ≡ peek k c
  pub peek-get : (j k : Bytes) (c : Cache) → peek j (get k c).1 ≡ peek j c
  pub peek-add_self : (k : Bytes) (v : V) (c : Cache) → peek k (add k v c) ≡ some v
  -- An entry that is added may drive another one out.
  pub peek-add_ne :
      (j k : Bytes) (v : V) (c : Cache)
      → j ≢ k
      → (peek j (add k v c) ≡ peek j c) ⊎ (peek j (add k v c) ≡ none)
  pub peek-remove_self : (k : Bytes) (c : Cache) → peek k (remove k c) ≡ none
  pub peek-remove_ne : (j k : Bytes) (c : Cache) → j ≢ k → peek j (remove k c) ≡ peek j c
