-- ===== src/Idempotency.antt =====
-- core/idempotency/cache.go: the responses remembered under idempotency keys, and the claims of
-- requests in flight. Byte slices are values here: the source copies them in and out.
pub mod Claims
pub mod Kept
pub mod Ttl
pub mod Replay
pub mod Key
use caddy_formward.Base.{
  ℕ, ◌+◌, ◌-◌, Bool, true, false, not, ◌&&◌, ◌||◌, Option, none, some, ltb, if◌then◌else◌,
}
use caddy_formward.Base.Int.{ℤ, pos, negsuc, is_pos}
use caddy_formward.Base.Results.{Result, ok, err}
use caddy_formward.Text.{Bytes, bytes_eq}
use caddy_formward.Lru.{Lru}

pub record Response : Type 0 where
  pub status : ℕ
  pub body : Bytes
  pub content_type : Bytes

pub record Entry : Type 0 where
  pub response : Response
  pub expires : ℕ

pub data NewError : Type 0 where
  bad_capacity bad_ttl : NewError

-- The three results of Lookup.
pub data Found : Type 0 where
  replay : Response → Found
  in_flight : Found
  absent : Found

-- `c.now().Before(e.expires)`
abbrev pub is_live : ℕ → Entry → Bool
is_live now e = ltb now e.expires

-- A set of keys, with one key put in or taken out.
abbrev pub with_key : Bytes → Bool → (Bytes → Bool) → Bytes → Bool
with_key key b set' j = if bytes_eq key j then b else set' j

module _ (lru : Lru Entry) where
  pub record Cache : Type 0 where
    pub entries : lru.Cache
    pub inflight : Bytes → Bool
    pub ttl : ℕ

  -- `New`, with the ttl in nanoseconds.
  unfoldable pub new : ℤ → ℤ → Result NewError Cache
  new (pos capacity) (pos ttl) =
      if not (ltb 0 capacity)
      then err bad_capacity
      else if not (ltb 0 ttl)
      then err bad_ttl
      else ok (record { entries = lru.empty (capacity - 1); inflight = λ _. false; ttl = ttl })
  new (pos capacity) (negsuc ttl) = if not (ltb 0 capacity) then err bad_capacity else err bad_ttl
  new (negsuc capacity) ttl = err bad_capacity

  -- The end of Lookup, on what the cache holds.
  unfoldable pub found_entry : Option Entry → Bytes → ℕ → Cache → Found × Cache
  found_entry none key now c = (absent, c)
  found_entry (some e) key now c =
      if is_live now e
      then (replay e.response, c)
      else (absent, record c { entries = lru.remove key c.entries })

  -- `Lookup`
  unfoldable pub lookup : Bytes → ℕ → Cache → Found × Cache
  unfolding found_entry
  lookup key now c =
      let (found, touched) = lru.get key c.entries in
      if c.inflight key
      then (in_flight, c)
      else found_entry found key now (record c { entries = touched })

  -- `ok && c.now().Before(e.expires)`
  unfoldable pub holds_live : Option Entry → ℕ → Bool
  holds_live none now = false
  holds_live (some e) now = is_live now e

  -- `ClaimInFlight`
  unfoldable pub claim_in_flight : Bytes → ℕ → Cache → Bool × Cache
  unfolding holds_live
  claim_in_flight key now c =
      let (found, touched) = lru.get key c.entries in
      if c.inflight key
      then (false, c)
      else if holds_live found now
      then (false, record c { entries = touched })
      else (true, record c { entries = touched; inflight = with_key key true c.inflight })

  -- `Store`
  unfoldable pub store : Bytes → Response → ℕ → Cache → Cache
  store key resp now c = record c {
    entries = lru.add key (record { response = resp; expires = now + c.ttl }) c.entries;
    inflight = with_key key false c.inflight;
  }

  -- `Abandon`
  unfoldable pub abandon : Bytes → Cache → Cache
  abandon key c = record c { inflight = with_key key false c.inflight }
