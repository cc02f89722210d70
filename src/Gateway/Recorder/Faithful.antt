-- ===== src/Gateway/Recorder/Faithful.antt =====
-- core/gateway/handler.go: the record of an answer against what is sent, and against its replay.
use caddy_formward.Base.{ℕ, true, false, not, ◌≡◌, arith}
use caddy_formward.Text.{Bytes, bytes_eq_refl}
use caddy_formward.Lru.{Lru}
use caddy_formward.Idempotency.{Entry, Cache, abandon, claim_in_flight, holds_live}
use caddy_formward.Gateway.Recorder.{Wire, Recorder, cacheable, finalize_idempotent}

-- The record agrees with what the writer under it has sent.
pub record Agrees (r : Recorder) : Type 0 where
  pub written : r.header_written ≡ r.under.wrote
  pub same_status : r.under.wrote ≡ true → r.status ≡ r.under.sent_status
  pub same_type : r.under.wrote ≡ true → r.content_type ≡ r.under.sent_type
  pub same_body : r.body ≡ r.under.sent_body
  pub unset : r.under.wrote ≡ false → r.status ≡ 0

-- What was sent to the client.
abbrev pub sent_part : Wire → ℕ × Bytes × Bytes
sent_part w = (w.sent_status, w.sent_type, w.sent_body)

module _ (lru : Lru Entry) where
  -- A request that ends with any other status, or with none, gives its claim up and stores nothing:
  -- a later claim of the key succeeds unless a live entry was there before.
  pub finalize-claim :
      (r : Recorder) (key : Bytes) (now later : ℕ) (c : Cache lru)
      → cacheable r.status ≡ false
      → (claim_in_flight lru key later (finalize_idempotent lru key r now c)).0
        ≡ not (holds_live lru (lru.peek key c.entries) later)
  unfolding finalize_idempotent abandon claim_in_flight
  finalize-claim r key now later c other =
      let held = lru.get_value key c.entries in
      let same = bytes_eq_refl key in ground (arith, held, same, other)
