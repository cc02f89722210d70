-- ===== src/Gateway/Serve/Api.antt =====
-- core/gateway/handler.go: ServeHTTP as a whole, with the idempotency cache of API mode. While a
-- request is served other requests may call the cache.
use caddy_formward.Base.{ℕ, Bool, not, List, ◌∷◌, if◌then◌else◌}
use caddy_formward.Text.{text, is_empty}
use caddy_formward.Lru.{Lru}
use caddy_formward.Idempotency.{Response, Entry, Cache}
use caddy_formward.Idempotency.Claims.{Call, perform_all}
use caddy_formward.Response.{Answer, plain_text}
use caddy_formward.Gateway.Admit.{
  Admission, unauthorized, bad_key, replayed, conflict, admitted, admit,
}
use caddy_formward.Gateway.Recorder.{acts, recorder, fresh, finalize_idempotent}
use caddy_formward.Gateway.Writing.{Writing, write_answer}
use caddy_formward.Gateway.Serve.{
  Request, Handler, auth_failed, idempotent_replay, State, check_rate, serve_form, is_post,
}

-- What goes to the client: an answer, or a stored response that is replayed.
pub data Reply : Type 0 where
  answered : Answer → Reply
  replays : Response → Reply

-- The calls of other requests between the lookup and the claim, and from the claim to the end; and
-- the times of the claim and of the end.
pub record Interleaving : Type 0 where
  pub between : List (Call × ℕ)
  pub during : List (Call × ℕ)
  pub later : ℕ
  pub ended : ℕ

module _ (lru : Lru ℕ) (cache_lru : Lru Entry) (h : Handler) (writing : Writing)
    (cut_short : ℕ → Bool) (now : ℕ) (r : Request) (inter : Interleaving) where
  abbrev pub Served : Type 0
  Served = Reply × State lru × Cache cache_lru

  -- The end of the deferred call: the writer's record is stored, or the claim is given up.
  unfoldable pub close : Answer → Cache cache_lru → Cache cache_lru
  close a c =
      let c' = perform_all cache_lru inter.during c in
      if is_empty r.idempotency_key
      then c'
      else finalize_idempotent cache_lru r.idempotency_key
          (acts (write_answer writing a) (recorder fresh)) inter.ended c'

  -- From the result of the admission on.
  unfoldable pub dispatch : Admission → State lru → Cache cache_lru → Served
  unfolding close
  dispatch unauthorized s c = (
    answered (plain_text 401 (text "unauthorized")),
    record s { events = auth_failed ∷ s.events },
    c,
  )
  dispatch (bad_key e) s c = (answered (plain_text 400 (writing.key_error e)), s, c)
  dispatch (replayed resp) s c =
      (replays resp, record s { events = idempotent_replay ∷ s.events }, c)
  dispatch conflict s c = (
    answered (plain_text 409 (text "duplicate request in flight for this Idempotency-Key")),
    s,
    c,
  )
  dispatch (admitted key) s c =
      let (a, s') = check_rate lru h cut_short now r key s in (answered a, s', close a c)

  -- The branch of API mode.
  unfoldable pub serve_api : State lru → Cache cache_lru → Served
  unfolding dispatch
  serve_api s c =
      let (admission, c') =
        admit cache_lru h.api_keys r.authorization r.idempotency_key inter.between now inter.later
          c in
      dispatch admission s c'

  -- `ServeHTTP`
  unfoldable pub serve : State lru → Cache cache_lru → Served
  unfolding serve_api
  serve s c =
      if not (is_post lru h cut_short now r)
      then (answered (plain_text 405 (text "method not allowed")), s, c)
      else if h.endpoint.api_mode
      then serve_api s c
      else let (a, s') = serve_form lru h cut_short now r s in (answered a, s', c)
