-- ===== src/Gateway/Recorder.antt =====
-- core/gateway/handler.go: the response writer that records what an idempotent request answers,
-- and what is done with the record at the end of the request. Wire is net/http's writer under it:
-- the header's Content-Type, and what was sent of status, Content-Type and body.
pub mod Faithful
use caddy_formward.Base.{ℕ, Bool, true, false, not, ◌||◌, List, [], ◌∷◌, ◌++◌, ◌==◌, if◌then◌else◌}
use caddy_formward.Text.{Bytes, is_empty}
use caddy_formward.Lru.{Lru}
use caddy_formward.Idempotency.{Response, Entry, Cache, store, abandon}

pub record Wire : Type 0 where
  pub header_type : Bytes
  pub wrote : Bool
  pub sent_status : ℕ
  pub sent_type : Bytes
  pub sent_body : Bytes

abbrev pub fresh : Wire
fresh = record { header_type = []; wrote = false; sent_status = 0; sent_type = []; sent_body = [] }

-- net/http: the first WriteHeader counts, a Write before it sends status 200.
unfoldable pub wire_header : ℕ → Wire → Wire
wire_header code w =
    if w.wrote then w else record w { wrote = true; sent_status = code; sent_type = w.header_type }

unfoldable pub wire_write : Bytes → Wire → Wire
unfolding wire_header
wire_write b w = let w' = wire_header 200 w in record w' { sent_body = w'.sent_body ++ b }

-- `recordingResponseWriter`
pub record Recorder : Type 0 where
  pub under : Wire
  pub status : ℕ
  pub content_type : Bytes
  pub body : Bytes
  pub header_written : Bool

abbrev pub recorder : Wire → Recorder
recorder w = record { under = w; status = 0; content_type = []; body = []; header_written = false }

-- `recordingResponseWriter.WriteHeader`
unfoldable pub write_header : ℕ → Recorder → Recorder
unfolding wire_header
write_header code r = if r.header_written then r else record r {
  header_written = true;
  status = code;
  content_type = r.under.header_type;
  under = wire_header code r.under;
}

-- `recordingResponseWriter.Write`
unfoldable pub write : Bytes → Recorder → Recorder
unfolding write_header wire_write
write b r =
    let r' = if not r.header_written then write_header 200 r else r in
    record r' { body = r'.body ++ b; under = wire_write b r'.under }

-- `Header().Set("Content-Type", …)` of the embedded writer.
unfoldable pub set_type : Bytes → Recorder → Recorder
set_type ct r = record r { under = record r.under { header_type = ct } }

-- What a handler does with its writer.
pub data Action : Type 0 where
  sets : Bytes → Action
  heads : ℕ → Action
  writes : Bytes → Action

unfoldable pub act : Action → Recorder → Recorder
unfolding set_type write_header write
act (sets ct) r = set_type ct r
act (heads code) r = write_header code r
act (writes b) r = write b r

unfoldable pub acts : List Action → Recorder → Recorder
unfolding act
acts [] r = r
acts (a ∷ as') r = acts as' (act a r)

-- `replayCachedResponse`
unfoldable pub replay_cached_response : Response → Wire → Wire
unfolding wire_header wire_write
replay_cached_response resp w =
    let w' =
      if not (is_empty resp.content_type)
      then record w { header_type = resp.content_type }
      else w in
    wire_write resp.body (wire_header resp.status w')

-- `rw.status == http.StatusOK || rw.status == http.StatusUnprocessableEntity`
abbrev pub cacheable : ℕ → Bool
cacheable status = status == 200 || status == 422

abbrev pub recorded : Recorder → Response
recorded r = record { status = r.status; body = r.body; content_type = r.content_type }

-- `finalizeIdempotent`
unfoldable pub finalize_idempotent :
    (lru : Lru Entry) → Bytes → Recorder → (now : ℕ) → Cache lru → Cache lru
finalize_idempotent lru key r now c =
    if not (cacheable r.status) then abandon lru key c else store lru key (recorded r) now c
