-- ===== src/Middleware.antt =====
-- bridge/src/bridge/middleware.py: request ids, the access log and the answer to an exception that no
-- route handles, around an application such as the idempotency middleware's. `S` is the state of the
-- application inside; the access log is a list of lines. A line's duration and actor are left out.
pub mod Stack
use open_claw_bridge.Prelude.{
  ℕ, zero, suc, ◌+◌, ◌-◌, ◌*◌, ◌/◌, ◌%◌, ◌^◌, ◌≤◌, ◌<◌, min, max, String, text_length, utf8_length,
  ◌≡◌, refl, sym, ap, ◌∙◌, ◌≢◌, ◌↔◌, ◌⊎◌, inl, inr, Bool, true, false, not, ◌&&◌, ◌||◌, Option,
  none, some, List, [], ◌∷◌, ◌++◌, map, append-nil, append_assoc, arith, str_eq, eq_iff, eq_refl,
  ltb, leb, ◌==◌, if◌then◌else◌, Bool-cases, Option-cases, concat, concat_one, concat_nil,
  take_text, is_empty, or_else, text_mem, is_space, is_blank, length, length-append, get_or,
  is_some, filter, find, any, All, reverse, Forward,
}
use open_claw_bridge.Asgi.{
  Header, Message, start, body, Scope, Incoming, Ran, Application, Library, read_header, envelope,
}

abbrev pub request_id_header : String
request_id_header = "x-request-id"

abbrev pub bridge_version_header : String
bridge_version_header = "x-bridge-version"

abbrev pub is_start : Message → Bool
is_start (start status headers) = true
is_start (body bytes) = false

abbrev pub is_http : Scope → Bool
is_http scope = str_eq scope.type "http"

-- `_read_header(...) or str(uuid.uuid4())`
unfoldable pub request_id_of : String → Scope → String
unfolding read_header
request_id_of uuid scope = or_else (get_or (read_header scope.headers request_id_header) "") uuid

abbrev pub is_other : Header → Bool
is_other h = not (str_eq h.0 request_id_header || str_eq h.0 bridge_version_header)

-- `send_with_headers`
unfoldable pub send_with_headers : String → String → Message → Message
send_with_headers version rid (start status headers) =
    start status
      (filter is_other headers ++ (request_id_header, rid) ∷ (bridge_version_header, version) ∷ [])
send_with_headers version rid (body bytes) = body bytes

-- The two messages of an unhandled exception.
unfoldable pub unhandled : Library → String → String → List Message
unhandled lib version rid =
    let b = envelope lib "internal_error" "Internal server error." rid in
    start 500 (
      ("content-type", "application/json")
      ∷ ("content-length", lib.decimal (utf8_length b))
      ∷ (request_id_header, rid)
      ∷ (bridge_version_header, version)
      ∷ [])
    ∷ body b
    ∷ []

-- `RequestIDMiddleware.__call__`, with `__version__` and what `uuid4` returns.
unfoldable pub request_id : {S : Type 0} → Library → String → String → Application S → Application S
unfolding request_id_of send_with_headers unhandled
request_id lib version uuid app scope input s =
    let rid = request_id_of uuid scope in
    let ran = app (record scope { request_id = rid }) input s in
    let sent = map (send_with_headers version rid) ran.sent in
    if is_http scope
    then elim ran.raised [
      | none ↦ record { sent = sent; raised = none; state = ran.state }
      | some e ↦
          if any is_start ran.sent
          then record { sent = sent; raised = some e; state = ran.state }
          else record { sent = sent ++ unhandled lib version rid; raised = none; state = ran.state }
    ]
    else app scope input s

pub record LogLine : Type 0 where
  pub request_id : String
  pub method : String
  pub path : String
  pub status : ℕ

-- `status_holder` after these messages.
unfoldable pub status_after : ℕ → List Message → ℕ
status_after status [] = status
status_after status (start st hs ∷ ms) = status_after st ms
status_after status (body b ∷ ms) = status_after status ms

-- `AccessLogMiddleware.__call__`; the line is written also when the application raises.
unfoldable pub access_log : {S : Type 0} → Application S → Application (S × List LogLine)
unfolding status_after
access_log app scope input (s, lines) =
    let ran = app scope input s in
    record {
      sent = ran.sent;
      raised = ran.raised;
      state = (
        ran.state,
        if is_http scope
            then lines
              ++ record {
                request_id = scope.request_id;
                method = scope.method;
                path = scope.path;
                status = status_after 500 ran.sent;
              }
                ∷ []
            else lines,
      );
    }
