-- ===== src/Middleware/Stack.antt =====
-- The two middlewares around any application, in the order in which main.py adds them.
use open_claw_bridge.Prelude.{
  ℕ, String, ◌≡◌, refl, sym, ◌∙◌, inl, inr, Bool, true, false, not, ◌&&◌, none, List, [], ◌∷◌, ◌++◌,
  map, append-nil, arith, str_eq, if◌then◌else◌, Bool-cases, is_some, filter, any, All,
}
use open_claw_bridge.Asgi.{Header, Message, start, body, Scope, Incoming, Application, Library, Ran}
use open_claw_bridge.Middleware.{
  request_id_header, bridge_version_header, is_start, is_http, is_other, request_id_of,
  send_with_headers, unhandled, request_id, LogLine, status_after, access_log,
}

abbrev pub has_name : String → Header → Bool
has_name n h = str_eq h.0 n

-- A response that starts has the id and the version, each once.
abbrev pub IsStamped : String → String → Message → Type 0
IsStamped version rid (start status headers) =
    (filter (has_name request_id_header) headers ≡ (request_id_header, rid) ∷ [])
    × (filter (has_name bridge_version_header) headers ≡ (bridge_version_header, version) ∷ [])
IsStamped version rid (body bytes) = Unit

filter-stamped :
    (hs : List Header) (a b : Header)
    → a.0 ≡ request_id_header
    → b.0 ≡ bridge_version_header
    → (filter (has_name request_id_header) (filter is_other hs ++ a ∷ b ∷ []) ≡ a ∷ [])
      × (filter (has_name bridge_version_header) (filter is_other hs ++ a ∷ b ∷ []) ≡ b ∷ [])
filter-stamped [] a b e f = rw (e, f) (refl, refl)
filter-stamped (h ∷ hs) a b e f = ground (arith, filter-stamped hs a b e f)

send_with_headers-IsStamped :
    (version rid : String) (m : Message) → IsStamped version rid (send_with_headers version rid m)
unfolding send_with_headers
send_with_headers-IsStamped version rid (start status headers) =
    filter-stamped headers (request_id_header, rid) (bridge_version_header, version) refl refl
send_with_headers-IsStamped version rid (body bytes) = tt

map-IsStamped :
    (version rid : String) (ms tail : List Message)
    → All (IsStamped version rid) tail
    → All (IsStamped version rid) (map (send_with_headers version rid) ms ++ tail)
map-IsStamped version rid [] tail a = a
map-IsStamped version rid (m ∷ ms) tail a =
    (send_with_headers-IsStamped version rid m, map-IsStamped version rid ms tail a)

status_after-map :
    (version rid : String) (st : ℕ) (ms tail : List Message)
    → status_after st (map (send_with_headers version rid) ms ++ tail)
      ≡ status_after (status_after st ms) tail
unfolding status_after send_with_headers
status_after-map version rid st [] tail = refl
status_after-map version rid st (start s hs ∷ ms) tail = status_after-map version rid s ms tail
status_after-map version rid st (body b ∷ ms) tail = status_after-map version rid st ms tail

not_started : (st : ℕ) (ms : List Message) → any is_start ms ≡ false → status_after st ms ≡ st
unfolding status_after
not_started st [] e = refl
not_started st (start s hs ∷ ms) e = cc
not_started st (body b ∷ ms) e = not_started st ms e

unhandled-IsStamped :
    (lib : Library) (version rid : String) → All (IsStamped version rid) (unhandled lib version rid)
unfolding unhandled
unhandled-IsStamped lib version rid = ((refl, refl), (tt, tt))

unhandled-status :
    (lib : Library) (version rid : String) (st : ℕ)
    → status_after st (unhandled lib version rid) ≡ 500
unfolding unhandled status_after
unhandled-status lib version rid st = refl

module _ {S : Type 0} (lib : Library) (version uuid : String) (app : Application S) where
  abbrev pub stack : Application (S × List LogLine)
  stack = request_id lib version uuid (access_log app)

  module _ (scope : Scope) (input : List Incoming) (s : S) (lines : List LogLine) where
    abbrev rid : String
    rid = request_id_of uuid scope

    abbrev inner : Ran S
    inner = app (record scope { request_id = rid }) input s

    -- The answer to an exception before a response.
    abbrev added : List Message
    added =
        if is_some inner.raised && not (any is_start inner.sent)
        then unhandled lib version rid
        else []

    stack-added :
        is_http scope ≡ true
        → stack scope input (s, lines) ≡ record {
          sent = map (send_with_headers version rid) inner.sent ++ added;
          raised = if any is_start inner.sent then inner.raised else none;
          state = (
            inner.state,
            lines
                ++ record {
                  request_id = rid;
                  method = scope.method;
                  path = scope.path;
                  status = status_after 500 inner.sent;
                }
                  ∷ [],
          );
        }
    unfolding request_id access_log
    stack-added h = ground (arith, append-nil (map (send_with_headers version rid) inner.sent))

    added-IsStamped : All (IsStamped version rid) added
    added-IsStamped = elim (Bool-cases (is_some inner.raised && not (any is_start inner.sent))) [
      | inl e ↦ rw e (unhandled-IsStamped lib version rid)
      | inr e ↦ rw e tt
    ]

    status_after-added :
        status_after 500 (map (send_with_headers version rid) inner.sent ++ added)
        ≡ status_after 500 inner.sent
    unfolding status_after
    status_after-added =
        status_after-map version rid 500 inner.sent added
        ∙ elim (Bool-cases (is_some inner.raised && not (any is_start inner.sent))) [
          | inl e ↦ rw e (
              unhandled-status lib version rid _
              ∙ sym (not_started 500 inner.sent (ground (arith, e))))
          | inr e ↦ rw e refl
        ]

  -- Every HTTP request: each start of a response carries the request's id and the version once, whatever
  -- the application set; one line is logged, with the id, the method, the path and the status of the
  -- response that is sent; and an exception leaves the stack if and only if a response has started,
  -- where otherwise the answer ends in the envelope of a 500.
  pub stack_lem :
      (scope : Scope) (input : List Incoming) (s : S) (lines : List LogLine)
      → is_http scope ≡ true
      → (let rid = request_id_of uuid scope in
          let inner = app (record scope { request_id = rid }) input s in
          let ran = stack scope input (s, lines) in
          All (IsStamped version rid) ran.sent
          × (ran.sent
              ≡ map (send_with_headers version rid) inner.sent
                ++ (if is_some inner.raised && not (any is_start inner.sent)
                    then unhandled lib version rid
                    else []))
          × (ran.raised ≡ (if any is_start inner.sent then inner.raised else none))
          × (ran.state ≡ (
            inner.state,
            lines
                ++ record {
                  request_id = rid;
                  method = scope.method;
                  path = scope.path;
                  status = status_after 500 ran.sent;
                }
                  ∷ [],
          )))
  stack_lem scope input s lines h =
      rw (stack-added scope input s lines h, status_after-added scope input s lines)
        (
          map-IsStamped version (rid scope input s lines) (inner scope input s lines).sent
              (added scope input s lines) (added-IsStamped scope input s lines),
          refl,
          refl,
          refl,
        )
