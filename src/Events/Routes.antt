-- ===== src/Events/Routes.antt =====
-- bridge/src/bridge/routes/events.py, and the loop of `EventSubscriber` in
-- bridge/src/bridge/eventbus/subscriber.py. Requests are taken after pydantic's validation.
use open_claw_bridge.Prelude.{
  ℕ, String, not, Option, none, some, List, [], ◌∷◌, if◌then◌else◌, is_empty, text_mem,
}
use open_claw_bridge.Errors.{ok, err, Details, text, error, dependency_unavailable}
use open_claw_bridge.Server.{Redis, Stamp, EventEnvelope, Handler, publish_on}
use open_claw_bridge.Auth.{Credential, TokenStore, lookup}
use open_claw_bridge.Events.Topics.{validate_publish_topic, validate_subscribe_pattern}

abbrev pub policy_violation : ℕ
policy_violation = 1008

abbrev pub internal_error : ℕ
internal_error = 1011

-- `events_publish`; its response is the event's id and time.
unfoldable pub events_publish : Stamp → String → String → Details → Handler Stamp
unfolding validate_publish_topic publish_on
events_publish s actor topic payload app = elim (validate_publish_topic topic) [
  | err e ↦ (err e, app)
  | ok t ↦ elim app.redis_client [
    | none ↦ (
      err (
          error dependency_unavailable "Event bus is not configured (Redis unavailable)."
            (("missing", text "redis") ∷ [])),
      app,
    )
    | some r ↦ publish_on s topic payload actor app r
  ]
]

-- `_websocket_auth`, on the bearer token that the header holds, none if it holds no such scheme.
unfoldable pub websocket_auth :
    (String → String)
    → ℕ
    → List Credential
    → Option String
    → TokenStore
    → Option (String × List String) × TokenStore
unfolding lookup
websocket_auth sha256 now creds none s = (none, s)
websocket_auth sha256 now creds (some token) s =
    if is_empty token
    then (none, s)
    else (let (found, s') = lookup sha256 now creds token s in
        (elim found [ none ↦ none | some r ↦ some (r.actor, r.scopes) ], s'))

-- How the handshake ends: closed with a code, or accepted.
pub data Handshake : Type 0 where
  closed : (code : ℕ) → Handshake
  accepted : Handshake

-- `events_subscribe` up to `accept`.
unfoldable pub events_subscribe :
    (String → String)
    → ℕ
    → List Credential
    → Option String
    → String
    → Option Redis
    → TokenStore
    → Handshake × TokenStore
unfolding websocket_auth validate_subscribe_pattern
events_subscribe sha256 now creds header topic redis_client s =
    let (who, s') = websocket_auth sha256 now creds header s in
    elim who [
      | none ↦ (closed policy_violation, s')
      | some (actor, scopes) ↦
          if not (text_mem "events:subscribe" scopes)
          then (closed policy_violation, s')
          else elim (validate_subscribe_pattern topic) [
            | err e ↦ (closed policy_violation, s')
            | ok t ↦ elim redis_client [
              | none ↦ (closed internal_error, s')
              | some r ↦ (accepted, s')
            ]
          ]
    ]

-- What `get_message` meets: a `RedisError`, nothing in time, data that is no text, or a text.
pub data Polled : Type 0 where
  redis_error : Polled
  idle : Polled
  not_text : Polled
  message : (content : String) → Polled

-- What `__aiter__` yields of what it meets; `from_json` is none where it raises.
unfoldable pub envelopes : (String → Option EventEnvelope) → List Polled → List EventEnvelope
envelopes from_json [] = []
envelopes from_json (redis_error ∷ rest) = envelopes from_json rest
envelopes from_json (idle ∷ rest) = envelopes from_json rest
envelopes from_json (not_text ∷ rest) = envelopes from_json rest
envelopes from_json (message content ∷ rest) = elim (from_json content) [
  | none ↦ envelopes from_json rest
  | some e ↦ e ∷ envelopes from_json rest
]
