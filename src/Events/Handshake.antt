-- ===== src/Events/Handshake.antt =====
-- Whom the WebSocket lets in, against the dependency that guards the HTTP routes.
use open_claw_bridge.Prelude.{
  ℕ, String, ◌≡◌, refl, Option, none, some, List, arith, if◌then◌else◌, is_some,
}
use open_claw_bridge.Errors.{ok, err}
use open_claw_bridge.Server.{Redis}
use open_claw_bridge.Auth.{Credential, TokenStore, require_auth, require_scope}
use open_claw_bridge.Events.Topics.{validate_subscribe_pattern}
use open_claw_bridge.Events.Routes.{websocket_auth, events_subscribe, closed, accepted}

-- The handshake ends as the HTTP guard of the scope `events:subscribe` decides on the same header, tokens
-- and time: where the guard raises, the connection is closed with 1008; where it passes, it is closed
-- with 1008 for a pattern that the validator refuses, else with 1011 without Redis, and else accepted.
-- Both leave the same cache of tokens.
pub events_subscribe_lem :
    (sha256 : String → String) (now : ℕ) (creds : List Credential) (header : Option String)
    (topic : String) (redis_client : Option Redis) (s : TokenStore)
    → (let (guard, s') = require_scope sha256 "events:subscribe" now creds header s in
        events_subscribe sha256 now creds header topic redis_client s ≡ (
          elim guard [
            | err e ↦ closed 1008
            | ok auth ↦ elim (validate_subscribe_pattern topic) [
              | err e ↦ closed 1008
              | ok t ↦ if is_some redis_client then accepted else closed 1011
            ]
          ],
          s',
        ))
unfolding events_subscribe websocket_auth require_scope require_auth
events_subscribe_lem sha256 now creds none topic redis_client s = refl
events_subscribe_lem sha256 now creds (some token) topic redis_client s = ground arith
