-- ===== src/Relay/BridgeClient.antt =====
-- relays/imessage/src/relay/bridge_client.py: `BridgeClient._call`, its retries and its backoff.
use open_claw_bridge.Prelude.{
  ℕ, zero, suc, ◌-◌, ◌*◌, ◌^◌, String, Bool, ◌&&◌, Option, none, some, List, [], ◌∷◌, ltb, leb,
  ◌==◌, if◌then◌else◌,
}

abbrev pub max_attempts : ℕ
max_attempts = 3

-- What one request meets: a connect, read or timeout error, or an answer.
pub data Attempt : Type 0 where
  transport_error : (text : String) → Attempt
  response : (status : ℕ) (body : String) → Attempt

pub record BridgeClientError : Type 0 where
  pub status : Option ℕ
  pub body : String

-- `_call` returns `None` for 204, or the body's JSON, or raises.
pub data Outcome : Type 0 where
  no_content : Outcome
  returned : (body : String) → Outcome
  failed : BridgeClientError → Outcome

-- `_sleep_backoff`, in milliseconds.
abbrev pub backoff_ms : ℕ → ℕ
backoff_ms attempt = 250 * 2 ^ (attempt - 1)

-- The loop over `range(attempt, _MAX_ATTEMPTS + 1)`, with `left` attempts to go, on what the requests
-- meet: the outcome and the sleeps.
unfoldable pub attempts :
    (allow_204 : Bool) (left attempt : ℕ) → BridgeClientError → (ℕ → Attempt) → Outcome × List ℕ
attempts allow_204 zero attempt last meets = (failed last, [])
attempts allow_204 (suc left) attempt last meets = elim (meets attempt) [
  | transport_error text ↦
      let (o, sleeps) =
        attempts allow_204 left (suc attempt) (record { status = none; body = text }) meets in
      (o, backoff_ms attempt ∷ sleeps)
  | response status body ↦
      let (o, sleeps) =
        attempts allow_204 left (suc attempt) (record { status = some status; body = body })
          meets in
      if allow_204 && status == 204
      then (no_content, [])
      else if leb 200 status && ltb status 300
      then (returned body, [])
      else if leb 500 status
      then (o, backoff_ms attempt ∷ sleeps)
      else (failed (record { status = some status; body = body }), [])
]

-- `_call`
unfoldable pub call : Bool → (ℕ → Attempt) → Outcome × List ℕ
unfolding attempts
call allow_204 meets = attempts allow_204 max_attempts 1 (record { status = none; body = "" }) meets
