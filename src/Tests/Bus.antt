-- ===== src/Tests/Bus.antt =====
-- The agents' client, the event routes and the mail parser, on concrete data.
use open_claw_bridge.Prelude.{
  ℕ, suc, String, ◌≡◌, refl, ◌↔◌, ◌⊎◌, true, false, Option, none, some, List, [], ◌∷◌, map, arith,
  ◌==◌, if◌then◌else◌, is_space, length,
}
use open_claw_bridge.Errors.{ok, err}
use open_claw_bridge.Asgi.{Application, start, body, drain_body, read_header}
use open_claw_bridge.Idempotency.{
  World, call, keyed, prune_expired, run_and_store, remember, store, capture,
}
use open_claw_bridge.Idempotency.Rows.{after_call}
use open_claw_bridge.Tests.Services.{library}
use open_claw_bridge.Auth.{TokenStore, require_scope}
use open_claw_bridge.Client.{
  Request, Response, Answer, response, Float, returned, handle_async_request, stamp_idempotency_key,
  max_429_retries, retry_after_cap, attempts, on_429, sleep_for, read_retry_after, set_header,
}
use open_claw_bridge.Client.Bounds.{IsBounded, handle-IsBounded}
use open_claw_bridge.Client.Bridge.{bridge}
use open_claw_bridge.Client.Once.{handle-once}
use open_claw_bridge.Events.Topics.{validate_publish_topic, validate_subscribe_pattern}
use open_claw_bridge.Events.Grammar.{IsDotted, IsWord, IsWordOrStar, accepts, validate_lem}
use open_claw_bridge.Events.Routes.{events_subscribe, closed, accepted}
use open_claw_bridge.Events.Handshake.{events_subscribe_lem}
use open_claw_bridge.Relay.Outbound.{codes}
use open_claw_bridge.Email.Parse.{parse_thread_response}
use open_claw_bridge.Email.Tree.{
  Items, done, number, space, branch, print_response, flatten, IsResponse,
}
use open_claw_bridge.Email.ThreadId.{
  Utf8, cleaned, thread, encode_thread_id, decode_thread_id, decode-encode,
}
use open_claw_bridge.Email.Threads.{parse-print}

abbrev post : Request
post = record { method = "POST"; path = "/v1/vault/write"; headers = []; body = "a" }

abbrev no_float : String → Option Float
no_float raw = none

-- A bridge that always refuses.
abbrev refusing : Request → ℕ → Answer × ℕ
refusing r n = (response (record { status = 429; headers = []; body = "" }), suc n)

handle-IsBounded_example :
    IsBounded retry_after_cap max_429_retries
      (stamp_idempotency_key none "u" post)
      (handle_async_request no_float refusing none "u" post 0)
handle-IsBounded_example = handle-IsBounded no_float refusing none "u" post 0

-- An application that refuses once and then counts its runs.
abbrev busy : Application ℕ
busy scope input n = record {
  sent = start (if n == 0 then 429 else 201) [] ∷ body "ok" ∷ [];
  raised = none;
  state = suc n;
}

abbrev world : World ℕ
world = record { conn = some []; store_fault = false; inner = 0 }

abbrev clock : ℕ → ℕ × ℕ
clock n = (1000, 1000)

abbrev created : Response
created = record { status = 201; headers = []; body = "ok" }

handle-once_example :
    (let first =
        handle_async_request no_float (bridge library busy clock) (some "k1") "u" post (world, 0) in
      let second =
        handle_async_request no_float
          (bridge library busy clock)
          (some "k1")
          "v"
          post
          first.world in
      (hs : List (String × String)) × (second.outcome
        ≡ returned (record { status = 201; headers = hs; body = "ok" }))
      × (length second.requests ≡ 1)
      × (second.world.0.inner ≡ first.world.0.inner))
unfolding handle_async_request bridge after_call call keyed prune_expired run_and_store remember
    store capture drain_body read_header attempts on_429 sleep_for read_retry_after set_header
    stamp_idempotency_key
handle-once_example =
    handle-once library busy clock no_float "k1" "u" "v" post post world 0 created refl refl refl
      refl (record { rows = []; conn = refl; absent = refl; works = refl }) (λ i j. omega arith)
      refl refl

validate_lem_example :
    ((accepts (validate_publish_topic "vault.changed") ≡ true)
      ↔ IsDotted IsWord (codes "vault.changed"))
    × ((accepts (validate_subscribe_pattern "vault.changed") ≡ true)
        ↔ IsDotted IsWordOrStar (codes "vault.changed"))
    × ((accepts (validate_publish_topic "vault.changed") ≡ false)
        ⊎ (accepts (validate_subscribe_pattern "vault.changed") ≡ true))
validate_lem_example = validate_lem "vault.changed"

abbrev tokens : TokenStore
tokens = record {
  records = ("s", record { actor = "brain"; scopes = "events:subscribe" ∷ [] }) ∷ [];
  loaded_at = some 0;
}

events_subscribe_lem_example :
    (let (guard, s') = require_scope (λ s. s) "events:subscribe" 1 [] (some "s") tokens in
      events_subscribe (λ s. s) 1 [] (some "s") "vault.*" none tokens ≡ (
        elim guard [
          | err e ↦ closed 1008
          | ok auth ↦ elim (validate_subscribe_pattern "vault.*") [
            | err e ↦ closed 1008
            | ok t ↦ if false then accepted else closed 1011
          ]
        ],
        s',
      ))
events_subscribe_lem_example = events_subscribe_lem (λ s. s) 1 [] (some "s") "vault.*" none tokens

-- `(1 (22)) (3)`
abbrev brackets : List (Items × List ℕ)
brackets =
    (number (49 ∷ []) (space 32 (branch (number (50 ∷ 50 ∷ []) done) done)), 32 ∷ [])
    ∷ (number (51 ∷ []) done, [])
    ∷ []

brackets-IsResponse : IsResponse brackets
unfolding is_space
brackets-IsResponse = (
  (
    (refl, (λ e. cc e, (refl, tt)), (refl, ((refl, (λ e. cc e, (refl, (refl, tt))), tt), tt))),
    (refl, tt),
  ),
  (((refl, (λ e. cc e, (refl, tt)), tt), tt), tt),
)

parse-print_example :
    parse_thread_response (print_response brackets) ≡ map (λ r. flatten r.0) brackets
parse-print_example = parse-print brackets brackets-IsResponse

-- UTF-8 on ASCII.
abbrev ascii : Utf8
ascii = record { encode = λ s. s; decode = λ s. some s }

-- The account `a`, and the message id `<m@b>` behind a space.
decode-encode_example :
    decode_thread_id ascii (encode_thread_id ascii (97 ∷ []) (32 ∷ 60 ∷ 109 ∷ 64 ∷ 98 ∷ 62 ∷ []))
    ≡ thread (97 ∷ []) (60 ∷ 109 ∷ 64 ∷ 98 ∷ 62 ∷ [])
unfolding cleaned is_space
decode-encode_example =
    decode-encode ascii (97 ∷ []) (32 ∷ 60 ∷ 109 ∷ 64 ∷ 98 ∷ 62 ∷ []) refl
      (omega arith, (omega arith, (omega arith, (omega arith, (omega arith, tt))))) refl refl refl
