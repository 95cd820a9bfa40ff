-- ===== src/Tests/Front.antt =====
-- The middlewares, the language model route and the agents' subscriber, on concrete data.
use open_claw_bridge.Prelude.{
  ℕ, ◌+◌, ◌-◌, min, ◌≡◌, refl, true, false, not, ◌&&◌, none, some, [], ◌∷◌, ◌++◌, map, ◌==◌,
  if◌then◌else◌, is_some, any, All,
}
use open_claw_bridge.Errors.{error, dependency_unavailable, flag}
use open_claw_bridge.Asgi.{Scope, Application}
use open_claw_bridge.Tests.Services.{library}
use open_claw_bridge.Middleware.{
  request_id_of, is_start, send_with_headers, unhandled, status_after,
}
use open_claw_bridge.Middleware.Stack.{IsStamped, stack, stack_lem}
use open_claw_bridge.Llm.{
  triage, auto, LlmRequest, LlmRouter, Provider, failed, crashed, Telemetry, llm_complete,
}
use open_claw_bridge.Llm.Recorded.{promised, Settled, llm_complete_lem}
use open_claw_bridge.Client.EventBus.{Turn, exhausted, verdict, dropped, anext, take, anext_lem}

-- An application that breaks before it answers.
abbrev broken : Application ℕ
broken scope input n = record { sent = []; raised = some "ValueError"; state = n }

abbrev scope : Scope
scope = record {
  type = "http";
  method = "GET";
  path = "/v1/health";
  headers = ("x-request-id", "r7") ∷ [];
  request_id = "";
}

stack_lem_example :
    (let rid = request_id_of "u" scope in
      let inner = broken (record scope { request_id = rid }) [] 0 in
      let ran = stack library "1.0" "u" broken scope [] (0, []) in
      All (IsStamped "1.0" rid) ran.sent
      × (ran.sent
          ≡ map (send_with_headers "1.0" rid) inner.sent
            ++ (if is_some inner.raised && not (any is_start inner.sent)
                then unhandled library "1.0" rid
                else []))
      × (ran.raised ≡ (if any is_start inner.sent then inner.raised else none))
      × (ran.state ≡ (
        inner.state,
        []
            ++ record {
              request_id = rid;
              method = "GET";
              path = "/v1/health";
              status = status_after 500 ran.sent;
            }
              ∷ [],
      )))
stack_lem_example = stack_lem library "1.0" "u" broken scope [] 0 [] refl

abbrev late : Provider
late r = failed (error dependency_unavailable "OpenRouter timed out." (("timeout", flag true) ∷ []))

abbrev router : LlmRouter
router = record { openrouter_provider = λ r. crashed "unused"; local_provider = some late }

abbrev question : LlmRequest
question = record { task_class = triage; provider_hint = auto; model_hint = none; rest = "hello" }

abbrev telemetry : Telemetry
telemetry = record { rows = []; fault = false }

llm_complete_lem_example :
    (let (answer, t') = llm_complete router "brain" "r7" question telemetry in
      (answer ≡ promised router question) × Settled "brain" "r7" question telemetry answer t')
llm_complete_lem_example = llm_complete_lem router "brain" "r7" question telemetry

-- Two connections that close at once, and a frame on the third.
abbrev turns : ℕ → Turn
turns n = record { refusal = none; frame = if n == 2 then some "e1" else none }

anext_lem_example :
    (let k = dropped 5 0 turns in
      let e = anext false none turns in
      (e.next ≡ (if k == 5 then exhausted 5 else verdict (turns k)))
      × (e.connects ≡ min (k + 1) 5)
      × (e.sleeps ≡ take (e.connects - 1) (1000 ∷ 2000 ∷ 4000 ∷ 8000 ∷ [])))
anext_lem_example = anext_lem none turns
