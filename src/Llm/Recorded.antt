-- ===== src/Llm/Recorded.antt =====
-- Which provider answers, and what telemetry.db keeps of it.
use open_claw_bridge.Prelude.{
  ◌+◌, String, ◌≡◌, refl, ◌∙◌, ◌⊎◌, inl, inr, Bool, true, false, none, some, [], ◌∷◌, ◌++◌, arith,
  if◌then◌else◌, Bool-cases,
}
use open_claw_bridge.Errors.{BridgeError, Details, bridge_error_handler}
use open_claw_bridge.Llm.{
  recorded, ProviderHint, auto, local, openrouter, LlmRequest, Completion, completed, failed,
  crashed, LlmRouter, prefers_local, no_local, complete, LlmCallRecord, Telemetry, write_llm_call,
  failure_row, success_row, llm_complete, get, is_true, latency_of, model_of,
}

abbrev pub wants_local : LlmRequest → Bool
wants_local r = elim r.provider_hint [
  | auto ↦ prefers_local r.task_class
  | local ↦ true
  | openrouter ↦ false
]

abbrev pub insists : ProviderHint → Bool
insists local = true
insists _ = false

-- The provider that the documentation promises.
abbrev pub promised : LlmRouter → LlmRequest → Completion
promised router r = elim router.local_provider [
  | some p ↦ if wants_local r then p r else router.openrouter_provider r
  | none ↦ if insists r.provider_hint then failed no_local else router.openrouter_provider r
]

-- The provider that a failed row names.
abbrev pub named : ProviderHint → String
named h = if insists h then "local" else "openrouter"

abbrev pub details_of : BridgeError → Details
details_of e = (bridge_error_handler none e).content.details

abbrev pub says_timeout : BridgeError → Bool
says_timeout e = is_true (get "timeout" (details_of e))

-- A row tells of a response what it was, and of an exception what its envelope says: its code, and from
-- its details the timeout, the latency and the model.
abbrev pub Tells : LlmRequest → LlmCallRecord → Completion → Type 0
Tells r row (completed a) =
    (row.status ≡ "success")
    × (row.error_code ≡ none)
    × (row.provider ≡ a.provider)
    × (row.model ≡ a.model)
    × (row.prompt_tokens ≡ a.prompt_tokens)
    × (row.completion_tokens ≡ a.completion_tokens)
    × (row.cost ≡ a.cost)
    × (row.latency_ms ≡ a.latency_ms)
Tells r row (failed e) =
    (((says_timeout e ≡ true) × (row.status ≡ "timeout"))
      ⊎ ((says_timeout e ≡ false) × (row.status ≡ "error")))
    × (row.provider ≡ named r.provider_hint)
    × (row.model ≡ model_of (get "model" (details_of e)) r.model_hint)
    × (row.latency_ms ≡ latency_of (get "latency_ms" (details_of e)))
    × (row.prompt_tokens + row.completion_tokens ≡ 0)
    × (row.error_code ≡ some (bridge_error_handler (some row.request_id) e).content.code)
    × (row.request_id ≡ (bridge_error_handler (some row.request_id) e).content.request_id)
    × (row.cost ≡ 0)
Tells r row (crashed text) = ⊥

-- One row more, and it tells of the call.
pub record IsRecorded (actor request_id : String) (r : LlmRequest) (t t' : Telemetry)
    (answer : Completion) : Type 0 where
  pub row : LlmCallRecord
  pub kept : t'.rows ≡ t.rows ++ row ∷ []
  pub of_actor : row.actor ≡ actor
  pub of_request : row.request_id ≡ request_id
  pub of_task : row.task_class ≡ r.task_class
  pub tells : Tells r row answer

complete-promised : (router : LlmRouter) (r : LlmRequest) → complete router r ≡ promised router r
unfolding complete
complete-promised router r = ground arith

failed-Tells :
    (actor request_id : String) (r : LlmRequest) (e : BridgeError)
    → Tells r (failure_row actor request_id r e) (failed e)
unfolding failure_row bridge_error_handler
failed-Tells actor request_id r e = (ground arith, ground arith, refl, refl, refl, refl, refl, refl)

module _ (actor request_id : String) (r : LlmRequest) (t : Telemetry) where
  recorded-answer : (c : Completion) → (recorded actor request_id r t c).0 ≡ c
  unfolding recorded
  recorded-answer (completed a) = refl
  recorded-answer (failed e) = refl
  recorded-answer (crashed e) = refl

  -- What is known of the table after a completion.
  abbrev pub Settled : Completion → Telemetry → Type 0
  Settled answer t' =
      IsRecorded actor request_id r t t' answer
      ⊎ ((t' ≡ t) × ((t.fault ≡ true) ⊎ ((e : String) × (answer ≡ crashed e))))

  write-Settled :
      (row : LlmCallRecord) (c : Completion)
      → row.actor ≡ actor
      → row.request_id ≡ request_id
      → row.task_class ≡ r.task_class
      → Tells r row c
      → Settled c (write_llm_call row t)
  unfolding write_llm_call
  write-Settled row c a b d tells = elim (Bool-cases t.fault) [
    | inl f ↦ inr (rw f refl, inl f)
    | inr f ↦ inl (record {
      row = row;
      kept = rw (write_llm_call, f) refl;
      of_actor = a;
      of_request = b;
      of_task = d;
      tells = tells;
    })
  ]

  recorded-Settled : (c : Completion) → Settled c (recorded actor request_id r t c).1
  unfolding recorded success_row failure_row
  recorded-Settled (completed a) =
      write-Settled (success_row actor request_id r a) (completed a) refl refl refl
        (refl, refl, refl, refl, refl, refl, refl, refl)
  recorded-Settled (failed e) =
      write-Settled (failure_row actor request_id r e) (failed e) refl refl refl
        (failed-Tells actor request_id r e)
  recorded-Settled (crashed e) = inr (refl, inr (e, refl))

-- A completion is that of the local provider, if it is configured and either asked for or preferred for
-- the task under `auto`; else OpenRouter's, but `dependency_unavailable` where the local one was asked
-- for. A call that ends in a response or an exception with an envelope leaves one row, with the actor,
-- the request id, the task and what the response or the envelope says, if the table works; of an
-- exception it keeps the code, "timeout" exactly if the details say so and else "error", the latency and
-- the model of the details, and "local" as the provider exactly if that was asked for; if it does
-- not, or after any other exception, there is no row. The answer does not depend on the table.
pub llm_complete_lem :
    (router : LlmRouter) (actor request_id : String) (r : LlmRequest) (t : Telemetry)
    → (let (answer, t') = llm_complete router actor request_id r t in
        (answer ≡ promised router r) × Settled actor request_id r t answer t')
unfolding llm_complete
llm_complete_lem router actor request_id r t =
    let c = complete router r in
    (
      recorded-answer actor request_id r t c ∙ complete-promised router r,
      rw (recorded-answer actor request_id r t c) (recorded-Settled actor request_id r t c),
    )
