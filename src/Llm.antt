-- ===== src/Llm.antt =====
-- bridge/src/bridge/providers/llm/router.py, bridge/src/bridge/routes/llm.py and `write_llm_call` of
-- bridge/src/bridge/telemetry.py: the choice of a provider, a completion and its row in telemetry.db.
--
-- A provider is a function of the request; costs are in a unit of which they are whole numbers. The row
-- of a success is written after the response, in a background task; the state here is the one after it.
pub mod Recorded
use open_claw_bridge.Prelude.{
  ℕ, zero, suc, ◌+◌, ◌-◌, ◌*◌, ◌/◌, ◌%◌, ◌^◌, ◌≤◌, ◌<◌, min, max, String, text_length, utf8_length,
  ◌≡◌, refl, sym, ap, ◌∙◌, ◌≢◌, ◌↔◌, ◌⊎◌, inl, inr, Bool, true, false, not, ◌&&◌, ◌||◌, Option,
  none, some, List, [], ◌∷◌, ◌++◌, map, append-nil, append_assoc, arith, str_eq, eq_iff, eq_refl,
  ltb, leb, ◌==◌, if◌then◌else◌, Bool-cases, Option-cases, concat, concat_one, concat_nil,
  take_text, is_empty, or_else, text_mem, is_space, is_blank, length, length-append, get_or,
  is_some, filter, find, any, All, reverse, Forward,
}
use open_claw_bridge.Errors.{
  BridgeError, Detail, text, number, flag, texts, null, Details, error, dependency_unavailable,
  code,
}

pub data TaskClass : Type 0 where
  triage classify reason draft summarise : TaskClass

pub data ProviderHint : Type 0 where
  auto local openrouter : ProviderHint

-- `LLMRequest`; `rest` stands for what only the provider reads.
pub record LlmRequest : Type 0 where
  pub task_class : TaskClass
  pub provider_hint : ProviderHint
  pub model_hint : Option String
  pub rest : String

pub record LlmResponse : Type 0 where
  pub provider : String
  pub model : String
  pub content : String
  pub prompt_tokens : ℕ
  pub completion_tokens : ℕ
  pub cost : ℕ
  pub latency_ms : ℕ

-- How a call ends: a response, an exception with an envelope, or any other.
pub data Completion : Type 0 where
  completed : LlmResponse → Completion
  failed : BridgeError → Completion
  crashed : (text : String) → Completion

abbrev pub Provider : Type 0
Provider = LlmRequest → Completion

-- `LLMRouter`
pub record LlmRouter : Type 0 where
  pub openrouter_provider : Provider
  pub local_provider : Option Provider

-- `_LOCAL_PREFERRING_TASKS`
abbrev pub prefers_local : TaskClass → Bool
prefers_local triage = true
prefers_local classify = true
prefers_local _ = false

abbrev pub no_local : BridgeError
no_local =
    error dependency_unavailable "Local LLM provider is not configured."
      (("hint", text "local") ∷ [])

-- `_select`, and the call of what it picks.
unfoldable pub complete : LlmRouter → LlmRequest → Completion
complete router r = elim r.provider_hint [
  | openrouter ↦ router.openrouter_provider r
  | local ↦ elim router.local_provider [ none ↦ failed no_local | some p ↦ p r ]
  | auto ↦ elim router.local_provider [
    | none ↦ router.openrouter_provider r
    | some p ↦ if prefers_local r.task_class then p r else router.openrouter_provider r
  ]
]

-- `LLMCallRecord`
pub record LlmCallRecord : Type 0 where
  pub actor : String
  pub task_class : TaskClass
  pub provider : String
  pub model : String
  pub prompt_tokens : ℕ
  pub completion_tokens : ℕ
  pub cost : ℕ
  pub latency_ms : ℕ
  pub status : String
  pub error_code : Option String
  pub request_id : String

-- telemetry.db; `fault` says whether its INSERT raises `sqlite3.Error`.
pub record Telemetry : Type 0 where
  pub rows : List LlmCallRecord
  pub fault : Bool

-- `write_llm_call`
unfoldable pub write_llm_call : LlmCallRecord → Telemetry → Telemetry
write_llm_call r t = if t.fault then t else record t { rows = t.rows ++ r ∷ [] }

-- `details.get(k)`
unfoldable pub get : String → Details → Option Detail
get k [] = none
get k ((j, d) ∷ rest) = if str_eq j k then some d else get k rest

-- `bool(...)`
abbrev pub is_true : Option Detail → Bool
is_true none = false
is_true (some (text s)) = not (is_empty s)
is_true (some (number n)) = not (n == 0)
is_true (some (flag b)) = b
is_true (some (texts [])) = false
is_true (some (texts (s ∷ ss))) = true
is_true (some null) = false

-- `int(... or 0)`; the providers give a number or nothing.
abbrev pub latency_of : Option Detail → ℕ
latency_of (some (number n)) = n
latency_of (some (flag true)) = 1
latency_of _ = 0

-- `str(... or model_hint or "unknown")`; the providers give a text or nothing.
abbrev pub model_of : Option Detail → Option String → String
model_of (some (text s)) hint = or_else s (or_else (get_or hint "") "unknown")
model_of _ hint = or_else (get_or hint "") "unknown"

abbrev pub blamed : ProviderHint → String
blamed local = "local"
blamed _ = "openrouter"

-- The row of an exception.
unfoldable pub failure_row : String → String → LlmRequest → BridgeError → LlmCallRecord
unfolding get code
failure_row actor request_id r e = record {
  actor = actor;
  task_class = r.task_class;
  provider = blamed r.provider_hint;
  model = model_of (get "model" e.details) r.model_hint;
  prompt_tokens = 0;
  completion_tokens = 0;
  cost = 0;
  latency_ms = latency_of (get "latency_ms" e.details);
  status = if is_true (get "timeout" e.details) then "timeout" else "error";
  error_code = some (code e.kind);
  request_id = request_id;
}

unfoldable pub success_row : String → String → LlmRequest → LlmResponse → LlmCallRecord
success_row actor request_id r a = record {
  actor = actor;
  task_class = r.task_class;
  provider = a.provider;
  model = a.model;
  prompt_tokens = a.prompt_tokens;
  completion_tokens = a.completion_tokens;
  cost = a.cost;
  latency_ms = a.latency_ms;
  status = "success";
  error_code = none;
  request_id = request_id;
}

-- The three ways in which `llm_complete` goes on from a completion.
unfoldable pub recorded :
    String → String → LlmRequest → Telemetry → Completion → Completion × Telemetry
unfolding write_llm_call failure_row success_row
recorded actor request_id r t (completed a) =
    (completed a, write_llm_call (success_row actor request_id r a) t)
recorded actor request_id r t (failed e) =
    (failed e, write_llm_call (failure_row actor request_id r e) t)
recorded actor request_id r t (crashed e) = (crashed e, t)

-- `llm_complete`, for an actor that passed its scope and rate.
unfoldable pub llm_complete :
    LlmRouter → String → String → LlmRequest → Telemetry → Completion × Telemetry
unfolding complete recorded
llm_complete router actor request_id r t = recorded actor request_id r t (complete router r)
