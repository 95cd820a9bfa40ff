-- ===== src/Brain.antt =====
-- brains/agent/src/agent/handlers/imessage_received.py and state.py: what the agent does with an
-- inbound message, and the table of the events that it has processed. The two calls of the language
-- model, the draft that the bridge creates and the event that it publishes are the environment: what
-- they return stands in the arguments.
pub mod Dedup
pub mod Loop
use open_claw_bridge.Prelude.{
  ℕ, String, Bool, ◌||◌, Option, none, some, List, [], ◌∷◌, ◌++◌, str_eq, if◌then◌else◌, take_text,
  is_empty, or_else, text_mem,
}

pub record Envelope : Type 0 where
  pub event_id : String
  pub topic : String
  pub sender : String
  pub body : String
  pub chat_guid : String

-- What `json.loads` makes of a text: an object with its `action`, if that is a text, another value, or a
-- `JSONDecodeError`.
pub data Json : Type 0 where
  object : (action : Option String) → Json
  other : Json
  malformed : Json

-- `_parse_triage_json`, from its first `json.loads` on: what that returns, whether the text holds a
-- `{` with a `}` behind it, and what `json.loads` returns between them. The result's `action`.
abbrev pub parsed_action : Json → String
parsed_action malformed = "ignore"
parsed_action other = "ignore"
parsed_action (object none) = "ignore"
parsed_action (object (some a)) = if str_eq a "draft" || str_eq a "ignore" then a else "ignore"

unfoldable pub parse_triage_json : Json → Option Json → String
parse_triage_json malformed none = "ignore"
parse_triage_json malformed (some inner) = parsed_action inner
parse_triage_json other inner = "ignore"
parse_triage_json (object a) inner = parsed_action (object a)

pub data Outcome : Type 0 where
  success : Outcome
  failure : (exception : String) → Outcome

-- What the handler asks of others, in its order.
pub data Effect : Type 0 where
  triage : (sender body : String) → Effect
  draft_reply : (sender body : String) → Effect
  create_draft : (to_handle body preview in_reply_to : String) → Effect
  task_completed : (task_id : String) → Outcome → Effect

-- What the environment answers to one call of the handler; `Result`'s texts are exception types.
-- `lookup_fault` and `mark_fault` say whether the SELECT of `is_processed` and the INSERT of
-- `mark_processed` raise, and with what.
pub record World : Type 0 where
  pub triage_reply : Option String × Json × Option Json
  pub draft_text : Option String × String
  pub create_fault : Option String
  pub lookup_fault : Option String
  pub mark_fault : Option String

-- `_sync_is_processed`
abbrev pub is_processed : String → List String → Bool
is_processed id processed = text_mem id processed

-- `_sync_mark_processed`: INSERT OR IGNORE.
abbrev pub mark_processed : String → List String → List String
mark_processed id processed = if text_mem id processed then processed else processed ++ id ∷ []

-- `await ctx.state.mark_processed(...)`, which may raise.
unfoldable pub try_mark : World → String → List String → Option String × List String
try_mark w id processed = elim w.mark_fault [
  | some e ↦ (some e, processed)
  | none ↦ (none, mark_processed id processed)
]

abbrev pub preview_len : ℕ
preview_len = 80

-- The calls of the `try` block, up to the mark: the exception that ends them, and the effects.
unfoldable pub produce : World → Envelope → Option String × List Effect
unfolding parse_triage_json
produce w e = elim w.triage_reply.0 [
  | some x ↦ (some x, triage e.sender e.body ∷ [])
  | none ↦
      if str_eq (parse_triage_json w.triage_reply.1 w.triage_reply.2) "ignore"
      then (none, triage e.sender e.body ∷ [])
      else elim w.draft_text.0 [
        | some x ↦ (some x, triage e.sender e.body ∷ draft_reply e.sender e.body ∷ [])
        | none ↦ (
          w.create_fault,
          triage e.sender e.body
              ∷ draft_reply e.sender e.body
              ∷ create_draft (or_else e.sender e.chat_guid) w.draft_text.1
                  (take_text preview_len w.draft_text.1) e.event_id
              ∷ [],
        )
      ]
]

-- The `try` block and its `except`: the outcome that is published, and the table.
unfoldable pub settle : World → Envelope → Option String → List String → Outcome × List String
unfolding try_mark
settle w e (some x) processed = (failure x, (try_mark w e.event_id processed).1)
settle w e none processed =
    let (raised, processed') = try_mark w e.event_id processed in
    elim raised [ none ↦ (success, processed') | some x ↦ (failure x, processed') ]

-- `handle` behind the SELECT: the exception that leaves it, its effects, and the table. A publish that
-- fails is logged and no more.
unfoldable pub go_on : World → Envelope → List String → Option String × List Effect × List String
unfolding produce settle
go_on w e processed =
    if is_processed e.event_id processed
    then (none, [], processed)
    else if is_empty e.body
    then (let (raised, processed') = try_mark w e.event_id processed in
        elim raised [
          | some x ↦ (some x, [], processed')
          | none ↦ (none, task_completed e.event_id success ∷ [], processed')
        ])
    else (let (raised, effects) = produce w e in
        let (outcome, processed') = settle w e raised processed in
        (none, effects ++ task_completed e.event_id outcome ∷ [], processed'))

-- `handle`
unfoldable pub handle : World → Envelope → List String → Option String × List Effect × List String
unfolding go_on
handle w e processed = elim w.lookup_fault [
  | some x ↦ (some x, [], processed)
  | none ↦ go_on w e processed
]
