-- ===== src/Client/Agent.antt =====
-- brains/shared/src/brains_shared/agent.py: what the helpers make of the bridge's responses.
pub mod Wire
use open_claw_bridge.Prelude.{
  ℕ, zero, suc, ◌+◌, ◌-◌, ◌*◌, ◌/◌, ◌%◌, ◌^◌, ◌≤◌, ◌<◌, min, max, String, text_length, utf8_length,
  ◌≡◌, refl, sym, ap, ◌∙◌, ◌≢◌, ◌↔◌, ◌⊎◌, inl, inr, Bool, true, false, not, ◌&&◌, ◌||◌, Option,
  none, some, List, [], ◌∷◌, ◌++◌, map, append-nil, append_assoc, arith, str_eq, eq_iff, eq_refl,
  ltb, leb, ◌==◌, if◌then◌else◌, Bool-cases, Option-cases, concat, concat_one, concat_nil,
  take_text, is_empty, or_else, text_mem, is_space, is_blank, length, length-append, get_or,
  is_some, filter, find, any, All, reverse, Forward,
}
use open_claw_bridge.Drafts.Wire.{
  Json, Items, Fields, string, integer, boolean, nothing, array, object, end, item, done, field,
  HttpResponse,
}

pub record AgentError : Type 0 where
  pub status : ℕ
  pub code : String
  pub message : String

-- What a helper raises: `AgentError`, or an exception of Python's.
pub data Raised : Type 0 where
  agent_error : AgentError → Raised
  key_error : (key : String) → Raised
  attribute_error : Raised
  type_error : Raised

pub data Answer (A : Type 0) : Type 0 where
  value : A → Answer A
  fails : Raised → Answer A

infixl 5 ◌>>=◌
abbrev pub ◌>>=◌ : {A B : Type 0} → Answer A → (A → Answer B) → Answer B
value a >>= f = f a
fails e >>= f = fails e

-- `d.get(k)`; where a key stands twice, the last counts.
unfoldable pub lookup : String → Fields → Option Json
lookup k done = none
lookup k (field j v rest) =
    let behind = lookup k rest in
    elim behind [ some w ↦ some w | none ↦ if str_eq j k then some v else none ]

-- The fields of `Draft`.
pub record Draft : Type 0 where
  pub draft_id : String
  pub agent : String
  pub channel : String
  pub to_handle : String
  pub body : String
  pub status : String
  pub created_at : String
  pub last_modified_at : String
  pub publisher : String
  pub in_reply_to_event_id : Option String
  pub preview : Option String
  pub approved_at : Option String
  pub approved_by : Option String
  pub reject_reason : Option String
  pub dispatch_message_id : Option String
  pub sent_at : Option String
  pub last_send_error_code : Option String
  pub last_send_error_message : Option String

-- `render` is `str` on what is no text.
module _ (render : Json → String) where
  abbrev pub str : Json → String
  str (string s) = s
  str j = render j

  -- `str(envelope.get(k, d))`
  abbrev pub get_str : String → String → Fields → String
  get_str k d fields = str (get_or (lookup k fields) (string d))

  -- `.get("error", {})` on what `json.loads` gives; none is an exception that is caught.
  abbrev pub error_of : Option Json → Json
  error_of (some (object fields)) = get_or (lookup "error" fields) (object done)
  error_of _ = object done

  -- `AgentError.from_response`; an error that is no object has no `get`.
  unfoldable pub from_response : ℕ → Option Json → Raised
  unfolding lookup
  from_response status content = elim (error_of content) [
    | object fields ↦ agent_error (record {
      status = status;
      code = get_str "code" "unknown" fields;
      message = get_str "message" "" fields;
    })
    | _ ↦ attribute_error
  ]

  -- `str(d[k])`
  abbrev pub required : String → Fields → Answer String
  required k fields = elim (lookup k fields) [ none ↦ fails (key_error k) | some j ↦ value (str j) ]

  -- `_str_or_none(d.get(k))`
  abbrev pub str_or_none : Option Json → Option String
  str_or_none none = none
  str_or_none (some nothing) = none
  str_or_none (some j) = some (str j)

  -- `_draft_from_dict`
  unfoldable pub draft_from_dict : Fields → Answer Draft
  unfolding lookup
  draft_from_dict d = do
    draft_id ← required "draft_id" d
    agent ← required "agent" d
    channel ← required "channel" d
    to_handle ← required "to_handle" d
    body ← required "body" d
    status ← required "status" d
    created_at ← required "created_at" d
    last_modified_at ← required "last_modified_at" d
    publisher ← required "publisher" d
    value (record {
      draft_id = draft_id;
      agent = agent;
      channel = channel;
      to_handle = to_handle;
      body = body;
      status = status;
      created_at = created_at;
      last_modified_at = last_modified_at;
      publisher = publisher;
      in_reply_to_event_id = str_or_none (lookup "in_reply_to_event_id" d);
      preview = str_or_none (lookup "preview" d);
      approved_at = str_or_none (lookup "approved_at" d);
      approved_by = str_or_none (lookup "approved_by" d);
      reject_reason = str_or_none (lookup "reject_reason" d);
      dispatch_message_id = str_or_none (lookup "dispatch_message_id" d);
      sent_at = str_or_none (lookup "sent_at" d);
      last_send_error_code = str_or_none (lookup "last_send_error_code" d);
      last_send_error_message = str_or_none (lookup "last_send_error_message" d);
    })

  -- `d["draft_id"]` of what is no object.
  abbrev pub as_draft : Json → Answer Draft
  as_draft (object fields) = draft_from_dict fields
  as_draft _ = fails type_error

  -- `get_draft` and `update_draft`, from the response on.
  unfoldable pub read_draft : HttpResponse → Answer Draft
  unfolding from_response draft_from_dict
  read_draft resp =
      if resp.status_code == 200
      then as_draft resp.content
      else fails (from_response resp.status_code (some resp.content))

  unfoldable pub as_drafts : Items → Answer (List Draft)
  unfolding draft_from_dict
  as_drafts end = value []
  as_drafts (item j js) = do d ← as_draft j; ds ← as_drafts js; value (d ∷ ds)

  -- `parsed.get("drafts", [])`
  abbrev pub drafts_field : Json → Answer (List Draft)
  drafts_field (object fields) = elim (lookup "drafts" fields) [
    | none ↦ value []
    | some (array js) ↦ as_drafts js
    | some _ ↦ fails type_error
  ]
  drafts_field _ = fails attribute_error

  -- `list_drafts`, from the response on.
  unfoldable pub read_drafts : HttpResponse → Answer (List Draft)
  unfolding from_response as_drafts lookup
  read_drafts resp =
      if resp.status_code == 200
      then drafts_field resp.content
      else fails (from_response resp.status_code (some resp.content))
