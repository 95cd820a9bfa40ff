-- ===== src/Drafts/Create.antt =====
-- `create_draft` of bridge/src/bridge/routes/agent.py: POST /v1/agent/drafts.
use open_claw_bridge.Prelude.{
  String, Option, none, some, List, [], ◌∷◌, map, concat, take_text, or_else, get_or,
}
use open_claw_bridge.Errors.{
  ok, err, text, error, internal_error, dependency_unavailable, BridgeError,
}
use open_claw_bridge.Drafts.{Draft, Channel, imessage, email, Status, pending}
use open_claw_bridge.Drafts.Table.{Table, insert}
use open_claw_bridge.Server.{Handler, Stamp, publish_on, ◌>>=◌, ◌>>◌, pure, or_raise}

-- `DraftCreateRequest`, after pydantic has accepted it.
pub record DraftCreateRequest : Type 0 where
  pub agent : String
  pub channel : Channel
  pub to_handle : String
  pub body : String
  pub in_reply_to_event_id : Option String
  pub preview : Option String

pub record DraftCreated : Type 0 where
  pub draft_id : String
  pub agent : String
  pub channel : Channel
  pub status : Status
  pub created_at : String
  pub preview : String

abbrev pub channel_name : Channel → String
channel_name imessage = "imessage"
channel_name email = "email"

-- `_conn`
abbrev pub store_unavailable : BridgeError
store_unavailable =
    error dependency_unavailable "Agent draft store unavailable (agent.db)."
      (("missing", text "agent_db") ∷ [])

unfoldable pub conn : Handler Table
conn app = or_raise app.agent_conn store_unavailable app

-- `body.preview or body.body[:80]`
abbrev pub preview_of : DraftCreateRequest → String
preview_of r = or_else (get_or r.preview "") (take_text 80 r.body)

unfoldable pub new_draft : Stamp → String → DraftCreateRequest → Draft
new_draft s actor r = record {
  draft_id = s.uuid;
  agent = r.agent;
  channel = r.channel;
  to_handle = r.to_handle;
  body = r.body;
  status = pending;
  created_at = s.now;
  last_modified_at = s.now;
  in_reply_to_event_id = r.in_reply_to_event_id;
  preview = some (preview_of r);
  approved_at = none;
  approved_by = none;
  reject_reason = none;
  dispatch_message_id = none;
  sent_at = none;
  last_send_error_code = none;
  last_send_error_message = none;
  publisher = actor;
}

-- An `IntegrityError` is no `BridgeError`: it reaches the client as the 500 of the middleware.
pub insert_row : Draft → Table → Handler (Unit {0})
insert_row d t app = elim (insert d t) [
  | none ↦ (err (error internal_error "Internal server error." []), app)
  | some t' ↦ (ok tt, record app { agent_conn = some t' })
]

-- `pub.publish(...)` where a failure is only logged.
unfoldable pub publish_quietly :
    Stamp → String → List (String × String) → String → Handler (Unit {0})
unfolding publish_on
publish_quietly s topic payload actor app = elim app.redis_client [
  | none ↦ (ok tt, app)
  | some r ↦ (ok tt, (publish_on s topic (map (λ (k, v). (k, text v)) payload) actor app r).1)
]

unfoldable pub create_draft : Stamp → Stamp → String → DraftCreateRequest → Handler DraftCreated
unfolding conn new_draft insert_row publish_quietly
create_draft s published actor r = do
  t ← conn
  insert_row (new_draft s actor r) t
  publish_quietly published (concat ("agent." ∷ r.agent ∷ ".draft.pending" ∷ []))
      (("draft_id", s.uuid) ∷ ("channel", channel_name r.channel) ∷ ("preview", preview_of r) ∷ [])
      actor
  pure (record {
    draft_id = s.uuid;
    agent = r.agent;
    channel = r.channel;
    status = pending;
    created_at = s.now;
    preview = preview_of r;
  })
