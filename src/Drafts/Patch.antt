-- ===== src/Drafts/Patch.antt =====
-- `patch_draft` of bridge/src/bridge/routes/agent.py: PATCH /v1/agent/drafts/{draft_id}, with
-- `_enqueue_dispatch` and `_publish_approved`.
use open_claw_bridge.Prelude.{
  String, Bool, true, false, not, ◌&&◌, ◌||◌, Option, none, some, List, [], ◌∷◌, if◌then◌else◌,
  concat, or_else, get_or, is_some,
}
use open_claw_bridge.Errors.{
  ok, err, text, texts, error, bad_request, not_found, conflict, dependency_unavailable,
  BridgeError,
}
use open_claw_bridge.Drafts.{
  Draft, Job, Channel, imessage, Status, pending, approved, rejected, sent, send_failed, is,
  allowed,
}
use open_claw_bridge.Drafts.Table.{Table, select, update}
use open_claw_bridge.Drafts.Create.{conn, channel_name, publish_quietly}
use open_claw_bridge.Server.{
  Handler, Stamp, Redis, job, rpush_on, queue_key, ◌>>=◌, ◌>>◌, pure, or_raise, raise_if,
}

pub record DraftPatch : Type 0 where
  pub status : Option Status
  pub body : Option String
  pub reject_reason : Option String
  pub approved_by : Option String

-- What the call is given from outside: the caller and, in the order in which the handler asks for
-- them, the clock and the fresh ids.
pub record Call : Type 0 where
  pub actor : String
  pub request_id : String
  pub modified : String
  pub dispatch : Stamp
  pub queued_at : String
  pub published : Stamp

abbrev pub status_name : Status → String
status_name pending = "pending"
status_name approved = "approved"
status_name rejected = "rejected"
status_name sent = "sent"
status_name send_failed = "send_failed"

-- `sorted(_ALLOWED_TRANSITIONS[current])`
abbrev allowed_names : Status → List String
allowed_names sent = []
allowed_names rejected = []
allowed_names _ = "approved" ∷ "rejected" ∷ []

-- `body.status or current_status`
abbrev pub target : DraftPatch → Status → Status
target p current = get_or p.status current

-- The `if` before the UPDATE: does this call stamp an approval?
abbrev pub approves : Status → Status → Bool
approves new current =
    is new approved && (is current pending || is current send_failed || is current approved)

-- The `if` behind the UPDATE: does this call send a job?
abbrev pub dispatches : Status → Status → Status → Bool
dispatches new current tgt =
    is new approved
    && (is current pending || is current send_failed || is current approved && is tgt approved)

illegal_transition : String → Status → Status → BridgeError
illegal_transition id current tgt =
    error conflict
      (concat (
        "Illegal status transition '"
        ∷ status_name current
        ∷ "' -> '"
        ∷ status_name tgt
        ∷ "'."
        ∷ []))
      (("draft_id", text id)
        ∷ ("current", text (status_name current))
        ∷ ("requested", text (status_name tgt))
        ∷ ("allowed", texts (allowed_names current))
        ∷ [])

terminal_edit : String → Status → BridgeError
terminal_edit id current =
    error conflict
      (concat ("Cannot edit body in terminal state '" ∷ status_name current ∷ "'." ∷ []))
      (("draft_id", text id) ∷ ("current", text (status_name current)) ∷ [])

-- The checks between the SELECT and the UPDATE.
unfoldable pub check : String → DraftPatch → Status → Handler (Unit {0})
unfolding illegal_transition terminal_edit
check id p current = do
  raise_if (not (is (target p current) current) && not (allowed current (target p current)))
      (illegal_transition id current (target p current))
  raise_if (is_some p.body && (is current sent || is current rejected)) (terminal_edit id current)

-- The assignments of an approval.
stamp_approval : Call → DraftPatch → Draft → Draft
stamp_approval c p d = record d {
  dispatch_message_id = some c.dispatch.uuid;
  approved_at = some c.dispatch.now;
  approved_by = elim p.approved_by [
    | some name ↦ some name
    | none ↦ elim d.approved_by [ some name ↦ some name | none ↦ some c.actor ]
  ];
  last_send_error_code = none;
  last_send_error_message = none;
}

-- The row after `UPDATE drafts SET {sets}`.
unfoldable pub patched : Call → DraftPatch → Draft → Draft
unfolding stamp_approval
patched c p d =
    let new = target p d.status in
    let edited = record d {
      last_modified_at = c.modified;
      body = get_or p.body d.body;
      status = new;
      reject_reason =
          if is new rejected && is_some p.reject_reason then p.reject_reason else d.reject_reason;
    } in
    if approves new d.status then stamp_approval c p edited else edited

-- The job of an approved draft; the row is the updated one, whose body and dispatch id are the
-- handler's `new_body` and `new_dispatch_message_id`.
unfoldable pub dispatch_job : Call → Draft → Job
dispatch_job c d = record {
  message_id = get_or d.dispatch_message_id "None";
  sender = d.agent;
  to = d.to_handle;
  body = d.body;
  service = "iMessage";
  queued_at = c.queued_at;
  request_id = c.request_id;
  publisher = c.actor;
  draft_id = some d.draft_id;
}

abbrev pub queue_offline : BridgeError
queue_offline =
    error dependency_unavailable "Redis is not configured (outbound queue offline)."
      (("missing", text "redis") ∷ [])

enqueue_failed : String → String → BridgeError
enqueue_failed id fault =
    error dependency_unavailable "Failed to enqueue draft dispatch."
      (("draft_id", text id) ∷ ("error", text fault) ∷ [])

channel_unsupported : String → Channel → BridgeError
channel_unsupported id ch =
    error dependency_unavailable
      (concat ("Channel '" ∷ channel_name ch ∷ "' dispatch not implemented in v1." ∷ []))
      (("draft_id", text id) ∷ ("channel", text (channel_name ch)) ∷ [])

abbrev pub is_imessage : Channel → Bool
is_imessage imessage = true
is_imessage _ = false

push : Call → Draft → Redis → Handler (Unit {0})
unfolding dispatch_job enqueue_failed rpush_on
push c d r app = elim r.queue_fault [
  | some fault ↦ (err (enqueue_failed d.draft_id fault), app)
  | none ↦ rpush_on (queue_key d.agent) (job (dispatch_job c d)) app r
]

unfoldable pub enqueue_dispatch : Call → Draft → Handler (Unit {0})
unfolding push channel_unsupported
enqueue_dispatch c d app =
    if is_imessage d.channel
    then (elim app.redis_client [ none ↦ (err queue_offline, app) | some r ↦ push c d r app ])
    else (err (channel_unsupported d.draft_id d.channel), app)

-- `str(None)` would be the text "None"; an approved row has its columns set.
unfoldable pub publish_approved : Call → Draft → Handler (Unit {0})
unfolding publish_quietly
publish_approved c d =
    publish_quietly c.published (concat ("agent." ∷ d.agent ∷ ".draft.approved" ∷ []))
      (("draft_id", d.draft_id)
        ∷ ("approved_by", or_else (get_or d.approved_by "") c.actor)
        ∷ ("approved_at", get_or d.approved_at "None")
        ∷ [])
      c.actor

-- The part inside `with conn`: read, check, write. It returns the row before and after.
unfoldable pub transition : Call → String → DraftPatch → Table → Handler (Draft × Draft)
unfolding check patched
transition c id p t = do
  row ←
      or_raise (select id t)
        (error not_found (concat ("Draft not found: " ∷ id ∷ [])) (("draft_id", text id) ∷ []))
  check id p row.status
  λ app. (ok (row, patched c p row), record app { agent_conn = some (update id (patched c p) t) })

-- The side effects after the transaction.
side_effects : Call → DraftPatch → Draft → Draft → Handler Draft
unfolding enqueue_dispatch publish_approved
side_effects c p row d =
    if dispatches (target p row.status) row.status (target p row.status)
    then (do enqueue_dispatch c d; publish_approved c d; pure d)
    else pure d

abbrev no_change : String → BridgeError
no_change id =
    error bad_request "PATCH requires at least one of: status, body." (("draft_id", text id) ∷ [])

unfoldable pub patch_draft : Call → String → DraftPatch → Handler Draft
unfolding conn transition side_effects
patch_draft c id p = do
  t ← conn
  raise_if (not (is_some p.status) && not (is_some p.body)) (no_change id)
  rows ← transition c id p t
  side_effects c p rows.0 rows.1
