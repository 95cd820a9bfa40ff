-- ===== src/Drafts/Correlate.antt =====
-- `correlate_send_outcome` of bridge/src/bridge/routes/agent.py: the relay's confirmation of a
-- dispatch is written to the draft that it came from.
use open_claw_bridge.Prelude.{String, Option, none, some, or_else, get_or}
use open_claw_bridge.Drafts.{Draft, sent, send_failed}
use open_claw_bridge.Drafts.Table.{Table, select_dispatch, update}

-- `SendStatus` of routes/imessage.py.
pub data SendStatus : Type 0 where
  success failed : SendStatus

pub record Outcome : Type 0 where
  pub dispatch_message_id : String
  pub status : SendStatus
  pub sent_at : Option String
  pub error_code : Option String
  pub error_message : Option String

-- `x or default` on an optional text.
abbrev pub or_text : Option String → String → String
or_text o d = or_else (get_or o "") d

-- The row after the UPDATE of either branch.
unfoldable pub settled : String → Outcome → Draft → Draft
settled now o d = elim o.status [
  | success ↦ record d {
    status = sent;
    sent_at = some (or_text o.sent_at now);
    last_modified_at = now;
    last_send_error_code = none;
    last_send_error_message = none;
  }
  | failed ↦ record d {
    status = send_failed;
    last_send_error_code = some (or_text o.error_code "unknown");
    last_send_error_message = some (or_text o.error_message "");
    last_modified_at = now;
  }
]

-- The id of the draft that was updated, and the table.
unfoldable pub correlate_send_outcome : String → Outcome → Table → Option String × Table
unfolding settled
correlate_send_outcome now o t = elim (select_dispatch o.dispatch_message_id t) [
  | none ↦ (none, t)
  | some d ↦ (some d.draft_id, update d.draft_id (settled now o) t)
]
