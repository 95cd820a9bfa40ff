-- ===== src/Drafts.antt =====
-- bridge/src/bridge/routes/agent.py with the schema of bridge/src/bridge/migrations: the drafts
-- table and the rows of the outbound queue. The handlers stand in the child modules.
pub mod Table
pub mod Create
pub mod Patch
pub mod Correlate
pub mod Sound
pub mod Rows
pub mod Wire
use open_claw_bridge.Prelude.{
  ℕ, String, Bool, true, false, Option, none, some, List, [], ◌∷◌, ◌++◌, if◌then◌else◌, str_eq,
}

pub data Status : Type 0 where
  pending approved rejected sent send_failed : Status

pub data Channel : Type 0 where
  imessage email : Channel

-- A row of the table `drafts`; a column that may be NULL is an `Option`.
pub record Draft : Type 0 where
  pub draft_id : String
  pub agent : String
  pub channel : Channel
  pub to_handle : String
  pub body : String
  pub status : Status
  pub created_at : String
  pub last_modified_at : String
  pub in_reply_to_event_id : Option String
  pub preview : Option String
  pub approved_at : Option String
  pub approved_by : Option String
  pub reject_reason : Option String
  pub dispatch_message_id : Option String
  pub sent_at : Option String
  pub last_send_error_code : Option String
  pub last_send_error_message : Option String
  pub publisher : String

abbrev pub is : Status → Status → Bool
is pending pending = true
is approved approved = true
is rejected rejected = true
is sent sent = true
is send_failed send_failed = true
is _ _ = false

-- `_ALLOWED_TRANSITIONS`: whether the second status is in the set of the first.
abbrev pub allowed : Status → Status → Bool
allowed pending approved = true
allowed pending rejected = true
allowed approved approved = true
allowed approved rejected = true
allowed send_failed approved = true
allowed send_failed rejected = true
allowed _ _ = false

-- A job of the outbound queue, as the relay reads it back.
pub record Job : Type 0 where
  pub message_id : String
  pub sender : String
  pub to : String
  pub body : String
  pub service : String
  pub queued_at : String
  pub request_id : String
  pub publisher : String
  pub draft_id : Option String
