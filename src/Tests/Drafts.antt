-- ===== src/Tests/Drafts.antt =====
-- Drafts, from their creation to the relay's report, on concrete rows and requests.
use open_claw_bridge.Prelude.{
  String, ◌≡◌, refl, ◌⊎◌, Option, none, some, List, [], ◌∷◌, ◌++◌, arith, str_eq, eq_iff,
  if◌then◌else◌,
}
use open_claw_bridge.Errors.{conflict}
use open_claw_bridge.Drafts.{Draft, Status, pending, approved, sent, imessage}
use open_claw_bridge.Drafts.Table.{Table, select}
use open_claw_bridge.Drafts.Patch.{DraftPatch, Call, patched, patch_draft, dispatch_job}
use open_claw_bridge.Drafts.Table.{update}
use open_claw_bridge.Drafts.Correlate.{Outcome, success, failed, correlate_send_outcome}
use open_claw_bridge.Server.{App, Redis, Stamp, job, queue_key}
use open_claw_bridge.Lifecycle.{Request, create, patch, outbox, confirm, serve_all}
use open_claw_bridge.Lifecycle.Invariant.{AppIsValid, serve_all-IsValid}
use open_claw_bridge.Lifecycle.Tables.{patch_table}
use open_claw_bridge.Lifecycle.Transitions.{
  OperatorMove, status_of, patch_draft_moves, raised, patch_draft_refused,
}
use open_claw_bridge.Lifecycle.Delivery.{
  queue, queue-patch_draft, report, settled_status, report_settles,
}
use open_claw_bridge.Lifecycle.Redispatch.{approved_again}

abbrev first_id : String
first_id = "d1"

abbrev second_id : String
second_id = "d2"

abbrev stamp : String → Stamp
stamp u = record { uuid = u; now = "2026-05-01T10:00:00+00:00" }

abbrev row : String → Status → Option String → Draft
row id st dispatch = record {
  draft_id = id;
  agent = "brain";
  channel = imessage;
  to_handle = "+15550100";
  body = "On my way.";
  status = st;
  created_at = "t0";
  last_modified_at = "t0";
  in_reply_to_event_id = none;
  preview = some "On my way.";
  approved_at = dispatch;
  approved_by = dispatch;
  reject_reason = none;
  dispatch_message_id = dispatch;
  sent_at = none;
  last_send_error_code = none;
  last_send_error_message = none;
  publisher = "brain.agent";
}

abbrev waiting : Table
waiting = row "d1" pending none ∷ row "d2" sent (some "m9") ∷ []

abbrev under_way : Table
under_way = row "d1" approved (some "m0") ∷ row "d2" sent (some "m9") ∷ []

abbrev redis_up : Redis
redis_up = record { queues = λ k. []; published = []; queue_fault = none; pubsub_fault = none }

abbrev app_of : Table → App
app_of t = record { agent_conn = some t; redis_client = some redis_up }

abbrev call : Call
call = record {
  actor = "cli.operator";
  request_id = "r1";
  modified = "t1";
  dispatch = stamp "m1";
  queued_at = "t1";
  published = stamp "e1";
}

abbrev approve : DraftPatch
approve = record { status = some approved; body = none; reject_reason = none; approved_by = none }

abbrev reword : DraftPatch
reword = record { status = none; body = some "Late."; reject_reason = none; approved_by = none }

abbrev late_report : Outcome
late_report = record {
  dispatch_message_id = "m0";
  status = success;
  sent_at = none;
  error_code = none;
  error_message = none;
}

abbrev requests : List Request
requests =
    create (stamp "d1") (stamp "e0") "brain.agent" (record {
      agent = "brain";
      channel = imessage;
      to_handle = "+15550100";
      body = "On my way.";
      in_reply_to_event_id = none;
      preview = none;
    })
    ∷ patch call "d1" approve
    ∷ outbox "brain"
    ∷ confirm (stamp "e2") "t2" "t2" "relay" (record {
      agent = "brain";
      message_id = "m1";
      to = "+15550100";
      body = "On my way.";
      status = failed;
      sent_at = none;
      error_code = some "timeout";
      error_message = none;
    })
    ∷ []

serve_all-IsValid_example : AppIsValid (serve_all requests (app_of []))
serve_all-IsValid_example = serve_all-IsValid requests (app_of []) (record { rows = tt; keys = tt })

patch_draft_moves_example :
    OperatorMove
      (status_of second_id waiting)
      (status_of second_id (update "d1" (patched call approve) waiting))
    × ((first_id ≡ second_id)
        ⊎ (select second_id (update "d1" (patched call approve) waiting)
            ≡ select second_id waiting))
unfolding patch_draft
patch_draft_moves_example =
    patch_draft_moves call "d1" approve (app_of waiting) waiting
      (update "d1" (patched call approve) waiting) refl refl second_id

patch_draft_refused_example :
    (raised (patch_draft call "d2" reword (app_of waiting)).0 ≡ some conflict)
    × ((patch_draft call "d2" reword (app_of waiting)).1 ≡ app_of waiting)
patch_draft_refused_example =
    patch_draft_refused call "d2" reword (app_of waiting) waiting conflict refl refl

queue-patch_draft_example :
    queue (patch_draft call "d1" approve (app_of waiting)).1 "imessage:outbound:brain"
    ≡ job (dispatch_job call (patched call approve (row "d1" pending none))) ∷ []
queue-patch_draft_example =
    queue-patch_draft call "d1" approve (app_of waiting) waiting (row "d1" pending none)
      "imessage:outbound:brain" refl refl

report_settles_example :
    (let (found, t') =
        correlate_send_outcome "t2"
          (report
            (dispatch_job call (patched call approve (row "d1" pending none)))
            failed
            none
            (some "timeout")
            none)
          (update "d1" (patched call approve) waiting) in
      (found ≡ some "d1")
      × ((j : String)
          → status_of j t'
            ≡ (if str_eq "d1" j then some (settled_status failed) else status_of j waiting)))
report_settles_example =
    report_settles call "d1" approve waiting (row "d1" pending none) "t2" failed none
      (some "timeout") none refl refl refl refl

approved_again_example :
    (queue (patch_draft call "d1" reword (app_of under_way)).1 (queue_key "brain")
      ≡ [] ++ job (dispatch_job call (patched call reword (row "d1" approved (some "m0")))) ∷ [])
    × (correlate_send_outcome "t2" late_report (patch_table call "d1" reword under_way)
        ≡ (none, patch_table call "d1" reword under_way))
approved_again_example =
    approved_again call "d1" reword (app_of under_way) under_way (row "d1" approved (some "m0"))
      redis_up "t2" late_report refl refl refl (refl, (refl, tt)) refl refl refl refl refl refl
      (ground arith, (ground arith, tt)) (ground (arith, eq_iff "m1" "m0"))
