-- ===== src/Drafts/Sound.antt =====
-- What holds of every row of the table `drafts`, and that each write of the bridge keeps it.
use open_claw_bridge.Prelude.{String, ◌≡◌, ◌⊎◌, Bool, true, false, ◌||◌, none, arith, is_some}
use open_claw_bridge.Drafts.{
  Draft, Status, pending, approved, sent, send_failed, rejected, is, allowed,
}
use open_claw_bridge.Drafts.Create.{DraftCreateRequest, new_draft}
use open_claw_bridge.Drafts.Patch.{DraftPatch, Call, target, patched}
use open_claw_bridge.Drafts.Correlate.{Outcome, settled}
use open_claw_bridge.Server.{Stamp}

-- The statuses of a draft that was handed to the relay.
abbrev pub handed_over : Status → Bool
handed_over approved = true
handed_over sent = true
handed_over send_failed = true
handed_over _ = false

pub record IsSound (d : Draft) : Type 0 where
  pub untouched : d.status ≡ pending → (d.dispatch_message_id ≡ none) × (d.approved_at ≡ none)
  pub dispatched : handed_over d.status ≡ true → is_some d.dispatch_message_id ≡ true
  pub approved_on : is_some d.dispatch_message_id ≡ true → is_some d.approved_at ≡ true
  pub approver : is_some d.dispatch_message_id ≡ true → is_some d.approved_by ≡ true
  pub failed_why : d.status ≡ send_failed → is_some d.last_send_error_code ≡ true
  pub error_on :
      is_some d.last_send_error_code ≡ true → (d.status ≡ send_failed) ⊎ (d.status ≡ rejected)
  pub message_too : is_some d.last_send_error_message ≡ is_some d.last_send_error_code
  pub no_error : (d.status ≡ approved) ⊎ (d.status ≡ sent) → d.last_send_error_code ≡ none

pub new_draft-IsSound :
    (s : Stamp) (actor : String) (r : DraftCreateRequest) → IsSound (new_draft s actor r)
unfolding new_draft
new_draft-IsSound s actor r = ground arith

-- A change of status that PATCH lets through.
abbrev pub legal : Status → Status → Bool
legal current tgt = is tgt current || allowed current tgt

pub patched-IsSound :
    (c : Call) (p : DraftPatch) (d : Draft)
    → legal d.status (target p d.status) ≡ true
    → IsSound d
    → IsSound (patched c p d)
unfolding patched
patched-IsSound c p d l h = ground arith

pub settled-IsSound :
    (now : String) (o : Outcome) (d : Draft)
    → is_some d.dispatch_message_id ≡ true
    → IsSound d
    → IsSound (settled now o d)
unfolding settled
settled-IsSound now o d a h = ground arith
