-- ===== src/Drafts/Wire.antt =====
-- The JSON of responses: a row as bridge/src/bridge/routes/agent.py renders it, and the envelope of
-- bridge/src/bridge/errors.py.
use open_claw_bridge.Prelude.{ℕ, String, Bool, Option, none, some, List, [], ◌∷◌, concat}
use open_claw_bridge.Errors
use open_claw_bridge.Errors.{
  Result, ok, err, BridgeError, Envelope, Detail, Details, text, number, flag, texts, null,
  bridge_error_handler,
}
use open_claw_bridge.Server.{Handler, or_raise, ◌>>=◌}
use open_claw_bridge.Drafts.{Draft, Status, pending, approved, rejected, sent, send_failed}
use open_claw_bridge.Drafts.Table.{select}
use open_claw_bridge.Drafts.Create.{channel_name, conn}

mutual
  pub data Json : Type 0 where
    string : String → Json
    integer : ℕ → Json
    boolean : Bool → Json
    nothing : Json
    array : Items → Json
    object : Fields → Json

  pub data Items : Type 0 where
    end : Items
    item : Json → Items → Items

  pub data Fields : Type 0 where
    done : Fields
    field : String → Json → Fields → Fields

unfoldable pub status_name : Status → String
status_name pending = "pending"
status_name approved = "approved"
status_name rejected = "rejected"
status_name sent = "sent"
status_name send_failed = "send_failed"

abbrev pub nullable : Option String → Json
nullable none = nothing
nullable (some s) = string s

-- `_row_to_out`, as JSON.
unfoldable pub row_to_out : Draft → Json
unfolding status_name
row_to_out d = object (
    field "draft_id" (string d.draft_id) (
      field "agent" (string d.agent) (
        field "channel" (string (channel_name d.channel)) (
          field "to_handle" (string d.to_handle) (
            field "body" (string d.body) (
              field "status" (string (status_name d.status)) (
                field "created_at" (string d.created_at) (
                  field "last_modified_at" (string d.last_modified_at) (
                    field "in_reply_to_event_id" (nullable d.in_reply_to_event_id) (
                      field "preview" (nullable d.preview) (
                        field "approved_at" (nullable d.approved_at) (
                          field "approved_by" (nullable d.approved_by) (
                            field "reject_reason" (nullable d.reject_reason) (
                              field "dispatch_message_id" (nullable d.dispatch_message_id) (
                                field "sent_at" (nullable d.sent_at) (
                                  field "last_send_error_code" (nullable d.last_send_error_code) (
                                    field "last_send_error_message"
                                      (nullable d.last_send_error_message)
                                      (field "publisher" (string d.publisher) done))))))))))))))))))

items : List String → Items
items [] = end
items (s ∷ ss) = item (string s) (items ss)

unfoldable pub detail_json : Detail → Json
unfolding items
detail_json (text s) = string s
detail_json (number n) = integer n
detail_json (flag b) = boolean b
detail_json (texts ss) = array (items ss)
detail_json null = nothing

unfoldable pub details_json : Details → Fields
unfolding detail_json
details_json [] = done
details_json ((k, v) ∷ ds) = field k (detail_json v) (details_json ds)

-- `envelope`, as JSON.
unfoldable pub envelope_json : Envelope → Json
unfolding details_json
envelope_json e = object (
    field "error"
      (object (
        field "code" (string e.code) (
          field "message" (string e.message) (
            field "details" (object (details_json e.details))
              (field "request_id" (string e.request_id) done)))))
      done)

-- A response as the client gets it.
pub record HttpResponse : Type 0 where
  pub status_code : ℕ
  pub content : Json

unfoldable pub rows : List Draft → Items
unfolding row_to_out
rows [] = end
rows (d ∷ ds) = item (row_to_out d) (rows ds)

-- `DraftListResponse`, as JSON.
unfoldable pub list_json : List Draft → Json
unfolding rows
list_json ds = object (field "drafts" (array (rows ds)) done)

-- What a route's result becomes: its value, or the envelope of its exception.
unfoldable pub respond : {A : Type 0} → ℕ → Option String → (A → Json) → Result A → HttpResponse
unfolding envelope_json bridge_error_handler
respond status rid render (ok a) = record { status_code = status; content = render a }
respond status rid render (err e) =
    let r = bridge_error_handler rid e in
    record { status_code = r.status; content = envelope_json r.content }

-- `get_draft` of the routes.
unfoldable pub get_draft : (draft_id : String) → Handler Draft
unfolding conn
get_draft draft_id = do
  t ← conn
  or_raise (select draft_id t) (
      Errors.error Errors.not_found (concat ("Draft not found: " ∷ draft_id ∷ []))
        (("draft_id", text draft_id) ∷ []))
