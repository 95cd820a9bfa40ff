-- ===== src/Client/Agent/Wire.antt =====
-- The bridge's responses as the agent's helpers read them.
use open_claw_bridge.Prelude.{
  String, ◌≡◌, refl, ap, ◌∙◌, false, Option, none, some, List, [], ◌∷◌, map, arith, ◌==◌,
}
use open_claw_bridge.Errors
use open_claw_bridge.Errors.{Result, ok, err, BridgeError, code, http_status, bridge_error_handler}
use open_claw_bridge.Drafts
use open_claw_bridge.Drafts.Create.{channel_name}
use open_claw_bridge.Drafts.Wire.{
  rows, list_json, respond, Json, Items, item, status_name, nullable, row_to_out, envelope_json,
}
use open_claw_bridge.Client.Agent.{
  AgentError, agent_error, Answer, value, fails, ◌>>=◌, lookup, Draft, from_response, str_or_none,
  draft_from_dict, as_draft, read_draft, as_drafts, read_drafts,
}

-- A row with its status and channel by their names.
unfoldable pub as_client : Drafts.Draft → Draft
unfolding status_name
as_client d = record {
  draft_id = d.draft_id;
  agent = d.agent;
  channel = channel_name d.channel;
  to_handle = d.to_handle;
  body = d.body;
  status = status_name d.status;
  created_at = d.created_at;
  last_modified_at = d.last_modified_at;
  publisher = d.publisher;
  in_reply_to_event_id = d.in_reply_to_event_id;
  preview = d.preview;
  approved_at = d.approved_at;
  approved_by = d.approved_by;
  reject_reason = d.reject_reason;
  dispatch_message_id = d.dispatch_message_id;
  sent_at = d.sent_at;
  last_send_error_code = d.last_send_error_code;
  last_send_error_message = d.last_send_error_message;
}

-- The error that the bridge raised.
abbrev pub as_raised : BridgeError → AgentError
as_raised e = record { status = http_status e.kind; code = code e.kind; message = e.message }

module _ (render : Json → String) where
  -- What a helper should make of a route's result.
  abbrev pub told : {A B : Type 0} → (A → B) → Result A → Answer B
  told f (ok a) = value (f a)
  told f (err e) = fails (agent_error (as_raised e))

  str_or_none-nullable : (o : Option String) → str_or_none render (some (nullable o)) ≡ o
  str_or_none-nullable none = refl
  str_or_none-nullable (some s) = refl

  as_draft-row_to_out : (d : Drafts.Draft) → as_draft render (row_to_out d) ≡ value (as_client d)
  unfolding row_to_out draft_from_dict lookup as_client
  as_draft-row_to_out d = simp str_or_none-nullable

  error_status : (k : Errors.ErrorKind) → (http_status k == 200) ≡ false
  unfolding http_status
  error_status k = ground arith

  from_response-envelope :
      (e : BridgeError) (rid : Option String)
      → from_response render
          (http_status e.kind)
          (some (envelope_json (bridge_error_handler rid e).content))
        ≡ agent_error (as_raised e)
  unfolding from_response envelope_json bridge_error_handler lookup
  from_response-envelope e rid = refl

  as_drafts_item :
      {a : Draft} {as' : List Draft} (j : Json) (js : Items)
      → as_draft render j ≡ value a
      → as_drafts render js ≡ value as'
      → as_drafts render (item j js) ≡ value (a ∷ as')
  unfolding as_drafts
  as_drafts_item {a} j js e f =
      ap (λ (x : Answer Draft). x >>= λ d. as_drafts render js >>= λ ds. value (d ∷ ds)) e
      ∙ ap (λ (x : Answer (List Draft)). x >>= λ ds. value (a ∷ ds)) f

  as_drafts-rows : (ds : List Drafts.Draft) → as_drafts render (rows ds) ≡ value (map as_client ds)
  unfolding rows as_drafts
  as_drafts-rows [] = refl
  as_drafts-rows (d ∷ ds) =
      as_drafts_item (row_to_out d) (rows ds) (as_draft-row_to_out d) (as_drafts-rows ds)

  read_draft-respond :
      (r : Result Drafts.Draft) (rid : Option String)
      → read_draft render (respond 200 rid row_to_out r) ≡ told as_client r
  unfolding read_draft respond
  read_draft-respond (ok d) rid = as_draft-row_to_out d
  read_draft-respond (err e) rid =
      rw (error_status e.kind) (ap fails (from_response-envelope e rid))

  read_drafts-respond :
      (r : Result (List Drafts.Draft)) (rid : Option String)
      → read_drafts render (respond 200 rid list_json r) ≡ told (map as_client) r
  unfolding read_drafts respond list_json
  read_drafts-respond (ok ds) rid = unfold lookup in as_drafts-rows ds
  read_drafts-respond (err e) rid =
      rw (error_status e.kind) (ap fails (from_response-envelope e rid))

  -- What the bridge answers reaches the agent as it was meant, through the JSON of the row or of the
  -- envelope, whatever a route ends with and whatever the request id is. For a route of one draft, and for the list: if
  -- it returns drafts, the helper returns them with the values of all their columns; if it raises, the
  -- helper raises `AgentError` with the status, the code and the message of that error.
  pub read_draft_lem :
      (r : Result Drafts.Draft) (rs : Result (List Drafts.Draft)) (rid : Option String)
      → (read_draft render (respond 200 rid row_to_out r) ≡ told as_client r)
        × (read_drafts render (respond 200 rid list_json rs) ≡ told (map as_client) rs)
  read_draft_lem r rs rid = (read_draft-respond r rid, read_drafts-respond rs rid)
