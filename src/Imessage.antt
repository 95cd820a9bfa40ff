-- ===== src/Imessage.antt =====
-- bridge/src/bridge/routes/imessage.py: send, inbound, outbox and sent. The request models are
-- taken after pydantic has accepted them, and the JSON text of a job is read back as it was written.
use open_claw_bridge.Prelude.{String, Option, none, some, List, [], ◌∷◌, concat}
use open_claw_bridge.Errors.{ok, err, text, error, dependency_unavailable, BridgeError, Details}
use open_claw_bridge.Drafts.{Job}
use open_claw_bridge.Drafts.Correlate.{
  SendStatus, success, failed, Outcome, or_text, correlate_send_outcome,
}
use open_claw_bridge.Server.{
  Handler, Stamp, Redis, Entry, job, corrupt, publish_on, rpush_on, queue_key, set_queue, ◌>>=◌,
  ◌>>◌, pure,
}

-- `IMessageSendRequest`, with the caller and what the clock and `uuid4` give.
pub record SendRequest : Type 0 where
  pub sender : String
  pub to : String
  pub body : String
  pub service : String
  pub actor : String
  pub request_id : String

pub record InboundRequest : Type 0 where
  pub agent : String
  pub sender : String
  pub body : String
  pub received_at : String
  pub chat_guid : String

pub record SentRequest : Type 0 where
  pub agent : String
  pub message_id : String
  pub to : String
  pub body : String
  pub status : SendStatus
  pub sent_at : Option String
  pub error_code : Option String
  pub error_message : Option String

-- `_redis`
abbrev redis_missing : BridgeError
redis_missing =
    error dependency_unavailable "Redis is not configured (event bus + outbound queue offline)."
      (("missing", text "redis") ∷ [])

-- `_publisher`
abbrev publisher_missing : BridgeError
publisher_missing =
    error dependency_unavailable "Event publisher unavailable (Redis offline)."
      (("missing", text "redis") ∷ [])

redis : Handler Redis
redis app = elim app.redis_client [ none ↦ (err redis_missing, app) | some r ↦ (ok r, app) ]

publish : Stamp → String → Details → String → Handler Stamp
unfolding publish_on
publish s topic payload actor app = elim app.redis_client [
  | none ↦ (err publisher_missing, app)
  | some r ↦ publish_on s topic payload actor app r
]

pub send_job : Stamp → SendRequest → Job
send_job s r = record {
  message_id = s.uuid;
  sender = r.sender;
  to = r.to;
  body = r.body;
  service = r.service;
  queued_at = s.now;
  request_id = r.request_id;
  publisher = r.actor;
  draft_id = none;
}

enqueue : Stamp → SendRequest → Redis → Handler (Unit {0})
unfolding send_job rpush_on
enqueue s r c app = elim c.queue_fault [
  | some fault ↦ (
    err (
        error dependency_unavailable "Failed to enqueue iMessage job."
          (("agent", text r.sender) ∷ ("error", text fault) ∷ [])),
    app,
  )
  | none ↦ rpush_on (queue_key r.sender) (job (send_job s r)) app c
]

-- POST /v1/imessage/send; the reply is the message id with the time of queueing.
unfoldable pub imessage_send : Stamp → SendRequest → Handler Stamp
unfolding redis enqueue
imessage_send s r = do c ← redis; enqueue s r c; pure s

-- POST /v1/imessage/inbound; the reply carries the event id.
unfoldable pub imessage_inbound : Stamp → String → InboundRequest → Handler String
unfolding publish
imessage_inbound s actor r = do
  e ←
      publish s (concat ("imessage.received." ∷ r.agent ∷ []))
        (("from", text r.sender)
          ∷ ("body", text r.body)
          ∷ ("received_at", text r.received_at)
          ∷ ("chat_guid", text r.chat_guid)
          ∷ [])
        actor
  pure e.uuid

-- What BLPOP leaves and returns: the first entry, if there is one. An entry that does not decode
-- is dropped, and the answer is 204 as for an empty queue.
unfoldable pub pop : String → Redis → List Entry → Handler (Option Job)
pop k c [] app = (ok none, app)
pop k c (e ∷ rest) app =
    let app' = record app {
      redis_client = some (record c { queues = set_queue k rest c.queues });
    } in
    elim e [ job j ↦ (ok (some j), app') | corrupt s ↦ (ok none, app') ]

blpop : String → Redis → Handler (Option Job)
unfolding pop
blpop agent c app = elim c.queue_fault [
  | some fault ↦ (
    err (
        error dependency_unavailable "Failed to dequeue iMessage job."
          (("agent", text agent) ∷ ("error", text fault) ∷ [])),
    app,
  )
  | none ↦ pop (queue_key agent) c (c.queues (queue_key agent)) app
]

-- GET /v1/imessage/outbox; `none` is the 204.
unfoldable pub imessage_outbox : String → Handler (Option Job)
unfolding redis blpop
imessage_outbox agent = do c ← redis; blpop agent c

-- The topic and the payload of POST /v1/imessage/sent.
abbrev sent_topic : SentRequest → String
sent_topic r = elim r.status [
  | success ↦ concat ("imessage.sent." ∷ r.agent ∷ [])
  | failed ↦ concat ("imessage.send.failed." ∷ r.agent ∷ [])
]

abbrev sent_payload : String → SentRequest → Details
sent_payload sent_at r = elim r.status [
  | success ↦
      ("message_id", text r.message_id)
      ∷ ("to", text r.to)
      ∷ ("body", text r.body)
      ∷ ("sent_at", text sent_at)
      ∷ []
  | failed ↦
      ("message_id", text r.message_id)
      ∷ ("to", text r.to)
      ∷ ("body", text r.body)
      ∷ ("error_code", text (or_text r.error_code "unknown"))
      ∷ ("error_message", text (or_text r.error_message ""))
      ∷ ("attempted_at", text sent_at)
      ∷ []
]

abbrev pub outcome_of : String → SentRequest → Outcome
outcome_of sent_at r = record {
  dispatch_message_id = r.message_id;
  status = r.status;
  sent_at = elim r.status [ success ↦ some sent_at | failed ↦ none ];
  error_code = r.error_code;
  error_message = r.error_message;
}

-- The correlation, where agent.db is there. `now` is its own reading of the clock.
correlate : String → Outcome → Handler (Unit {0})
unfolding correlate_send_outcome
correlate now o app = elim app.agent_conn [
  | none ↦ (ok tt, app)
  | some t ↦ (ok tt, record app { agent_conn = some (correlate_send_outcome now o t).1 })
]

-- POST /v1/imessage/sent; `clock` is the reading that replaces a missing `sent_at`, `now` the one
-- of the correlation. The reply carries the event id.
unfoldable pub imessage_sent : Stamp → String → String → String → SentRequest → Handler String
unfolding publish correlate
imessage_sent s clock now actor r = do
  let sent_at = or_text r.sent_at clock
  e ← publish s (sent_topic r) (sent_payload sent_at r) actor
  correlate now (outcome_of sent_at r)
  pure e.uuid
