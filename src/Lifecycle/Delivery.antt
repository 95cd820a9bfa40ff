-- ===== src/Lifecycle/Delivery.antt =====
-- From the operator's approval to the relay's confirmation.
use mathlib.Core.Path.{subst}
use open_claw_bridge.Prelude.{
  String, ◌≡◌, refl, sym, ap, ◌∙◌, inl, inr, true, not, ◌&&◌, Option, none, some, List, [], ◌∷◌,
  ◌++◌, append-nil, arith, str_eq, eq_iff, eq_refl, if◌then◌else◌, Bool-cases, get_or, is_some,
}
use open_claw_bridge.Drafts.{Draft, Job, imessage, Status, approved, sent, send_failed, is}
use open_claw_bridge.Drafts.Table.{Table, select, update, select_dispatch}
use open_claw_bridge.Drafts.Rows.{select-update, select-key}
use open_claw_bridge.Drafts.Patch.{
  DraftPatch, Call, patched, target, patch_draft, enqueue_dispatch, publish_approved, dispatch_job,
}
use open_claw_bridge.Drafts.Correlate.{
  Outcome, SendStatus, success, failed, settled, correlate_send_outcome,
}
use open_claw_bridge.Server.{App, Entry, job, queue_key, ◌>>◌, pure}
use open_claw_bridge.Lifecycle.Invariant.{patched-key, settled-key}
use open_claw_bridge.Lifecycle.Tables.{accepts}
use open_claw_bridge.Lifecycle.Transitions.{status_of}

-- The queues of a state; without Redis all are empty.
abbrev pub queue : App → String → List Entry
queue app k = elim app.redis_client [ none ↦ [] | some r ↦ r.queues k ]

-- The jobs that PATCH adds to the queue of an agent: one, for a draft of that agent on the iMessage
-- channel that ends up `approved`, if the list command works.
abbrev pub added : Call → DraftPatch → Draft → App → String → List Entry
added c p d app k = elim app.redis_client [
  | none ↦ []
  | some r ↦
      if accepts p d
        && is (target p d.status) approved
        && not (is_some r.queue_fault)
        && str_eq (queue_key d.agent) k
      then (elim d.channel [ imessage ↦ job (dispatch_job c (patched c p d)) ∷ [] | _ ↦ [] ])
      else []
]

-- The same of `_enqueue_dispatch` alone.
enqueued : Call → Draft → App → String → List Entry
enqueued c d app k = elim app.redis_client [
  | none ↦ []
  | some r ↦
      if not (is_some r.queue_fault) && str_eq (queue_key d.agent) k
      then (elim d.channel [ imessage ↦ job (dispatch_job c d) ∷ [] | _ ↦ [] ])
      else []
]

queue-enqueue_dispatch :
    (c : Call) (d : Draft) (app : App) (k : String)
    → queue (enqueue_dispatch c d app).1 k ≡ queue app k ++ enqueued c d app k
unfolding enqueue_dispatch enqueued
queue-enqueue_dispatch c d app k =
    ground (arith, append-nil (queue app k), eq_iff (queue_key d.agent) k)

queue-publish_approved :
    (c : Call) (d : Draft) (app : App) (k : String)
    → queue (publish_approved c d app).1 k ≡ queue app k
unfolding publish_approved
queue-publish_approved c d app k = ground arith

agent-patched :
    (c : Call) (p : DraftPatch) (d : Draft)
    → ((patched c p d).agent ≡ d.agent) × ((patched c p d).channel ≡ d.channel)
unfolding patched
agent-patched c p d = ground arith

-- An accepted PATCH writes the row, and then dispatches it if it is `approved` now.
pub patch_draft-accepted :
    (c : Call) (id : String) (p : DraftPatch) (app : App) (t : Table) (d : Draft)
    → app.agent_conn ≡ some t
    → select id t ≡ some d
    → accepts p d ≡ true
    → patch_draft c id p app
      ≡ (if is (target p d.status) approved
            then (enqueue_dispatch c (patched c p d)
                >> (publish_approved c (patched c p d) >> pure (patched c p d)))
            else pure (patched c p d))
          (record app { agent_conn = some (update id (patched c p) t) })
unfolding patch_draft
patch_draft-accepted c id p app t d e found fine = ground arith

queue-effects :
    (c : Call) (d : Draft) (app : App) (k : String)
    → queue ((enqueue_dispatch c d >> (publish_approved c d >> pure d)) app).1 k
      ≡ queue app k ++ enqueued c d app k
queue-effects c d app k = ground (
  arith,
  queue-enqueue_dispatch c d app k,
  queue-publish_approved c d (enqueue_dispatch c d app).1 k,
)

-- PATCH adds that job at the end of its queue and touches no other: exactly when the draft ends up
-- `approved`, be it by a first approval, a retry or a change of an approved draft.
pub queue-patch_draft :
    (c : Call) (id : String) (p : DraftPatch) (app : App) (t : Table) (d : Draft) (k : String)
    → app.agent_conn ≡ some t
    → select id t ≡ some d
    → queue (patch_draft c id p app).1 k ≡ queue app k ++ added c p d app k
unfolding patch_draft enqueued
queue-patch_draft c id p app t d k e found = elim (Bool-cases (accepts p d)) [
  | inl fine ↦ rw (patch_draft-accepted c id p app t d e found fine) (
      ground (
        arith,
        queue-effects c (patched c p d)
            (record app { agent_conn = some (update id (patched c p) t) }) k,
        agent-patched c p d,
        append-nil (queue app k),
      ))
  | inr refused ↦ ground (arith, append-nil (queue app k))
]

-- The relay's report on a job, as POST /v1/imessage/sent hands it to the correlation.
abbrev pub report : Job → SendStatus → Option String → Option String → Option String → Outcome
report j st at code message = record {
  dispatch_message_id = j.message_id;
  status = st;
  sent_at = at;
  error_code = code;
  error_message = message;
}

abbrev pub settled_status : SendStatus → Status
settled_status success = sent
settled_status failed = send_failed

select_dispatch-update :
    (id mid : String) (f : Draft → Draft) (t : Table) (d : Draft)
    → (f d).dispatch_message_id ≡ some mid
    → select_dispatch mid t ≡ none
    → select id t ≡ some d
    → select_dispatch mid (update id f t) ≡ some (f d)
select_dispatch-update id mid f [] d m free found = cc
select_dispatch-update id mid f (x ∷ t) d m free found =
    ground (arith, eq_refl mid, select_dispatch-update id mid f t d m)

pub dispatch-patched :
    (c : Call) (p : DraftPatch) (d : Draft)
    → accepts p d ≡ true
    → target p d.status ≡ approved
    → (patched c p d).dispatch_message_id ≡ some c.dispatch.uuid
unfolding patched
dispatch-patched c p d fine aim = ground arith

pub status-settled :
    (now : String) (o : Outcome) (d : Draft) → (settled now o d).status ≡ settled_status o.status
unfolding settled
status-settled now o d = ground arith

id-dispatch_job :
    (c : Call) (d : Draft) → (dispatch_job c d).message_id ≡ get_or d.dispatch_message_id "None"
unfolding dispatch_job
id-dispatch_job c d = refl

pub correlate-found :
    (now : String) (o : Outcome) (t : Table) (d : Draft) (mid : String)
    → o.dispatch_message_id ≡ mid
    → select_dispatch mid t ≡ some d
    → correlate_send_outcome now o t ≡ (some d.draft_id, update d.draft_id (settled now o) t)
unfolding correlate_send_outcome
correlate-found now o t d mid same found = ground arith

status-update_twice :
    (id j : String) (f g : Draft → Draft) (t : Table) (d : Draft) (s : Status)
    → ((x : Draft) → (f x).draft_id ≡ x.draft_id)
    → ((x : Draft) → (g x).draft_id ≡ x.draft_id)
    → (g (f d)).status ≡ s
    → select id t ≡ some d
    → status_of j (update id g (update id f t)) ≡ (if str_eq id j then some s else status_of j t)
status-update_twice id j f g t d s kf kg e found =
    ground (arith, select-update id j g (update id f t) kg, select-update id j f t kf, eq_iff id j)

-- Approval and confirmation meet: after a PATCH that leaves a draft `approved` under a dispatch id
-- that no row had, the relay's report on the queued job settles exactly that draft, `sent` on success
-- and `send_failed` on failure.
pub report_settles :
    (c : Call) (id : String) (p : DraftPatch) (t : Table) (d : Draft) (now : String)
    (st : SendStatus) (at code message : Option String)
    → select id t ≡ some d
    → accepts p d ≡ true
    → target p d.status ≡ approved
    → select_dispatch c.dispatch.uuid t ≡ none
    → let (found, t') =
        correlate_send_outcome now
          (report (dispatch_job c (patched c p d)) st at code message)
          (update id (patched c p) t) in
      (found ≡ some id)
      × ((j : String)
          → status_of j t' ≡ (if str_eq id j then some (settled_status st) else status_of j t))
report_settles c id p t d now st at code message found fine aim free = rw found' (
  ap some key,
  λ j.
      subst
        (λ i.
          status_of j (update i (settled now o) t₁)
          ≡ (if str_eq id j then some (settled_status st) else status_of j t))
        (sym key)
        (status-update_twice id j (patched c p) (settled now o) t d (settled_status st)
          (patched-key c p) (settled-key now o) (status-settled now o (patched c p d)) found),
)
  where
    o : Outcome
    o = report (dispatch_job c (patched c p d)) st at code message

    t₁ : Table
    t₁ = update id (patched c p) t

    key : (patched c p d).draft_id ≡ id
    key = patched-key c p d ∙ select-key id t found

    hit : select_dispatch c.dispatch.uuid t₁ ≡ some (patched c p d)
    hit =
        select_dispatch-update id c.dispatch.uuid (patched c p) t d
          (dispatch-patched c p d fine aim) free found

    found' :
        correlate_send_outcome now o t₁
        ≡ (some (patched c p d).draft_id, update (patched c p d).draft_id (settled now o) t₁)
    found' =
        correlate-found now o t₁ (patched c p d) c.dispatch.uuid
          (ground (arith, id-dispatch_job c (patched c p d), dispatch-patched c p d fine aim)) hit
