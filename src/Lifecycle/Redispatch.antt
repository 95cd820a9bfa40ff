-- ===== src/Lifecycle/Redispatch.antt =====
-- What a second approval and a late report do to a draft that was already dispatched.
use open_claw_bridge.Prelude.{
  String, ◌≡◌, refl, ap, ◌∙◌, ◌≢◌, inl, inr, true, false, none, some, [], ◌∷◌, ◌++◌, arith, eq_iff,
  eq_refl, Bool-cases,
}
use open_claw_bridge.Drafts.{Draft, imessage, approved}
use open_claw_bridge.Drafts.Table.{Table, select, update, select_dispatch, is_text, has_id}
use open_claw_bridge.Drafts.Rows.{Distinct}
use open_claw_bridge.Drafts.Patch.{DraftPatch, Call, patched, target, patch_draft, dispatch_job}
use open_claw_bridge.Drafts.Correlate.{Outcome, correlate_send_outcome}
use open_claw_bridge.Server.{App, Redis, job, queue_key}
use open_claw_bridge.Lifecycle.Tables.{accepts, patch_table}
use open_claw_bridge.Lifecycle.Delivery.{queue, added, queue-patch_draft, dispatch-patched}

-- No row but the one of `id` has the dispatch id.
abbrev pub OnlyAt : String → String → Table → Type 0
OnlyAt id mid [] = Unit
OnlyAt id mid (x ∷ t) =
    ((has_id id x ≡ false) → is_text x.dispatch_message_id mid ≡ false) × OnlyAt id mid t

forgotten :
    (id mid : String) (f : Draft → Draft) (t : Table)
    → ((x : Draft) → select id t ≡ some x → is_text (f x).dispatch_message_id mid ≡ false)
    → Distinct t
    → OnlyAt id mid t
    → select_dispatch mid (update id f t) ≡ none
forgotten id mid f [] h k o = refl
forgotten id mid f (x ∷ t) h k o = elim (Bool-cases (has_id id x)) [
  | inl here ↦ ground (
    arith,
    h x,
    k.0,
    eq_iff x.draft_id id,
    forgotten id mid f t (λ y e. absurd (ground (arith, k.0, eq_iff x.draft_id id))) k.1 o.1,
  )
  | inr later ↦ ground (arith, o.0, forgotten id mid f t (λ y e. h y (ground arith)) k.1 o.1)
]

added-approved :
    (c : Call) (p : DraftPatch) (d : Draft) (app : App) (r : Redis)
    → d.channel ≡ imessage
    → accepts p d ≡ true
    → target p d.status ≡ approved
    → app.redis_client ≡ some r
    → r.queue_fault ≡ none
    → added c p d app (queue_key d.agent) ≡ job (dispatch_job c (patched c p d)) ∷ []
added-approved c p d app r ch fine aim up works = ground (arith, eq_refl (queue_key d.agent))

-- An approved draft is dispatched again by every PATCH that leaves it `approved`: a second approval,
-- or an edit of its body alone. Its queue gets one more job, under a new dispatch id, and the id of the
-- job that is already under way is forgotten: the relay's report on that job settles no draft. On the
-- iMessage channel with Redis at work, if keys are distinct, no other row has the old dispatch id and the
-- new one differs from it.
pub approved_again :
    (c : Call) (id : String) (p : DraftPatch) (app : App) (t : Table) (d : Draft) (r : Redis)
    (now : String) (o : Outcome)
    → app.agent_conn ≡ some t
    → app.redis_client ≡ some r
    → r.queue_fault ≡ none
    → Distinct t
    → select id t ≡ some d
    → d.channel ≡ imessage
    → d.status ≡ approved
    → accepts p d ≡ true
    → target p d.status ≡ approved
    → d.dispatch_message_id ≡ some o.dispatch_message_id
    → OnlyAt id o.dispatch_message_id t
    → c.dispatch.uuid ≢ o.dispatch_message_id
    → (queue (patch_draft c id p app).1 (queue_key d.agent)
        ≡ queue app (queue_key d.agent) ++ job (dispatch_job c (patched c p d)) ∷ [])
      × (correlate_send_outcome now o (patch_table c id p t) ≡ (none, patch_table c id p t))
unfolding correlate_send_outcome
approved_again c id p app t d r now o conn up works keys found ch st fine aim old only fresh = (
  queue-patch_draft c id p app t d (queue_key d.agent) conn found
      ∙ ap (λ js. queue app (queue_key d.agent) ++ js)
          (added-approved c p d app r ch fine aim up works),
  ground (
    arith,
    forgotten id o.dispatch_message_id (patched c p) t
        (λ x e.
          ground
            (arith, dispatch-patched c p d fine aim, eq_iff c.dispatch.uuid o.dispatch_message_id))
        keys only,
  ),
)
