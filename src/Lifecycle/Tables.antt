-- ===== src/Lifecycle/Tables.antt =====
-- What each route leaves in agent.db, said of the table alone.
use mathlib.Core.Option
use open_claw_bridge.Prelude.{
  String, ◌≡◌, ◌⊎◌, Bool, not, ◌&&◌, ◌||◌, none, some, List, arith, if◌then◌else◌, get_or, is_some,
}
use open_claw_bridge.Drafts.{Draft, sent, rejected, is}
use open_claw_bridge.Drafts.Table.{Table, select, update, insert}
use open_claw_bridge.Drafts.Sound.{legal}
use open_claw_bridge.Drafts.Create.{DraftCreateRequest, new_draft, create_draft, publish_quietly}
use open_claw_bridge.Drafts.Patch.{DraftPatch, Call, patch_draft, patched, target, enqueue_dispatch}
use open_claw_bridge.Drafts.Correlate.{correlate_send_outcome, or_text}
use open_claw_bridge.Imessage.{SentRequest, imessage_sent, outcome_of}
use open_claw_bridge.Server.{App, Stamp}

-- The statement that PATCH runs, if it gets that far.
abbrev pub accepts : DraftPatch → Draft → Bool
accepts p d =
    (is_some p.status || is_some p.body)
    && legal d.status (target p d.status)
    && not (is_some p.body && (is d.status sent || is d.status rejected))

abbrev pub patch_table : Call → String → DraftPatch → Table → Table
patch_table c id p t = elim (select id t) [
  | none ↦ t
  | some d ↦ if accepts p d then update id (patched c p) t else t
]

pub agent_conn-publish_quietly :
    (s : Stamp) (topic : String) (payload : List (String × String)) (actor : String) (app : App)
    → (publish_quietly s topic payload actor app).1.agent_conn ≡ app.agent_conn
unfolding publish_quietly
agent_conn-publish_quietly s topic payload actor app = ground arith

pub agent_conn-enqueue_dispatch :
    (c : Call) (d : Draft) (app : App) → (enqueue_dispatch c d app).1.agent_conn ≡ app.agent_conn
unfolding enqueue_dispatch
agent_conn-enqueue_dispatch c d app = ground arith

pub agent_conn-create_draft :
    (s p : Stamp) (actor : String) (r : DraftCreateRequest) (app : App)
    → (create_draft s p actor r app).1.agent_conn
      ≡ Option.map (λ t. get_or (insert (new_draft s actor r) t) t) app.agent_conn
unfolding create_draft
agent_conn-create_draft s p actor r app = ground arith

pub agent_conn-patch_draft :
    (c : Call) (id : String) (p : DraftPatch) (app : App)
    → (patch_draft c id p app).1.agent_conn ≡ Option.map (patch_table c id p) app.agent_conn
unfolding patch_draft
agent_conn-patch_draft c id p app = ground arith

pub agent_conn-imessage_sent :
    (s : Stamp) (clock now actor : String) (r : SentRequest) (app : App)
    → let t' = (imessage_sent s clock now actor r app).1.agent_conn in
      (t' ≡ app.agent_conn)
      ⊎ (t'
          ≡ Option.map
              (λ t. (correlate_send_outcome now (outcome_of (or_text r.sent_at clock) r) t).1)
              app.agent_conn)
unfolding imessage_sent
agent_conn-imessage_sent s clock now actor r app = ground arith
