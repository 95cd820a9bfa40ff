-- ===== src/Lifecycle/Invariant.antt =====
-- Every request keeps the table of drafts valid, also one that raises.
use mathlib.Core.Option
use mathlib.Core.Path.{subst}
use open_claw_bridge.Prelude.{
  String, ◌≡◌, refl, inl, inr, true, Option, none, some, List, [], ◌∷◌, arith, Bool-cases,
  Option-cases, get_or,
}
use open_claw_bridge.Drafts.{Draft}
use open_claw_bridge.Drafts.Table.{Table, select, insert, select_dispatch}
use open_claw_bridge.Drafts.Sound.{new_draft-IsSound, patched-IsSound, settled-IsSound, legal}
use open_claw_bridge.Drafts.Rows.{
  IsValid, update-IsValid, insert-IsValid, select-select_dispatch, is_some-select_dispatch,
}
use open_claw_bridge.Drafts.Create.{DraftCreateRequest, new_draft}
use open_claw_bridge.Drafts.Patch.{DraftPatch, Call, patched, target}
use open_claw_bridge.Drafts.Correlate.{or_text, Outcome, settled, correlate_send_outcome}
use open_claw_bridge.Imessage.{
  SendRequest, InboundRequest, outcome_of, pop, imessage_send, imessage_inbound, imessage_outbox,
}
use open_claw_bridge.Server.{App, Stamp, Redis, Entry}
use open_claw_bridge.Lifecycle.{
  Request, create, patch, send, inbound, outbox, confirm, redis, serve, serve_all,
}
use open_claw_bridge.Lifecycle.Tables.{
  accepts, patch_table, agent_conn-create_draft, agent_conn-patch_draft, agent_conn-imessage_sent,
}

-- The table, if agent.db is there, is valid.
abbrev pub OptionIsValid : Option Table → Type 0
OptionIsValid none = Unit
OptionIsValid (some t) = IsValid t

abbrev pub AppIsValid : App → Type 0
AppIsValid app = OptionIsValid app.agent_conn

pub patched-key : (c : Call) (p : DraftPatch) (d : Draft) → (patched c p d).draft_id ≡ d.draft_id
unfolding patched
patched-key c p d = ground arith

pub settled-key : (now : String) (o : Outcome) (d : Draft) → (settled now o d).draft_id ≡ d.draft_id
unfolding settled
settled-key now o d = ground arith

create-IsValid :
    (s : Stamp) (actor : String) (r : DraftCreateRequest) (t : Table)
    → IsValid t
    → IsValid (get_or (insert (new_draft s actor r) t) t)
create-IsValid s actor r t v = elim (Option-cases (insert (new_draft s actor r) t)) [
  | inl clash ↦ rw clash v
  | inr (t', done) ↦
      rw done (insert-IsValid (new_draft s actor r) t done (new_draft-IsSound s actor r) v)
]

accepts-legal :
    (p : DraftPatch) (d : Draft) → accepts p d ≡ true → legal d.status (target p d.status) ≡ true
accepts-legal p d h = ground arith

patch-IsValid :
    (c : Call) (id : String) (p : DraftPatch) (t : Table)
    → IsValid t
    → IsValid (patch_table c id p t)
patch-IsValid c id p t v = elim (Option-cases (select id t)) [
  | inl missing ↦ rw (missing, patch_table) v
  | inr (d, found) ↦ elim (Bool-cases (accepts p d)) [
    | inl fine ↦ subst IsValid (ground arith) (
        update-IsValid id (patched c p) t (patched-key c p)
          (λ x sound e. patched-IsSound c p x (accepts-legal p x (ground arith)) sound) v)
    | inr refused ↦ subst IsValid (ground arith) v
  ]
]

correlate-IsValid :
    (now : String) (o : Outcome) (t : Table)
    → IsValid t
    → IsValid (correlate_send_outcome now o t).1
unfolding correlate_send_outcome
correlate-IsValid now o t v = elim (Option-cases (select_dispatch o.dispatch_message_id t)) [
  | inl missing ↦ subst IsValid (ground arith) v
  | inr (d, found) ↦ subst IsValid (ground arith) (
      update-IsValid d.draft_id (settled now o) t (settled-key now o)
        (λ x sound e.
          settled-IsSound now o x
            (ground (
              arith,
              select-select_dispatch o.dispatch_message_id t {d = d} v.keys found,
              is_some-select_dispatch o.dispatch_message_id t {d = d} found,
            ))
            sound)
        v)
]

OptionIsValid-map :
    (f : Table → Table) (o : Option Table)
    → ((t : Table) → IsValid t → IsValid (f t))
    → OptionIsValid o
    → OptionIsValid (Option.map f o)
OptionIsValid-map f none k v = v
OptionIsValid-map f (some t) k v = k t v

agent_conn-send :
    (s : Stamp) (r : SendRequest) (app : App)
    → (imessage_send s r app).1.agent_conn ≡ app.agent_conn
unfolding imessage_send
agent_conn-send s r app = ground arith

agent_conn-inbound :
    (s : Stamp) (actor : String) (r : InboundRequest) (app : App)
    → (imessage_inbound s actor r app).1.agent_conn ≡ app.agent_conn
unfolding imessage_inbound
agent_conn-inbound s actor r app = ground arith

agent_conn-pop :
    (k : String) (c : Redis) (es : List Entry) (app : App)
    → (pop k c es app).1.agent_conn ≡ app.agent_conn
unfolding pop
agent_conn-pop k c [] app = refl
agent_conn-pop k c (e ∷ es) app = ground arith

agent_conn-outbox :
    (agent : String) (app : App) → (imessage_outbox agent app).1.agent_conn ≡ app.agent_conn
unfolding imessage_outbox
agent_conn-outbox agent app = grind (arith, agent_conn-pop)

-- Whatever a request is and however it ends, a valid table stays valid.
pub serve-IsValid : (r : Request) (app : App) → AppIsValid app → AppIsValid (serve r app)
unfolding serve
serve-IsValid (create s p actor r) app v =
    rw agent_conn-create_draft (OptionIsValid-map _ app.agent_conn (create-IsValid s actor r) v)
serve-IsValid (patch c id p) app v =
    rw agent_conn-patch_draft (OptionIsValid-map _ app.agent_conn (patch-IsValid c id p) v)
serve-IsValid (send s r) app v = rw agent_conn-send v
serve-IsValid (inbound s actor r) app v = rw agent_conn-inbound v
serve-IsValid (outbox agent) app v = rw agent_conn-outbox v
serve-IsValid (confirm s clock now actor r) app v =
    elim (agent_conn-imessage_sent s clock now actor r app) [
      | inl same ↦ rw same v
      | inr written ↦ rw written (
          OptionIsValid-map _ app.agent_conn
            (correlate-IsValid now (outcome_of (or_text r.sent_at clock) r)) v)
    ]
serve-IsValid (redis q p) app v = subst OptionIsValid (ground arith) v

-- From a valid table (the empty one is), or without agent.db, any requests in any order leave a valid
-- table: keys are distinct; a pending draft has no dispatch id and no time of approval; an approved, sent
-- or failed one has a dispatch id, and every dispatch id stands with the time and the name of the
-- approval; a failed draft has an error code, only failed and rejected drafts have one, and a message
-- stands where a code does.
pub serve_all-IsValid :
    (rs : List Request) (app : App) → AppIsValid app → AppIsValid (serve_all rs app)
unfolding serve_all
serve_all-IsValid [] app v = v
serve_all-IsValid (r ∷ rs) app v = serve_all-IsValid rs (serve r app) (serve-IsValid r app v)
