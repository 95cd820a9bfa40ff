-- ===== src/Lifecycle.antt =====
-- The life of a draft across the routes of bridge/src/bridge/routes/agent.py and imessage.py: every
-- request that writes agent.db or a queue, one after the other. The handlers contain no `await`
-- between their read and their write of a table, so a sequence is what the event loop runs.
pub mod Tables
pub mod Invariant
pub mod Transitions
pub mod Delivery
pub mod Redispatch
use open_claw_bridge.Prelude.{
  ℕ, zero, suc, ◌+◌, ◌-◌, ◌*◌, ◌/◌, ◌%◌, ◌^◌, ◌≤◌, ◌<◌, min, max, String, text_length, utf8_length,
  ◌≡◌, refl, sym, ap, ◌∙◌, ◌≢◌, ◌↔◌, ◌⊎◌, inl, inr, Bool, true, false, not, ◌&&◌, ◌||◌, Option,
  none, some, List, [], ◌∷◌, ◌++◌, map, append-nil, append_assoc, arith, str_eq, eq_iff, eq_refl,
  ltb, leb, ◌==◌, if◌then◌else◌, Bool-cases, Option-cases, concat, concat_one, concat_nil,
  take_text, is_empty, or_else, text_mem, is_space, is_blank, length, length-append, get_or,
  is_some, filter, find, any, All, reverse, Forward,
}
use open_claw_bridge.Drafts.Create.{DraftCreateRequest, create_draft}
use open_claw_bridge.Drafts.Patch.{DraftPatch, Call, patch_draft}
use open_claw_bridge.Imessage.{
  SendRequest, InboundRequest, SentRequest, imessage_send, imessage_inbound, imessage_outbox,
  imessage_sent,
}
use open_claw_bridge.Server.{App, Stamp}

-- A request with what the clock and `uuid4` give its handler. `redis` is the environment: it makes
-- the list commands or the publishes of the next requests raise, or work again.
pub data Request : Type 0 where
  create : Stamp → Stamp → String → DraftCreateRequest → Request
  patch : Call → String → DraftPatch → Request
  send : Stamp → SendRequest → Request
  inbound : Stamp → String → InboundRequest → Request
  outbox : String → Request
  confirm : Stamp → String → String → String → SentRequest → Request
  redis : Option String → Option String → Request

-- The environment's change of Redis.
abbrev set_faults : Option String → Option String → App → App
set_faults q p app = elim app.redis_client [
  | none ↦ app
  | some r ↦ record app { redis_client = some (record r { queue_fault = q; pubsub_fault = p }) }
]

-- The state that a request leaves, whether it is answered or raises.
unfoldable pub serve : Request → App → App
serve (create s p actor r) app = (create_draft s p actor r app).1
serve (patch c id p) app = (patch_draft c id p app).1
serve (send s r) app = (imessage_send s r app).1
serve (inbound s actor r) app = (imessage_inbound s actor r app).1
serve (outbox agent) app = (imessage_outbox agent app).1
serve (confirm s clock now actor r) app = (imessage_sent s clock now actor r app).1
serve (redis q p) app = set_faults q p app

unfoldable pub serve_all : List Request → App → App
serve_all [] app = app
serve_all (r ∷ rs) app = serve_all rs (serve r app)
