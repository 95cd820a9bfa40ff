-- ===== src/Brain/Loop.antt =====
-- The loop of brains/agent/src/agent/main.py: subscriptions, the dispatch by topic and the stop signal. It
-- is a state machine: what happens is a list, and each happening is a step of the loop.
pub mod Served
use open_claw_bridge.Prelude.{
  ℕ, ◌+◌, String, Bool, true, false, Option, none, some, List, [], ◌∷◌, ◌++◌, str_eq, if◌then◌else◌,
  concat,
}
use open_claw_bridge.Client.EventBus.{Next, received, stopped, refused, exhausted}
use open_claw_bridge.Brain.{Envelope, Effect, World, handle}

-- `_subscribe_topic`
unfoldable pub subscribe_topic : (agent_name : String) → String
subscribe_topic agent_name = concat ("imessage.received." ∷ agent_name ∷ [])

-- Where the loop waits: for a connection, for a frame, or for the stop signal after a loss; or it has
-- ended, by the signal or by an exception that nothing catches.
pub data Mode : Type 0 where
  opening reading waiting finished crashed : Mode

-- `subscriptions` counts the connections of `EventSubscriber.__aenter__` that worked.
pub record Loop : Type 0 where
  pub mode : Mode
  pub is_set : Bool
  pub subscriptions : ℕ
  pub effects : List Effect
  pub processed : List String

abbrev pub start : List String → Loop
start processed = record {
  mode = opening;
  is_set = false;
  subscriptions = 0;
  effects = [];
  processed = processed;
}

pub data Happening : Type 0 where
  -- SIGTERM or SIGINT
  signal : Happening
  -- `__aenter__` returns, or raises `BridgeWebSocketError`.
  connected : Happening
  unreachable : Happening
  -- `__anext__` ends; the world is what the handler meets.
  turn : Next → World → Happening
  -- The five seconds of `asyncio.wait_for` are over.
  timeout : Happening

-- `while not stop.is_set()`
abbrev top : Loop → Loop
top l = record l { mode = if l.is_set then finished else opening }

-- `except BridgeWebSocketError`: the wait ends at once if the signal is set.
abbrev lost : Loop → Loop
lost l = record l { mode = if l.is_set then finished else waiting }

-- `_dispatch`, with the table of `_build_dispatch`: an exception of the handler is logged and no more.
unfoldable pub dispatch :
    (agent_name : String) → World → Envelope → List String → List Effect × List String
unfolding subscribe_topic handle
dispatch agent_name w e processed =
    if str_eq (subscribe_topic agent_name) e.topic
    then (let (raised, effects, processed') = handle w e processed in (effects, processed'))
    else ([], processed)

-- `decode` is `_decode_envelope`, which is none where it raises.
module _ (agent_name : String) (decode : String → Option Envelope) where
  -- The body of `async for`: a frame that does not decode raises through `_serve`.
  unfoldable pub on_frame : World → String → Loop → Loop
  unfolding dispatch
  on_frame w frame l = elim (decode frame) [
    | none ↦ record l { mode = crashed }
    | some e ↦
        let (effects, processed') = dispatch agent_name w e l.processed in
        if l.is_set
        then record l { mode = finished }
        else record l { effects = l.effects ++ effects; processed = processed' }
  ]

  unfoldable pub on_turn : Next → World → Loop → Loop
  unfolding on_frame
  on_turn (received frame) w l = on_frame w frame l
  on_turn stopped w l = top l
  on_turn (refused reason) w l = lost l
  on_turn (exhausted attempts) w l = lost l

  -- `_serve` and `_run_subscription`. The handler of the signal sets the event, which ends the wait.
  unfoldable pub after : Loop → Happening → Loop
  unfolding on_turn
  after l signal = record l {
    is_set = true;
    mode = elim l.mode [ waiting ↦ finished | other ↦ other ];
  }
  after l connected = record l { mode = reading; subscriptions = l.subscriptions + 1 }
  after l unreachable = lost l
  after l (turn n w) = on_turn n w l
  after l timeout = top l

  unfoldable pub serve : Loop → List Happening → Loop
  unfolding after
  serve l [] = l
  serve l (h ∷ hs) = serve (after l h) hs

-- What can happen where the loop waits.
abbrev pub can : Mode → Happening → Bool
can opening signal = true
can reading signal = true
can waiting signal = true
can opening connected = true
can opening unreachable = true
can reading (turn n w) = true
can waiting timeout = true
can _ _ = false
