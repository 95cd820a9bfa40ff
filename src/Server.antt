-- ===== src/Server.antt =====
-- The state that the routes share (`app.state` of bridge/src/bridge/main.py): the connection to
-- agent.db and the Redis client with its queues and its published events
-- (bridge/src/bridge/eventbus/publisher.py).
--
-- Redis is not under src/. Its lists and its channel are modelled by what the routes rely on: RPUSH
-- adds at the end, BLPOP takes from the front, PUBLISH delivers one envelope. `queue_fault` and
-- `pubsub_fault` say whether a list command or a publish raises `RedisError` during the call, with
-- its text.
mod Monad
pub use Monad.*
use open_claw_bridge.Prelude.{
  ℕ, zero, suc, ◌+◌, ◌-◌, ◌*◌, ◌/◌, ◌%◌, ◌^◌, ◌≤◌, ◌<◌, min, max, String, text_length, utf8_length,
  ◌≡◌, refl, sym, ap, ◌∙◌, ◌≢◌, ◌↔◌, ◌⊎◌, inl, inr, Bool, true, false, not, ◌&&◌, ◌||◌, Option,
  none, some, List, [], ◌∷◌, ◌++◌, map, append-nil, append_assoc, arith, str_eq, eq_iff, eq_refl,
  ltb, leb, ◌==◌, if◌then◌else◌, Bool-cases, Option-cases, concat, concat_one, concat_nil,
  take_text, is_empty, or_else, text_mem, is_space, is_blank, length, length-append, get_or,
  is_some, filter, find, any, All, reverse, Forward,
}
use open_claw_bridge.Errors.{
  Result, ok, err, Details, Detail, text, error, dependency_unavailable, BridgeError,
}
use open_claw_bridge.Drafts.{Draft, Job}

-- The envelope of `docs/event-bus.md`.
pub record EventEnvelope : Type 0 where
  pub event_id : String
  pub topic : String
  pub published_at : String
  pub publisher : String
  pub schema_version : String
  pub payload : Details

-- An element of a queue: a job, or bytes that do not decode to one.
pub data Entry : Type 0 where
  job : Job → Entry
  corrupt : String → Entry

pub record Redis : Type 0 where
  pub queues : String → List Entry
  pub published : List EventEnvelope
  pub queue_fault : Option String
  pub pubsub_fault : Option String

-- `event_publisher` is there exactly if `redis_client` is (main.py).
pub record App : Type 0 where
  pub agent_conn : Option (List Draft)
  pub redis_client : Option Redis

abbrev pub Handler : Type 0 → Type 0
Handler A = Exec App A

-- What `uuid4` and `datetime.now` return for one event.
pub record Stamp : Type 0 where
  pub uuid : String
  pub now : String

abbrev pub queue_key : String → String
queue_key agent = concat ("imessage:outbound:" ∷ agent ∷ [])

-- `q[k] = v` on the map of queues.
abbrev pub set_queue : String → List Entry → (String → List Entry) → String → List Entry
set_queue k v q j = if str_eq k j then v else q j

-- `EventEnvelope(...)` as `EventPublisher.publish` builds it.
abbrev pub stamped : Stamp → String → Details → String → EventEnvelope
stamped s topic payload publisher = record {
  event_id = s.uuid;
  topic = topic;
  published_at = s.now;
  publisher = publisher;
  schema_version = "1";
  payload = payload;
}

publish_failed : String → String → BridgeError
publish_failed topic fault =
    error dependency_unavailable "Redis publish failed."
      (("topic", text topic) ∷ ("error", text fault) ∷ [])

-- `EventPublisher.publish` on a client.
unfoldable pub publish_on : Stamp → String → Details → String → App → Redis → Result Stamp × App
unfolding publish_failed
publish_on s topic payload publisher app r = elim r.pubsub_fault [
  | some fault ↦ (err (publish_failed topic fault), app)
  | none ↦ (
    ok s,
    record app {
      redis_client =
          some (record r { published = r.published ++ stamped s topic payload publisher ∷ [] });
    },
  )
]

-- `redis_client.rpush(queue_key, json.dumps(job))` on a client; `none` is a `RedisError`.
unfoldable pub rpush_on : String → Entry → App → Redis → Result (Unit {0}) × App
rpush_on k e app r = (
  ok tt,
  record app {
    redis_client = some (record r { queues = set_queue k (r.queues k ++ e ∷ []) r.queues });
  },
)
