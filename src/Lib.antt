-- ===== src/Lib.antt =====
-- A verification library of OpenClaw Bridge: a local HTTP service that lets agents send and receive
-- messages, with an operator who approves what they send. It covers the bridge's drafts, queues and
-- events, its vault, rate limits, idempotency, tokens and errors, the supervisor of its processes, the iMessage
-- relay, and the agent's handler of inbound messages.
--
-- How the parts meet. An agent (brains/agent) receives an inbound message from the event bus and creates
-- a draft. The operator approves it by a PATCH, which puts a job on the queue of the agent. The relay
-- (relays/imessage) takes the job from the outbox, runs AppleScript and reports the outcome, which the
-- bridge writes to the draft. The relay also posts what comes in to the bridge, which publishes it.
-- Around the routes stand the idempotency middleware, the tokens and the rate limiter; the supervisor
-- starts and restarts the bridge and the agent.
--
-- Which file models what (each function has the name of the source's, in this library's spelling):
-- - Errors: bridge/src/bridge/errors.py. A raised exception is an `err` of `Result`.
-- - Drafts, with Table, Create, Patch and Correlate: bridge/src/bridge/routes/agent.py and the table
--   that bridge/src/bridge/migrations declares. Sound and Rows say what a valid table is.
-- - Server: the state that routes share, `app.state`, and bridge/src/bridge/eventbus/publisher.py.
--   Server/Monad: actions on a state that may raise and keep what was written before.
-- - Imessage: bridge/src/bridge/routes/imessage.py.
-- - Lifecycle: sequences of requests to both routers; Tables, Invariant, Transitions, Delivery and
--   Redispatch prove what they do to drafts and queues.
-- - RateLimit, with Lua and Limiter: bridge/src/bridge/ratelimit.py; Bounds, Agreement and
--   Isolation prove.
-- - Asgi: what the ASGI middlewares share.
-- - Idempotency: bridge/src/bridge/idempotency.py; Rows, Replay and Interleaving
--   prove, the last on requests that overlap.
-- - Auth: bridge/src/bridge/auth.py and the credential of keychain.py; Staleness proves.
-- - Keychain: bridge/src/bridge/keychain.py; Writes, Manifest and Lookup prove.
-- - Supervisor, with Startup, Watch and Stop: bridge/src/bridge/supervisor.py.
-- - Relay, with Osascript, BridgeClient, ChatDb and Outbound: relays/imessage/src/relay.
--   ChatDb/Forwarded proves.
-- - Brain: brains/agent/src/agent/handlers/imessage_received.py and state.py; Dedup proves.
--   Loop: brains/agent/src/agent/main.py, as a state machine; Loop/Served proves.
-- - Vault, with Files, Provider and Route: bridge/src/bridge/providers/vault.py and routes/vault.py.
--   Notes is the map that a client sees; Paths, Contained, Refines and Announced prove.
-- - Client: the transport of brains/shared/src/brains_shared/client.py; Bounds proves how often it
--   asks, Bridge puts it in front of Idempotency and Once proves what that gives. EventBus:
--   brains/shared/src/brains_shared/eventbus.py. Agent: brains/shared/src/brains_shared/agent.py, on the
--   responses; Agent/Wire proves what it reads of Drafts/Wire, the bridge's JSON.
-- - Middleware: bridge/src/bridge/middleware.py; Stack proves.
-- - Llm: bridge/src/bridge/providers/llm/router.py, routes/llm.py and telemetry.py; Recorded proves.
-- - Events, with Regex, Topics and Routes: bridge/src/bridge/eventbus/subscriber.py and
--   routes/events.py; Grammar and Handshake prove.
-- - Email, with Parse, Tree, Base64 and ThreadId: bridge/src/bridge/providers/email/threading.py;
--   Threads proves that the loop of Parse reads a Tree. Imap, with Imap/Threads:
--   bridge/src/bridge/providers/email/imap.py; Imap/Session and Imap/Listed prove.
--   Smtp: bridge/src/bridge/providers/email/smtp.py and the send route of routes/email.py; Smtp/Secure
--   proves.
-- - Apple, with Runner, Script, Tsv, Calendar, Reminders and Contacts: bridge/src/bridge/providers/apple.
--   Read says how AppleScript reads a script; Checks, Blocks, Calendar/Program, Calendar/Changes,
--   Reminders/Changes, Contacts/Stripped and Contacts/Found prove.
-- - Health: bridge/src/bridge/routes/health.py; Rolled proves.
-- - Prelude: shared names, tests and list functions. Tests: runs on concrete data.
--
-- What is not under the repository is a parameter or an argument: SHA-256, JSON, the clock, fresh ids,
-- Redis (a list command or a publish works or raises as the state says), the answers of language models,
-- of AppleScript and of HTTP requests,
-- YAML, symbolic links and the parsing of ISO dates. A loop that waits for the world is a recursion on what it meets;
-- where that runs out the answer is `none`, and Supervisor/Startup says how many polls are enough. Only
-- the digits of a number run on fuel, and Apple/Contacts/Limit says that it is enough.
--
-- Simplifications. The rate limiter counts milliseconds and 1/60000 of a token, where the source has
-- binary floats. Handlers run one after the other; in the source they do so between two `await`s, and no
-- route reads and writes a table on two sides of one. Requests are taken after pydantic's validation.
-- Not modelled: the listing of drafts by SQL, the parsing of mail, prices of language models,
-- the traffic of an accepted WebSocket, the generated client, scripts and packaging.
pub mod Prelude
pub mod Errors
pub mod Drafts
pub mod Server
pub mod Asgi
pub mod Imessage
pub mod Lifecycle
pub mod RateLimit
pub mod Idempotency
pub mod Auth
pub mod Keychain
pub mod Supervisor
pub mod Relay
pub mod Brain
pub mod Vault
pub mod Client
pub mod Middleware
pub mod Llm
pub mod Events
pub mod Email
pub mod Apple
pub mod Health
pub mod Tests
