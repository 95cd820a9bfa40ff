-- ===== src/Events.antt =====
-- The event bus's surface: the grammar of topics of bridge/src/bridge/eventbus/subscriber.py, and the
-- routes of bridge/src/bridge/routes/events.py. Regex is what the grammar's patterns use of Python's
-- `re`; Topics has the patterns, Grammar proves what they accept; Routes has the routes, and Handshake
-- proves whom the WebSocket lets in.
pub mod Regex
pub mod Topics
pub mod Grammar
pub mod Routes
pub mod Handshake
