-- ===== src/Relay.antt =====
-- relays/imessage/src/relay: the process that reads the Messages database, forwards what comes in, and
-- sends what the bridge hands out. Apple's database, `osascript` and the bridge's answers are the
-- environment: what they return stands in the arguments.
pub mod Osascript
pub mod BridgeClient
pub mod ChatDb
pub mod Outbound
