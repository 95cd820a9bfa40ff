-- ===== src/Vault.antt =====
-- bridge/src/bridge/providers/vault.py and bridge/src/bridge/routes/vault.py: notes in a directory.
-- Files has the file system, Provider the checks, reads and writes, Route the response and the event.
-- Paths, Contained, Refines (against the map of Notes) and Announced prove.
pub mod Files
pub mod Provider
pub mod Route
pub mod Paths
pub mod Notes
pub mod Contained
pub mod Refines
pub mod Announced
