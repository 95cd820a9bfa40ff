-- ===== src/Tests.antt =====
-- Runs of the theorems on concrete data.
mod Codec
mod Drafts
mod Services
mod Keys
mod Overlap
mod Processes
mod Notes
mod Bus
mod Front
mod Apple
mod Agent
mod Mail
